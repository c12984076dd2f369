-- ===== src/User/Context.antt =====
-- The registers with which a user program starts.
use rv64i_operating_system.Base.{
  ℕ, ◌+◌, ◌-◌, ◌*◌, ◌/◌, ◌%◌, ◌^◌, ◌≤◌, ◌<◌, ◌≡◌, arith, refl, ◌==◌, ==_iff, if◌then◌else◌, bit_and,
  bit_or, min, max, not64,
}
use rv64i_operating_system.Base.BitAt.{
  bit_at, bit_at-bit_and, bit_at-bit_or, at_all_bits, at_all_bits_sound,
}
use rv64i_operating_system.Base.Bits.{bit_and-high, bit_and-low}
use rv64i_operating_system.Machine.State.{Machine, done}
use rv64i_operating_system.Machine.{csr_read_sstatus}
use rv64i_operating_system.Trap.{sstatus_spp}
use rv64i_operating_system.User.{
  UserContext, user_context_init, align_down, sstatus_sie, sstatus_spie,
}

-- The bits of the status word that a user program is entered with: SPP and SIE clear, SPIE set.
abbrev pub entry_bit : ℕ → ℕ → ℕ
entry_bit k status =
    if k == 8 then 0 else if k == 1 then 0 else if k == 5 then 1 else bit_at k status

-- The three masks, one bit at a time.
masked :
    (b k : ℕ)
    → b < 2
    → min
        (max (min b (if k == 8 then 0 else 1)) (if k == 5 then 1 else 0))
        (if k == 1 then 0 else 1)
      ≡ (if k == 8 then 0 else if k == 1 then 0 else if k == 5 then 1 else b)
masked b k h = ground arith

mask_bits :
    (k : ℕ)
    → k < 64
    → (bit_at k (not64 sstatus_spp) ≡ (if k == 8 then 0 else 1))
      × (bit_at k sstatus_spie ≡ (if k == 5 then 1 else 0))
      × (bit_at k (not64 sstatus_sie) ≡ (if k == 1 then 0 else 1))
unfolding at_all_bits
mask_bits k h = (
  (==_iff _ _).0 (
      at_all_bits_sound (λ k. bit_at k (not64 sstatus_spp) == (if k == 8 then 0 else 1)) 64 k h
        refl),
  (==_iff _ _).0
      (at_all_bits_sound (λ k. bit_at k sstatus_spie == (if k == 5 then 1 else 0)) 64 k h refl),
  (==_iff _ _).0 (
      at_all_bits_sound (λ k. bit_at k (not64 sstatus_sie) == (if k == 1 then 0 else 1)) 64 k h
        refl),
)

status_bits :
    (status k : ℕ)
    → k < 64
    → bit_at k
        (bit_and (bit_or (bit_and status (not64 sstatus_spp)) sstatus_spie) (not64 sstatus_sie))
      ≡ entry_bit k status
status_bits status k h =
    let a = bit_and status (not64 sstatus_spp) in
    let (spp, spie, sie) = mask_bits k h in
    rw
      (
        bit_at-bit_and k (bit_or a sstatus_spie) (not64 sstatus_sie),
        bit_at-bit_or k a sstatus_spie,
        bit_at-bit_and k status (not64 sstatus_spp),
        spp,
        spie,
        sie,
      )
      (masked (bit_at k status) k (omega arith))

align_down_lem : (a : ℕ) → a < 2 ^ 64 → align_down a 16 ≡ a / 16 * 16
unfolding align_down
align_down_lem a h = omega (arith, bit_and-high 4 a (2 ^ 60 - 1), bit_and-low 60 (a / 16))

-- What the program finds: its two arguments, the stack at the 16-byte boundary below `stack_top`,
-- and zero in the other registers.
pub record IsEntry (entry stack_top arg0 arg1 status : ℕ) (c : UserContext) : Type 0 where
  pub starts : c.epc ≡ entry
  pub stack : (c.sp % 16 ≡ 0) × (c.sp ≤ stack_top) × (stack_top < c.sp + 16)
  pub arguments : (c.a0 ≡ arg0) × (c.a1 ≡ arg1)
  pub status_is : (k : ℕ) → k < 64 → bit_at k c.status ≡ entry_bit k status
  pub cleared :
      (c.ra ≡ 0)
      × (c.gp ≡ 0)
      × (c.tp ≡ 0)
      × (c.t0 ≡ 0)
      × (c.t1 ≡ 0)
      × (c.t2 ≡ 0)
      × (c.s0 ≡ 0)
      × (c.s1 ≡ 0)
      × (c.a2 ≡ 0)
      × (c.a3 ≡ 0)
      × (c.a4 ≡ 0)
      × (c.a5 ≡ 0)
      × (c.a6 ≡ 0)
      × (c.a7 ≡ 0)
      × (c.s2 ≡ 0)
      × (c.s3 ≡ 0)
      × (c.s4 ≡ 0)
      × (c.s5 ≡ 0)
      × (c.s6 ≡ 0)
      × (c.s7 ≡ 0)
      × (c.s8 ≡ 0)
      × (c.s9 ≡ 0)
      × (c.s10 ≡ 0)
      × (c.s11 ≡ 0)
      × (c.t3 ≡ 0)
      × (c.t4 ≡ 0)
      × (c.t5 ≡ 0)
      × (c.t6 ≡ 0)

-- `user_context_init` leaves the machine alone, and its context enters user mode with interrupts
-- off until then and on afterwards: SPP and SIE are clear and SPIE is set in the saved status, whose
-- other bits are those of `sstatus`. No register of the kernel leaks into the context.
pub user_context_init-IsEntry :
    (entry stack_top arg0 arg1 : ℕ) (m : Machine)
    → stack_top < 2 ^ 64
    → (c : UserContext) × (user_context_init entry stack_top arg0 arg1 m ≡ done c m)
      × IsEntry entry stack_top arg0 arg1 m.sstatus c
unfolding user_context_init csr_read_sstatus
user_context_init-IsEntry entry stack_top arg0 arg1 m h = (
  _,
  refl,
  record {
    starts = refl;
    stack = omega (arith, align_down_lem stack_top h);
    arguments = (refl, refl);
    status_is = λ k lt. status_bits m.sstatus k lt;
    cleared = omega arith;
  },
)
