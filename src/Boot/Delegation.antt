-- ===== src/Boot/Delegation.antt =====
-- The state in which machine mode hands over to the supervisor.
use rv64i_operating_system.Base.{
  ℕ, ◌-◌, ◌^◌, ◌<◌, ◌≡◌, Bool, true, ◌||◌, ◌&&◌, arith, refl, ◌==◌, if◌then◌else◌, bit_and, not64,
}
use rv64i_operating_system.Base.BitAt.{
  bit_at, bit_at-bit_and, bit_at-bit_or, at_all_bits, at_all_bits_sound,
}
use rv64i_operating_system.Csr.{
  Csrs, csr_write_medeleg, csr_write_pmpaddr0, csr_write_pmpcfg0, csr_write_mepc, csr_write_mtvec,
  csr_write_mscratch, csr_set_mstatus_mpp_supervisor, csr_read_mstatus, csr_write_mstatus,
  mstatus_mpp_mask, mstatus_mpp_s,
}
use rv64i_operating_system.Boot.{
  BootSymbols, Mret, delegate_supervisor_exceptions, pmp_init_allow_all, machine_traps_init,
  enter_supervisor_mode, machine_main,
}

-- The exceptions that go to the supervisor: instruction access faults, breakpoints, both calls,
-- and the three page faults.
unfoldable pub is_delegated : ℕ → Bool
is_delegated code =
    code == 1 || code == 3 || code == 8 || code == 9 || code == 12 || code == 13 || code == 15

abbrev mpp_bits : ℕ → Bool
mpp_bits k =
    bit_at k (not64 mstatus_mpp_mask) == (if k == 11 || k == 12 then 0 else 1)
    && bit_at k mstatus_mpp_s == (if k == 11 then 1 else 0)

mpp_lem : (k : ℕ) → k < 64 → mpp_bits k ≡ true
unfolding at_all_bits
mpp_lem k h = at_all_bits_sound mpp_bits 64 k h refl

-- The field MPP of a status word becomes 1, and its other bits stay.
csr_set_mstatus_mpp_supervisor-bits :
    (c : Csrs) (k : ℕ)
    → k < 64
    → bit_at k (csr_set_mstatus_mpp_supervisor c).mstatus
      ≡ (if k == 11 then 1 else if k == 12 then 0 else bit_at k c.mstatus)
unfolding csr_set_mstatus_mpp_supervisor csr_read_mstatus csr_write_mstatus
csr_set_mstatus_mpp_supervisor-bits c k h =
    let kept = bit_and c.mstatus (not64 mstatus_mpp_mask) in
    ground (
      arith,
      mpp_lem k h,
      bit_at-bit_or k kept mstatus_mpp_s,
      bit_at-bit_and k c.mstatus (not64 mstatus_mpp_mask),
    )

abbrev delegated_bits : ℕ → Bool
delegated_bits k = bit_at k 0xb30a == (if is_delegated k then 1 else 0)

delegated_lem : (k : ℕ) → k < 64 → delegated_bits k ≡ true
unfolding at_all_bits is_delegated
delegated_lem k h = at_all_bits_sound delegated_bits 64 k h refl

-- What `machine_main` has set up when it leaves machine mode.
pub record HandsOver (symbols : BootSymbols) (hartid dtb : ℕ) (before : Csrs) (r : Mret)
    : Type 0 where
  pub target : r.csrs.mepc ≡ symbols.supervisor_main
  pub mode :
      (k : ℕ)
      → k < 64
      → bit_at k r.csrs.mstatus
        ≡ (if k == 11 then 1 else if k == 12 then 0 else bit_at k before.mstatus)
  pub delegated :
      (code : ℕ) → code < 64 → bit_at code r.csrs.medeleg ≡ (if is_delegated code then 1 else 0)
  pub own_traps : r.csrs.mtvec ≡ symbols.machine_trap_entry
  pub own_stack : r.csrs.mscratch ≡ symbols.machine_trap_stack_top
  pub protection : (r.csrs.pmpcfg0 ≡ 15) × (r.csrs.pmpaddr0 ≡ 2 ^ 62 - 1)
  pub arguments : (r.a0 ≡ hartid) × (r.a1 ≡ dtb)
  pub paging_off : r.csrs.satp ≡ before.satp

-- `machine_main` hands over to `supervisor_main` in supervisor mode, with its own arguments, and
-- changes no other bit of `mstatus`. Machine traps go to their entry, all of memory is open, and
-- exactly seven exceptions are delegated: those with the codes 1, 3, 8, 9, 12, 13 and 15.
pub machine_main-HandsOver :
    (symbols : BootSymbols) (hartid dtb : ℕ) (c : Csrs)
    → HandsOver symbols hartid dtb c (machine_main symbols hartid dtb c)
unfolding machine_main enter_supervisor_mode pmp_init_allow_all delegate_supervisor_exceptions
    machine_traps_init csr_write_medeleg csr_write_pmpaddr0 csr_write_pmpcfg0 csr_write_mepc
    csr_write_mtvec csr_write_mscratch csr_set_mstatus_mpp_supervisor csr_read_mstatus
    csr_write_mstatus
machine_main-HandsOver symbols hartid dtb c = record {
  target = refl;
  mode = λ k h. csr_set_mstatus_mpp_supervisor-bits c k h;
  delegated = λ k h. ground (arith, delegated_lem k h);
  own_traps = refl;
  own_stack = refl;
  protection = (refl, refl);
  arguments = (refl, refl);
  paging_off = refl;
}
