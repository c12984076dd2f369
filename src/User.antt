-- ===== src/User.antt =====
-- src/kernel/User.cpp and include/kernel/User.hpp: the registers that a user program starts with,
-- and the way to it. `user_enter` is assembly, and an argument here.
pub mod Context
mod Tests
use rv64i_operating_system.Base.{ℕ, ◌+◌, ◌-◌, ◌%◌, ◌^◌, bit_and, bit_or, not64, sub64}
use rv64i_operating_system.Machine.State.{
  Machine, Outcome, done, Kernel, pure, and_then, ◌>>=◌, ◌>>◌,
}
use rv64i_operating_system.Machine.{csr_read_sstatus, debug_prints, debug_print_hex, codes, panic}
use rv64i_operating_system.Trap.{sstatus_spp}

abbrev pub sstatus_sie : ℕ
sstatus_sie = 2 ^ 1

abbrev pub sstatus_spie : ℕ
sstatus_spie = 2 ^ 5

pub record UserContext : Type 0 where
  pub ra : ℕ
  pub sp : ℕ
  pub gp : ℕ
  pub tp : ℕ
  pub t0 : ℕ
  pub t1 : ℕ
  pub t2 : ℕ
  pub s0 : ℕ
  pub s1 : ℕ
  pub a0 : ℕ
  pub a1 : ℕ
  pub a2 : ℕ
  pub a3 : ℕ
  pub a4 : ℕ
  pub a5 : ℕ
  pub a6 : ℕ
  pub a7 : ℕ
  pub s2 : ℕ
  pub s3 : ℕ
  pub s4 : ℕ
  pub s5 : ℕ
  pub s6 : ℕ
  pub s7 : ℕ
  pub s8 : ℕ
  pub s9 : ℕ
  pub s10 : ℕ
  pub s11 : ℕ
  pub t3 : ℕ
  pub t4 : ℕ
  pub t5 : ℕ
  pub t6 : ℕ
  pub epc : ℕ
  pub status : ℕ

-- value & ~(alignment - 1)
unfoldable pub align_down : ℕ → ℕ → ℕ
align_down value alignment = bit_and value (not64 (sub64 alignment 1))

-- Every field of the context is written, so its old value is not an argument.
unfoldable pub user_context_init : ℕ → ℕ → ℕ → ℕ → Kernel UserContext
unfolding align_down
user_context_init entry stack_top arg0 arg1 = do
  sstatus ← csr_read_sstatus
  let status =
      bit_and (bit_or (bit_and sstatus (not64 sstatus_spp)) sstatus_spie) (not64 sstatus_sie)
  pure record {
    ra = 0;
    sp = align_down stack_top 16;
    gp = 0;
    tp = 0;
    t0 = 0;
    t1 = 0;
    t2 = 0;
    s0 = 0;
    s1 = 0;
    a0 = arg0;
    a1 = arg1;
    a2 = 0;
    a3 = 0;
    a4 = 0;
    a5 = 0;
    a6 = 0;
    a7 = 0;
    s2 = 0;
    s3 = 0;
    s4 = 0;
    s5 = 0;
    s6 = 0;
    s7 = 0;
    s8 = 0;
    s9 = 0;
    s10 = 0;
    s11 = 0;
    t3 = 0;
    t4 = 0;
    t5 = 0;
    t6 = 0;
    epc = entry;
    status = status;
  }

unfoldable pub enter_user_mode :
    {A : Type 0} → (UserContext → Kernel (Unit {0})) → UserContext → Kernel A
enter_user_mode user_enter context = do
  debug_prints (codes "Entering user mode\n")
  debug_prints (codes "  epc: ")
  debug_print_hex context.epc
  debug_prints (codes "\n")
  debug_prints (codes "  sp : ")
  debug_print_hex context.sp
  debug_prints (codes "\n")
  user_enter context
  panic (codes "enter_user_mode") (codes "Returned from user_enter unexpectedly.")
