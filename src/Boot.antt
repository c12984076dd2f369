-- ===== src/Boot.antt =====
-- Machine mode: src/kernel/Machine.cpp, src/utility/CSR.cpp and the set-up of traps in
-- src/kernel/Traps.cpp. An address that the linker places is a field of `BootSymbols`.
pub mod Delegation
mod Tests
use rv64i_operating_system.Base.{ℕ, zero, suc, ◌+◌, ◌-◌, ◌*◌, ◌/◌, ◌%◌, ◌^◌, bit_or, bit_and}
use rv64i_operating_system.Csr.{
  Csrs, csr_write_medeleg, csr_write_pmpaddr0, csr_write_pmpcfg0, csr_write_mepc, csr_write_mtvec,
  csr_write_mscratch, csr_write_stvec, csr_write_sscratch, csr_set_mstatus_mpp_supervisor,
}

pub record BootSymbols : Type 0 where
  pub machine_trap_entry : ℕ
  pub machine_trap_stack_top : ℕ
  pub supervisor_trap_entry : ℕ
  pub supervisor_trap_stack_top : ℕ
  pub supervisor_main : ℕ

unfoldable pub delegate_supervisor_exceptions : Csrs → Csrs
delegate_supervisor_exceptions c =
    let deleg : ℕ = 0 in
    let deleg = bit_or deleg (2 ^ 1) in
    let deleg = bit_or deleg (2 ^ 3) in
    let deleg = bit_or deleg (2 ^ 8) in
    let deleg = bit_or deleg (2 ^ 9) in
    let deleg = bit_or deleg (2 ^ 12) in
    let deleg = bit_or deleg (2 ^ 13) in
    let deleg = bit_or deleg (2 ^ 15) in csr_write_medeleg deleg c

unfoldable pub pmp_init_allow_all : Csrs → Csrs
pmp_init_allow_all c =
    let pmpcfg : ℕ = 0x0f in csr_write_pmpcfg0 pmpcfg (csr_write_pmpaddr0 0x3fff_ffff_ffff_ffff c)

unfoldable pub machine_traps_init : BootSymbols → Csrs → Csrs
machine_traps_init symbols c =
    csr_write_mscratch symbols.machine_trap_stack_top (csr_write_mtvec symbols.machine_trap_entry c)

unfoldable pub supervisor_traps_init : BootSymbols → Csrs → Csrs
supervisor_traps_init symbols c =
    csr_write_sscratch symbols.supervisor_trap_stack_top
      (csr_write_stvec symbols.supervisor_trap_entry c)

-- What an `mret` finds: the registers, and the arguments in `a0` and `a1`.
pub record Mret : Type 0 where
  pub csrs : Csrs
  pub a0 : ℕ
  pub a1 : ℕ

unfoldable pub enter_supervisor_mode : BootSymbols → ℕ → ℕ → Csrs → Mret
enter_supervisor_mode symbols hartid dtb c = record {
  csrs = csr_set_mstatus_mpp_supervisor (csr_write_mepc symbols.supervisor_main c);
  a0 = hartid;
  a1 = dtb;
}

-- The code behind the `mret` is the panic of a return that does not happen.
unfoldable pub machine_main : BootSymbols → ℕ → ℕ → Csrs → Mret
machine_main symbols hartid dtb c =
    enter_supervisor_mode symbols hartid dtb
      (pmp_init_allow_all (delegate_supervisor_exceptions (machine_traps_init symbols c)))

-- src/arch/riscv/boot/dispatch_m.cpp; the same holds of its panic.
unfoldable pub dispatch : BootSymbols → ℕ → ℕ → Csrs → Mret
dispatch symbols hartid dtb c = machine_main symbols hartid dtb c
