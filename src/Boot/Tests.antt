-- ===== src/Boot/Tests.antt =====
-- The set-up of machine mode on one hart.
use rv64i_operating_system.Base.{◌≡◌, refl}
use rv64i_operating_system.Csr.{
  Csrs, csr_write_medeleg, csr_write_pmpaddr0, csr_write_pmpcfg0, csr_write_mepc, csr_write_mtvec,
  csr_write_mscratch, csr_set_mstatus_mpp_supervisor, csr_read_mstatus, csr_write_mstatus,
}
use rv64i_operating_system.Boot.{
  BootSymbols, delegate_supervisor_exceptions, pmp_init_allow_all, machine_traps_init,
  enter_supervisor_mode, machine_main,
}
use rv64i_operating_system.Boot.Delegation.{HandsOver, machine_main-HandsOver}

-- Each register holds something to begin with.
abbrev reset : Csrs
reset = record {
  satp = 1;
  stvec = 2;
  sepc = 3;
  scause = 4;
  sie = 5;
  sscratch = 6;
  mstatus = 0x1800;
  mtvec = 8;
  mepc = 9;
  mcause = 10;
  mie = 11;
  medeleg = 12;
  mideleg = 13;
  mtval = 14;
  mscratch = 15;
  pmpaddr0 = 16;
  pmpcfg0 = 17;
  sp = 18;
}

abbrev symbols : BootSymbols
symbols = record {
  machine_trap_entry = 0x8000_1000;
  machine_trap_stack_top = 0x8000_8000;
  supervisor_trap_entry = 0x8020_1000;
  supervisor_trap_stack_top = 0x8020_8000;
  supervisor_main = 0x8020_0000;
}

handed_over : (machine_main symbols 0 0x8220_0000 reset).csrs.mstatus ≡ 0x800
unfolding machine_main enter_supervisor_mode pmp_init_allow_all delegate_supervisor_exceptions
    machine_traps_init csr_write_medeleg csr_write_pmpaddr0 csr_write_pmpcfg0 csr_write_mepc
    csr_write_mtvec csr_write_mscratch csr_set_mstatus_mpp_supervisor csr_read_mstatus
    csr_write_mstatus
handed_over = refl

machine_main-HandsOver_example :
    HandsOver symbols 0 0x8220_0000 reset (machine_main symbols 0 0x8220_0000 reset)
machine_main-HandsOver_example = machine_main-HandsOver symbols 0 0x8220_0000 reset
