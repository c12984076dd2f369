-- ===== src/Csr.antt =====
-- include/utility/CSR.hpp: one function for each accessor of a control and status register but
-- those of `sstatus`, which are functions of the machine that traps run on. A register holds what
-- was last written to it.
use rv64i_operating_system.Base.{ℕ, ◌*◌, ◌^◌, bit_and, bit_or, not64, shl64, shr}

pub record Csrs : Type 0 where
  pub satp : ℕ
  pub stvec : ℕ
  pub sepc : ℕ
  pub scause : ℕ
  pub sie : ℕ
  pub sscratch : ℕ
  pub mstatus : ℕ
  pub mtvec : ℕ
  pub mepc : ℕ
  pub mcause : ℕ
  pub mie : ℕ
  pub medeleg : ℕ
  pub mideleg : ℕ
  pub mtval : ℕ
  pub mscratch : ℕ
  pub pmpaddr0 : ℕ
  pub pmpcfg0 : ℕ
  pub sp : ℕ

abbrev pub satp_mode_sv39 : ℕ
satp_mode_sv39 = 8

abbrev pub mstatus_mpp_mask : ℕ
mstatus_mpp_mask = 3 * 2 ^ 11

abbrev pub mstatus_mpp_s : ℕ
mstatus_mpp_s = 2 ^ 11

abbrev pub mstatus_mpp_m : ℕ
mstatus_mpp_m = 3 * 2 ^ 11

unfoldable pub csr_read_satp : Csrs → ℕ
csr_read_satp c = c.satp

unfoldable pub csr_write_satp : ℕ → Csrs → Csrs
csr_write_satp value c = record c { satp = value }

unfoldable pub csr_read_stvec : Csrs → ℕ
csr_read_stvec c = c.stvec

unfoldable pub csr_write_stvec : ℕ → Csrs → Csrs
csr_write_stvec value c = record c { stvec = value }

unfoldable pub csr_read_sepc : Csrs → ℕ
csr_read_sepc c = c.sepc

unfoldable pub csr_write_sepc : ℕ → Csrs → Csrs
csr_write_sepc value c = record c { sepc = value }

unfoldable pub csr_read_scause : Csrs → ℕ
csr_read_scause c = c.scause

unfoldable pub csr_read_sie : Csrs → ℕ
csr_read_sie c = c.sie

unfoldable pub csr_write_sie : ℕ → Csrs → Csrs
csr_write_sie value c = record c { sie = value }

unfoldable pub csr_set_bits_sie : ℕ → Csrs → Csrs
csr_set_bits_sie bits c = record c { sie = bit_or c.sie bits }

unfoldable pub csr_clear_bits_sie : ℕ → Csrs → Csrs
csr_clear_bits_sie bits c = record c { sie = bit_and c.sie (not64 bits) }

unfoldable pub csr_read_mstatus : Csrs → ℕ
csr_read_mstatus c = c.mstatus

unfoldable pub csr_write_mstatus : ℕ → Csrs → Csrs
csr_write_mstatus value c = record c { mstatus = value }

unfoldable pub csr_read_mtvec : Csrs → ℕ
csr_read_mtvec c = c.mtvec

unfoldable pub csr_write_mtvec : ℕ → Csrs → Csrs
csr_write_mtvec value c = record c { mtvec = value }

unfoldable pub csr_read_mepc : Csrs → ℕ
csr_read_mepc c = c.mepc

unfoldable pub csr_write_mepc : ℕ → Csrs → Csrs
csr_write_mepc value c = record c { mepc = value }

unfoldable pub csr_read_mcause : Csrs → ℕ
csr_read_mcause c = c.mcause

unfoldable pub csr_read_mie : Csrs → ℕ
csr_read_mie c = c.mie

unfoldable pub csr_write_mie : ℕ → Csrs → Csrs
csr_write_mie value c = record c { mie = value }

unfoldable pub csr_read_medeleg : Csrs → ℕ
csr_read_medeleg c = c.medeleg

unfoldable pub csr_write_medeleg : ℕ → Csrs → Csrs
csr_write_medeleg value c = record c { medeleg = value }

unfoldable pub csr_read_mideleg : Csrs → ℕ
csr_read_mideleg c = c.mideleg

unfoldable pub csr_write_mideleg : ℕ → Csrs → Csrs
csr_write_mideleg value c = record c { mideleg = value }

unfoldable pub csr_set_bits_mstatus : ℕ → Csrs → Csrs
csr_set_bits_mstatus bits c = record c { mstatus = bit_or c.mstatus bits }

unfoldable pub csr_clear_bits_mstatus : ℕ → Csrs → Csrs
csr_clear_bits_mstatus bits c = record c { mstatus = bit_and c.mstatus (not64 bits) }

unfoldable pub csr_set_bits_mie : ℕ → Csrs → Csrs
csr_set_bits_mie bits c = record c { mie = bit_or c.mie bits }

unfoldable pub csr_clear_bits_mie : ℕ → Csrs → Csrs
csr_clear_bits_mie bits c = record c { mie = bit_and c.mie (not64 bits) }

unfoldable pub csr_read_mtval : Csrs → ℕ
csr_read_mtval c = c.mtval

unfoldable pub make_satp_sv39 : ℕ → ℕ
make_satp_sv39 root_table_physical_address =
    bit_or (shl64 satp_mode_sv39 60) (shr root_table_physical_address 12)

unfoldable pub csr_write_pmpaddr0 : ℕ → Csrs → Csrs
csr_write_pmpaddr0 value c = record c { pmpaddr0 = value }

unfoldable pub csr_write_pmpcfg0 : ℕ → Csrs → Csrs
csr_write_pmpcfg0 value c = record c { pmpcfg0 = value }

unfoldable pub csr_read_sp : Csrs → ℕ
csr_read_sp c = c.sp

unfoldable pub csr_write_sscratch : ℕ → Csrs → Csrs
csr_write_sscratch value c = record c { sscratch = value }

unfoldable pub csr_read_sscratch : Csrs → ℕ
csr_read_sscratch c = c.sscratch

unfoldable pub csr_write_mscratch : ℕ → Csrs → Csrs
csr_write_mscratch value c = record c { mscratch = value }

unfoldable pub csr_read_mscratch : Csrs → ℕ
csr_read_mscratch c = c.mscratch

unfoldable pub csr_set_mstatus_mpp_supervisor : Csrs → Csrs
unfolding csr_read_mstatus csr_write_mstatus
csr_set_mstatus_mpp_supervisor c =
    let value = bit_and (csr_read_mstatus c) (not64 mstatus_mpp_mask) in
    csr_write_mstatus (bit_or value mstatus_mpp_s) c

unfoldable pub csr_set_mstatus_mpp_machine : Csrs → Csrs
unfolding csr_read_mstatus csr_write_mstatus
csr_set_mstatus_mpp_machine c =
    let value = bit_and (csr_read_mstatus c) (not64 mstatus_mpp_mask) in
    csr_write_mstatus (bit_or value mstatus_mpp_m) c
