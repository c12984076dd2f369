-- ===== src/Kernel.antt =====
-- `paging_init` of src/kernel/Paging.cpp: the address space of the kernel. The addresses that the
-- linker places are the fields of `KernelSymbols`.
pub mod Ranges
pub mod Space
pub mod Rights
pub mod Alias
pub mod Supply
pub mod Success
pub mod Tests
use rv64i_operating_system.Base.{
  ℕ, ◌+◌, ◌-◌, ◌*◌, ◌/◌, ◌%◌, ◌^◌, Option, none, some, bit_and, bit_or, not64, add64, sub64,
}
use rv64i_operating_system.AddressMapping.{phys_to_virt, phys_to_virt_ptr}
use rv64i_operating_system.Platform.{PlatformInfo}
use rv64i_operating_system.Csr.{Csrs, csr_write_satp, make_satp_sv39}
use rv64i_operating_system.Allocator.{align_up}
use rv64i_operating_system.Pte.{page_size, pte_r, pte_w, pte_x}
use rv64i_operating_system.Paging.State.{PagingState, Step, and_then, ◌>>=◌, ◌>>◌, pure}
use rv64i_operating_system.Paging.{paging_create_root_table, paging_map_range_early}

pub record KernelSymbols : Type 0 where
  pub text_start : ℕ
  pub text_end : ℕ
  pub rodata_start : ℕ
  pub rodata_end : ℕ
  pub data_start : ℕ
  pub data_end : ℕ
  pub bss_start : ℕ
  pub bss_end : ℕ

pub record KernelState : Type 0 where
  pub paging : PagingState
  pub csrs : Csrs
  pub g_kernel_root : ℕ

abbrev pub kernel_rx : ℕ
kernel_rx = bit_or pte_r pte_x

abbrev pub kernel_rw : ℕ
kernel_rw = bit_or pte_r pte_w

-- address & ~(PAGE_SIZE - 1)
abbrev pub page_base : ℕ → ℕ
page_base address = bit_and address (not64 (page_size - 1))

-- The calls that fill the tables. The result is `root` before the switch: a physical address.
unfoldable pub kernel_tables : KernelSymbols → PlatformInfo → Step ℕ
kernel_tables symbols platform = do
  root ← paging_create_root_table
  paging_map_range_early root symbols.text_start symbols.text_start
      (sub64 symbols.text_end symbols.text_start) kernel_rx
  paging_map_range_early root symbols.rodata_start symbols.rodata_start
      (sub64 symbols.rodata_end symbols.rodata_start) pte_r
  paging_map_range_early root symbols.data_start symbols.data_start
      (sub64 symbols.data_end symbols.data_start) kernel_rw
  paging_map_range_early root symbols.bss_start symbols.bss_start
      (sub64 symbols.bss_end symbols.bss_start) kernel_rw
  let uart_page = page_base platform.uart_base
  paging_map_range_early root uart_page uart_page page_size kernel_rw
  let dtb_page_base = page_base platform.dtb_addr
  let dtb_page_end = align_up (add64 platform.dtb_addr platform.dtb_size) page_size
  paging_map_range_early root dtb_page_base dtb_page_base (sub64 dtb_page_end dtb_page_base)
      kernel_rw
  paging_map_range_early root (phys_to_virt platform.ram_base) platform.ram_base platform.ram_size
      kernel_rw
  pure root

-- The switch to the new tables, and `root` as the direct map reaches it.
unfoldable pub switch_tables : ℕ → KernelState → Option ℕ × KernelState
switch_tables root_phys s =
    let root = phys_to_virt_ptr root_phys in
    (
      some root,
      record s { csrs = csr_write_satp (make_satp_sv39 root_phys) s.csrs; g_kernel_root = root },
    )

abbrev pub after_tables : Option ℕ → KernelState → Option ℕ × KernelState
after_tables none s = (none, s)
after_tables (some root_phys) s = switch_tables root_phys s

-- `some root` for `return true` with that `root`, and `none` for `return false`.
unfoldable pub paging_init : KernelSymbols → PlatformInfo → KernelState → Option ℕ × KernelState
paging_init symbols platform s =
    let (tables, paging) = kernel_tables symbols platform s.paging in
    after_tables tables (record s { paging = paging })
