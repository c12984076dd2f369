-- ===== src/PagingTests.antt =====
-- include/utility/PagingTests.hpp: the self test that prints how the sections of the kernel are
-- mapped, and those that store to what may not be written. The one that jumps to the data is left
-- out.
pub mod Walk
pub mod Faults
mod Tests
use rv64i_operating_system.Base.{
  ℕ, zero, suc, ◌+◌, ◌*◌, ◌/◌, ◌%◌, add64, Bool, not, List, ◌==◌, if◌then◌else◌, bit_and,
}
use rv64i_operating_system.Ram.{Ram}
use rv64i_operating_system.Pte.{pte_v, pte_r, pte_w, pte_x}
use rv64i_operating_system.Paging.{Found, paging_query}
use rv64i_operating_system.Machine.State.{Kernel, pure, ◌>>=◌, ◌>>◌}
use rv64i_operating_system.Machine.{codes, store8, uart_puts, print_hex}
use rv64i_operating_system.Kernel.{KernelSymbols}

-- (flags & bit) ? name : "-"
abbrev pub mark : ℕ → ℕ → List ℕ → List ℕ
mark flags bit name = if not (bit_and flags bit == 0) then name else codes "-"

-- The text behind the virtual address.
unfoldable pub test_answer : Found → Kernel (Unit {0})
test_answer (found, pa, flags) = if not found then uart_puts (codes " -> unmapped\n") else (do
  uart_puts (codes " -> PA: ")
  print_hex pa
  uart_puts (codes " flags=")
  uart_puts (mark flags pte_v (codes "V"))
  uart_puts (mark flags pte_r (codes "R"))
  uart_puts (mark flags pte_w (codes "W"))
  uart_puts (mark flags pte_x (codes "X"))
  uart_puts (codes "\n"))

unfoldable pub test_va : Ram → ℕ → List ℕ → ℕ → Kernel (Unit {0})
test_va ram root name va = do
  uart_puts name
  uart_puts (codes " VA: ")
  print_hex va
  test_answer (paging_query ram root va)

unfoldable pub test_page_walker : KernelSymbols → Ram → ℕ → Kernel (Unit {0})
test_page_walker symbols ram root = do
  test_va ram root (codes "TEXT   ") symbols.text_start
  test_va ram root (codes "RODATA ") symbols.rodata_start
  test_va ram root (codes "DATA   ") symbols.data_start

-- A store of 64 bits: eight bytes, the lowest first, from an address on; it faults at the first of
-- them that may not be written.
unfoldable pub store_bytes : ℕ → ℕ → ℕ → Kernel (Unit {0})
store_bytes zero address value = pure tt
store_bytes (suc n) address value = do
  store8 address value
  store_bytes n (add64 address 1) (value / 256)

unfoldable pub test_text_write_fault : KernelSymbols → Kernel (Unit {0})
test_text_write_fault symbols = store_bytes 8 symbols.text_start 0xdead_beef_cafe_babe

unfoldable pub test_rodata_write_fault : KernelSymbols → Kernel (Unit {0})
test_rodata_write_fault symbols = store_bytes 8 symbols.rodata_start 0x1122_3344_5566_7788
