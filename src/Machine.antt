-- ===== src/Machine.antt =====
-- The machine that the trap and system call code runs on: memory by virtual address, `sstatus`, and
-- the UART. With the code next to it: src/arch/riscv/UART.cpp, include/utility/Debug.hpp,
-- src/utility/printHex.cpp, src/kernel/panic.cpp, and the `sstatus` accesses of
-- include/utility/CSR.hpp.
pub mod State
pub mod Print
pub mod Uart
pub mod Tests
use State.{Machine, Cell, Outcome, done, faulted, waiting, halted, Kernel, pure, ◌>>=◌, ◌>>◌}
use Prim.Native.Char.{code}
use Prim.Native.String
use Prim.Native.String.{String}
use rv64i_operating_system.Base.{
  ℕ, zero, suc, ◌+◌, ◌-◌, ◌*◌, ◌/◌, ◌%◌, ◌^◌, Bool, true, false, not, ◌&&◌, Option, none, some,
  List, [], ◌∷◌, ◌++◌, ◌==◌, ltb, if◌then◌else◌, bit_and, bit_or, not64, shr,
}

-- SSTATUS_SUM: the supervisor may access user pages.
abbrev pub sstatus_sum : ℕ
sstatus_sum = 2 ^ 18

unfoldable pub csr_read_sstatus : Kernel ℕ
csr_read_sstatus m = done m.sstatus m

unfoldable pub csr_write_sstatus : ℕ → Kernel (Unit {0})
csr_write_sstatus value m = done tt (record m { sstatus = value })

unfoldable pub csr_set_bits_sstatus : ℕ → Kernel (Unit {0})
csr_set_bits_sstatus bits m = done tt (record m { sstatus = bit_or m.sstatus bits })

unfoldable pub csr_clear_bits_sstatus : ℕ → Kernel (Unit {0})
csr_clear_bits_sstatus bits m = done tt (record m { sstatus = bit_and m.sstatus (not64 bits) })

-- An access of the supervisor faults where nothing is mapped, and on a user page without SUM; a
-- store faults also where nothing may be written.
abbrev pub allowed : Machine → Cell → Bool
allowed m cell = not (cell.user && bit_and m.sstatus sstatus_sum == 0)

unfoldable pub load8 : ℕ → Kernel ℕ
load8 address m = elim (m.memory address) [
  | none ↦ faulted address m
  | some cell ↦ if allowed m cell then done cell.byte m else faulted address m
]

abbrev pub with_byte : ℕ → Option Cell → Option Cell
with_byte value none = none
with_byte value (some cell) = some (record cell { byte = value })

-- A byte that is stored shows at every address of its place.
abbrev pub put_byte : (ℕ → ℕ) → (ℕ → Option Cell) → ℕ → ℕ → ℕ → Option Cell
put_byte place memory address value a =
    if place a == place address then with_byte value (memory a) else memory a

unfoldable pub store8 : ℕ → ℕ → Kernel (Unit {0})
store8 address value m = elim (m.memory address) [
  | none ↦ faulted address m
  | some cell ↦
      if allowed m cell && cell.writable
      then done tt (record m { memory = put_byte m.place m.memory address (value % 256) })
      else faulted address m
]

unfoldable pub uart_putc : ℕ → Kernel (Unit {0})
uart_putc c m = done tt (record m { output = m.output ++ c ∷ [] })

-- The list holds the bytes of the text; its end, or a NUL before it, ends the text.
unfoldable pub uart_puts : List ℕ → Kernel (Unit {0})
uart_puts [] = pure tt
uart_puts (c ∷ s) = let rest = uart_puts s in if c == 0 then pure tt else (do uart_putc c; rest)

-- A read polls until a byte is there: with no input left it waits for ever.
unfoldable pub uart_getc : Kernel ℕ
uart_getc m = elim m.input [ [] ↦ waiting m | c ∷ rest ↦ done c (record m { input = rest }) ]

abbrev pub codes : String → List ℕ
codes String.[] = []
codes (String.◌∷◌ c s) = code c ∷ codes s

-- "0123456789ABCDEF"[d]
unfoldable pub hex_digit : ℕ → ℕ
hex_digit d = if ltb d 10 then b'0' + d else b'A' + (d - 10)

-- The loop of `print_hex` with `left` digits to go: the next is the one at bit 4 * (left - 1).
unfoldable pub print_digits : ℕ → ℕ → Kernel (Unit {0})
print_digits zero value = pure tt
print_digits (suc left) value = do
  uart_putc (hex_digit (bit_and (shr value (4 * left)) 0xf))
  print_digits left value

unfoldable pub print_hex : ℕ → Kernel (Unit {0})
print_hex value = do uart_puts (codes "0x"); print_digits 16 value

-- `Debug::debug` is false and nothing sets it.
abbrev pub debug : Bool
debug = false

unfoldable pub debug_prints : List ℕ → Kernel (Unit {0})
debug_prints str = if debug then uart_puts str else pure tt

unfoldable pub debug_print_hex : ℕ → Kernel (Unit {0})
debug_print_hex val = if debug then print_hex val else pure tt

-- `while (1) wfi`
unfoldable pub halt : {A : Type 0} → Kernel A
halt m = halted m

unfoldable pub panic : {A : Type 0} → List ℕ → List ℕ → Kernel A
panic function_name msg = do
  uart_puts (codes "Kernel PANIC in ")
  uart_puts function_name
  uart_puts (codes ": ")
  uart_puts msg
  uart_puts (codes "\n")
  halt
