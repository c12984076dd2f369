-- ===== src/Memory/Tests.antt =====
-- Runs of the memory functions, and the theorems at inputs that meet their hypotheses.
use rv64i_operating_system.Base.{
  ℕ, ◌+◌, ◌-◌, ◌≡◌, inr, some, none, [], List, arith, refl, leb, if◌then◌else◌, get_or,
}
use rv64i_operating_system.Ram.{Ram}
use rv64i_operating_system.Machine.{codes, hex_digit, print_hex, print_digits, uart_puts, uart_putc}
use rv64i_operating_system.Machine.State.{Machine}
use rv64i_operating_system.Memory.{
  memcpy, memmove, memchr_loop, memchr, skip_blanks, digit_of, read_digits, base_prefix, strtoul,
}
use rv64i_operating_system.Memory.Move.{moved, memcpy-memmove, memmove_lem}
use rv64i_operating_system.Memory.Number.{strtoul-print_hex}

-- The text "0x00000000DEADBEEF" at 0x1000, and zeros.
abbrev printed_text : List ℕ
printed_text = codes "0x00000000DEADBEEF"

unfoldable page : Ram
page a = if leb 0x1000 a then get_or printed_text (a - 0x1000) 0 else 0

strtoul_octal_lookalike : strtoul page 30 0x1001 16 ≡ some (0, 0x1001)
unfolding page strtoul skip_blanks base_prefix read_digits digit_of
strtoul_octal_lookalike = refl

find_x : memchr page 0x1000 b'x' 30 ≡ 0x1001
unfolding page memchr memchr_loop
find_x = refl

memmove_lem_example : (memmove 0x1002 0x1000 18 page).1 0x1002 ≡ moved 0x1002 0x1000 18 page 0x1002
memmove_lem_example = memmove_lem 0x1002 0x1000 18 page 0x1002 (omega arith) (omega arith)

memcpy-memmove_example :
    (memcpy 0x2000 0x1000 18 page).1 0x2001 ≡ (memmove 0x2000 0x1000 18 page).1 0x2001
memcpy-memmove_example =
    memcpy-memmove 0x2000 0x1000 18 page 0x2001 (inr (omega arith)) (omega arith) (omega arith)

abbrev silent : Machine
silent = record { memory = λ a. none; place = λ a. a; sstatus = 0; input = []; output = [] }

strtoul-print_hex_example : strtoul page 30 0x1000 0 ≡ some (0xdead_beef, 0x1000 + 18)
unfolding page print_hex print_digits hex_digit uart_puts uart_putc
strtoul-print_hex_example =
    strtoul-print_hex page 30 0x1000 0xdead_beef silent (record silent { output = printed_text })
      (omega arith) refl refl (omega arith) (omega arith) (omega arith)
