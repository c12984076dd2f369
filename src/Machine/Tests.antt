-- ===== src/Machine/Tests.antt =====
-- A machine to run the code on, with one small user page at 0x10000 that holds "Hi\0!".
use rv64i_operating_system.Base.{ℕ, ◌≡◌, true, Option, none, some, [], refl, ◌==◌, if◌then◌else◌}
use rv64i_operating_system.Machine.State.{Machine, Cell, done, halted}
use rv64i_operating_system.Machine.{
  codes, csr_read_sstatus, csr_write_sstatus, load8, store8, uart_putc, uart_puts, uart_getc,
  hex_digit, print_digits, print_hex, debug_prints, debug_print_hex, halt, panic,
}
use rv64i_operating_system.Machine.Print.{printed}

unfoldable pub page_memory : ℕ → Option Cell
page_memory a =
    if a == 0x1_0000
    then some (record { byte = 72; user = true; writable = true })
    else if a == 0x1_0001
    then some (record { byte = 105; user = true; writable = true })
    else if a == 0x1_0002
    then some (record { byte = 0; user = true; writable = true })
    else if a == 0x1_0003
    then some (record { byte = 33; user = true; writable = true })
    else none

abbrev pub machine : Machine
machine = record { memory = page_memory; place = λ a. a; sstatus = 0x20; input = []; output = [] }

-- All the code of the machine.
unfoldable pub machine_code : Unit {0}
unfolding csr_read_sstatus csr_write_sstatus load8 store8 uart_putc uart_puts uart_getc hex_digit
    print_digits print_hex debug_prints debug_print_hex halt panic page_memory
machine_code = tt

print_42 : print_hex 42 machine ≡ done tt (printed machine (codes "0x000000000000002A"))
unfolding machine_code
print_42 = refl

panic_text :
    panic {A = Unit {0}} (codes "f") (codes "m") machine
    ≡ halted (printed machine (codes "Kernel PANIC in f: m\n"))
unfolding machine_code
panic_text = refl
