-- ===== src/Trap/Laws.antt =====
-- Which traps return to the code that they interrupted, and how.
use rv64i_operating_system.Base.{
  ℕ, ◌+◌, ◌*◌, ◌%◌, ◌≡◌, ◌≢◌, ◌⊎◌, true, false, List, arith, refl, ap, ◌∙◌, ◌==◌, if◌then◌else◌,
  bit_and, add64, inl, inr, Bool-cases, some,
}
use rv64i_operating_system.Base.Bits.{bit_and-low}
use rv64i_operating_system.Machine.State.{Machine, Cell, Outcome, done, faulted, halted}
use rv64i_operating_system.Machine.{
  debug_prints, debug_print_hex, codes, panic, halt, load8, allowed, sstatus_sum,
}
use rv64i_operating_system.Machine.Print.{printed, printed-printed, uart_puts_lem}
use rv64i_operating_system.TrapFrame.{TrapFrame}
use rv64i_operating_system.Syscall.{syscall_handle}
use rv64i_operating_system.Trap.{
  panic_trap, trap_code, trap_is_interrupt, trap_from_user, advance_trap, handle_interrupt,
  handle_supervisor_exception, handle_user_exception, handle_exception, trap_handler,
  supervisor_trap_handler,
}

-- How `panic` of a trap leaves the machine.
abbrev pub panicked : Machine → Outcome TrapFrame
panicked m = halted (printed m (codes "Kernel PANIC in panic_trap: Trap fatal.\n"))

pub panic_trap_lem :
    (message : List ℕ) (frame : TrapFrame) (m : Machine) → panic_trap message frame m ≡ panicked m
unfolding panic_trap debug_prints debug_print_hex panic halt
panic_trap_lem message frame m =
    let a = codes "Kernel PANIC in " in
    let b = codes "panic_trap" in
    let c = codes ": " in
    let d = codes "Trap fatal." in
    rw
      (
        uart_puts_lem a m refl,
        uart_puts_lem b (printed m a) refl,
        uart_puts_lem c (printed (printed m a) b) refl,
        uart_puts_lem d (printed (printed (printed m a) b) c) refl,
        uart_puts_lem (codes "\n") (printed (printed (printed (printed m a) b) c) d) refl,
      )
      (ap halted (
        printed-printed (printed (printed (printed m a) b) c) d (codes "\n")
        ∙ printed-printed (printed (printed m a) b) c (codes "Trap fatal.\n")
        ∙ printed-printed (printed m a) b (codes ": Trap fatal.\n")
        ∙ printed-printed m a (codes "panic_trap: Trap fatal.\n")))

interrupt_lem : (frame : TrapFrame) (m : Machine) → handle_interrupt frame m ≡ panicked m
unfolding handle_interrupt
interrupt_lem frame m = ground (
  arith,
  panic_trap_lem (codes "Supervisor software interrupt observed: unimplemented.") frame m,
  panic_trap_lem (codes "Supervisor timer interrupt observed: unimplemented.") frame m,
  panic_trap_lem (codes "Supervisor external interrupt observed: unimplemented.") frame m,
  panic_trap_lem (codes "Unknown interrupt observed.") frame m,
)

supervisor_lem :
    (frame : TrapFrame) (m : Machine)
    → trap_code frame.cause ≢ 3
    → handle_supervisor_exception frame m ≡ panicked m
unfolding handle_supervisor_exception
supervisor_lem frame m other = ground (
  arith,
  panic_trap_lem (codes "Supervisor instruction address misaligned.") frame m,
  panic_trap_lem (codes "Supervisor instruction access fault.") frame m,
  panic_trap_lem (codes "Supervisor illegal instruction.") frame m,
  panic_trap_lem (codes "Supervisor load address misaligned.") frame m,
  panic_trap_lem (codes "Supervisor load access fault.") frame m,
  panic_trap_lem (codes "Supervisor store/AMO address misaligned.") frame m,
  panic_trap_lem (codes "Supervisor store/AMO access fault.") frame m,
  panic_trap_lem (codes "ECALL from U-mode reached supervisor exception path unexpectedly.") frame
      m,
  panic_trap_lem (codes "Unexpected supervisor ecall.") frame m,
  panic_trap_lem (codes "Supervisor instruction page fault.") frame m,
  panic_trap_lem (codes "Supervisor load page fault.") frame m,
  panic_trap_lem (codes "Supervisor store/AMO page fault.") frame m,
  panic_trap_lem (codes "Unknown supervisor exception observed.") frame m,
)

user_lem :
    (frame : TrapFrame) (m : Machine)
    → trap_code frame.cause ≢ 3
    → trap_code frame.cause ≢ 8
    → handle_user_exception frame m ≡ panicked m
unfolding handle_user_exception
user_lem frame m other other' = ground (
  arith,
  panic_trap_lem (codes "User instruction address misaligned.") frame m,
  panic_trap_lem (codes "User instruction access fault.") frame m,
  panic_trap_lem (codes "User illegal instruction.") frame m,
  panic_trap_lem (codes "User load address misaligned.") frame m,
  panic_trap_lem (codes "User load access fault.") frame m,
  panic_trap_lem (codes "User store/AMO address misaligned.") frame m,
  panic_trap_lem (codes "User store/AMO access fault.") frame m,
  panic_trap_lem (codes "User instruction page fault.") frame m,
  panic_trap_lem (codes "User load page fault.") frame m,
  panic_trap_lem (codes "User store/AMO page fault.") frame m,
  panic_trap_lem (codes "Unknown user exception observed.") frame m,
)

quiet : (frame : TrapFrame) (m : Machine) → supervisor_trap_handler frame m ≡ trap_handler frame m
unfolding supervisor_trap_handler debug_prints debug_print_hex
quiet frame m = refl

-- Every interrupt, and every exception but a breakpoint and an `ecall` of the user, ends in the
-- panic of `panic_trap`: the handler sends that one line and the machine stops, with memory and
-- `sstatus` as they were. User faults too stop the machine.
pub supervisor_trap_handler-panics :
    (frame : TrapFrame) (m : Machine)
    → (trap_is_interrupt frame.cause ≡ true)
      ⊎ ((trap_code frame.cause ≢ 3) × (trap_from_user frame ≡ true → trap_code frame.cause ≢ 8))
    → supervisor_trap_handler frame m ≡ panicked m
unfolding trap_handler handle_exception
supervisor_trap_handler-panics frame m (inl interrupt) =
    rw (quiet, trap_handler, interrupt) (interrupt_lem frame m)
supervisor_trap_handler-panics frame m (inr (other, other')) =
    quiet frame m ∙ elim (Bool-cases (trap_is_interrupt frame.cause)) [
      | inl interrupt ↦ rw (trap_handler, interrupt) (interrupt_lem frame m)
      | inr exception ↦ elim (Bool-cases (trap_from_user frame)) [
        | inl user ↦
            rw (trap_handler, exception, handle_exception, user)
              (user_lem frame m other (other' user))
        | inr supervisor ↦
            rw (trap_handler, exception, handle_exception, supervisor)
              (supervisor_lem frame m other)
      ]
    ]

-- An `ecall` of the user goes to `syscall_handle`, with nothing done before or after it.
pub supervisor_trap_handler-ecall :
    (frame : TrapFrame) (m : Machine)
    → trap_is_interrupt frame.cause ≡ false
    → trap_from_user frame ≡ true
    → trap_code frame.cause ≡ 8
    → supervisor_trap_handler frame m ≡ syscall_handle frame m
unfolding trap_handler handle_exception handle_user_exception
supervisor_trap_handler-ecall frame m exception user call =
    quiet frame m
    ∙ rw (trap_handler, exception, handle_exception, user, handle_user_exception, call)

pub breakpoint :
    (frame : TrapFrame) (m : Machine)
    → trap_is_interrupt frame.cause ≡ false
    → trap_code frame.cause ≡ 3
    → supervisor_trap_handler frame m ≡ advance_trap frame m
unfolding trap_handler handle_exception handle_user_exception handle_supervisor_exception
breakpoint frame m exception code = quiet frame m ∙ elim (Bool-cases (trap_from_user frame)) [
  | inl user ↦ rw (trap_handler, exception, handle_exception, user, handle_user_exception, code)
  | inr supervisor ↦
      rw (trap_handler, exception, handle_exception, supervisor, handle_supervisor_exception, code)
]

-- The size of the instruction whose first byte is `low`.
abbrev pub instruction_size : ℕ → ℕ
instruction_size low = if low % 4 == 3 then 4 else 2

-- A breakpoint at an instruction that the supervisor may read goes on after it, by two bytes for a
-- compressed instruction and four for another, and changes nothing else.
supervisor_trap_handler-breakpoint :
    (frame : TrapFrame) (m : Machine) (low high : Cell)
    → trap_is_interrupt frame.cause ≡ false
    → trap_code frame.cause ≡ 3
    → m.memory frame.epc ≡ some low
    → m.memory (add64 frame.epc 1) ≡ some high
    → allowed m low ≡ true
    → allowed m high ≡ true
    → supervisor_trap_handler frame m
      ≡ done (record frame { epc = add64 frame.epc (instruction_size low.byte) }) m
unfolding advance_trap load8
supervisor_trap_handler-breakpoint frame m low high exception code l h may may' =
    breakpoint frame m exception code
    ∙ rw (advance_trap, load8, l, may, h, may')
        (ground (arith, bit_and-low 2 (low.byte + 256 * high.byte)))

-- A breakpoint on a user page is not survived while SUM is clear: the handler faults when it reads
-- the instruction, at the breakpoint's own address.
pub supervisor_trap_handler-user_breakpoint :
    (frame : TrapFrame) (m : Machine) (low : Cell)
    → trap_is_interrupt frame.cause ≡ false
    → trap_code frame.cause ≡ 3
    → m.memory frame.epc ≡ some low
    → low.user ≡ true
    → bit_and m.sstatus sstatus_sum ≡ 0
    → supervisor_trap_handler frame m ≡ faulted frame.epc m
unfolding advance_trap load8
supervisor_trap_handler-user_breakpoint frame m low exception code l user clear =
    breakpoint frame m exception code ∙ ground (arith, l, user, clear)
