-- ===== src/Machine/Uart/Tests.antt =====
-- A device that behaves as a UART, and the driver on it.
use rv64i_operating_system.Base.{
  ℕ, zero, suc, ◌+◌, ◌≡◌, none, List, [], ◌∷◌, ◌++◌, arith, refl, ◌==◌, if◌then◌else◌, bit_and,
}
use rv64i_operating_system.Machine.State.{Machine}
use rv64i_operating_system.Machine.{uart_puts, uart_getc}
use rv64i_operating_system.Machine.Uart.{
  Bus, Driver, uart_init, uart_base, uart_reg_offset, uart_reg, putc, puts, getc, IsUart, Shows,
  Answers, getc-Answers,
}

record Device : Type 0 where
  wait : ℕ
  coming : List ℕ
  sent : List ℕ

abbrev base : ℕ
base = 0x1000_0000

abbrev status : Device → ℕ → List ℕ → ℕ × Device
status d zero [] = (0x60, d)
status d zero (c ∷ rest) = (0x61, d)
status d (suc n) coming = (0x60, record d { wait = n })

abbrev receive : Device → List ℕ → ℕ × Device
receive d [] = (0, d)
receive d (c ∷ rest) = (c, record d { wait = 3; coming = rest })

abbrev bus : Bus Device
bus = record {
  load = λ a d. if a == base + 5 then status d d.wait d.coming else receive d d.coming;
  store = λ a c d. record d { sent = d.sent ++ c ∷ [] };
}

status-keeps :
    (d : Device) (n : ℕ) (coming : List ℕ)
    → ((status d n coming).1.coming ≡ d.coming) × ((status d n coming).1.sent ≡ d.sent)
status-keeps d zero [] = (refl, refl)
status-keeps d zero (c ∷ rest) = (refl, refl)
status-keeps d (suc n) coming = (refl, refl)

status-idle : (d : Device) (n : ℕ) → bit_and (status d n []).0 1 ≡ 0
status-idle d zero = refl
status-idle d (suc n) = refl

bus-IsUart : IsUart bus base (λ d. d.coming) (λ d. d.sent) (λ d. d.wait)
bus-IsUart = record {
  sends = λ c d. (refl, refl);
  reads_status = λ d. status-keeps d d.wait d.coming;
  idle = λ d e. rw e (status-idle (record d { coming = [] }) d.wait);
  not_yet = λ d n e. rw e (refl, refl);
  ready = λ d c rest e e'. rw (e, e') (refl, refl);
  takes = λ d c rest e e'. rw e' (refl, refl, refl);
}

-- `i` is typed, and comes with the third read of the status.
abbrev driver : Driver Device
driver = record { g_uart_base = base; device = record { wait = 2; coming = 105 ∷ []; sent = [] } }

abbrev machine : Machine
machine = record { memory = λ a. none; place = λ a. a; sstatus = 0; input = 105 ∷ []; output = [] }

shows : Shows bus base (λ d. d.coming) (λ d. d.sent) (λ d. d.wait) driver machine
shows = record { at_base = refl; same_input = refl; same_output = refl }

-- All the code of the driver.
driver_code : Unit {0}
unfolding uart_init uart_base uart_reg_offset uart_reg putc puts getc uart_puts uart_getc
driver_code = tt

too_soon : getc bus 2 driver ≡ none
unfolding driver_code
too_soon = refl

moved : uart_base (uart_init 0x2000_0000 driver) ≡ 0x2000_0000
unfolding driver_code
moved = refl

getc-Answers_example :
    Answers bus base (λ d. d.coming) (λ d. d.sent) (λ d. d.wait) 3 driver (uart_getc machine)
getc-Answers_example =
    getc-Answers bus base (λ d. d.coming) (λ d. d.sent) (λ d. d.wait) bus-IsUart 3 driver machine
      shows (omega arith)
