-- ===== src/Machine/Uart.antt =====
-- src/arch/riscv/UART.cpp on the registers of the device. `Machine` has the device as the bytes that
-- come and go; here the driver loads and stores, and any device whose registers behave as those of a
-- UART are documented to will do.
mod Tests
use rv64i_operating_system.Base.{
  ℕ, zero, suc, ◌+◌, ◌^◌, ◌<◌, ◌≡◌, Bool, true, false, Option, none, some, List, [], ◌∷◌, ◌++◌, inl,
  inr, arith, refl, subst, sym, ap, ◌∙◌, ◌==◌, if◌then◌else◌, bit_and, add64, Bool-cases,
  List-cases,
}
use rv64i_operating_system.Machine.State.{Machine, Outcome, done, faulted, waiting, halted}
use rv64i_operating_system.Machine.{uart_putc, uart_puts, uart_getc}

abbrev uart_rhr : ℕ
uart_rhr = 0

abbrev uart_lsr : ℕ
uart_lsr = 5

-- 1 << 0
abbrev uart_lsr_rx_ready : ℕ
uart_lsr_rx_ready = 1

-- Loads and stores of a byte at an address of the device; a load may change it.
pub record Bus (D : Type 0) : Type 0 where
  pub load : ℕ → D → ℕ × D
  pub store : ℕ → ℕ → D → D

pub record Driver (D : Type 0) : Type 0 where
  pub g_uart_base : ℕ
  pub device : D

module _ {D : Type 0} where
  unfoldable pub uart_init : ℕ → Driver D → Driver D
  uart_init base_address d = record d { g_uart_base = base_address }

  unfoldable pub uart_base : Driver D → ℕ
  uart_base d = d.g_uart_base

  unfoldable pub uart_reg_offset : Driver D → ℕ → ℕ
  uart_reg_offset d offset = add64 d.g_uart_base offset

  unfoldable pub uart_reg : Driver D → ℕ
  uart_reg d = d.g_uart_base

module _ {D : Type 0} (bus : Bus D) where
  unfoldable pub putc : ℕ → Driver D → Driver D
  putc c d = record d { device = bus.store (uart_reg d) c d.device }

  unfoldable pub puts : List ℕ → Driver D → Driver D
  puts [] d = d
  puts (c ∷ s) d = let rest = puts s (putc c d) in if c == 0 then d else rest

  -- A round for each time that the status is read; `none` when the fuel is used up.
  unfoldable pub getc : ℕ → Driver D → Option (ℕ × Driver D)
  getc zero d = none
  getc (suc fuel) d =
      let (status, polled) = bus.load (uart_reg_offset d uart_lsr) d.device in
      let d = record d { device = polled } in
      let rest = getc fuel d in
      if bit_and status uart_lsr_rx_ready == 0
      then rest
      else let (c, taken) = bus.load (uart_reg_offset d uart_rhr) d.device in
        some (c, record d { device = taken })

-- What is documented of a UART at an address, of the bytes that it is still to receive, those sent
-- to it, and the reads of its status until the next byte is there: a store to the first register
-- sends; the status has its ready bit exactly when a byte is there; and a load of the first
-- register then takes that byte.
pub record IsUart {D : Type 0} (bus : Bus D) (base : ℕ) (input output : D → List ℕ) (delay : D → ℕ)
    : Type 0 where
  pub sends :
      (c : ℕ) (d : D)
      → (input (bus.store base c d) ≡ input d) × (output (bus.store base c d) ≡ output d ++ c ∷ [])
  pub reads_status :
      (d : D)
      → (input (bus.load (add64 base 5) d).1 ≡ input d)
        × (output (bus.load (add64 base 5) d).1 ≡ output d)
  pub idle : (d : D) → input d ≡ [] → bit_and (bus.load (add64 base 5) d).0 1 ≡ 0
  pub not_yet :
      (d : D) (n : ℕ)
      → delay d ≡ suc n
      → (bit_and (bus.load (add64 base 5) d).0 1 ≡ 0) × (delay (bus.load (add64 base 5) d).1 ≡ n)
  pub ready :
      (d : D) (c : ℕ) (rest : List ℕ)
      → delay d ≡ 0
      → input d ≡ c ∷ rest
      → (bit_and (bus.load (add64 base 5) d).0 1 ≡ 1) × (delay (bus.load (add64 base 5) d).1 ≡ 0)
  pub takes :
      (d : D) (c : ℕ) (rest : List ℕ)
      → delay d ≡ 0
      → input d ≡ c ∷ rest
      → ((bus.load (add64 base 0) d).0 ≡ c)
        × (input (bus.load (add64 base 0) d).1 ≡ rest)
        × (output (bus.load (add64 base 0) d).1 ≡ output d)

module _ {D : Type 0} (bus : Bus D) (base : ℕ) (input output : D → List ℕ) (delay : D → ℕ) where
  -- The driver is at that address, and its device has the bytes of the machine.
  pub record Shows (d : Driver D) (m : Machine) : Type 0 where
    pub at_base : d.g_uart_base ≡ base
    pub same_input : input d.device ≡ m.input
    pub same_output : output d.device ≡ m.output

  -- The driver answers as the machine does, with this fuel.
  abbrev pub Answers : ℕ → Driver D → Outcome ℕ → Type 0
  Answers fuel d (done c m) = (d' : Driver D) × (getc bus fuel d ≡ some (c, d')) × Shows d' m
  Answers fuel d (faulted address m) = ⊥
  Answers fuel d (waiting m) = getc bus fuel d ≡ none
  Answers fuel d (halted m) = ⊥

  abbrev here : D → Driver D
  here x = record { g_uart_base = base; device = x }

  here-Shows : (x : D) (m : Machine) → input x ≡ m.input → output x ≡ m.output → Shows (here x) m
  here-Shows x m e e' = record { at_base = refl; same_input = e; same_output = e' }

  module _ (is : IsUart bus base input output delay) where
    getc-byte :
        (fuel n : ℕ) (x : D) (m : Machine) (c : ℕ) (rest : List ℕ)
        → input x ≡ c ∷ rest
        → output x ≡ m.output
        → delay x ≡ n
        → n < fuel
        → Answers fuel (here x) (done c (record m { input = rest }))
    unfolding getc uart_reg_offset
    getc-byte zero n x m c rest coming sent wait lt = absurd (omega arith)
    getc-byte (suc fuel) zero x m c rest coming sent wait lt =
        let (same, same') = is.reads_status x in
        let (set, still) = is.ready x c rest wait coming in
        let polled = (bus.load (add64 base 5) x).1 in
        let (value, left, kept) = is.takes polled c rest still (same ∙ coming) in
        rw (set, value)
          (here (bus.load (add64 base 0) polled).1, refl, here-Shows _ _ left (kept ∙ same' ∙ sent))
    getc-byte (suc fuel) (suc n) x m c rest coming sent wait lt =
        let (same, same') = is.reads_status x in
        let (clear, sooner) = is.not_yet x n wait in
        rw clear (
          getc-byte fuel n (bus.load (add64 base 5) x).1 m c rest (same ∙ coming) (same' ∙ sent)
            sooner (omega arith))

    getc-empty : (fuel : ℕ) (x : D) → input x ≡ [] → getc bus fuel (here x) ≡ none
    unfolding getc uart_reg_offset
    getc-empty zero x empty = refl
    getc-empty (suc fuel) x empty =
        let clear = is.idle x empty in
        rw clear (getc-empty fuel (bus.load (add64 base 5) x).1 ((is.reads_status x).0 ∙ empty))

    getc-here :
        (fuel : ℕ) (x : D) (m : Machine)
        → input x ≡ m.input
        → output x ≡ m.output
        → delay x < fuel
        → Answers fuel (here x) (uart_getc m)
    unfolding uart_getc
    getc-here fuel x m coming sent enough = elim (List-cases m.input) [
      | inl empty ↦ rw empty (getc-empty fuel x (coming ∙ empty))
      | inr (c, rest, e) ↦ rw e (getc-byte fuel (delay x) x m c rest (coming ∙ e) sent refl enough)
    ]

    -- On a device that behaves as documented, with fuel for more reads of the status than the next
    -- byte takes to come, `uart_getc` of the driver gives the byte that the machine gives, and what
    -- is left on both sides agrees; if no byte ever comes, it is still polling when the fuel is
    -- used up.
    pub getc-Answers :
        (fuel : ℕ) (d : Driver D) (m : Machine)
        → Shows d m
        → delay d.device < fuel
        → Answers fuel d (uart_getc m)
    getc-Answers fuel d m shows enough =
        subst (λ b. Answers fuel (record { g_uart_base = b; device = d.device }) (uart_getc m))
          (sym shows.at_base) (getc-here fuel d.device m shows.same_input shows.same_output enough)

    putc-Shows :
        (c : ℕ) (d : Driver D) (m : Machine)
        → Shows d m
        → Shows (putc bus c d) (record m { output = m.output ++ c ∷ [] })
    unfolding putc uart_reg
    putc-Shows c d m shows =
        let (same, sent) = is.sends c d.device in
        rw (shows.at_base) (
          here-Shows (bus.store base c d.device) _ (same ∙ shows.same_input)
            (sent ∙ ap (λ o. o ++ c ∷ []) shows.same_output))

    -- On such a device, `uart_puts` of the driver sends what the machine sends, to the NUL of the
    -- text.
    puts-Shows :
        (s : List ℕ) (d : Driver D) (m : Machine)
        → Shows d m
        → (m' : Machine) × (uart_puts s m ≡ done tt m') × Shows (puts bus s d) m'
    unfolding puts uart_puts uart_putc
    puts-Shows [] d m shows = (m, refl, shows)
    puts-Shows (c ∷ s) d m shows = elim (Bool-cases (c == 0)) [
      | inl nul ↦ rw nul (m, refl, shows)
      | inr byte ↦ rw byte (
          puts-Shows s (putc bus c d) (record m { output = m.output ++ c ∷ [] })
            (putc-Shows c d m shows))
    ]
