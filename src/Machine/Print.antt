-- ===== src/Machine/Print.antt =====
-- What the printing functions send to the UART.
use rv64i_operating_system.Base.{
  ℕ, zero, suc, ◌+◌, ◌-◌, ◌*◌, ◌/◌, ◌%◌, ◌^◌, ◌<◌, ◌≡◌, Bool, true, false, List, [], ◌∷◌, ◌++◌,
  arith, refl, ap, sym, ◌∙◌, ◌==◌, ltb, if◌then◌else◌, length,
}
use mathlib.Core.List.{append-nil, append_assoc}
use native.Mathlib.Nat.{pow-suc, one-le-pow, div-add-mod, div-div-eq-div-mul}
use rv64i_operating_system.Base.Bits.{bit_and-low}
use rv64i_operating_system.Machine.State.{Machine, done}
use rv64i_operating_system.Machine.{uart_putc, uart_puts, codes, hex_digit, print_digits, print_hex}

-- The machine after these bytes have been sent.
abbrev pub printed : Machine → List ℕ → Machine
printed m s = record m { output = m.output ++ s }

-- Only the UART has changed.
abbrev pub OnlyUart : Machine → Machine → Type 0
OnlyUart m m' = (m'.memory ≡ m.memory) × (m'.place ≡ m.place) × (m'.sstatus ≡ m.sstatus)

pub printed-printed : (m : Machine) (s t : List ℕ) → printed (printed m s) t ≡ printed m (s ++ t)
printed-printed m s t = ap (λ o. record m { output = o }) (append_assoc m.output s t)

-- A text as `uart_puts` reads it: no NUL inside.
abbrev pub no_nul : List ℕ → Bool
no_nul [] = true
no_nul (c ∷ s) = if c == 0 then false else no_nul s

pub uart_puts_lem :
    (s : List ℕ) (m : Machine) → no_nul s ≡ true → uart_puts s m ≡ done tt (printed m s)
unfolding uart_puts uart_putc
uart_puts_lem [] m h = rw append-nil
uart_puts_lem (c ∷ s) m h =
    let char : (c == 0) ≡ false = ground arith in
    rw (char, uart_puts_lem s (printed m (c ∷ [])) (ground arith), append_assoc)

-- The digits that `print_hex` sends: four bits each, the highest first.
unfoldable pub hex_digits : ℕ → ℕ → List ℕ
hex_digits zero value = []
hex_digits (suc left) value = hex_digit (value / 16 ^ left % 16) ∷ hex_digits left value

-- The number that such digits stand for, read from the left.
unfoldable pub digit_value : ℕ → ℕ
digit_value c = if ltb c b'A' then c - b'0' else c - b'A' + 10

unfoldable pub hex_value : ℕ → List ℕ → ℕ
hex_value acc [] = acc
hex_value acc (c ∷ s) = hex_value (acc * 16 + digit_value c) s

pub digit_value-hex_digit : (d : ℕ) → d < 16 → digit_value (hex_digit d) ≡ d
unfolding digit_value hex_digit
digit_value-hex_digit d h = ground arith

pow16 : (k : ℕ) → 2 ^ (4 * k) ≡ 16 ^ k
pow16 zero = refl
pow16 (suc k) =
    let e : 4 * suc k ≡ suc (suc (suc (suc (4 * k)))) = omega arith in
    rw e (
      omega (
        arith,
        pow-suc 2 (suc (suc (suc (4 * k)))),
        pow-suc 2 (suc (suc (4 * k))),
        pow-suc 2 (suc (4 * k)),
        pow-suc 2 (4 * k),
        pow-suc 16 k,
        pow16 k,
      ))

mod-digit : (p a : ℕ) → 0 < p → a % (16 * p) ≡ a / p % 16 * p + a % p
mod-digit p a h = omega (
  arith,
  div-add-mod a (16 * p),
  div-add-mod a p,
  ap (λ (t : ℕ). p * t) (div-add-mod (a / p) 16),
  ap (λ (t : ℕ). 16 * p * t) below,
)
  where
    below : a / (16 * p) ≡ a / p / 16
    below = let e : 16 * p ≡ p * 16 = omega arith in rw e (sym (div-div-eq-div-mul a p 16))

print_digits_lem :
    (left value : ℕ) (m : Machine)
    → print_digits left value m ≡ done tt (printed m (hex_digits left value))
unfolding print_digits hex_digits uart_putc
print_digits_lem zero value m = rw append-nil
print_digits_lem (suc left) value m =
    rw (
      bit_and-low 4 (value / 2 ^ (4 * left)),
      pow16 left,
      print_digits_lem left value,
      append_assoc,
    )

hex_value-hex_digits :
    (left value acc : ℕ)
    → hex_value acc (hex_digits left value) ≡ acc * 16 ^ left + value % 16 ^ left
unfolding hex_value hex_digits
hex_value-hex_digits zero value acc = omega arith
hex_value-hex_digits (suc left) value acc =
    let p = 16 ^ left in
    let d = value / p % 16 in
    let e : 16 ^ suc left ≡ 16 * p = omega (arith, pow-suc 16 left) in
    ap (λ (t : ℕ). hex_value (acc * 16 + t) (hex_digits left value))
      (digit_value-hex_digit d (omega arith))
    ∙ hex_value-hex_digits left value (acc * 16 + d)
    ∙ rw e (omega (arith, mod-digit p value (one-le-pow left 16 (omega arith))))

pub print_hex-done :
    (value : ℕ) (m : Machine)
    → print_hex value m ≡ done tt (printed m (codes "0x" ++ hex_digits 16 value))
unfolding print_hex
print_hex-done value m =
    rw (uart_puts_lem (codes "0x") m refl, print_digits_lem 16 value, append_assoc)

pub hex_digits_lem :
    (value : ℕ)
    → value < 2 ^ 64
    → (length (hex_digits 16 value) ≡ 16) × (hex_value 0 (hex_digits 16 value) ≡ value)
unfolding hex_digits
hex_digits_lem value h = (refl, omega (arith, hex_value-hex_digits 16 value 0))

-- `print_hex` sends "0x" and sixteen digits that stand for the value, and changes nothing else.
print_hex-value :
    (value : ℕ) (m : Machine)
    → value < 2 ^ 64
    → (digits : List ℕ) × (length digits ≡ 16)
      × (hex_value 0 digits ≡ value)
      × (print_hex value m ≡ done tt (printed m (codes "0x" ++ digits)))
print_hex-value value m h =
    let (size, same) = hex_digits_lem value h in
    (hex_digits 16 value, size, same, print_hex-done value m)
