-- ===== src/Memory/Number.antt =====
-- `strtoul` reads what `print_hex` prints.
use rv64i_operating_system.Base.{
  ℕ, zero, suc, ◌+◌, ◌*◌, ◌/◌, ◌%◌, ◌^◌, ◌≤◌, ◌<◌, ◌≡◌, false, some, List, [], ◌∷◌, ◌++◌, arith,
  refl, sym, ap, ap₂, ◌∙◌, ◌==◌, leb, add64, mul64, length,
}
use rv64i_operating_system.Ram.{Ram}
use rv64i_operating_system.Machine.{codes, hex_digit, print_hex}
use rv64i_operating_system.Machine.State.{Machine, Outcome, done, faulted, waiting, halted}
use rv64i_operating_system.Machine.Print.{
  hex_digits, digit_value, hex_value, digit_value-hex_digit, hex_digits_lem, print_hex-done,
}
use rv64i_operating_system.Memory.{skip_blanks, digit_of, read_digits, base_prefix, strtoul}
use rv64i_operating_system.Memory.Text.{TextAt}

digit_of-hex_digit : (d : ℕ) → d < 16 → digit_of (hex_digit d) ≡ some d
unfolding digit_of hex_digit
digit_of-hex_digit d h = ground arith

-- Every byte is a hexadecimal digit as `print_hex` writes it.
abbrev pub IsHex : List ℕ → Type 0
IsHex [] = Unit {0}
IsHex (c ∷ s) = ((d : ℕ) × (d < 16) × (c ≡ hex_digit d)) × IsHex s

hex_digits-IsHex : (left value : ℕ) → IsHex (hex_digits left value)
unfolding hex_digits
hex_digits-IsHex zero value = tt
hex_digits-IsHex (suc left) value =
    ((value / 16 ^ left % 16, omega arith, refl), hex_digits-IsHex left value)

le-hex_value : (s : List ℕ) (acc : ℕ) → acc ≤ hex_value acc s
unfolding hex_value
le-hex_value [] acc = omega arith
le-hex_value (c ∷ s) acc = omega (arith, le-hex_value s (acc * 16 + digit_value c))

-- The loop reads all the digits, if their value fits.
read_digits-hex_value :
    (ram : Ram) (s : List ℕ) (fuel p acc : ℕ)
    → IsHex s
    → TextAt ram p s
    → p + length s < 2 ^ 64
    → length s < fuel
    → hex_value acc s < 2 ^ 64
    → read_digits ram fuel p 16 acc ≡ some (hex_value acc s, p + length s)
unfolding read_digits hex_value
read_digits-hex_value ram s zero p acc hex text top enough small = absurd (omega arith)
read_digits-hex_value ram [] (suc fuel) p acc hex text top enough small =
    let e : p + 0 ≡ p = omega arith in rw (text, e)
read_digits-hex_value ram (c ∷ s) (suc fuel) p acc ((d, lt, char), hex) (here, real, text) top
      enough small =
    let next : add64 p 1 ≡ p + 1 = omega arith in
    let end : p + suc (length s) ≡ p + 1 + length s = omega arith in
    let test : (ram p == 0) ≡ false = ground (arith, here, real) in
    let digit : digit_of (ram p) ≡ some d = rw (here, char) (digit_of-hex_digit d lt) in
    let fits : leb 16 d ≡ false = ground arith in
    let value : digit_value c ≡ d = rw char (digit_value-hex_digit d lt) in
    let small' = rw value at small in
    let sum : add64 (mul64 acc 16) d ≡ acc * 16 + d =
      omega (arith, le-hex_value s (acc * 16 + d), small') in
    rw (test, digit, fits, next, sum, value, end)
      (read_digits-hex_value ram s fuel (p + 1) (acc * 16 + d) hex text (omega arith) (omega arith)
        small')

strtoul-hex_digits :
    (ram : Ram) (fuel s value : ℕ)
    → value < 2 ^ 64
    → TextAt ram s (codes "0x" ++ hex_digits 16 value)
    → s + 18 < 2 ^ 64
    → 18 < fuel
    → strtoul ram fuel s 0 ≡ some (value, s + 18)
unfolding strtoul base_prefix skip_blanks
strtoul-hex_digits ram zero s value small text top enough = absurd (omega arith)
strtoul-hex_digits ram (suc fuel) s value small (zero_char, nz, (x_char, nz', text)) top enough =
    let next : add64 s 1 ≡ s + 1 = omega arith in
    let start : add64 s 2 ≡ s + 1 + 1 = omega arith in
    let (size, same) = hex_digits_lem value small in
    let digits =
      read_digits-hex_value ram (hex_digits 16 value) (suc fuel) (s + 1 + 1) 0
        (hex_digits-IsHex 16 value) text (omega (arith, size)) (omega (arith, size))
        (omega (arith, same)) in
    let skip : skip_blanks ram (suc fuel) s ≡ some s = rw (skip_blanks, zero_char) in
    let prefix : base_prefix ram s 0 ≡ (16, s + 1 + 1) =
      rw (base_prefix, zero_char, next, x_char, start) in
    rw (strtoul, skip, prefix) (digits ∙ ap some (ap₂ (λ v e. (v, e)) same (omega (arith, size))))

-- What a run has sent when it is done.
abbrev sent : Outcome (Unit {0}) → List ℕ
sent (done u m) = m.output
sent (faulted address m) = []
sent (waiting m) = []
sent (halted m) = []

-- Where the memory holds the text that a run of `print_hex` with a 64-bit value has sent, from a UART
-- that nothing was sent to: `strtoul` with base 0 returns that value, and the end of the text as the
-- end pointer.
pub strtoul-print_hex :
    (ram : Ram) (fuel s value : ℕ) (m m' : Machine)
    → value < 2 ^ 64
    → m.output ≡ []
    → print_hex value m ≡ done tt m'
    → TextAt ram s m'.output
    → s + 18 < 2 ^ 64
    → 18 < fuel
    → strtoul ram fuel s 0 ≡ some (value, s + 18)
strtoul-print_hex ram fuel s value m m' small fresh run text top enough =
    let all : m'.output ≡ m.output ++ (codes "0x" ++ hex_digits 16 value) =
      ap sent (sym run ∙ print_hex-done value m) in
    let output : m'.output ≡ codes "0x" ++ hex_digits 16 value = rw fresh at all in
    strtoul-hex_digits ram fuel s value small (rw output at text) top enough
