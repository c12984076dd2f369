-- ===== src/Base/BitAt.antt =====
-- The bit at a position of a word, and what `&` and `|` make of it.
use Prim.Native.Nat.{ℕ, zero, suc, ◌*◌, ◌/◌, ◌%◌, ◌^◌, ◌<◌, min, max, bit_and, bit_or}
use mathlib.Core.Path.{◌≡◌}
use mathlib.Core.Bool.{Bool, true, ◌&&◌}
use native.Mathlib.Nat.{pow-suc, div-div-eq-div-mul}
use native.Mathlib.Omega.{arith}
use rv64i_operating_system.Base.Bits.{bit_and-digit, bit_or-digit}

-- (a >> k) & 1
abbrev pub bit_at : ℕ → ℕ → ℕ
bit_at k a = a / 2 ^ k % 2

bit_at-suc : (k a : ℕ) → bit_at (suc k) a ≡ bit_at k (a / 2)
bit_at-suc k a =
    let d : 2 ^ suc k ≡ 2 * 2 ^ k = omega (arith, pow-suc 2 k) in
    rw (d, ← div-div-eq-div-mul a 2 (2 ^ k))

pub bit_at-bit_and : (k a b : ℕ) → bit_at k (bit_and a b) ≡ min (bit_at k a) (bit_at k b)
bit_at-bit_and zero a b = omega (arith, bit_and-digit a b)
bit_at-bit_and (suc k) a b =
    let half : bit_and a b / 2 ≡ bit_and (a / 2) (b / 2) = omega (arith, bit_and-digit a b) in
    rw (bit_at-suc k (bit_and a b), bit_at-suc k a, bit_at-suc k b, half)
      (bit_at-bit_and k (a / 2) (b / 2))

pub bit_at-bit_or : (k a b : ℕ) → bit_at k (bit_or a b) ≡ max (bit_at k a) (bit_at k b)
bit_at-bit_or zero a b = omega (arith, bit_or-digit a b)
bit_at-bit_or (suc k) a b =
    let half : bit_or a b / 2 ≡ bit_or (a / 2) (b / 2) = omega (arith, bit_or-digit a b) in
    rw (bit_at-suc k (bit_or a b), bit_at-suc k a, bit_at-suc k b, half)
      (bit_at-bit_or k (a / 2) (b / 2))

-- A test that is run at each position below the word's width.
unfoldable pub at_all_bits : (ℕ → Bool) → ℕ → Bool
at_all_bits test zero = true
at_all_bits test (suc width) = at_all_bits test width && test width

pub at_all_bits_sound :
    (test : ℕ → Bool) (width k : ℕ) → k < width → at_all_bits test width ≡ true → test k ≡ true
unfolding at_all_bits
at_all_bits_sound test zero k lt run = elim lt [ ]
at_all_bits_sound test (suc width) k lt run = ground (arith, at_all_bits_sound test width k)
