-- ===== src/Base/Bits.antt =====
-- Laws of `&` and `|` at variables: one equation for the lowest digit, masks as remainders, and
-- disjoint fields as sums.
use Prim.Native.Nat.{ℕ, zero, suc, ◌+◌, ◌-◌, ◌*◌, ◌/◌, ◌%◌, ◌^◌, ◌≤◌, ◌<◌, min, max}
use Prim.Native.Nat.{bit_and, bit_or, digits, bit_and-bitwise, bit_or-bitwise}
use mathlib.Core.Path.{◌≡◌, refl, sym, ap}
use native.Mathlib.Nat.{pow-suc, one-le-pow, div-add-mod, div-div-eq-div-mul}
use native.Mathlib.Omega.{arith}

-- A count of digits that covers the first number gives what the number itself gives.
digits-count :
    (z : ℕ → ℕ) (f : ℕ → ℕ → ℕ) (n k a b : ℕ) → a ≤ n → a ≤ k → digits z f n a b ≡ digits z f k a b
digits-count z f zero zero zero b p q = refl
digits-count z f zero (suc k) zero b p q = refl
digits-count z f (suc n) zero zero b p q = refl
digits-count z f (suc n) (suc k) zero b p q = refl
digits-count z f zero k (suc a) b p q = elim p [ ]
digits-count z f (suc n) zero (suc a) b p q = elim q [ ]
digits-count z f (suc n) (suc k) (suc a) b p q =
    ap (λ t. t * 2 + f (suc a % 2) (b % 2))
      (digits-count z f n k (suc a / 2) (b / 2) (omega arith) (omega arith))

pub bit_and-digit : (a b : ℕ) → bit_and a b ≡ bit_and (a / 2) (b / 2) * 2 + min (a % 2) (b % 2)
bit_and-digit zero b = omega (arith, bit_and-bitwise 0 b, bit_and-bitwise 0 (b / 2))
bit_and-digit (suc a) b = omega (
  arith,
  bit_and-bitwise (suc a) b,
  bit_and-bitwise (suc a / 2) (b / 2),
  digits-count (λ b. zero) min a (suc a / 2) (suc a / 2) (b / 2) (omega arith) (omega arith),
)

pub bit_or-digit : (a b : ℕ) → bit_or a b ≡ bit_or (a / 2) (b / 2) * 2 + max (a % 2) (b % 2)
bit_or-digit zero b = omega (arith, bit_or-bitwise 0 b, bit_or-bitwise 0 (b / 2))
bit_or-digit (suc a) b = omega (
  arith,
  bit_or-bitwise (suc a) b,
  bit_or-bitwise (suc a / 2) (b / 2),
  digits-count (λ b. b) max a (suc a / 2) (suc a / 2) (b / 2) (omega arith) (omega arith),
)

-- By recursion on a bound, for facts that go from `a / 2` to `a`.
bit_and-zero_below : (n a : ℕ) → a ≤ n → bit_and a 0 ≡ 0
bit_and-zero_below n zero h = bit_and-bitwise 0 0
bit_and-zero_below zero (suc a) h = elim h [ ]
bit_and-zero_below (suc n) (suc a) h =
    omega (arith, bit_and-digit (suc a) 0, bit_and-zero_below n (suc a / 2) (omega arith))

pub bit_and-zero : (a : ℕ) → bit_and a 0 ≡ 0
bit_and-zero a = bit_and-zero_below a a (omega arith)

bit_or-zero_below : (n a : ℕ) → a ≤ n → bit_or a 0 ≡ a
bit_or-zero_below n zero h = bit_or-bitwise 0 0
bit_or-zero_below zero (suc a) h = elim h [ ]
bit_or-zero_below (suc n) (suc a) h =
    omega (arith, bit_or-digit (suc a) 0, bit_or-zero_below n (suc a / 2) (omega arith))

pub bit_or-zero : (a : ℕ) → bit_or a 0 ≡ a
bit_or-zero a = bit_or-zero_below a a (omega arith)

pub zero-bit_or : (a : ℕ) → bit_or 0 a ≡ a
zero-bit_or a = bit_or-bitwise 0 a

half-pow : (k : ℕ) → 2 ^ suc k ≡ 2 * 2 ^ k
half-pow k = omega (arith, pow-suc 2 k)

mod-double : (p a : ℕ) → 0 < p → a % (2 * p) ≡ a / 2 % p * 2 + a % 2
mod-double p a h = grind (arith, div-add-mod a (2 * p), div-add-mod (a / 2) p)

pow-pos : (k : ℕ) → 0 < 2 ^ k
pow-pos k = one-le-pow k 2 (omega arith)

-- `a & (2^k - 1)` is `a % 2^k`.
pub bit_and-low : (k a : ℕ) → bit_and a (2 ^ k - 1) ≡ a % 2 ^ k
bit_and-low zero a = omega (arith, bit_and-zero a)
bit_and-low (suc k) a =
    let e : (2 ^ suc k - 1) / 2 ≡ 2 ^ k - 1 = omega (arith, half-pow k, pow-pos k) in
    let o : (2 ^ suc k - 1) % 2 ≡ 1 = omega (arith, half-pow k, pow-pos k) in
    rw (bit_and-digit a (2 ^ suc k - 1), e, o, bit_and-low k (a / 2), half-pow k)
      (omega (arith, mod-double (2 ^ k) a (pow-pos k)))

-- A mask whose `k` low bits are clear looks at the rest of the number only.
pub bit_and-high : (k a m : ℕ) → bit_and a (m * 2 ^ k) ≡ bit_and (a / 2 ^ k) m * 2 ^ k
bit_and-high zero a m = ground arith
bit_and-high (suc k) a m =
    let d : m * 2 ^ suc k ≡ 2 * (m * 2 ^ k) = omega (arith, ap (λ (t : ℕ). m * t) (half-pow k)) in
    let h : a / 2 ^ suc k ≡ a / 2 / 2 ^ k =
      rw (half-pow k) (sym (div-div-eq-div-mul a 2 (2 ^ k))) in
    rw (d, h)
      (omega (
        arith,
        bit_and-digit a (2 * (m * 2 ^ k)),
        bit_and-high k (a / 2) m,
        ap (λ (t : ℕ). bit_and (a / 2 / 2 ^ k) m * t) (half-pow k),
        ap (λ (t : ℕ). bit_and (a / 2) t) half_of_double,
      ))
  where
    half_of_double : 2 * (m * 2 ^ k) / 2 ≡ m * 2 ^ k
    half_of_double = omega arith

-- `(q << k) | r` is a sum when `r` has at most `k` bits.
pub bit_or-fields : (k q r : ℕ) → r < 2 ^ k → bit_or (q * 2 ^ k) r ≡ q * 2 ^ k + r
bit_or-fields zero q r h =
    let e : r ≡ 0 = omega arith in rw e (omega (arith, bit_or-zero (q * 2 ^ 0)))
bit_or-fields (suc k) q r h =
    let d : q * 2 ^ suc k ≡ 2 * (q * 2 ^ k) = omega (arith, ap (λ (t : ℕ). q * t) (half-pow k)) in
    rw d (
      omega (
        arith,
        bit_or-digit (2 * (q * 2 ^ k)) r,
        ap (λ (t : ℕ). bit_or t (r / 2)) half_of_double,
        bit_or-fields k q (r / 2) (omega (arith, half-pow k)),
      ))
  where
    half_of_double : 2 * (q * 2 ^ k) / 2 ≡ q * 2 ^ k
    half_of_double = omega arith

-- `a | (1 << k)` adds `2^k` unless that bit is set.
pub bit_or-bit : (k a : ℕ) → bit_or a (2 ^ k) ≡ a + (1 - a / 2 ^ k % 2) * 2 ^ k
bit_or-bit zero a = omega (arith, bit_or-digit a 1, bit_or-zero (a / 2))
bit_or-bit (suc k) a =
    let h : a / 2 ^ suc k ≡ a / 2 / 2 ^ k =
      rw (half-pow k) (sym (div-div-eq-div-mul a 2 (2 ^ k))) in
    rw (h, half-pow k)
      (omega (
        arith,
        bit_or-digit a (2 * 2 ^ k),
        bit_or-bit k (a / 2),
        ap (λ (t : ℕ). bit_or (a / 2) t) half_of_double,
      ))
  where
    half_of_double : 2 * 2 ^ k / 2 ≡ 2 ^ k
    half_of_double = omega arith
