-- ===== src/Memory/Text.antt =====
-- `strlen`, `strnlen`, `strchr`, `strrchr` and `memcmp` on texts and areas that do not wrap round
-- the address space.
use rv64i_operating_system.Base.{
  ℕ, zero, suc, ◌+◌, ◌^◌, ◌≤◌, ◌<◌, ◌≡◌, ◌≢◌, ◌↔◌, inl, inr, false, some, List, [], ◌∷◌, arith,
  refl, ap, ◌∙◌, ◌==◌, if◌then◌else◌, u8, add64, length, min, Bool-cases,
}
use native.Mathlib.Decide.{ℕ_discrete}
use rv64i_operating_system.Ram.{Ram}
use rv64i_operating_system.Memory.{
  strlen_loop, strlen, strnlen_loop, strnlen, strchr, strrchr_loop, strrchr, compare_bytes, memcmp,
}

-- The text at an address: its bytes, none of which is NUL, and then a NUL.
abbrev pub TextAt : Ram → ℕ → List ℕ → Type 0
TextAt ram s [] = ram s ≡ 0
TextAt ram s (c ∷ t) = (ram s ≡ c) × (c ≢ 0) × TextAt ram (s + 1) t

strlen_loop_lem :
    (ram : Ram) (t : List ℕ) (fuel s len : ℕ)
    → TextAt ram (s + len) t
    → s + len + length t < 2 ^ 64
    → length t < fuel
    → strlen_loop ram s fuel len ≡ some (len + length t)
unfolding strlen_loop
strlen_loop_lem ram t zero s len text top enough = absurd (omega arith)
strlen_loop_lem ram [] (suc fuel) s len text top enough =
    let a : add64 s len ≡ s + len = omega arith in rw (a, text) (ap some (omega arith))
strlen_loop_lem ram (c ∷ t) (suc fuel) s len (here, real, text) top enough =
    let a : add64 s len ≡ s + len = omega arith in
    let next : s + (len + 1) ≡ s + len + 1 = omega arith in
    let test : (ram (s + len) == 0) ≡ false = ground (arith, here, real) in
    rw (a, test)
      (strlen_loop_lem ram t fuel s (len + 1) (rw next text) (omega arith) (omega arith)
        ∙ ap some (omega arith))

-- `strlen` ends at the NUL, and returns the number of bytes before it.
pub strlen_lem :
    (ram : Ram) (t : List ℕ) (fuel s : ℕ)
    → TextAt ram s t
    → s + length t < 2 ^ 64
    → length t < fuel
    → strlen ram fuel s ≡ some (length t)
unfolding strlen
strlen_lem ram t fuel s text top enough =
    let e : s + 0 ≡ s = omega arith in
    strlen_loop_lem ram t fuel s 0 (rw e text) (omega arith) enough ∙ ap some (omega arith)

strnlen_loop_lem :
    (ram : Ram) (t : List ℕ) (left s len : ℕ)
    → TextAt ram (s + len) t
    → s + len + length t < 2 ^ 64
    → strnlen_loop ram s left len ≡ len + min (length t) left
unfolding strnlen_loop
strnlen_loop_lem ram t zero s len text top = omega arith
strnlen_loop_lem ram [] (suc left) s len text top =
    let a : add64 s len ≡ s + len = omega arith in rw (a, text) (omega arith)
strnlen_loop_lem ram (c ∷ t) (suc left) s len (here, real, text) top =
    let a : add64 s len ≡ s + len = omega arith in
    let next : s + (len + 1) ≡ s + len + 1 = omega arith in
    let test : (ram (s + len) == 0) ≡ false = ground (arith, here, real) in
    rw (a, test)
      (strnlen_loop_lem ram t left s (len + 1) (rw next text) (omega arith) ∙ omega arith)

-- `strnlen` returns what `strlen` returns, or `maxlen` if that is less.
pub strnlen_lem :
    (ram : Ram) (t : List ℕ) (s maxlen : ℕ)
    → TextAt ram s t
    → s + length t < 2 ^ 64
    → strnlen ram s maxlen ≡ min (length t) maxlen
unfolding strnlen
strnlen_lem ram t s maxlen text top =
    let e : s + 0 ≡ s = omega arith in
    strnlen_loop_lem ram t maxlen s 0 (rw e text) (omega arith) ∙ omega arith

-- The address of the first byte of a text that is `c`, or `missing`.
unfoldable pub first_of : ℕ → List ℕ → ℕ → ℕ → ℕ
first_of s [] c missing = missing
first_of s (x ∷ t) c missing = if x == c then s else first_of (s + 1) t c missing

-- The address of the last one.
unfoldable pub last_of : ℕ → List ℕ → ℕ → ℕ → ℕ
last_of s [] c missing = missing
last_of s (x ∷ t) c missing = last_of (s + 1) t c (if x == c then s else missing)

strchr-first_of :
    (ram : Ram) (t : List ℕ) (fuel s c : ℕ)
    → TextAt ram s t
    → s + length t < 2 ^ 64
    → length t < fuel
    → strchr ram fuel s c ≡ some (first_of s t (u8 c) (if c == 0 then s + length t else 0))
unfolding strchr first_of
strchr-first_of ram t zero s c text top enough = absurd (omega arith)
strchr-first_of ram [] (suc fuel) s c text top enough =
    let e : s + 0 ≡ s = omega arith in rw (text, e)
strchr-first_of ram (x ∷ t) (suc fuel) s c (here, real, text) top enough =
    let a : add64 s 1 ≡ s + 1 = omega arith in
    let end : s + suc (length t) ≡ s + 1 + length t = omega arith in
    let test : (ram s == 0) ≡ false = ground (arith, here, real) in
    rw (test, a, here, end)
      (ground (arith, strchr-first_of ram t fuel (s + 1) c text (omega arith) (omega arith)))

strrchr_loop-last_of :
    (ram : Ram) (t : List ℕ) (fuel s c last : ℕ)
    → TextAt ram s t
    → s + length t < 2 ^ 64
    → length t < fuel
    → strrchr_loop ram fuel s c last ≡ some (s + length t, last_of s t (u8 c) last)
unfolding strrchr_loop last_of
strrchr_loop-last_of ram t zero s c last text top enough = absurd (omega arith)
strrchr_loop-last_of ram [] (suc fuel) s c last text top enough =
    let e : s + 0 ≡ s = omega arith in rw (text, e)
strrchr_loop-last_of ram (x ∷ t) (suc fuel) s c last (here, real, text) top enough =
    let a : add64 s 1 ≡ s + 1 = omega arith in
    let end : s + suc (length t) ≡ s + 1 + length t = omega arith in
    let test : (ram s == 0) ≡ false = ground (arith, here, real) in
    rw (test, a, here, end)
      (strrchr_loop-last_of ram t fuel (s + 1) c (if x == u8 c then s else last) text (omega arith)
        (omega arith))

-- `strchr` and `strrchr` of a character that is not NUL return the first and the last place of its
-- low byte in the text, or null if it is not there. Of NUL both return the end of the text.
strchr-strrchr :
    (ram : Ram) (t : List ℕ) (fuel s c : ℕ)
    → TextAt ram s t
    → s + length t < 2 ^ 64
    → length t < fuel
    → (strchr ram fuel s c ≡ some (first_of s t (u8 c) (if c == 0 then s + length t else 0)))
      × (strrchr ram fuel s c ≡ some (if c == 0 then s + length t else last_of s t (u8 c) 0))
unfolding strrchr
strchr-strrchr ram t fuel s c text top enough = (
  strchr-first_of ram t fuel s c text top enough,
  rw (strrchr, strrchr_loop-last_of ram t fuel s c 0 text top enough),
)

compare_bytes-zero_iff :
    (ram : Ram) (a b left i : ℕ)
    → ((x : ℕ) → ram x < 256)
    → a + i + left < 2 ^ 64
    → b + i + left < 2 ^ 64
    → (compare_bytes ram a b left i ≡ 0)
      ↔ ((k : ℕ) → i ≤ k → k < i + left → ram (a + k) ≡ ram (b + k))
unfolding compare_bytes
compare_bytes-zero_iff ram a b zero i bytes top top' =
    (λ e k lo hi. absurd (omega arith), λ h. refl)
compare_bytes-zero_iff ram a b (suc left) i bytes top top' =
    let d : add64 a i ≡ a + i = omega arith in
    let d' : add64 b i ≡ b + i = omega arith in
    let rest = compare_bytes-zero_iff ram a b left (i + 1) bytes (omega arith) (omega arith) in
    rw (d, d')
      (elim (Bool-cases (ram (a + i) == ram (b + i))) [
        | inr differ ↦ rw differ (
          λ e. absurd (ground (arith, bytes (a + i), bytes (b + i))),
          λ h. absurd (ground (arith, h i (omega arith) (omega arith))),
        )
        | inl same ↦ rw same (
          λ e k lo hi. elim (ℕ_discrete k i) [
            | yes here ↦ rw here (ground arith)
            | no later ↦ rest.0 e k (omega arith) (omega arith)
          ],
          λ h. rest.1 (λ k lo hi. h k (omega arith) (omega arith)),
        )
      ])

-- `memcmp` returns 0 exactly if the two areas hold the same bytes.
memcmp-zero_iff :
    (ram : Ram) (a b n : ℕ)
    → ((x : ℕ) → ram x < 256)
    → a + n < 2 ^ 64
    → b + n < 2 ^ 64
    → (memcmp ram a b n ≡ 0) ↔ ((k : ℕ) → k < n → ram (a + k) ≡ ram (b + k))
unfolding memcmp
memcmp-zero_iff ram a b n bytes top top' =
    let both = compare_bytes-zero_iff ram a b n 0 bytes (omega arith) (omega arith) in
    (λ e k h. both.0 e k (omega arith) (omega arith), λ h. both.1 (λ k lo hi. h k (omega arith)))
