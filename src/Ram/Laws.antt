-- ===== src/Ram/Laws.antt =====
-- What a load sees after a store.
use rv64i_operating_system.Base.{ℕ, ◌+◌, ◌-◌, ◌/◌, ◌%◌, ◌^◌, ◌≤◌, ◌<◌, ◌≡◌, ◌⊎◌, arith, ap}
use rv64i_operating_system.Ram.{Ram, load64, store64}

module _ (ram : Ram) (a v : ℕ) where
  stored_byte : (k : ℕ) → k < 8 → store64 ram a v (a + k) ≡ v / 256 ^ k % 256
  unfolding store64
  stored_byte k h =
      let e : a + k - a ≡ k = omega arith in ground (arith, ap (λ (t : ℕ). v / 256 ^ t % 256) e)

  -- A store changes none of the bytes around it.
  pub store64-outside : (b : ℕ) → (b < a) ⊎ (a + 8 ≤ b) → store64 ram a v b ≡ ram b
  unfolding store64
  store64-outside b h = ground arith

  pub load64-store64_self : v < 2 ^ 64 → load64 (store64 ram a v) a ≡ v
  unfolding load64
  load64-store64_self h = omega (
    arith,
    ap (store64 ram a v) plus_zero,
    stored_byte 0 (omega arith),
    stored_byte 1 (omega arith),
    stored_byte 2 (omega arith),
    stored_byte 3 (omega arith),
    stored_byte 4 (omega arith),
    stored_byte 5 (omega arith),
    stored_byte 6 (omega arith),
    stored_byte 7 (omega arith),
  )
    where
      plus_zero : a ≡ a + 0
      plus_zero = omega arith

  pub load64-store64_apart :
      (b : ℕ) → (b + 8 ≤ a) ⊎ (a + 8 ≤ b) → load64 (store64 ram a v) b ≡ load64 ram b
  unfolding load64
  load64-store64_apart b h = omega (
    arith,
    store64-outside b (omega arith),
    store64-outside (b + 1) (omega arith),
    store64-outside (b + 2) (omega arith),
    store64-outside (b + 3) (omega arith),
    store64-outside (b + 4) (omega arith),
    store64-outside (b + 5) (omega arith),
    store64-outside (b + 6) (omega arith),
    store64-outside (b + 7) (omega arith),
  )

pub load64_ext :
    (ram ram' : Ram) (a : ℕ)
    → ((b : ℕ) → a ≤ b → b < a + 8 → ram' b ≡ ram b)
    → load64 ram' a ≡ load64 ram a
unfolding load64
load64_ext ram ram' a h = omega (
  arith,
  h a (omega arith) (omega arith),
  h (a + 1) (omega arith) (omega arith),
  h (a + 2) (omega arith) (omega arith),
  h (a + 3) (omega arith) (omega arith),
  h (a + 4) (omega arith) (omega arith),
  h (a + 5) (omega arith) (omega arith),
  h (a + 6) (omega arith) (omega arith),
  h (a + 7) (omega arith) (omega arith),
)
