-- ===== src/Syscall/Copy.antt =====
-- `copy_from_user` and `copy_to_user` against the bytes that the memory holds.
use rv64i_operating_system.Base.{
  ℕ, zero, suc, ◌+◌, ◌/◌, ◌^◌, ◌<◌, ◌≡◌, ◌≢◌, ◌⊎◌, true, false, Option, none, some, List, [], ◌∷◌,
  arith, refl, ap, ◌==◌, bit_and, bit_or, add64, length, take, drop, Option-cases, inl, inr,
}
use rv64i_operating_system.Base.Bits.{bit_or-bit, bit_and-high, bit_and-low}
use rv64i_operating_system.Machine.State.{Machine, Cell, done, faulted}
use rv64i_operating_system.Machine.{
  csr_read_sstatus, csr_write_sstatus, sstatus_sum, allowed, load8,
}
use rv64i_operating_system.Syscall.{read_bytes, copy_from_user}

-- The bytes at `n` addresses from `a` on, if all are mapped.
unfoldable pub bytes_at : (ℕ → Option Cell) → ℕ → ℕ → Option (List ℕ)
bytes_at memory a zero = some []
bytes_at memory a (suc n) = elim (memory a) [
  | none ↦ none
  | some cell ↦ elim (bytes_at memory (add64 a 1) n) [
    | none ↦ none
    | some bytes ↦ some (cell.byte ∷ bytes)
  ]
]

sum_bit : (status : ℕ) → (bit_and (bit_or status sstatus_sum) sstatus_sum == 0) ≡ false
sum_bit status =
    let with_sum = bit_or status sstatus_sum in
    ground
      (arith, bit_or-bit 18 status, bit_and-high 18 with_sum 1, bit_and-low 1 (with_sum / 2 ^ 18))

-- The state inside a copy.
abbrev pub with_sum : Machine → Machine
with_sum m = record m { sstatus = bit_or m.sstatus sstatus_sum }

pub allowed-with_sum : (m : Machine) (cell : Cell) → allowed (with_sum m) cell ≡ true
allowed-with_sum m cell = ground (arith, sum_bit m.sstatus)

load8-with_sum :
    (m : Machine) (a : ℕ) (cell : Cell)
    → m.memory a ≡ some cell
    → load8 a (with_sum m) ≡ done cell.byte (with_sum m)
unfolding load8
load8-with_sum m a cell h = rw (load8, h, allowed-with_sum m cell)

read_bytes-mapped :
    (m : Machine) (n a : ℕ) (bytes : List ℕ)
    → bytes_at m.memory a n ≡ some bytes
    → read_bytes a n (with_sum m) ≡ done bytes (with_sum m)
unfolding read_bytes bytes_at
read_bytes-mapped m zero a bytes h = ground arith
read_bytes-mapped m (suc n) a bytes h = elim (Option-cases (m.memory a)) [
  | inl e ↦ absurd (ground arith)
  | inr (cell, e) ↦ elim (Option-cases (bytes_at m.memory (add64 a 1) n)) [
    | inl e' ↦ absurd (ground arith)
    | inr (rest, e') ↦
        rw (load8-with_sum m a cell e, read_bytes-mapped m n (add64 a 1) rest e')
          (ap (λ b. done b (with_sum m)) (ground arith))
  ]
]

read_bytes-unmapped :
    (m : Machine) (n a : ℕ)
    → bytes_at m.memory a n ≡ none
    → (fault : ℕ) × (m.memory fault ≡ none)
      × (read_bytes a n (with_sum m) ≡ faulted fault (with_sum m))
unfolding read_bytes bytes_at load8
read_bytes-unmapped m zero a h = absurd (ground arith)
read_bytes-unmapped m (suc n) a h = elim (Option-cases (m.memory a)) [
  | inl e ↦ (a, e, rw (load8, e))
  | inr (cell, e) ↦
      let (fault, gone, stops) = read_bytes-unmapped m n (add64 a 1) (ground arith) in
      (fault, gone, rw (load8, e, allowed-with_sum m cell, stops))
]

-- Where all the bytes are mapped, `copy_from_user` returns them and changes nothing: `sstatus` is
-- as before the call.
pub copy_from_user-mapped :
    (m : Machine) (a n : ℕ) (bytes : List ℕ)
    → a ≢ 0
    → bytes_at m.memory a n ≡ some bytes
    → copy_from_user a n m ≡ done (some bytes) m
unfolding copy_from_user csr_read_sstatus csr_write_sstatus
copy_from_user-mapped m a n bytes pos h =
    let nonnull : (a == 0) ≡ false = ground arith in rw (nonnull, read_bytes-mapped m n a bytes h)

-- Where one of them is not, the supervisor faults at an address that is not mapped, with SUM set.
pub copy_from_user-unmapped :
    (m : Machine) (a n : ℕ)
    → a ≢ 0
    → bytes_at m.memory a n ≡ none
    → (fault : ℕ) × (m.memory fault ≡ none) × (copy_from_user a n m ≡ faulted fault (with_sum m))
unfolding copy_from_user csr_read_sstatus csr_write_sstatus
copy_from_user-unmapped m a n pos h =
    let nonnull : (a == 0) ≡ false = ground arith in
    let (fault, gone, stops) = read_bytes-unmapped m n a h in (fault, gone, rw (nonnull, stops))

pub bytes_at-split :
    (memory : ℕ → Option Cell) (c n a : ℕ) (bytes : List ℕ)
    → a + c < 2 ^ 64
    → bytes_at memory a (c + n) ≡ some bytes
    → (bytes_at memory a c ≡ some (take c bytes))
      × (bytes_at memory (a + c) n ≡ some (drop c bytes))
unfolding bytes_at
bytes_at-split memory zero n a bytes top h =
    let e : a + 0 ≡ a = omega arith in let e' : 0 + n ≡ n = omega arith in (refl, rw e (rw e' at h))
bytes_at-split memory (suc c) n a bytes top h =
    let e : suc c + n ≡ suc (c + n) = omega arith in
    let h' = rw e at h in
    let next : add64 a 1 ≡ a + 1 = omega arith in
    let end : a + suc c ≡ a + 1 + c = omega arith in
    elim (Option-cases (memory a)) [
      | inl gone ↦ absurd (ground (arith, h'))
      | inr (cell, here) ↦ elim (Option-cases (bytes_at memory (a + 1) (c + n))) [
        | inl gone ↦ absurd (ground (arith, h', next))
        | inr (rest, more) ↦
            let split = bytes_at-split memory c n (a + 1) rest (omega arith) more in
            let parts : bytes ≡ cell.byte ∷ rest = ground (arith, h', next) in
            rw (parts, end) (ground (arith, split, next, here))
      ]
    ]

pub length-bytes_at :
    (memory : ℕ → Option Cell) (n a : ℕ) (bytes : List ℕ)
    → bytes_at memory a n ≡ some bytes
    → length bytes ≡ n
unfolding bytes_at
length-bytes_at memory zero a bytes h = ground arith
length-bytes_at memory (suc n) a bytes h = elim (Option-cases (bytes_at memory (add64 a 1) n)) [
  | inl gone ↦ absurd (ground arith)
  | inr (rest, more) ↦ ground (arith, length-bytes_at memory n (add64 a 1) rest more)
]

-- If one of the bytes is missing, it is in the first part or in the second.
pub bytes_at-missing :
    (memory : ℕ → Option Cell) (c n a : ℕ)
    → a + c < 2 ^ 64
    → bytes_at memory a (c + n) ≡ none
    → (bytes_at memory a c ≡ none)
      ⊎ ((front : List ℕ) × (bytes_at memory a c ≡ some front) × (bytes_at memory (a + c) n ≡ none))
unfolding bytes_at
bytes_at-missing memory zero n a top h =
    let e : a + 0 ≡ a = omega arith in
    let e' : 0 + n ≡ n = omega arith in inr ([], refl, rw e (rw e' at h))
bytes_at-missing memory (suc c) n a top h =
    let e : suc c + n ≡ suc (c + n) = omega arith in
    let h' = rw e at h in
    let next : add64 a 1 ≡ a + 1 = omega arith in
    let end : a + suc c ≡ a + 1 + c = omega arith in
    elim (Option-cases (memory a)) [
      | inl gone ↦ inl (rw (gone, bytes_at))
      | inr (cell, here) ↦
          let below : bytes_at memory (a + 1) (c + n) ≡ none = ground (arith, h', next) in
          elim (bytes_at-missing memory c n (a + 1) (omega arith) below) [
            | inl gone ↦ inl (ground (arith, gone, next))
            | inr (front, first, gone) ↦
                inr (cell.byte ∷ front, ground (arith, here, next, first), rw end gone)
          ]
    ]
