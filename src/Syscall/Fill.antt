-- ===== src/Syscall/Fill.antt =====
-- `copy_to_user`, and the whole of `syscall_read`: the line that reaches the user's buffer.
use rv64i_operating_system.Base.{
  ℕ, zero, suc, ◌+◌, ◌-◌, min, ◌%◌, ◌^◌, ◌≤◌, ◌<◌, ◌≡◌, true, false, Option, some, List, [], ◌∷◌,
  map, inl, inr, arith, refl, sym, ◌≢◌, ◌∙◌, ◌==◌, ltb, if◌then◌else◌, add64, length, length-append,
  take, Option-cases,
}
use rv64i_operating_system.Machine.State.{
  Machine, Cell, Outcome, done, waiting, and_then, Kernel, pure, ◌>>=◌,
}
use rv64i_operating_system.Machine.{csr_read_sstatus, csr_write_sstatus, store8, put_byte}
use rv64i_operating_system.Syscall.{write_bytes, copy_to_user, syscall_read, temp_size, err_fault}
use rv64i_operating_system.Machine.Print.{OnlyUart}
use rv64i_operating_system.Syscall.Copy.{bytes_at, bytes_at-split, with_sum, allowed-with_sum}
use rv64i_operating_system.Syscall.Read.{
  Waits, Reached, survivors, onto, IsLine, full, ended, Typed, entered, starved, read_loop-Typed,
}

-- The line as bytes.
abbrev pub low_bytes : List ℕ → List ℕ
low_bytes s = map (λ c. c % 256) s

bytes_at-put_byte :
    (place : ℕ → ℕ) (memory : ℕ → Option Cell) (n a b value : ℕ)
    → ((k : ℕ) → k < n → place (a + k) ≢ place b)
    → a + n < 2 ^ 64
    → bytes_at (put_byte place memory b value) a n ≡ bytes_at memory a n
unfolding bytes_at
bytes_at-put_byte place memory zero a b value apart top = refl
bytes_at-put_byte place memory (suc n) a b value apart top =
    let next : add64 a 1 ≡ a + 1 = omega arith in
    let first : a + 0 ≡ a = omega arith in
    let other : (place a == place b) ≡ false =
      ground (arith, rw first at (apart 0 (omega arith))) in
    let rest =
      bytes_at-put_byte place memory n (a + 1) b value
        (λ k lt.
          (let shift : a + 1 + k ≡ a + suc k = omega arith in
            rw shift (apart (suc k) (omega arith))))
        (omega arith) in
    elim (Option-cases (memory a)) [
      | inl e ↦ rw (bytes_at, other, e)
      | inr (here, e) ↦ rw (bytes_at, other, e, next, rest)
    ]

-- Memory that holds the bytes from an address on, and is as before wherever none of their places
-- shows.
pub record Filled (place : ℕ → ℕ) (before : ℕ → Option Cell) (a : ℕ) (s : List ℕ)
    (memory : ℕ → Option Cell) : Type 0 where
  pub holds : bytes_at memory a (length s) ≡ some (low_bytes s)
  pub elsewhere : (x : ℕ) → ((k : ℕ) → k < length s → place x ≢ place (a + k)) → memory x ≡ before x

-- Of the `n` bytes from an address on, those that are mapped may be written.
abbrev pub WritableAt : (ℕ → Option Cell) → ℕ → ℕ → Type 0
WritableAt memory a n =
    (k : ℕ) (cell : Cell) → k < n → memory (a + k) ≡ some cell → cell.writable ≡ true

-- No two of the `n` bytes from an address on have one place.
abbrev pub ApartAt : (ℕ → ℕ) → ℕ → ℕ → Type 0
ApartAt place a n = (i j : ℕ) → i < j → j < n → place (a + j) ≢ place (a + i)

ApartAt-first :
    (place : ℕ → ℕ) (a n : ℕ)
    → ApartAt place a (suc n)
    → (k : ℕ) → k < n
    → place (a + 1 + k) ≢ place a
ApartAt-first place a n apart k lt =
    let shift : a + 1 + k ≡ a + suc k = omega arith in
    let first : a + 0 ≡ a = omega arith in
    rw shift (rw first at (apart 0 (suc k) (omega arith) (omega arith)))

ApartAt-rest : (place : ℕ → ℕ) (a n : ℕ) → ApartAt place a (suc n) → ApartAt place (a + 1) n
ApartAt-rest place a n apart i j lt lt' =
    let shift : a + 1 + j ≡ a + suc j = omega arith in
    let shift' : a + 1 + i ≡ a + suc i = omega arith in
    rw (shift, shift') (apart (suc i) (suc j) (omega arith) (omega arith))

-- The bytes behind the first, after it has been written.
WritableAt-put_byte :
    (place : ℕ → ℕ) (memory : ℕ → Option Cell) (a n value : ℕ)
    → ApartAt place a (suc n)
    → WritableAt memory a (suc n)
    → WritableAt (put_byte place memory a value) (a + 1) n
WritableAt-put_byte place memory a n value apart may k cell lt here =
    let other : (place (a + 1 + k) == place a) ≡ false =
      ground (arith, ApartAt-first place a n apart k lt) in
    let next : a + 1 + k ≡ a + suc k = omega arith in
    may (suc k) cell (omega arith) (rw next at (rw other at here))

store8-with_sum :
    (m : Machine) (a c : ℕ) (cell : Cell)
    → m.memory a ≡ some cell
    → cell.writable ≡ true
    → store8 a c (with_sum m)
      ≡ done tt (with_sum (record m { memory = put_byte m.place m.memory a (c % 256) }))
unfolding store8
store8-with_sum m a c cell h may = rw (store8, h, allowed-with_sum m cell, may) refl

-- What the first byte adds to memory that the others have filled.
write_byte-Filled :
    (c a : ℕ) (s : List ℕ) (m : Machine) (cell : Cell) (memory : ℕ → Option Cell)
    → a + suc (length s) < 2 ^ 64
    → ApartAt m.place a (suc (length s))
    → m.memory a ≡ some cell
    → cell.writable ≡ true
    → Filled m.place (put_byte m.place m.memory a (c % 256)) (a + 1) s memory
    → write_bytes (a + 1) s (with_sum (record m { memory = put_byte m.place m.memory a (c % 256) }))
      ≡ done tt (with_sum (record m { memory = memory }))
    → Filled m.place m.memory a (c ∷ s) memory
      × (write_bytes a (c ∷ s) (with_sum m) ≡ done tt (with_sum (record m { memory = memory })))
unfolding write_bytes bytes_at
write_byte-Filled c a s m cell memory top apart here may filled runs =
    let next : add64 a 1 ≡ a + 1 = omega arith in
    let this : (m.place a == m.place a) ≡ true = ground arith in
    let put : put_byte m.place m.memory a (c % 256) a ≡ some (record cell { byte = c % 256 }) =
      rw (this, here) refl in
    let first : memory a ≡ some (record cell { byte = c % 256 }) =
      filled.elsewhere a (λ k lt e. ApartAt-first m.place a (length s) apart k lt (sym e)) ∙ put in
    (
      record {
        holds = rw (first, next, filled.holds);
        elsewhere = λ (x : ℕ) out.
            (let start : a + 0 ≡ a = omega arith in
              let other : (m.place x == m.place a) ≡ false =
                ground (arith, rw start at (out 0 (omega arith))) in
              let beyond = filled.elsewhere x (λ k lt.
                (let shift : a + 1 + k ≡ a + suc k = omega arith in
                  rw shift (out (suc k) (omega arith)))) in
              rw other at beyond);
      },
      rw (store8-with_sum m a c cell here may, next, runs),
    )

write_bytes-Filled :
    (s : List ℕ) (a : ℕ) (m : Machine) (old : List ℕ)
    → a + length s < 2 ^ 64
    → bytes_at m.memory a (length s) ≡ some old
    → WritableAt m.memory a (length s)
    → ApartAt m.place a (length s)
    → (memory : ℕ → Option Cell) × Filled m.place m.memory a s memory
      × (write_bytes a s (with_sum m) ≡ done tt (with_sum (record m { memory = memory })))
unfolding write_bytes bytes_at
write_bytes-Filled [] a m old top h may apart =
    (m.memory, record { holds = refl; elsewhere = λ x out. refl }, refl)
write_bytes-Filled (c ∷ s) a m old top h may apart =
    let next : add64 a 1 ≡ a + 1 = omega arith in
    elim (Option-cases (m.memory a)) [
      | inl gone ↦ absurd (ground (arith, h))
      | inr (cell, here) ↦ elim (Option-cases (bytes_at m.memory (a + 1) (length s))) [
        | inl gone ↦ absurd (ground (arith, h, next))
        | inr (rest, more) ↦
            let m' : Machine = record m { memory = put_byte m.place m.memory a (c % 256) } in
            let first : a + 0 ≡ a = omega arith in
            let may_first : cell.writable ≡ true = may 0 cell (omega arith) (rw first here) in
            let (memory, filled, runs) =
              write_bytes-Filled s (a + 1) m' rest (omega arith)
                (bytes_at-put_byte m.place m.memory (length s) (a + 1) a (c % 256)
                    (ApartAt-first m.place a (length s) apart) (omega arith)
                  ∙ more)
                (WritableAt-put_byte m.place m.memory a (length s) (c % 256) apart may)
                (ApartAt-rest m.place a (length s) apart) in
            let (whole, ran) =
              write_byte-Filled c a s m cell memory top apart here may_first filled runs in
            (memory, whole, ran)
      ]
    ]

-- `copy_to_user` into memory that is mapped and may be written, at places that are apart: the bytes
-- are there, memory where none of these places shows, and `sstatus`, are as before the call.
copy_to_user-Filled :
    (m : Machine) (a : ℕ) (s old : List ℕ)
    → 0 < a
    → a + length s < 2 ^ 64
    → bytes_at m.memory a (length s) ≡ some old
    → WritableAt m.memory a (length s)
    → ApartAt m.place a (length s)
    → (memory : ℕ → Option Cell) × Filled m.place m.memory a s memory
      × (copy_to_user a s m ≡ done true (record m { memory = memory }))
unfolding copy_to_user csr_read_sstatus csr_write_sstatus
copy_to_user-Filled m a s old pos top h may apart =
    let nonnull : (a == 0) ≡ false = ground arith in
    let (memory, filled, runs) = write_bytes-Filled s a m old top h may apart in
    (memory, filled, rw (nonnull, runs))

pub length-IsLine : (count : ℕ) (s : List ℕ) → IsLine count s → length s ≤ count
length-IsLine count _ (full s clean e) = omega arith
length-IsLine count _ (ended s clean lt) = omega (arith, length-append s (10 ∷ []))

-- How a `read` of `count` bytes can end, from `m`: with what is left of the keys up to the first
-- Enter, or up to the first that fills the line, in the buffer and its length as the result; or
-- waiting for ever after the last byte of the input, with memory as it was.
pub data Delivered (m : Machine) (buffer count : ℕ) : Outcome ℕ → Type 0 where
  delivered :
      (past line : List ℕ) (m' : Machine)
      → m.input ≡ onto past m'.input
      → Reached count past
      → line ≡ survivors 0 past
      → IsLine count line
      → Filled m.place m.memory buffer line m'.memory
      → (m'.place ≡ m.place) × (m'.sstatus ≡ m.sstatus)
      → Delivered m buffer count (done (length line) m')
  unfinished :
      (past : List ℕ) (m' : Machine)
      → m.input ≡ onto past []
      → Waits count past
      → m'.input ≡ []
      → OnlyUart m m'
      → Delivered m buffer count (waiting m')

-- What follows the loop in `syscall_read`.
abbrev deliver : ℕ → List ℕ → Kernel ℕ
deliver buffer temp = do
  copied ← copy_to_user buffer temp
  pure (if copied then length temp else err_fault)

deliver-Delivered :
    (m : Machine) (buffer count : ℕ) (old : List ℕ) (o : Outcome (List ℕ))
    → 0 < buffer
    → buffer + count < 2 ^ 64
    → bytes_at m.memory buffer count ≡ some old
    → WritableAt m.memory buffer count
    → ApartAt m.place buffer count
    → Typed count m o
    → Delivered m buffer count (and_then o (deliver buffer))
deliver-Delivered m buffer count old _ pos top h may apart
      (entered past line m' typed up is l (same, place, status)) =
    let fits = length-IsLine count line l in
    let whole : count ≡ length line + (count - length line) = omega arith in
    let part =
      bytes_at-split m.memory (length line) (count - length line) buffer old (omega arith)
        (rw (← whole) h) in
    let (memory, filled, runs) =
      copy_to_user-Filled m' buffer line (take (length line) old) pos (omega arith) (rw same part.0)
        (rw same (λ k cell lt. may k cell (omega arith)))
        (rw place (λ i j lt lt'. apart i j lt (omega arith))) in
    rw runs (
      delivered past line (record m' { memory = memory }) typed up is l (rw (same, place) at filled)
        (place, status))
deliver-Delivered m buffer count old _ pos top h may apart (starved past m' typed waits e same) =
    unfinished past m' typed waits e same

-- `read` from stdin, for at least one byte, into memory that is mapped and may be written, of the
-- user or not, at places that are apart: it takes keys up to the first Enter, or up to the first that
-- leaves as many bytes as asked for or 256. The buffer then holds what is left of them, where each
-- `\b` and DEL takes away the nearest byte before it and Enter is a newline, and the result is their
-- number. Memory at which none of these places shows, and `sstatus`, are as before. Where the input
-- ends first, it waits for ever.
pub syscall_read-Delivered :
    (m : Machine) (buffer count : ℕ) (old : List ℕ)
    → 0 < buffer
    → 0 < count
    → buffer + min count 256 < 2 ^ 64
    → bytes_at m.memory buffer (min count 256) ≡ some old
    → WritableAt m.memory buffer (min count 256)
    → ApartAt m.place buffer (min count 256)
    → Delivered m buffer (min count 256) (syscall_read 0 buffer count m)
unfolding syscall_read
syscall_read-Delivered m buffer count old pos some_asked top h may apart =
    let asked : (count == 0) ≡ false = ground arith in
    let limit : (if ltb temp_size count then temp_size else count) ≡ min count 256 = ground arith in
    rw (asked, limit)
      (deliver-Delivered m buffer (min count 256) old _ pos top h may apart
        (read_loop-Typed (length m.input + 2) (min count 256) m (omega arith)))
