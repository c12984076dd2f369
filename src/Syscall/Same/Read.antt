-- ===== src/Syscall/Same/Read.antt =====
-- What `read` leaves alone: all but the buffer.
use rv64i_operating_system.Base.{
  ℕ, suc, Option, none, some, ap, ◌%◌, ◌+◌, ◌^◌, ◌<◌, ◌≡◌, false, not, ◌&&◌, List, [], ◌∷◌, inl,
  inr, arith, refl, ◌∙◌, ◌==◌, ltb, min, if◌then◌else◌, add64, length, Bool-cases, Option-cases,
}
use rv64i_operating_system.Machine.State.{Machine, Cell, Outcome, and_then, pure, ◌>>=◌}
use rv64i_operating_system.Machine.{allowed, with_byte, store8, csr_read_sstatus, csr_write_sstatus}
use rv64i_operating_system.Syscall.{write_bytes, copy_to_user, temp_size, syscall_read, err_fault}
use rv64i_operating_system.Syscall.Read.{Typed, entered, starved, read_loop-Typed}
use rv64i_operating_system.Syscall.Fill.{length-IsLine}
use rv64i_operating_system.Syscall.Same.{
  rights, Ends, Ends-then, Keeps, Buffer, Keeps-refl, Keeps-trans, OnlyUart-Keeps,
}

pub rights-with_byte : (value : ℕ) (o : Option Cell) → rights (with_byte value o) ≡ rights o
rights-with_byte value none = refl
rights-with_byte value (some cell) = refl

store8-Keeps :
    (Window : ℕ → Type 0) (a c : ℕ) (m : Machine)
    → Window (m.place a)
    → Ends (λ u m'. Keeps Window m m') (store8 a c m)
unfolding store8
store8-Keeps Window a c m inside = elim (Option-cases (m.memory a)) [
  | inl gone ↦ rw (store8, gone) tt
  | inr (cell, here) ↦ elim (Bool-cases (allowed m cell && cell.writable)) [
    | inr never ↦ rw (store8, here, never) tt
    | inl may ↦
        rw (store8, here, may)
          (record {
            outside = λ b out.
                (let other : (m.place b == m.place a) ≡ false =
                    elim (Bool-cases (m.place b == m.place a)) [
                      | inr e ↦ e
                      | inl e ↦
                          (let same : m.place b ≡ m.place a = ground (arith, e) in
                            absurd (out (rw same inside)))
                    ] in
                  rw other refl);
            same_rights = λ b. elim (Bool-cases (m.place b == m.place a)) [
              | inr other ↦ rw other refl
              | inl this ↦ rw this (rights-with_byte (c % 256) (m.memory b))
            ];
            same_place = λ b. refl;
            same_sstatus = refl;
          })
  ]
]

-- The writes start from a machine that is kept since `m0`.
module _ (Window : ℕ → Type 0) (m0 : Machine) where
  abbrev KeptSince : {A : Type 0} → A → Machine → Type 0
  KeptSince a m = Keeps Window m0 m

  write_bytes-Keeps :
      (s : List ℕ) (a : ℕ) (m : Machine)
      → a < 2 ^ 64
      → ((k : ℕ) → k < length s → Window (m0.place (add64 a k)))
      → Keeps Window m0 m
      → Ends KeptSince (write_bytes a s m)
  unfolding write_bytes
  write_bytes-Keeps [] a m small inside kept = kept
  write_bytes-Keeps (c ∷ s) a m small inside kept =
      let first : add64 a 0 ≡ a = omega arith in
      let start : Window (m0.place a) = rw first at (inside 0 (omega arith)) in
      Ends-then (λ u m'. Keeps Window m m') KeptSince (store8 a c m) _
        (store8-Keeps Window a c m (rw (kept.same_place a) start))
        (λ u m1 step.
          write_bytes-Keeps s (add64 a 1) m1 (omega arith)
            (λ k lt.
              (let next : add64 (add64 a 1) k ≡ add64 a (suc k) = omega arith in
                rw next (inside (suc k) (omega arith))))
            (Keeps-trans Window kept step))

copy_to_user-Keeps :
    (Window : ℕ → Type 0) (a : ℕ) (s : List ℕ) (m0 m : Machine)
    → a < 2 ^ 64
    → ((k : ℕ) → k < length s → Window (m.place (add64 a k)))
    → Keeps Window m0 m
    → Ends (λ ok m'. Keeps Window m0 m') (copy_to_user a s m)
unfolding copy_to_user csr_read_sstatus csr_write_sstatus
copy_to_user-Keeps Window a s m0 m small inside kept =
    elim (Bool-cases (a == 0 && not (length s == 0))) [
      | inl null ↦ rw null kept
      | inr real ↦ rw real (
          Ends-then (λ u m'. Keeps Window _ m') (λ ok m'. Keeps Window m0 m') (write_bytes a s _) _
            (write_bytes-Keeps Window _ s a _ small inside (Keeps-refl Window _))
            (λ u m1 step. record {
              outside = λ b out.
                  step.outside b (λ at. out (rw (kept.same_place b) at at)) ∙ kept.outside b out;
              same_rights = λ b. step.same_rights b ∙ kept.same_rights b;
              same_place = λ b. step.same_place b ∙ kept.same_place b;
              same_sstatus = kept.same_sstatus;
            }))
    ]

after_line-Keeps :
    (buffer count : ℕ) (m : Machine) (o : Outcome (List ℕ))
    → buffer < 2 ^ 64
    → Typed count m o
    → Ends
        (λ r m'. Keeps (Buffer m.place buffer count) m m')
        (and_then o (λ temp.
          copy_to_user buffer temp
          >>= (λ copied. pure (if copied then length temp else err_fault))))
after_line-Keeps buffer count m _ small (entered past line m' typed up is is_line same) =
    let Window = Buffer m.place buffer count in
    Ends-then (λ ok m''. Keeps Window m m'') (λ r m''. Keeps Window m m'')
      (copy_to_user buffer line m') _
      (copy_to_user-Keeps Window buffer line m m' small
        (λ k lt. (
          k,
          omega (arith, length-IsLine count line is_line),
          ap (λ (f : ℕ → ℕ). f (add64 buffer k)) same.1,
        ))
        (OnlyUart-Keeps Window m m' same))
      (λ ok m1 kept. kept)
after_line-Keeps buffer count m _ small (starved past m' typed waits gone same) = tt

pub syscall_read-Keeps :
    (fd buffer count : ℕ) (m : Machine)
    → buffer < 2 ^ 64
    → Ends
        (λ r m'. Keeps (Buffer m.place buffer (min count 256)) m m')
        (syscall_read fd buffer count m)
unfolding syscall_read
syscall_read-Keeps fd buffer count m small =
    let Window = Buffer m.place buffer (min count 256) in
    elim (Bool-cases (fd == 0)) [
      | inr other ↦ rw other (Keeps-refl Window m)
      | inl stdin ↦ elim (Bool-cases (count == 0)) [
        | inl none_asked ↦ rw (stdin, none_asked) (Keeps-refl Window m)
        | inr asked ↦
            let limit : (if ltb temp_size count then temp_size else count) ≡ min count 256 =
              ground arith in
            rw (stdin, asked, limit)
              (after_line-Keeps buffer (min count 256) m _ small
                (read_loop-Typed (length m.input + 2) (min count 256) m (omega arith)))
      ]
    ]
