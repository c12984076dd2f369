-- ===== src/Syscall/Write.antt =====
-- `syscall_write`: what reaches the UART, and what the call returns.
use rv64i_operating_system.Base.{
  ℕ, zero, suc, ◌+◌, ◌-◌, ◌*◌, ◌/◌, ◌^◌, ◌≤◌, ◌<◌, ◌≡◌, ◌⊎◌, false, not, ◌&&◌, Option, none, some,
  List, [], ◌∷◌, ◌++◌, inl, inr, arith, refl, ap, sym, ◌∙◌, ◌==◌, ltb, if◌then◌else◌, add64, take,
  drop, take-append-drop, Bool-cases,
}
use mathlib.Core.List.{append-nil, append_assoc}
use rv64i_operating_system.Machine.State.{Machine, Cell, done, faulted}
use rv64i_operating_system.Machine.{uart_putc, uart_puts}
use rv64i_operating_system.Machine.Print.{printed}
use rv64i_operating_system.Syscall.{
  copy_from_user, put_bytes, write_loop, syscall_write, temp_size, err_badf, err_fault,
}
use rv64i_operating_system.Syscall.Copy.{
  bytes_at, bytes_at-split, bytes_at-missing, length-bytes_at, copy_from_user-mapped,
  copy_from_user-unmapped, with_sum,
}

-- The bytes that `uart_puts` sends of texts of one byte each: all but the NULs.
unfoldable pub without_nul : List ℕ → List ℕ
without_nul [] = []
without_nul (c ∷ s) = if c == 0 then without_nul s else c ∷ without_nul s

without_nul-append : (s t : List ℕ) → without_nul (s ++ t) ≡ without_nul s ++ without_nul t
unfolding without_nul
without_nul-append [] t = refl
without_nul-append (c ∷ s) t = ground (arith, without_nul-append s t)

put_byte :
    (m : Machine) (c : ℕ) → uart_puts (c ∷ 0 ∷ []) m ≡ done tt (printed m (without_nul (c ∷ [])))
unfolding uart_puts uart_putc without_nul
put_byte m c = elim (Bool-cases (c == 0)) [ inl nul ↦ rw (nul, append-nil) | inr char ↦ rw char ]

put_bytes_lem : (s : List ℕ) (m : Machine) → put_bytes s m ≡ done tt (printed m (without_nul s))
unfolding put_bytes
put_bytes_lem [] m = unfold without_nul in rw append-nil
put_bytes_lem (c ∷ s) m =
    rw (put_byte m c, put_bytes_lem s (printed m (without_nul (c ∷ []))), append_assoc)
      (ap (λ t. done tt (printed m t)) (sym (without_nul-append (c ∷ []) s)))

bytes_at-zero : (memory : ℕ → Option Cell) (a n : ℕ) → n ≡ 0 → bytes_at memory a n ≡ some []
unfolding bytes_at
bytes_at-zero memory a n e = rw e

-- One round, on the part of the bytes that fits the kernel's buffer.
abbrev chunk_of : ℕ → ℕ
chunk_of n = if ltb n 256 then n else 256

module _ (memory : ℕ → Option Cell) where
  chunk-split :
      (a n : ℕ) (bytes : List ℕ)
      → a + n < 2 ^ 64
      → bytes_at memory a n ≡ some bytes
      → (bytes_at memory a (chunk_of n) ≡ some (take (chunk_of n) bytes))
        × (bytes_at memory (add64 a (chunk_of n)) (n - chunk_of n) ≡ some (drop (chunk_of n) bytes))
  chunk-split a n bytes top h =
      let c = chunk_of n in
      let whole : n ≡ c + (n - c) = ground arith in
      let next : add64 a c ≡ a + c = ground arith in
      rw next (bytes_at-split memory c (n - c) a bytes (ground arith) (rw (← whole) h))

  write_loop-mapped :
      (fuel a n total : ℕ) (bytes : List ℕ) (m : Machine)
      → m.memory ≡ memory
      → 0 < a
      → a + n < 2 ^ 64
      → total + n < 2 ^ 64
      → n + 256 ≤ 256 * fuel
      → bytes_at memory a n ≡ some bytes
      → write_loop fuel a n total m ≡ done (total + n) (printed m (without_nul bytes))
  unfolding write_loop
  write_loop-mapped zero a n total bytes m same pos top small fuel h = absurd (omega arith)
  write_loop-mapped (suc fuel) a n total bytes m same pos top small enough h =
      elim (Bool-cases (ltb 0 n)) [
        | inr stop ↦
            let empty : n ≡ 0 = ground arith in
            let nothing : bytes ≡ [] = ground (arith, length-bytes_at memory n a bytes h) in
            rw (stop, nothing)
              (unfold without_nul in rw (append-nil, empty) (ap (λ k. done k m) (omega arith)))
        | inl more ↦
            let c = chunk_of n in
            let (front, back) = chunk-split a n bytes top h in
            rw
              (
                more,
                copy_from_user-mapped m a c (take c bytes) (omega arith) (rw same front),
                put_bytes_lem (take c bytes) m,
                write_loop-mapped fuel (add64 a c) (n - c) (add64 total c) (drop c bytes)
                    (printed m (without_nul (take c bytes))) same (ground arith) (ground arith)
                    (ground arith) (ground arith) back,
              )
              (rw (append_assoc, ← without_nul-append, take-append-drop)
                (ap (λ k. done k (printed m (without_nul bytes))) (ground arith)))
      ]

  write_loop-unmapped :
      (fuel a n total : ℕ) (m : Machine)
      → m.memory ≡ memory
      → 0 < a
      → a + n < 2 ^ 64
      → n + 256 ≤ 256 * fuel
      → bytes_at memory a n ≡ none
      → (fault : ℕ) × (sent : List ℕ) × (memory fault ≡ none)
        × (write_loop fuel a n total m ≡ faulted fault (with_sum (printed m sent)))
  unfolding write_loop
  write_loop-unmapped zero a n total m same pos top enough h = absurd (omega arith)
  write_loop-unmapped (suc fuel) a n total m same pos top enough h =
      let c = chunk_of n in
      let whole : n ≡ c + (n - c) = ground arith in
      let next : add64 a c ≡ a + c = ground arith in
      elim (Bool-cases (ltb 0 n)) [
        | inr stop ↦ absurd (ground (arith, bytes_at-zero memory a n))
        | inl more ↦ elim (bytes_at-missing memory c (n - c) a (ground arith) (rw (← whole) h)) [
          | inl gone ↦
              let (fault, missing, stops) =
                copy_from_user-unmapped m a c (omega arith) (rw same gone) in
              (fault, [], rw (← same) missing, rw (more, stops, append-nil))
          | inr (front, here, gone) ↦
              let (fault, sent, missing, stops) =
                write_loop-unmapped fuel (add64 a c) (n - c) (add64 total c)
                  (printed m (without_nul front)) same (ground arith) (ground arith) (ground arith)
                  (rw next gone) in
              (
                fault,
                without_nul front ++ sent,
                missing,
                rw (
                  more,
                  copy_from_user-mapped m a c front (omega arith) (rw same here),
                  put_bytes_lem front m,
                  stops,
                  append_assoc,
                ),
              )
        ]
      ]

-- `write` to stdout or stderr from a buffer of mapped memory, of the user or not, that does not
-- wrap round the address space: it sends exactly those bytes that are not NUL to the UART, in
-- order, returns the length asked for, and changes neither memory nor `sstatus` nor the input.
pub syscall_write-mapped :
    (m : Machine) (fd buffer count : ℕ) (bytes : List ℕ)
    → (fd ≡ 1) ⊎ (fd ≡ 2)
    → 0 < buffer
    → buffer + count < 2 ^ 64
    → bytes_at m.memory buffer count ≡ some bytes
    → syscall_write fd buffer count m ≡ done count (printed m (without_nul bytes))
unfolding syscall_write
syscall_write-mapped m fd buffer count bytes out pos top h =
    let open_fd : (not (fd == 1) && not (fd == 2)) ≡ false = ground arith in
    rw open_fd (elim (Bool-cases (count == 0)) [
      | inl none_asked ↦
          let empty : count ≡ 0 = ground arith in
          let nothing : bytes ≡ [] = ground (arith, h, bytes_at-zero m.memory buffer count empty) in
          rw (none_asked, nothing)
            (unfold without_nul in rw append-nil (ap (λ k. done k m) (sym empty)))
      | inr some_asked ↦ rw some_asked (
          write_loop-mapped m.memory (count / temp_size + 2) buffer count 0 bytes m refl pos top
            (omega arith) (omega arith) h
          ∙ ap (λ k. done k (printed m (without_nul bytes))) (omega arith))
    ])

-- `write` to stdout or stderr from a non-null buffer that does not wrap round the address space, with
-- a byte that is not mapped, does not return an error: the kernel itself takes a page fault at an unmapped address, after it has sent some
-- bytes.
pub syscall_write-unmapped :
    (m : Machine) (fd buffer count : ℕ)
    → (fd ≡ 1) ⊎ (fd ≡ 2)
    → 0 < buffer
    → buffer + count < 2 ^ 64
    → bytes_at m.memory buffer count ≡ none
    → (fault : ℕ) × (sent : List ℕ) × (m.memory fault ≡ none)
      × (syscall_write fd buffer count m ≡ faulted fault (with_sum (printed m sent)))
unfolding syscall_write
syscall_write-unmapped m fd buffer count out pos top h =
    let open_fd : (not (fd == 1) && not (fd == 2)) ≡ false = ground arith in
    elim (Bool-cases (count == 0)) [
      | inl none_asked ↦ absurd (ground (arith, h, bytes_at-zero m.memory buffer count))
      | inr some_asked ↦
          let (fault, sent, missing, stops) =
            write_loop-unmapped m.memory (count / temp_size + 2) buffer count 0 m refl pos top
              (omega arith) h in
          (fault, sent, missing, rw (open_fd, some_asked) stops)
    ]

-- A null buffer changes nothing: `write` returns -EBADF on any file descriptor but stdout and
-- stderr, else 0 if nothing was asked for, else -EFAULT.
syscall_write-null :
    (m : Machine) (fd count : ℕ)
    → syscall_write fd 0 count m
      ≡ done
          (if not (fd == 1) && not (fd == 2) then err_badf else if count == 0 then 0 else err_fault)
          m
unfolding syscall_write write_loop copy_from_user
syscall_write-null m fd count = ground arith
