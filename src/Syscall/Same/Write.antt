-- ===== src/Syscall/Same/Write.antt =====
-- What `write` leaves alone, whatever its arguments are.
use rv64i_operating_system.Base.{
  ℕ, zero, suc, ◌+◌, ◌-◌, ◌/◌, ◌≡◌, not, ◌&&◌, Option, none, some, List, [], ◌∷◌, ◌++◌, inl, inr,
  refl, ap, ◌==◌, ltb, if◌then◌else◌, add64, Bool-cases, Option-cases,
}
use rv64i_operating_system.Machine.State.{Machine, Kernel, pure, ◌>>◌}
use rv64i_operating_system.Machine.{
  allowed, load8, uart_putc, uart_puts, csr_read_sstatus, csr_write_sstatus, halt,
}
use rv64i_operating_system.Syscall.{
  read_bytes, copy_from_user, put_bytes, temp_size, write_loop, syscall_write, err_fault,
}
use rv64i_operating_system.Machine.Print.{OnlyUart}
use rv64i_operating_system.Syscall.Same.{
  Ends, Ends-then, Ends-weaken, Keeps, Keeps-refl, OnlyUart-Keeps,
}

pub load8-same : (a : ℕ) (m : Machine) → Ends (λ c m'. m' ≡ m) (load8 a m)
unfolding load8
load8-same a m = elim (Option-cases (m.memory a)) [
  | inl gone ↦ rw (load8, gone) tt
  | inr (cell, here) ↦ elim (Bool-cases (allowed m cell)) [
    | inl may ↦ rw (load8, here, may) refl
    | inr never ↦ rw (load8, here, never) tt
  ]
]

read_bytes-same : (n a : ℕ) (m : Machine) → Ends (λ s m'. m' ≡ m) (read_bytes a n m)
unfolding read_bytes
read_bytes-same zero a m = refl
read_bytes-same (suc n) a m =
    Ends-then (λ c m'. m' ≡ m) (λ s m'. m' ≡ m) (load8 a m) _ (load8-same a m)
      (λ c m1 e.
        Ends-then (λ s m'. m' ≡ m) (λ s m'. m' ≡ m) (read_bytes (add64 a 1) n m1) _
          (rw e (read_bytes-same n (add64 a 1) m)) (λ s m2 e'. e'))

copy_from_user-same : (a n : ℕ) (m : Machine) → Ends (λ s m'. m' ≡ m) (copy_from_user a n m)
unfolding copy_from_user csr_read_sstatus csr_write_sstatus
copy_from_user-same a n m = elim (Bool-cases (a == 0 && not (n == 0))) [
  | inl null ↦ rw null refl
  | inr real ↦ rw real (
      Ends-then (λ s m'. m' ≡ _) (λ s m'. m' ≡ m) (read_bytes a n _) _ (read_bytes-same n a _)
        (λ s m1 e. ap (λ (m' : Machine). record m' { sstatus = m.sstatus }) e))
]

-- The lemmas on the calls inside a loop start from a machine of which only the UART has changed.
module _ (m0 : Machine) where
  abbrev Since : {A : Type 0} → A → Machine → Type 0
  Since a m = OnlyUart m0 m

  uart_puts-OnlyUart : (s : List ℕ) (m : Machine) → OnlyUart m0 m → Ends Since (uart_puts s m)
  unfolding uart_puts uart_putc
  uart_puts-OnlyUart [] m same = same
  uart_puts-OnlyUart (c ∷ s) m same = elim (Bool-cases (c == 0)) [
    | inl nul ↦ rw nul same
    | inr byte ↦ rw byte (uart_puts-OnlyUart s (record m { output = m.output ++ c ∷ [] }) same)
  ]

  put_bytes-OnlyUart : (s : List ℕ) (m : Machine) → OnlyUart m0 m → Ends Since (put_bytes s m)
  unfolding put_bytes
  put_bytes-OnlyUart [] m same = same
  put_bytes-OnlyUart (c ∷ s) m same =
      Ends-then Since Since (uart_puts (c ∷ 0 ∷ []) m) _ (uart_puts-OnlyUart (c ∷ 0 ∷ []) m same)
        (λ u m1 same'. put_bytes-OnlyUart s m1 same')

  -- One chunk, from what the copy gave, and the rest of the loop.
  chunk-OnlyUart :
      (copied : Option (List ℕ)) (rest : Kernel ℕ) (m : Machine)
      → OnlyUart m0 m
      → ((m1 : Machine) → OnlyUart m0 m1 → Ends Since (rest m1))
      → Ends Since (
          (elim copied as (λ x. Kernel ℕ) [
            | none ↦ pure err_fault
            | some temp ↦ put_bytes temp >> rest
          ])
            m)
  chunk-OnlyUart none rest m same more = same
  chunk-OnlyUart (some temp) rest m same more =
      Ends-then Since Since (put_bytes temp m) _ (put_bytes-OnlyUart temp m same)
        (λ u m1 same'. more m1 same')

  write_loop-OnlyUart :
      (fuel buffer count total : ℕ) (m : Machine)
      → OnlyUart m0 m
      → Ends Since (write_loop fuel buffer count total m)
  unfolding write_loop halt
  write_loop-OnlyUart zero buffer count total m same = tt
  write_loop-OnlyUart (suc fuel) buffer count total m same = elim (Bool-cases (ltb 0 count)) [
    | inr done_all ↦ rw done_all same
    | inl more ↦
        let chunk = if ltb count temp_size then count else temp_size in
        rw more (
          Ends-then (λ s m'. m' ≡ m) Since (copy_from_user buffer chunk m) _
            (copy_from_user-same buffer chunk m)
            (λ copied m1 e. chunk-OnlyUart copied _ m1 (rw e same) (λ m2 same'.
              write_loop-OnlyUart fuel (add64 buffer chunk) (count - chunk) (add64 total chunk) m2
                same')))
  ]

pub syscall_write-Keeps :
    (Window : ℕ → Type 0) (fd buffer count : ℕ) (m : Machine)
    → Ends (λ r m'. Keeps Window m m') (syscall_write fd buffer count m)
unfolding syscall_write
syscall_write-Keeps Window fd buffer count m = elim (Bool-cases (not (fd == 1) && not (fd == 2))) [
  | inl closed ↦ rw closed (Keeps-refl Window m)
  | inr out ↦ elim (Bool-cases (count == 0)) [
    | inl none_asked ↦ rw (out, none_asked) (Keeps-refl Window m)
    | inr asked ↦
        rw (out, asked)
          (Ends-weaken (λ r m'. OnlyUart m m') (λ r m'. Keeps Window m m') _
            (λ r m' same. OnlyUart-Keeps Window m m' same)
            (write_loop-OnlyUart m (count / temp_size + 2) buffer count 0 m (refl, refl, refl)))
  ]
]
