-- ===== src/Syscall/Same.antt =====
-- What a system call leaves alone, whatever its arguments are.
use rv64i_operating_system.Base.{
  ℕ, zero, suc, ◌+◌, ◌-◌, ◌/◌, ◌^◌, ◌≤◌, ◌<◌, ◌≡◌, ◌≢◌, Bool, true, false, not, ◌&&◌, Option, none,
  some, List, [], ◌∷◌, ◌++◌, inl, inr, arith, refl, subst, ap, sym, ◌∙◌, ◌==◌, ltb, min,
  if◌then◌else◌, add64, length, Bool-cases, Option-cases,
}
use rv64i_operating_system.Machine.State.{
  Machine, Cell, Outcome, done, faulted, waiting, halted, Kernel, and_then, pure, ◌>>=◌, ◌>>◌,
}
use rv64i_operating_system.Machine.{
  allowed, load8, store8, put_byte, uart_putc, uart_puts, csr_read_sstatus, csr_write_sstatus, halt,
}
use rv64i_operating_system.Syscall.{
  read_bytes, copy_from_user, write_bytes, copy_to_user, put_bytes, temp_size, write_loop,
  syscall_write, read_loop, syscall_read, err_fault, err_badf,
}
use rv64i_operating_system.Machine.Print.{OnlyUart}
use rv64i_operating_system.Syscall.Read.{Typed, entered, starved, read_loop-Typed}
use rv64i_operating_system.Syscall.Fill.{length-IsLine}
pub mod Write
pub mod Read

-- If the run returns, then with this.
abbrev pub Ends : {A : Type 0} → (A → Machine → Type 0) → Outcome A → Type 0
Ends P (done a m) = P a m
Ends P (faulted address m) = Unit {0}
Ends P (waiting m) = Unit {0}
Ends P (halted m) = Unit {0}

pub Ends-then :
    {A B : Type 0} (P : A → Machine → Type 0) (Q : B → Machine → Type 0) (o : Outcome A)
    (f : A → Kernel B)
    → Ends P o
    → ((a : A) (m : Machine) → P a m → Ends Q (f a m))
    → Ends Q (and_then o f)
Ends-then P Q (done a m) f h rest = rest a m h
Ends-then P Q (faulted address m) f h rest = tt
Ends-then P Q (waiting m) f h rest = tt
Ends-then P Q (halted m) f h rest = tt

pub Ends-weaken :
    {A : Type 0} (P Q : A → Machine → Type 0) (o : Outcome A)
    → ((a : A) (m : Machine) → P a m → Q a m)
    → Ends P o
    → Ends Q o
Ends-weaken P Q (done a m) weaker h = weaker a m h
Ends-weaken P Q (faulted address m) weaker h = tt
Ends-weaken P Q (waiting m) weaker h = tt
Ends-weaken P Q (halted m) weaker h = tt

pub Ends-done :
    {A : Type 0} (P : A → Machine → Type 0) (o : Outcome A) (a : A) (m : Machine)
    → Ends P o
    → o ≡ done a m
    → P a m
Ends-done P (done a' m') a m h e = subst (λ o. Ends P o) e h
Ends-done P (faulted address m') a m h e = cc
Ends-done P (waiting m') a m h e = cc
Ends-done P (halted m') a m h e = cc

-- The rights that a cell gives.
abbrev pub rights : Option Cell → Option (Bool × Bool)
rights none = none
rights (some cell) = some (cell.user, cell.writable)

-- Memory is as before but at these places, and its rights and places everywhere.
pub record Keeps (Window : ℕ → Type 0) (m m' : Machine) : Type 0 where
  pub outside : (a : ℕ) → ¬ Window (m.place a) → m'.memory a ≡ m.memory a
  pub same_rights : (a : ℕ) → rights (m'.memory a) ≡ rights (m.memory a)
  pub same_place : (a : ℕ) → m'.place a ≡ m.place a
  pub same_sstatus : m'.sstatus ≡ m.sstatus

-- The places of the first `n` bytes from `buffer` on.
abbrev pub Buffer : (ℕ → ℕ) → ℕ → ℕ → ℕ → Type 0
Buffer place buffer n p = (k : ℕ) × (k < n) × (p ≡ place (add64 buffer k))

pub Keeps-refl : (Window : ℕ → Type 0) (m : Machine) → Keeps Window m m
Keeps-refl Window m = record {
  outside = λ a out. refl;
  same_rights = λ a. refl;
  same_place = λ a. refl;
  same_sstatus = refl;
}

pub Keeps-trans :
    (Window : ℕ → Type 0) {m m' m'' : Machine}
    → Keeps Window m m'
    → Keeps Window m' m''
    → Keeps Window m m''
Keeps-trans Window k h = record {
  outside = λ a out. h.outside a (λ inside. out (rw (k.same_place a) at inside)) ∙ k.outside a out;
  same_rights = λ a. h.same_rights a ∙ k.same_rights a;
  same_place = λ a. h.same_place a ∙ k.same_place a;
  same_sstatus = h.same_sstatus ∙ k.same_sstatus;
}

pub Keeps-wider :
    (Window Window' : ℕ → Type 0) {m m' : Machine}
    → ((p : ℕ) → Window p → Window' p)
    → Keeps Window m m'
    → Keeps Window' m m'
Keeps-wider Window Window' wider k = record {
  outside = λ a out. k.outside a (λ inside. out (wider (_) inside));
  same_rights = k.same_rights;
  same_place = k.same_place;
  same_sstatus = k.same_sstatus;
}

pub OnlyUart-Keeps : (Window : ℕ → Type 0) (m m' : Machine) → OnlyUart m m' → Keeps Window m m'
OnlyUart-Keeps Window m m' (memory, place, status) = record {
  outside = λ a out. ap (λ (f : ℕ → Option Cell). f a) memory;
  same_rights = λ a. ap (λ (f : ℕ → Option Cell). rights (f a)) memory;
  same_place = λ a. ap (λ (f : ℕ → ℕ). f a) place;
  same_sstatus = status;
}
