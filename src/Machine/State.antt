-- ===== src/Machine/State.antt =====
-- The machine's state, and how a run of kernel code can end.
use rv64i_operating_system.Base.{ℕ, Bool, Option, List}

-- A byte of mapped memory, whether its page is a user page, and whether it may be written.
pub record Cell : Type 0 where
  pub byte : ℕ
  pub user : Bool
  pub writable : Bool

-- `memory` is what an access at a virtual address finds, and `place` the physical address behind it:
-- addresses with one place show one byte, each with its own rights.
-- `input` holds the bytes that the UART is still to receive, `output` those sent to it, in order.
pub record Machine : Type 0 where
  pub memory : ℕ → Option Cell
  pub place : ℕ → ℕ
  pub sstatus : ℕ
  pub input : List ℕ
  pub output : List ℕ

-- `faulted` is a page fault in supervisor mode at that address, `waiting` polls the UART for ever,
-- and `halted` is a `wfi` loop.
pub data Outcome (A : Type 0) : Type 0 where
  done : A → Machine → Outcome A
  faulted : ℕ → Machine → Outcome A
  waiting : Machine → Outcome A
  halted : Machine → Outcome A

abbrev pub Kernel : Type 0 → Type 0
Kernel A = Machine → Outcome A

abbrev pub pure : {A : Type 0} → A → Kernel A
pure = done

module _ {A B : Type 0} where
  abbrev pub and_then : Outcome A → (A → Kernel B) → Outcome B
  and_then (done a m) f = f a m
  and_then (faulted address m) f = faulted address m
  and_then (waiting m) f = waiting m
  and_then (halted m) f = halted m

  infixl 5 ◌>>=◌ ◌>>◌
  abbrev pub ◌>>=◌ : Kernel A → (A → Kernel B) → Kernel B
  ◌>>=◌ k f m = and_then (k m) f

  abbrev pub ◌>>◌ : Kernel A → Kernel B → Kernel B
  k >> l = k >>= λ _. l
