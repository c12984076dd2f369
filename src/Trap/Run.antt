-- ===== src/Trap/Run.antt =====
-- A program and the kernel in turn: what any sequence of traps leaves of the memory of the kernel.
use rv64i_operating_system.Base.{
  ℕ, Option, none, ◌^◌, ◌<◌, ◌≡◌, true, some, inl, inr, arith, refl, sym, min, ◌∙◌, ◌==◌, add64,
  Bool-cases,
}
use native.Mathlib.Decide.{ℕ_discrete}
use rv64i_operating_system.Machine.State.{Machine, Cell, done}
use rv64i_operating_system.Machine.{load8}
use rv64i_operating_system.TrapFrame.{TrapFrame}
use rv64i_operating_system.Syscall.{syscall_read, syscall_write, syscall_handle}
use rv64i_operating_system.Syscall.Handle.{syscall_exit_lem}
use rv64i_operating_system.Syscall.Same.{
  Ends, Ends-then, Ends-weaken, Ends-done, rights, Keeps, Keeps-refl, Keeps-wider, Buffer,
}
use rv64i_operating_system.Syscall.Same.Write.{load8-same, syscall_write-Keeps}
use rv64i_operating_system.Syscall.Same.Read.{syscall_read-Keeps}
use rv64i_operating_system.Trap.{
  trap_code, trap_is_interrupt, trap_from_user, advance_trap, supervisor_trap_handler,
}
use rv64i_operating_system.Trap.Laws.{
  supervisor_trap_handler-panics, supervisor_trap_handler-ecall, breakpoint,
}

-- The places that a call may write to: those of the buffer of a `read`, and no other.
abbrev pub CallWindow : (ℕ → ℕ) → TrapFrame → ℕ → Type 0
CallWindow place frame p = (frame.a7 ≡ 63) × Buffer place frame.a1 (min frame.a2 256) p

abbrev KeptBy : TrapFrame → Machine → TrapFrame → Machine → Type 0
KeptBy frame m frame' m' = Keeps (CallWindow m.place frame) m m'

syscall_handle-Keeps :
    (frame : TrapFrame) (m : Machine)
    → frame.a1 < 2 ^ 64
    → Ends (KeptBy frame m) (syscall_handle frame m)
unfolding syscall_handle
syscall_handle-Keeps frame m small = elim (Bool-cases (frame.a7 == 63)) [
  | inl e ↦
      let is_read : frame.a7 ≡ 63 = ground (arith, e) in
      rw (syscall_handle, e)
        (Ends-then (λ r m'. Keeps (Buffer m.place frame.a1 (min frame.a2 256)) m m')
          (KeptBy frame m) (syscall_read frame.a0 frame.a1 frame.a2 m) _
          (syscall_read-Keeps frame.a0 frame.a1 frame.a2 m small)
          (λ r m1 kept.
            Keeps-wider (Buffer m.place frame.a1 (min frame.a2 256)) (CallWindow m.place frame)
              (λ a inside. (is_read, inside)) kept))
  | inr a ↦ elim (Bool-cases (frame.a7 == 64)) [
    | inl e ↦
        rw (syscall_handle, a, e)
          (Ends-then (λ r m'. Keeps (CallWindow m.place frame) m m') (KeptBy frame m)
            (syscall_write frame.a0 frame.a1 frame.a2 m) _
            (syscall_write-Keeps (CallWindow m.place frame) frame.a0 frame.a1 frame.a2 m)
            (λ r m1 kept. kept))
    | inr b ↦ elim (Bool-cases (frame.a7 == 93)) [
      | inl e ↦ rw (syscall_handle, a, b, e, syscall_exit_lem) tt
      | inr c ↦ elim (Bool-cases (frame.a7 == 94)) [
        | inl e ↦ rw (syscall_handle, a, b, c, e, syscall_exit_lem) tt
        | inr d ↦ rw (syscall_handle, a, b, c, d) (Keeps-refl (CallWindow m.place frame) m)
      ]
    ]
  ]
]

advance_trap-same : (frame : TrapFrame) (m : Machine) → Ends (λ f m'. m' ≡ m) (advance_trap frame m)
unfolding advance_trap
advance_trap-same frame m =
    Ends-then (λ c m'. m' ≡ m) (λ f m'. m' ≡ m) (load8 frame.epc m) _ (load8-same frame.epc m)
      (λ low m1 e.
        Ends-then (λ c m'. m' ≡ m) (λ f m'. m' ≡ m) (load8 (add64 frame.epc 1) m1) _
          (rw e (load8-same (add64 frame.epc 1) m)) (λ high m2 e'. e'))

supervisor_trap_handler-Keeps :
    (frame : TrapFrame) (m : Machine)
    → frame.a1 < 2 ^ 64
    → Ends (KeptBy frame m) (supervisor_trap_handler frame m)
supervisor_trap_handler-Keeps frame m small = elim (Bool-cases (trap_is_interrupt frame.cause)) [
  | inl interrupt ↦ rw (supervisor_trap_handler-panics frame m (inl interrupt)) tt
  | inr exception ↦ elim (ℕ_discrete (trap_code frame.cause) 3) [
    | yes code ↦ rw (breakpoint frame m exception code) (
        Ends-weaken (λ f m'. m' ≡ m) (KeptBy frame m) _
          (λ f m' e. rw e (Keeps-refl (CallWindow m.place frame) m)) (advance_trap-same frame m))
    | no other ↦ elim (Bool-cases (trap_from_user frame)) [
      | inr supervisor ↦ rw (supervisor_trap_handler-panics frame m (inr (other, λ user. cc))) tt
      | inl user ↦ elim (ℕ_discrete (trap_code frame.cause) 8) [
        | yes call ↦
            rw (supervisor_trap_handler-ecall frame m exception user call)
              (syscall_handle-Keeps frame m small)
        | no other' ↦ rw (supervisor_trap_handler-panics frame m (inr (other, λ user'. other'))) tt
      ]
    ]
  ]
]

-- The address of a user page.
abbrev pub IsUserAt : Machine → ℕ → Type 0
IsUserAt m a = (cell : Cell) × (m.memory a ≡ some cell) × (cell.user ≡ true)

-- A place that a user page shows.
abbrev pub IsUserPlace : Machine → ℕ → Type 0
IsUserPlace m p = (a : ℕ) × IsUserAt m a × (p ≡ m.place a)

-- One turn: the program stores to its pages, which shows wherever their places do, or a trap that the
-- kernel returns from, of which a `read` has its buffer in user pages.
pub data Turn : Machine → Machine → Type 0 where
  program : (m m' : Machine) → Keeps (IsUserPlace m) m m' → Turn m m'
  trap :
      (m m' : Machine) (frame frame' : TrapFrame)
      → frame.a1 < 2 ^ 64
      → (frame.a7 ≡ 63 → (k : ℕ) → k < min frame.a2 256 → IsUserAt m (add64 frame.a1 k))
      → supervisor_trap_handler frame m ≡ done frame' m'
      → Turn m m'

pub data Run (m : Machine) : Machine → Type 0 where
  here : Run m m
  next : {m' m'' : Machine} → Run m m' → Turn m' m'' → Run m m''

-- Memory at the places that no user page shows, and the rights and places of all memory, and
-- `sstatus`.
pub record KernelKept (m m' : Machine) : Type 0 where
  pub kernel : (a : ℕ) → ¬ IsUserPlace m (m.place a) → m'.memory a ≡ m.memory a
  pub same_rights : (a : ℕ) → rights (m'.memory a) ≡ rights (m.memory a)
  pub same_place : (a : ℕ) → m'.place a ≡ m.place a
  pub same_sstatus : m'.sstatus ≡ m.sstatus

user_cell :
    (o o' : Option Cell) (cell' : Cell)
    → rights o' ≡ rights o
    → o' ≡ some cell'
    → cell'.user ≡ true
    → (cell : Cell) × (o ≡ some cell) × (cell.user ≡ true)
user_cell none o' cell' same at on = absurd (ground (arith, rw at at same))
user_cell (some cell) o' cell' same at on = (cell, refl, ground (arith, rw at at same, on))

-- Rights and places decide which places are those of the user.
IsUserPlace-before :
    {m m' : Machine}
    → KernelKept m m'
    → (a : ℕ) → IsUserPlace m' (m'.place a)
    → IsUserPlace m (m.place a)
IsUserPlace-before {m} {m'} kept a (b, (cell', at, on), same) = (
  b,
  user_cell (m.memory b) (m'.memory b) cell' (kept.same_rights b) at on,
  sym (kept.same_place a) ∙ same ∙ kept.same_place b,
)

Keeps-KernelKept :
    {m m' : Machine} (Window : ℕ → Type 0)
    → ((p : ℕ) → Window p → IsUserPlace m p)
    → Keeps Window m m'
    → KernelKept m m'
Keeps-KernelKept Window inside kept = record {
  kernel = λ a off. kept.outside a (λ window. off (inside (_) window));
  same_rights = kept.same_rights;
  same_place = kept.same_place;
  same_sstatus = kept.same_sstatus;
}

Turn-KernelKept : {m m' : Machine} → Turn m m' → KernelKept m m'
Turn-KernelKept (program m m' kept) = Keeps-KernelKept (IsUserPlace m) (λ p h. h) kept
Turn-KernelKept (trap m m' frame frame' small user returned) =
    Keeps-KernelKept (CallWindow m.place frame)
      (λ p (is_read, (k, lt, at)). (add64 frame.a1 k, user is_read k lt, at))
      (Ends-done (KeptBy frame m) (supervisor_trap_handler frame m) frame' m'
        (supervisor_trap_handler-Keeps frame m small) returned)

-- However long a program runs, with any sequence of its own stores and of traps that the kernel
-- returns from, if every `read` has its buffer in user pages: memory stays as it was wherever it
-- shows no byte that a user page shows too, and so do all rights, places and `sstatus`.
pub Run-KernelKept : {m m' : Machine} → Run m m' → KernelKept m m'
Run-KernelKept here = record {
  kernel = λ a off. refl;
  same_rights = λ a. refl;
  same_place = λ a. refl;
  same_sstatus = refl;
}
Run-KernelKept (next run turn) =
    let first = Run-KernelKept run in
    let last = Turn-KernelKept turn in
    record {
      kernel = λ a off.
          last.kernel a (λ user. off (IsUserPlace-before first a user)) ∙ first.kernel a off;
      same_rights = λ a. last.same_rights a ∙ first.same_rights a;
      same_place = λ a. last.same_place a ∙ first.same_place a;
      same_sstatus = last.same_sstatus ∙ first.same_sstatus;
    }
