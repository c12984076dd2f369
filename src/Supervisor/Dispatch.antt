-- ===== src/Supervisor/Dispatch.antt =====
-- `dispatch` of the supervisor: its call of `supervisor_main` does not come back.
use rv64i_operating_system.Base.{
  ℕ, ◌≡◌, Bool, true, false, Option, none, some, List, [], ◌∷◌, ◌++◌, ◌==◌, if◌then◌else◌, refl, ap,
  Bool-cases, Option-cases, inl, inr,
}
use rv64i_operating_system.Platform.{PlatformInfo}
use rv64i_operating_system.Allocator.{physical_page_allocator_init}
use rv64i_operating_system.Machine.State.{
  Machine, Outcome, done, faulted, waiting, halted, Kernel, ◌>>◌, and_then,
}
use rv64i_operating_system.Machine.{codes, uart_putc, uart_puts, halt, panic, debug_prints}
use rv64i_operating_system.Kernel.{KernelState, paging_init}
use rv64i_operating_system.Dtb.{platform_info_init}
use rv64i_operating_system.Supervisor.{
  Linked, no_platform, no_allocator, user_task_init, after_paging, after_platform, supervisor_main,
  dispatch,
}

-- What `uart_puts` leaves.
put : List ℕ → Machine → Machine
put [] m = m
put (c ∷ s) m =
    let rest = put s (record m { output = m.output ++ c ∷ [] }) in if c == 0 then m else rest

uart_puts-done : (s : List ℕ) (m : Machine) → uart_puts s m ≡ done tt (put s m)
unfolding uart_puts uart_putc put
uart_puts-done [] m = refl
uart_puts-done (c ∷ s) m = elim (Bool-cases (c == 0)) [
  | inl nul ↦ rw nul refl
  | inr byte ↦ rw byte (uart_puts-done s (record m { output = m.output ++ c ∷ [] }))
]

-- A panic halts, whatever it is to return.
panic-halted :
    (name msg : List ℕ) (m : Machine)
    → (m' : Machine) × ((A : Type 0) → panic {A = A} name msg m ≡ halted m')
unfolding panic halt
panic-halted name msg m =
    let m1 = put (codes "Kernel PANIC in ") m in
    let m2 = put name m1 in
    let m3 = put (codes ": ") m2 in
    let m4 = put msg m3 in
    (
      put (codes "\n") m4,
      λ A.
          rw
            (
              uart_puts-done (codes "Kernel PANIC in ") m,
              uart_puts-done name m1,
              uart_puts-done (codes ": ") m2,
              uart_puts-done msg m3,
              uart_puts-done (codes "\n") m4,
            )
            refl,
    )

-- A panic in front of a run is that panic.
panic-then :
    (A : Type 0) {B : Type 0} (name msg : List ℕ) (k : Kernel B) (m : Machine)
    → (panic {A = A} name msg >> k) m ≡ panic {A = B} name msg m
panic-then A {B} name msg k m =
    let (m', halts) = panic-halted name msg m in rw (halts A, halts B) refl

then-panic-then :
    (A : Type 0) {B C : Type 0} (o : Outcome C) (name msg : List ℕ) (k : Kernel B)
    → and_then (and_then o (λ _. panic {A = A} name msg)) (λ _. k)
      ≡ and_then o (λ _. panic {A = B} name msg)
then-panic-then A (done c m) name msg k = panic-then A name msg k m
then-panic-then A (faulted address m) name msg k = refl
then-panic-then A (waiting m) name msg k = refl
then-panic-then A (halted m) name msg k = refl

-- The state, and how the run from this machine ends.
abbrev pub ending : {A : Type 0} → Machine → KernelState × Kernel A → KernelState × Outcome A
ending m (s, run) = (s, run m)

module _ (linked : Linked) (hartid dtb : ℕ) (m : Machine) {B : Type 0} (k : Kernel B) where
  after_paging-then :
      (root : Option ℕ) (s : KernelState)
      → let (s', run) = after_paging linked {A = Unit {0}} hartid dtb root s in
        (s', (run >> k) m) ≡ ending m (after_paging linked {A = B} hartid dtb root s)
  unfolding after_paging debug_prints
  after_paging-then none s =
      ap (λ o. (s, o))
        (panic-then (Unit {0}) (codes "supervisor_main") (codes "Failed to initialize paging.") k m)
  after_paging-then (some root) s =
      ap (λ o. ((after_paging linked {A = B} hartid dtb (some root) s).0, o))
        (then-panic-then (Unit {0})
          ((user_task_init linked {A = Unit {0}} root hartid dtb s.paging).1 m)
          (codes "supervisor_main") (codes "Unexpectedly reached end of supervisor mode execution.")
          k)

  after_platform-then :
      (found : Bool × PlatformInfo) (s : KernelState)
      → let (s', run) = after_platform linked {A = Unit {0}} hartid dtb found s in
        (s', (run >> k) m) ≡ ending m (after_platform linked {A = B} hartid dtb found s)
  unfolding after_platform
  after_platform-then (false, platform) s =
      ap (λ o. (s, o))
        (panic-then (Unit {0}) (codes "supervisor_main")
          (codes "Failed to initialize platform information.") k m)
  after_platform-then (true, platform) s =
      let (ok, allocator) = physical_page_allocator_init no_allocator platform in
      let s1 = record s { paging = record { ram = s.paging.ram; allocator = allocator } } in
      let r = paging_init linked.kernel_symbols platform s1 in
      elim (Bool-cases (physical_page_allocator_init no_allocator platform).0) [
        | inl given ↦ rw given (after_paging-then r.0 r.1)
        | inr refused ↦ rw refused (
            ap (λ o. (s1, o))
              (panic-then (Unit {0}) (codes "supervisor_main")
                (codes "Failed to initialize physical page allocator.") k m))
      ]

module _ (linked : Linked) (hartid dtb : ℕ) (m : Machine) where
  abbrev pub endings :
      {A : Type 0} → Option (KernelState × Kernel A) → Option (KernelState × Outcome A)
  endings none = none
  endings (some r) = some (ending m r)

  -- With any device tree and any memory, `dispatch` leaves the same state as `supervisor_main`, and
  -- its run ends in the same way, with the same output: the panic behind its call is not reached.
  pub dispatch-supervisor_main :
      {A : Type 0} (fuel : ℕ) (s : KernelState)
      → endings (dispatch linked {A = A} fuel hartid dtb s)
        ≡ endings (supervisor_main linked {A = A} fuel hartid dtb s)
  unfolding dispatch supervisor_main
  dispatch-supervisor_main {A} fuel s =
      elim (Option-cases
        (platform_info_init linked.fdt s.paging.ram linked.image_symbols fuel no_platform dtb)) [
          | inl more_fuel ↦ rw (dispatch, supervisor_main, more_fuel) refl
          | inr (found, e) ↦
              rw (dispatch, supervisor_main, e)
                (ap some (
                  after_platform-then linked hartid dtb m
                    (panic {A = A} (codes "dispatch") (codes "dispatch returned unexpectedly"))
                    found s))
        ]
