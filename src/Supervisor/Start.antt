-- ===== src/Supervisor/Start.antt =====
-- Where `supervisor_main` and `user_task_init` end.
use rv64i_operating_system.Base.{
  ℕ, ◌+◌, ◌*◌, ◌/◌, ◌^◌, ◌≡◌, ◌≤◌, true, Option, none, some, arith, refl, length,
}
use rv64i_operating_system.AddressMapping.{late, to_ptr}
use rv64i_operating_system.Platform.{PlatformInfo}
use rv64i_operating_system.Csr.{Csrs, csr_write_stvec, csr_write_sscratch}
use rv64i_operating_system.Allocator.{PhysicalPageAllocator, physical_page_allocator_init}
use rv64i_operating_system.Allocator.Page.{IsBounded}
use rv64i_operating_system.Paging.State.{PagingState}
use rv64i_operating_system.Paging.Tree.{Owner, IsTree}
use rv64i_operating_system.Machine.State.{Machine, Outcome, done, Kernel, ◌>>◌, and_then}
use rv64i_operating_system.Machine.{codes, panic, debug_prints, debug_print_hex}
use rv64i_operating_system.Boot.{supervisor_traps_init}
use rv64i_operating_system.User.{UserContext, user_context_init, enter_user_mode}
use rv64i_operating_system.User.Context.{IsEntry, user_context_init-IsEntry}
use rv64i_operating_system.Process.{
  LoadedUserProgram, process_load_initial_user_program, user_text_start, user_stack_top,
}
use rv64i_operating_system.Process.Load.{Loads, failed, loaded}
use rv64i_operating_system.Process.Program.{process_load_initial_user_program-Loads}
use rv64i_operating_system.Kernel.{KernelState, paging_init}
use rv64i_operating_system.Kernel.Ranges.{AllMapped}
use rv64i_operating_system.Kernel.Space.{
  IsPlaced, Inits, kept_off, switched, paging_init-Inits, kernel_ranges,
}
use rv64i_operating_system.Dtb.{platform_info_init}
use rv64i_operating_system.Supervisor.{
  Linked, no_platform, no_allocator, start_user_task, user_task_init, after_paging, after_platform,
  supervisor_main,
}

module _ (linked : Linked) (hartid dtb : ℕ) (m : Machine) where
  -- How the task starts: with a panic when the program does not load, and else with `user_enter`.
  pub data Starts {A : Type 0} (root : ℕ) (s : PagingState) : PagingState × Outcome A → Type 0 where
    not_loaded :
        (s' : PagingState)
        → Loads root linked.image s (none, s')
        → Starts root s
            (s', panic (codes "user_task_init") (codes "Failed to load initial user program.") m)
    entered :
        (program : LoadedUserProgram) (s' : PagingState) (c : UserContext)
        → Loads root linked.image s (some program, s')
        → IsEntry user_text_start user_stack_top hartid dtb m.sstatus c
        → Starts root s (
          s',
          (linked.user_enter c
                >> panic (codes "enter_user_mode") (codes "Returned from user_enter unexpectedly."))
              m,
        )

  start_user_task-Starts :
      {A : Type 0} (root : ℕ) (s : PagingState) (r : Option LoadedUserProgram × PagingState)
      → Loads root linked.image s r
      → Starts {A = A} root s (r.1, start_user_task linked hartid dtb r.0 m)
  unfolding start_user_task enter_user_mode debug_prints debug_print_hex
  start_user_task-Starts root s _ (failed s' kept) = not_loaded s' (failed s' kept)
  start_user_task-Starts root s _ (loaded program s' kept holds) =
      let (c, run, is) =
        user_context_init-IsEntry user_text_start user_stack_top hartid dtb m (omega arith) in
      let ends : program ≡ record { entry = user_text_start; stack_top = user_stack_top } =
        holds.program_is in
      let same_run : user_context_init program.entry program.stack_top hartid dtb m ≡ done c m =
        rw ends run in
      rw same_run (entered program s' c (loaded program s' kept holds) is)

  -- `user_task_init` on a tree, for an image below 2^38 bytes: it panics when the program does not
  -- load. When it loads, nothing is printed, and `user_enter` gets a context that starts at the
  -- program's text and stack with the two arguments, the rest cleared.
  user_task_init-Starts :
      {A : Type 0} (root : ℕ) (owner : Owner) (s : PagingState)
      → length linked.image ≤ 2 ^ 38
      → IsTree root owner s
      → let r = user_task_init linked {A = A} (to_ptr late root) hartid dtb s in
        Starts {A = A} root s (r.0, r.1 m)
  unfolding user_task_init
  user_task_init-Starts root owner s fits tree =
      start_user_task-Starts root s
        (process_load_initial_user_program linked.image (to_ptr late root) s)
        (process_load_initial_user_program-Loads root owner linked.image s fits tree)

  -- How `supervisor_main` ends once the allocator is set up: with a panic before the switch to the
  -- new tables, or on these tables, with the trap entry set and the task started or refused.
  pub data Boots {A : Type 0} (platform : PlatformInfo) (old : Csrs)
      : KernelState × Outcome A → Type 0 where
    unpaged :
        (s' : KernelState)
        → s'.csrs ≡ old
        → Boots platform old
            (s', panic (codes "supervisor_main") (codes "Failed to initialize paging.") m)
    booted :
        (root : ℕ) (kernel user : PagingState) (s' : KernelState) (run : Outcome (Unit {0}))
        → AllMapped late root kernel (kernel_ranges linked.kernel_symbols platform)
        → s'.csrs ≡ record old {
          satp = 8 * 2 ^ 60 + root / 4096;
          stvec = linked.boot_symbols.supervisor_trap_entry;
          sscratch = linked.boot_symbols.supervisor_trap_stack_top;
        }
        → s'.paging ≡ user
        → Starts {A = Unit {0}} root kernel (user, run)
        → Boots platform old (
          s',
          and_then run (λ _.
              panic
                (codes "supervisor_main")
                (codes "Unexpectedly reached end of supervisor mode execution.")),
        )

  after_paging-Boots :
      {A : Type 0} (platform : PlatformInfo) (s : KernelState) (r : Option ℕ × KernelState)
      → length linked.image ≤ 2 ^ 38
      → Inits linked.kernel_symbols platform s r
      → let end = after_paging linked {A = A} hartid dtb r.0 r.1 in
        Boots {A = A} platform s.csrs (end.0, end.1 m)
  unfolding after_paging supervisor_traps_init csr_write_stvec csr_write_sscratch debug_prints
  after_paging-Boots platform s _ fits (kept_off s' csrs root_is) = unpaged s' csrs
  after_paging-Boots platform s _ fits (switched root s' owner tree csrs root_is all only) =
      booted root s'.paging _ _ _ all (rw csrs refl) refl
        (user_task_init-Starts root owner s'.paging fits tree)

  -- `supervisor_main` on a platform that the device tree gives and a range that the allocator
  -- accepts, for a kernel, devices and memory below 2^38 and an image below 2^38 bytes: it
  -- panics before the switch to the new tables, with no CSR written, or it runs on tables that map
  -- every range of the kernel, with the trap entry and its stack set. There it panics when the
  -- program does not load, and else calls `user_enter` with the context of the program's start.
  pub supervisor_main-Boots :
      {A : Type 0} (fuel : ℕ) (platform : PlatformInfo) (allocator : PhysicalPageAllocator)
      (s : KernelState)
      → platform_info_init linked.fdt s.paging.ram linked.image_symbols fuel no_platform dtb
        ≡ some (true, platform)
      → physical_page_allocator_init no_allocator platform ≡ (true, allocator)
      → IsBounded allocator
      → IsPlaced linked.kernel_symbols platform
      → length linked.image ≤ 2 ^ 38
      → (s' : KernelState) × (run : Kernel A) × (supervisor_main linked fuel hartid dtb s
          ≡ some (s', run))
        × Boots {A = A} platform s.csrs (s', run m)
  unfolding supervisor_main after_platform
  supervisor_main-Boots {A = A} fuel platform allocator s found given bounded placed fits =
      let s1 : KernelState = record s {
        paging = record { ram = s.paging.ram; allocator = allocator };
      } in
      let r = paging_init linked.kernel_symbols platform s1 in
      let end = after_paging linked {A = A} hartid dtb r.0 r.1 in
      (
        end.0,
        end.1,
        rw (supervisor_main, found, after_platform, given) refl,
        after_paging-Boots platform s1 r fits
            (paging_init-Inits linked.kernel_symbols platform s1 bounded placed),
      )
