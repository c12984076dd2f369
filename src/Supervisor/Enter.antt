-- ===== src/Supervisor/Enter.antt =====
-- `supervisor_main` gets to the first user program.
use rv64i_operating_system.Base.{
  ℕ, ◌/◌, ◌^◌, subst, ◌+◌, ◌-◌, ◌*◌, ◌≡◌, ◌≤◌, ◌<◌, inl, inr, true, false, Option, some, List, [],
  ◌∷◌, arith, refl, length, is_some, ap,
}
use rv64i_operating_system.AddressMapping.{late, to_ptr, phys_to_virt}
use rv64i_operating_system.Platform.{PlatformInfo}
use rv64i_operating_system.Allocator.{PhysicalPageAllocator, physical_page_allocator_init}
use rv64i_operating_system.Allocator.Page.{IsBounded, pages_left}
use rv64i_operating_system.Pte.{pte_is_valid}
use rv64i_operating_system.Paging.State.{PagingState}
use rv64i_operating_system.Paging.Map.Slots.{slot_at}
use rv64i_operating_system.Paging.Range.{nth_va, pages_of}
use rv64i_operating_system.Machine.State.{Machine, Outcome, done, Kernel, ◌>>◌, and_then}
use rv64i_operating_system.Machine.{codes, panic, debug_prints, debug_print_hex}
use rv64i_operating_system.User.{UserContext, user_context_init, enter_user_mode}
use rv64i_operating_system.User.Context.{IsEntry, user_context_init-IsEntry}
use rv64i_operating_system.Process.{
  LoadedUserProgram, process_load_initial_user_program, user_text_start, user_stack_top, flags_rw,
}
use rv64i_operating_system.Process.Load.{Kept, Loads, Loaded, failed, loaded}
use rv64i_operating_system.Process.Program.{process_load_initial_user_program-Loads}
use rv64i_operating_system.Process.Program.Supply.{
  UserFree, program_cost, process_load_initial_user_program-succeeds,
}
use rv64i_operating_system.Kernel.{KernelSymbols, KernelState, kernel_rw, paging_init}
use rv64i_operating_system.Kernel.Alias.{through_direct_map}
use rv64i_operating_system.Pte.Fields.{leaf_flags}
use rv64i_operating_system.Paging.{query}
use rv64i_operating_system.Csr.{csr_write_stvec, csr_write_sscratch}
use rv64i_operating_system.Boot.{supervisor_traps_init}
use rv64i_operating_system.Kernel.Ranges.{AddressRange, AllMapped}
use rv64i_operating_system.Kernel.Space.{
  IsPlaced, Inits, kept_off, switched, kernel_ranges, same_range, paging_init-Inits,
}
use rv64i_operating_system.Kernel.Supply.{
  Sits, Apart, ApartFrom, AllSit, total_cost, OutsideAll, Apart-same_page,
}
use rv64i_operating_system.Kernel.Success.{Switched, paging_init-Switched}
use rv64i_operating_system.Dtb.{platform_info_init}
use rv64i_operating_system.Supervisor.{
  Linked, no_platform, no_allocator, start_user_task, user_task_init, after_paging, after_platform,
  supervisor_main,
}

Apart-sym : (r r' : AddressRange) → Apart r r' → Apart r' r
Apart-sym r r' (inl h) = inr h
Apart-sym r r' (inr h) = inl h

-- Pages of a range that is apart from all the others are outside them.
pages-OutsideAll :
    (r : AddressRange) (ranges : List AddressRange) (n : ℕ)
    → Sits r
    → AllSit ranges
    → ApartFrom r ranges
    → n < pages_of r.size
    → OutsideAll ranges (nth_va r.virtual_start n)
pages-OutsideAll r [] n sits all apart lt = tt
pages-OutsideAll r (r' ∷ ranges) n sits (sits', _, all) (here, apart) lt = (
  λ n' lt'. Apart-same_page r' r n' n sits' sits (Apart-sym r r' here) lt' lt,
  pages-OutsideAll r ranges n sits all apart lt,
)

-- The text and the bss of a program of `n` pages, and its stack.
abbrev pub program_range : ℕ → AddressRange
program_range n = same_range user_text_start (4096 * n + 4096) flags_rw

abbrev pub stack_range : AddressRange
stack_range = same_range (user_stack_top - 4096) 4096 flags_rw

free-UserFree :
    (root n : ℕ) (ranges : List AddressRange) (s : PagingState)
    → user_text_start + 4096 * n + 8192 < user_stack_top
    → AllSit ranges
    → ApartFrom (program_range n) ranges
    → ApartFrom stack_range ranges
    → ((va : ℕ) → OutsideAll ranges va → pte_is_valid (slot_at s.ram root va) ≡ false)
    → UserFree root n s
free-UserFree root n ranges s fits all apart apart' free =
    let sits : Sits (program_range n) = omega arith in
    let sits' : Sits stack_range = omega arith in
    record {
      text = λ k lo up.
          free (nth_va user_text_start k)
            (pages-OutsideAll (program_range n) ranges k sits all apart (omega arith));
      bss = λ k lo up.
          (let same : nth_va (user_text_start + 4096 * n) k ≡ nth_va user_text_start n =
              omega arith in
            rw same (
              free (nth_va user_text_start n)
                (pages-OutsideAll (program_range n) ranges n sits all apart (omega arith))));
      stack = λ k lo up.
          free (nth_va (user_stack_top - 4096) k)
            (pages-OutsideAll stack_range ranges k sits' all apart' (omega arith));
    }

-- What a machine must offer to get to user mode: a range that the allocator accepts, ranges of whole
-- pages that share none, also with the first program, and pages for the tables and the program.
pub record IsRoomy (linked : Linked) (platform : PlatformInfo) (allocator : PhysicalPageAllocator)
    : Type 0 where
  pub given : physical_page_allocator_init no_allocator platform ≡ (true, allocator)
  pub bounded : IsBounded allocator
  pub placed : IsPlaced linked.kernel_symbols platform
  pub in_ram :
      (platform.ram_base ≤ allocator.current)
      × (allocator.end ≤ platform.ram_base + platform.ram_size)
  pub sits : AllSit (kernel_ranges linked.kernel_symbols platform)
  pub image_fits : user_text_start + 4096 * pages_of (length linked.image) + 8192 < user_stack_top
  pub program_apart :
      ApartFrom
        (program_range (pages_of (length linked.image)))
        (kernel_ranges linked.kernel_symbols platform)
  pub stack_apart : ApartFrom stack_range (kernel_ranges linked.kernel_symbols platform)
  pub enough :
      1
        + total_cost (kernel_ranges linked.kernel_symbols platform)
        + program_cost (pages_of (length linked.image))
      ≤ pages_left allocator

AllMapped-keeps :
    (root : ℕ) (s s' : PagingState) (ranges : List AddressRange)
    → ((va pa f : ℕ)
        → query late s.ram (to_ptr late root) va ≡ (true, pa, f)
        → query late s'.ram (to_ptr late root) va ≡ (true, pa, f))
    → AllMapped late root s ranges
    → AllMapped late root s' ranges
AllMapped-keeps root s s' [] keeps all = tt
AllMapped-keeps root s s' (r ∷ ranges) keeps (here, all) =
    (λ n va at. keeps va _ _ (here n va at), AllMapped-keeps root s s' ranges keeps all)

-- What a `paging_init` that returns this root has left.
Inits-root :
    (symbols : KernelSymbols) (platform : PlatformInfo) (s : KernelState)
    (r : Option ℕ × KernelState) (root : ℕ)
    → Inits symbols platform s r
    → r.0 ≡ some (to_ptr late root)
    → root < 2 ^ 38
    → (r.1.csrs ≡ record s.csrs { satp = 8 * 2 ^ 60 + root / 4096 })
      × (r.1.g_kernel_root ≡ to_ptr late root)
      × AllMapped late root r.1.paging (kernel_ranges symbols platform)
unfolding to_ptr phys_to_virt
Inits-root symbols platform s _ root (kept_off s' e e') same small = absurd (ground (arith, same))
Inits-root symbols platform s _ root (switched root' s' owner tree csrs g all only) same small =
    let below = tree.root_is.page.1 in
    let one : root' ≡ root = ground (arith, same, below) in
    subst
      (λ x.
        (s'.csrs ≡ record s.csrs { satp = 8 * 2 ^ 60 + x / 4096 })
        × (s'.g_kernel_root ≡ to_ptr late x)
        × AllMapped late x s'.paging (kernel_ranges symbols platform))
      one (csrs, g, all)

-- The state in which the program starts: `satp` and the kernel's pointer have the root of the tables,
-- the trap entry and its stack are set, the kernel's ranges are still mapped, each byte of the
-- allocator's memory, and so each table, is reached through the direct map, and the program is loaded
-- in the same tables.
pub record Entered (linked : Linked) (platform : PlatformInfo) (allocator : PhysicalPageAllocator)
    (old s' : KernelState) : Type 0 where
  pub root : ℕ
  pub kernel : PagingState
  pub program : LoadedUserProgram
  pub csrs : s'.csrs ≡ record old.csrs {
    satp = 8 * 2 ^ 60 + root / 4096;
    stvec = linked.boot_symbols.supervisor_trap_entry;
    sscratch = linked.boot_symbols.supervisor_trap_stack_top;
  }
  pub pointer : s'.g_kernel_root ≡ to_ptr late root
  pub mapped : AllMapped late root s'.paging (kernel_ranges linked.kernel_symbols platform)
  pub reached :
      (a : ℕ)
      → allocator.current ≤ a
      → a < allocator.end
      → query late s'.paging.ram (to_ptr late root) (phys_to_virt a)
        ≡ (true, a, leaf_flags kernel_rw)
  pub holds : Loaded root linked.image kernel s'.paging program

module _ (linked : Linked) (hartid dtb : ℕ) (m : Machine) where
  -- The run that calls `user_enter` with this context, and does not expect it back.
  abbrev pub entering : {A : Type 0} → UserContext → Outcome A
  entering c =
      and_then
        (and_then (linked.user_enter c m) (λ _.
          panic {A = Unit {0}} (codes "enter_user_mode")
            (codes "Returned from user_enter unexpectedly.")))
        (λ _.
          panic (codes "supervisor_main")
            (codes "Unexpectedly reached end of supervisor mode execution."))

  start-Loaded :
      (root : ℕ) (s : PagingState) (r : Option LoadedUserProgram × PagingState)
      → Loads root linked.image s r
      → is_some r.0 ≡ true
      → (c : UserContext) × IsEntry user_text_start user_stack_top hartid dtb m.sstatus c
        × (start_user_task linked {A = Unit {0}} hartid dtb r.0 m
            ≡ (linked.user_enter c
                  >> panic
                      (codes "enter_user_mode")
                      (codes "Returned from user_enter unexpectedly."))
                m)
        × ((program : LoadedUserProgram) × Kept root s r.1 × Loaded root linked.image s r.1 program)
  unfolding start_user_task enter_user_mode debug_prints debug_print_hex
  start-Loaded root s _ (failed s' kept) ok = absurd (ground (arith, ok))
  start-Loaded root s _ (loaded program s' kept holds) ok =
      let (c, run, is) =
        user_context_init-IsEntry user_text_start user_stack_top hartid dtb m (omega arith) in
      let ends : program ≡ record { entry = user_text_start; stack_top = user_stack_top } =
        holds.program_is in
      let same_run : user_context_init program.entry program.stack_top hartid dtb m ≡ done c m =
        rw ends run in
      (c, is, rw same_run refl, (program, kept, holds))

  after_paging-Enters :
      {A : Type 0} (platform : PlatformInfo) (allocator : PhysicalPageAllocator) (s : KernelState)
      (r : Option ℕ × KernelState)
      → IsRoomy linked platform allocator
      → s.paging.allocator ≡ allocator
      → Inits linked.kernel_symbols platform s r
      → Switched linked.kernel_symbols platform s r
      → let end = after_paging linked {A = A} hartid dtb r.0 r.1 in
        (c : UserContext) × IsEntry user_text_start user_stack_top hartid dtb m.sstatus c
        × (end.1 m ≡ entering {A = A} c)
        × Entered linked platform allocator s end.0
  unfolding after_paging user_task_init debug_prints supervisor_traps_init csr_write_stvec
      csr_write_sscratch
  after_paging-Enters platform allocator s r roomy same inits swapped =
      let root = swapped.root in
      let ranges = kernel_ranges linked.kernel_symbols platform in
      let loads =
        process_load_initial_user_program-Loads root swapped.owner linked.image r.1.paging
          (omega (arith, roomy.image_fits)) swapped.tree in
      let free =
        free-UserFree root (pages_of (length linked.image)) ranges r.1.paging roomy.image_fits
          roomy.sits roomy.program_apart roomy.stack_apart swapped.outside in
      let left : pages_left s.paging.allocator ≡ pages_left allocator = ap pages_left same in
      let ok =
        process_load_initial_user_program-succeeds root swapped.owner linked.image r.1.paging
          swapped.tree roomy.image_fits free (omega (arith, swapped.spent, left, roomy.enough)) in
      let (c, is, run, (program, kept, holds)) =
        start-Loaded root r.1.paging
          (process_load_initial_user_program linked.image (to_ptr late root) r.1.paging) loads ok in
      let (csrs, pointer, all) =
        Inits-root linked.kernel_symbols platform s r root inits swapped.result
          swapped.tree.root_is.page.1 in
      let final =
        (process_load_initial_user_program linked.image (to_ptr late root) r.1.paging).1 in
      let mapped = AllMapped-keeps root r.1.paging final ranges kept.keeps all in
      let ram = roomy.placed.ram in
      let aligned = roomy.sits.2.2.2.2.2.2.0.physical_aligned in
      let (low, high) = roomy.in_ram in
      rw swapped.result (
        c,
        is,
        rw run refl,
        record {
          root = root;
          kernel = r.1.paging;
          program = program;
          csrs = rw csrs refl;
          pointer = pointer;
          mapped = mapped;
          reached = λ a from to.
              through_direct_map root final platform.ram_base platform.ram_size a aligned ram
                (omega (arith, low), omega (arith, high)) mapped.1.1.1.1.1.1.0;
          holds = holds;
        },
      )

  -- `supervisor_main` gets to user mode: on a platform that the device tree gives, if the allocator
  -- lies in the RAM and is large enough for the tables and the program, and no ranges share a page,
  -- then every step succeeds. `satp` and the kernel's pointer have the root of the new tables, and
  -- the trap entry and its stack are set. These tables map the kernel's ranges, each byte of the
  -- allocator's memory through the direct map, and the image, bss and stack of the program. Nothing is
  -- printed, and `user_enter` gets the context of the program's start.
  pub supervisor_main-enters :
      {A : Type 0} (fuel : ℕ) (platform : PlatformInfo) (allocator : PhysicalPageAllocator)
      (s : KernelState)
      → platform_info_init linked.fdt s.paging.ram linked.image_symbols fuel no_platform dtb
        ≡ some (true, platform)
      → IsRoomy linked platform allocator
      → (s' : KernelState) × (run : Kernel A) × (c : UserContext) × (supervisor_main linked fuel
            hartid dtb s
          ≡ some (s', run))
        × (run m ≡ entering {A = A} c)
        × IsEntry user_text_start user_stack_top hartid dtb m.sstatus c
        × Entered linked platform allocator s s'
  unfolding supervisor_main after_platform
  supervisor_main-enters {A = A} fuel platform allocator s found roomy =
      let s1 : KernelState = record s {
        paging = record { ram = s.paging.ram; allocator = allocator };
      } in
      let r = paging_init linked.kernel_symbols platform s1 in
      let end = after_paging linked {A = A} hartid dtb r.0 r.1 in
      let swapped =
        paging_init-Switched linked.kernel_symbols platform s1 roomy.bounded roomy.placed roomy.sits
          (omega (arith, roomy.enough)) in
      let inits = paging_init-Inits linked.kernel_symbols platform s1 roomy.bounded roomy.placed in
      let (c, is, run, entered) =
        after_paging-Enters {A = A} platform allocator s1 r roomy refl inits swapped in
      (
        end.0,
        end.1,
        c,
        rw (supervisor_main, found, after_platform, roomy.given) refl,
        run,
        is,
        record {
          root = entered.root;
          kernel = entered.kernel;
          program = entered.program;
          csrs = entered.csrs;
          pointer = entered.pointer;
          mapped = entered.mapped;
          reached = entered.reached;
          holds = entered.holds;
        },
      )
