-- ===== src/Supervisor.antt =====
-- src/kernel/Supervisor.cpp, and `user_task_init` of src/kernel/User.cpp: the way from the device
-- tree to the first user program. The tables and CSRs are one state; what is sent to the UART, and
-- how the run ends, is a run of the machine.
pub mod Start
pub mod Enter
pub mod Dispatch
mod Tests
use rv64i_operating_system.Base.{ℕ, Bool, true, false, Option, none, some, List, not, if◌then◌else◌}
use rv64i_operating_system.Platform.{PlatformInfo}
use rv64i_operating_system.Allocator.{PhysicalPageAllocator, physical_page_allocator_init}
use rv64i_operating_system.Paging.State.{PagingState}
use rv64i_operating_system.Machine.State.{Kernel, ◌>>=◌, ◌>>◌, and_then}
use rv64i_operating_system.Machine.{codes, panic, debug_prints, debug_print_hex}
use rv64i_operating_system.Boot.{BootSymbols, supervisor_traps_init}
use rv64i_operating_system.User.{UserContext, user_context_init, enter_user_mode}
use rv64i_operating_system.Process.{LoadedUserProgram, process_load_initial_user_program}
use rv64i_operating_system.Kernel.{KernelSymbols, KernelState, paging_init}
use rv64i_operating_system.Dtb.{Libfdt, ImageSymbols, platform_info_init}

-- PlatformInfo platform = {}
abbrev pub no_platform : PlatformInfo
no_platform = record {
  ram_base = 0;
  ram_size = 0;
  uart_base = 0;
  dtb_addr = 0;
  dtb_size = 0;
  dtb_end = 0;
  kernel_start = 0;
  kernel_end = 0;
  bss_start = 0;
  bss_end = 0;
}

-- PhysicalPageAllocator allocator = {}
abbrev pub no_allocator : PhysicalPageAllocator
no_allocator = record { current = 0; end = 0 }

-- What the supervisor is linked with: its symbols, the embedded program, and the entry to it.
pub record Linked : Type 0 where
  pub fdt : Libfdt
  pub image_symbols : ImageSymbols
  pub kernel_symbols : KernelSymbols
  pub boot_symbols : BootSymbols
  pub image : List ℕ
  pub user_enter : UserContext → Kernel (Unit {0})

module _ (linked : Linked) where
  -- What follows the load.
  unfoldable pub start_user_task : {A : Type 0} → ℕ → ℕ → Option LoadedUserProgram → Kernel A
  start_user_task hartid dtb none =
      panic (codes "user_task_init") (codes "Failed to load initial user program.")
  start_user_task hartid dtb (some program) = do
    debug_prints (codes "User code VA : ")
    debug_print_hex program.entry
    debug_prints (codes "\n")
    debug_prints (codes "User stack VA: ")
    debug_print_hex program.stack_top
    debug_prints (codes "\n")
    context ← user_context_init program.entry program.stack_top hartid dtb
    enter_user_mode linked.user_enter context

  -- The state that the load leaves, and the run from there.
  unfoldable pub user_task_init : {A : Type 0} → ℕ → ℕ → ℕ → PagingState → PagingState × Kernel A
  user_task_init root hartid dtb s =
      let (program, s') = process_load_initial_user_program linked.image root s in
      (s', start_user_task hartid dtb program)

  -- What follows `paging_init`.
  unfoldable pub after_paging :
      {A : Type 0} → ℕ → ℕ → Option ℕ → KernelState → KernelState × Kernel A
  after_paging hartid dtb none s =
      (s, panic (codes "supervisor_main") (codes "Failed to initialize paging."))
  after_paging hartid dtb (some root) s =
      let csrs = supervisor_traps_init linked.boot_symbols s.csrs in
      let (paging, run) = user_task_init {A = Unit {0}} root hartid dtb s.paging in
      (
        record s { csrs = csrs; paging = paging },
        debug_prints (codes "Supervisor Mode Reached\n")
            >> run
            >> panic (codes "supervisor_main")
                (codes "Unexpectedly reached end of supervisor mode execution."),
      )

  -- What follows `platform_info_init`.
  unfoldable pub after_platform :
      {A : Type 0} → ℕ → ℕ → Bool × PlatformInfo → KernelState → KernelState × Kernel A
  after_platform hartid dtb (false, platform) s =
      (s, panic (codes "supervisor_main") (codes "Failed to initialize platform information."))
  after_platform hartid dtb (true, platform) s =
      let (ok, allocator) = physical_page_allocator_init no_allocator platform in
      let s = record s { paging = record { ram = s.paging.ram; allocator = allocator } } in
      let (root, s') = paging_init linked.kernel_symbols platform s in
      if not ok
      then (
        s,
        panic (codes "supervisor_main") (codes "Failed to initialize physical page allocator."),
      )
      else after_paging hartid dtb root s'

  -- `none` when the search of the device tree has run out of fuel.
  unfoldable pub supervisor_main :
      {A : Type 0} → ℕ → ℕ → ℕ → KernelState → Option (KernelState × Kernel A)
  supervisor_main fuel hartid dtb s =
      elim (platform_info_init linked.fdt s.paging.ram linked.image_symbols fuel no_platform dtb) [
        | none ↦ none
        | some found ↦ some (after_platform hartid dtb found s)
      ]

  -- src/arch/riscv/boot/dispatch_s.cpp.
  unfoldable pub dispatch : {A : Type 0} → ℕ → ℕ → ℕ → KernelState → Option (KernelState × Kernel A)
  dispatch fuel hartid dtb s = elim (supervisor_main {A = Unit {0}} fuel hartid dtb s) [
    | none ↦ none
    | some (s', run) ↦
        some (s', run >> panic (codes "dispatch") (codes "dispatch returned unexpectedly"))
  ]
