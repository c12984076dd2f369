-- ===== src/Supervisor/Tests.antt =====
-- The supervisor on a small device tree.
use rv64i_operating_system.Base.{◌≡◌, true, some, [], ◌∷◌, arith, refl, none}
use rv64i_operating_system.AddressMapping.{phys_to_virt}
use rv64i_operating_system.Platform.{PlatformInfo}
use rv64i_operating_system.Allocator.{
  align_up, max_u64, PhysicalPageAllocator, physical_page_allocator_init,
}
use rv64i_operating_system.Allocator.Page.{IsBounded}
use rv64i_operating_system.Machine.State.{Machine, Kernel, pure}
use rv64i_operating_system.Kernel.{KernelState}
use rv64i_operating_system.Kernel.Space.{IsPlaced}
use rv64i_operating_system.Dtb.{
  load32, be32_to_cpu, read_cells, read_cells_from, root_cells, get_root_addr_cells,
  get_root_size_cells, dtb_init, starts_with, skip_string, looks_like_uart, uart_from,
  is_memory_node, reg_of, search_nodes, memory_from, dtb_get_memory_range, uart_body,
  dtb_get_uart_base, with_symbols, finish_platform, platform_info_init,
}
use rv64i_operating_system.Dtb.Tests
use rv64i_operating_system.Supervisor.{Linked, no_platform, no_allocator, supervisor_main, dispatch}
use rv64i_operating_system.User.{UserContext}
use rv64i_operating_system.User.Context.{IsEntry}
use rv64i_operating_system.Process.{user_text_start, user_stack_top}
use rv64i_operating_system.Supervisor.Dispatch.{endings, dispatch-supervisor_main}
use rv64i_operating_system.Supervisor.Enter.{Entered, IsRoomy, entering, supervisor_main-enters}
use rv64i_operating_system.Supervisor.Start.{Boots, supervisor_main-Boots}

abbrev linked : Linked
linked = record {
  fdt = Tests.tree;
  image_symbols = Tests.symbols;
  kernel_symbols = record {
    text_start = 0x8020_0000;
    text_end = 0x8021_0000;
    rodata_start = 0x8021_0000;
    rodata_end = 0x8022_0000;
    data_start = 0x8022_0000;
    data_end = 0x8023_0000;
    bss_start = 0x8023_0000;
    bss_end = 0x8023_8000;
  };
  boot_symbols = record {
    machine_trap_entry = 0x8000_0100;
    machine_trap_stack_top = 0x8001_0000;
    supervisor_trap_entry = 0x8020_0100;
    supervisor_trap_stack_top = 0x8023_4000;
    supervisor_main = 0x8020_0200;
  };
  image = 0x13 ∷ 0x01 ∷ 0x01 ∷ 0xff ∷ [];
  user_enter = λ c. pure tt;
}

abbrev machine : Machine
machine = record { memory = λ a. none; place = λ a. a; sstatus = 0x100; input = []; output = [] }

abbrev platform : PlatformInfo
platform = record {
  ram_base = 0x8000_0000;
  ram_size = 0x800_0000;
  uart_base = 0x1000_0000;
  dtb_addr = 0x100;
  dtb_size = 0x1234;
  dtb_end = 0x1334;
  kernel_start = 0x8020_0000;
  kernel_end = 0x8024_0000;
  bss_start = 0x8023_0000;
  bss_end = 0x8023_8000;
}

abbrev allocator : PhysicalPageAllocator
allocator = record { current = 0x8024_0000; end = 0x8800_0000 }

abbrev start : KernelState
start = record {
  paging = record { ram = Tests.image; allocator = no_allocator };
  csrs = record {
    satp = 0;
    stvec = 0;
    sepc = 0;
    scause = 0;
    sie = 0;
    sscratch = 0;
    mstatus = 0;
    mtvec = 0;
    mepc = 0;
    mcause = 0;
    mie = 0;
    medeleg = 0;
    mideleg = 0;
    mtval = 0;
    mscratch = 0;
    pmpaddr0 = 0;
    pmpcfg0 = 0;
    sp = 0;
  };
  g_kernel_root = 0;
}

found :
    platform_info_init Tests.tree Tests.image Tests.symbols 4 no_platform 0x100
    ≡ some (true, platform)
unfolding load32 be32_to_cpu read_cells read_cells_from root_cells get_root_addr_cells
    get_root_size_cells dtb_init starts_with skip_string looks_like_uart uart_from is_memory_node
    reg_of search_nodes memory_from dtb_get_memory_range uart_body dtb_get_uart_base with_symbols
    finish_platform platform_info_init
found = refl

given : physical_page_allocator_init no_allocator platform ≡ (true, allocator)
unfolding physical_page_allocator_init align_up max_u64
given = refl

placed : IsPlaced linked.kernel_symbols platform
placed = omega arith

bounded : IsBounded allocator
bounded = omega arith

supervisor_main-Boots_example :
    (s' : KernelState) × (run : Kernel (Unit {0})) × (supervisor_main linked 4 0 0x100 start
      ≡ some (s', run))
    × Boots linked 0 0x100 machine {A = Unit {0}} platform start.csrs (s', run machine)
supervisor_main-Boots_example =
    supervisor_main-Boots linked 0 0x100 machine {A = Unit {0}} 4 platform allocator start found
      given bounded placed (omega arith)

roomy : IsRoomy linked platform allocator
unfolding align_up phys_to_virt
roomy = record {
  given = given;
  bounded = bounded;
  placed = placed;
  in_ram = omega arith;
  sits = omega arith;
  image_fits = omega arith;
  program_apart = omega arith;
  stack_apart = omega arith;
  enough = omega arith;
}

supervisor_main-enters_example :
    (s' : KernelState) × (run : Kernel (Unit {0})) × (c : UserContext) × (supervisor_main linked 4 0
        0x100 start
      ≡ some (s', run))
    × (run machine ≡ entering linked 0 0x100 machine {A = Unit {0}} c)
    × IsEntry user_text_start user_stack_top 0 0x100 machine.sstatus c
    × Entered linked platform allocator start s'
supervisor_main-enters_example =
    supervisor_main-enters linked 0 0x100 machine {A = Unit {0}} 4 platform allocator start found
      roomy

dispatch-supervisor_main_example :
    endings linked 0 0x100 machine (dispatch linked {A = Unit {0}} 4 0 0x100 start)
    ≡ endings linked 0 0x100 machine (supervisor_main linked {A = Unit {0}} 4 0 0x100 start)
dispatch-supervisor_main_example =
    dispatch-supervisor_main linked 0 0x100 machine {A = Unit {0}} 4 start
