-- ===== src/Kernel/Tests.antt =====
-- A small kernel that sets up its address space.
use rv64i_operating_system.Base.{◌+◌, ◌≤◌, ◌≡◌, true, some, arith, refl}
use rv64i_operating_system.Platform.{PlatformInfo}
use rv64i_operating_system.Csr.{csr_write_satp, make_satp_sv39}
use rv64i_operating_system.Allocator.{align_up}
use rv64i_operating_system.Allocator.Page.{IsBounded, pages_left}
use rv64i_operating_system.AddressMapping.{phys_to_virt, phys_to_virt_ptr}
use rv64i_operating_system.Paging.{map_pages, map_range, paging_map_range_early, paging_query}
use rv64i_operating_system.Paging.Tests.{paging_code}
use rv64i_operating_system.Kernel.{
  KernelSymbols, KernelState, kernel_tables, switch_tables, paging_init, kernel_rx, kernel_rw,
}
use rv64i_operating_system.Kernel.Alias.{paging_init-ShownTwice}
use rv64i_operating_system.Pte.Fields.{leaf_flags}
use rv64i_operating_system.Kernel.Supply.{AllSit, total_cost}
use rv64i_operating_system.Kernel.Success.{Switched, paging_init-Switched}
use rv64i_operating_system.Kernel.Space.{IsPlaced, Inits, kernel_ranges, paging_init-Inits}
use rv64i_operating_system.Kernel.Rights.{IsGuarded, paging_init-IsGuarded}

abbrev pub symbols : KernelSymbols
symbols = record {
  text_start = 0x8020_0000;
  text_end = 0x8020_1000;
  rodata_start = 0x8020_1000;
  rodata_end = 0x8020_2000;
  data_start = 0x8020_2000;
  data_end = 0x8020_3000;
  bss_start = 0x8020_3000;
  bss_end = 0x8020_3800;
}

abbrev pub platform : PlatformInfo
platform = record {
  ram_base = 0x8020_0000;
  ram_size = 0x2000;
  uart_base = 0x1000_0000;
  dtb_addr = 0x8220_0100;
  dtb_size = 0x200;
  dtb_end = 0x8220_0300;
  kernel_start = 0x8020_0000;
  kernel_end = 0x8021_0000;
  bss_start = 0x8020_3000;
  bss_end = 0x8020_3800;
}

abbrev pub start : KernelState
start = record {
  paging = record {
    ram = λ _. 0xff;
    allocator = record { current = 0x8221_0000; end = 0x8800_0000 };
  };
  csrs = record {
    satp = 1;
    stvec = 2;
    sepc = 3;
    scause = 4;
    sie = 5;
    sscratch = 6;
    mstatus = 7;
    mtvec = 8;
    mepc = 9;
    mcause = 10;
    mie = 11;
    medeleg = 12;
    mideleg = 13;
    mtval = 14;
    mscratch = 15;
    pmpaddr0 = 16;
    pmpcfg0 = 17;
    sp = 18;
  };
  g_kernel_root = 0;
}

pub initialised : KernelState
initialised = (paging_init symbols platform start).1

-- All the code that `paging_init` goes through.
init_code : Unit {0}
unfolding paging_code map_pages map_range paging_map_range_early kernel_tables switch_tables
    paging_init csr_write_satp make_satp_sv39 phys_to_virt_ptr initialised
init_code = tt

pub init_lem : paging_init symbols platform start ≡ (some 0xffff_ffc0_8221_0000, initialised)
unfolding init_code
init_lem = refl

text_lem :
    paging_query initialised.paging.ram 0xffff_ffc0_8221_0000 0x8020_0123
    ≡ (true, 0x8020_0123, 0xcb)
unfolding init_code
text_lem = refl

pub placed : IsPlaced symbols platform
placed = omega arith

pub bounded : IsBounded start.paging.allocator
bounded = omega arith

paging_init-Inits_example : Inits symbols platform start (paging_init symbols platform start)
paging_init-Inits_example = paging_init-Inits symbols platform start bounded placed

enough : 1 + total_cost (kernel_ranges symbols platform) ≤ pages_left start.paging.allocator
unfolding align_up
enough = omega arith

sits : AllSit (kernel_ranges symbols platform)
unfolding align_up phys_to_virt
sits = omega arith

paging_init-Switched_example : Switched symbols platform start (paging_init symbols platform start)
paging_init-Switched_example =
    paging_init-Switched symbols platform start bounded placed sits enough

paging_init-IsGuarded_example : IsGuarded 0xcb
paging_init-IsGuarded_example =
    paging_init-IsGuarded symbols platform start 0xffff_ffc0_8221_0000 initialised 0x8020_0123
      0x8020_0123 0xcb bounded placed init_lem text_lem

paging_init-ShownTwice_example :
    (paging_query initialised.paging.ram 0xffff_ffc0_8221_0000 0x8020_0123
      ≡ (true, 0x8020_0123, leaf_flags kernel_rx))
    × (paging_query initialised.paging.ram 0xffff_ffc0_8221_0000 (phys_to_virt 0x8020_0123)
        ≡ (true, 0x8020_0123, leaf_flags kernel_rw))
paging_init-ShownTwice_example =
    paging_init-ShownTwice symbols platform start 0xffff_ffc0_8221_0000 initialised 0x8020_0123
      bounded placed (omega arith) (omega arith) (omega arith) init_lem
