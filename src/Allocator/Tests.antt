-- ===== src/Allocator/Tests.antt =====
-- Runs of the allocator, and the theorems at inputs that meet their hypotheses.
use rv64i_operating_system.Base.{
  ◌+◌, ◌%◌, ◌≤◌, ◌<◌, ◌≡◌, ◌↔◌, refl, true, [], ◌∷◌, arith, some, get_elem?,
}
use rv64i_operating_system.Platform.{PlatformInfo}
use rv64i_operating_system.Allocator.{
  PhysicalPageAllocator, align_up, physical_page_allocator_init, physical_alloc_page, alloc_pages,
}
use rv64i_operating_system.Allocator.Page.{IsBounded, physical_page_allocator_init-IsBounded}
use rv64i_operating_system.Allocator.Run.{alloc_pages_lem, alloc_pages_apart}

-- The memory map of QEMU's `virt` board with 128 MiB of RAM.
abbrev virt_board : PlatformInfo
virt_board = record {
  ram_base = 0x8000_0000;
  ram_size = 0x800_0000;
  uart_base = 0x1000_0000;
  dtb_addr = 0x87e0_0000;
  dtb_size = 0x1234;
  dtb_end = 0x87e0_1234;
  kernel_start = 0x8000_0000;
  kernel_end = 0x8002_1010;
  bss_start = 0x8001_0000;
  bss_end = 0x8002_0000;
}

abbrev two_pages : PhysicalPageAllocator
two_pages = record { current = 0x8000_0010; end = 0x8000_3000 }

three_calls : (alloc_pages 3 two_pages).0 ≡ 0x8000_1000 ∷ 0x8000_2000 ∷ 0 ∷ []
unfolding alloc_pages physical_alloc_page align_up
three_calls = refl

-- Near the top of the address space the rounding wraps to 0, and a failing call moves `current`.
wrapped_rounding : align_up 0xffff_ffff_ffff_f001 4096 ≡ 0
unfolding align_up
wrapped_rounding = refl

physical_page_allocator_init-IsBounded_example :
    let (ok, a) = physical_page_allocator_init two_pages virt_board in
    IsBounded a
    × (a.end ≡ 0x8800_0000)
    × (a.current % 4096 ≡ 0)
    × (0x8002_1010 ≤ a.current)
    × (0x87e0_1234 ≤ a.current)
    × ((ok ≡ true) ↔ (a.current < a.end))
physical_page_allocator_init-IsBounded_example =
    physical_page_allocator_init-IsBounded two_pages virt_board (omega arith) (omega arith)
      (omega arith) (omega arith)

alloc_pages_lem_example : get_elem? (alloc_pages 3 two_pages).0 1 ≡ some 0x8000_2000
alloc_pages_lem_example = alloc_pages_lem 3 1 two_pages (omega arith) (omega arith)

alloc_pages_apart_example :
    (0x87e0_2000 + 4096 ≤ 0x87e0_3000)
    × (0x8002_1010 ≤ 0x87e0_2000)
    × (0x87e0_1234 ≤ 0x87e0_2000)
    × (0x87e0_3000 + 4096 ≤ 0x8800_0000)
unfolding physical_page_allocator_init alloc_pages physical_alloc_page align_up
alloc_pages_apart_example =
    alloc_pages_apart two_pages virt_board 3 0 1 (omega arith) (omega arith) (omega arith)
      (omega arith) (omega arith) (omega arith) refl refl (omega arith) (omega arith)
