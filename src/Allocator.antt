-- ===== src/Allocator.antt =====
-- src/kernel/PhysicalPageAllocator.cpp: a bump allocator of 4096-byte pages. A function that
-- updates the allocator through its reference returns the new allocator beside its result.
pub mod Align
pub mod Page
pub mod Run
mod Tests
use rv64i_operating_system.Base.{
  ℕ, zero, suc, Bool, true, false, List, [], ◌∷◌, ltb, leb, if◌then◌else◌, bit_and, add64, sub64,
  not64,
}
use rv64i_operating_system.Platform.{PlatformInfo}

pub record PhysicalPageAllocator : Type 0 where
  pub current : ℕ
  pub end : ℕ

-- (value + alignment - 1) & ~(alignment - 1)
unfoldable pub align_up : ℕ → ℕ → ℕ
align_up value alignment = bit_and (sub64 (add64 value alignment) 1) (not64 (sub64 alignment 1))

unfoldable pub max_u64 : ℕ → ℕ → ℕ
max_u64 a b = if ltb b a then a else b

abbrev pub page_size : ℕ
page_size = 4096

unfoldable pub physical_page_allocator_init :
    PhysicalPageAllocator → PlatformInfo → Bool × PhysicalPageAllocator
unfolding max_u64
physical_page_allocator_init allocator platform =
    let dtb_end = add64 platform.dtb_addr platform.dtb_size in
    let reserved_end = max_u64 platform.kernel_end dtb_end in
    let current = align_up reserved_end 4096 in
    let end = add64 platform.ram_base platform.ram_size in
    (if leb end current then false else true, record { current = current; end = end })

-- The address 0 stands for "no page left".
unfoldable pub physical_alloc_page : PhysicalPageAllocator → ℕ × PhysicalPageAllocator
physical_alloc_page allocator =
    let addr = align_up allocator.current page_size in
    if ltb allocator.end (add64 addr page_size)
    then (0, allocator)
    else (addr, record allocator { current = add64 addr page_size })

-- A client's `n` calls in a row, with what each returns.
unfoldable pub alloc_pages : ℕ → PhysicalPageAllocator → List ℕ × PhysicalPageAllocator
alloc_pages zero allocator = ([], allocator)
alloc_pages (suc n) allocator =
    let (page, allocator') = physical_alloc_page allocator in
    let (pages, last) = alloc_pages n allocator' in (page ∷ pages, last)
