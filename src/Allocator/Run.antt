-- ===== src/Allocator/Run.antt =====
-- A sequence of calls of `physical_alloc_page`, in closed form.
use rv64i_operating_system.Base.{
  ℕ, zero, suc, ◌+◌, ◌-◌, ◌*◌, ◌/◌, ◌^◌, ◌≤◌, ◌<◌, ◌≡◌, arith, some, ltb, if◌then◌else◌, get_elem?,
  ap, ◌∙◌,
}
use rv64i_operating_system.Platform.{PlatformInfo}
use rv64i_operating_system.Allocator.{
  PhysicalPageAllocator, physical_page_allocator_init, physical_alloc_page, alloc_pages,
}
use rv64i_operating_system.Allocator.Page.{
  IsBounded, first_page, physical_alloc_page_lem, physical_page_allocator_init-IsBounded,
}

-- How many whole pages are left.
abbrev pub capacity : PhysicalPageAllocator → ℕ
capacity a = (a.end - first_page a) / 4096

-- The `i`-th answer: the `i`-th page while there is one, then 0.
abbrev pub nth_page : PhysicalPageAllocator → ℕ → ℕ
nth_page a i = if ltb i (capacity a) then first_page a + 4096 * i else 0

next-nth_page :
    (a : PhysicalPageAllocator) (i : ℕ)
    → IsBounded a
    → (IsBounded (physical_alloc_page a).1)
      × ((physical_alloc_page a).0 ≡ nth_page a 0)
      × (nth_page (physical_alloc_page a).1 i ≡ nth_page a (suc i))
next-nth_page a i b = rw (physical_alloc_page_lem a b) (ground arith, ground arith, ground arith)

-- The `i`-th of `n` calls on a bounded allocator returns `first_page + 4096 * i` while whole pages
-- are left, and 0 from then on: pages come in order, none twice, and none is lost.
pub alloc_pages_lem :
    (n i : ℕ) (a : PhysicalPageAllocator)
    → IsBounded a
    → i < n
    → get_elem? (alloc_pages n a).0 i ≡ some (nth_page a i)
unfolding alloc_pages
alloc_pages_lem zero i a b h = elim h [ ]
alloc_pages_lem (suc n) zero a b h = ap some (next-nth_page a 0 b).1
alloc_pages_lem (suc n) (suc i) a b h =
    alloc_pages_lem n i (physical_alloc_page a).1 (next-nth_page a 0 b).0 (omega arith)
    ∙ ap some (next-nth_page a i b).2

-- After a start on a platform whose addresses stay below 2^38, any two answers of a run of calls
-- that are pages do not overlap, and lie above the kernel image and the device tree and below the
-- end of the RAM.
pub alloc_pages_apart :
    (old : PhysicalPageAllocator) (p : PlatformInfo) (n i j : ℕ) {page page' : ℕ}
    → p.kernel_end ≤ 2 ^ 38
    → p.dtb_addr + p.dtb_size ≤ 2 ^ 38
    → p.ram_base + p.ram_size ≤ 2 ^ 38
    → 0 < p.kernel_end
    → i < j
    → j < n
    → let a = (physical_page_allocator_init old p).1 in
      get_elem? (alloc_pages n a).0 i ≡ some page
      → get_elem? (alloc_pages n a).0 j ≡ some page'
      → 0 < page
      → 0 < page'
      → (page + 4096 ≤ page')
        × (p.kernel_end ≤ page)
        × (p.dtb_addr + p.dtb_size ≤ page)
        × (page' + 4096 ≤ p.ram_base + p.ram_size)
alloc_pages_apart old p n i j k d r pos lt le e e' q q' =
    let a = (physical_page_allocator_init old p).1 in
    let start = physical_page_allocator_init-IsBounded old p k d (omega arith) pos in
    ground
      (arith, start, alloc_pages_lem n i a start.0 (omega arith), alloc_pages_lem n j a start.0 le)
