-- ===== src/Allocator/Page.antt =====
-- One call of `physical_alloc_page`, and what `physical_page_allocator_init` sets aside.
use rv64i_operating_system.Base.{
  ℕ, ◌+◌, ◌-◌, ◌*◌, ◌/◌, ◌%◌, ◌^◌, ◌≤◌, ◌<◌, ◌≡◌, ◌↔◌, ◌⊎◌, true, arith, ltb, if◌then◌else◌,
}
use rv64i_operating_system.Platform.{PlatformInfo}
use rv64i_operating_system.Allocator.{
  PhysicalPageAllocator, physical_page_allocator_init, physical_alloc_page,
}
use rv64i_operating_system.Allocator.Align.{align_up-page}

-- The allocator stays within the 2^38 bytes that the direct map can reach. So no sum of a call of
-- `physical_alloc_page` wraps, and no page is the address 0.
pub record IsBounded (a : PhysicalPageAllocator) : Type 0 where
  pub current_pos : 0 < a.current
  pub current_max : a.current ≤ 2 ^ 38
  pub end_max : a.end ≤ 2 ^ 38

-- The first page boundary that is not below `current`.
abbrev pub first_page : PhysicalPageAllocator → ℕ
first_page a = (a.current + 4095) / 4096 * 4096

-- The number of whole pages that it has left.
abbrev pub pages_left : PhysicalPageAllocator → ℕ
pages_left a = (a.end - first_page a) / 4096

-- The page that a call returned, and the allocator that it left.
pub record IsFresh (a : PhysicalPageAllocator) (page : ℕ) (a' : PhysicalPageAllocator)
    : Type 0 where
  pub aligned : page % 4096 ≡ 0
  pub first : page ≡ first_page a
  pub from_current : a.current ≤ page
  pub inside : page + 4096 ≤ a.end
  pub advanced : a'.current ≡ page + 4096
  pub same_end : a'.end ≡ a.end

pub physical_alloc_page_lem :
    (a : PhysicalPageAllocator)
    → IsBounded a
    → physical_alloc_page a ≡ (
        if ltb a.end (first_page a + 4096)
        then (0, a)
        else (first_page a, record a { current = first_page a + 4096 }))
unfolding physical_alloc_page
physical_alloc_page_lem a b = ground (arith, align_up-page a.current)

pub physical_alloc_page-cases :
    (a : PhysicalPageAllocator)
    → IsBounded a
    → let (page, a') = physical_alloc_page a in
      ((page ≡ 0) × (a' ≡ a)) ⊎ (IsFresh a page a' × IsBounded a' × (0 < page))
physical_alloc_page-cases a b = rw (physical_alloc_page_lem a b) (ground arith)

-- On a bounded allocator a page is returned exactly when a whole aligned page lies between
-- `current` and `end`.
physical_alloc_page-pos_iff :
    (a : PhysicalPageAllocator)
    → IsBounded a
    → (0 < (physical_alloc_page a).0)
      ↔ ((m : ℕ) × (a.current ≤ m * 4096) × (m * 4096 + 4096 ≤ a.end))
physical_alloc_page-pos_iff a b =
    rw (physical_alloc_page_lem a b)
      (λ p. ((a.current + 4095) / 4096, omega arith, ground arith), λ (m, lo, hi). ground arith)

pub pages_left-IsFresh :
    {a : PhysicalPageAllocator} {page : ℕ} {a' : PhysicalPageAllocator}
    → IsFresh a page a'
    → pages_left a ≡ pages_left a' + 1
pages_left-IsFresh fresh = omega arith

pub physical_alloc_page-none_left :
    (a : PhysicalPageAllocator) → IsBounded a → (physical_alloc_page a).0 ≡ 0 → pages_left a ≡ 0
physical_alloc_page-none_left a b h = ground (arith, physical_alloc_page_lem a b)

-- On a platform whose addresses stay below 2^38, `physical_page_allocator_init` leaves a bounded
-- allocator that ends with the RAM and starts at a page boundary above the kernel image and the
-- device tree, and it returns true exactly if that is below the end.
pub physical_page_allocator_init-IsBounded :
    (old : PhysicalPageAllocator) (p : PlatformInfo)
    → p.kernel_end ≤ 2 ^ 38
    → p.dtb_addr + p.dtb_size ≤ 2 ^ 38
    → p.ram_base + p.ram_size ≤ 2 ^ 38
    → 0 < p.kernel_end
    → let (ok, a) = physical_page_allocator_init old p in
      IsBounded a
      × (a.end ≡ p.ram_base + p.ram_size)
      × (a.current % 4096 ≡ 0)
      × (p.kernel_end ≤ a.current)
      × (p.dtb_addr + p.dtb_size ≤ a.current)
      × ((ok ≡ true) ↔ (a.current < a.end))
unfolding physical_page_allocator_init
physical_page_allocator_init-IsBounded old p k d r pos =
    ground (arith, align_up-page p.kernel_end, align_up-page (p.dtb_addr + p.dtb_size))
