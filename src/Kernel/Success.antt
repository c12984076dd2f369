-- ===== src/Kernel/Success.antt =====
-- `paging_init` succeeds while there are pages for its tables.
use rv64i_operating_system.Base.{ℕ, ◌+◌, ◌≤◌, ◌≡◌, false, Option, some, List, [], ◌∷◌, arith, refl}
use rv64i_operating_system.AddressMapping.{early, late, to_ptr}
use rv64i_operating_system.Platform.{PlatformInfo}
use rv64i_operating_system.Csr.{csr_write_satp}
use rv64i_operating_system.Allocator.Page.{IsBounded, pages_left}
use rv64i_operating_system.Pte.{pte_is_valid}
use rv64i_operating_system.Paging.State.{PagingState}
use rv64i_operating_system.Paging.Tree.{Owner, IsTree}
use rv64i_operating_system.Paging.Start.{only_root, paging_create_root_table-Succeeds}
use rv64i_operating_system.Paging.Map.Slots.{slot_at}
use rv64i_operating_system.Kernel.{
  KernelSymbols, KernelState, kernel_tables, switch_tables, after_tables, paging_init,
}
use rv64i_operating_system.Kernel.Ranges.{
  AddressRange, map_all, Covers, short, covered, map_all-Covers,
}
use rv64i_operating_system.Kernel.Space.{IsPlaced, kernel_ranges, kernel_ranges-Fit}
use rv64i_operating_system.Kernel.Supply.{
  AllSit, AllFree, total_cost, OutsideAll, AllMade, map_all-AllMade,
}

-- The tables are switched to, the tree is left with these pages, and an address outside the ranges
-- is not mapped.
pub record Switched (symbols : KernelSymbols) (platform : PlatformInfo) (s : KernelState)
    (r : Option ℕ × KernelState) : Type 0 where
  pub root : ℕ
  pub owner : Owner
  pub result : r.0 ≡ some (to_ptr late root)
  pub tree : IsTree root owner r.1.paging
  pub spent :
      pages_left s.paging.allocator
      ≤ pages_left r.1.paging.allocator + (1 + total_cost (kernel_ranges symbols platform))
  pub outside :
      (va : ℕ)
      → OutsideAll (kernel_ranges symbols platform) va
      → pte_is_valid (slot_at r.1.paging.ram root va) ≡ false

all_free :
    (root : ℕ) (s : PagingState) (ranges : List AddressRange)
    → ((va : ℕ) → pte_is_valid (slot_at s.ram root va) ≡ false)
    → AllFree root s ranges
all_free root s [] free = tt
all_free root s (r ∷ ranges) free = (λ n lo up. free _, all_free root s ranges free)

module _ (symbols : KernelSymbols) (platform : PlatformInfo) (s : KernelState) where
  switch :
      (root : ℕ) (s0 : PagingState) (r : Option ℕ × PagingState)
      → pages_left s.paging.allocator ≡ pages_left s0.allocator + 1
      → ((va : ℕ) → pte_is_valid (slot_at s0.ram root va) ≡ false)
      → Covers root (kernel_ranges symbols platform) s0 r
      → AllMade root (kernel_ranges symbols platform) s0 r
      → Switched symbols platform s (after_tables r.0 (record s { paging = r.1 }))
  unfolding switch_tables csr_write_satp to_ptr
  switch root s0 _ count free (short s') made = absurd (ground (arith, made.ok))
  switch root s0 _ count free (covered s' owner tree all keeps only) made = record {
    root = root;
    owner = owner;
    result = refl;
    tree = tree;
    spent = omega (arith, made.spent);
    outside = λ va out. rw (made.others va out) (free va);
  }

  -- From a bounded allocator, for a kernel, devices and memory below 2^38, in ranges of whole pages
  -- that share no page: `paging_init` succeeds if the allocator has a page for the root, two for
  -- each range, and one for each 2 MiB and each 1 GiB that a range begins later. It takes no more,
  -- and slots outside the ranges are free.
  pub paging_init-Switched :
      IsBounded s.paging.allocator
      → IsPlaced symbols platform
      → AllSit (kernel_ranges symbols platform)
      → 1 + total_cost (kernel_ranges symbols platform) ≤ pages_left s.paging.allocator
      → Switched symbols platform s (paging_init symbols platform s)
  unfolding paging_init kernel_tables map_all
  paging_init-Switched bounded placed sits enough =
      let (root, s0, started, tree, count, free) =
        paging_create_root_table-Succeeds s.paging bounded (omega arith) in
      let ranges = kernel_ranges symbols platform in
      let fits = kernel_ranges-Fit symbols platform placed in
      rw started (
        switch root s0 (map_all (to_ptr early root) ranges s0) count free
          (map_all-Covers root ranges only_root s0 fits tree)
          (map_all-AllMade root ranges only_root s0 fits sits tree (all_free root s0 ranges free)
            (omega arith)))
