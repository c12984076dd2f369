-- ===== src/Process/Region/Supply.antt =====
-- When `map_region` succeeds, and how many pages it takes.
use rv64i_operating_system.Base.{
  ℕ, zero, suc, ◌+◌, ◌-◌, ◌*◌, ◌/◌, ◌%◌, ◌^◌, ◌≤◌, ◌<◌, ◌≡◌, inl, inr, true, false, Option, arith,
  refl, ◌∙◌, ◌==◌, ltb, Bool-cases, is_some, add64,
}
use rv64i_operating_system.Base.Bits.{bit_and-low}
use rv64i_operating_system.AddressMapping.{late, to_ptr, phys_to_virt_ptr}
use rv64i_operating_system.Allocator.{physical_alloc_page}
use rv64i_operating_system.Allocator.Page.{
  IsBounded, IsFresh, pages_left, pages_left-IsFresh, physical_alloc_page-none_left,
  physical_alloc_page-cases,
}
use rv64i_operating_system.Pte.{
  page_size, pte_is_valid, pte_is_leaf, sv39_vpn2, sv39_vpn1, sv39_vpn0,
}
use rv64i_operating_system.Paging.State.{PagingState, alloc}
use rv64i_operating_system.Paging.{map_page, paging_map}
use rv64i_operating_system.Paging.Tree.{contents, Owner, assign, IsTree, missing}
use rv64i_operating_system.Paging.Contents.{
  KeepsTables, KeepsTables-fresh, KeepsTables-IsTree, KeepsTables-slot, KeepsTables-missing,
}
use rv64i_operating_system.Paging.Map.Slots.{IsMapping, slot_at, vpn-lt, to_ptr-ne_zero}
use rv64i_operating_system.Paging.Map.Query.{same_page}
use rv64i_operating_system.Paging.Map.Supply.{missing_at, map_page-Filled}
use rv64i_operating_system.Paging.Range.{nth_va}
use rv64i_operating_system.Paging.Range.Supply.{
  Succeeds, RangeFree, range_need, combine, missing_next, pages_apart, slot-map_page, tables_after,
  missing_bounds,
}
use rv64i_operating_system.Process.{
  MemoryRegion, zero_bytes, map_fresh, map_region_loop, map_region,
}
use rv64i_operating_system.Process.Region.Fresh.{Round, unmapped, placed, outside, map_fresh-Round}

-- A round that has given a new page to the address, from these pages of the allocator.
pub record Given (root va : ℕ) (s : PagingState) (r : Option (Unit {0}) × PagingState)
    : Type 0 where
  pub ok : is_some r.0 ≡ true
  pub count : pages_left r.1.allocator + (1 + missing_at s.ram root va) ≡ pages_left s.allocator
  pub complete : missing_at r.1.ram root va ≡ 0
  pub fewer : (i j : ℕ) → i < 512 → j < 512 → missing r.1.ram root i j ≤ missing s.ram root i j
  pub others :
      (va' : ℕ) → same_page va va' ≡ false → slot_at r.1.ram root va' ≡ slot_at s.ram root va'

module _ (root : ℕ) (owner : Owner) (va flags : ℕ) (s s1 : PagingState) (page : ℕ)
    (tree : IsTree root owner s) (small : flags < 1024) (leaf : pte_is_leaf flags ≡ true)
    (fresh : IsFresh s.allocator page s1.allocator) (bounded : IsBounded s1.allocator)
    (ram_is : s1.ram ≡ zero_bytes (phys_to_virt_ptr page) 4096 0 s.ram) where
  kept : KeepsTables owner (assign owner page contents) s s1
  kept =
      KeepsTables-fresh tree page fresh bounded
        (outside root owner va flags s s1 page tree small leaf fresh bounded ram_is)

  same_slot : (va' : ℕ) → slot_at s1.ram root va' ≡ slot_at s.ram root va'
  same_slot va' =
      let (lt2, lt1, lt0) = vpn-lt va' in
      KeepsTables-slot tree kept (sv39_vpn2 va') (sv39_vpn1 va') (sv39_vpn0 va') lt2 lt1 lt0

  map_new_page-Given :
      va % 4096 ≡ 0
      → pte_is_valid (slot_at s.ram root va) ≡ false
      → 1 + missing_at s.ram root va ≤ pages_left s.allocator
      → Given root va s (map_page late (to_ptr late root) va page flags s1)
  map_new_page-Given aligned free enough =
      let (lt2, lt1, _) = vpn-lt va in
      let tree1 = KeepsTables-IsTree tree kept in
      let owner1 = assign owner page contents in
      let m : IsMapping page flags = (omega arith, small) in
      let free1 : pte_is_valid (slot_at s1.ram root va) ≡ false = rw (same_slot va) free in
      let filled =
        map_page-Filled late root va page flags owner1 s1 m tree1 aligned fresh.aligned free1 in
      let same = KeepsTables-missing tree kept in
      let here = same (sv39_vpn2 va) (sv39_vpn1 va) lt2 lt1 in
      let one = pages_left-IsFresh fresh in
      let ok = filled.supplied.given (omega arith) in
      record {
        ok = ok;
        count = omega (arith, filled.supplied.taken ok, filled.complete ok);
        complete = filled.complete ok;
        fewer = λ i j h h'. omega (arith, filled.supplied.fewer i j h h', same i j h h');
        others = λ va' other.
            slot-map_page late root va page flags va' owner1 s1 m tree1 other ∙ same_slot va';
      }

map_fresh-Given :
    (root : ℕ) (owner : Owner) (region : MemoryRegion) (offset : ℕ) (s : PagingState)
    → IsTree root owner s
    → region.flags < 1024
    → pte_is_leaf region.flags ≡ true
    → add64 region.start offset % 4096 ≡ 0
    → pte_is_valid (slot_at s.ram root (add64 region.start offset)) ≡ false
    → 1 + missing_at s.ram root (add64 region.start offset) ≤ pages_left s.allocator
    → Given root (add64 region.start offset) s (map_fresh (to_ptr late root) region offset s)
unfolding map_fresh paging_map alloc
map_fresh-Given root owner region offset s tree small leaf aligned free enough =
    elim (physical_alloc_page-cases s.allocator tree.bounded) [
      | inl (none_left, same) ↦
          absurd (omega (arith, physical_alloc_page-none_left s.allocator tree.bounded none_left))
      | inr (fresh, bounded, pos) ↦
          let page = (physical_alloc_page s.allocator).0 in
          let real : (page == 0) ≡ false = ground arith in
          let s1 : PagingState = record {
            ram = zero_bytes (phys_to_virt_ptr page) page_size 0 s.ram;
            allocator = (physical_alloc_page s.allocator).1;
          } in
          rw real (
            map_new_page-Given root owner (add64 region.start offset) region.flags s s1 page tree
              small leaf fresh bounded refl aligned free enough)
    ]

Round-tree :
    {root : ℕ} {owner : Owner} {va flags : ℕ} {s : PagingState}
    {r : Option (Unit {0}) × PagingState}
    → Round root owner va flags s r
    → (owner' : Owner) × IsTree root owner' r.1
Round-tree (unmapped s' grown same) = (grown.owner', grown.tree)
Round-tree (placed page s' grown new table zeros step stays) = (grown.owner', grown.tree)

-- The pages that a region takes for itself and for its tables.
abbrev pub region_cost : ℕ → ℕ → ℕ
region_cost start pages = pages + (2 + tables_after start (pages - 1))

module _ (root hi : ℕ) (region : MemoryRegion) (leaf : pte_is_leaf region.flags ≡ true)
    (small : region.flags < 1024) (aligned : region.start % 4096 ≡ 0) (range : hi < 2 ^ 27)
    (top : region.start + 4096 * hi ≤ 2 ^ 64) (size : region.size ≡ 4096 * hi) where
  map_region_loop-Succeeds :
      (f n budget : ℕ) (owner : Owner) (s : PagingState)
      → IsTree root owner s
      → n ≤ hi
      → hi < n + f
      → RangeFree s.ram root region.start n hi
      → (n < hi → hi - n + range_need s.ram root region.start n hi ≤ budget)
      → budget ≤ pages_left s.allocator
      → Succeeds root region.start n hi budget s
          (map_region_loop (to_ptr late root) region f (4096 * n) s)
  unfolding map_region_loop
  map_region_loop-Succeeds zero n budget owner s tree le fuel free need enough =
      absurd (omega arith)
  map_region_loop-Succeeds (suc f) n budget owner s tree le fuel free need enough =
      elim (Bool-cases (ltb (4096 * n) region.size)) [
        | inr done ↦ rw done (record {
          ok = refl;
          spent = omega arith;
          fewer = λ i j h h'. omega arith;
          others = λ va out. refl;
        })
        | inl more ↦
            let lt : n < hi = ground arith in
            let next : add64 (4096 * n) page_size ≡ 4096 * (n + 1) = omega arith in
            let va = nth_va region.start n in
            let r = map_fresh (to_ptr late root) region (4096 * n) s in
            let (owner', tree') =
              Round-tree (map_fresh-Round root owner region (4096 * n) s tree small leaf) in
            let cost = 1 + missing_at s.ram root va in
            let here : cost ≤ budget = omega (arith, need lt) in
            let given =
              map_fresh-Given root owner region (4096 * n) s tree small leaf (omega arith)
                (free n (omega arith) lt) (omega arith) in
            let free' : RangeFree r.1.ram root region.start (n + 1) hi = λ k lo up.
              rw
                (given.others (nth_va region.start k)
                  (pages_apart region.start n k (omega arith) (omega arith)))
                (free k (omega arith) up) in
            let need' : n + 1 < hi
                → hi - (n + 1) + range_need r.1.ram root region.start (n + 1) hi ≤ budget - cost =
              λ inside.
                (let after : nth_va region.start (n + 1) ≡ va + 4096 = omega arith in
                  let bound = missing_next r.1.ram root va given.complete in
                  rw after (omega (arith, need lt, bound))) in
            rw (more, next)
              (combine root region.start hi n budget cost s r.1 r.0 _ lt given.ok given.count here
                given.fewer given.others
                (map_region_loop-Succeeds f (n + 1) (budget - cost) owner' r.1 tree' (omega arith)
                  (omega arith) free' need' (omega (arith, given.count))))
      ]

  -- `map_region` on a tree succeeds for a region of whole pages, fewer than 2^27, below 2^64 and
  -- with a permission, whose slots are free, while the allocator has its pages, two more, and one
  -- for each 2 MiB and each 1 GiB that it begins later. It takes no more than these, and slots
  -- outside the region are as before.
  pub map_region-Succeeds :
      (owner : Owner) (s : PagingState)
      → IsTree root owner s
      → RangeFree s.ram root region.start 0 hi
      → region_cost region.start hi ≤ pages_left s.allocator
      → Succeeds root region.start 0 hi
          (region_cost region.start hi)
          s
          (map_region (to_ptr late root) region s)
  unfolding map_region
  map_region-Succeeds owner s tree free enough =
      let rounds : region.size / 4096 ≡ hi = omega arith in
      let start : (region.start % 4096 == 0) ≡ true = ground arith in
      let whole : (region.size % 4096 == 0) ≡ true = ground arith in
      let bound =
        (missing_bounds s.ram root (sv39_vpn2 region.start) (sv39_vpn1 region.start) 0).0 in
      rw
        (
          to_ptr-ne_zero late root tree.root_pos tree.root_is.page.1,
          bit_and-low 12 region.start,
          bit_and-low 12 region.size,
          start,
          whole,
          rounds,
        )
        (map_region_loop-Succeeds (hi + 1) 0 (region_cost region.start hi) owner s tree
          (omega arith) (omega arith) free
          (λ lt.
            (let first : nth_va region.start 0 ≡ region.start = omega arith in
              rw first (omega (arith, bound))))
          enough)
