-- ===== src/Paging/Start.antt =====
-- `paging_create_root_table`: a new tree, with nothing mapped.
use rv64i_operating_system.Base.{
  ℕ, ◌+◌, ◌≤◌, ◌<◌, ◌≡◌, inl, inr, false, Option, none, some, arith, refl, ◌==◌, ◌∙◌,
}
use rv64i_operating_system.AddressMapping.{Stage, early, to_ptr}
use rv64i_operating_system.Allocator.{physical_alloc_page}
use rv64i_operating_system.Allocator.Page.{
  IsBounded, pages_left, pages_left-IsFresh, physical_alloc_page-none_left,
  physical_alloc_page-cases,
}
use rv64i_operating_system.Pte.{sv39_vpn2, pte_is_valid}
use rv64i_operating_system.Pte.Fields.{zero_not_valid}
use rv64i_operating_system.Paging.State.{PagingState, alloc}
use rv64i_operating_system.Paging.{paging_create_root_table, paging_zero_table, query, not_found}
use rv64i_operating_system.Paging.Entry.{entry, entry-paging_zero_table, IsPage}
use rv64i_operating_system.Paging.Tree.{root_table, Owner, IsTree, slot}
use rv64i_operating_system.Paging.Map.Slots.{slot_at, vpn-lt}
use rv64i_operating_system.Paging.Map.Query.{query-decode, decode-unused}

-- The ghost map of a tree that has only its root.
abbrev pub only_root : Owner
only_root page = root_table

pub data Started (s : PagingState) : Option ℕ × PagingState → Type 0 where
  no_page : (physical_alloc_page s.allocator).0 ≡ 0 → Started s (none, s)
  started :
      (root : ℕ) (s' : PagingState)
      → IsTree root only_root s'
      → s.allocator.current ≤ root
      → s'.allocator.end ≡ s.allocator.end
      → ((stage : Stage) (va : ℕ) → query stage s'.ram (to_ptr stage root) va ≡ not_found)
      → Started s (some (to_ptr early root), s')

module _ (root : ℕ) (s : PagingState) (bounded : IsBounded s.allocator) (pos : 0 < root)
    (page : IsPage root) (old : root < s.allocator.current)
    (cleared : (i : ℕ) → i < 512 → entry s.ram root i ≡ 0) where
  cleared-IsTree : IsTree root only_root s
  cleared-IsTree = record {
    bounded = bounded;
    root_pos = pos;
    root_is = record { page = page; old = old; role_is = refl };
    level1 = λ i h here. absurd (ground (arith, cleared i h, zero_not_valid));
    level0 = λ i j h h' here here'. absurd (ground (arith, cleared i h, zero_not_valid));
  }

  cleared-slot : (va : ℕ) → pte_is_valid (slot_at s.ram root va) ≡ false
  unfolding slot
  cleared-slot va = ground (arith, cleared (sv39_vpn2 va) (vpn-lt va).0, zero_not_valid)

  cleared-query : (stage : Stage) (va : ℕ) → query stage s.ram (to_ptr stage root) va ≡ not_found
  unfolding slot
  cleared-query stage va =
      query-decode stage root va only_root s cleared-IsTree
      ∙ decode-unused (slot_at s.ram root va) va
          (ground (arith, cleared (sv39_vpn2 va) (vpn-lt va).0, zero_not_valid))

-- From a bounded allocator, `paging_create_root_table` either finds no page and changes nothing, or
-- returns the root of a new tree, in which every query finds nothing, in either stage.
pub paging_create_root_table-Started :
    (s : PagingState) → IsBounded s.allocator → Started s (paging_create_root_table s)
unfolding paging_create_root_table alloc
paging_create_root_table-Started s b = elim (physical_alloc_page-cases s.allocator b) [
  | inl (none_left, same) ↦ rw (none_left, same) (no_page none_left)
  | inr (fresh, bounded, pos) ↦
      let root = (physical_alloc_page s.allocator).0 in
      let real : (root == 0) ≡ false = ground arith in
      let page : IsPage root = omega arith in
      let s' : PagingState = record {
        ram = paging_zero_table early s.ram (to_ptr early root);
        allocator = (physical_alloc_page s.allocator).1;
      } in
      let cleared = entry-paging_zero_table early root page s.ram in
      rw real (
        started root s' (cleared-IsTree root s' bounded pos page (omega arith) cleared)
          fresh.from_current fresh.same_end
          (cleared-query root s' bounded pos page (omega arith) cleared))
]

-- While a page is left, `paging_create_root_table` takes one, and every slot of the new tree is
-- free.
pub paging_create_root_table-Succeeds :
    (s : PagingState)
    → IsBounded s.allocator
    → 1 ≤ pages_left s.allocator
    → (root : ℕ) × (s' : PagingState) × (paging_create_root_table s
        ≡ (some (to_ptr early root), s'))
      × IsTree root only_root s'
      × (pages_left s.allocator ≡ pages_left s'.allocator + 1)
      × ((va : ℕ) → pte_is_valid (slot_at s'.ram root va) ≡ false)
unfolding paging_create_root_table alloc
paging_create_root_table-Succeeds s b enough = elim (physical_alloc_page-cases s.allocator b) [
  | inl (none_left, same) ↦
      absurd (omega (arith, physical_alloc_page-none_left s.allocator b none_left))
  | inr (fresh, bounded, pos) ↦
      let root = (physical_alloc_page s.allocator).0 in
      let real : (root == 0) ≡ false = ground arith in
      let page : IsPage root = omega arith in
      let s' : PagingState = record {
        ram = paging_zero_table early s.ram (to_ptr early root);
        allocator = (physical_alloc_page s.allocator).1;
      } in
      let cleared = entry-paging_zero_table early root page s.ram in
      (
        root,
        s',
        rw real refl,
        cleared-IsTree root s' bounded pos page (omega arith) cleared,
        pages_left-IsFresh fresh,
        cleared-slot root s' bounded pos page (omega arith) cleared,
      )
]
