-- ===== src/Paging/Tests.antt =====
-- Runs of the paging code, and the theorems at inputs that meet their hypotheses.
use rv64i_operating_system.Base.{
  ℕ, ◌+◌, ◌%◌, ◌≡◌, ◌↔◌, refl, subst, true, false, ap, ◌≤◌, ◌&&◌, Option, some, none, arith,
  is_some, if◌then◌else◌,
}
use rv64i_operating_system.Ram.{load64, store64}
use rv64i_operating_system.AddressMapping.{early, late, to_ptr, deref, phys_to_virt}
use rv64i_operating_system.Allocator.{align_up, physical_alloc_page}
use rv64i_operating_system.Allocator.Page.{pages_left}
use rv64i_operating_system.Pte.{
  sv39_vpn2, sv39_vpn1, sv39_vpn0, pte_from_phys_addr, phys_addr_from_pte, pte_is_valid,
  pte_is_leaf,
}
use rv64i_operating_system.Pte.Fields.{leaf_flags}
use rv64i_operating_system.Paging.State.{PagingState, alloc}
use rv64i_operating_system.Paging.{
  read_entry, write_entry, zero_entries, paging_zero_table, paging_create_root_table, next_table,
  write_leaf, map_page, query, not_found, map_range, paging_map, paging_query,
}
use rv64i_operating_system.Paging.Tree.{Owner, IsTree}
use rv64i_operating_system.Paging.Map.Slots.{Mapped, slot_at, map_page-Mapped}
use rv64i_operating_system.Paging.Map.Query.{same_page, query-map_page, map_page-keeps}
use rv64i_operating_system.Paging.Range.Supply.{Succeeds, range_cost, map_range-Succeeds}
use rv64i_operating_system.Paging.Map.Supply.{missing_at, map_page-some_iff}
use rv64i_operating_system.Paging.Range.{Ranged, pages_of, map_range-Ranged}
use rv64i_operating_system.Paging.Start.{
  only_root, Started, started, paging_create_root_table-Started, paging_create_root_table-Succeeds,
}

-- Memory that holds garbage before it is zeroed.
abbrev boot : PagingState
boot = record { ram = λ _. 0xff; allocator = record { current = 0x8020_0000; end = 0x8021_0000 } }

abbrev pub root : ℕ
root = 0x8020_0000

unfoldable pub fresh_tree : PagingState
fresh_tree = (paging_create_root_table boot).1

mapped_boot : PagingState
unfolding fresh_tree
mapped_boot = (paging_map (phys_to_virt root) 0x40_0000 0x8030_0000 0x16 fresh_tree).1

-- All the code that a run of the paging goes through.
unfoldable pub paging_code : Unit {0}
unfolding mapped_boot paging_query paging_map paging_create_root_table map_page query next_table
    write_leaf read_entry write_entry zero_entries paging_zero_table load64 store64 to_ptr deref
    phys_to_virt align_up physical_alloc_page alloc sv39_vpn2 sv39_vpn1 sv39_vpn0 pte_from_phys_addr
    phys_addr_from_pte pte_is_valid pte_is_leaf
paging_code = tt

query_mapped :
    paging_query mapped_boot.ram (phys_to_virt root) 0x40_0123 ≡ (true, 0x8030_0123, 0xd7)
unfolding paging_code
query_mapped = refl

query_unmapped : paging_query mapped_boot.ram (phys_to_virt root) 0x40_1123 ≡ not_found
unfolding paging_code
query_unmapped = refl

create_root : paging_create_root_table boot ≡ (some root, fresh_tree)
unfolding paging_code
create_root = refl

Started-IsTree :
    {s : PagingState} {root : ℕ} (r : (Option ℕ) × PagingState)
    → Started s r
    → r.0 ≡ some (to_ptr early root)
    → IsTree root only_root r.1
unfolding to_ptr
Started-IsTree {root} r (started root' s' tree from same nothing) e =
    let e' : root' ≡ root = ground arith in subst (λ x. IsTree x only_root s') e' tree
Started-IsTree r _ e = cc

pub fresh_tree-IsTree : IsTree root only_root fresh_tree
unfolding paging_code
fresh_tree-IsTree =
    Started-IsTree (paging_create_root_table boot)
      (paging_create_root_table-Started boot (omega arith)) refl

abbrev address : Option ℕ → ℕ
address none = 0
address (some a) = a

-- The pages that the new tree leaves.
fresh_tree-room : pages_left fresh_tree.allocator ≡ 15
unfolding paging_code
fresh_tree-room = refl

free_at :
    {s s' : PagingState} {here there : ℕ}
    → here ≡ there
    → s ≡ s'
    → ((va : ℕ) → pte_is_valid (slot_at s'.ram there va) ≡ false)
    → (va : ℕ) → pte_is_valid (slot_at s.ram here va) ≡ false
free_at e e' free va = rw (e, e') (free va)

-- Every slot of the new tree is free.
pub fresh_tree-free : (va : ℕ) → pte_is_valid (slot_at fresh_tree.ram root va) ≡ false
unfolding paging_code
fresh_tree-free =
    let (root', s', made, _, _, free) =
      paging_create_root_table-Succeeds boot (omega arith) (omega arith) in
    let same_root : root ≡ root' = omega (arith, ap (λ r. address r.0) made) in
    free_at same_root (ap (λ r. r.1) made) free

map_page-Mapped_example :
    Mapped root only_root 0x40_0000 0x8030_0000 0x16 fresh_tree
      (map_page late (to_ptr late root) 0x40_0000 0x8030_0000 0x16 fresh_tree)
map_page-Mapped_example =
    map_page-Mapped late root 0x40_0000 0x8030_0000 0x16 only_root fresh_tree (omega arith)
      fresh_tree-IsTree

map_page-some_iff_example :
    (is_some (map_page late (to_ptr late root) 0x40_0000 0x8030_0000 0x16 fresh_tree).0 ≡ true) ↔ (
      (0x40_0000 % 4096 ≡ 0)
      × (0x8030_0000 % 4096 ≡ 0)
      × (pte_is_valid (slot_at fresh_tree.ram root 0x40_0000) ≡ false)
      × (missing_at fresh_tree.ram root 0x40_0000 ≤ pages_left fresh_tree.allocator))
map_page-some_iff_example =
    map_page-some_iff late root 0x40_0000 0x8030_0000 0x16 only_root fresh_tree (omega arith)
      fresh_tree-IsTree

query-map_page_example :
    let (result, s') = map_page late (to_ptr late root) 0x40_0000 0x8030_0000 0x16 fresh_tree in
    query late s'.ram (to_ptr late root) 0x40_0123 ≡ (
      if is_some result && (same_page 0x40_0000 0x40_0123 && pte_is_leaf 0x16)
      then (true, 0x8030_0000 + 0x40_0123 % 4096, leaf_flags 0x16)
      else query late fresh_tree.ram (to_ptr late root) 0x40_0123)
query-map_page_example =
    query-map_page late root 0x40_0000 0x8030_0000 0x16 0x40_0123 only_root fresh_tree (omega arith)
      fresh_tree-IsTree

mapped_boot-IsTree : (o : Owner) × IsTree root o mapped_boot
unfolding mapped_boot paging_map phys_to_virt to_ptr
mapped_boot-IsTree =
    let m =
      map_page-Mapped late root 0x40_0000 0x8030_0000 0x16 only_root fresh_tree (omega arith)
        fresh_tree-IsTree in
    (m.grown.owner', m.grown.tree)

map_page-keeps_example :
    query late
      (map_page late (to_ptr late root) 0x40_0000 0x8040_0000 0x1e mapped_boot).1.ram
      (to_ptr late root)
      0x40_0123
    ≡ (true, 0x8030_0123, 0xd7)
unfolding paging_code
map_page-keeps_example =
    map_page-keeps late root 0x40_0000 0x8040_0000 0x1e 0x40_0123 0x8030_0123 0xd7
      mapped_boot-IsTree.0 mapped_boot (omega arith) mapped_boot-IsTree.1 refl

map_range-Ranged_example :
    Ranged early root only_root 0x1000_0000 0x1000_0000 6 0
      (pages_of 4097)
      fresh_tree
      (map_range early (to_ptr early root) 0x1000_0000 0x1000_0000 4097 6 fresh_tree)
unfolding pte_is_leaf
map_range-Ranged_example =
    map_range-Ranged early root 0x1000_0000 0x1000_0000 4097 6 only_root fresh_tree refl
      (omega arith) (omega arith) (omega arith) fresh_tree-IsTree

map_range-Succeeds_example :
    Succeeds root 0x1000_0000 0
      (pages_of 4097)
      (range_cost 0x1000_0000 4097)
      fresh_tree
      (map_range early (to_ptr early root) 0x1000_0000 0x1000_0000 4097 6 fresh_tree)
unfolding pte_is_leaf
map_range-Succeeds_example =
    map_range-Succeeds early root 0x1000_0000 0x1000_0000 4097 6 only_root fresh_tree (omega arith)
      (omega arith) (omega arith) (omega arith) (omega arith) fresh_tree-IsTree
      (λ n lo up. fresh_tree-free _) (omega (arith, fresh_tree-room))

paging_create_root_table-Started_example : Started boot (paging_create_root_table boot)
paging_create_root_table-Started_example = paging_create_root_table-Started boot (omega arith)
