-- ===== src/Paging.antt =====
-- src/kernel/Paging.cpp: Sv39 page tables in the physical memory. The source writes `paging_map`,
-- `paging_map_range` and `paging_query` twice, before and after the switch to the direct map, with
-- `phys_to_ptr_early` and `phys_to_virt_ptr` as the only difference; here the stage is an argument.
pub mod State
pub mod Entry
pub mod Tree
pub mod Next
pub mod Grow
pub mod Leaf
pub mod Map
pub mod Range
pub mod Start
pub mod Contents
pub mod View
pub mod Tests
use State.{PagingState, Step, fail, pure, ◌>>=◌, ◌>>◌, guard, get_ram, put_ram, alloc}
use rv64i_operating_system.Base.{
  ℕ, zero, suc, ◌+◌, ◌-◌, ◌*◌, ◌/◌, Bool, true, false, not, ◌||◌, ◌==◌, ltb, if◌then◌else◌, bit_and,
  bit_or, add64,
}
use rv64i_operating_system.Ram.{Ram, load64, store64}
use rv64i_operating_system.AddressMapping.{Stage, early, late, to_ptr, deref}
use rv64i_operating_system.Allocator.{align_up}
use rv64i_operating_system.Pte.{
  page_size, page_table_entries, pte_v, pte_a, pte_d, sv39_vpn2, sv39_vpn1, sv39_vpn0,
  pte_from_phys_addr, phys_addr_from_pte, pte_is_valid, pte_is_leaf,
}

-- `table->entries[i]`, read and written through a pointer.
unfoldable pub read_entry : Stage → Ram → ℕ → ℕ → ℕ
read_entry stage ram table i = load64 ram (deref stage (add64 table (8 * i)))

unfoldable pub write_entry : Stage → Ram → ℕ → ℕ → ℕ → Ram
write_entry stage ram table i value = store64 ram (deref stage (add64 table (8 * i))) value

-- The loop of `paging_zero_table` at index `i`, with `left` rounds to go.
unfoldable pub zero_entries : Stage → ℕ → ℕ → ℕ → Ram → Ram
zero_entries stage table zero i ram = ram
zero_entries stage table (suc left) i ram =
    zero_entries stage table left (i + 1) (write_entry stage ram table i 0)

unfoldable pub paging_zero_table : Stage → Ram → ℕ → Ram
paging_zero_table stage ram table = zero_entries stage table page_table_entries 0 ram

-- The null pointer is 0, and `none` is a function's `return false` or `return nullptr`.
unfoldable pub paging_create_root_table : Step ℕ
paging_create_root_table = do
  root_phys ← alloc
  guard (not (root_phys == 0))
  ram ← get_ram
  put_ram (paging_zero_table early ram (to_ptr early root_phys))
  pure (to_ptr early root_phys)

-- One level of the descent of `paging_map`: the table that entry `i` points to, made if there is
-- none. The source has this block once for each of the two upper levels.
new_table : Stage → ℕ → ℕ → Step ℕ
new_table stage table i = do
  new_page_phys ← alloc
  guard (not (new_page_phys == 0))
  ram ← get_ram
  let level = to_ptr stage new_page_phys
  let zeroed = paging_zero_table stage ram level
  put_ram (write_entry stage zeroed table i (pte_from_phys_addr new_page_phys pte_v))
  pure level

unfoldable pub next_table : Stage → ℕ → ℕ → Step ℕ
unfolding new_table
next_table stage table i = do
  ram ← get_ram
  let entry = read_entry stage ram table i
  if not (pte_is_valid entry)
      then new_table stage table i
      else (do guard (not (pte_is_leaf entry)); pure (to_ptr stage (phys_addr_from_pte entry)))

-- The last level: a valid entry is not overwritten.
unfoldable pub write_leaf : Stage → ℕ → ℕ → ℕ → ℕ → Step (Unit {0})
write_leaf stage table i physical_address flags = do
  ram ← get_ram
  guard (not (pte_is_valid (read_entry stage ram table i)))
  put_ram (
      write_entry stage ram table i
        (pte_from_phys_addr physical_address (bit_or (bit_or (bit_or flags pte_v) pte_a) pte_d)))

unfoldable pub map_page : Stage → ℕ → ℕ → ℕ → ℕ → Step (Unit {0})
map_page stage root virtual_address physical_address flags = do
  guard (not (root == 0))
  guard (bit_and virtual_address (page_size - 1) == 0)
  guard (bit_and physical_address (page_size - 1) == 0)
  level1 ← next_table stage root (sv39_vpn2 virtual_address)
  level0 ← next_table stage level1 (sv39_vpn1 virtual_address)
  write_leaf stage level0 (sv39_vpn0 virtual_address) physical_address flags

unfoldable pub paging_map_early : ℕ → ℕ → ℕ → ℕ → Step (Unit {0})
paging_map_early = map_page early

unfoldable pub paging_map : ℕ → ℕ → ℕ → ℕ → Step (Unit {0})
paging_map = map_page late

-- The loop of `paging_map_range` at offset `mapped`. The result does not depend on the fuel once
-- it covers the pages that are left.
unfoldable pub map_pages : Stage → ℕ → ℕ → ℕ → ℕ → ℕ → ℕ → ℕ → Step (Unit {0})
map_pages stage root virtual_start physical_start size flags zero mapped = fail
map_pages stage root virtual_start physical_start size flags (suc fuel) mapped =
    let rest =
      map_pages stage root virtual_start physical_start size flags fuel (add64 mapped page_size) in
    if ltb mapped size
    then (do
      map_page stage root (add64 virtual_start mapped) (add64 physical_start mapped) flags
      rest)
    else pure tt

unfoldable pub map_range : Stage → ℕ → ℕ → ℕ → ℕ → ℕ → Step (Unit {0})
map_range stage root virtual_start physical_start size flags =
    if size == 0
    then pure tt
    else let page_aligned_size = align_up size page_size in
      map_pages stage root virtual_start physical_start page_aligned_size flags
        (page_aligned_size / page_size + 1) 0

unfoldable pub paging_map_range_early : ℕ → ℕ → ℕ → ℕ → ℕ → Step (Unit {0})
paging_map_range_early = map_range early

unfoldable pub paging_map_range : ℕ → ℕ → ℕ → ℕ → ℕ → Step (Unit {0})
paging_map_range = map_range late

-- The returned Boolean, and the two reference parameters `pa` and `flags`.
abbrev pub Found : Type 0
Found = Bool × ℕ × ℕ

abbrev pub not_found : Found
not_found = (false, 0, 0)

unfoldable pub query : Stage → Ram → ℕ → ℕ → Found
query stage ram root va =
    if root == 0
    then not_found
    else let page_offset = bit_and va (page_size - 1) in
      let l2_entry = read_entry stage ram root (sv39_vpn2 va) in
      if not (pte_is_valid l2_entry) || pte_is_leaf l2_entry
      then not_found
      else let level1 = to_ptr stage (phys_addr_from_pte l2_entry) in
        let l1_entry = read_entry stage ram level1 (sv39_vpn1 va) in
        if not (pte_is_valid l1_entry) || pte_is_leaf l1_entry
        then not_found
        else let level0 = to_ptr stage (phys_addr_from_pte l1_entry) in
          let l0_entry = read_entry stage ram level0 (sv39_vpn0 va) in
          if not (pte_is_valid l0_entry) || not (pte_is_leaf l0_entry)
          then not_found
          else let phys_page = phys_addr_from_pte l0_entry in
            (true, add64 phys_page page_offset, bit_and l0_entry 0x3ff)

unfoldable pub paging_query_early : Ram → ℕ → ℕ → Found
paging_query_early = query early

unfoldable pub paging_query : Ram → ℕ → ℕ → Found
paging_query = query late
