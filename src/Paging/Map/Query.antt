-- ===== src/Paging/Map/Query.antt =====
-- What a query sees after a mapping.
use rv64i_operating_system.Base.{
  ℕ, ◌+◌, ◌%◌, ◌^◌, ◌≡◌, ◌↔◌, ◌/◌, inl, inr, Bool, true, false, ◌&&◌, arith, refl, if◌then◌else◌,
  Bool-cases, is_some, bit_and,
}
use rv64i_operating_system.Base.Bits.{bit_and-low}
use rv64i_operating_system.Ram.{Ram}
use rv64i_operating_system.AddressMapping.{Stage, to_ptr}
use rv64i_operating_system.Pte.{
  sv39_vpn2, sv39_vpn1, sv39_vpn0, pte_from_phys_addr, phys_addr_from_pte, pte_is_valid,
  pte_is_leaf,
}
use rv64i_operating_system.Pte.Fields.{
  leaf_flags, leaf_pte, phys_addr_from_pte_lem, zero_not_valid, sv39_vpn2_lem, sv39_vpn1_lem,
  sv39_vpn0_lem,
}
use rv64i_operating_system.Paging.State.{PagingState}
use rv64i_operating_system.Paging.{map_page, Found, not_found, query}
use rv64i_operating_system.Paging.Entry.{entry, read_entry_lem}
use rv64i_operating_system.Paging.Tree.{Owner, child, Present, IsTree, slot}
use rv64i_operating_system.Paging.Leaf.{at_slot}
use rv64i_operating_system.Paging.Map.Slots.{
  IsMapping, slot_at, vpn-lt, map_page-Mapped, to_ptr-ne_zero,
}

-- Whether two addresses are in the same page: the same three indices.
unfoldable pub same_page : ℕ → ℕ → Bool
same_page va va' =
    at_slot (sv39_vpn2 va) (sv39_vpn1 va) (sv39_vpn0 va) (sv39_vpn2 va') (sv39_vpn1 va')
      (sv39_vpn0 va')

-- What a query answers from the entry of the last level.
unfoldable pub decode : ℕ → ℕ → Found
decode e va =
    if pte_is_valid e && pte_is_leaf e
    then (true, phys_addr_from_pte e + va % 4096, bit_and e 0x3ff)
    else not_found

module _ (stage : Stage) (root va : ℕ) (owner : Owner) (s : PagingState)
    (tree : IsTree root owner s) where
  abbrev t1 : ℕ
  t1 = child s.ram root (sv39_vpn2 va)

  abbrev t0 : ℕ
  t0 = child s.ram t1 (sv39_vpn1 va)

  at_level0 :
      Present s.ram root (sv39_vpn2 va)
      → Present s.ram t1 (sv39_vpn1 va)
      → query stage s.ram (to_ptr stage root) va ≡ decode (slot_at s.ram root va) va
  unfolding query slot decode
  at_level0 parent parent' =
      let (lt2, lt1, lt0) = vpn-lt va in
      let (pointer, c1) = tree.level1 (sv39_vpn2 va) lt2 parent in
      let (pointer', c0) = tree.level0 (sv39_vpn2 va) (sv39_vpn1 va) lt2 lt1 parent parent' in
      rw
        (
          to_ptr-ne_zero stage root tree.root_pos tree.root_is.page.1,
          read_entry_lem stage s.ram root (sv39_vpn2 va) tree.root_is.page.1 lt2,
          parent,
          pointer,
          read_entry_lem stage s.ram t1 (sv39_vpn1 va) c1.page.1 lt1,
          parent',
          pointer',
          read_entry_lem stage s.ram t0 (sv39_vpn0 va) c0.page.1 lt0,
        )
        (ground (arith, bit_and-low 12 va, phys_addr_from_pte_lem (entry s.ram t0 (sv39_vpn0 va))))

  -- On a tree, a query decodes the slot of the address.
  pub query-decode : query stage s.ram (to_ptr stage root) va ≡ decode (slot_at s.ram root va) va
  unfolding query slot decode
  query-decode =
      let (lt2, lt1, lt0) = vpn-lt va in
      let nonnull = to_ptr-ne_zero stage root tree.root_pos tree.root_is.page.1 in
      let top = read_entry_lem stage s.ram root (sv39_vpn2 va) tree.root_is.page.1 lt2 in
      elim (Bool-cases (pte_is_valid (entry s.ram root (sv39_vpn2 va)))) [
        | inr missing ↦ rw (nonnull, top, missing, zero_not_valid)
        | inl parent ↦
            let (pointer, c1) = tree.level1 (sv39_vpn2 va) lt2 parent in
            let next = read_entry_lem stage s.ram t1 (sv39_vpn1 va) c1.page.1 lt1 in
            elim (Bool-cases (pte_is_valid (entry s.ram t1 (sv39_vpn1 va)))) [
              | inr missing ↦ rw (nonnull, top, parent, pointer, next, missing, zero_not_valid)
              | inl parent' ↦ at_level0 parent parent'
            ]
      ]

same_page-slot :
    (ram : Ram) (root va va' : ℕ)
    → same_page va va' ≡ true
    → slot_at ram root va ≡ slot_at ram root va'
unfolding same_page
same_page-slot ram root va va' h = ground arith

-- Decoding a slot that was filled if the call succeeded and the address is in the page.
fill_lem :
    (success same : Bool) (va' pa flags old : ℕ)
    → IsMapping pa flags
    → (success ≡ true → same ≡ true → (pa % 4096 ≡ 0) × (pte_is_valid old ≡ false))
    → decode (if success && same then pte_from_phys_addr pa (leaf_flags flags) else old) va' ≡ (
        if success && (same && pte_is_leaf flags)
        then (true, pa + va' % 4096, leaf_flags flags)
        else decode old va')
unfolding decode
fill_lem false same va' pa flags old m free = refl
fill_lem true false va' pa flags old m free = refl
fill_lem true true va' pa flags old m free =
    let (aligned, unused) = free refl refl in ground (arith, leaf_pte pa flags m.0 aligned m.1)

-- After a call of `paging_map` or `paging_map_early` on a tree, a query in the mapped page answers
-- the new physical address with the flags and V, A and D set, if the call succeeded and the flags
-- have a permission. Every other query answers what it did before the call.
pub query-map_page :
    (stage : Stage) (root va pa flags va' : ℕ) (owner : Owner) (s : PagingState)
    → IsMapping pa flags
    → IsTree root owner s
    → let (result, s') = map_page stage (to_ptr stage root) va pa flags s in
      query stage s'.ram (to_ptr stage root) va' ≡ (
        if is_some result && (same_page va va' && pte_is_leaf flags)
        then (true, pa + va' % 4096, leaf_flags flags)
        else query stage s.ram (to_ptr stage root) va')
unfolding same_page
query-map_page stage root va pa flags va' owner s m tree =
    let mapped = map_page-Mapped stage root va pa flags owner s m tree in
    let (lt2, lt1, lt0) = vpn-lt va' in
    rw
      (
        query-decode stage root va' mapped.grown.owner' _ mapped.grown.tree,
        query-decode stage root va' owner s tree,
        mapped.slots (sv39_vpn2 va') (sv39_vpn1 va') (sv39_vpn0 va') lt2 lt1 lt0,
      )
      (fill_lem (is_some (map_page stage (to_ptr stage root) va pa flags s).0) (same_page va va')
        va' pa flags (slot_at s.ram root va') m
        λ e same. ground (arith, mapped.accepted e, same_page-slot s.ram root va va' same))

-- Two addresses are in the same page exactly if their 27-bit virtual page numbers are equal: the
-- three indices lose nothing of these.
pub same_page_iff :
    (va va' : ℕ) → (same_page va va' ≡ true) ↔ (va / 4096 % 2 ^ 27 ≡ va' / 4096 % 2 ^ 27)
unfolding same_page
same_page_iff va va' =
    rw
      (
        sv39_vpn2_lem va,
        sv39_vpn1_lem va,
        sv39_vpn0_lem va,
        sv39_vpn2_lem va',
        sv39_vpn1_lem va',
        sv39_vpn0_lem va',
      )
      (λ e. ground arith, λ e. ground arith)

pub decode-unused : (e va : ℕ) → pte_is_valid e ≡ false → decode e va ≡ not_found
unfolding decode
decode-unused e va h = rw h

-- A mapping that a query finds is never overwritten: it is still found after any call of
-- `paging_map` or `paging_map_early`, whether that succeeds or fails.
pub map_page-keeps :
    (stage : Stage) (root va pa flags va' x f : ℕ) (owner : Owner) (s : PagingState)
    → IsMapping pa flags
    → IsTree root owner s
    → query stage s.ram (to_ptr stage root) va' ≡ (true, x, f)
    → query stage (map_page stage (to_ptr stage root) va pa flags s).1.ram (to_ptr stage root) va'
      ≡ (true, x, f)
map_page-keeps stage root va pa flags va' x f owner s m tree found =
    let mapped = map_page-Mapped stage root va pa flags owner s m tree in
    ground (
      arith,
      query-map_page stage root va pa flags va' owner s m tree,
      mapped.accepted,
      same_page-slot s.ram root va va',
      query-decode stage root va' owner s tree,
      decode-unused (slot_at s.ram root va') va',
    )
