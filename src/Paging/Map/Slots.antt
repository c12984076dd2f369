-- ===== src/Paging/Map/Slots.antt =====
-- What `map_page` does to the slots: it fills one, or none.
use rv64i_operating_system.Base.{
  ℕ, ◌%◌, ◌^◌, ◌<◌, ◌≡◌, inl, inr, true, false, ◌&&◌, Option, none, some, arith, refl, ap, ◌==◌,
  ◌∙◌, if◌then◌else◌, Bool-cases, is_some,
}
use rv64i_operating_system.Base.Bits.{bit_and-low}
use rv64i_operating_system.Ram.{Ram}
use rv64i_operating_system.AddressMapping.{Stage, early, late, to_ptr}
use rv64i_operating_system.Pte.{sv39_vpn2, sv39_vpn1, sv39_vpn0, pte_from_phys_addr, pte_is_valid}
use rv64i_operating_system.Pte.Fields.{
  leaf_flags, leaf_flags_lem, sv39_vpn2_lem, sv39_vpn1_lem, sv39_vpn0_lem, pte_from_phys_addr_lem,
}
use rv64i_operating_system.Paging.State.{PagingState, and_then, ◌>>=◌}
use rv64i_operating_system.Paging.{next_table, write_leaf, map_page}
use rv64i_operating_system.Paging.Tree.{Owner, child, IsTree, slot, Grown, Grown-refl, Grown-trans}
use rv64i_operating_system.Paging.Grow.{
  SameSlots, Reached1, Reached0, next_table-root, next_table-level1,
}
use rv64i_operating_system.Paging.Leaf.{at_slot, leaf_entry, leaf-slot, leaf-Grown, write_leaf_lem}

-- What a caller may ask for: a physical address and flags that fit an entry.
abbrev pub IsMapping : ℕ → ℕ → Type 0
IsMapping pa flags = (pa < 2 ^ 56) × (flags < 1024)

abbrev pub slot_at : Ram → ℕ → ℕ → ℕ
slot_at ram root va = slot ram root (sv39_vpn2 va) (sv39_vpn1 va) (sv39_vpn0 va)

-- The outcome `r` of mapping `va` to `pa`: the tree has grown, the slot of `va` is filled if the
-- call succeeded, and all other slots are as before.
pub record Mapped (root : ℕ) (owner : Owner) (va pa flags : ℕ) (s : PagingState)
    (r : Option (Unit {0}) × PagingState) : Type 0 where
  pub grown : Grown root owner s r.1
  pub slots :
      (i j k : ℕ)
      → i < 512
      → j < 512
      → k < 512
      → slot r.1.ram root i j k ≡ (
          if is_some r.0 && at_slot (sv39_vpn2 va) (sv39_vpn1 va) (sv39_vpn0 va) i j k
          then pte_from_phys_addr pa (leaf_flags flags)
          else slot s.ram root i j k)
  pub accepted :
      is_some r.0 ≡ true
      → (va % 4096 ≡ 0) × (pa % 4096 ≡ 0) × (pte_is_valid (slot_at s.ram root va) ≡ false)

pub vpn-lt : (va : ℕ) → (sv39_vpn2 va < 512) × (sv39_vpn1 va < 512) × (sv39_vpn0 va < 512)
vpn-lt va = omega (arith, sv39_vpn2_lem va, sv39_vpn1_lem va, sv39_vpn0_lem va)

pub to_ptr-ne_zero :
    (stage : Stage) (root : ℕ) → 0 < root → root < 2 ^ 38 → (to_ptr stage root == 0) ≡ false
unfolding to_ptr
to_ptr-ne_zero early root h k = ground arith
to_ptr-ne_zero late root h k = ground arith

Mapped-fail :
    {root : ℕ} {owner : Owner} (va pa flags : ℕ) {s s' : PagingState}
    → Grown root owner s s'
    → SameSlots root s s'
    → Mapped root owner va pa flags s (none, s')
Mapped-fail va pa flags grown same = record { grown = grown; slots = same; accepted = λ e. cc }

module _ (stage : Stage) (root va pa flags : ℕ) (m : IsMapping pa flags)
    (va_aligned : va % 4096 ≡ 0) (pa_aligned : pa % 4096 ≡ 0) where
  -- The last level, from a state with both tables in place.
  at_level0 :
      (owner : Owner) (s s' : PagingState) (o : Option ℕ) (grown : Grown root owner s s')
      → SameSlots root s s'
      → Reached0 stage s'.ram root (sv39_vpn2 va) (sv39_vpn1 va) o
      → Mapped root owner va pa flags s
          (and_then o s' λ level0. write_leaf stage level0 (sv39_vpn0 va) pa flags)
  at_level0 owner s s' none grown same reached = Mapped-fail va pa flags grown same
  at_level0 owner s s' (some p) grown same (parent, parent', e) =
      let (i-lt, j-lt, k-lt) = vpn-lt va in
      let i = sv39_vpn2 va in
      let j = sv39_vpn1 va in
      let k = sv39_vpn0 va in
      let v =
        leaf_entry stage root grown.owner' s' grown.tree i j k pa flags i-lt j-lt k-lt parent
          parent' in
      let fits : v < 2 ^ 64 =
        omega (arith, leaf_flags_lem flags m.1, pte_from_phys_addr_lem pa (leaf_flags flags) m.0) in
      rw
        (
          e,
          write_leaf_lem stage root grown.owner' s' grown.tree i j k pa flags i-lt j-lt k-lt parent
              parent',
        )
        (elim (Bool-cases (pte_is_valid (slot s'.ram root i j k))) [
          | inl used ↦ rw used (Mapped-fail va pa flags grown same)
          | inr unused ↦ rw unused record {
            grown = Grown-trans grown (
                leaf-Grown root grown.owner' s' grown.tree i j k v i-lt j-lt k-lt parent parent'
                  fits);
            slots = λ i' j' k' h h' h''.
                leaf-slot root grown.owner' s' grown.tree i j k v i-lt j-lt k-lt parent parent' fits
                  i' j' k' h h' h''
                ∙ ap (λ old. if at_slot i j k i' j' k' then v else old) (same i' j' k' h h' h'');
            accepted = λ _. (va_aligned, pa_aligned, rw (← same i j k i-lt j-lt k-lt) unused);
          }
        ])

  -- The second level, from a state with the first table in place.
  at_level1 :
      (owner : Owner) (s s' : PagingState) (o : Option ℕ) (grown : Grown root owner s s')
      → SameSlots root s s'
      → Reached1 stage s'.ram root (sv39_vpn2 va) o
      → Mapped root owner va pa flags s (
          and_then o s' λ level1. next_table stage level1 (sv39_vpn1 va) >>= λ level0.
          write_leaf stage level0 (sv39_vpn0 va) pa flags)
  at_level1 owner s s' none grown same reached = Mapped-fail va pa flags grown same
  at_level1 owner s s' (some p) grown same (parent, e) =
      let (i-lt, j-lt, _) = vpn-lt va in
      let i = sv39_vpn2 va in
      let j = sv39_vpn1 va in
      let (more, still, reached) =
        next_table-level1 stage root i j grown.owner' s' grown.tree i-lt j-lt parent in
      let r = next_table stage (to_ptr stage (child s'.ram root i)) j s' in
      rw e (
        at_level0 owner s r.1 r.0 (Grown-trans grown more)
          (λ i' j' k' h h' h''. still i' j' k' h h' h'' ∙ same i' j' k' h h' h'') reached)

  map_page-aligned :
      (owner : Owner) (s : PagingState)
      → IsTree root owner s
      → Mapped root owner va pa flags s (
          and_then
            (next_table stage (to_ptr stage root) (sv39_vpn2 va) s).0
            (next_table stage (to_ptr stage root) (sv39_vpn2 va) s).1
            λ level1. next_table stage level1 (sv39_vpn1 va) >>= λ level0.
              write_leaf stage level0 (sv39_vpn0 va) pa flags)
  map_page-aligned owner s tree =
      let (grown, same, reached) =
        next_table-root stage root (sv39_vpn2 va) owner s tree (vpn-lt va).0 in
      let r = next_table stage (to_ptr stage root) (sv39_vpn2 va) s in
      at_level1 owner s r.1 r.0 grown same reached

-- A call of `paging_map` or `paging_map_early` on a tree leaves a tree that has grown from it,
-- whether it succeeds or fails. If it succeeds, both addresses were aligned, the leaf slot of the
-- virtual address was free and now holds the new entry; all other slots are as before the call.
pub map_page-Mapped :
    (stage : Stage) (root va pa flags : ℕ) (owner : Owner) (s : PagingState)
    → IsMapping pa flags
    → IsTree root owner s
    → Mapped root owner va pa flags s (map_page stage (to_ptr stage root) va pa flags s)
unfolding map_page
map_page-Mapped stage root va pa flags owner s m tree =
    rw
      (
        to_ptr-ne_zero stage root tree.root_pos tree.root_is.page.1,
        bit_and-low 12 va,
        bit_and-low 12 pa,
      )
      (elim (Bool-cases (va % 4096 == 0)) [
        | inr bad ↦ rw bad (Mapped-fail va pa flags (Grown-refl tree) λ i j k p q r. refl)
        | inl good ↦ rw good (elim (Bool-cases (pa % 4096 == 0)) [
          | inr bad ↦ rw bad (Mapped-fail va pa flags (Grown-refl tree) λ i j k p q r. refl)
          | inl good' ↦
              rw good' (
                map_page-aligned stage root va pa flags m (ground arith) (ground arith) owner s
                  tree)
        ])
      ])
