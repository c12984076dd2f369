-- ===== src/Paging/Map/Supply.antt =====
-- When a call of `map_page` succeeds, and how many pages it takes.
use rv64i_operating_system.Base.{
  ℕ, ◌%◌, ◌^◌, ◌≤◌, ◌<◌, ◌≡◌, ◌↔◌, true, false, Option, none, some, arith, refl, ◌∙◌, is_some,
}
use rv64i_operating_system.Base.Bits.{bit_and-low}
use rv64i_operating_system.Ram.{Ram}
use rv64i_operating_system.AddressMapping.{Stage, to_ptr}
use rv64i_operating_system.Allocator.Page.{pages_left}
use rv64i_operating_system.Pte.{sv39_vpn2, sv39_vpn1, sv39_vpn0, pte_is_valid}
use rv64i_operating_system.Pte.Fields.{leaf_flags, leaf_flags_lem, pte_from_phys_addr_lem}
use rv64i_operating_system.Paging.State.{PagingState, Step, and_then, ◌>>=◌}
use rv64i_operating_system.Paging.{next_table, write_leaf, map_page}
use rv64i_operating_system.Paging.Tree.{Owner, child, Present, IsTree, missing}
use rv64i_operating_system.Paging.Grow.{Reached1, Reached0, next_table-root, next_table-level1}
use rv64i_operating_system.Paging.Grow.Supply.{
  Supplied, next_table-Supplied_root, next_table-Supplied_level1,
}
use rv64i_operating_system.Paging.Leaf.{leaf_missing, leaf_entry, write_leaf_lem}
use rv64i_operating_system.Paging.Map.Slots.{
  IsMapping, slot_at, vpn-lt, to_ptr-ne_zero, map_page-Mapped,
}

-- The tables that are missing for an address.
abbrev pub missing_at : Ram → ℕ → ℕ → ℕ
missing_at ram root va = missing ram root (sv39_vpn2 va) (sv39_vpn1 va)

-- As `Supplied`, and a success leaves nothing missing.
pub record Filled {A : Type 0} (root i j : ℕ) (s : PagingState) (r : Option A × PagingState)
    : Type 0 where
  pub supplied : Supplied root i j s r
  pub complete : is_some r.0 ≡ true → missing r.1.ram root i j ≡ 0

Filled-then :
    {A B : Type 0} (root i j : ℕ) (s s' : PagingState) (o : Option A) (k : A → Step B)
    → i < 512
    → j < 512
    → Supplied root i j s (o, s')
    → ((a : A) → o ≡ some a → Filled root i j s' (k a s'))
    → Filled root i j s (and_then o s' k)
Filled-then root i j s s' none k h h' first rest = record {
  supplied = record { taken = λ e. cc; fewer = first.fewer; given = first.given };
  complete = λ e. cc;
}
Filled-then root i j s s' (some a) k h h' first rest =
    let more = rest a refl in
    record {
      supplied = record {
        taken = λ e. omega (arith, first.taken refl, more.supplied.taken e);
        fewer = λ i' j' lt lt'.
            omega (arith, first.fewer i' j' lt lt', more.supplied.fewer i' j' lt lt');
        given = λ enough. more.supplied.given (omega (arith, first.taken refl));
      };
      complete = more.complete;
    }

nothing_missing :
    (ram : Ram) (root i j : ℕ)
    → Present ram root i
    → Present ram (child ram root i) j
    → missing ram root i j ≡ 0
unfolding missing
nothing_missing ram root i j here here' = rw (here, here')

module _ (stage : Stage) (root va pa flags : ℕ) where
  leaf-Filled :
      (owner : Owner) (s : PagingState)
      → IsMapping pa flags
      → IsTree root owner s
      → Present s.ram root (sv39_vpn2 va)
      → Present s.ram (child s.ram root (sv39_vpn2 va)) (sv39_vpn1 va)
      → pte_is_valid (slot_at s.ram root va) ≡ false
      → Filled root (sv39_vpn2 va) (sv39_vpn1 va) s (
          write_leaf stage
            (to_ptr stage (child s.ram (child s.ram root (sv39_vpn2 va)) (sv39_vpn1 va)))
            (sv39_vpn0 va)
            pa
            flags
            s)
  leaf-Filled owner s m tree here here' free =
      let (lt2, lt1, lt0) = vpn-lt va in
      let i = sv39_vpn2 va in
      let j = sv39_vpn1 va in
      let k = sv39_vpn0 va in
      let v = leaf_entry stage root owner s tree i j k pa flags lt2 lt1 lt0 here here' in
      let fits : v < 2 ^ 64 =
        omega (arith, leaf_flags_lem flags m.1, pte_from_phys_addr_lem pa (leaf_flags flags) m.0) in
      let same = leaf_missing root owner s tree i j k v lt2 lt1 lt0 here here' fits in
      rw (write_leaf_lem stage root owner s tree i j k pa flags lt2 lt1 lt0 here here', free)
        (record {
          supplied = record {
            taken = λ e. omega (arith, same i j lt2 lt1);
            fewer = λ i' j' h h'. omega (arith, same i' j' h h');
            given = λ enough. refl;
          };
          complete = λ e. same i j lt2 lt1 ∙ nothing_missing s.ram root i j here here';
        })

  level0-Filled :
      (owner : Owner) (s : PagingState) (o : Option ℕ)
      → IsMapping pa flags
      → IsTree root owner s
      → Reached0 stage s.ram root (sv39_vpn2 va) (sv39_vpn1 va) o
      → pte_is_valid (slot_at s.ram root va) ≡ false
      → (p : ℕ) → o ≡ some p
      → Filled root (sv39_vpn2 va) (sv39_vpn1 va) s (write_leaf stage p (sv39_vpn0 va) pa flags s)
  level0-Filled owner s none m tree reached free p e = absurd (ground (arith, e))
  level0-Filled owner s (some q) m tree (here, here', at) free p e =
      let same : p ≡ to_ptr stage (child s.ram (child s.ram root (sv39_vpn2 va)) (sv39_vpn1 va)) =
        ground (arith, e, at) in
      rw same (leaf-Filled owner s m tree here here' free)

  level1-Filled :
      (owner : Owner) (s : PagingState) (o : Option ℕ)
      → IsMapping pa flags
      → IsTree root owner s
      → Reached1 stage s.ram root (sv39_vpn2 va) o
      → pte_is_valid (slot_at s.ram root va) ≡ false
      → (p : ℕ) → o ≡ some p
      → Filled root (sv39_vpn2 va) (sv39_vpn1 va) s (
          (next_table stage p (sv39_vpn1 va) >>= λ level0.
          write_leaf stage level0 (sv39_vpn0 va) pa flags)
            s)
  level1-Filled owner s none m tree reached free p e = absurd (ground (arith, e))
  level1-Filled owner s (some q) m tree (here, at) free p e =
      let (lt2, lt1, lt0) = vpn-lt va in
      let i = sv39_vpn2 va in
      let j = sv39_vpn1 va in
      let same : p ≡ to_ptr stage (child s.ram root i) = ground (arith, e, at) in
      let (grown, still, reached) = next_table-level1 stage root i j owner s tree lt2 lt1 here in
      let r = next_table stage (to_ptr stage (child s.ram root i)) j s in
      let free' : pte_is_valid (slot_at r.1.ram root va) ≡ false =
        rw (still i j (sv39_vpn0 va) lt2 lt1 lt0) free in
      rw same (
        Filled-then root i j s r.1 r.0 _ lt2 lt1
          (next_table-Supplied_level1 stage root i j owner s tree lt2 lt1 here)
          (level0-Filled grown.owner' r.1 r.0 m grown.tree reached free'))

  -- A call with aligned addresses at a free slot.
  pub map_page-Filled :
      (owner : Owner) (s : PagingState)
      → IsMapping pa flags
      → IsTree root owner s
      → va % 4096 ≡ 0
      → pa % 4096 ≡ 0
      → pte_is_valid (slot_at s.ram root va) ≡ false
      → Filled root
          (sv39_vpn2 va)
          (sv39_vpn1 va)
          s
          (map_page stage (to_ptr stage root) va pa flags s)
  unfolding map_page
  map_page-Filled owner s m tree va_aligned pa_aligned free =
      let (lt2, lt1, lt0) = vpn-lt va in
      let i = sv39_vpn2 va in
      let (grown, still, reached) = next_table-root stage root i owner s tree lt2 in
      let r = next_table stage (to_ptr stage root) i s in
      let free' : pte_is_valid (slot_at r.1.ram root va) ≡ false =
        rw (still i (sv39_vpn1 va) (sv39_vpn0 va) lt2 lt1 lt0) free in
      rw
        (
          to_ptr-ne_zero stage root tree.root_pos tree.root_is.page.1,
          bit_and-low 12 va,
          bit_and-low 12 pa,
          va_aligned,
          pa_aligned,
        )
        (Filled-then root i (sv39_vpn1 va) s r.1 r.0 _ lt2 lt1
          (next_table-Supplied_root stage root i (sv39_vpn1 va) owner s tree lt2 lt1)
          (level1-Filled grown.owner' r.1 r.0 m grown.tree reached free'))

  -- On a tree, for a physical address below 2^56 and flags of ten bits, `paging_map` or
  -- `paging_map_early` succeeds exactly if both addresses are aligned, the slot of the virtual
  -- address is free, and the allocator has the pages for the tables that are missing on the way, at
  -- most two.
  pub map_page-some_iff :
      (owner : Owner) (s : PagingState)
      → IsMapping pa flags
      → IsTree root owner s
      → (is_some (map_page stage (to_ptr stage root) va pa flags s).0 ≡ true) ↔ (
          (va % 4096 ≡ 0)
          × (pa % 4096 ≡ 0)
          × (pte_is_valid (slot_at s.ram root va) ≡ false)
          × (missing_at s.ram root va ≤ pages_left s.allocator))
  map_page-some_iff owner s m tree = (
    λ e.
        (let (aligned, aligned', free) =
            (map_page-Mapped stage root va pa flags owner s m tree).accepted e in
          let filled = map_page-Filled owner s m tree aligned aligned' free in
          (aligned, aligned', free, omega (arith, filled.supplied.taken e, filled.complete e))),
    λ (aligned, aligned', free, enough).
        (map_page-Filled owner s m tree aligned aligned' free).supplied.given enough,
  )
