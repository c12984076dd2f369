-- ===== src/Paging/Leaf.antt =====
-- The write of the last level: it changes one slot, and keeps the tree.
use native.Mathlib.Decide.{ℕ_discrete}
use rv64i_operating_system.Base.{
  ℕ, ◌^◌, ◌<◌, ◌≡◌, inl, inr, Bool, false, ◌&&◌, none, some, arith, refl, ◌==◌, if◌then◌else◌,
  Bool-cases,
}
use rv64i_operating_system.AddressMapping.{Stage, to_ptr}
use rv64i_operating_system.Pte.{pte_from_phys_addr, pte_is_valid}
use rv64i_operating_system.Pte.Fields.{leaf_flags}
use rv64i_operating_system.Paging.State.{PagingState}
use rv64i_operating_system.Paging.{write_leaf}
use rv64i_operating_system.Paging.Entry.{
  entry, set_entry, read_entry_lem, write_entry_lem, entry-set_entry_self, entry-set_entry_other,
  set_entry-Outside,
}
use rv64i_operating_system.Paging.Tree.{
  level0_table, Owner, child, Present, IsTable, IsTree, slot, missing, Grown, apart_of_role,
}

-- Whether the indices are those of the slot at `i`, `j`, `k`.
abbrev pub at_slot : ℕ → ℕ → ℕ → ℕ → ℕ → ℕ → Bool
at_slot i j k i' j' k' = i == i' && (j == j' && k == k')

module _ (root : ℕ) (owner : Owner) (s : PagingState) (tree : IsTree root owner s) (i j k v : ℕ)
    (hi : i < 512) (hj : j < 512) (hk : k < 512) (parent : Present s.ram root i)
    (parent' : Present s.ram (child s.ram root i) j) (fits : v < 2 ^ 64) where
  abbrev table : ℕ
  table = child s.ram (child s.ram root i) j

  abbrev pub leaf_state : PagingState
  leaf_state = record s { ram = set_entry s.ram table k v }

  pub table_is : IsTable owner s.allocator.current (level0_table i j) table
  table_is = (tree.level0 i j hi hj parent parent').1

  top_entry : (i' : ℕ) → i' < 512 → entry leaf_state.ram root i' ≡ entry s.ram root i'
  top_entry i' h =
      entry-set_entry_other s.ram table k v root i' table_is.page tree.root_is.page hk h
        (inl (apart_of_role table_is tree.root_is λ e. cc))

  level1_entry :
      (i' j' : ℕ)
      → i' < 512
      → j' < 512
      → Present s.ram root i'
      → entry leaf_state.ram (child s.ram root i') j' ≡ entry s.ram (child s.ram root i') j'
  level1_entry i' j' h h' here =
      let (_, c) = tree.level1 i' h here in
      entry-set_entry_other s.ram table k v (child s.ram root i') j' table_is.page c.page hk h'
        (inl (apart_of_role table_is c λ e. cc))

  level0_entry_other :
      (i' j' k' : ℕ)
      → i' < 512
      → j' < 512
      → k' < 512
      → at_slot i j k i' j' k' ≡ false
      → Present s.ram root i'
      → Present s.ram (child s.ram root i') j'
      → let t = child s.ram (child s.ram root i') j' in entry leaf_state.ram t k' ≡ entry s.ram t k'
  level0_entry_other i' j' k' h h' hk' differ here here' =
      let (_, c) = tree.level0 i' j' h h' here here' in
      entry-set_entry_other s.ram table k v (child s.ram (child s.ram root i') j') k' table_is.page
        c.page hk hk'
        (elim (ℕ_discrete k k') [
          | no ne ↦ inr ne
          | yes e ↦ inl (apart_of_role table_is c λ e'. ground arith)
        ])

  leaf-slot_self : slot leaf_state.ram root i j k ≡ v
  unfolding slot
  leaf-slot_self = ground (
    arith,
    top_entry i hi,
    level1_entry i j hi hj parent,
    parent,
    parent',
    entry-set_entry_self s.ram table k v fits,
  )

  pub leaf-slot :
      (i' j' k' : ℕ)
      → i' < 512
      → j' < 512
      → k' < 512
      → slot leaf_state.ram root i' j' k'
        ≡ (if at_slot i j k i' j' k' then v else slot s.ram root i' j' k')
  unfolding slot
  leaf-slot i' j' k' h h' hk' = elim (Bool-cases (at_slot i j k i' j' k')) [
    | inl here ↦ ground (arith, leaf-slot_self)
    | inr differ ↦ rw differ (
        ground (
          arith,
          top_entry i' h,
          level1_entry i' j' h h',
          level0_entry_other i' j' k' h h' hk' differ,
        ))
  ]

  pub leaf_missing :
      (i' j' : ℕ)
      → i' < 512
      → j' < 512
      → missing leaf_state.ram root i' j' ≡ missing s.ram root i' j'
  unfolding missing
  leaf_missing i' j' h h' = ground (arith, top_entry i' h, level1_entry i' j' h h')

  leaf-IsTree : IsTree root owner leaf_state
  leaf-IsTree = record {
    bounded = tree.bounded;
    root_pos = tree.root_pos;
    root_is = tree.root_is;
    level1 = λ i' h here. let same = top_entry i' h in rw same (tree.level1 i' h (rw same at here));
    level0 = λ i' j' h h' here here'.
        let same = top_entry i' h in
        let old = rw same at here in
        let below = level1_entry i' j' h h' old in
        rw (same, below) (tree.level0 i' j' h h' old (rw (same, below) at here'));
  }

  pub leaf-Grown : Grown root owner s leaf_state
  leaf-Grown = record {
    owner' = owner;
    tree = leaf-IsTree;
    same_end = refl;
    current_le = omega arith;
    same_owner = λ t h. refl;
    same_contents = λ t b c lo hi.
        let apart = apart_of_role table_is c λ e. cc in
        set_entry-Outside s.ram table k v b hk (omega (arith, table_is.page));
  }

module _ (stage : Stage) (root : ℕ) (owner : Owner) (s : PagingState) (tree : IsTree root owner s)
    (i j k pa flags : ℕ) (hi : i < 512) (hj : j < 512) (hk : k < 512)
    (parent : Present s.ram root i) (parent' : Present s.ram (child s.ram root i) j) where
  abbrev pub leaf_entry : ℕ
  leaf_entry = pte_from_phys_addr pa (leaf_flags flags)

  -- `write_leaf` refuses a slot that is in use, and fills any other.
  pub write_leaf_lem :
      write_leaf stage (to_ptr stage (child s.ram (child s.ram root i) j)) k pa flags s ≡ (
        if pte_is_valid (slot s.ram root i j k) then (none, s) else (
          some tt,
          record s { ram = set_entry s.ram (child s.ram (child s.ram root i) j) k leaf_entry },
        ))
  unfolding write_leaf slot
  write_leaf_lem =
      let t = child s.ram (child s.ram root i) j in
      let c = (tree.level0 i j hi hj parent parent').1.page.1 in
      rw (parent, parent', read_entry_lem stage s.ram t k c hk)
        (rw (write_entry_lem stage s.ram t k leaf_entry c hk) (ground arith))
