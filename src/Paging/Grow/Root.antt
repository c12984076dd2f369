-- ===== src/Paging/Grow/Root.antt =====
-- A new table below the root.
use rv64i_operating_system.Base.{ℕ, ◌≤◌, ◌<◌, ◌≡◌, ◌≢◌, inl, inr, true, false, arith}
use native.Mathlib.Decide.{ℕ_discrete}
use rv64i_operating_system.Allocator.Page.{IsBounded, IsFresh}
use rv64i_operating_system.Pte.{pte_is_valid, pte_is_leaf}
use rv64i_operating_system.Pte.Fields.{pointer_pte, zero_not_valid}
use rv64i_operating_system.Paging.State.{PagingState}
use rv64i_operating_system.Paging.Entry.{entry, IsPage}
use rv64i_operating_system.Paging.Next.{IsLinked}
use rv64i_operating_system.Paging.Tree.{
  level1_table, level0_table, Owner, assign, child, Present, IsTable, IsTree, slot, missing, Grown,
  apart_of_role, IsTable-old, IsTable-new,
}

module _ (root : ℕ) (owner : Owner) (s s' : PagingState) (tree : IsTree root owner s) (page : ℕ)
    (fresh : IsFresh s.allocator page s'.allocator) (bounded : IsBounded s'.allocator) where
  page-IsPage : IsPage page
  page-IsPage = omega arith

  module _ (i : ℕ) (hi : i < 512) (missing_entry : pte_is_valid (entry s.ram root i) ≡ false)
      (linked : IsLinked s.ram s'.ram root i page) where
    abbrev root_owner : Owner
    root_owner = assign owner page (level1_table i)

    top_entry : (i' : ℕ) → i' < 512 → i ≢ i' → entry s'.ram root i' ≡ entry s.ram root i'
    top_entry i' h ne = linked.others root i' tree.root_is.page (omega arith) h (inr ne)

    pub root_link :
        (pte_is_valid (entry s'.ram root i) ≡ true)
        × (pte_is_leaf (entry s'.ram root i) ≡ false)
        × (child s'.ram root i ≡ page)
    root_link = ground (arith, linked.link, pointer_pte page)

    -- The tables below another entry are where they were, with what was in them.
    level1_entry :
        (i' j : ℕ)
        → i' < 512
        → j < 512
        → Present s.ram root i'
        → entry s'.ram (child s.ram root i') j ≡ entry s.ram (child s.ram root i') j
    level1_entry i' j h hj here =
        let (_, c) = tree.level1 i' h here in
        linked.others (child s.ram root i') j c.page (omega arith) hj
          (inl (apart_of_role tree.root_is c λ e. cc))

    level0_entry :
        (i' j k : ℕ)
        → i' < 512
        → j < 512
        → k < 512
        → Present s.ram root i'
        → Present s.ram (child s.ram root i') j
        → let t = child s.ram (child s.ram root i') j in entry s'.ram t k ≡ entry s.ram t k
    level0_entry i' j k h hj hk here here' =
        let (_, c) = tree.level0 i' j h hj here here' in
        linked.others (child s.ram (child s.ram root i') j) k c.page (omega arith) hk
          (inl (apart_of_role tree.root_is c λ e. cc))

    root_level1 :
        (i' : ℕ)
        → i' < 512
        → Present s'.ram root i'
        → (pte_is_leaf (entry s'.ram root i') ≡ false)
          × IsTable root_owner s'.allocator.current (level1_table i') (child s'.ram root i')
    root_level1 i' h here = elim (ℕ_discrete i i') [
      | yes e ↦
          rw (← e, root_link.2)
            (root_link.1, IsTable-new owner s s' page (level1_table i) fresh bounded)
      | no ne ↦
          let same = top_entry i' h ne in
          let (table, c) = tree.level1 i' h (rw same at here) in
          rw same (table, IsTable-old owner s s' page (level1_table i) fresh bounded c)
    ]

    root_level0 :
        (i' j : ℕ)
        → i' < 512
        → j < 512
        → Present s'.ram root i'
        → Present s'.ram (child s'.ram root i') j
        → (pte_is_leaf (entry s'.ram (child s'.ram root i') j) ≡ false)
          × IsTable root_owner s'.allocator.current
              (level0_table i' j)
              (child s'.ram (child s'.ram root i') j)
    root_level0 i' j h hj here here' = elim (ℕ_discrete i i') [
      | yes e ↦ absurd (ground (arith, root_link, linked.cleared j hj, zero_not_valid))
      | no ne ↦
          let same = top_entry i' h ne in
          let old = rw same at here in
          let below = level1_entry i' j h hj old in
          let (table, c) = tree.level0 i' j h hj old (rw (same, below) at here') in
          rw (same, below) (table, IsTable-old owner s s' page (level1_table i) fresh bounded c)
    ]

    pub same_slot :
        (i' j k : ℕ)
        → i' < 512
        → j < 512
        → k < 512
        → slot s'.ram root i' j k ≡ slot s.ram root i' j k
    unfolding slot
    same_slot i' j k h hj hk = elim (ℕ_discrete i i') [
      | yes e ↦ ground (arith, root_link, linked.cleared j hj, zero_not_valid, missing_entry)
      | no ne ↦
          ground (arith, top_entry i' h ne, level1_entry i' j h hj, level0_entry i' j k h hj hk)
    ]

    pub root_missing :
        (i' j : ℕ) → i' < 512 → j < 512 → missing s'.ram root i' j ≤ missing s.ram root i' j
    unfolding missing
    root_missing i' j h hj = elim (ℕ_discrete i i') [
      | yes e ↦ ground (arith, root_link, linked.cleared j hj, zero_not_valid, missing_entry)
      | no ne ↦ ground (arith, top_entry i' h ne, level1_entry i' j h hj)
    ]

    pub root_taken :
        (j : ℕ) → j < 512 → (missing s.ram root i j ≡ 2) × (missing s'.ram root i j ≡ 1)
    unfolding missing
    root_taken j h = ground (arith, root_link, linked.cleared j h, zero_not_valid, missing_entry)

    pub Grown-root : Grown root owner s s'
    Grown-root = record {
      owner' = root_owner;
      tree = record {
        bounded = bounded;
        root_pos = tree.root_pos;
        root_is = IsTable-old owner s s' page (level1_table i) fresh bounded tree.root_is;
        level1 = root_level1;
        level0 = root_level0;
      };
      same_end = fresh.same_end;
      current_le = omega arith;
      same_owner = λ t h. ground arith;
      same_contents = λ t b c lo hi.
          let apart = apart_of_role tree.root_is c λ e. cc in
          linked.outside b (omega arith) (omega arith);
    }
