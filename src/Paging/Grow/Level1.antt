-- ===== src/Paging/Grow/Level1.antt =====
-- A new table below a table of level 1.
use rv64i_operating_system.Base.{ℕ, ◌≤◌, ◌<◌, ◌≡◌, ◌≢◌, ◌⊎◌, inl, inr, true, false, arith}
use native.Mathlib.Decide.{ℕ_discrete}
use rv64i_operating_system.Allocator.Page.{IsBounded, IsFresh}
use rv64i_operating_system.Pte.{pte_is_valid, pte_is_leaf}
use rv64i_operating_system.Pte.Fields.{pointer_pte, zero_not_valid}
use rv64i_operating_system.Paging.State.{PagingState}
use rv64i_operating_system.Paging.Entry.{entry}
use rv64i_operating_system.Paging.Next.{IsLinked}
use rv64i_operating_system.Paging.Tree.{
  level1_table, level0_table, Owner, assign, child, Present, IsTable, IsTree, slot, missing, Grown,
  apart_of_role, IsTable-old, IsTable-new,
}

module _ (root : ℕ) (owner : Owner) (s s' : PagingState) (tree : IsTree root owner s) (page : ℕ)
    (fresh : IsFresh s.allocator page s'.allocator) (bounded : IsBounded s'.allocator) where
  module _ (i j : ℕ) (hi : i < 512) (hj : j < 512) (parent : Present s.ram root i)
      (missing_entry : pte_is_valid (entry s.ram (child s.ram root i) j) ≡ false)
      (linked : IsLinked s.ram s'.ram (child s.ram root i) j page) where
    abbrev level1_owner : Owner
    level1_owner = assign owner page (level0_table i j)

    abbrev table : ℕ
    table = child s.ram root i

    table_is : IsTable owner s.allocator.current (level1_table i) table
    table_is = (tree.level1 i hi parent).1

    top_entry : (i' : ℕ) → i' < 512 → entry s'.ram root i' ≡ entry s.ram root i'
    top_entry i' h =
        linked.others root i' tree.root_is.page (omega arith) h
          (inl (apart_of_role table_is tree.root_is λ e. cc))

    pub level1_link :
        (pte_is_valid (entry s'.ram table j) ≡ true)
        × (pte_is_leaf (entry s'.ram table j) ≡ false)
        × (child s'.ram table j ≡ page)
    level1_link = ground (arith, linked.link, pointer_pte page)

    pub same_table : child s'.ram root i ≡ table
    same_table = rw (top_entry i hi)

    pub same_parent : Present s'.ram root i
    same_parent = rw (top_entry i hi) parent

    level1_entry :
        (i' j' : ℕ)
        → i' < 512
        → j' < 512
        → (i ≢ i') ⊎ (j ≢ j')
        → Present s.ram root i'
        → entry s'.ram (child s.ram root i') j' ≡ entry s.ram (child s.ram root i') j'
    level1_entry i' j' h h' apart here =
        let (_, c) = tree.level1 i' h here in
        linked.others (child s.ram root i') j' c.page (omega arith) h' (elim apart [
          | inl ne ↦ inl (apart_of_role table_is c λ e. ne (ground arith))
          | inr ne ↦ inr ne
        ])

    level0_entry :
        (i' j' k : ℕ)
        → i' < 512
        → j' < 512
        → k < 512
        → Present s.ram root i'
        → Present s.ram (child s.ram root i') j'
        → let t = child s.ram (child s.ram root i') j' in entry s'.ram t k ≡ entry s.ram t k
    level0_entry i' j' k h h' hk here here' =
        let (_, c) = tree.level0 i' j' h h' here here' in
        linked.others (child s.ram (child s.ram root i') j') k c.page (omega arith) hk
          (inl (apart_of_role table_is c λ e. cc))

    -- Either this is the new entry, or one of its indices differs.
    split : (i' j' : ℕ) → ((i ≡ i') × (j ≡ j')) ⊎ ((i ≢ i') ⊎ (j ≢ j'))
    split i' j' = elim (ℕ_discrete i i') [
      | yes e ↦ elim (ℕ_discrete j j') [ yes e' ↦ inl (e, e') | no ne ↦ inr (inr ne) ]
      | no ne ↦ inr (inl ne)
    ]

    below_level1 :
        (i' : ℕ)
        → i' < 512
        → Present s'.ram root i'
        → (pte_is_leaf (entry s'.ram root i') ≡ false)
          × IsTable level1_owner s'.allocator.current (level1_table i') (child s'.ram root i')
    below_level1 i' h here =
        let same = top_entry i' h in
        let (pointer, c) = tree.level1 i' h (rw same at here) in
        rw same (pointer, IsTable-old owner s s' page (level0_table i j) fresh bounded c)

    below_level0 :
        (i' j' : ℕ)
        → i' < 512
        → j' < 512
        → Present s'.ram root i'
        → Present s'.ram (child s'.ram root i') j'
        → (pte_is_leaf (entry s'.ram (child s'.ram root i') j') ≡ false)
          × IsTable level1_owner s'.allocator.current
              (level0_table i' j')
              (child s'.ram (child s'.ram root i') j')
    below_level0 i' j' h h' here here' =
        let same = top_entry i' h in
        let old = rw same at here in
        elim (split i' j') [
          | inl (e, e') ↦
              rw (← e, ← e', same_table, level1_link.2)
                (level1_link.1, IsTable-new owner s s' page (level0_table i j) fresh bounded)
          | inr apart ↦
              let below = level1_entry i' j' h h' apart old in
              let (pointer, c) = tree.level0 i' j' h h' old (rw (same, below) at here') in
              rw (same, below)
                (pointer, IsTable-old owner s s' page (level0_table i j) fresh bounded c)
        ]

    pub same_slots :
        (i' j' k : ℕ)
        → i' < 512
        → j' < 512
        → k < 512
        → slot s'.ram root i' j' k ≡ slot s.ram root i' j' k
    unfolding slot
    same_slots i' j' k h h' hk = elim (split i' j') [
      | inl (e, e') ↦ ground (
        arith,
        top_entry i' h,
        level1_link,
        linked.cleared k hk,
        zero_not_valid,
        missing_entry,
        parent,
      )
      | inr apart ↦
          ground
            (arith, top_entry i' h, level1_entry i' j' h h' apart, level0_entry i' j' k h h' hk)
    ]

    pub level1_missing :
        (i' j' : ℕ) → i' < 512 → j' < 512 → missing s'.ram root i' j' ≤ missing s.ram root i' j'
    unfolding missing
    level1_missing i' j' h h' = elim (split i' j') [
      | inl (e, e') ↦
          ground (arith, top_entry i' h, top_entry i hi, level1_link, missing_entry, parent)
      | inr apart ↦ ground (arith, top_entry i' h, level1_entry i' j' h h' apart)
    ]

    pub level1_taken : (missing s.ram root i j ≡ 1) × (missing s'.ram root i j ≡ 0)
    unfolding missing
    level1_taken = ground (arith, top_entry i hi, level1_link, missing_entry, parent)

    pub Grown-level1 : Grown root owner s s'
    Grown-level1 = record {
      owner' = level1_owner;
      tree = record {
        bounded = bounded;
        root_pos = tree.root_pos;
        root_is = IsTable-old owner s s' page (level0_table i j) fresh bounded tree.root_is;
        level1 = below_level1;
        level0 = below_level0;
      };
      same_end = fresh.same_end;
      current_le = omega arith;
      same_owner = λ t h. ground arith;
      same_contents = λ t b c lo hi.
          let apart = apart_of_role table_is c λ e. cc in
          linked.outside b (omega (arith, table_is.page)) (omega arith);
    }
