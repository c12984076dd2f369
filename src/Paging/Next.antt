-- ===== src/Paging/Next.antt =====
-- The outcomes of one level of the descent, with what each leaves in memory.
use rv64i_operating_system.Base.{
  ℕ, ◌<◌, ◌≡◌, ◌≢◌, ◌⊎◌, inl, inr, true, false, Option, none, some, arith, sym, ◌==◌, ◌∙◌,
  Bool-cases,
}
use rv64i_operating_system.Ram.{Ram}
use rv64i_operating_system.AddressMapping.{Stage, to_ptr}
use rv64i_operating_system.Allocator.{physical_alloc_page}
use rv64i_operating_system.Allocator.Page.{IsBounded, IsFresh, physical_alloc_page-cases}
use rv64i_operating_system.Pte.{
  pte_v, pte_from_phys_addr, phys_addr_from_pte, pte_is_valid, pte_is_leaf,
}
use rv64i_operating_system.Pte.Fields.{pointer_pte}
use rv64i_operating_system.Paging.State.{PagingState, alloc}
use rv64i_operating_system.Paging.{write_entry, paging_zero_table, new_table, next_table}
use rv64i_operating_system.Paging.Entry.{
  entry, IsPage, Outside, read_entry_lem, write_entry_lem, entry-set_entry_self,
  entry-set_entry_other, set_entry-Outside, entry_ext, entry-paging_zero_table,
  paging_zero_table-Outside,
}

-- `page` is a cleared table, entry `i` of `t` points to it, and nothing else has changed.
pub record IsLinked (ram ram' : Ram) (t i page : ℕ) : Type 0 where
  pub link : entry ram' t i ≡ pte_from_phys_addr page pte_v
  pub cleared : (j : ℕ) → j < 512 → entry ram' page j ≡ 0
  pub others :
      (t' i' : ℕ)
      → IsPage t'
      → t' ≢ page
      → i' < 512
      → (t ≢ t') ⊎ (i ≢ i')
      → entry ram' t' i' ≡ entry ram t' i'
  pub outside : (b : ℕ) → Outside t b → Outside page b → ram' b ≡ ram b

pub data Next (stage : Stage) (t i : ℕ) (s : PagingState) : Option ℕ × PagingState → Type 0 where
  blocked :
      pte_is_valid (entry s.ram t i) ≡ true
      → pte_is_leaf (entry s.ram t i) ≡ true
      → Next stage t i s (none, s)
  follow :
      pte_is_valid (entry s.ram t i) ≡ true
      → pte_is_leaf (entry s.ram t i) ≡ false
      → Next stage t i s (some (to_ptr stage (phys_addr_from_pte (entry s.ram t i))), s)
  exhausted :
      pte_is_valid (entry s.ram t i) ≡ false
      → (physical_alloc_page s.allocator).0 ≡ 0
      → Next stage t i s (none, s)
  made :
      (page : ℕ) (s' : PagingState)
      → pte_is_valid (entry s.ram t i) ≡ false
      → IsFresh s.allocator page s'.allocator
      → IsBounded s'.allocator
      → IsLinked s.ram s'.ram t i page
      → Next stage t i s (some (to_ptr stage page), s')

linked_ram : Stage → Ram → ℕ → ℕ → ℕ → Ram
linked_ram stage ram t i page =
    write_entry stage (paging_zero_table stage ram (to_ptr stage page)) (to_ptr stage t) i
      (pte_from_phys_addr page pte_v)

linked_ram-IsLinked :
    (stage : Stage) (ram : Ram) (t i page : ℕ)
    → IsPage t
    → IsPage page
    → t ≢ page
    → i < 512
    → IsLinked ram (linked_ram stage ram t i page) t i page
unfolding linked_ram
linked_ram-IsLinked stage ram t i page pt pp ne h =
    let zeroed = paging_zero_table stage ram (to_ptr stage page) in
    let v = pte_from_phys_addr page pte_v in
    rw (write_entry_lem stage zeroed t i v pt.1 h) record {
      link = ground (arith, entry-set_entry_self zeroed t i v, pointer_pte page);
      cleared = λ j hj. ground (
        arith,
        entry-set_entry_other zeroed t i v page j pt pp,
        entry-paging_zero_table stage page pp ram j,
      );
      others = λ t' i' pt' ne' h' apart.
          entry-set_entry_other zeroed t i v t' i' pt pt' h h' apart
          ∙ entry_ext ram zeroed page t' i' (paging_zero_table-Outside stage page pp ram) pp pt' h'
              (λ e. ne' (sym e));
      outside = λ b out out'.
          set_entry-Outside zeroed t i v b h out
          ∙ paging_zero_table-Outside stage page pp ram b out';
    }

new_table-Next :
    (stage : Stage) (t i : ℕ) (s : PagingState)
    → IsPage t
    → i < 512
    → IsBounded s.allocator
    → t < s.allocator.current
    → pte_is_valid (entry s.ram t i) ≡ false
    → Next stage t i s (new_table stage (to_ptr stage t) i s)
unfolding new_table alloc linked_ram
new_table-Next stage t i s pt h b old missing = elim (physical_alloc_page-cases s.allocator b) [
  | inl (none_left, same) ↦ rw (none_left, same) (exhausted missing none_left)
  | inr (fresh, bounded, pos) ↦
      let page = (physical_alloc_page s.allocator).0 in
      let real : (page == 0) ≡ false = ground arith in
      let pp : IsPage page = omega arith in
      rw real (
        made page _ missing fresh bounded
          (linked_ram-IsLinked stage s.ram t i page pt pp (omega arith) h))
]

-- Every outcome of `next_table` at a table that the allocator does not hand out any more.
pub next_table-Next :
    (stage : Stage) (t i : ℕ) (s : PagingState)
    → IsPage t
    → i < 512
    → IsBounded s.allocator
    → t < s.allocator.current
    → Next stage t i s (next_table stage (to_ptr stage t) i s)
unfolding next_table
next_table-Next stage t i s pt h b old =
    rw (read_entry_lem stage s.ram t i pt.1 h) (elim (Bool-cases (pte_is_valid (entry s.ram t i))) [
      | inl valid ↦ elim (Bool-cases (pte_is_leaf (entry s.ram t i))) [
        | inl leaf ↦ rw (valid, leaf) (blocked valid leaf)
        | inr table ↦ rw (valid, table) (follow valid table)
      ]
      | inr missing ↦ rw missing (new_table-Next stage t i s pt h b old missing)
    ])
