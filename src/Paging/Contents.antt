-- ===== src/Paging/Contents.antt =====
-- Changes of the state that touch no table: a new page of contents, and writes into such pages.
use rv64i_operating_system.Base.{ℕ, ◌+◌, ◌*◌, ◌≤◌, ◌<◌, ◌≡◌, ◌≢◌, inl, inr, arith, Bool-cases}
use rv64i_operating_system.Ram.Laws.{load64_ext}
use rv64i_operating_system.AddressMapping.{Stage, to_ptr}
use rv64i_operating_system.Allocator.Page.{IsBounded, IsFresh}
use rv64i_operating_system.Pte.{pte_is_valid, sv39_vpn2, sv39_vpn1, sv39_vpn0}
use rv64i_operating_system.Paging.State.{PagingState}
use rv64i_operating_system.Paging.{query}
use rv64i_operating_system.Paging.Entry.{entry, Outside}
use rv64i_operating_system.Paging.Tree.{
  Role, root_table, level1_table, level0_table, contents, Owner, assign, child, Present, IsTable,
  IsTree, slot, missing, Grown, IsTable-old, IsTable-new,
}
use rv64i_operating_system.Paging.Map.Slots.{vpn-lt}
use rv64i_operating_system.Paging.Map.Query.{query-decode}

-- Every table keeps its bytes, and every page its purpose.
pub record KeepsTables (owner owner' : Owner) (s s' : PagingState) : Type 0 where
  pub bounded : IsBounded s'.allocator
  pub still :
      (role : Role) (t : ℕ)
      → IsTable owner s.allocator.current role t
      → IsTable owner' s'.allocator.current role t
  pub bytes :
      (role : Role) (t b : ℕ)
      → IsTable owner s.allocator.current role t
      → role ≢ contents
      → t ≤ b
      → b < t + 4096
      → s'.ram b ≡ s.ram b

module _ {root : ℕ} {owner owner' : Owner} {s s' : PagingState} (tree : IsTree root owner s)
    (kept : KeepsTables owner owner' s s') where
  same_entry :
      (role : Role) (t i : ℕ)
      → IsTable owner s.allocator.current role t
      → role ≢ contents
      → i < 512
      → entry s'.ram t i ≡ entry s.ram t i
  unfolding entry
  same_entry role t i c table h =
      load64_ext s.ram s'.ram (t + 8 * i)
        (λ b lo hi. kept.bytes role t b c table (omega arith) (omega arith))

  top : (i : ℕ) → i < 512 → entry s'.ram root i ≡ entry s.ram root i
  top i h = same_entry root_table root i tree.root_is (λ e. cc) h

  middle :
      (i j : ℕ)
      → i < 512
      → j < 512
      → Present s.ram root i
      → entry s'.ram (child s.ram root i) j ≡ entry s.ram (child s.ram root i) j
  middle i j h h' here =
      same_entry (level1_table i) (child s.ram root i) j (tree.level1 i h here).1 (λ e. cc) h'

  pub KeepsTables-IsTree : IsTree root owner' s'
  KeepsTables-IsTree = record {
    bounded = kept.bounded;
    root_pos = tree.root_pos;
    root_is = kept.still root_table root tree.root_is;
    level1 = λ i h here.
        (let (pointer, c) = tree.level1 i h (rw (top i h) at here) in
          rw (top i h) (pointer, kept.still (level1_table i) (child s.ram root i) c));
    level0 = λ i j h h' here here'.
        (let here1 = rw (top i h) at here in
          let below = middle i j h h' here1 in
          let (pointer, c) = tree.level0 i j h h' here1 (rw (top i h, below) at here') in
          rw (top i h, below)
            (pointer, kept.still (level0_table i j) (child s.ram (child s.ram root i) j) c));
  }

  pub KeepsTables-slot :
      (i j k : ℕ) → i < 512 → j < 512 → k < 512 → slot s'.ram root i j k ≡ slot s.ram root i j k
  unfolding slot
  KeepsTables-slot i j k h h' h'' = elim (Bool-cases (pte_is_valid (entry s.ram root i))) [
    | inr missing ↦ rw (top i h, missing)
    | inl here ↦
        let below = middle i j h h' here in
        elim (Bool-cases (pte_is_valid (entry s.ram (child s.ram root i) j))) [
          | inr missing ↦ rw (top i h, here, below, missing)
          | inl here' ↦
              rw (top i h, here, below, here')
                (same_entry (level0_table i j) (child s.ram (child s.ram root i) j) k
                  (tree.level0 i j h h' here here').1 (λ e. cc) h'')
        ]
  ]

  pub KeepsTables-missing :
      (i j : ℕ) → i < 512 → j < 512 → missing s'.ram root i j ≡ missing s.ram root i j
  unfolding missing
  KeepsTables-missing i j h h' = ground (arith, top i h, middle i j h h')

  pub KeepsTables-query :
      (stage : Stage) (va : ℕ)
      → query stage s'.ram (to_ptr stage root) va ≡ query stage s.ram (to_ptr stage root) va
  KeepsTables-query stage va =
      let (lt2, lt1, lt0) = vpn-lt va in
      rw (
        query-decode stage root va owner' s' KeepsTables-IsTree,
        query-decode stage root va owner s tree,
        KeepsTables-slot (sv39_vpn2 va) (sv39_vpn1 va) (sv39_vpn0 va) lt2 lt1 lt0,
      )

-- A new page of contents that nothing outside of it notices.
module _ {root : ℕ} {owner : Owner} {s s' : PagingState} (tree : IsTree root owner s) (page : ℕ)
    (fresh : IsFresh s.allocator page s'.allocator) (bounded : IsBounded s'.allocator)
    (outside : (b : ℕ) → Outside page b → s'.ram b ≡ s.ram b) where
  pub KeepsTables-fresh : KeepsTables owner (assign owner page contents) s s'
  KeepsTables-fresh = record {
    bounded = bounded;
    still = λ role t c. IsTable-old owner s s' page contents fresh bounded c;
    bytes = λ role t b c table lo hi. outside b (omega arith);
  }

  pub Grown-fresh :
      (g : Grown root owner s s') × IsTable g.owner' s'.allocator.current contents page
  Grown-fresh = (
    record {
      owner' = assign owner page contents;
      tree = KeepsTables-IsTree tree KeepsTables-fresh;
      same_end = fresh.same_end;
      current_le = omega arith;
      same_owner = λ t h. ground arith;
      same_contents = λ t b c lo hi. outside b (omega arith);
    },
    IsTable-new owner s s' page contents fresh bounded,
  )
