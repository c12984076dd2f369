-- ===== src/Paging/Tree.antt =====
-- The invariant of the page tables: they form a tree of disjoint pages. A ghost map says what each
-- allocated page is for, so two tables are apart when their purposes are.
use rv64i_operating_system.Base.{
  ℕ, ◌+◌, ◌≤◌, ◌<◌, ◌≡◌, ◌≢◌, true, false, refl, arith, ◌∙◌, ◌==◌, if◌then◌else◌,
}
use rv64i_operating_system.Ram.{Ram}
use rv64i_operating_system.Allocator.Page.{IsBounded, IsFresh}
use rv64i_operating_system.Pte.{phys_addr_from_pte, pte_is_valid, pte_is_leaf}
use rv64i_operating_system.Paging.State.{PagingState}
use rv64i_operating_system.Paging.Entry.{entry, IsPage}

-- What a page is for: a table at one of the three levels, by the indices that lead to it, or the
-- contents of a mapped region.
pub data Role : Type 0 where
  root_table : Role
  level1_table : ℕ → Role
  level0_table : ℕ → ℕ → Role
  contents : Role

abbrev pub Owner : Type 0
Owner = ℕ → Role

abbrev pub assign : Owner → ℕ → Role → Owner
assign owner page role t = if t == page then role else owner t

-- The table that an entry points to.
abbrev pub child : Ram → ℕ → ℕ → ℕ
child ram t i = phys_addr_from_pte (entry ram t i)

abbrev pub Present : Ram → ℕ → ℕ → Type 0
Present ram t i = pte_is_valid (entry ram t i) ≡ true

-- A page handed out before `current` for this purpose.
pub record IsTable (owner : Owner) (current : ℕ) (role : Role) (t : ℕ) : Type 0 where
  pub page : IsPage t
  pub old : t < current
  pub role_is : owner t ≡ role

pub record IsTree (root : ℕ) (owner : Owner) (s : PagingState) : Type 0 where
  pub bounded : IsBounded s.allocator
  pub root_pos : 0 < root
  pub root_is : IsTable owner s.allocator.current root_table root
  pub level1 :
      (i : ℕ)
      → i < 512
      → Present s.ram root i
      → (pte_is_leaf (entry s.ram root i) ≡ false)
        × IsTable owner s.allocator.current (level1_table i) (child s.ram root i)
  pub level0 :
      (i j : ℕ)
      → i < 512
      → j < 512
      → Present s.ram root i
      → Present s.ram (child s.ram root i) j
      → (pte_is_leaf (entry s.ram (child s.ram root i) j) ≡ false)
        × IsTable owner s.allocator.current (level0_table i j) (child s.ram (child s.ram root i) j)

-- The entry of the last level that the three indices lead to; 0, which is not valid, where a table
-- is missing on the way.
unfoldable pub slot : Ram → ℕ → ℕ → ℕ → ℕ → ℕ
slot ram root i j k =
    if pte_is_valid (entry ram root i)
    then (if pte_is_valid (entry ram (child ram root i) j)
        then entry ram (child ram (child ram root i) j) k
        else 0)
    else 0

-- The number of tables that are missing on the way to that entry.
unfoldable pub missing : Ram → ℕ → ℕ → ℕ → ℕ
missing ram root i j =
    if pte_is_valid (entry ram root i)
    then (if pte_is_valid (entry ram (child ram root i) j) then 0 else 1)
    else 2

-- How a step of the paging code may change the state: the tree stays a tree, purposes of allocated
-- pages stay, and no byte of a page of contents changes.
pub record Grown (root : ℕ) (owner : Owner) (s s' : PagingState) : Type 0 where
  pub owner' : Owner
  pub tree : IsTree root owner' s'
  pub same_end : s'.allocator.end ≡ s.allocator.end
  pub current_le : s.allocator.current ≤ s'.allocator.current
  pub same_owner : (t : ℕ) → t < s.allocator.current → owner' t ≡ owner t
  pub same_contents :
      (t b : ℕ)
      → IsTable owner s.allocator.current contents t
      → t ≤ b
      → b < t + 4096
      → s'.ram b ≡ s.ram b

pub Grown-refl :
    {root : ℕ} {owner : Owner} {s : PagingState} → IsTree root owner s → Grown root owner s s
Grown-refl {owner} tree = record {
  owner' = owner;
  tree = tree;
  same_end = refl;
  current_le = omega arith;
  same_owner = λ t h. refl;
  same_contents = λ t b c lo hi. refl;
}

pub Grown-trans :
    {root : ℕ} {owner : Owner} {s s' s'' : PagingState} (g : Grown root owner s s')
    → Grown root g.owner' s' s''
    → Grown root owner s s''
Grown-trans g h = record {
  owner' = h.owner';
  tree = h.tree;
  same_end = ground arith;
  current_le = omega arith;
  same_owner = λ t p. ground (arith, g.same_owner t p, h.same_owner t);
  same_contents = λ t b c lo hi.
      ground (arith, g.same_owner t c.old, g.same_contents t b c lo hi, h.same_contents t b);
}

-- A page keeps its purpose, through one change or the second of two.
pub Grown-IsTable :
    {root : ℕ} {owner : Owner} {s s' : PagingState} (g : Grown root owner s s') (role : Role)
    (t : ℕ)
    → IsTable owner s.allocator.current role t
    → IsTable g.owner' s'.allocator.current role t
Grown-IsTable g role t c = record {
  page = c.page;
  old = omega (arith, g.current_le, c.old);
  role_is = g.same_owner t c.old ∙ c.role_is;
}

pub Grown-trans_IsTable :
    {root : ℕ} {owner : Owner} {s s' s'' : PagingState} (g : Grown root owner s s')
    (h : Grown root g.owner' s' s'') (role : Role) (t : ℕ)
    → IsTable g.owner' s'.allocator.current role t
    → IsTable (Grown-trans g h).owner' s''.allocator.current role t
unfolding Grown-trans
Grown-trans_IsTable g h role t c = Grown-IsTable h role t c

pub Grown-trans_IsTable' :
    {root : ℕ} {owner : Owner} {s s' s'' : PagingState} (g : Grown root owner s s')
    (h : Grown root g.owner' s' s'') (role : Role) (t : ℕ)
    → IsTable h.owner' s''.allocator.current role t
    → IsTable (Grown-trans g h).owner' s''.allocator.current role t
unfolding Grown-trans
Grown-trans_IsTable' g h role t c = c

-- Pages with different purposes are different.
pub apart_of_role :
    {owner : Owner} {current : ℕ} {role role' : Role} {t t' : ℕ}
    → IsTable owner current role t
    → IsTable owner current role' t'
    → role ≢ role'
    → t ≢ t'
apart_of_role a b ne = λ e. ne (ground (arith, a.role_is, b.role_is))

module _ (owner : Owner) (s s' : PagingState) (page : ℕ) (role : Role)
    (fresh : IsFresh s.allocator page s'.allocator) (bounded : IsBounded s'.allocator) where
  pub IsTable-old :
      {role' : Role} {t : ℕ}
      → IsTable owner s.allocator.current role' t
      → IsTable (assign owner page role) s'.allocator.current role' t
  IsTable-old a = ground arith

  pub IsTable-new : IsTable (assign owner page role) s'.allocator.current role page
  IsTable-new = ground arith
