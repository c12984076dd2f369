-- ===== src/Process/Region/Fresh.antt =====
-- One round of `map_region`: a new zeroed page, mapped at one address.
use rv64i_operating_system.Base.{
  ℕ, zero, suc, ◌+◌, ◌%◌, ◌^◌, ◌≤◌, ◌<◌, ◌≡◌, inl, inr, true, false, ◌&&◌, Option, none, some,
  arith, refl, ◌∙◌, ◌==◌, leb, ltb, if◌then◌else◌, is_some, add64,
}
use rv64i_operating_system.Ram.{Ram, store8}
use rv64i_operating_system.AddressMapping.{late, to_ptr, deref, phys_to_virt_ptr}
use rv64i_operating_system.Allocator.{physical_alloc_page}
use rv64i_operating_system.Allocator.Page.{IsBounded, IsFresh, physical_alloc_page-cases}
use rv64i_operating_system.Pte.{page_size, pte_is_leaf}
use rv64i_operating_system.Pte.Fields.{leaf_flags}
use rv64i_operating_system.Paging.State.{PagingState, alloc}
use rv64i_operating_system.Paging.{map_page, paging_map, query}
use rv64i_operating_system.Paging.Entry.{Outside}
use rv64i_operating_system.Paging.Tree.{
  contents, Owner, IsTable, IsTree, Grown, Grown-refl, Grown-trans, Grown-trans_IsTable,
}
use rv64i_operating_system.Paging.Contents.{KeepsTables-fresh, KeepsTables-query, Grown-fresh}
use rv64i_operating_system.Paging.Map.Slots.{IsMapping, map_page-Mapped}
use rv64i_operating_system.Paging.Map.Query.{same_page, query-map_page, map_page-keeps}
use rv64i_operating_system.Process.{MemoryRegion, zero_bytes, map_fresh}

-- The pointer to byte `i` of a page leads to that byte.
pub deref-byte :
    (page i : ℕ) → page + i < 2 ^ 38 → deref late (add64 (phys_to_virt_ptr page) i) ≡ page + i
unfolding deref phys_to_virt_ptr
deref-byte page i h = omega arith

zero_bytes_lem :
    (page left i b : ℕ) (ram : Ram)
    → page + i + left ≤ 2 ^ 38
    → zero_bytes (phys_to_virt_ptr page) left i ram b
      ≡ (if leb (page + i) b && ltb b (page + i + left) then 0 else ram b)
unfolding zero_bytes store8
zero_bytes_lem page zero i b ram h = ground arith
zero_bytes_lem page (suc left) i b ram h =
    rw (deref-byte page i (omega arith))
      (ground (arith, zero_bytes_lem page left (i + 1) b (store8 ram (page + i) 0)))

-- How a round can end: with no page mapped, or with a new page of zeros at the address.
pub data Round (root : ℕ) (owner : Owner) (va flags : ℕ) (s : PagingState)
    : Option (Unit {0}) × PagingState → Type 0 where
  unmapped :
      (s' : PagingState)
      → Grown root owner s s'
      → ((va' : ℕ)
          → query late s'.ram (to_ptr late root) va' ≡ query late s.ram (to_ptr late root) va')
      → Round root owner va flags s (none, s')
  placed :
      (page : ℕ) (s' : PagingState) (grown : Grown root owner s s')
      → s.allocator.current ≤ page
      → IsTable grown.owner' s'.allocator.current contents page
      → ((b : ℕ) → page ≤ b → b < page + 4096 → s'.ram b ≡ 0)
      → ((va' : ℕ)
          → query late s'.ram (to_ptr late root) va' ≡ (
              if same_page va va'
              then (true, page + va' % 4096, leaf_flags flags)
              else query late s.ram (to_ptr late root) va'))
      → ((va' x f : ℕ)
          → query late s.ram (to_ptr late root) va' ≡ (true, x, f)
          → query late s'.ram (to_ptr late root) va' ≡ (true, x, f))
      → Round root owner va flags s (some tt, s')

module _ (root : ℕ) (owner : Owner) (va flags : ℕ) (s s1 : PagingState) (page : ℕ)
    (tree : IsTree root owner s) (small : flags < 1024) (leaf : pte_is_leaf flags ≡ true)
    (fresh : IsFresh s.allocator page s1.allocator) (bounded : IsBounded s1.allocator)
    (ram_is : s1.ram ≡ zero_bytes (phys_to_virt_ptr page) 4096 0 s.ram) where
  byte_of : (b : ℕ) → s1.ram b ≡ (if leb page b && ltb b (page + 4096) then 0 else s.ram b)
  byte_of b =
      let e : page + 0 ≡ page = omega arith in
      rw ram_is (rw e at (zero_bytes_lem page 4096 0 b s.ram (omega arith)))

  pub outside : (b : ℕ) → Outside page b → s1.ram b ≡ s.ram b
  outside b out = ground (arith, byte_of b)

  zeroed : (b : ℕ) → page ≤ b → b < page + 4096 → s1.ram b ≡ 0
  zeroed b lo hi = ground (arith, byte_of b)

  grown_fresh : Grown root owner s s1
  grown_fresh = (Grown-fresh tree page fresh bounded outside).0

  same_query :
      (va' : ℕ) → query late s1.ram (to_ptr late root) va' ≡ query late s.ram (to_ptr late root) va'
  same_query va' =
      KeepsTables-query tree (KeepsTables-fresh tree page fresh bounded outside) late va'

  new_page : IsTable grown_fresh.owner' s1.allocator.current contents page
  unfolding grown_fresh
  new_page = (Grown-fresh tree page fresh bounded outside).1

  finish-Round :
      (o : Option (Unit {0})) (s' : PagingState) (grown : Grown root grown_fresh.owner' s1 s')
      → ((va' : ℕ)
          → query late s'.ram (to_ptr late root) va' ≡ (
              if is_some o && (same_page va va' && pte_is_leaf flags)
              then (true, page + va' % 4096, leaf_flags flags)
              else query late s1.ram (to_ptr late root) va'))
      → ((va' x f : ℕ)
          → query late s1.ram (to_ptr late root) va' ≡ (true, x, f)
          → query late s'.ram (to_ptr late root) va' ≡ (true, x, f))
      → Round root owner va flags s (o, s')
  finish-Round none s' grown step stays =
      unmapped s' (Grown-trans grown_fresh grown) (λ va'. step va' ∙ same_query va')
  finish-Round (some done_map) s' grown step stays =
      placed page s' (Grown-trans grown_fresh grown) fresh.from_current
        (Grown-trans_IsTable grown_fresh grown contents page new_page)
        (λ b lo hi. grown.same_contents page b new_page lo hi ∙ zeroed b lo hi)
        (λ va'. ground (arith, step va', same_query va'))
        (λ va' x f found. stays va' x f (same_query va' ∙ found))

  map_new_page : Round root owner va flags s (map_page late (to_ptr late root) va page flags s1)
  map_new_page =
      let r = map_page late (to_ptr late root) va page flags s1 in
      let owner1 = grown_fresh.owner' in
      let m : IsMapping page flags = (omega arith, small) in
      let tree1 = grown_fresh.tree in
      let mapped = map_page-Mapped late root va page flags owner1 s1 m tree1 in
      finish-Round r.0 r.1 mapped.grown
        (λ va'. query-map_page late root va page flags va' owner1 s1 m tree1)
        (λ va' x f. map_page-keeps late root va page flags va' x f owner1 s1 m tree1)

pub map_fresh-Round :
    (root : ℕ) (owner : Owner) (region : MemoryRegion) (offset : ℕ) (s : PagingState)
    → IsTree root owner s
    → region.flags < 1024
    → pte_is_leaf region.flags ≡ true
    → Round root owner
        (add64 region.start offset)
        region.flags
        s
        (map_fresh (to_ptr late root) region offset s)
unfolding map_fresh paging_map alloc
map_fresh-Round root owner region offset s tree small leaf =
    elim (physical_alloc_page-cases s.allocator tree.bounded) [
      | inl (none_left, same) ↦ rw (none_left, same) (unmapped s (Grown-refl tree) (λ va'. refl))
      | inr (fresh, bounded, pos) ↦
          let page = (physical_alloc_page s.allocator).0 in
          let real : (page == 0) ≡ false = ground arith in
          let s1 : PagingState = record {
            ram = zero_bytes (phys_to_virt_ptr page) page_size 0 s.ram;
            allocator = (physical_alloc_page s.allocator).1;
          } in
          rw real (
            map_new_page root owner (add64 region.start offset) region.flags s s1 page tree small
              leaf fresh bounded refl)
    ]
