-- ===== src/Process/Region.antt =====
-- `map_region`: each page of the region gets a zeroed page of its own, and nothing else changes.
pub mod Fresh
pub mod Supply
use native.Mathlib.Decide.{ℕ_discrete}
use Fresh.{Round, unmapped, placed, map_fresh-Round}
use rv64i_operating_system.Base.{
  ℕ, zero, suc, ◌+◌, ◌-◌, ◌*◌, ◌/◌, ◌%◌, ◌^◌, ◌≤◌, ◌<◌, ◌≡◌, inl, inr, true, false, ◌&&◌, Option,
  none, some, arith, refl, ◌∙◌, ◌==◌, ltb, if◌then◌else◌, Bool-cases, is_some, add64, not, bit_and,
}
use rv64i_operating_system.Base.Bits.{bit_and-low}
use rv64i_operating_system.AddressMapping.{late, to_ptr}
use rv64i_operating_system.Pte.{page_size, pte_is_leaf}
use rv64i_operating_system.Pte.Fields.{leaf_flags}
use rv64i_operating_system.Paging.State.{PagingState, Step, and_then, ◌>>◌}
use rv64i_operating_system.Paging.{query}
use rv64i_operating_system.Paging.Tree.{
  contents, Owner, IsTable, IsTree, Grown, Grown-refl, Grown-trans, Grown-IsTable,
  Grown-trans_IsTable, Grown-trans_IsTable',
}
use rv64i_operating_system.Paging.Map.Slots.{to_ptr-ne_zero}
use rv64i_operating_system.Paging.Map.Query.{same_page}
use rv64i_operating_system.Paging.Range.{nth_va, apart_in_range}
use rv64i_operating_system.Process.{MemoryRegion, map_fresh, map_region_loop, map_region}

-- A page of zeros of its own, taken between two states, behind page `n` of a region.
pub record PageAt (root : ℕ) (owner : Owner) (region : MemoryRegion) (n page : ℕ)
    (s s' : PagingState) : Type 0 where
  pub table : IsTable owner s'.allocator.current contents page
  pub new : s.allocator.current ≤ page
  pub zeroed : (b : ℕ) → page ≤ b → b < page + 4096 → s'.ram b ≡ 0
  pub hit :
      (va : ℕ)
      → same_page (nth_va region.start n) va ≡ true
      → query late s'.ram (to_ptr late root) va ≡ (true, page + va % 4096, leaf_flags region.flags)

-- The outcome `r` of giving pages to the pages `lo` to `hi` of a region.
pub record Placed (root : ℕ) (owner : Owner) (region : MemoryRegion) (lo hi : ℕ) (s : PagingState)
    (r : Option (Unit {0}) × PagingState) : Type 0 where
  pub grown : Grown root owner s r.1
  pub page_at : ℕ → ℕ
  pub pages :
      (n : ℕ)
      → is_some r.0 ≡ true
      → lo ≤ n
      → n < hi
      → PageAt root grown.owner' region n (page_at n) s r.1
  pub apart :
      (n n' : ℕ) → is_some r.0 ≡ true → lo ≤ n → n < n' → n' < hi → page_at n + 4096 ≤ page_at n'
  pub miss :
      (va : ℕ)
      → ((n : ℕ) → lo ≤ n → n < hi → same_page (nth_va region.start n) va ≡ false)
      → query late r.1.ram (to_ptr late root) va ≡ query late s.ram (to_ptr late root) va
  pub keeps :
      (va pa f : ℕ)
      → query late s.ram (to_ptr late root) va ≡ (true, pa, f)
      → query late r.1.ram (to_ptr late root) va ≡ (true, pa, f)

Placed-refl :
    (root : ℕ) (owner : Owner) (region : MemoryRegion) (lo hi : ℕ) (s : PagingState)
    (o : Option (Unit {0}))
    → IsTree root owner s
    → (is_some o ≡ true → hi ≤ lo)
    → Placed root owner region lo hi s (o, s)
Placed-refl root owner region lo hi s o tree empty = record {
  grown = Grown-refl tree;
  page_at = λ n. 0;
  pages = λ n e p q. absurd (omega (arith, empty e));
  apart = λ n n' e p q q'. absurd (omega (arith, empty e));
  miss = λ va out. refl;
  keeps = λ va pa f found. found;
}

module _ (root hi : ℕ) (region : MemoryRegion) (leaf : pte_is_leaf region.flags ≡ true)
    (small : region.flags < 1024) (range : hi < 2 ^ 27) where
  module _ (owner : Owner) (n : ℕ) (s s' : PagingState) (rest : Step (Unit {0})) (lt : n < hi)
      (page : ℕ) (grown : Grown root owner s s') (new : s.allocator.current ≤ page)
      (table : IsTable grown.owner' s'.allocator.current contents page)
      (zeros : (b : ℕ) → page ≤ b → b < page + 4096 → s'.ram b ≡ 0)
      (step : (va : ℕ)
        → query late s'.ram (to_ptr late root) va ≡ (
            if same_page (nth_va region.start n) va
            then (true, page + va % 4096, leaf_flags region.flags)
            else query late s.ram (to_ptr late root) va))
      (more : Placed root grown.owner' region (n + 1) hi s' (rest s')) where
    first_page : PageAt root (Grown-trans grown more.grown).owner' region n page s (rest s').1
    first_page = record {
      table = Grown-trans_IsTable grown more.grown contents page table;
      new = new;
      zeroed = λ b lo up. more.grown.same_contents page b table lo up ∙ zeros b lo up;
      hit = λ va h.
          more.miss va (λ k lo up. apart_in_range region.start n k va (omega arith) (omega arith) h)
          ∙ ground (arith, step va);
    }

    later_page :
        (m : ℕ)
        → is_some (rest s').0 ≡ true
        → n + 1 ≤ m
        → m < hi
        → PageAt root (Grown-trans grown more.grown).owner' region m (more.page_at m) s (rest s').1
    later_page m e lo up =
        let there = more.pages m e lo up in
        record {
          table = Grown-trans_IsTable' grown more.grown contents (more.page_at m) there.table;
          new = omega (arith, there.new, grown.current_le);
          zeroed = there.zeroed;
          hit = there.hit;
        }

    first_apart :
        (m : ℕ) → is_some (rest s').0 ≡ true → n + 1 ≤ m → m < hi → page + 4096 ≤ more.page_at m
    first_apart m e lo up =
        let there = more.pages m e lo up in
        omega (arith, there.new, there.table.page, table.page, table.old)

    pages_from :
        (m : ℕ)
        → is_some (rest s').0 ≡ true
        → n ≤ m
        → m < hi
        → PageAt root
            (Grown-trans grown more.grown).owner'
            region
            m
            (if m == n then page else more.page_at m)
            s
            (rest s').1
    pages_from m e lo up = elim (ℕ_discrete m n) [
      | yes here ↦ let test : (m == n) ≡ true = ground arith in rw test (rw (← here) at first_page)
      | no ne ↦
          let test : (m == n) ≡ false = ground arith in rw test (later_page m e (omega arith) up)
    ]

  -- One page, and then the others.
  combine :
      (owner : Owner) (n : ℕ) (s : PagingState) (r : Option (Unit {0}) × PagingState)
      (rest : Step (Unit {0}))
      → n < hi
      → Round root owner (nth_va region.start n) region.flags s r
      → ((owner' : Owner)
          → IsTree root owner' r.1
          → Placed root owner' region (n + 1) hi r.1 (rest r.1))
      → Placed root owner region n hi s (and_then r.0 r.1 λ _. rest)
  combine owner n s _ rest lt (unmapped s' grown same) tail = record {
    grown = grown;
    page_at = λ n. 0;
    pages = λ m e. cc;
    apart = λ m m' e. cc;
    miss = λ va out. same va;
    keeps = λ va pa f found. same va ∙ found;
  }
  combine owner n s _ rest lt (placed page s' grown new table zeros step stays) tail =
      let more = tail grown.owner' grown.tree in
      record {
        grown = Grown-trans grown more.grown;
        page_at = λ m. if m == n then page else more.page_at m;
        pages = pages_from owner n s s' rest lt page grown new table zeros step more;
        apart = λ m m' e lo lt' up. ground (
          arith,
          more.apart m m' e,
          first_apart owner n s s' rest lt page grown new table zeros step more m' e,
        );
        miss = λ va out.
            more.miss va (λ m lo up. out m (omega arith) up)
            ∙ ground (arith, step va, out n (omega arith) lt);
        keeps = λ va pa f found. more.keeps va pa f (stays va pa f found);
      }

  map_region_loop-Placed :
      (f n : ℕ) (owner : Owner) (s : PagingState)
      → region.size ≡ 4096 * hi
      → IsTree root owner s
      → n ≤ hi
      → hi < n + f
      → Placed root owner region n hi s (map_region_loop (to_ptr late root) region f (4096 * n) s)
  unfolding map_region_loop
  map_region_loop-Placed zero n owner s size tree le fuel = absurd (omega arith)
  map_region_loop-Placed (suc f) n owner s size tree le fuel =
      elim (Bool-cases (ltb (4096 * n) region.size)) [
        | inr done ↦
            rw done (Placed-refl root owner region n hi s (some tt) tree (λ e. ground arith))
        | inl more ↦
            let next : add64 (4096 * n) page_size ≡ 4096 * (n + 1) = omega arith in
            rw (more, next)
              (combine owner n s (map_fresh (to_ptr late root) region (4096 * n) s) _ (ground arith)
                (map_fresh-Round root owner region (4096 * n) s tree small leaf)
                (λ owner' tree'.
                  map_region_loop-Placed f (n + 1) owner' _ size tree' (ground arith)
                    (omega arith)))
      ]

-- `map_region` on a tree, for a region of whole pages: on success each page of the region has a new
-- page of zeros of its own with the rights of the region. Other addresses translate as before, also
-- after a failure, and no mapping that was there before is overwritten.
pub map_region-Placed :
    (root : ℕ) (region : MemoryRegion) (hi : ℕ) (owner : Owner) (s : PagingState)
    → pte_is_leaf region.flags ≡ true
    → region.flags < 1024
    → hi < 2 ^ 27
    → region.start % 4096 ≡ 0
    → region.size ≡ 4096 * hi
    → IsTree root owner s
    → Placed root owner region 0 hi s (map_region (to_ptr late root) region s)
unfolding map_region
map_region-Placed root region hi owner s leaf small range start size tree =
    let rounds : region.size / 4096 ≡ hi = omega arith in
    let aligned : (region.start % 4096 == 0) ≡ true = ground arith in
    let whole : (region.size % 4096 == 0) ≡ true = ground arith in
    rw
      (
        to_ptr-ne_zero late root tree.root_pos tree.root_is.page.1,
        bit_and-low 12 region.start,
        bit_and-low 12 region.size,
        aligned,
        whole,
        rounds,
      )
      (map_region_loop-Placed root hi region leaf small range (hi + 1) 0 owner s size tree
        (omega arith) (omega arith))
