-- ===== src/Paging/Range.antt =====
-- `paging_map_range` and `paging_map_range_early`: every page of the range is mapped, and nothing
-- else changes.
pub mod Supply
use native.Mathlib.Decide.{ℕ_discrete}
use rv64i_operating_system.Base.{
  ℕ, zero, suc, ◌+◌, ◌-◌, ◌*◌, ◌/◌, ◌%◌, ◌^◌, ◌≤◌, ◌<◌, ◌≡◌, inl, inr, true, false, ◌&&◌, Option,
  none, some, arith, refl, ◌∙◌, ◌==◌, ltb, if◌then◌else◌, Bool-cases, is_some, add64,
}
use rv64i_operating_system.AddressMapping.{Stage, to_ptr}
use rv64i_operating_system.Allocator.{align_up}
use rv64i_operating_system.Allocator.Align.{align_up-page}
use rv64i_operating_system.Pte.{page_size, pte_is_leaf}
use rv64i_operating_system.Pte.Fields.{leaf_flags}
use rv64i_operating_system.Paging.State.{PagingState, Step, and_then}
use rv64i_operating_system.Paging.{map_page, map_pages, map_range, query}
use rv64i_operating_system.Paging.Tree.{Owner, IsTree, Grown, Grown-refl, Grown-trans}
use rv64i_operating_system.Paging.Map.Slots.{IsMapping, map_page-Mapped}
use rv64i_operating_system.Paging.Map.Query.{
  same_page, same_page_iff, query-map_page, map_page-keeps,
}

module _ (stage : Stage) (root vs ps size flags : ℕ) where
  -- The result does not depend on the fuel once it covers the pages that are left.
  map_pages-fuel :
      (f f' mapped : ℕ)
      → mapped ≤ size
      → size < 2 ^ 64 - 4096
      → mapped % 4096 ≡ 0
      → size % 4096 ≡ 0
      → size < mapped + 4096 * f
      → size < mapped + 4096 * f'
      → map_pages stage root vs ps size flags f mapped
        ≡ map_pages stage root vs ps size flags f' mapped
  unfolding map_pages
  map_pages-fuel zero f' mapped le top m z h h' = absurd (omega arith)
  map_pages-fuel (suc f) zero mapped le top m z h h' = absurd (omega arith)
  map_pages-fuel (suc f) (suc f') mapped le top m z h h' =
      let e : add64 mapped page_size ≡ mapped + 4096 = omega arith in
      elim (Bool-cases (ltb mapped size)) [
        | inr done ↦ rw done
        | inl more ↦ rw (
          more,
          e,
          map_pages-fuel f f' (mapped + 4096) (ground arith) top (omega arith) z (omega arith)
              (omega arith),
        )
      ]

-- Page `n` of the range, and its frame.
abbrev pub nth_va : ℕ → ℕ → ℕ
nth_va vs n = add64 vs (4096 * n)

-- The outcome `r` of mapping pages `n` with `lo ≤ n < hi` of a range.
pub record Ranged (stage : Stage) (root : ℕ) (owner : Owner) (vs ps flags lo hi : ℕ)
    (s : PagingState) (r : Option (Unit {0}) × PagingState) : Type 0 where
  pub grown : Grown root owner s r.1
  pub hit :
      (n va : ℕ)
      → is_some r.0 ≡ true
      → lo ≤ n
      → n < hi
      → same_page (nth_va vs n) va ≡ true
      → query stage r.1.ram (to_ptr stage root) va
        ≡ (true, ps + 4096 * n + va % 4096, leaf_flags flags)
  pub miss :
      (va : ℕ)
      → ((n : ℕ) → lo ≤ n → n < hi → same_page (nth_va vs n) va ≡ false)
      → query stage r.1.ram (to_ptr stage root) va ≡ query stage s.ram (to_ptr stage root) va
  pub keeps :
      (va pa f : ℕ)
      → query stage s.ram (to_ptr stage root) va ≡ (true, pa, f)
      → query stage r.1.ram (to_ptr stage root) va ≡ (true, pa, f)

Ranged-refl :
    (stage : Stage) (root : ℕ) (owner : Owner) (vs ps flags lo hi : ℕ) (s : PagingState)
    (o : Option (Unit {0}))
    → IsTree root owner s
    → (is_some o ≡ true → hi ≤ lo)
    → Ranged stage root owner vs ps flags lo hi s (o, s)
Ranged-refl stage root owner vs ps flags lo hi s o tree empty = record {
  grown = Grown-refl tree;
  hit = λ n va e p q. absurd (omega (arith, empty e));
  miss = λ va out. refl;
  keeps = λ va pa f found. found;
}

-- Two pages of a range of at most 2^39 bytes are different.
pub apart_in_range :
    (vs n n' va : ℕ)
    → n < n'
    → n' < 2 ^ 27
    → same_page (nth_va vs n) va ≡ true
    → same_page (nth_va vs n') va ≡ false
apart_in_range vs n n' va lt bound h = elim (Bool-cases (same_page (nth_va vs n') va)) [
  | inr e ↦ e
  | inl e ↦
      let a = (same_page_iff (nth_va vs n) va).0 h in
      let b = (same_page_iff (nth_va vs n') va).0 e in absurd (omega arith)
]

module _ (stage : Stage) (root vs ps flags hi : ℕ) (leaf : pte_is_leaf flags ≡ true)
    (range : hi < 2 ^ 27) where
  -- One page, and then the others.
  combine :
      (owner : Owner) (n : ℕ) (s s' : PagingState) (o : Option (Unit {0})) (rest : Step (Unit {0}))
      (grown : Grown root owner s s')
      → n < hi
      → ((va : ℕ)
          → query stage s'.ram (to_ptr stage root) va ≡ (
              if is_some o && (same_page (nth_va vs n) va && pte_is_leaf flags)
              then (true, ps + 4096 * n + va % 4096, leaf_flags flags)
              else query stage s.ram (to_ptr stage root) va))
      → ((va pa f : ℕ)
          → query stage s.ram (to_ptr stage root) va ≡ (true, pa, f)
          → query stage s'.ram (to_ptr stage root) va ≡ (true, pa, f))
      → Ranged stage root grown.owner' vs ps flags (n + 1) hi s' (rest s')
      → Ranged stage root owner vs ps flags n hi s (and_then o s' λ _. rest)
  combine owner n s s' none rest grown lt step stays tail = record {
    grown = grown;
    hit = λ m va e p q h. cc;
    miss = λ va out. step va;
    keeps = stays;
  }
  combine owner n s s' (some u) rest grown lt step stays tail = record {
    grown = Grown-trans grown tail.grown;
    hit = λ m va e p q h. elim (ℕ_discrete n m) [
      | yes same ↦
          tail.miss va (λ k lo up. apart_in_range vs n k va (omega arith) (omega arith) (rw same h))
          ∙ ground (arith, step va)
      | no ne ↦ tail.hit m va e (omega arith) q h
    ];
    miss = λ va out.
        tail.miss va (λ k lo up. out k (omega arith) up)
        ∙ ground (arith, step va, out n (omega arith) lt);
    keeps = λ va pa f found. tail.keeps va pa f (stays va pa f found);
  }

  map_pages-Ranged :
      (f n : ℕ) (owner : Owner) (s : PagingState)
      → IsTree root owner s
      → flags < 1024
      → ps + 4096 * hi ≤ 2 ^ 56
      → n ≤ hi
      → hi < n + f
      → Ranged stage root owner vs ps flags n hi s
          (map_pages stage (to_ptr stage root) vs ps (4096 * hi) flags f (4096 * n) s)
  unfolding map_pages
  map_pages-Ranged zero n owner s tree small phys le fuel = absurd (omega arith)
  map_pages-Ranged (suc f) n owner s tree small phys le fuel =
      elim (Bool-cases (ltb (4096 * n) (4096 * hi))) [
        | inr done ↦
            rw done
              (Ranged-refl stage root owner vs ps flags n hi s (some tt) tree λ e. ground arith)
        | inl more ↦
            let lt : n < hi = ground arith in
            let pa : add64 ps (4096 * n) ≡ ps + 4096 * n = omega arith in
            let next : add64 (4096 * n) page_size ≡ 4096 * (n + 1) = omega arith in
            let va = nth_va vs n in
            let m : IsMapping (ps + 4096 * n) flags = (omega arith, small) in
            let r = map_page stage (to_ptr stage root) va (ps + 4096 * n) flags s in
            let mapped = map_page-Mapped stage root va (ps + 4096 * n) flags owner s m tree in
            rw (more, pa, next)
              (combine owner n s r.1 r.0 _ mapped.grown lt
                (λ va'. query-map_page stage root va (ps + 4096 * n) flags va' owner s m tree)
                (λ va' x f.
                  map_page-keeps stage root va (ps + 4096 * n) flags va' x f owner s m tree)
                (map_pages-Ranged f (n + 1) mapped.grown.owner' r.1 mapped.grown.tree small phys
                  (omega arith) (omega arith)))
      ]

-- The number of pages that cover `size` bytes.
abbrev pub pages_of : ℕ → ℕ
pages_of size = (size + 4095) / 4096

-- A call of `paging_map_range` or `paging_map_range_early` on a tree keeps the tree, for flags of ten
-- bits with a permission to read, write or execute, at most 2^38 bytes, and physical addresses that
-- end below 2^55. If it succeeds, a query in page `n` of the range answers page `n` behind `physical_start`, with the
-- flags and V, A and D set. A query outside the range answers what it did before the call, also
-- after a failure, and no mapping that was there before is overwritten.
pub map_range-Ranged :
    (stage : Stage) (root vs ps size flags : ℕ) (owner : Owner) (s : PagingState)
    → pte_is_leaf flags ≡ true
    → flags < 1024
    → size ≤ 2 ^ 38
    → ps + size < 2 ^ 55
    → IsTree root owner s
    → Ranged stage root owner vs ps flags 0
        (pages_of size)
        s
        (map_range stage (to_ptr stage root) vs ps size flags s)
unfolding map_range
map_range-Ranged stage root vs ps size flags owner s leaf small fits phys tree =
    elim (Bool-cases (size == 0)) [
      | inl empty ↦ rw empty (
          Ranged-refl stage root owner vs ps flags 0 (pages_of size) s (some tt) tree
            λ e. ground arith)
      | inr some_bytes ↦
          let aligned : align_up size 4096 ≡ 4096 * pages_of size =
            omega (arith, align_up-page size) in
          let rounds : 4096 * pages_of size / 4096 ≡ pages_of size = omega arith in
          rw (some_bytes, aligned, rounds)
            (map_pages-Ranged stage root vs ps flags (pages_of size) leaf (omega arith)
              (pages_of size + 1) 0 owner s tree small (omega arith) (omega arith) (omega arith))
    ]
