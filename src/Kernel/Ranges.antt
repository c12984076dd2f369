-- ===== src/Kernel/Ranges.antt =====
-- A sequence of ranges mapped one after another: all of them are there, and nothing else.
use rv64i_operating_system.Base.{
  ℕ, zero, suc, ◌+◌, ◌*◌, ◌%◌, ◌^◌, ◌≤◌, ◌<◌, ◌≡◌, ◌⊎◌, inl, inr, true, false, Option, none, some,
  List, [], ◌∷◌, arith, refl, ◌∙◌, sym, Bool-cases,
}
use native.Mathlib.Decide.{ℕ_discrete}
use rv64i_operating_system.AddressMapping.{Stage, early, to_ptr}
use rv64i_operating_system.Pte.{pte_is_leaf}
use rv64i_operating_system.Pte.Fields.{leaf_flags}
use rv64i_operating_system.Paging.State.{PagingState, Step, and_then, ◌>>◌, pure}
use rv64i_operating_system.Paging.{paging_map_range_early, map_range, query}
use rv64i_operating_system.Paging.Tree.{Owner, IsTree}
use rv64i_operating_system.Paging.Map.Query.{same_page}
use rv64i_operating_system.Paging.Range.{Ranged, nth_va, pages_of, map_range-Ranged}

pub record AddressRange : Type 0 where
  pub virtual_start : ℕ
  pub physical_start : ℕ
  pub size : ℕ
  pub flags : ℕ

unfoldable pub map_all : ℕ → List AddressRange → Step ℕ
map_all root [] = pure root
map_all root (r ∷ ranges) =
    paging_map_range_early root r.virtual_start r.physical_start r.size r.flags
    >> map_all root ranges

-- What the mapping of a range asks of it.
pub record Fits (r : AddressRange) : Type 0 where
  pub leaf : pte_is_leaf r.flags ≡ true
  pub small : r.flags < 1024
  pub size_max : r.size ≤ 2 ^ 38
  pub inside : r.physical_start + r.size < 2 ^ 55

abbrev pub AllFit : List AddressRange → Type 0
AllFit [] = Unit {0}
AllFit (r ∷ ranges) = Fits r × AllFit ranges

-- Page `n` of a range is that of the virtual address.
abbrev pub InPage : AddressRange → ℕ → ℕ → Type 0
InPage r n va = (n < pages_of r.size) × (same_page (nth_va r.virtual_start n) va ≡ true)

-- Every address of the range is mapped to its place behind `physical_start`.
abbrev pub IsMapped : Stage → ℕ → PagingState → AddressRange → Type 0
IsMapped stage root s r =
    (n va : ℕ)
    → InPage r n va
    → query stage s.ram (to_ptr stage root) va
      ≡ (true, r.physical_start + 4096 * n + va % 4096, leaf_flags r.flags)

abbrev pub AllMapped : Stage → ℕ → PagingState → List AddressRange → Type 0
AllMapped stage root s [] = Unit {0}
AllMapped stage root s (r ∷ ranges) = IsMapped stage root s r × AllMapped stage root s ranges

-- The answer `pa`, `f` for `va` comes from one of the ranges.
abbrev pub Behind : AddressRange → ℕ → ℕ → ℕ → Type 0
Behind r va pa f =
    (n : ℕ) × InPage r n va
    × (pa ≡ r.physical_start + 4096 * n + va % 4096)
    × (f ≡ leaf_flags r.flags)

abbrev pub BehindAny : List AddressRange → ℕ → ℕ → ℕ → Type 0
BehindAny [] va pa f = ⊥
BehindAny (r ∷ ranges) va pa f = Behind r va pa f ⊎ BehindAny ranges va pa f

-- How a sequence of mappings can end.
pub data Covers (root : ℕ) (ranges : List AddressRange) (s : PagingState)
    : Option ℕ × PagingState → Type 0 where
  short : (s' : PagingState) → Covers root ranges s (none, s')
  covered :
      (s' : PagingState) (owner : Owner)
      → IsTree root owner s'
      → AllMapped early root s' ranges
      → ((va pa f : ℕ)
          → query early s.ram (to_ptr early root) va ≡ (true, pa, f)
          → query early s'.ram (to_ptr early root) va ≡ (true, pa, f))
      → ((va pa f : ℕ)
          → query early s'.ram (to_ptr early root) va ≡ (true, pa, f)
          → (query early s.ram (to_ptr early root) va ≡ (true, pa, f)) ⊎ BehindAny ranges va pa f)
      → Covers root ranges s (some (to_ptr early root), s')

-- Whether an address is in one of the first `hi` pages.
find_page :
    (vs va hi : ℕ)
    → ((n : ℕ) × (n < hi) × (same_page (nth_va vs n) va ≡ true))
      ⊎ ((n : ℕ) → n < hi → same_page (nth_va vs n) va ≡ false)
find_page vs va zero = inr (λ n h. absurd (omega arith))
find_page vs va (suc hi) = elim (find_page vs va hi) [
  | inl (n, lt, same) ↦ inl (n, omega arith, same)
  | inr out ↦ elim (Bool-cases (same_page (nth_va vs hi) va)) [
    | inl same ↦ inl (hi, omega arith, same)
    | inr other ↦
        inr (λ n h. elim (ℕ_discrete n hi) [ yes e ↦ rw e other | no ne ↦ out n (omega arith) ])
  ]
]

module _ (root : ℕ) (r : AddressRange) (ranges : List AddressRange) where
  extend :
      (owner : Owner) (s s' : PagingState) (o : Option (Unit {0}))
      → Ranged early root owner r.virtual_start r.physical_start r.flags 0
          (pages_of r.size)
          s
          (o, s')
      → ((owner' : Owner)
          → IsTree root owner' s'
          → Covers root ranges s' (map_all (to_ptr early root) ranges s'))
      → Covers root (r ∷ ranges) s (and_then o s' λ _. map_all (to_ptr early root) ranges)
  extend owner s s' none ranged tail = short s'
  extend owner s s' (some mapped) ranged tail =
      from_rest _ (tail ranged.grown.owner' ranged.grown.tree)
    where
      origin :
          (va pa f : ℕ)
          → query early s'.ram (to_ptr early root) va ≡ (true, pa, f)
          → (query early s.ram (to_ptr early root) va ≡ (true, pa, f)) ⊎ Behind r va pa f
      origin va pa f found = elim (find_page r.virtual_start va (pages_of r.size)) [
        | inr out ↦ inl (sym (ranged.miss va (λ n lo. out n)) ∙ found)
        | inl (n, lt, same) ↦
            let answer = sym (ranged.hit n va refl (omega arith) lt same) ∙ found in
            inr (n, (lt, same), ground arith, ground arith)
      ]

      from_rest :
          (out : Option ℕ × PagingState)
          → Covers root ranges s' out
          → Covers root (r ∷ ranges) s out
      from_rest _ (short s'') = short s''
      from_rest _ (covered s'' owner'' tree all keeps only) =
          covered s'' owner'' tree
            (λ n va at. keeps va _ _ (ranged.hit n va refl (omega arith) at.0 at.1), all)
            (λ va pa f found. keeps va pa f (ranged.keeps va pa f found))
            (λ va pa f found. elim (only va pa f found) [
              | inr later ↦ inr (inr later)
              | inl before ↦ elim (origin va pa f before) [
                | inl old ↦ inl old
                | inr here ↦ inr (inl here)
              ]
            ])

pub map_all-Covers :
    (root : ℕ) (ranges : List AddressRange) (owner : Owner) (s : PagingState)
    → AllFit ranges
    → IsTree root owner s
    → Covers root ranges s (map_all (to_ptr early root) ranges s)
unfolding map_all paging_map_range_early
map_all-Covers root [] owner s fits tree =
    covered s owner tree tt (λ va pa f found. found) (λ va pa f found. inl found)
map_all-Covers root (r ∷ ranges) owner s (fit, fits) tree =
    let out =
      map_range early (to_ptr early root) r.virtual_start r.physical_start r.size r.flags s in
    extend root r ranges owner s out.1 out.0
      (map_range-Ranged early root r.virtual_start r.physical_start r.size r.flags owner s fit.leaf
        fit.small fit.size_max fit.inside tree)
      (λ owner' tree'. map_all-Covers root ranges owner' out.1 fits tree')
