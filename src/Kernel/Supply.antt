-- ===== src/Kernel/Supply.antt =====
-- When `paging_init` succeeds: enough pages, and ranges that do not share a page.
use rv64i_operating_system.Base.{
  ℕ, ◌+◌, ◌/◌, ◌%◌, ◌^◌, ◌≤◌, ◌<◌, ◌≡◌, ◌⊎◌, inl, inr, true, false, Option, none, some, List, [],
  ◌∷◌, arith, refl, ◌∙◌, Bool-cases, is_some,
}
use rv64i_operating_system.AddressMapping.{early, to_ptr}
use rv64i_operating_system.Allocator.Page.{pages_left}
use rv64i_operating_system.Paging.State.{PagingState, and_then}
use rv64i_operating_system.Paging.{paging_map_range_early, map_range}
use rv64i_operating_system.Paging.Tree.{Owner, IsTree}
use rv64i_operating_system.Paging.Map.Slots.{slot_at}
use rv64i_operating_system.Paging.Map.Query.{same_page, same_page_iff}
use rv64i_operating_system.Paging.Range.{nth_va, pages_of, map_range-Ranged}
use rv64i_operating_system.Paging.Range.Supply.{Succeeds, RangeFree, range_cost, map_range-Succeeds}
use rv64i_operating_system.Kernel.Ranges.{AddressRange, AllFit, map_all}

-- The number of the first page, of the 2^27 pages of an address space.
abbrev pub page_number : AddressRange → ℕ
page_number r = r.virtual_start / 4096 % 2 ^ 27

-- A range of whole pages that does not wrap round the address space.
pub record Sits (r : AddressRange) : Type 0 where
  pub virtual_aligned : r.virtual_start % 4096 ≡ 0
  pub physical_aligned : r.physical_start % 4096 ≡ 0
  pub top : r.virtual_start + r.size ≤ 2 ^ 64
  pub inside : page_number r + pages_of r.size ≤ 2 ^ 27

abbrev pub Apart : AddressRange → AddressRange → Type 0
Apart r r' =
    (page_number r + pages_of r.size ≤ page_number r')
    ⊎ (page_number r' + pages_of r'.size ≤ page_number r)

abbrev pub ApartFrom : AddressRange → List AddressRange → Type 0
ApartFrom r [] = Unit {0}
ApartFrom r (r' ∷ ranges) = Apart r r' × ApartFrom r ranges

abbrev pub AllSit : List AddressRange → Type 0
AllSit [] = Unit {0}
AllSit (r ∷ ranges) = Sits r × ApartFrom r ranges × AllSit ranges

abbrev pub total_cost : List AddressRange → ℕ
total_cost [] = 0
total_cost (r ∷ ranges) = range_cost r.virtual_start r.size + total_cost ranges

abbrev pub AllFree : ℕ → PagingState → List AddressRange → Type 0
AllFree root s [] = Unit {0}
AllFree root s (r ∷ ranges) =
    RangeFree s.ram root r.virtual_start 0 (pages_of r.size) × AllFree root s ranges

pub Apart-same_page :
    (r r' : AddressRange) (n n' : ℕ)
    → Sits r
    → Sits r'
    → Apart r r'
    → n < pages_of r.size
    → n' < pages_of r'.size
    → same_page (nth_va r.virtual_start n) (nth_va r'.virtual_start n') ≡ false
Apart-same_page r r' n n' sits sits' apart lt lt' =
    elim (Bool-cases (same_page (nth_va r.virtual_start n) (nth_va r'.virtual_start n'))) [
      | inr e ↦ e
      | inl e ↦
          let same = (same_page_iff (nth_va r.virtual_start n) (nth_va r'.virtual_start n')).0 e in
          absurd (omega arith)
    ]

-- A range that is mapped leaves the slots of the others free.
AllFree-kept :
    (root : ℕ) (s s' : PagingState) (r : AddressRange) (ranges : List AddressRange)
    → Sits r
    → ApartFrom r ranges
    → AllSit ranges
    → ((va : ℕ)
        → ((n : ℕ) → 0 ≤ n → n < pages_of r.size → same_page (nth_va r.virtual_start n) va ≡ false)
        → slot_at s'.ram root va ≡ slot_at s.ram root va)
    → AllFree root s ranges
    → AllFree root s' ranges
AllFree-kept root s s' r [] sits apart all others free = tt
AllFree-kept root s s' r (r' ∷ ranges) sits (here, apart) (sits', _, all) others (free, rest) = (
  λ n lo up.
      rw
        (others (nth_va r'.virtual_start n)
          (λ m lo' up'. Apart-same_page r r' m n sits sits' here up' up))
        (free n lo up),
  AllFree-kept root s s' r ranges sits apart all others rest,
)

abbrev pub OutsideAll : List AddressRange → ℕ → Type 0
OutsideAll [] va = Unit {0}
OutsideAll (r ∷ ranges) va =
    ((n : ℕ) → n < pages_of r.size → same_page (nth_va r.virtual_start n) va ≡ false)
    × OutsideAll ranges va

-- What mapping all the ranges does to the pages and the slots.
pub record AllMade (root : ℕ) (ranges : List AddressRange) (s : PagingState)
    (r : Option ℕ × PagingState) : Type 0 where
  pub ok : is_some r.0 ≡ true
  pub spent : pages_left s.allocator ≤ pages_left r.1.allocator + total_cost ranges
  pub others : (va : ℕ) → OutsideAll ranges va → slot_at r.1.ram root va ≡ slot_at s.ram root va

module _ (root : ℕ) where
  and_rest :
      (r : AddressRange) (ranges : List AddressRange) (s s' : PagingState) (o : Option (Unit {0}))
      → Succeeds root r.virtual_start 0
          (pages_of r.size)
          (range_cost r.virtual_start r.size)
          s
          (o, s')
      → AllMade root ranges s' (map_all (to_ptr early root) ranges s')
      → AllMade root (r ∷ ranges) s (and_then o s' λ _. map_all (to_ptr early root) ranges)
  and_rest r ranges s s' none made rest = absurd (ground (arith, made.ok))
  and_rest r ranges s s' (some u) made rest = record {
    ok = rest.ok;
    spent = omega (arith, made.spent, rest.spent);
    others = λ va (out, outs). rest.others va outs ∙ made.others va (λ n lo up. out n up);
  }

  pub map_all-AllMade :
      (ranges : List AddressRange) (owner : Owner) (s : PagingState)
      → AllFit ranges
      → AllSit ranges
      → IsTree root owner s
      → AllFree root s ranges
      → total_cost ranges ≤ pages_left s.allocator
      → AllMade root ranges s (map_all (to_ptr early root) ranges s)
  unfolding map_all paging_map_range_early
  map_all-AllMade [] owner s fits sits tree free enough = record {
    ok = refl;
    spent = omega arith;
    others = λ va out. refl;
  }
  map_all-AllMade (r ∷ ranges) owner s (fit, fits) (sit, apart, sits) tree (free, frees) enough =
      let out =
        map_range early (to_ptr early root) r.virtual_start r.physical_start r.size r.flags s in
      let ranged =
        map_range-Ranged early root r.virtual_start r.physical_start r.size r.flags owner s fit.leaf
          fit.small fit.size_max fit.inside tree in
      let made =
        map_range-Succeeds early root r.virtual_start r.physical_start r.size r.flags owner s
          fit.small (sit.virtual_aligned, sit.physical_aligned) fit.size_max fit.inside sit.top tree
          free (omega arith) in
      and_rest r ranges s out.1 out.0 made (
        map_all-AllMade ranges ranged.grown.owner' out.1 fits sits ranged.grown.tree
          (AllFree-kept root s out.1 r ranges sit apart sits made.others frees)
          (omega (arith, made.spent)))
