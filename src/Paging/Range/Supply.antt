-- ===== src/Paging/Range/Supply.antt =====
-- When the mapping of a range succeeds, and how many pages its tables take.
use rv64i_operating_system.Base.{
  ℕ, zero, suc, ◌+◌, ◌-◌, ◌*◌, ◌/◌, ◌%◌, ◌^◌, ◌≤◌, ◌<◌, ◌≡◌, inl, inr, true, false, Option, none,
  some, arith, refl, ◌∙◌, ◌==◌, ltb, Bool-cases, is_some, add64,
}
use native.Mathlib.Decide.{ℕ_discrete}
use rv64i_operating_system.Ram.{Ram}
use rv64i_operating_system.AddressMapping.{Stage, to_ptr}
use rv64i_operating_system.Allocator.{align_up}
use rv64i_operating_system.Allocator.Align.{align_up-page}
use rv64i_operating_system.Allocator.Page.{pages_left}
use rv64i_operating_system.Pte.{page_size, pte_is_valid, sv39_vpn2, sv39_vpn1, sv39_vpn0}
use rv64i_operating_system.Pte.Fields.{sv39_vpn2_lem, sv39_vpn1_lem}
use rv64i_operating_system.Paging.State.{PagingState, Step, and_then}
use rv64i_operating_system.Paging.{map_page, map_pages, map_range}
use rv64i_operating_system.Paging.Tree.{Owner, IsTree, missing}
use rv64i_operating_system.Paging.Map.Slots.{IsMapping, slot_at, vpn-lt, map_page-Mapped}
use rv64i_operating_system.Paging.Map.Query.{same_page, same_page_iff}
use rv64i_operating_system.Paging.Map.Supply.{missing_at, map_page-Filled}
use rv64i_operating_system.Paging.Range.{nth_va, pages_of}

-- The tables that `k` pages after the page of `va` may need: one for each 2 MiB, and one for each
-- 1 GiB, that they begin.
abbrev pub tables_after : ℕ → ℕ → ℕ
tables_after va k =
    (va + 4096 * k) / 2 ^ 21 - va / 2 ^ 21 + ((va + 4096 * k) / 2 ^ 30 - va / 2 ^ 30)

pub missing_bounds :
    (ram : Ram) (root i j j' : ℕ)
    → (missing ram root i j ≤ 2) × (missing ram root i j ≡ 0 → missing ram root i j' ≤ 1)
unfolding missing
missing_bounds ram root i j j' = (ground arith, λ e. ground arith)

-- Where nothing is missing for a page, no more is for the next one than `tables_after` says.
pub missing_next :
    (ram : Ram) (root va : ℕ)
    → missing_at ram root va ≡ 0
    → missing_at ram root (va + 4096) ≤ tables_after va 1
missing_next ram root va none_missing =
    let va' = va + 4096 in
    let i = sv39_vpn2 va in
    let i' = sv39_vpn2 va' in
    let j = sv39_vpn1 va in
    let j' = sv39_vpn1 va' in
    let most = (missing_bounds ram root i' j' j').0 in
    elim (ℕ_discrete (va / 2 ^ 30) (va' / 2 ^ 30)) [
      | no ne ↦ omega (arith, most)
      | yes e ↦
          let same : i' ≡ i = omega (arith, sv39_vpn2_lem va, sv39_vpn2_lem va') in
          elim (ℕ_discrete (va / 2 ^ 21) (va' / 2 ^ 21)) [
            | yes e' ↦
                let same' : j' ≡ j = omega (arith, sv39_vpn1_lem va, sv39_vpn1_lem va') in
                rw (same, same') (omega (arith, none_missing))
            | no ne ↦
                let one : missing ram root i j' ≤ 1 =
                  (missing_bounds ram root i j j').1 none_missing in
                rw same (omega (arith, one))
          ]
    ]

-- A call of `map_page` leaves the slots of other pages alone.
pub slot-map_page :
    (stage : Stage) (root va pa flags va' : ℕ) (owner : Owner) (s : PagingState)
    → IsMapping pa flags
    → IsTree root owner s
    → same_page va va' ≡ false
    → slot_at (map_page stage (to_ptr stage root) va pa flags s).1.ram root va'
      ≡ slot_at s.ram root va'
unfolding same_page
slot-map_page stage root va pa flags va' owner s m tree other =
    let (lt2, lt1, lt0) = vpn-lt va' in
    let mapped = map_page-Mapped stage root va pa flags owner s m tree in
    ground (arith, mapped.slots (sv39_vpn2 va') (sv39_vpn1 va') (sv39_vpn0 va') lt2 lt1 lt0)

pub pages_apart : (vs n m : ℕ) → n < m → m < 2 ^ 27 → same_page (nth_va vs n) (nth_va vs m) ≡ false
pages_apart vs n m lt bound = elim (Bool-cases (same_page (nth_va vs n) (nth_va vs m))) [
  | inr e ↦ e
  | inl e ↦ let same = (same_page_iff (nth_va vs n) (nth_va vs m)).0 e in absurd (omega arith)
]

-- Pages `n` with `lo ≤ n < hi` of a range are mapped, and their tables take at most `budget` pages.
pub record Succeeds (root vs lo hi budget : ℕ) (s : PagingState)
    (r : Option (Unit {0}) × PagingState) : Type 0 where
  pub ok : is_some r.0 ≡ true
  pub spent : pages_left s.allocator ≤ pages_left r.1.allocator + budget
  pub fewer : (i j : ℕ) → i < 512 → j < 512 → missing r.1.ram root i j ≤ missing s.ram root i j
  pub others :
      (va : ℕ)
      → ((n : ℕ) → lo ≤ n → n < hi → same_page (nth_va vs n) va ≡ false)
      → slot_at r.1.ram root va ≡ slot_at s.ram root va

-- The pages that the tables of the range may take, from the state before it.
abbrev pub range_need : Ram → ℕ → ℕ → ℕ → ℕ → ℕ
range_need ram root vs lo hi =
    missing_at ram root (nth_va vs lo) + tables_after (nth_va vs lo) (hi - 1 - lo)

abbrev pub RangeFree : Ram → ℕ → ℕ → ℕ → ℕ → Type 0
RangeFree ram root vs lo hi =
    (n : ℕ) → lo ≤ n → n < hi → pte_is_valid (slot_at ram root (nth_va vs n)) ≡ false

-- One page at a cost, and then the others.
pub combine :
    (root vs hi n budget cost : ℕ) (s s' : PagingState) (o : Option (Unit {0}))
    (rest : Step (Unit {0}))
    → n < hi
    → is_some o ≡ true
    → pages_left s'.allocator + cost ≡ pages_left s.allocator
    → cost ≤ budget
    → ((i j : ℕ) → i < 512 → j < 512 → missing s'.ram root i j ≤ missing s.ram root i j)
    → ((va : ℕ)
        → same_page (nth_va vs n) va ≡ false
        → slot_at s'.ram root va ≡ slot_at s.ram root va)
    → Succeeds root vs (n + 1) hi (budget - cost) s' (rest s')
    → Succeeds root vs n hi budget s (and_then o s' λ _. rest)
combine root vs hi n budget cost s s' none rest lt ok count le fewer others tail =
    absurd (ground (arith, ok))
combine root vs hi n budget cost s s' (some u) rest lt ok count le fewer others tail = record {
  ok = tail.ok;
  spent = omega (arith, tail.spent);
  fewer = λ i j h h'. omega (arith, tail.fewer i j h h', fewer i j h h');
  others = λ va out.
      tail.others va (λ m lo up. out m (omega arith) up) ∙ others va (out n (omega arith) lt);
}

module _ (stage : Stage) (root vs ps flags hi : ℕ) (small : flags < 1024)
    (aligned : (vs % 4096 ≡ 0) × (ps % 4096 ≡ 0)) (range : hi < 2 ^ 27)
    (top : vs + 4096 * hi ≤ 2 ^ 64) (phys : ps + 4096 * hi ≤ 2 ^ 56) where
  pub map_pages-Succeeds :
      (f n budget : ℕ) (owner : Owner) (s : PagingState)
      → IsTree root owner s
      → n ≤ hi
      → hi < n + f
      → RangeFree s.ram root vs n hi
      → (n < hi → range_need s.ram root vs n hi ≤ budget)
      → budget ≤ pages_left s.allocator
      → Succeeds root vs n hi budget s
          (map_pages stage (to_ptr stage root) vs ps (4096 * hi) flags f (4096 * n) s)
  unfolding map_pages
  map_pages-Succeeds zero n budget owner s tree le fuel free need enough = absurd (omega arith)
  map_pages-Succeeds (suc f) n budget owner s tree le fuel free need enough =
      elim (Bool-cases (ltb (4096 * n) (4096 * hi))) [
        | inr done ↦ rw done (record {
          ok = refl;
          spent = omega arith;
          fewer = λ i j h h'. omega arith;
          others = λ va out. refl;
        })
        | inl more ↦
            let lt : n < hi = ground arith in
            let pa : add64 ps (4096 * n) ≡ ps + 4096 * n = omega arith in
            let next : add64 (4096 * n) page_size ≡ 4096 * (n + 1) = omega arith in
            let va = nth_va vs n in
            let m : IsMapping (ps + 4096 * n) flags = (omega arith, small) in
            let r = map_page stage (to_ptr stage root) va (ps + 4096 * n) flags s in
            let mapped = map_page-Mapped stage root va (ps + 4096 * n) flags owner s m tree in
            let filled =
              map_page-Filled stage root va (ps + 4096 * n) flags owner s m tree (omega arith)
                (omega arith) (free n (omega arith) lt) in
            let here : missing_at s.ram root va ≤ budget = omega (arith, need lt) in
            let ok = filled.supplied.given (omega arith) in
            let complete = filled.complete ok in
            let count : pages_left r.1.allocator + missing_at s.ram root va
                ≡ pages_left s.allocator =
              omega (arith, filled.supplied.taken ok) in
            let others = λ (va' : ℕ) (other : same_page va va' ≡ false).
              slot-map_page stage root va (ps + 4096 * n) flags va' owner s m tree other in
            let free' : RangeFree r.1.ram root vs (n + 1) hi = λ k lo up.
              rw (others (nth_va vs k) (pages_apart vs n k (omega arith) (omega arith)))
                (free k (omega arith) up) in
            let need' : n + 1 < hi
                → range_need r.1.ram root vs (n + 1) hi ≤ budget - missing_at s.ram root va =
              λ inside.
                (let after : nth_va vs (n + 1) ≡ va + 4096 = omega arith in
                  let bound = missing_next r.1.ram root va complete in
                  rw after (omega (arith, need lt, bound))) in
            rw (more, pa, next)
              (combine root vs hi n budget (missing_at s.ram root va) s r.1 r.0 _ lt ok count here
                filled.supplied.fewer others
                (map_pages-Succeeds f (n + 1) (budget - missing_at s.ram root va)
                  mapped.grown.owner' r.1 mapped.grown.tree (omega arith) (omega arith) free' need'
                  (omega arith)))
      ]

-- The pages that a range may take for its tables where none of them is there.
abbrev pub range_cost : ℕ → ℕ → ℕ
range_cost vs size = 2 + tables_after vs (pages_of size - 1)

-- A call of `paging_map_range` or `paging_map_range_early` on a tree succeeds if the range is
-- aligned, of at most 2^38 bytes, and ends below 2^64 and its physical addresses below 2^55, the
-- flags have ten bits, its slots are free, and the allocator has two pages, and one more for each
-- 2 MiB and each 1 GiB that the range begins later. It takes no more than these, and slots outside
-- the range are as before.
pub map_range-Succeeds :
    (stage : Stage) (root vs ps size flags : ℕ) (owner : Owner) (s : PagingState)
    → flags < 1024
    → (vs % 4096 ≡ 0) × (ps % 4096 ≡ 0)
    → size ≤ 2 ^ 38
    → ps + size < 2 ^ 55
    → vs + size ≤ 2 ^ 64
    → IsTree root owner s
    → RangeFree s.ram root vs 0 (pages_of size)
    → range_cost vs size ≤ pages_left s.allocator
    → Succeeds root vs 0
        (pages_of size)
        (range_cost vs size)
        s
        (map_range stage (to_ptr stage root) vs ps size flags s)
unfolding map_range
map_range-Succeeds stage root vs ps size flags owner s small aligned fits phys top tree free
      enough =
    elim (Bool-cases (size == 0)) [
      | inl empty ↦ rw empty (record {
        ok = refl;
        spent = omega arith;
        fewer = λ i j h h'. omega arith;
        others = λ va out. refl;
      })
      | inr some_bytes ↦
          let round : align_up size 4096 ≡ 4096 * pages_of size =
            omega (arith, align_up-page size) in
          let rounds : 4096 * pages_of size / 4096 ≡ pages_of size = omega arith in
          let pos : 0 < size = ground (arith, some_bytes) in
          let first : nth_va vs 0 ≡ vs = omega arith in
          let bound = (missing_bounds s.ram root (sv39_vpn2 vs) (sv39_vpn1 vs) 0).0 in
          rw (some_bytes, round, rounds)
            (map_pages-Succeeds stage root vs ps flags (pages_of size) small aligned (omega arith)
              (omega arith) (omega arith) (pages_of size + 1) 0 (range_cost vs size) owner s tree
              (omega arith) (omega arith) free (λ lt. rw first (omega (arith, bound))) enough)
    ]
