-- ===== src/Paging/Grow/Supply.antt =====
-- How many pages a level of the descent takes, and that it succeeds while there are enough.
use rv64i_operating_system.Paging.Grow.Root.{root_missing, root_taken}
use rv64i_operating_system.Paging.Grow.Level1.{level1_missing, level1_taken}
use rv64i_operating_system.Base.{
  ℕ, ◌+◌, ◌≤◌, ◌<◌, ◌≡◌, Option, none, some, true, false, refl, arith, is_some,
}
use rv64i_operating_system.AddressMapping.{Stage, to_ptr}
use rv64i_operating_system.Allocator.Page.{
  pages_left, pages_left-IsFresh, physical_alloc_page-none_left,
}
use rv64i_operating_system.Ram.{Ram}
use rv64i_operating_system.Pte.{pte_is_valid}
use rv64i_operating_system.Paging.Entry.{entry}
use rv64i_operating_system.Paging.State.{PagingState}
use rv64i_operating_system.Paging.Next.{Next, blocked, follow, exhausted, made, next_table-Next}
use rv64i_operating_system.Paging.{next_table}
use rv64i_operating_system.Paging.Tree.{Owner, child, Present, IsTree, missing}

-- The outcome `r` of a step on the way to the entries behind `i` and `j`: each page that it takes is
-- a table that is missing no more, and it succeeds if the pages suffice for all that are missing.
pub record Supplied {A : Type 0} (root i j : ℕ) (s : PagingState) (r : Option A × PagingState)
    : Type 0 where
  pub taken :
      is_some r.0 ≡ true
      → pages_left r.1.allocator + missing s.ram root i j
        ≡ pages_left s.allocator + missing r.1.ram root i j
  pub fewer :
      (i' j' : ℕ) → i' < 512 → j' < 512 → missing r.1.ram root i' j' ≤ missing s.ram root i' j'
  pub given : missing s.ram root i j ≤ pages_left s.allocator → is_some r.0 ≡ true

Supplied-follow :
    {A : Type 0} (root i j : ℕ) (s : PagingState) (a : A) → Supplied root i j s (some a, s)
Supplied-follow root i j s a = record {
  taken = λ e. refl;
  fewer = λ i' j' h h'. omega arith;
  given = λ enough. refl;
}

-- A failure that takes nothing, where the pages would not suffice.
Supplied-fail :
    {A : Type 0} (root i j : ℕ) (s : PagingState)
    → ¬ (missing s.ram root i j ≤ pages_left s.allocator)
    → Supplied {A = A} root i j s (none, s)
Supplied-fail root i j s few = record {
  taken = λ e. cc;
  fewer = λ i' j' h h'. omega arith;
  given = λ enough. absurd (few enough);
}

missing_top :
    (ram : Ram) (root i j : ℕ) → pte_is_valid (entry ram root i) ≡ false → missing ram root i j ≡ 2
unfolding missing
missing_top ram root i j gone = rw gone

missing_below :
    (ram : Ram) (root i j : ℕ)
    → Present ram root i
    → pte_is_valid (entry ram (child ram root i) j) ≡ false
    → missing ram root i j ≡ 1
unfolding missing
missing_below ram root i j here gone = rw (here, gone)

supply_root :
    {stage : Stage} {root i : ℕ} {s : PagingState} {r : Option ℕ × PagingState} (owner : Owner)
    (j : ℕ)
    → IsTree root owner s
    → i < 512
    → j < 512
    → Next stage root i s r
    → Supplied root i j s r
supply_root {root} {i} {s} owner j tree h h' (blocked valid leaf) =
    absurd (ground (arith, tree.level1 i h valid))
supply_root {root} {i} {s} owner j tree h h' (follow valid pointer) = Supplied-follow root i j s _
supply_root {root} {i} {s} owner j tree h h' (exhausted gone full) =
    Supplied-fail root i j s (λ enough. omega (
      arith,
      enough,
      missing_top s.ram root i j gone,
      physical_alloc_page-none_left s.allocator tree.bounded full,
    ))
supply_root {root} {i} {s} owner j tree h h' (made page s' gone fresh bounded linked) =
    let link = root_taken root owner s s' tree page fresh bounded i h gone linked j h' in
    record {
      taken = λ e. omega (arith, link, pages_left-IsFresh fresh);
      fewer = root_missing root owner s s' tree page fresh bounded i h gone linked;
      given = λ enough. refl;
    }

supply_level1 :
    {stage : Stage} {root j : ℕ} {s : PagingState} (owner : Owner) (i : ℕ)
    {r : Option ℕ × PagingState}
    → IsTree root owner s
    → i < 512
    → j < 512
    → Present s.ram root i
    → Next stage (child s.ram root i) j s r
    → Supplied root i j s r
supply_level1 {root} {j} {s} owner i tree h h' here (blocked valid leaf) =
    absurd (ground (arith, tree.level0 i j h h' here valid))
supply_level1 {root} {j} {s} owner i tree h h' here (follow valid pointer) =
    Supplied-follow root i j s _
supply_level1 {root} {j} {s} owner i tree h h' here (exhausted gone full) =
    Supplied-fail root i j s (λ enough. omega (
      arith,
      enough,
      missing_below s.ram root i j here gone,
      physical_alloc_page-none_left s.allocator tree.bounded full,
    ))
supply_level1 {root} {j} {s} owner i tree h h' here (made page s' gone fresh bounded linked) =
    let link = level1_taken root owner s s' tree page fresh bounded i j h h' here gone linked in
    record {
      taken = λ e. omega (arith, link, pages_left-IsFresh fresh);
      fewer = level1_missing root owner s s' tree page fresh bounded i j h h' here gone linked;
      given = λ enough. refl;
    }

pub next_table-Supplied_root :
    (stage : Stage) (root i j : ℕ) (owner : Owner) (s : PagingState)
    → IsTree root owner s
    → i < 512
    → j < 512
    → Supplied root i j s (next_table stage (to_ptr stage root) i s)
next_table-Supplied_root stage root i j owner s tree h h' =
    supply_root owner j tree h h'
      (next_table-Next stage root i s tree.root_is.page h tree.bounded tree.root_is.old)

pub next_table-Supplied_level1 :
    (stage : Stage) (root i j : ℕ) (owner : Owner) (s : PagingState)
    → IsTree root owner s
    → i < 512
    → j < 512
    → Present s.ram root i
    → Supplied root i j s (next_table stage (to_ptr stage (child s.ram root i)) j s)
next_table-Supplied_level1 stage root i j owner s tree h h' here =
    let (_, c) = tree.level1 i h here in
    supply_level1 owner i tree h h' here
      (next_table-Next stage (child s.ram root i) j s c.page h' tree.bounded c.old)
