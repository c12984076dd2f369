-- ===== src/Paging/Grow.antt =====
-- One level of the descent keeps the tree a tree and leaves every slot of the last level as it
-- was. On success its result is the table that the entry now points to.
mod Root
mod Level1
pub mod Supply
use Root.{root_link, same_slot, Grown-root}
use Level1.{level1_link, same_slots, Grown-level1, same_table, same_parent}
use rv64i_operating_system.Base.{ℕ, ◌<◌, ◌≡◌, Option, none, some, true, refl, arith, ap, sym}
use rv64i_operating_system.Ram.{Ram}
use rv64i_operating_system.AddressMapping.{Stage, to_ptr}
use rv64i_operating_system.Paging.State.{PagingState}
use rv64i_operating_system.Paging.Next.{Next, blocked, follow, exhausted, made, next_table-Next}
use rv64i_operating_system.Paging.{next_table}
use rv64i_operating_system.Paging.Tree.{Owner, child, Present, IsTree, slot, Grown, Grown-refl}

abbrev pub SameSlots : ℕ → PagingState → PagingState → Type 0
SameSlots root s s' =
    (i j k : ℕ) → i < 512 → j < 512 → k < 512 → slot s'.ram root i j k ≡ slot s.ram root i j k

abbrev pub Reached1 : Stage → Ram → ℕ → ℕ → Option ℕ → Type 0
Reached1 stage ram root i none = Unit
Reached1 stage ram root i (some p) = Present ram root i × (p ≡ to_ptr stage (child ram root i))

abbrev pub Reached0 : Stage → Ram → ℕ → ℕ → ℕ → Option ℕ → Type 0
Reached0 stage ram root i j none = Unit
Reached0 stage ram root i j (some p) =
    Present ram root i
    × Present ram (child ram root i) j
    × (p ≡ to_ptr stage (child ram (child ram root i) j))

grow_root :
    {stage : Stage} {root i : ℕ} {s : PagingState} {r : Option ℕ × PagingState} (owner : Owner)
    → IsTree root owner s
    → i < 512
    → Next stage root i s r
    → Grown root owner s r.1 × SameSlots root s r.1 × Reached1 stage r.1.ram root i r.0
grow_root owner tree h (blocked valid leaf) = (Grown-refl tree, λ i j k p q r. refl, tt)
grow_root owner tree h (follow valid pointer) =
    (Grown-refl tree, λ i j k p q r. refl, (valid, refl))
grow_root owner tree h (exhausted missing full) = (Grown-refl tree, λ i j k p q r. refl, tt)
grow_root {stage} {root} {i} {s} owner tree h (made page s' missing fresh bounded linked) =
    let link = root_link root owner s s' tree page fresh bounded i h missing linked in
    (
      Grown-root root owner s s' tree page fresh bounded i h missing linked,
      same_slot root owner s s' tree page fresh bounded i h missing linked,
      (link.0, ap (to_ptr stage) (sym link.2)),
    )

grow_level1 :
    {stage : Stage} {root j : ℕ} {s : PagingState} (owner : Owner) (i : ℕ)
    {r : Option ℕ × PagingState}
    → IsTree root owner s
    → i < 512
    → j < 512
    → Present s.ram root i
    → Next stage (child s.ram root i) j s r
    → Grown root owner s r.1 × SameSlots root s r.1 × Reached0 stage r.1.ram root i j r.0
grow_level1 owner i tree h h' parent (blocked valid leaf) =
    (Grown-refl tree, λ i j k p q r. refl, tt)
grow_level1 owner i tree h h' parent (follow valid pointer) =
    (Grown-refl tree, λ i j k p q r. refl, (parent, valid, refl))
grow_level1 owner i tree h h' parent (exhausted missing full) =
    (Grown-refl tree, λ i j k p q r. refl, tt)
grow_level1 {stage} {root} {j} {s} owner i tree h h' parent
      (made page s' missing fresh bounded linked) =
    let link = level1_link root owner s s' tree page fresh bounded i j h h' parent missing linked in
    let same = same_table root owner s s' tree page fresh bounded i j h h' parent missing linked in
    let up = same_parent root owner s s' tree page fresh bounded i j h h' parent missing linked in
    (
      Grown-level1 root owner s s' tree page fresh bounded i j h h' parent missing linked,
      same_slots root owner s s' tree page fresh bounded i j h h' parent missing linked,
      rw same (up, link.0, ap (to_ptr stage) (sym link.2)),
    )

-- The first level of the descent, in either stage.
pub next_table-root :
    (stage : Stage) (root i : ℕ) (owner : Owner) (s : PagingState)
    → IsTree root owner s
    → i < 512
    → let r = next_table stage (to_ptr stage root) i s in
      Grown root owner s r.1 × SameSlots root s r.1 × Reached1 stage r.1.ram root i r.0
next_table-root stage root i owner s tree h =
    grow_root owner tree h
      (next_table-Next stage root i s tree.root_is.page h tree.bounded tree.root_is.old)

-- The second level.
pub next_table-level1 :
    (stage : Stage) (root i j : ℕ) (owner : Owner) (s : PagingState)
    → IsTree root owner s
    → i < 512
    → j < 512
    → Present s.ram root i
    → let r = next_table stage (to_ptr stage (child s.ram root i)) j s in
      Grown root owner s r.1 × SameSlots root s r.1 × Reached0 stage r.1.ram root i j r.0
next_table-level1 stage root i j owner s tree h h' parent =
    let (_, c) = tree.level1 i h parent in
    grow_level1 owner i tree h h' parent
      (next_table-Next stage (child s.ram root i) j s c.page h' tree.bounded c.old)
