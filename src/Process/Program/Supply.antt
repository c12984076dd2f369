-- ===== src/Process/Program/Supply.antt =====
-- When the first program is loaded: enough pages, and free slots.
use rv64i_operating_system.Base.{
  ℕ, ◌+◌, ◌-◌, ◌*◌, ◌%◌, ◌^◌, ◌≤◌, ◌<◌, ◌≡◌, inl, inr, true, false, Option, none, some, List, arith,
  refl, ap, length, is_some, Bool-cases,
}
use rv64i_operating_system.AddressMapping.{late, to_ptr}
use rv64i_operating_system.Allocator.Page.{pages_left}
use rv64i_operating_system.Paging.State.{PagingState, and_then, ◌>>◌}
use rv64i_operating_system.Paging.Tree.{Owner, IsTree}
use rv64i_operating_system.Paging.Map.Slots.{to_ptr-ne_zero}
use rv64i_operating_system.Paging.Map.Query.{same_page, same_page_iff}
use rv64i_operating_system.Paging.Range.{nth_va, pages_of}
use rv64i_operating_system.Paging.Range.Supply.{RangeFree}
use rv64i_operating_system.Process.{
  ProcessMemoryLayout, map_region, process_load_initial_user_program, user_text_start,
  user_stack_top, flags_rx, flags_rw, option_step,
}
use rv64i_operating_system.Process.Layout.{
  IsLayout, Laid, laid, refused, process_memory_layout_init-Laid, heap_start_of, stack_bytes,
}
use rv64i_operating_system.Process.Region.{Placed, map_region-Placed}
use rv64i_operating_system.Process.Region.Supply.{region_cost, map_region-Succeeds}
use rv64i_operating_system.Process.Load.{copied}
use rv64i_operating_system.Process.Program.{
  rx-Leaf, rw-Leaf, finish_load, bss_region, stack_region, text_region,
}

-- Two pages that differ in user memory.
user_apart :
    (a b n m : ℕ)
    → a % 4096 ≡ 0
    → b % 4096 ≡ 0
    → a + 4096 * n < b + 4096 * m
    → b + 4096 * m < 2 ^ 38
    → same_page (nth_va a n) (nth_va b m) ≡ false
user_apart a b n m aligned aligned' lt top =
    elim (Bool-cases (same_page (nth_va a n) (nth_va b m))) [
      | inr e ↦ e
      | inl e ↦ let same = (same_page_iff (nth_va a n) (nth_va b m)).0 e in absurd (omega arith)
    ]

-- The slots that a program of `n` pages needs, and its pages.
pub record UserFree (root n : ℕ) (s : PagingState) : Type 0 where
  pub text : RangeFree s.ram root user_text_start 0 n
  pub bss : RangeFree s.ram root (user_text_start + 4096 * n) 0 1
  pub stack : RangeFree s.ram root (user_stack_top - 4096) 0 1

abbrev pub program_cost : ℕ → ℕ
program_cost n = region_cost user_text_start n + 6

module _ (root : ℕ) (image : List ℕ) (l : ProcessMemoryLayout)
    (room : heap_start_of (length image) 0 0 4096 4096 + stack_bytes 4096 < user_stack_top)
    (is : IsLayout (length image) 0 0 4096 4096 l) where
  abbrev n : ℕ
  n = pages_of (length image)

  stack_done :
      {owner : Owner} {s s1 s2 : PagingState} (o : Option (Unit {0})) (s3 : PagingState)
      (p1 : Placed root owner l.text 0 n s (some tt, s1))
      (p2 : Placed root p1.grown.owner' l.bss 0 1 s1 (some tt, s2))
      → Placed root p2.grown.owner' l.stack 0 1 s2 (o, s3)
      → is_some o ≡ true
      → is_some (and_then o s3 λ _. finish_load root image l).0 ≡ true
  stack_done none s3 p1 p2 p3 ok = absurd (ground (arith, ok))
  stack_done (some mapped) s3 p1 p2 p3 ok =
      let start : l.text.start ≡ user_text_start =
        ap (λ r. r.start) (text_region root image l room is) in
      let flags : l.text.flags ≡ flags_rx = ap (λ r. r.flags) (text_region root image l room is) in
      let range : user_text_start + 4096 * n + 8192 < user_stack_top = omega (arith, room) in
      let covers : length image ≤ 4096 * n = omega arith in
      let done_copy =
        copied image l n covers start flags range (bss_region root image l room is)
          (stack_region root image l room is) p1 p2 p3 in
      rw (start, done_copy.ok) refl

  bss_done :
      {owner : Owner} {s s1 : PagingState} (o : Option (Unit {0})) (s2 : PagingState)
      (p1 : Placed root owner l.text 0 n s (some tt, s1))
      → Placed root p1.grown.owner' l.bss 0 1 s1 (o, s2)
      → is_some o ≡ true
      → RangeFree s2.ram root (user_stack_top - 4096) 0 1
      → 3 ≤ pages_left s2.allocator
      → is_some
          (and_then o s2 λ _. map_region (to_ptr late root) l.stack >> finish_load root image l).0
        ≡ true
  bss_done none s2 p1 p2 ok free enough = absurd (ground (arith, ok))
  bss_done (some mapped) s2 p1 p2 ok free enough =
      let r = map_region (to_ptr late root) l.stack s2 in
      let is_stack = stack_region root image l room is in
      let start : l.stack.start ≡ user_stack_top - 4096 = ap (λ r. r.start) is_stack in
      let size : l.stack.size ≡ 4096 = ap (λ r. r.size) is_stack in
      let flags : l.stack.flags ≡ flags_rw = ap (λ r. r.flags) is_stack in
      let made =
        map_region-Succeeds root 1 l.stack (rw flags rw-Leaf) (ground arith) (ground arith)
          (omega arith) (ground arith) (ground arith) p2.grown.owner' s2 p2.grown.tree
          (rw start free) (omega arith) in
      stack_done r.0 r.1 p1 p2
        (map_region-Placed root l.stack 1 p2.grown.owner' s2 (rw flags rw-Leaf) (ground arith)
          (omega arith) (ground arith) (ground arith) p2.grown.tree)
        made.ok

  text_done :
      {owner : Owner} {s : PagingState} (o : Option (Unit {0})) (s1 : PagingState)
      → Placed root owner l.text 0 n s (o, s1)
      → is_some o ≡ true
      → RangeFree s1.ram root (user_text_start + 4096 * n) 0 1
      → RangeFree s1.ram root (user_stack_top - 4096) 0 1
      → 6 ≤ pages_left s1.allocator
      → is_some
          (and_then o s1 λ _.
            map_region (to_ptr late root) l.bss
            >> (map_region (to_ptr late root) l.stack >> finish_load root image l)).0
        ≡ true
  text_done none s1 p1 ok bss_free stack_free enough = absurd (ground (arith, ok))
  text_done (some mapped) s1 p1 ok bss_free stack_free enough =
      let r = map_region (to_ptr late root) l.bss s1 in
      let is_bss = bss_region root image l room is in
      let start : l.bss.start ≡ user_text_start + 4096 * n = ap (λ r. r.start) is_bss in
      let size : l.bss.size ≡ 4096 = ap (λ r. r.size) is_bss in
      let flags : l.bss.flags ≡ flags_rw = ap (λ r. r.flags) is_bss in
      let made =
        map_region-Succeeds root 1 l.bss (rw flags rw-Leaf) (ground arith) (ground arith)
          (omega arith) (omega (arith, start, room)) (ground arith) p1.grown.owner' s1 p1.grown.tree
          (rw start bss_free) (omega arith) in
      let apart : (k m : ℕ)
          → k < 1
          → m < 1
          → same_page (nth_va l.bss.start m) (nth_va (user_stack_top - 4096) k) ≡ false =
        λ k m up up'. rw start (
          user_apart (user_text_start + 4096 * n) (user_stack_top - 4096) m k (omega arith)
            (omega arith) (omega (arith, room)) (omega arith)) in
      bss_done r.0 r.1 p1
        (map_region-Placed root l.bss 1 p1.grown.owner' s1 (rw flags rw-Leaf) (ground arith)
          (omega arith) (ground arith) (ground arith) p1.grown.tree)
        made.ok
        (λ k lo up.
          rw (made.others (nth_va (user_stack_top - 4096) k) (λ m lo' up'. apart k m up up'))
            (stack_free k lo up))
        (omega (arith, made.spent))

  layout_done :
      (owner : Owner) (s : PagingState)
      → IsTree root owner s
      → UserFree root n s
      → program_cost n ≤ pages_left s.allocator
      → is_some
          (and_then
            (map_region (to_ptr late root) l.text s).0
            (map_region (to_ptr late root) l.text s).1
            λ _.
              map_region (to_ptr late root) l.bss
              >> (map_region (to_ptr late root) l.stack >> finish_load root image l)).0
        ≡ true
  layout_done owner s tree free enough =
      let r = map_region (to_ptr late root) l.text s in
      let is_text = text_region root image l room is in
      let start : l.text.start ≡ user_text_start = ap (λ r. r.start) is_text in
      let size : l.text.size ≡ 4096 * n = ap (λ r. r.size) is_text in
      let flags : l.text.flags ≡ flags_rx = ap (λ r. r.flags) is_text in
      let made =
        map_region-Succeeds root n l.text (rw flags rx-Leaf) (ground arith) (ground arith)
          (omega (arith, room)) (omega (arith, start, room)) size owner s tree (rw start free.text)
          (rw start (omega arith)) in
      let spent : pages_left s.allocator
          ≤ pages_left r.1.allocator + region_cost user_text_start n =
        omega (arith, made.spent, start) in
      let apart : (b k m : ℕ)
          → b % 4096 ≡ 0
          → user_text_start + 4096 * n ≤ b
          → b < 2 ^ 38 - 4096
          → k < 1
          → m < n
          → same_page (nth_va l.text.start m) (nth_va b k) ≡ false =
        λ b k m aligned from top up up'.
          rw start
            (user_apart user_text_start b m k (omega arith) aligned (omega arith) (omega arith)) in
      text_done r.0 r.1
        (map_region-Placed root l.text n owner s (rw flags rx-Leaf) (ground arith)
          (omega (arith, room)) (ground arith) size tree)
        made.ok
        (λ k lo up.
          rw
            (made.others (nth_va (user_text_start + 4096 * n) k) (λ m lo' up'.
              apart (user_text_start + 4096 * n) k m (omega arith) (omega arith)
                (omega (arith, room)) up up'))
            (free.bss k lo up))
        (λ k lo up.
          rw
            (made.others (nth_va (user_stack_top - 4096) k) (λ m lo' up'.
              apart (user_stack_top - 4096) k m (omega arith) (omega (arith, room)) (omega arith) up
                up'))
            (free.stack k lo up))
        (omega (arith, spent))

from_layout :
    (root : ℕ) (owner : Owner) (image : List ℕ) (s : PagingState) (o : Option ProcessMemoryLayout)
    → IsTree root owner s
    → heap_start_of (length image) 0 0 4096 4096 + stack_bytes 4096 < user_stack_top
    → UserFree root (pages_of (length image)) s
    → program_cost (pages_of (length image)) ≤ pages_left s.allocator
    → Laid (length image) 0 0 4096 4096 o
    → is_some
        (and_then (option_step o s).0 (option_step o s).1 λ l.
          map_region (to_ptr late root) l.text
          >> (map_region (to_ptr late root) l.bss
              >> (map_region (to_ptr late root) l.stack >> finish_load root image l))).0
      ≡ true
from_layout root owner image s _ tree fits free enough (refused full) = absurd (omega arith)
from_layout root owner image s _ tree fits free enough (laid l room is) =
    layout_done root image l room is owner s tree free enough

-- `process_load_initial_user_program` on a tree succeeds for an image that fits into user memory,
-- with a page for the bss, one for the stack and a gap, if its addresses are not mapped and the
-- allocator has its pages and those of its tables.
pub process_load_initial_user_program-succeeds :
    (root : ℕ) (owner : Owner) (image : List ℕ) (s : PagingState)
    → IsTree root owner s
    → user_text_start + 4096 * pages_of (length image) + 8192 < user_stack_top
    → UserFree root (pages_of (length image)) s
    → program_cost (pages_of (length image)) ≤ pages_left s.allocator
    → is_some (process_load_initial_user_program image (to_ptr late root) s).0 ≡ true
unfolding process_load_initial_user_program
process_load_initial_user_program-succeeds root owner image s tree fits free enough =
    rw (to_ptr-ne_zero late root tree.root_pos tree.root_is.page.1) (
      from_layout root owner image s _ tree (omega arith) free enough (
        process_memory_layout_init-Laid (length image) 0 0 4096 4096 (omega arith) (omega arith)
          (omega arith) (omega arith) (omega arith)))
