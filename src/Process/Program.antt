-- ===== src/Process/Program.antt =====
-- The whole of `process_load_initial_user_program`, on every branch.
pub mod Supply
use rv64i_operating_system.Base.{
  ℕ, ◌+◌, ◌-◌, ◌*◌, ◌^◌, ◌≤◌, ◌<◌, ◌≡◌, true, Option, none, some, List, arith, refl, ap, length,
}
use rv64i_operating_system.AddressMapping.{late, to_ptr}
use rv64i_operating_system.Pte.{pte_is_leaf}
use rv64i_operating_system.Paging.State.{PagingState, Step, and_then, ◌>>◌, pure}
use rv64i_operating_system.Paging.Tree.{Owner, IsTree}
use rv64i_operating_system.Paging.Map.Slots.{to_ptr-ne_zero}
use rv64i_operating_system.Paging.Range.{pages_of}
use rv64i_operating_system.Process.{
  ProcessMemoryLayout, LoadedUserProgram, map_region, copy_into_region,
  process_load_initial_user_program, user_text_start, user_stack_top, flags_rx, flags_rw,
  option_step, region_end,
}
use rv64i_operating_system.Process.Layout.{
  IsLayout, Laid, laid, refused, process_memory_layout_init-Laid, heap_start_of, stack_bytes,
}
use rv64i_operating_system.Process.Region.{Placed, map_region-Placed}
use rv64i_operating_system.Process.Load.{
  Kept-trans, Placed-Kept, Loads, failed, loaded, text-Holds, bss-Holds, stack-Holds, final_Kept,
  copied,
}

rx-Leaf : pte_is_leaf flags_rx ≡ true
unfolding pte_is_leaf
rx-Leaf = refl

rw-Leaf : pte_is_leaf flags_rw ≡ true
unfolding pte_is_leaf
rw-Leaf = refl

-- What follows the three mappings.
abbrev finish_load : ℕ → List ℕ → ProcessMemoryLayout → Step LoadedUserProgram
finish_load root image l = do
  copy_into_region (to_ptr late root) l.text.start image
  pure record { entry = l.entry; stack_top = l.stack_top }

module _ (root : ℕ) (image : List ℕ) (l : ProcessMemoryLayout)
    (room : heap_start_of (length image) 0 0 4096 4096 + stack_bytes 4096 < user_stack_top)
    (is : IsLayout (length image) 0 0 4096 4096 l) where
  abbrev n : ℕ
  n = pages_of (length image)

  bss_region : l.bss ≡ record { start = user_text_start + 4096 * n; size = 4096; flags = flags_rw }
  unfolding region_end
  bss_region = ground (arith, is.bss_is, is.data_is, is.rodata_is, is.text_is)

  stack_region : l.stack ≡ record { start = user_stack_top - 4096; size = 4096; flags = flags_rw }
  stack_region = ground (arith, is.stack_is)

  text_region : l.text ≡ record { start = user_text_start; size = 4096 * n; flags = flags_rx }
  text_region = is.text_is

  after_stack :
      {owner : Owner} {s s1 s2 : PagingState} (o : Option (Unit {0})) (s3 : PagingState)
      (p1 : Placed root owner l.text 0 n s (some tt, s1))
      (p2 : Placed root p1.grown.owner' l.bss 0 1 s1 (some tt, s2))
      → Placed root p2.grown.owner' l.stack 0 1 s2 (o, s3)
      → Loads root image s (and_then o s3 λ _. finish_load root image l)
  after_stack none s3 p1 p2 p3 =
      failed s3 (Kept-trans (Placed-Kept p1) (Kept-trans (Placed-Kept p2) (Placed-Kept p3)))
  after_stack (some mapped) s3 p1 p2 p3 =
      let start : l.text.start ≡ user_text_start = ap (λ r. r.start) text_region in
      let flags : l.text.flags ≡ flags_rx = ap (λ r. r.flags) text_region in
      let range : user_text_start + 4096 * n + 8192 < user_stack_top = omega (arith, room) in
      let covers : length image ≤ 4096 * n = omega arith in
      let done_copy = copied image l n covers start flags range bss_region stack_region p1 p2 p3 in
      let ends : (l.entry ≡ user_text_start) × (l.stack_top ≡ user_stack_top) =
        ground (arith, is.ends, start) in
      rw (start, done_copy.ok, ends.0, ends.1)
        (loaded _ (copy_into_region (to_ptr late root) user_text_start image s3).1
          (final_Kept image l n covers start flags range bss_region stack_region p1 p2 p3)
          record {
            program_is = refl;
            text = text-Holds image l n covers start flags range bss_region stack_region p1 p2 p3;
            bss = bss-Holds image l n covers start flags range bss_region stack_region p1 p2 p3;
            stack = stack-Holds image l n covers start flags range bss_region stack_region p1 p2 p3;
          })

  after_bss :
      {owner : Owner} {s s1 : PagingState} (o : Option (Unit {0})) (s2 : PagingState)
      (p1 : Placed root owner l.text 0 n s (some tt, s1))
      → Placed root p1.grown.owner' l.bss 0 1 s1 (o, s2)
      → Loads root image s
          (and_then o s2 λ _. map_region (to_ptr late root) l.stack >> finish_load root image l)
  after_bss none s2 p1 p2 = failed s2 (Kept-trans (Placed-Kept p1) (Placed-Kept p2))
  after_bss (some mapped) s2 p1 p2 =
      let r = map_region (to_ptr late root) l.stack s2 in
      let start : l.stack.start ≡ user_stack_top - 4096 = ap (λ r. r.start) stack_region in
      let size : l.stack.size ≡ 4096 = ap (λ r. r.size) stack_region in
      let flags : l.stack.flags ≡ flags_rw = ap (λ r. r.flags) stack_region in
      after_stack r.0 r.1 p1 p2 (
        map_region-Placed root l.stack 1 p2.grown.owner' s2 (rw flags rw-Leaf) (ground arith)
          (omega arith) (ground arith) (ground arith) p2.grown.tree)

  after_text :
      {owner : Owner} {s : PagingState} (o : Option (Unit {0})) (s1 : PagingState)
      → Placed root owner l.text 0 n s (o, s1)
      → Loads root image s (
          and_then o s1 λ _.
            map_region (to_ptr late root) l.bss
            >> (map_region (to_ptr late root) l.stack >> finish_load root image l))
  after_text none s1 p1 = failed s1 (Placed-Kept p1)
  after_text (some mapped) s1 p1 =
      let r = map_region (to_ptr late root) l.bss s1 in
      let start : l.bss.start ≡ user_text_start + 4096 * n = ap (λ r. r.start) bss_region in
      let size : l.bss.size ≡ 4096 = ap (λ r. r.size) bss_region in
      let flags : l.bss.flags ≡ flags_rw = ap (λ r. r.flags) bss_region in
      after_bss r.0 r.1 p1 (
        map_region-Placed root l.bss 1 p1.grown.owner' s1 (rw flags rw-Leaf) (ground arith)
          (omega arith) (ground arith) (ground arith) p1.grown.tree)

  after_layout :
      (owner : Owner) (s : PagingState)
      → IsTree root owner s
      → Loads root image s (
          and_then
            (map_region (to_ptr late root) l.text s).0
            (map_region (to_ptr late root) l.text s).1
            λ _.
              map_region (to_ptr late root) l.bss
              >> (map_region (to_ptr late root) l.stack >> finish_load root image l))
  after_layout owner s tree =
      let r = map_region (to_ptr late root) l.text s in
      let start : l.text.start ≡ user_text_start = ap (λ r. r.start) text_region in
      let size : l.text.size ≡ 4096 * n = ap (λ r. r.size) text_region in
      let flags : l.text.flags ≡ flags_rx = ap (λ r. r.flags) text_region in
      after_text r.0 r.1 (
        map_region-Placed root l.text n owner s (rw flags rx-Leaf) (ground arith)
          (omega (arith, room)) (ground arith) size tree)

from_layout :
    (root : ℕ) (owner : Owner) (image : List ℕ) (s : PagingState) (o : Option ProcessMemoryLayout)
    → IsTree root owner s
    → Laid (length image) 0 0 4096 4096 o
    → Loads root image s (
        and_then (option_step o s).0 (option_step o s).1 λ l.
          map_region (to_ptr late root) l.text
          >> (map_region (to_ptr late root) l.bss
              >> (map_region (to_ptr late root) l.stack >> finish_load root image l)))
from_layout root owner image s _ tree (refused full) =
    failed s record { owner = owner; tree = tree; keeps = λ va pa f found. found }
from_layout root owner image s _ tree (laid l room is) =
    after_layout root image l room is owner s tree

-- `process_load_initial_user_program` on a tree, for an image below 2^38 bytes: when it succeeds,
-- the program starts at the first byte of its text and at the top of the stack; every byte of the
-- image stands behind its address, readable and executable but not writable; and a page of zeros
-- follows for the bss, and one for the stack, both writable but not executable. Whether it succeeds
-- or not, the tables stay a tree and no mapping of the kernel is lost.
pub process_load_initial_user_program-Loads :
    (root : ℕ) (owner : Owner) (image : List ℕ) (s : PagingState)
    → length image ≤ 2 ^ 38
    → IsTree root owner s
    → Loads root image s (process_load_initial_user_program image (to_ptr late root) s)
unfolding process_load_initial_user_program
process_load_initial_user_program-Loads root owner image s fits tree =
    rw (to_ptr-ne_zero late root tree.root_pos tree.root_is.page.1) (
      from_layout root owner image s _ tree (
        process_memory_layout_init-Laid (length image) 0 0 4096 4096 fits (omega arith)
          (omega arith) (omega arith) (omega arith)))
