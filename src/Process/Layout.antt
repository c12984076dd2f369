-- ===== src/Process/Layout.antt =====
-- `process_memory_layout_init`: where the regions of a process lie.
use rv64i_operating_system.Base.{
  ℕ, ◌+◌, ◌*◌, ◌%◌, ◌^◌, ◌≤◌, ◌<◌, ◌≡◌, inl, inr, Option, none, some, arith, refl, ◌==◌, leb,
  if◌then◌else◌, max, sub64, add64, Bool-cases, Option-cases,
}
use rv64i_operating_system.Allocator.{align_up}
use rv64i_operating_system.Allocator.Align.{align_up-page}
use rv64i_operating_system.Paging.Range.{pages_of}
use rv64i_operating_system.User.{align_down}
use rv64i_operating_system.Process.{
  ProcessMemoryLayout, process_memory_layout_init, user_text_start, user_stack_top, flags_rx,
  flags_r, flags_rw, region_end,
}

-- The bytes of the pages that a size takes.
abbrev pub page_bytes : ℕ → ℕ
page_bytes size = 4096 * pages_of size

-- A stack has at least one page.
abbrev pub stack_bytes : ℕ → ℕ
stack_bytes size = max 4096 (page_bytes size)

module _ (text_size rodata_size data_size bss_size stack_size : ℕ) where
  abbrev pub heap_start_of : ℕ
  heap_start_of =
      user_text_start
      + page_bytes text_size
      + page_bytes rodata_size
      + page_bytes data_size
      + page_bytes bss_size

  -- The regions follow one another in whole pages from the start of user memory on, each with room
  -- for what was asked and with its own rights. The heap is empty, and there is a gap between it
  -- and the stack, which ends at the top.
  pub record IsLayout (l : ProcessMemoryLayout) : Type 0 where
    pub text_is :
        l.text ≡ record { start = user_text_start; size = page_bytes text_size; flags = flags_rx }
    pub rodata_is :
        l.rodata
        ≡ record { start = region_end l.text; size = page_bytes rodata_size; flags = flags_r }
    pub data_is :
        l.data_region
        ≡ record { start = region_end l.rodata; size = page_bytes data_size; flags = flags_rw }
    pub bss_is :
        l.bss
        ≡ record { start = region_end l.data_region; size = page_bytes bss_size; flags = flags_rw }
    pub heap_is : l.heap ≡ record { start = region_end l.bss; size = 0; flags = flags_rw }
    pub heap_start_is : l.heap.start ≡ heap_start_of
    pub gap : l.heap.start < l.stack.start
    pub stack_is :
        (l.stack.size ≡ stack_bytes stack_size)
        × (l.stack.flags ≡ flags_rw)
        × (l.stack.start + l.stack.size ≡ user_stack_top)
        × (l.stack.start % 4096 ≡ 0)
    pub ends :
        (l.stack_top ≡ user_stack_top) × (l.heap_break ≡ l.heap.start) × (l.entry ≡ l.text.start)

  pub data Laid : Option ProcessMemoryLayout → Type 0 where
    refused : user_stack_top ≤ heap_start_of + stack_bytes stack_size → Laid none
    laid :
        (l : ProcessMemoryLayout)
        → heap_start_of + stack_bytes stack_size < user_stack_top
        → IsLayout l
        → Laid (some l)

  stack_rounded :
      stack_size ≤ user_stack_top
      → (if align_up stack_size 4096 == 0 then 4096 else align_up stack_size 4096)
        ≡ stack_bytes stack_size
  stack_rounded h = ground (arith, align_up-page stack_size)

  -- For sizes below 2^38 and a stack that is not larger than user memory,
  -- `process_memory_layout_init` gives a layout exactly when the regions and the stack fit below the
  -- top of user memory with a gap between them; else it returns false.
  pub process_memory_layout_init-Laid :
      text_size ≤ 2 ^ 38
      → rodata_size ≤ 2 ^ 38
      → data_size ≤ 2 ^ 38
      → bss_size ≤ 2 ^ 38
      → stack_size ≤ user_stack_top
      → Laid (process_memory_layout_init text_size rodata_size data_size bss_size stack_size)
  unfolding process_memory_layout_init align_down region_end
  process_memory_layout_init-Laid t r d b k =
      let t' : align_up text_size 4096 ≡ page_bytes text_size =
        omega (arith, align_up-page text_size) in
      let r' : align_up rodata_size 4096 ≡ page_bytes rodata_size =
        omega (arith, align_up-page rodata_size) in
      let d' : align_up data_size 4096 ≡ page_bytes data_size =
        omega (arith, align_up-page data_size) in
      let b' : align_up bss_size 4096 ≡ page_bytes bss_size =
        omega (arith, align_up-page bss_size) in
      let heap =
        add64
          (add64 (add64 (add64 user_text_start (page_bytes text_size)) (page_bytes rodata_size))
            (page_bytes data_size))
          (page_bytes bss_size) in
      let heap_is : heap ≡ heap_start_of = omega arith in
      let start = sub64 user_stack_top (stack_bytes stack_size) in
      let stack_is : start + stack_bytes stack_size ≡ user_stack_top = omega arith in
      rw (t', r', d', b', stack_rounded k)
        (elim (Bool-cases (leb start heap)) [
          | inl full ↦ rw full (refused (ground arith))
          | inr room ↦ rw room (
              laid _ (ground arith) record {
                text_is = refl;
                rodata_is = refl;
                data_is = refl;
                bss_is = refl;
                heap_is = refl;
                heap_start_is = heap_is;
                gap = ground arith;
                stack_is = (refl, refl, stack_is, omega arith);
                ends = (refl, refl, refl);
              })
        ])

-- For a text of at most 2^38 bytes, no rodata, data or bss, and a stack size above the top of user
-- memory and at most 2^63: the stack is not refused. Its start wraps round, and the layout has a stack
-- region whose end lies below its start.
pub process_memory_layout_init-wraps :
    (text_size stack_size : ℕ)
    → text_size ≤ 2 ^ 38
    → user_stack_top < stack_size
    → stack_size ≤ 2 ^ 63
    → (l : ProcessMemoryLayout) × (process_memory_layout_init text_size 0 0 0 stack_size ≡ some l)
      × (region_end l.stack < l.stack.start)
unfolding process_memory_layout_init align_down region_end
process_memory_layout_init-wraps text_size stack_size t k top =
    elim (Option-cases (process_memory_layout_init text_size 0 0 0 stack_size)) [
      | inl gone ↦
          absurd (
            ground
              (arith, gone, align_up-page 0, align_up-page text_size, align_up-page stack_size))
      | inr (l, e) ↦ (
        l,
        e,
        ground (arith, e, align_up-page 0, align_up-page text_size, align_up-page stack_size),
      )
    ]
