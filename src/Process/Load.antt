-- ===== src/Process/Load.antt =====
-- `process_load_initial_user_program`: the memory that the first user program finds.
use rv64i_operating_system.Base.{
  ℕ, ◌+◌, ◌-◌, ◌*◌, ◌/◌, ◌%◌, ◌^◌, ◌≤◌, ◌<◌, ◌≡◌, ◌≢◌, true, Option, none, some, List, arith, refl,
  ap, ◌∙◌, length, get_or,
}
use native.Mathlib.Decide.{ℕ_discrete}
use rv64i_operating_system.AddressMapping.{late, to_ptr}
use rv64i_operating_system.Pte.Fields.{leaf_flags}
use rv64i_operating_system.Paging.State.{PagingState}
use rv64i_operating_system.Paging.{query}
use rv64i_operating_system.Paging.Tree.{contents, Owner, IsTree, Grown-IsTable}
use rv64i_operating_system.Paging.Map.Query.{same_page_iff}
use rv64i_operating_system.Paging.Range.{nth_va}
use rv64i_operating_system.Process.{
  MemoryRegion, ProcessMemoryLayout, LoadedUserProgram, copy_into_region, user_text_start,
  user_stack_top, flags_rx, flags_rw,
}
use rv64i_operating_system.Process.Layout.{page_bytes}
use rv64i_operating_system.Process.Region.{Placed}
use rv64i_operating_system.Process.Copy.{Target, Copied, copy_into_region-Copied}

-- The page tables are still a tree, and no mapping is lost.
pub record Kept (root : ℕ) (s s' : PagingState) : Type 0 where
  pub owner : Owner
  pub tree : IsTree root owner s'
  pub keeps :
      (va pa f : ℕ)
      → query late s.ram (to_ptr late root) va ≡ (true, pa, f)
      → query late s'.ram (to_ptr late root) va ≡ (true, pa, f)

pub Kept-trans :
    {root : ℕ} {s s' s'' : PagingState} → Kept root s s' → Kept root s' s'' → Kept root s s''
Kept-trans k h = record {
  owner = h.owner;
  tree = h.tree;
  keeps = λ va pa f found. h.keeps va pa f (k.keeps va pa f found);
}

pub Placed-Kept :
    {root : ℕ} {owner : Owner} {region : MemoryRegion} {lo hi : ℕ} {s s' : PagingState}
    {o : Option (Unit {0})}
    → Placed root owner region lo hi s (o, s')
    → Kept root s s'
Placed-Kept p = record { owner = p.grown.owner'; tree = p.grown.tree; keeps = p.keeps }

-- Byte `j` of a region is mapped with the flags, and holds the value.
abbrev pub Holds : ℕ → PagingState → ℕ → ℕ → ℕ → Type 0
Holds root s va flags value =
    (pa : ℕ) × (query late s.ram (to_ptr late root) va ≡ (true, pa, leaf_flags flags))
    × (s.ram pa ≡ value)

-- What a successful load has set up.
pub record Loaded (root : ℕ) (image : List ℕ) (s s' : PagingState) (program : LoadedUserProgram)
    : Type 0 where
  pub program_is : program ≡ record { entry = user_text_start; stack_top = user_stack_top }
  pub text :
      (j : ℕ)
      → j < length image
      → Holds root s' (user_text_start + j) flags_rx (get_or image j 0 % 256)
  pub bss :
      (j : ℕ)
      → j < 4096
      → Holds root s' (user_text_start + page_bytes (length image) + j) flags_rw 0
  pub stack : (j : ℕ) → j < 4096 → Holds root s' (user_stack_top - 4096 + j) flags_rw 0

pub data Loads (root : ℕ) (image : List ℕ) (s : PagingState)
    : Option LoadedUserProgram × PagingState → Type 0 where
  failed : (s' : PagingState) → Kept root s s' → Loads root image s (none, s')
  loaded :
      (program : LoadedUserProgram) (s' : PagingState)
      → Kept root s s'
      → Loaded root image s s' program
      → Loads root image s (some program, s')

-- The physical address of byte `j` of a region.
abbrev byte_at : (ℕ → ℕ) → ℕ → ℕ
byte_at page_at j = page_at (j / 4096) + j % 4096

module _ {root : ℕ} {owner : Owner} {region : MemoryRegion} {hi : ℕ} {s s' : PagingState}
    (p : Placed root owner region 0 hi s (some tt, s')) (start : region.start % 4096 ≡ 0)
    (range : region.start + 4096 * hi < 2 ^ 39) where
  region_hit :
      (j : ℕ)
      → j < 4096 * hi
      → query late s'.ram (to_ptr late root) (region.start + j)
        ≡ (true, byte_at p.page_at j, leaf_flags region.flags)
  region_hit j h =
      let n = j / 4096 in
      let same = (same_page_iff (nth_va region.start n) (region.start + j)).1 (omega arith) in
      let offset : (region.start + j) % 4096 ≡ j % 4096 = omega arith in
      rw offset at ((p.pages n refl (omega arith) (omega arith)).hit (region.start + j) same)

  region_apart : (j k : ℕ) → j < k → k < 4096 * hi → byte_at p.page_at j ≢ byte_at p.page_at k
  region_apart j k lt h = elim (ℕ_discrete (j / 4096) (k / 4096)) [
    | yes same ↦ λ e. absurd (omega (arith, ap p.page_at same))
    | no other ↦ λ e. absurd (
        omega (arith, p.apart (j / 4096) (k / 4096) refl (omega arith) (omega arith) (omega arith)))
  ]

-- The four steps, all of which have succeeded up to the copy.
module _ {root : ℕ} {owner : Owner} {s s1 s2 s3 : PagingState} (image : List ℕ)
    (l : ProcessMemoryLayout) (n : ℕ) (room : length image ≤ 4096 * n)
    (text_start : l.text.start ≡ user_text_start) (text_flags : l.text.flags ≡ flags_rx)
    (range : user_text_start + 4096 * n + 8192 < user_stack_top)
    (bss_is : l.bss ≡ record { start = user_text_start + 4096 * n; size = 4096; flags = flags_rw })
    (stack_is : l.stack ≡ record { start = user_stack_top - 4096; size = 4096; flags = flags_rw })
    (p1 : Placed root owner l.text 0 n s (some tt, s1))
    (p2 : Placed root p1.grown.owner' l.bss 0 1 s1 (some tt, s2))
    (p3 : Placed root p2.grown.owner' l.stack 0 1 s2 (some tt, s3)) where
  pub text_at : ℕ → ℕ
  text_at = byte_at p1.page_at

  text_found :
      (j : ℕ)
      → j < 4096 * n
      → query late s3.ram (to_ptr late root) (user_text_start + j)
        ≡ (true, text_at j, leaf_flags flags_rx)
  unfolding text_at
  text_found j h =
      rw (text_start, text_flags) at
        (p3.keeps _ _ _ (p2.keeps _ _ _ (region_hit p1 (ground arith) (ground arith) j h)))

  text_Target :
      (j : ℕ) → j < length image → Target root p3.grown.owner' s3 (user_text_start + j) (text_at j)
  unfolding text_at
  text_Target j h =
      let there = p1.pages (j / 4096) refl (omega arith) (omega arith) in
      record {
        flags = leaf_flags flags_rx;
        page = p1.page_at (j / 4096);
        found = text_found j (omega arith);
        table = Grown-IsTable p3.grown contents _ (Grown-IsTable p2.grown contents _ there.table);
        from = omega arith;
        below = omega arith;
      }

  pub copied :
      Copied root p3.grown.owner' text_at 0 image s3
        (copy_into_region (to_ptr late root) user_text_start image s3)
  unfolding text_at
  copied =
      copy_into_region-Copied root p3.grown.owner' user_text_start text_at image s3
        (λ j k lt h. region_apart p1 (ground arith) (ground arith) j k lt (omega arith))
        (omega arith) p3.grown.tree text_Target

  -- A page that was taken later than the text is not written by the copy.
  copy_apart :
      (page b : ℕ)
      → page % 4096 ≡ 0
      → s1.allocator.current ≤ page
      → page ≤ b
      → (k : ℕ) → k < length image
      → text_at (0 + k) ≢ b
  unfolding text_at
  copy_apart page b aligned new from k h =
      let e : 0 + k ≡ k = omega arith in
      let there = p1.pages (k / 4096) refl (omega arith) (omega arith) in
      rw e (λ same. absurd (omega (arith, same, there.table.page, there.table.old)))

  abbrev r4 : Option (Unit {0}) × PagingState
  r4 = copy_into_region (to_ptr late root) user_text_start image s3

  pub text-Holds :
      (j : ℕ)
      → j < length image
      → Holds root r4.1 (user_text_start + j) flags_rx (get_or image j 0 % 256)
  unfolding text_at
  text-Holds j h =
      let e : 0 + j ≡ j = omega arith in
      (
        text_at j,
        copied.queries (user_text_start + j) ∙ text_found j (omega arith),
        rw e at (copied.written j h),
      )

  pub bss-Holds : (j : ℕ) → j < 4096 → Holds root r4.1 (user_text_start + 4096 * n + j) flags_rw 0
  bss-Holds j h =
      let there = p2.pages 0 refl (omega arith) (omega arith) in
      let start : l.bss.start ≡ user_text_start + 4096 * n = ap (λ r. r.start) bss_is in
      let flags : l.bss.flags ≡ flags_rw = ap (λ r. r.flags) bss_is in
      let zero_page : j / 4096 ≡ 0 = omega arith in
      let offset : j % 4096 ≡ j = omega arith in
      let b = p2.page_at 0 + j in
      (
        b,
        copied.queries (user_text_start + 4096 * n + j)
            ∙ rw (start, flags, zero_page, offset) at
                (p3.keeps _ _ _ (region_hit p2 (ground arith) (ground arith) j (omega arith))),
        copied.others b (copy_apart (p2.page_at 0) b (omega arith) there.new (omega arith))
            ∙ p3.grown.same_contents (p2.page_at 0) b there.table (omega arith) (omega arith)
            ∙ there.zeroed b (omega arith) (omega arith),
      )

  pub stack-Holds : (j : ℕ) → j < 4096 → Holds root r4.1 (user_stack_top - 4096 + j) flags_rw 0
  stack-Holds j h =
      let there = p3.pages 0 refl (omega arith) (omega arith) in
      let start : l.stack.start ≡ user_stack_top - 4096 = ap (λ r. r.start) stack_is in
      let flags : l.stack.flags ≡ flags_rw = ap (λ r. r.flags) stack_is in
      let zero_page : j / 4096 ≡ 0 = omega arith in
      let offset : j % 4096 ≡ j = omega arith in
      let b = p3.page_at 0 + j in
      (
        b,
        copied.queries (user_stack_top - 4096 + j)
            ∙ rw (start, flags, zero_page, offset) at
                (region_hit p3 (ground arith) (ground arith) j (omega arith)),
        copied.others b (
              copy_apart (p3.page_at 0) b (omega arith)
                (omega (arith, there.new, p2.grown.current_le)) (omega arith))
            ∙ there.zeroed b (omega arith) (omega arith),
      )

  pub final_Kept : Kept root s r4.1
  final_Kept = Kept-trans (Placed-Kept p1) (
      Kept-trans (Placed-Kept p2) (
        Kept-trans (Placed-Kept p3) record {
          owner = p3.grown.owner';
          tree = copied.tree;
          keeps = λ va pa f found. copied.queries va ∙ found;
        }))
