-- ===== src/Kernel/Alias.antt =====
-- The frames that the kernel's address space shows twice: the direct map has all of the RAM.
use rv64i_operating_system.Base.{
  ℕ, ◌+◌, ◌-◌, ◌*◌, ◌/◌, ◌%◌, ◌^◌, ◌≡◌, ◌≤◌, ◌<◌, true, Option, some, arith, ap, sub64,
}
use rv64i_operating_system.AddressMapping.{late, to_ptr, phys_to_virt}
use rv64i_operating_system.Platform.{PlatformInfo}
use rv64i_operating_system.Allocator.Page.{IsBounded}
use rv64i_operating_system.Pte.Fields.{leaf_flags}
use rv64i_operating_system.Paging.State.{PagingState}
use rv64i_operating_system.Paging.{query, paging_query}
use rv64i_operating_system.Paging.Map.Query.{same_page, same_page_iff}
use rv64i_operating_system.Paging.Range.{nth_va}
use rv64i_operating_system.Kernel.{KernelSymbols, KernelState, kernel_rx, kernel_rw, paging_init}
use rv64i_operating_system.Kernel.Ranges.{IsMapped}
use rv64i_operating_system.Kernel.Space.{
  IsPlaced, Inits, kept_off, switched, same_range, paging_init-Inits,
}

-- A byte of the RAM is reached through the direct map.
pub through_direct_map :
    (root : ℕ) (s : PagingState) (base size a : ℕ)
    → base % 4096 ≡ 0
    → base + size ≤ 2 ^ 38
    → (base ≤ a) × (a < base + size)
    → IsMapped late root s (record {
      virtual_start = phys_to_virt base;
      physical_start = base;
      size = size;
      flags = kernel_rw;
    })
    → query late s.ram (to_ptr late root) (phys_to_virt a) ≡ (true, a, leaf_flags kernel_rw)
unfolding phys_to_virt
through_direct_map root s base size a aligned top (low, high) mapped =
    let n = (a - base) / 4096 in
    let same : same_page (nth_va (phys_to_virt base) n) (phys_to_virt a) ≡ true =
      (same_page_iff (nth_va (phys_to_virt base) n) (phys_to_virt a)).1 (omega arith) in
    let byte : base + 4096 * n + phys_to_virt a % 4096 ≡ a = omega arith in
    rw byte at (mapped n (phys_to_virt a) (omega arith, same))

-- A byte of a section that is mapped to itself.
in_place :
    (root : ℕ) (s : PagingState) (start end flags a : ℕ)
    → start % 4096 ≡ 0
    → end ≤ 2 ^ 38
    → (start ≤ a) × (a < end)
    → IsMapped late root s (same_range start (sub64 end start) flags)
    → query late s.ram (to_ptr late root) a ≡ (true, a, leaf_flags flags)
in_place root s start end flags a aligned top (low, high) mapped =
    let n = (a - start) / 4096 in
    let same : same_page (nth_va start n) a ≡ true =
      (same_page_iff (nth_va start n) a).1 (omega arith) in
    let byte : start + 4096 * n + a % 4096 ≡ a = omega arith in
    rw byte at (mapped n a (omega arith, same))

module _ (symbols : KernelSymbols) (platform : PlatformInfo) (s : KernelState) where
  -- The two addresses of a byte of the text, and their rights.
  abbrev ShownTwice : ℕ → KernelState → ℕ → Type 0
  ShownTwice root s' a =
      (paging_query s'.paging.ram root a ≡ (true, a, leaf_flags kernel_rx))
      × (paging_query s'.paging.ram root (phys_to_virt a) ≡ (true, a, leaf_flags kernel_rw))

  Inits-ShownTwice :
      (r : Option ℕ × KernelState) (root : ℕ) (s' : KernelState) (a : ℕ)
      → Inits symbols platform s r
      → r ≡ (some root, s')
      → IsPlaced symbols platform
      → (symbols.text_start % 4096 ≡ 0) × (platform.ram_base % 4096 ≡ 0)
      → (symbols.text_start ≤ a) × (a < symbols.text_end)
      → (platform.ram_base ≤ a) × (a < platform.ram_base + platform.ram_size)
      → ShownTwice root s' a
  unfolding paging_query
  Inits-ShownTwice _ root s' a (kept_off _ e e') same placed aligned text ram =
      absurd (ground (arith, same))
  Inits-ShownTwice _ root s' a (switched root' s'' owner tree satp g all only) same placed aligned
        text ram =
      let pointer : to_ptr late root' ≡ root = ground (arith, same) in
      let state : s'' ≡ s' = ap (λ r. r.1) same in
      rw (← pointer, ← state)
        (
          in_place root' s''.paging symbols.text_start symbols.text_end kernel_rx a aligned.0
              placed.text.1 text all.0,
          through_direct_map root' s''.paging platform.ram_base platform.ram_size a aligned.1
              placed.ram ram all.1.1.1.1.1.1.0,
        )

  -- Where the text of the kernel lies in the RAM, and both start a page: after a `paging_init` that
  -- succeeds, each byte of the text is executable and not writable at its own address, and the same
  -- frame is writable at its address in the direct map.
  pub paging_init-ShownTwice :
      (root : ℕ) (s' : KernelState) (a : ℕ)
      → IsBounded s.paging.allocator
      → IsPlaced symbols platform
      → (symbols.text_start % 4096 ≡ 0) × (platform.ram_base % 4096 ≡ 0)
      → (symbols.text_start ≤ a) × (a < symbols.text_end)
      → (platform.ram_base ≤ a) × (a < platform.ram_base + platform.ram_size)
      → paging_init symbols platform s ≡ (some root, s')
      → (paging_query s'.paging.ram root a ≡ (true, a, leaf_flags kernel_rx))
        × (paging_query s'.paging.ram root (phys_to_virt a) ≡ (true, a, leaf_flags kernel_rw))
  paging_init-ShownTwice root s' a bounded placed aligned text ram made =
      Inits-ShownTwice _ root s' a (paging_init-Inits symbols platform s bounded placed) made placed
        aligned text ram
