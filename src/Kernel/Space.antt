-- ===== src/Kernel/Space.antt =====
-- The address space that `paging_init` leaves.
use rv64i_operating_system.Base.{
  ℕ, ◌+◌, ◌*◌, ◌/◌, ◌^◌, ◌≤◌, ◌<◌, ◌≡◌, inl, inr, true, Option, none, some, List, [], ◌∷◌, arith,
  refl, ap, sym, ◌∙◌, add64, sub64,
}
use rv64i_operating_system.Base.Bits.{bit_or-fields}
use rv64i_operating_system.AddressMapping.{Stage, early, late, to_ptr, phys_to_virt}
use rv64i_operating_system.Platform.{PlatformInfo}
use rv64i_operating_system.Csr.{csr_write_satp, make_satp_sv39}
use rv64i_operating_system.Allocator.{align_up}
use rv64i_operating_system.Allocator.Align.{align_up-page, bit_and-clear}
use rv64i_operating_system.Allocator.Page.{IsBounded}
use rv64i_operating_system.Pte.{page_size, pte_r, pte_is_leaf}
use rv64i_operating_system.Paging.State.{PagingState, and_then}
use rv64i_operating_system.Paging.{paging_create_root_table, query, not_found}
use rv64i_operating_system.Paging.Tree.{Owner, IsTree}
use rv64i_operating_system.Paging.Map.Query.{query-decode}
use rv64i_operating_system.Paging.Start.{
  Started, no_page, started, only_root, paging_create_root_table-Started,
}
use rv64i_operating_system.Kernel.{
  KernelSymbols, KernelState, kernel_rx, kernel_rw, page_base, kernel_tables, switch_tables,
  after_tables, paging_init,
}
use rv64i_operating_system.Kernel.Ranges.{
  AddressRange, Fits, AllFit, map_all, AllMapped, BehindAny, Covers, short, covered, map_all-Covers,
}

abbrev pub same_range : ℕ → ℕ → ℕ → AddressRange
same_range start size flags = record {
  virtual_start = start;
  physical_start = start;
  size = size;
  flags = flags;
}

-- Where the kernel, its devices and its memory are to appear, with which rights. Kernel, UART and
-- device tree are mapped to themselves, the RAM to the direct map.
abbrev pub kernel_ranges : KernelSymbols → PlatformInfo → List AddressRange
kernel_ranges symbols platform =
    let dtb_base = page_base platform.dtb_addr in
    same_range symbols.text_start (sub64 symbols.text_end symbols.text_start) kernel_rx
    ∷ same_range symbols.rodata_start (sub64 symbols.rodata_end symbols.rodata_start) pte_r
    ∷ same_range symbols.data_start (sub64 symbols.data_end symbols.data_start) kernel_rw
    ∷ same_range symbols.bss_start (sub64 symbols.bss_end symbols.bss_start) kernel_rw
    ∷ same_range (page_base platform.uart_base) page_size kernel_rw
    ∷ same_range dtb_base
        (sub64 (align_up (add64 platform.dtb_addr platform.dtb_size) page_size) dtb_base) kernel_rw
    ∷ record {
      virtual_start = phys_to_virt platform.ram_base;
      physical_start = platform.ram_base;
      size = platform.ram_size;
      flags = kernel_rw;
    }
    ∷ []

-- Sections end behind their starts, and everything lies below 2^38.
pub record IsPlaced (symbols : KernelSymbols) (platform : PlatformInfo) : Type 0 where
  pub text : (symbols.text_start ≤ symbols.text_end) × (symbols.text_end ≤ 2 ^ 38)
  pub rodata : (symbols.rodata_start ≤ symbols.rodata_end) × (symbols.rodata_end ≤ 2 ^ 38)
  pub initialised : (symbols.data_start ≤ symbols.data_end) × (symbols.data_end ≤ 2 ^ 38)
  pub bss : (symbols.bss_start ≤ symbols.bss_end) × (symbols.bss_end ≤ 2 ^ 38)
  pub uart : platform.uart_base < 2 ^ 38
  pub dtb : platform.dtb_addr + platform.dtb_size ≤ 2 ^ 38
  pub ram : platform.ram_base + platform.ram_size ≤ 2 ^ 38

page_base_lem : (a : ℕ) → a < 2 ^ 64 → page_base a ≡ a / 4096 * 4096
page_base_lem a h = omega (arith, bit_and-clear 12 52 a refl)

section-Fits :
    (start end flags : ℕ)
    → pte_is_leaf flags ≡ true
    → flags < 1024
    → (start ≤ end) × (end ≤ 2 ^ 38)
    → Fits (same_range start (sub64 end start) flags)
section-Fits start end flags leaf small (le, max) = record {
  leaf = leaf;
  small = small;
  size_max = omega arith;
  inside = omega arith;
}

pub kernel_ranges-Fit :
    (symbols : KernelSymbols) (platform : PlatformInfo)
    → IsPlaced symbols platform
    → AllFit (kernel_ranges symbols platform)
unfolding pte_is_leaf
kernel_ranges-Fit symbols platform p =
    let uart = page_base_lem platform.uart_base (omega (arith, p.uart)) in
    let dtb = page_base_lem platform.dtb_addr (omega (arith, p.dtb)) in
    let end = align_up-page (add64 platform.dtb_addr platform.dtb_size) in
    (
      section-Fits symbols.text_start symbols.text_end kernel_rx refl (omega arith) p.text,
      (
        section-Fits symbols.rodata_start symbols.rodata_end pte_r refl (omega arith) p.rodata,
        (
          section-Fits symbols.data_start symbols.data_end kernel_rw refl (omega arith)
              p.initialised,
          (
            section-Fits symbols.bss_start symbols.bss_end kernel_rw refl (omega arith) p.bss,
            (
              record {
                leaf = refl;
                small = omega arith;
                size_max = omega arith;
                inside = omega (arith, uart, p.uart);
              },
              (
                section-Fits (page_base platform.dtb_addr)
                    (align_up (add64 platform.dtb_addr platform.dtb_size) page_size) kernel_rw refl
                    (omega arith) (omega (arith, dtb, end, p.dtb), omega (arith, end, p.dtb)),
                (
                  record {
                    leaf = refl;
                    small = omega arith;
                    size_max = omega (arith, p.ram);
                    inside = omega (arith, p.ram);
                  },
                  tt,
                ),
              ),
            ),
          ),
        ),
      ),
    )

-- A tree answers alike in both stages.
query-stages :
    (stage stage' : Stage) (root va : ℕ) (owner : Owner) (s : PagingState)
    → IsTree root owner s
    → query stage s.ram (to_ptr stage root) va ≡ query stage' s.ram (to_ptr stage' root) va
query-stages stage stage' root va owner s tree =
    query-decode stage root va owner s tree ∙ sym (query-decode stage' root va owner s tree)

AllMapped-late :
    (root : ℕ) (owner : Owner) (s : PagingState) (ranges : List AddressRange)
    → IsTree root owner s
    → AllMapped early root s ranges
    → AllMapped late root s ranges
AllMapped-late root owner s [] tree all = tt
AllMapped-late root owner s (r ∷ ranges) tree (here, all) = (
  λ n va at. query-stages late early root va owner s tree ∙ here n va at,
  AllMapped-late root owner s ranges tree all,
)

-- How `paging_init` can end: with nothing switched, or on the new tables, which map the ranges and
-- nothing else.
pub data Inits (symbols : KernelSymbols) (platform : PlatformInfo) (s : KernelState)
    : Option ℕ × KernelState → Type 0 where
  kept_off :
      (s' : KernelState)
      → s'.csrs ≡ s.csrs
      → s'.g_kernel_root ≡ s.g_kernel_root
      → Inits symbols platform s (none, s')
  switched :
      (root : ℕ) (s' : KernelState) (owner : Owner)
      → IsTree root owner s'.paging
      → s'.csrs ≡ record s.csrs { satp = 8 * 2 ^ 60 + root / 4096 }
      → s'.g_kernel_root ≡ to_ptr late root
      → AllMapped late root s'.paging (kernel_ranges symbols platform)
      → ((va pa f : ℕ)
          → query late s'.paging.ram (to_ptr late root) va ≡ (true, pa, f)
          → BehindAny (kernel_ranges symbols platform) va pa f)
      → Inits symbols platform s (some (to_ptr late root), s')

make_satp_sv39_lem : (root : ℕ) → root < 2 ^ 38 → make_satp_sv39 root ≡ 8 * 2 ^ 60 + root / 4096
unfolding make_satp_sv39
make_satp_sv39_lem root h = omega (arith, bit_or-fields 60 8 (root / 4096) (omega arith))

module _ (symbols : KernelSymbols) (platform : PlatformInfo) (s : KernelState) where
  switch :
      (s0 : PagingState) (root : ℕ) (r : Option ℕ × PagingState)
      → ((va : ℕ) → query early s0.ram (to_ptr early root) va ≡ not_found)
      → Covers root (kernel_ranges symbols platform) s0 r
      → Inits symbols platform s (after_tables r.0 (record s { paging = r.1 }))
  unfolding switch_tables csr_write_satp to_ptr
  switch s0 root _ empty (short s') = kept_off _ refl refl
  switch s0 root _ empty (covered s' owner tree all keeps only) =
      switched root _ owner tree
        (ap (λ v. record s.csrs { satp = v }) (make_satp_sv39_lem root tree.root_is.page.1)) refl
        (AllMapped-late root owner s' (kernel_ranges symbols platform) tree all)
        (λ va pa f found.
          elim (only va pa f (query-stages early late root va owner s' tree ∙ found)) [
            | inl old ↦ cc (empty va)
            | inr behind ↦ behind
          ])

  from_root :
      (r : Option ℕ × PagingState)
      → IsPlaced symbols platform
      → Started s.paging r
      → let out = and_then r.0 r.1 (λ root. map_all root (kernel_ranges symbols platform)) in
        Inits symbols platform s (after_tables out.0 (record s { paging = out.1 }))
  from_root _ p (no_page e) = kept_off _ refl refl
  from_root _ p (started root s' tree from same nothing) = switch s' root _ (nothing early) (
      map_all-Covers root (kernel_ranges symbols platform) only_root s'
        (kernel_ranges-Fit symbols platform p) tree)

  -- `paging_init` from a bounded allocator, for a kernel, devices and memory below 2^38: if it
  -- succeeds, `satp` selects Sv39 with the new root, the root is reached through the direct map,
  -- each range of the kernel is mapped with its own rights, and every address that is mapped at all
  -- belongs to one of these ranges. If it fails, no CSR is written.
  pub paging_init-Inits :
      IsBounded s.paging.allocator
      → IsPlaced symbols platform
      → Inits symbols platform s (paging_init symbols platform s)
  unfolding paging_init kernel_tables map_all
  paging_init-Inits bounded p =
      from_root (paging_create_root_table s.paging) p
        (paging_create_root_table-Started s.paging bounded)
