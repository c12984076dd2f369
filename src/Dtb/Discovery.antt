-- ===== src/Dtb/Discovery.antt =====
-- `platform_info_init`: it returns.
use rv64i_operating_system.Base.{
  ℕ, ◌<◌, ◌≡◌, true, false, Option, none, some, List, ◌==◌, refl, length, Bool-cases, Option-cases,
  is_some, inl, inr, ◌⊎◌,
}
use rv64i_operating_system.Ram.{Ram}
use rv64i_operating_system.Platform.{PlatformInfo}
use rv64i_operating_system.Dtb.{
  ℤ, Libfdt, get_root_addr_cells, get_root_size_cells, dtb_init, memory_body, memory_from,
  dtb_get_memory_range, uart_body, dtb_get_uart_base, ImageSymbols, platform_info_init,
}
use rv64i_operating_system.Dtb.Search.{Walk, ℤ-cases, search_nodes-returns, uart_body-Answers}

dtb_get_uart_base-returns :
    (fdt : Libfdt) (ram : Ram) (g_dtb : ℕ) (nodes : List ℕ) (fuel : ℕ)
    → Walk fdt g_dtb (ℤ.negsuc 0) nodes
    → length nodes < fuel
    → (o : Option ℕ) × (dtb_get_uart_base fdt ram fuel g_dtb ≡ some o)
unfolding dtb_get_uart_base
dtb_get_uart_base-returns fdt ram g_dtb nodes fuel walk enough = elim (Bool-cases (g_dtb == 0)) [
  | inl null ↦ rw null (none, refl)
  | inr real ↦ elim (Option-cases (get_root_addr_cells fdt ram g_dtb)) [
    | inl bad ↦ rw (real, bad) (none, refl)
    | inr (addr_cells, addr) ↦
        rw (real, addr)
          (search_nodes-returns fdt ram g_dtb (uart_body fdt ram g_dtb addr_cells) nodes
            (ℤ.negsuc 0) fuel (uart_body-Answers fdt ram g_dtb addr_cells) walk enough)
  ]
]

dtb_get_memory_range-returns :
    (fdt : Libfdt) (ram : Ram) (g_dtb : ℕ) (nodes : List ℕ) (fuel : ℕ)
    → Walk fdt g_dtb (ℤ.negsuc 0) nodes
    → length nodes < fuel
    → (o : Option (ℕ × ℕ)) × (dtb_get_memory_range fdt ram fuel g_dtb ≡ some o)
unfolding dtb_get_memory_range
dtb_get_memory_range-returns fdt ram g_dtb nodes fuel walk enough = elim (Bool-cases (g_dtb == 0)) [
  | inl null ↦ rw null (none, refl)
  | inr real ↦ elim (Option-cases (get_root_addr_cells fdt ram g_dtb)) [
    | inl bad ↦ rw (real, bad) (none, refl)
    | inr (addr_cells, addr) ↦ elim (Option-cases (get_root_size_cells fdt ram g_dtb)) [
      | inl bad ↦ rw (real, addr, bad) (none, refl)
      | inr (size_cells, size) ↦
          let (found, searched) =
            search_nodes-returns fdt ram g_dtb (memory_body fdt ram g_dtb) nodes (ℤ.negsuc 0) fuel
              (λ node. (_, refl)) walk enough in
          rw (real, addr, size, searched)
            (memory_from fdt ram g_dtb addr_cells size_cells found, refl)
    ]
  ]
]

dtb_init-cases :
    (fdt : Libfdt) (ram : Ram) (dtb : ℕ)
    → (dtb_init fdt ram dtb ≡ (false, 0)) ⊎ (dtb_init fdt ram dtb ≡ (true, dtb))
unfolding dtb_init
dtb_init-cases fdt ram dtb = elim (Bool-cases (dtb == 0)) [
  | inl null ↦ rw null (inl refl)
  | inr real ↦ elim (ℤ-cases (fdt.fdt_check_header dtb)) [
    | inl (n, header) ↦ elim (Bool-cases (n == 0)) [
      | inl good ↦ rw (real, header, good) (inr refl)
      | inr bad ↦ rw (real, header, bad) (inl refl)
    ]
    | inr (n, header) ↦ rw (real, header) (inl refl)
  ]
]

-- With fuel for every node of the walk, `platform_info_init` returns, whatever the tree holds: no
-- search uses its fuel up, nor does the loop over the strings of a property.
pub platform_info_init-returns :
    (fdt : Libfdt) (ram : Ram) (symbols : ImageSymbols) (old : PlatformInfo) (dtb : ℕ)
    (nodes : List ℕ) (fuel : ℕ)
    → Walk fdt dtb (ℤ.negsuc 0) nodes
    → length nodes < fuel
    → is_some (platform_info_init fdt ram symbols fuel old dtb) ≡ true
unfolding platform_info_init
platform_info_init-returns fdt ram symbols old dtb nodes fuel walk enough =
    elim (dtb_init-cases fdt ram dtb) [
      | inl refused ↦ rw refused refl
      | inr accepted ↦
          let (uart, searched) = dtb_get_uart_base-returns fdt ram dtb nodes fuel walk enough in
          let (range, ended) = dtb_get_memory_range-returns fdt ram dtb nodes fuel walk enough in
          elim (Option-cases uart) [
            | inl silent ↦ rw (accepted, searched, silent) refl
            | inr (uart_base, found) ↦ rw (accepted, searched, found, accepted, ended) refl
          ]
    ]
