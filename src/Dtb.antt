-- ===== src/Dtb.antt =====
-- src/utility/DTB.cpp: what the kernel learns from the device tree. The functions of libfdt are the
-- fields of `Libfdt`; a property is a pointer into the memory and a length.
pub mod Cells
pub mod Search
pub mod Discovery
pub mod Tests
use rv64i_operating_system.Base.{
  ℕ, zero, suc, ◌+◌, ◌-◌, ◌*◌, ◌/◌, ◌%◌, ◌^◌, Bool, true, false, not, ◌&&◌, ◌||◌, Option, none,
  some, List, [], ◌∷◌, ◌==◌, ltb, leb, if◌then◌else◌, bit_and, bit_or, add64, shl64, shr, u32,
}
use rv64i_operating_system.Ram.{Ram}
use rv64i_operating_system.Machine.{codes}
use rv64i_operating_system.Platform.{PlatformInfo}

-- An `int`. `negsuc n` is -(n + 1).
pub data ℤ : Type 0 where
  pos : ℕ → ℤ
  negsuc : ℕ → ℤ

abbrev pub is_negative : ℤ → Bool
is_negative (pos n) = false
is_negative (negsuc n) = true

-- The positive value of an `int`, or `none`.
abbrev pub positive : ℤ → Option ℕ
positive (pos n) = if n == 0 then none else some n
positive (negsuc n) = none

-- `fdt_getprop` is `none` for a null pointer, and else the pointer and the length.
pub record Libfdt : Type 0 where
  pub fdt_check_header : ℕ → ℤ
  pub fdt_path_offset : ℕ → List ℕ → ℤ
  pub fdt_address_cells : ℕ → ℤ → ℤ
  pub fdt_size_cells : ℕ → ℤ → ℤ
  pub fdt_next_node : ℕ → ℤ → ℤ
  pub fdt_getprop : ℕ → ℤ → List ℕ → Option (ℕ × ℤ)
  pub fdt32_to_cpu : ℕ → ℕ

-- A little-endian `uint32_t`.
unfoldable pub load32 : Ram → ℕ → ℕ
load32 ram a = ram a + 2 ^ 8 * ram (add64 a 1) + 2 ^ 16 * ram (add64 a 2) + 2 ^ 24 * ram (add64 a 3)

unfoldable pub be32_to_cpu : ℕ → ℕ
be32_to_cpu value =
    bit_or
      (bit_or (bit_or (u32 (bit_and value 0xff * 2 ^ 24)) (u32 (bit_and value 0xff00 * 2 ^ 8)))
        (shr (bit_and value 0xff_0000) 8))
      (shr (bit_and value 0xff00_0000) 24)

-- The text at the pointer begins with these bytes: a chain of `p[0] == … && p[1] == …`.
unfoldable pub starts_with : Ram → ℕ → List ℕ → Bool
starts_with ram p [] = true
starts_with ram p (c ∷ text) = ram p == c && starts_with ram (add64 p 1) text

-- while (i < compat_len && compatible[i] != '\0') ++i
unfoldable pub skip_string : Ram → ℕ → ℕ → ℕ → ℕ
skip_string ram compatible zero i = i
skip_string ram compatible (suc left) i =
    let rest = skip_string ram compatible left (i + 1) in
    if not (ram (add64 compatible i) == 0) then rest else i

-- `looks_like_uart` after the loop over the strings; `none` when the fuel is used up inside it.
unfoldable pub looks_like_uart : Ram → ℕ → ℕ → ℕ → ℕ → Option Bool
looks_like_uart ram compatible compat_len zero i = if ltb i compat_len then none else some false
looks_like_uart ram compatible compat_len (suc fuel) i =
    let s = add64 compatible i in
    let matched_ns16550 = starts_with ram s (codes "ns16550") in
    let matched_uart = starts_with ram s (codes "uart") in
    let next = skip_string ram compatible (compat_len - i) i + 1 in
    let rest = looks_like_uart ram compatible compat_len fuel next in
    if ltb i compat_len
    then (if matched_ns16550 || matched_uart then some true else rest)
    else some false

module _ (fdt : Libfdt) (ram : Ram) where
  -- The loop of `read_cells` with `left` cells to go.
  unfoldable pub read_cells_from : ℕ → ℕ → ℕ → ℕ
  read_cells_from cells zero value = value
  read_cells_from cells (suc left) value =
      read_cells_from (add64 cells 4) left
        (bit_or (shl64 value 32) (fdt.fdt32_to_cpu (load32 ram cells)))

  unfoldable pub read_cells : ℕ → ℕ → ℕ
  read_cells cells count = read_cells_from cells count 0

  -- The count of cells, or `none` for -1. The null pointer is 0.
  unfoldable pub root_cells : (ℕ → ℤ → ℤ) → ℕ → Option ℕ
  root_cells cells_of g_dtb =
      let root = fdt.fdt_path_offset g_dtb (codes "/") in
      if g_dtb == 0 then none else if is_negative root then none else positive (cells_of g_dtb root)

  unfoldable pub get_root_addr_cells : ℕ → Option ℕ
  get_root_addr_cells g_dtb = root_cells fdt.fdt_address_cells g_dtb

  unfoldable pub get_root_size_cells : ℕ → Option ℕ
  get_root_size_cells g_dtb = root_cells fdt.fdt_size_cells g_dtb

  -- The result, and the new `g_dtb`.
  unfoldable pub dtb_init : ℕ → Bool × ℕ
  dtb_init dtb = if dtb == 0 then (false, 0) else elim (fdt.fdt_check_header dtb) [
    | pos n ↦ if n == 0 then (true, dtb) else (false, 0)
    | negsuc n ↦ (false, 0)
  ]

  unfoldable pub is_memory_node : ℕ → ℕ → Bool
  is_memory_node g_dtb node = elim (fdt.fdt_getprop g_dtb (pos node) (codes "device_type")) [
    | none ↦ false
    | some (device_type, len) ↦ elim len [
      | negsuc n ↦ false
      | pos n ↦ leb 6 n && starts_with ram device_type (codes "memory")
    ]
  ]

  -- A `reg` property of at least `cells` cells, or `none`.
  unfoldable pub reg_of : ℕ → ℕ → ℕ → Option ℕ
  reg_of g_dtb node cells = elim (fdt.fdt_getprop g_dtb (pos node) (codes "reg")) [
    | none ↦ none
    | some (reg, reg_len) ↦ elim reg_len [
      | negsuc n ↦ none
      | pos n ↦ if ltb n (cells * 4) then none else some reg
    ]
  ]

  -- `for (node = fdt_next_node(…, node, …); node >= 0; …)` with a body that returns or goes on, or
  -- has used up its fuel. The outer `none` means that fuel ran out; the inner, that the walk has ended.
  unfoldable pub search_nodes :
      {A : Type 0} → ℕ → (ℕ → Option (Option A)) → ℕ → ℤ → Option (Option A)
  search_nodes g_dtb body zero node = none
  search_nodes g_dtb body (suc fuel) node = elim (fdt.fdt_next_node g_dtb node) [
    | negsuc n ↦ some none
    | pos next ↦ elim (body next) [
      | none ↦ none
      | some answer ↦ elim answer [
        | some found ↦ some (some found)
        | none ↦ search_nodes g_dtb body fuel (pos next)
      ]
    ]
  ]

  abbrev pub memory_body : ℕ → ℕ → Option (Option ℕ)
  memory_body g_dtb node = some (if is_memory_node g_dtb node then some node else none)

  -- What follows the search: the base and the size from `reg`.
  unfoldable pub memory_from : ℕ → ℕ → ℕ → Option ℕ → Option (ℕ × ℕ)
  memory_from g_dtb addr_cells size_cells none = none
  memory_from g_dtb addr_cells size_cells (some memory_node) =
      elim (reg_of g_dtb memory_node (addr_cells + size_cells)) [
        | none ↦ none
        | some reg ↦
            some (read_cells reg addr_cells, read_cells (add64 reg (4 * addr_cells)) size_cells)
      ]

  -- `some (some …)` for `return true`, and `some none` for `return false`, which leaves zeros.
  unfoldable pub dtb_get_memory_range : ℕ → ℕ → Option (Option (ℕ × ℕ))
  dtb_get_memory_range fuel g_dtb =
      if g_dtb == 0 then some none else elim (get_root_addr_cells g_dtb) [
        | none ↦ some none
        | some addr_cells ↦ elim (get_root_size_cells g_dtb) [
          | none ↦ some none
          | some size_cells ↦ elim (search_nodes g_dtb (memory_body g_dtb) fuel (negsuc 0)) [
            | none ↦ none
            | some memory_node ↦ some (memory_from g_dtb addr_cells size_cells memory_node)
          ]
        ]
      ]

  -- What follows the loop over the strings: the base, or `none` for `continue`.
  unfoldable pub uart_from : ℕ → ℕ → ℕ → Bool → Option ℕ
  uart_from g_dtb addr_cells node false = none
  uart_from g_dtb addr_cells node true = elim (reg_of g_dtb node addr_cells) [
    | none ↦ none
    | some reg ↦ some (read_cells reg addr_cells)
  ]

  -- One node of the search for the UART. Each round of the loop over the strings goes on by a byte at
  -- least, so that its fuel is the length of the property.
  unfoldable pub uart_body : ℕ → ℕ → ℕ → Option (Option ℕ)
  uart_body g_dtb addr_cells node = elim (fdt.fdt_getprop g_dtb (pos node) (codes "compatible")) [
    | none ↦ some none
    | some (compatible, compat_len) ↦ elim compat_len [
      | negsuc n ↦ some none
      | pos n ↦ elim (looks_like_uart ram compatible n n 0) [
        | none ↦ none
        | some matched ↦ some (uart_from g_dtb addr_cells node matched)
      ]
    ]
  ]

  unfoldable pub dtb_get_uart_base : ℕ → ℕ → Option (Option ℕ)
  dtb_get_uart_base fuel g_dtb =
      if g_dtb == 0 then some none else elim (get_root_addr_cells g_dtb) [
        | none ↦ some none
        | some addr_cells ↦ search_nodes g_dtb (uart_body g_dtb addr_cells) fuel (negsuc 0)
      ]

pub record ImageSymbols : Type 0 where
  pub kernel_start : ℕ
  pub kernel_end : ℕ
  pub bss_start : ℕ
  pub bss_end : ℕ

module _ (fdt : Libfdt) (ram : Ram) (symbols : ImageSymbols) (fuel : ℕ) where
  unfoldable pub with_symbols : PlatformInfo → PlatformInfo
  with_symbols platform = record platform {
    kernel_start = symbols.kernel_start;
    kernel_end = symbols.kernel_end;
    bss_start = symbols.bss_start;
    bss_end = symbols.bss_end;
  }

  -- The last step, from what `dtb_get_memory_range` gave.
  unfoldable pub finish_platform : PlatformInfo → Option (ℕ × ℕ) → Bool × PlatformInfo
  finish_platform platform none = (false, record platform { ram_base = 0; ram_size = 0 })
  finish_platform platform (some (base, size)) =
      (true, with_symbols (record platform { ram_base = base; ram_size = size }))

  -- The result and what is written to `platform`; `none` when a search has run out of fuel.
  unfoldable pub platform_info_init : PlatformInfo → ℕ → Option (Bool × PlatformInfo)
  platform_info_init old dtb =
      let dtb_size = be32_to_cpu (load32 ram (add64 dtb 4)) in
      let platform = record old {
        dtb_addr = dtb;
        dtb_size = dtb_size;
        dtb_end = add64 dtb dtb_size;
      } in
      let (ok, g_dtb) = dtb_init fdt ram dtb in
      if not ok then some (false, platform) else elim (dtb_get_uart_base fdt ram fuel g_dtb) [
        | none ↦ none
        | some none ↦ some (false, record platform { uart_base = 0 })
        | some (some uart_base) ↦ elim (dtb_get_memory_range fdt ram fuel g_dtb) [
          | none ↦ none
          | some range ↦ some (finish_platform (record platform { uart_base = uart_base }) range)
        ]
      ]
