-- ===== src/Dtb/Tests.antt =====
-- The device tree code on a tree of three nodes: the root, the memory and a UART.
use rv64i_operating_system.Base.{
  ℕ, ◌%◌, ◌≡◌, ◌↔◌, Bool, true, false, Option, none, some, List, [], ◌∷◌, refl, arith, ◌==◌, ◌/◌,
  ◌&&◌, get_elem?, ◌++◌, if◌then◌else◌, is_some, add64,
}
use rv64i_operating_system.Ram.{Ram}
use rv64i_operating_system.Machine.{codes}
use rv64i_operating_system.Platform.{PlatformInfo}
use rv64i_operating_system.Dtb.{
  ℤ, Libfdt, load32, be32_to_cpu, looks_like_uart, dtb_init, ImageSymbols, platform_info_init,
}
use rv64i_operating_system.Dtb.Search.{Walk, NamesUart, looks_like_uart-NamesUart}
use rv64i_operating_system.Dtb.Discovery.{platform_info_init-returns}

abbrev byte_in : List ℕ → ℕ → ℕ
byte_in bytes i = elim (get_elem? bytes i) [ some b ↦ b | none ↦ 0 ]

abbrev same_text : List ℕ → List ℕ → Bool
same_text [] [] = true
same_text (a ∷ s) (b ∷ t) = a == b && same_text s t
same_text [] (b ∷ t) = false
same_text (a ∷ s) [] = false

-- The total size, the two texts and the two `reg` properties, 256 bytes each.
abbrev pub image : Ram
image a =
    if a / 256 == 1
    then byte_in (0xd0 ∷ 0x0d ∷ 0xfe ∷ 0xed ∷ 0 ∷ 0 ∷ 0x12 ∷ 0x34 ∷ []) (a % 256)
    else if a / 256 == 2
    then byte_in (codes "memory") (a % 256)
    else if a / 256 == 3
    then byte_in (codes "a" ++ 0 ∷ codes "uart") (a % 256)
    else if a / 256 == 4
    then byte_in (0 ∷ 0 ∷ 0 ∷ 0 ∷ 0x80 ∷ 0 ∷ 0 ∷ 0 ∷ 0 ∷ 0 ∷ 0 ∷ 0 ∷ 8 ∷ []) (a % 256)
    else if a / 256 == 5
    then byte_in (0 ∷ 0 ∷ 0 ∷ 0 ∷ 0x10 ∷ 0 ∷ 0 ∷ 0 ∷ []) (a % 256)
    else 0

abbrev property_of : ℕ → List ℕ → Option (ℕ × ℤ)
property_of node name =
    if node == 8 && same_text name (codes "device_type")
    then some (0x200, ℤ.pos 7)
    else if node == 8 && same_text name (codes "reg")
    then some (0x400, ℤ.pos 16)
    else if node == 16 && same_text name (codes "compatible")
    then some (0x300, ℤ.pos 7)
    else if node == 16 && same_text name (codes "reg")
    then some (0x500, ℤ.pos 16)
    else none

abbrev pub tree : Libfdt
tree = record {
  fdt_check_header = λ dtb. ℤ.pos 0;
  fdt_path_offset = λ dtb path. ℤ.pos 0;
  fdt_address_cells = λ dtb node. ℤ.pos 2;
  fdt_size_cells = λ dtb node. ℤ.pos 2;
  fdt_next_node = λ dtb node. elim node [
    | ℤ.negsuc n ↦ ℤ.pos 0
    | ℤ.pos n ↦ if n == 0 then ℤ.pos 8 else if n == 8 then ℤ.pos 16 else ℤ.negsuc 0
  ];
  fdt_getprop = λ dtb node name. elim node [ ℤ.negsuc n ↦ none | ℤ.pos n ↦ property_of n name ];
  fdt32_to_cpu = be32_to_cpu;
}

abbrev nodes : List ℕ
nodes = 0 ∷ 8 ∷ 16 ∷ []

tree-Walk : Walk tree 0x100 (ℤ.negsuc 0) nodes
tree-Walk = (refl, (refl, (refl, (0, refl))))

abbrev pub symbols : ImageSymbols
symbols = record {
  kernel_start = 0x8020_0000;
  kernel_end = 0x8024_0000;
  bss_start = 0x8023_0000;
  bss_end = 0x8023_8000;
}

abbrev empty_info : PlatformInfo
empty_info = record {
  ram_base = 0;
  ram_size = 0;
  uart_base = 0;
  dtb_addr = 0;
  dtb_size = 0;
  dtb_end = 0;
  kernel_start = 0;
  kernel_end = 0;
  bss_start = 0;
  bss_end = 0;
}

-- The null pointer is refused.
info_of_null : platform_info_init tree image symbols 4 empty_info 0 ≡ some (false, empty_info)
unfolding platform_info_init dtb_init load32 be32_to_cpu
info_of_null = refl

first_cell : be32_to_cpu (load32 image 0x400) ≡ 0
unfolding be32_to_cpu load32
first_cell = refl

second_cell : be32_to_cpu (load32 image (add64 0x400 4)) ≡ 0x8000_0000
unfolding be32_to_cpu load32
second_cell = refl

-- The witnesses.

looks_like_uart-NamesUart_example :
    ((b : Bool) × (looks_like_uart image 0x300 7 7 0 ≡ some b))
    × (looks_like_uart image 0x300 7 7 0 ≡ some true ↔ NamesUart image 0x300 7 0)
looks_like_uart-NamesUart_example = looks_like_uart-NamesUart image 0x300 7

platform_info_init-returns_example :
    is_some (platform_info_init tree image symbols 4 empty_info 0x100) ≡ true
platform_info_init-returns_example =
    platform_info_init-returns tree image symbols empty_info 0x100 nodes 4 tree-Walk (omega arith)
