-- ===== src/Pte.antt =====
-- The address and entry arithmetic of include/kernel/Paging.hpp and src/kernel/Paging.cpp: the
-- three indices of an Sv39 address, and the fields of a page table entry.
pub mod Fields
use rv64i_operating_system.Base.{ℕ, Bool, not, bit_and, bit_or, ◌==◌, shr, shl64}

abbrev pub page_size : ℕ
page_size = 4096

abbrev pub page_table_entries : ℕ
page_table_entries = 512

abbrev pub pte_v : ℕ
pte_v = 0x01

abbrev pub pte_r : ℕ
pte_r = 0x02

abbrev pub pte_w : ℕ
pte_w = 0x04

abbrev pub pte_x : ℕ
pte_x = 0x08

abbrev pub pte_u : ℕ
pte_u = 0x10

abbrev pub pte_a : ℕ
pte_a = 0x40

abbrev pub pte_d : ℕ
pte_d = 0x80

unfoldable pub sv39_vpn2 : ℕ → ℕ
sv39_vpn2 virtual_address = bit_and (shr virtual_address 30) 0x1ff

unfoldable pub sv39_vpn1 : ℕ → ℕ
sv39_vpn1 virtual_address = bit_and (shr virtual_address 21) 0x1ff

unfoldable pub sv39_vpn0 : ℕ → ℕ
sv39_vpn0 virtual_address = bit_and (shr virtual_address 12) 0x1ff

unfoldable pub pte_from_phys_addr : ℕ → ℕ → ℕ
pte_from_phys_addr physical_address flags =
    let ppn = shr physical_address 12 in bit_or (shl64 ppn 10) flags

unfoldable pub phys_addr_from_pte : ℕ → ℕ
phys_addr_from_pte pte = let ppn = bit_and (shr pte 10) 0xfff_ffff_ffff in shl64 ppn 12

unfoldable pub pte_is_valid : ℕ → Bool
pte_is_valid pte = not (bit_and pte pte_v == 0)

unfoldable pub pte_is_leaf : ℕ → Bool
pte_is_leaf pte = not (bit_and pte (bit_or (bit_or pte_r pte_w) pte_x) == 0)
