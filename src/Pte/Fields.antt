-- ===== src/Pte/Fields.antt =====
-- The indices and the fields as arithmetic, and the round trips between addresses and entries.
use rv64i_operating_system.Base.{
  ℕ, ◌+◌, ◌*◌, ◌/◌, ◌%◌, ◌^◌, ◌<◌, ◌≡◌, true, false, not, arith, bit_and, bit_or, ◌==◌,
}
use rv64i_operating_system.Base.Bits.{bit_and-low, bit_and-digit, bit_or-fields, bit_or-bit}
use rv64i_operating_system.Pte.{
  sv39_vpn2, sv39_vpn1, sv39_vpn0, pte_from_phys_addr, phys_addr_from_pte, pte_is_valid,
  pte_is_leaf, pte_v, pte_a, pte_d,
}

pub sv39_vpn2_lem : (va : ℕ) → sv39_vpn2 va ≡ va / 2 ^ 30 % 512
unfolding sv39_vpn2
sv39_vpn2_lem va = bit_and-low 9 (va / 2 ^ 30)

pub sv39_vpn1_lem : (va : ℕ) → sv39_vpn1 va ≡ va / 2 ^ 21 % 512
unfolding sv39_vpn1
sv39_vpn1_lem va = bit_and-low 9 (va / 2 ^ 21)

pub sv39_vpn0_lem : (va : ℕ) → sv39_vpn0 va ≡ va / 2 ^ 12 % 512
unfolding sv39_vpn0
sv39_vpn0_lem va = bit_and-low 9 (va / 2 ^ 12)

-- `& 1`, and `& 14` digit by digit.
bit_and-one : (a : ℕ) → bit_and a 1 ≡ a % 2
bit_and-one a = bit_and-low 1 a

pub bit_and-rwx : (a : ℕ) → bit_and a 14 ≡ a / 2 % 8 * 2
bit_and-rwx a = omega (arith, bit_and-digit a 14, bit_and-low 3 (a / 2))

pub phys_addr_from_pte_lem : (e : ℕ) → phys_addr_from_pte e ≡ e / 1024 % 2 ^ 44 * 4096
unfolding phys_addr_from_pte
phys_addr_from_pte_lem e = omega (arith, bit_and-low 44 (e / 1024))

pub pte_from_phys_addr_lem :
    (pa flags : ℕ)
    → pa < 2 ^ 56
    → flags < 1024
    → pte_from_phys_addr pa flags ≡ pa / 4096 * 1024 + flags
unfolding pte_from_phys_addr
pte_from_phys_addr_lem pa flags h k =
    let e : pa / 4096 * 1024 % 2 ^ 64 ≡ pa / 4096 * 1024 = omega arith in
    rw e (bit_or-fields 10 (pa / 4096) flags k)

pub pte_is_valid_lem : (e : ℕ) → pte_is_valid e ≡ (e % 2 == 1)
unfolding pte_is_valid
pte_is_valid_lem e = ground (arith, bit_and-one e)

pub zero_not_valid : pte_is_valid 0 ≡ false
zero_not_valid = ground (arith, pte_is_valid_lem 0)

pub pte_is_leaf_lem : (e : ℕ) → pte_is_leaf e ≡ not (e / 2 % 8 == 0)
unfolding pte_is_leaf
pte_is_leaf_lem e = ground (arith, bit_and-rwx e)

-- `flags | PTE_V | PTE_A | PTE_D`, as `paging_map` stores them in a leaf.
abbrev pub leaf_flags : ℕ → ℕ
leaf_flags flags = bit_or (bit_or (bit_or flags pte_v) pte_a) pte_d

pub leaf_flags_lem :
    (flags : ℕ)
    → flags < 1024
    → (leaf_flags flags < 1024)
      × (leaf_flags flags % 2 ≡ 1)
      × (leaf_flags flags / 2 % 8 ≡ flags / 2 % 8)
leaf_flags_lem flags h = omega (
  arith,
  bit_or-bit 0 flags,
  bit_or-bit 6 (bit_or flags 1),
  bit_or-bit 7 (bit_or (bit_or flags 1) 64),
)

-- An entry that points to the next table.
pub pointer_pte :
    (page : ℕ)
    → page < 2 ^ 56
    → page % 4096 ≡ 0
    → let e = pte_from_phys_addr page pte_v in
      (pte_is_valid e ≡ true)
      × (pte_is_leaf e ≡ false)
      × (phys_addr_from_pte e ≡ page)
      × (e < 2 ^ 64)
pointer_pte page h k =
    let e = pte_from_phys_addr page pte_v in
    ground (
      arith,
      pte_from_phys_addr_lem page pte_v h (omega arith),
      pte_is_valid_lem e,
      pte_is_leaf_lem e,
      phys_addr_from_pte_lem e,
    )

-- What is read back from the entry that a mapping stores: it is valid, it is a leaf exactly if the
-- flags have a permission, and it holds the page and the flags.
pub leaf_pte :
    (page flags : ℕ)
    → page < 2 ^ 56
    → page % 4096 ≡ 0
    → flags < 1024
    → let e = pte_from_phys_addr page (leaf_flags flags) in
      (pte_is_valid e ≡ true)
      × (pte_is_leaf e ≡ pte_is_leaf flags)
      × (phys_addr_from_pte e ≡ page)
      × (bit_and e 0x3ff ≡ leaf_flags flags)
      × (e < 2 ^ 64)
leaf_pte page flags h k f =
    let e = pte_from_phys_addr page (leaf_flags flags) in
    ground (
      arith,
      leaf_flags_lem flags f,
      pte_from_phys_addr_lem page (leaf_flags flags) h,
      pte_is_valid_lem e,
      pte_is_leaf_lem e,
      pte_is_leaf_lem flags,
      phys_addr_from_pte_lem e,
      bit_and-low 10 e,
    )
