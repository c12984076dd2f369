-- ===== src/AddressMapping.antt =====
-- include/utility/AddressMapping.hpp: physical addresses and the pointers that the kernel follows.
use rv64i_operating_system.Base.{ℕ, add64, sub64}

abbrev pub kernel_direct_map_base : ℕ
kernel_direct_map_base = 0xffff_ffc0_0000_0000

unfoldable pub phys_to_virt : ℕ → ℕ
phys_to_virt physical_address = add64 physical_address kernel_direct_map_base

unfoldable pub virt_to_phys : ℕ → ℕ
virt_to_phys virtual_address = sub64 virtual_address kernel_direct_map_base

unfoldable pub phys_to_virt_ptr : ℕ → ℕ
unfolding phys_to_virt
phys_to_virt_ptr physical_address = phys_to_virt physical_address

unfoldable pub phys_to_ptr_early : ℕ → ℕ
phys_to_ptr_early physical_address = physical_address

-- Before `satp` is written a pointer is a physical address. Afterwards the kernel reaches a
-- physical page through the direct map.
pub data Stage : Type 0 where
  early late : Stage

-- The pointer that the code makes of a physical address in each stage.
unfoldable pub to_ptr : Stage → ℕ → ℕ
unfolding phys_to_ptr_early phys_to_virt_ptr
to_ptr early physical_address = phys_to_ptr_early physical_address
to_ptr late physical_address = phys_to_virt_ptr physical_address

-- The physical address that a pointer of each stage leads to.
unfoldable pub deref : Stage → ℕ → ℕ
unfolding virt_to_phys
deref early pointer = pointer
deref late pointer = virt_to_phys pointer
