-- ===== src/Process.antt =====
-- src/kernel/ProcessMemory.cpp and src/kernel/ProcessLoader.cpp: the memory of a user process, and
-- the loading of the first one.
pub mod Layout
pub mod Region
pub mod Copy
pub mod Load
pub mod Program
pub mod View
pub mod Tests
use rv64i_operating_system.Base.{
  ℕ, zero, suc, ◌+◌, ◌-◌, ◌*◌, ◌/◌, ◌%◌, ◌^◌, not, ◌&&◌, Bool, Option, none, some, List, [], ◌∷◌,
  ◌==◌, ltb, leb, if◌then◌else◌, bit_and, bit_or, not64, add64, sub64, length,
}
use rv64i_operating_system.Ram.{Ram, store8}
use rv64i_operating_system.AddressMapping.{late, deref, phys_to_virt_ptr}
use rv64i_operating_system.Allocator.{align_up}
use rv64i_operating_system.Pte.{page_size, pte_r, pte_w, pte_x, pte_u}
use rv64i_operating_system.Paging.State.{
  PagingState, Step, fail, pure, and_then, ◌>>=◌, ◌>>◌, guard, get_ram, put_ram, alloc,
}
use rv64i_operating_system.Paging.{paging_map, paging_query}
use rv64i_operating_system.User.{align_down}

-- include/kernel/Constants.hpp
abbrev pub user_code_virtual_base : ℕ
user_code_virtual_base = 0x40_0000

abbrev pub user_text_start : ℕ
user_text_start = user_code_virtual_base

abbrev pub user_stack_top : ℕ
user_stack_top = 0x3f_ffff_f000

abbrev pub user_stack_size : ℕ
user_stack_size = 4096

pub record MemoryRegion : Type 0 where
  pub start : ℕ
  pub size : ℕ
  pub flags : ℕ

pub record ProcessMemoryLayout : Type 0 where
  pub text : MemoryRegion
  pub rodata : MemoryRegion
  pub data_region : MemoryRegion
  pub bss : MemoryRegion
  pub heap : MemoryRegion
  pub stack : MemoryRegion
  pub heap_break : ℕ
  pub stack_top : ℕ
  pub entry : ℕ

unfoldable pub region_end : MemoryRegion → ℕ
region_end region = add64 region.start region.size

abbrev pub flags_rx : ℕ
flags_rx = bit_or (bit_or pte_r pte_x) pte_u

abbrev pub flags_r : ℕ
flags_r = bit_or pte_r pte_u

abbrev pub flags_rw : ℕ
flags_rw = bit_or (bit_or pte_r pte_w) pte_u

-- The layout that is written through the reference, or `none` for `return false`, which leaves it.
unfoldable pub process_memory_layout_init : ℕ → ℕ → ℕ → ℕ → ℕ → Option ProcessMemoryLayout
process_memory_layout_init text_size rodata_size data_size bss_size stack_size =
    let text_size = align_up text_size page_size in
    let rodata_size = align_up rodata_size page_size in
    let data_size = align_up data_size page_size in
    let bss_size = align_up bss_size page_size in
    let stack_size = align_up stack_size page_size in
    let stack_size = if stack_size == 0 then page_size else stack_size in
    let text_start = user_text_start in
    let rodata_start = add64 text_start text_size in
    let data_start = add64 rodata_start rodata_size in
    let bss_start = add64 data_start data_size in
    let heap_start = add64 bss_start bss_size in
    let stack_top = align_down user_stack_top page_size in
    let stack_start = sub64 stack_top stack_size in
    if leb stack_start heap_start
    then none
    else some record {
      text = record { start = text_start; size = text_size; flags = flags_rx };
      rodata = record { start = rodata_start; size = rodata_size; flags = flags_r };
      data_region = record { start = data_start; size = data_size; flags = flags_rw };
      bss = record { start = bss_start; size = bss_size; flags = flags_rw };
      heap = record { start = heap_start; size = 0; flags = flags_rw };
      stack = record { start = stack_start; size = stack_size; flags = flags_rw };
      heap_break = heap_start;
      stack_top = stack_top;
      entry = text_start;
    }

-- for (i = 0; i < PAGE_SIZE; ++i) page_bytes[i] = 0, with `left` rounds to go.
unfoldable pub zero_bytes : ℕ → ℕ → ℕ → Ram → Ram
zero_bytes page_bytes zero i ram = ram
zero_bytes page_bytes (suc left) i ram =
    zero_bytes page_bytes left (i + 1) (store8 ram (deref late (add64 page_bytes i)) 0)

-- One round of the loop of `map_region`.
unfoldable pub map_fresh : ℕ → MemoryRegion → ℕ → Step (Unit {0})
map_fresh root region offset = do
  physical_page ← alloc
  guard (not (physical_page == 0))
  ram ← get_ram
  put_ram (zero_bytes (phys_to_virt_ptr physical_page) page_size 0 ram)
  paging_map root (add64 region.start offset) physical_page region.flags

-- The loop of `map_region` at `offset`. It ends with the fuel unused.
unfoldable pub map_region_loop : ℕ → MemoryRegion → ℕ → ℕ → Step (Unit {0})
map_region_loop root region zero offset = fail
map_region_loop root region (suc fuel) offset =
    let rest = map_region_loop root region fuel (add64 offset page_size) in
    if ltb offset region.size then map_fresh root region offset >> rest else pure tt

unfoldable pub map_region : ℕ → MemoryRegion → Step (Unit {0})
map_region root region = do
  guard (not (root == 0))
  guard (bit_and region.start (page_size - 1) == 0)
  guard (bit_and region.size (page_size - 1) == 0)
  map_region_loop root region (region.size / page_size + 1) 0

-- The loop of `copy_into_region` at index `i`, over the bytes of the source that are left.
unfoldable pub copy_bytes : ℕ → ℕ → ℕ → List ℕ → Step (Unit {0})
copy_bytes root virtual_address i [] = pure tt
copy_bytes root virtual_address i (byte ∷ source) = do
  ram ← get_ram
  let (found, physical_address, flags) = paging_query ram root (add64 virtual_address i)
  guard found
  put_ram (store8 ram (deref late (phys_to_virt_ptr physical_address)) byte)
  copy_bytes root virtual_address (i + 1) source

-- The list is `source` up to `size`.
unfoldable pub copy_into_region : ℕ → ℕ → List ℕ → Step (Unit {0})
copy_into_region root virtual_address source = do
  guard (not (root == 0 && not (length source == 0)))
  copy_bytes root virtual_address 0 source

pub record LoadedUserProgram : Type 0 where
  pub entry : ℕ
  pub stack_top : ℕ

-- `Option` as a step that does not touch the state.
abbrev pub option_step : {A : Type 0} → Option A → Step A
option_step none s = (none, s)
option_step (some a) s = (some a, s)

-- `image` is the program that the build embeds in the kernel.
unfoldable pub process_load_initial_user_program : List ℕ → ℕ → Step LoadedUserProgram
process_load_initial_user_program image root = do
  guard (not (root == 0))
  layout ← option_step (process_memory_layout_init (length image) 0 0 page_size user_stack_size)
  map_region root layout.text
  map_region root layout.bss
  map_region root layout.stack
  copy_into_region root layout.text.start image
  pure record { entry = layout.entry; stack_top = layout.stack_top }
