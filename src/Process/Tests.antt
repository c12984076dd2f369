-- ===== src/Process/Tests.antt =====
-- A small program, its layout and its memory.
use rv64i_operating_system.Base.{ℕ, ◌<◌, ◌≡◌, some, List, [], ◌∷◌, arith, refl}
use rv64i_operating_system.Ram.{store8}
use rv64i_operating_system.AddressMapping.{late, to_ptr, deref, phys_to_virt_ptr}
use rv64i_operating_system.Allocator.{align_up}
use rv64i_operating_system.Allocator.Page.{pages_left}
use rv64i_operating_system.Paging.Range.Supply.{Succeeds}
use rv64i_operating_system.Pte.{pte_is_leaf}
use rv64i_operating_system.Paging.Start.{only_root}
use rv64i_operating_system.Paging.Tests.{
  root, fresh_tree, fresh_tree-IsTree, fresh_tree-free, paging_code,
}
use rv64i_operating_system.User.{align_down}
use rv64i_operating_system.Process.{
  MemoryRegion, ProcessMemoryLayout, process_memory_layout_init, region_end, zero_bytes, map_fresh,
  map_region_loop, map_region, copy_bytes, copy_into_region, process_load_initial_user_program,
}
use rv64i_operating_system.Process.Layout.{
  Laid, process_memory_layout_init-Laid, process_memory_layout_init-wraps,
}
use rv64i_operating_system.Process.Region.{Placed, map_region-Placed}
use rv64i_operating_system.Process.Region.Supply.{region_cost, map_region-Succeeds}
use rv64i_operating_system.Process.Load.{Loads}
use rv64i_operating_system.Process.Program.{process_load_initial_user_program-Loads}

process_memory_layout_init-Laid_example :
    Laid 5000 100 0 8192 4096 (process_memory_layout_init 5000 100 0 8192 4096)
process_memory_layout_init-Laid_example =
    process_memory_layout_init-Laid 5000 100 0 8192 4096 (omega arith) (omega arith) (omega arith)
      (omega arith) (omega arith)

process_memory_layout_init-wraps_example :
    (l : ProcessMemoryLayout) × (process_memory_layout_init 5000 0 0 0 0x40_0000_0000 ≡ some l)
    × (region_end l.stack < l.stack.start)
process_memory_layout_init-wraps_example =
    process_memory_layout_init-wraps 5000 0x40_0000_0000 (omega arith) (omega arith) (omega arith)

abbrev region : MemoryRegion
region = record { start = 0x40_0000; size = 0x2000; flags = 0x1a }

map_region-Placed_example :
    Placed root only_root region 0 2 fresh_tree (map_region (to_ptr late root) region fresh_tree)
unfolding pte_is_leaf
map_region-Placed_example =
    map_region-Placed root region 2 only_root fresh_tree refl (omega arith) (omega arith)
      (omega arith) (omega arith) fresh_tree-IsTree

room : pages_left fresh_tree.allocator ≡ 15
unfolding paging_code fresh_tree
room = refl

map_region-Succeeds_example :
    Succeeds root region.start 0 2
      (region_cost region.start 2)
      fresh_tree
      (map_region (to_ptr late root) region fresh_tree)
unfolding pte_is_leaf
map_region-Succeeds_example =
    map_region-Succeeds root 2 region refl (omega arith) (omega arith) (omega arith) (omega arith)
      (omega arith) only_root fresh_tree fresh_tree-IsTree (λ n lo up. fresh_tree-free _)
      (omega (arith, room))

abbrev pub image : List ℕ
image = 0x13 ∷ 0x01 ∷ 0x01 ∷ 0xff ∷ []

process_load_initial_user_program-Loads_example :
    Loads root image fresh_tree
      (process_load_initial_user_program image (to_ptr late root) fresh_tree)
process_load_initial_user_program-Loads_example =
    process_load_initial_user_program-Loads root only_root image fresh_tree (omega arith)
      fresh_tree-IsTree

-- All the code that a load goes through.
load_code : Unit {0}
unfolding paging_code process_memory_layout_init align_down align_up zero_bytes store8
    phys_to_virt_ptr deref map_fresh map_region_loop map_region copy_bytes copy_into_region
    process_load_initial_user_program
load_code = tt

pub small_load :
    (process_load_initial_user_program image (to_ptr late root) fresh_tree).0
    ≡ some record { entry = 0x40_0000; stack_top = 0x3f_ffff_f000 }
unfolding load_code fresh_tree
small_load = refl
