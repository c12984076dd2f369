-- ===== src/PagingTests/Tests.antt =====
-- The self test on the tables of a small kernel.
use rv64i_operating_system.Base.{refl, ◌≡◌, none, [], arith}
use rv64i_operating_system.Machine.State.{Machine, done, faulted}
use rv64i_operating_system.Machine.Print.{printed}
use rv64i_operating_system.Kernel.Tests.{
  symbols, platform, start, initialised, bounded, placed, init_lem,
}
use rv64i_operating_system.PagingTests.{
  test_page_walker, test_text_write_fault, test_rodata_write_fault,
}
use rv64i_operating_system.PagingTests.Faults.{test_write_fault-faulted}
use rv64i_operating_system.AddressMapping.{to_ptr}
use rv64i_operating_system.Paging.View.{view}
use rv64i_operating_system.PagingTests.Walk.{walk_text, test_page_walker_lem}

abbrev machine : Machine
machine = record { memory = λ a. none; place = λ a. a; sstatus = 0; input = []; output = [] }

test_page_walker_lem_example :
    test_page_walker symbols initialised.paging.ram 0xffff_ffc0_8221_0000 machine
    ≡ done tt (printed machine (walk_text symbols platform start))
test_page_walker_lem_example =
    test_page_walker_lem symbols platform start 0xffff_ffc0_8221_0000 initialised machine bounded
      placed init_lem (omega arith) (omega arith) (omega arith)

-- A machine on the new tables.
abbrev mapped : Machine
mapped = record machine { memory = view 0x8221_0000 initialised.paging }

test_write_fault-faulted_example :
    (test_text_write_fault symbols mapped ≡ faulted 0x8020_0000 mapped)
    × (test_rodata_write_fault symbols mapped ≡ faulted 0x8020_1000 mapped)
unfolding to_ptr
test_write_fault-faulted_example =
    test_write_fault-faulted symbols platform start 0x8221_0000 initialised mapped bounded placed
      init_lem refl (omega arith) (omega arith)
