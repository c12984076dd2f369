-- ===== src/Trap/Program/Tests.antt =====
-- A small program that prints two bytes of its own image.
use rv64i_operating_system.Base.{◌≡◌, arith, refl, inl, [], ◌∷◌}
use rv64i_operating_system.AddressMapping.{late, to_ptr}
use rv64i_operating_system.Paging.Start.{only_root}
use rv64i_operating_system.Paging.Tests.{root, fresh_tree, fresh_tree-IsTree}
use rv64i_operating_system.Machine.State.{Machine, done}
use rv64i_operating_system.Machine.Print.{printed}
use rv64i_operating_system.TrapFrame.{TrapFrame}
use rv64i_operating_system.Syscall.{finish}
use rv64i_operating_system.Syscall.Write.{without_nul}
use rv64i_operating_system.Process.{process_load_initial_user_program}
use rv64i_operating_system.Paging.View.{view}
use rv64i_operating_system.Process.View.{part}
use rv64i_operating_system.Process.Tests.{image, small_load}
use rv64i_operating_system.Trap.{
  trap_code, trap_is_interrupt, trap_from_user, supervisor_trap_handler,
}
use rv64i_operating_system.Trap.Tests.{trapped}
use rv64i_operating_system.Trap.Program.{IsWrite, supervisor_trap_handler-own_text}

abbrev machine : Machine
machine = record {
  memory = view root (process_load_initial_user_program image (to_ptr late root) fresh_tree).1;
  place = λ a. a;
  sstatus = 0x20;
  input = [];
  output = [];
}

-- write(1, text + 1, 2)
abbrev frame : TrapFrame
frame = record (trapped 8 0) { a1 = 0x40_0001; a2 = 2 }

frame-IsWrite : IsWrite frame
unfolding trap_code trap_is_interrupt trap_from_user
frame-IsWrite = record { exception = refl; user = refl; call = refl; number = refl; out = inl refl }

supervisor_trap_handler-own_text_example :
    supervisor_trap_handler frame machine
    ≡ done (finish frame 2) (printed machine (without_nul (part image 1 2)))
supervisor_trap_handler-own_text_example =
    supervisor_trap_handler-own_text root only_root image fresh_tree
      (record { entry = 0x40_0000; stack_top = 0x3f_ffff_f000 }) frame machine 1 (omega arith)
      fresh_tree-IsTree small_load refl frame-IsWrite refl (omega arith)

two_bytes : without_nul (part image 1 2) ≡ 1 ∷ 1 ∷ []
unfolding without_nul
two_bytes = refl
