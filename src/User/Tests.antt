-- ===== src/User/Tests.antt =====
-- The context of a first program.
use rv64i_operating_system.Base.{◌≡◌, arith}
use rv64i_operating_system.Machine.State.{done}
use rv64i_operating_system.Machine.Tests.{machine}
use rv64i_operating_system.User.{UserContext, user_context_init}
use rv64i_operating_system.User.Context.{IsEntry, user_context_init-IsEntry}

user_context_init-IsEntry_example :
    (c : UserContext) × (user_context_init 0x40_0000 0x3f_ffff_f000 0 0x8220_0000 machine
      ≡ done c machine)
    × IsEntry 0x40_0000 0x3f_ffff_f000 0 0x8220_0000 0x20 c
user_context_init-IsEntry_example =
    user_context_init-IsEntry 0x40_0000 0x3f_ffff_f000 0 0x8220_0000 machine (omega arith)
