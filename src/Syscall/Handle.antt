-- ===== src/Syscall/Handle.antt =====
-- `syscall_handle`: the frame that goes back to the user, and the calls that do not return.
use rv64i_operating_system.Base.{ℕ, ◌≡◌, ◌≢◌, ◌⊎◌, ◌++◌, arith, refl, ap, ◌∙◌}
use rv64i_operating_system.Machine.State.{Machine, done, halted}
use rv64i_operating_system.Machine.{codes, halt}
use rv64i_operating_system.Machine.Print.{
  printed, printed-printed, uart_puts_lem, print_hex-done, hex_digits,
}
use rv64i_operating_system.TrapFrame.{TrapFrame}
use rv64i_operating_system.Syscall.{syscall_exit, syscall_handle, finish, err_nosys}

pub syscall_exit_lem :
    {A : Type 0} (status : ℕ) (m : Machine)
    → syscall_exit {A = A} status m
      ≡ halted (
          printed m
            (codes "User task exited with status 0x" ++ (hex_digits 16 status ++ codes ".\n")))
unfolding syscall_exit halt
syscall_exit_lem status m =
    let text = codes "User task exited with status " in
    let number = codes "0x" ++ hex_digits 16 status in
    rw
      (
        uart_puts_lem text m refl,
        print_hex-done status (printed m text),
        uart_puts_lem (codes ".\n") (printed (printed m text) number) refl,
      )
      (ap halted (
        printed-printed (printed m text) number (codes ".\n")
        ∙ printed-printed m text (number ++ codes ".\n")))

-- `exit` and `exit_group` never return: they report the status and stop the machine.
syscall_exit-halts :
    (frame : TrapFrame) (m : Machine)
    → (frame.a7 ≡ 93) ⊎ (frame.a7 ≡ 94)
    → syscall_handle frame m
      ≡ halted (
          printed m
            (codes "User task exited with status 0x" ++ (hex_digits 16 frame.a0 ++ codes ".\n")))
unfolding syscall_handle
syscall_exit-halts frame m call = ground (arith, syscall_exit_lem {A = TrapFrame} frame.a0 m)

-- Any other number but 63 and 64 returns -ENOSYS and changes nothing.
pub syscall_handle-unknown :
    (frame : TrapFrame) (m : Machine)
    → frame.a7 ≢ 63
    → frame.a7 ≢ 64
    → frame.a7 ≢ 93
    → frame.a7 ≢ 94
    → syscall_handle frame m ≡ done (finish frame err_nosys) m
unfolding syscall_handle
syscall_handle-unknown frame m a b c d = ground arith
