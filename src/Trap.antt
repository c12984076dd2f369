-- ===== src/Trap.antt =====
-- src/kernel/TrapHandler.cpp and `supervisor_trap_handler` of src/kernel/Traps.cpp: what becomes of
-- a trap. A handler returns the frame that the trap entry restores.
pub mod Laws
pub mod Run
pub mod Program
pub mod Tests
use rv64i_operating_system.Base.{
  ℕ, ◌+◌, ◌*◌, ◌^◌, Bool, not, ◌==◌, if◌then◌else◌, bit_and, add64, shr, List,
}
use rv64i_operating_system.Machine.State.{
  Machine, Outcome, done, Kernel, pure, and_then, ◌>>=◌, ◌>>◌,
}
use rv64i_operating_system.Machine.{load8, debug_prints, debug_print_hex, codes, panic}
use rv64i_operating_system.TrapFrame.{TrapFrame}
use rv64i_operating_system.Syscall.{syscall_handle}

abbrev pub sstatus_spp : ℕ
sstatus_spp = 2 ^ 8

unfoldable pub panic_trap : List ℕ → TrapFrame → Kernel TrapFrame
panic_trap message frame = do
  debug_prints message
  debug_prints (codes "\nsepc: ")
  debug_print_hex frame.epc
  debug_prints (codes "\nscause: ")
  debug_print_hex frame.cause
  debug_prints (codes "\nstval: ")
  debug_print_hex frame.tval
  debug_prints (codes "\nsstatus: ")
  debug_print_hex frame.status
  debug_prints (codes "\n")
  panic (codes "panic_trap") (codes "Trap fatal.")

unfoldable pub trap_code : ℕ → ℕ
trap_code cause = bit_and cause 0x7fff_ffff_ffff_ffff

unfoldable pub trap_is_interrupt : ℕ → Bool
trap_is_interrupt cause = not (shr cause 63 == 0)

unfoldable pub trap_from_user : TrapFrame → Bool
trap_from_user frame = bit_and frame.status sstatus_spp == 0

-- The low half of the trapped instruction, as a little-endian `uint16_t`.
unfoldable pub advance_trap : TrapFrame → Kernel TrapFrame
advance_trap frame = do
  low ← load8 frame.epc
  high ← load8 (add64 frame.epc 1)
  let first_half = low + 256 * high
  pure (
      if not (bit_and first_half 0x3 == 0x3)
      then record frame { epc = add64 frame.epc 2 }
      else record frame { epc = add64 frame.epc 4 })

unfoldable pub handle_interrupt : TrapFrame → Kernel TrapFrame
handle_interrupt frame =
    let code = trap_code frame.cause in
    if code == 1
    then panic_trap (codes "Supervisor software interrupt observed: unimplemented.") frame
    else if code == 5
    then panic_trap (codes "Supervisor timer interrupt observed: unimplemented.") frame
    else if code == 9
    then panic_trap (codes "Supervisor external interrupt observed: unimplemented.") frame
    else panic_trap (codes "Unknown interrupt observed.") frame

unfoldable pub handle_supervisor_exception : TrapFrame → Kernel TrapFrame
handle_supervisor_exception frame =
    let code = trap_code frame.cause in
    if code == 0
    then panic_trap (codes "Supervisor instruction address misaligned.") frame
    else if code == 1
    then panic_trap (codes "Supervisor instruction access fault.") frame
    else if code == 2
    then panic_trap (codes "Supervisor illegal instruction.") frame
    else if code == 3
    then advance_trap frame
    else if code == 4
    then panic_trap (codes "Supervisor load address misaligned.") frame
    else if code == 5
    then panic_trap (codes "Supervisor load access fault.") frame
    else if code == 6
    then panic_trap (codes "Supervisor store/AMO address misaligned.") frame
    else if code == 7
    then panic_trap (codes "Supervisor store/AMO access fault.") frame
    else if code == 8
    then panic_trap (codes "ECALL from U-mode reached supervisor exception path unexpectedly.")
        frame
    else if code == 9
    then panic_trap (codes "Unexpected supervisor ecall.") frame
    else if code == 12
    then panic_trap (codes "Supervisor instruction page fault.") frame
    else if code == 13
    then panic_trap (codes "Supervisor load page fault.") frame
    else if code == 15
    then panic_trap (codes "Supervisor store/AMO page fault.") frame
    else panic_trap (codes "Unknown supervisor exception observed.") frame

unfoldable pub handle_user_exception : TrapFrame → Kernel TrapFrame
handle_user_exception frame =
    let code = trap_code frame.cause in
    if code == 0
    then panic_trap (codes "User instruction address misaligned.") frame
    else if code == 1
    then panic_trap (codes "User instruction access fault.") frame
    else if code == 2
    then panic_trap (codes "User illegal instruction.") frame
    else if code == 3
    then advance_trap frame
    else if code == 4
    then panic_trap (codes "User load address misaligned.") frame
    else if code == 5
    then panic_trap (codes "User load access fault.") frame
    else if code == 6
    then panic_trap (codes "User store/AMO address misaligned.") frame
    else if code == 7
    then panic_trap (codes "User store/AMO access fault.") frame
    else if code == 8
    then syscall_handle frame
    else if code == 12
    then panic_trap (codes "User instruction page fault.") frame
    else if code == 13
    then panic_trap (codes "User load page fault.") frame
    else if code == 15
    then panic_trap (codes "User store/AMO page fault.") frame
    else panic_trap (codes "Unknown user exception observed.") frame

unfoldable pub handle_exception : TrapFrame → Kernel TrapFrame
handle_exception frame =
    if trap_from_user frame then handle_user_exception frame else handle_supervisor_exception frame

unfoldable pub trap_handler : TrapFrame → Kernel TrapFrame
trap_handler frame =
    if trap_is_interrupt frame.cause then handle_interrupt frame else handle_exception frame

unfoldable pub supervisor_trap_handler : TrapFrame → Kernel TrapFrame
supervisor_trap_handler frame = do
  debug_prints (codes "Supervisor Trap Encountered\n")
  debug_prints (
      if trap_is_interrupt frame.cause
      then codes "Type: Interrupt\n"
      else codes "Type: Exception\n")
  debug_prints (codes "Origin: ")
  debug_prints (if trap_from_user frame then codes "User\n" else codes "Supervisor\n")
  debug_prints (codes "Code: ")
  debug_print_hex (trap_code frame.cause)
  debug_prints (codes "\n")
  debug_prints (codes "sepc: ")
  debug_print_hex frame.epc
  debug_prints (codes "\n")
  debug_prints (codes "stval: ")
  debug_print_hex frame.tval
  debug_prints (codes "\n")
  trap_handler frame

unfoldable pub machine_trap_handler : TrapFrame → Kernel TrapFrame
machine_trap_handler frame = do
  debug_prints (codes "Machine trap encountered\n")
  debug_prints (codes "mcause: ")
  debug_print_hex frame.cause
  debug_prints (codes "\n")
  debug_prints (codes "mepc: ")
  debug_print_hex frame.epc
  debug_prints (codes "\n")
  debug_prints (codes "mtval: ")
  debug_print_hex frame.tval
  debug_prints (codes "\n")
  panic (codes "machine_trap_handler") (codes "Machine trap observed, execution halted.")
