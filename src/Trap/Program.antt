-- ===== src/Trap/Program.antt =====
-- The first program, its memory as the page table shows it, and a trap of it.
mod Tests
use rv64i_operating_system.Base.{
  ℕ, ◌+◌, ◌*◌, ◌/◌, ◌^◌, ◌≤◌, ◌<◌, ◌≡◌, ◌⊎◌, true, false, Option, none, some, List, arith, refl, ap,
  ◌∙◌, length,
}
use rv64i_operating_system.AddressMapping.{late, to_ptr}
use rv64i_operating_system.Paging.State.{PagingState}
use rv64i_operating_system.Paging.Tree.{Owner, IsTree}
use rv64i_operating_system.Machine.State.{Machine, done}
use rv64i_operating_system.Machine.Print.{printed}
use rv64i_operating_system.TrapFrame.{TrapFrame}
use rv64i_operating_system.Syscall.{syscall_write, syscall_handle, finish}
use rv64i_operating_system.Syscall.Copy.{bytes_at}
use rv64i_operating_system.Syscall.Write.{without_nul, syscall_write-mapped}
use rv64i_operating_system.Process.{
  LoadedUserProgram, process_load_initial_user_program, user_text_start,
}
use rv64i_operating_system.Process.Load.{Loads, Loaded, failed, loaded}
use rv64i_operating_system.Process.Program.{process_load_initial_user_program-Loads}
use rv64i_operating_system.Paging.View.{view}
use rv64i_operating_system.Process.View.{part, bytes_at-view}
use rv64i_operating_system.Trap.{
  trap_code, trap_is_interrupt, trap_from_user, supervisor_trap_handler,
}
use rv64i_operating_system.Trap.Laws.{supervisor_trap_handler-ecall}

loaded_text :
    {root : ℕ} {image : List ℕ} {s : PagingState} (r : Option LoadedUserProgram × PagingState)
    (program : LoadedUserProgram) (n j : ℕ)
    → Loads root image s r
    → r.0 ≡ some program
    → j + n ≤ length image
    → length image ≤ 2 ^ 38
    → bytes_at (view root r.1) (user_text_start + j) n ≡ some (part image j n)
loaded_text _ program n j (failed s' kept) ok inside small = absurd (ground (arith, ok))
loaded_text _ program n j (loaded program' s' kept holds) ok inside small =
    bytes_at-view n j holds inside (omega arith)

-- An `ecall` of the user for `write`.
pub record IsWrite (frame : TrapFrame) : Type 0 where
  pub exception : trap_is_interrupt frame.cause ≡ false
  pub user : trap_from_user frame ≡ true
  pub call : trap_code frame.cause ≡ 8
  pub number : frame.a7 ≡ 64
  pub out : (frame.a0 ≡ 1) ⊎ (frame.a0 ≡ 2)

-- Once the first program is loaded, and memory is what its page table shows, a `write` of a part of
-- its own image gets that part to the UART, but for NUL bytes; the program goes on behind the
-- `ecall` with the length in `a0`, and nothing else has changed.
pub supervisor_trap_handler-own_text :
    (root : ℕ) (owner : Owner) (image : List ℕ) (s : PagingState) (program : LoadedUserProgram)
    (frame : TrapFrame) (m : Machine) (j : ℕ)
    → length image ≤ 2 ^ 38
    → IsTree root owner s
    → (process_load_initial_user_program image (to_ptr late root) s).0 ≡ some program
    → m.memory ≡ view root (process_load_initial_user_program image (to_ptr late root) s).1
    → IsWrite frame
    → frame.a1 ≡ user_text_start + j
    → j + frame.a2 ≤ length image
    → supervisor_trap_handler frame m
      ≡ done (finish frame frame.a2) (printed m (without_nul (part image j frame.a2)))
unfolding syscall_handle
supervisor_trap_handler-own_text root owner image s program frame m j small tree ok seen is buffer
      inside =
    let loads = process_load_initial_user_program-Loads root owner image s small tree in
    let text = loaded_text _ program frame.a2 j loads ok inside small in
    let bytes : bytes_at m.memory frame.a1 frame.a2 ≡ some (part image j frame.a2) =
      rw (seen, buffer) text in
    let sent =
      syscall_write-mapped m frame.a0 frame.a1 frame.a2 (part image j frame.a2) is.out (omega arith)
        (omega arith) bytes in
    supervisor_trap_handler-ecall frame m is.exception is.user is.call ∙ rw (is.number, sent) refl
