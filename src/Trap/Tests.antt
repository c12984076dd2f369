-- ===== src/Trap/Tests.antt =====
-- Traps that the handler takes, and the theorems at inputs that meet their hypotheses.
use rv64i_operating_system.Base.{
  ℕ, zero, suc, add64, Option, false, if◌then◌else◌, ◌<◌, ◌^◌, ◌≡◌, true, some, arith, refl, inl,
  inr, [], ◌∷◌, ◌==◌, Bool-cases,
}
use rv64i_operating_system.Machine.State.{Machine, Cell, done, faulted, waiting, halted}
use rv64i_operating_system.Machine.{codes, put_byte}
use rv64i_operating_system.Machine.Print.{printed}
use rv64i_operating_system.Machine.Tests.{machine, page_memory, machine_code}
use rv64i_operating_system.TrapFrame.{TrapFrame}
use rv64i_operating_system.Trap.{
  panic_trap, trap_code, trap_is_interrupt, trap_from_user, advance_trap, handle_interrupt,
  handle_supervisor_exception, handle_user_exception, handle_exception, trap_handler,
  supervisor_trap_handler, machine_trap_handler,
}
use rv64i_operating_system.Syscall.{
  read_bytes, write_bytes, copy_to_user, put_all, read_loop, edit, syscall_read, syscall_handle,
}
use rv64i_operating_system.Trap.Run.{
  Turn, program, trap, here, next, IsUserAt, IsUserPlace, KernelKept, Run-KernelKept,
}
use rv64i_operating_system.Syscall.Same.{rights}
use rv64i_operating_system.Syscall.Same.Read.{rights-with_byte}
use rv64i_operating_system.Trap.Laws.{
  panicked, supervisor_trap_handler-panics, supervisor_trap_handler-user_breakpoint,
}

abbrev pub trapped : ℕ → ℕ → TrapFrame
trapped cause status = record {
  ra = 1;
  sp = 2;
  gp = 3;
  tp = 4;
  t0 = 5;
  t1 = 6;
  t2 = 7;
  s0 = 8;
  s1 = 9;
  a0 = 1;
  a1 = 0x1_0000;
  a2 = 4;
  a3 = 13;
  a4 = 14;
  a5 = 15;
  a6 = 16;
  a7 = 64;
  s2 = 18;
  s3 = 19;
  s4 = 20;
  s5 = 21;
  s6 = 22;
  s7 = 23;
  s8 = 24;
  s9 = 25;
  s10 = 26;
  s11 = 27;
  t3 = 28;
  t4 = 29;
  t5 = 30;
  t6 = 31;
  epc = 0x1_0000;
  status = status;
  cause = cause;
  tval = 0;
}

trap_code_all : Unit {0}
unfolding machine_code panic_trap trap_code trap_is_interrupt trap_from_user advance_trap
    handle_interrupt handle_supervisor_exception handle_user_exception handle_exception trap_handler
    supervisor_trap_handler machine_trap_handler
trap_code_all = tt

machine_trap :
    machine_trap_handler (trapped 2 0) machine
    ≡ halted (
        printed machine (
          codes "Kernel PANIC in machine_trap_handler: Machine trap observed, execution halted.\n"))
unfolding trap_code_all
machine_trap = refl

supervisor_trap_handler-panics_example :
    supervisor_trap_handler (trapped 13 0) machine ≡ panicked machine
unfolding trap_code
supervisor_trap_handler-panics_example =
    supervisor_trap_handler-panics (trapped 13 0) machine (inr (omega arith, λ user. omega arith))

-- With SUM set the supervisor may read the user's instruction, which is a compressed one.
abbrev reading : Machine
reading = record machine { sstatus = 2 ^ 18 }

supervisor_trap_handler-user_breakpoint_example :
    supervisor_trap_handler (trapped 3 0) machine ≡ faulted 0x1_0000 machine
unfolding trap_code trap_is_interrupt page_memory
supervisor_trap_handler-user_breakpoint_example =
    supervisor_trap_handler-user_breakpoint (trapped 3 0) machine
      (record { byte = 72; user = true; writable = true }) refl refl refl refl refl

-- The page of the user at 0x10000, the direct map's view of its last byte at 0x30003, and a byte of
-- the kernel at 0x20000.
abbrev shared : ℕ → Option Cell
shared a =
    if a == 0x2_0000
    then some (record { byte = 7; user = false; writable = true })
    else if a == 0x3_0003
    then some (record { byte = 33; user = false; writable = true })
    else page_memory a

abbrev place : ℕ → ℕ
place a = if a == 0x3_0003 then 0x1_0003 else a

-- A program that stores a byte and then reads a line of two.
abbrev typing : Machine
typing = record machine { memory = shared; place = place; input = 97 ∷ 13 ∷ [] }

abbrev stored : Machine
stored = record typing { memory = put_byte place shared 0x1_0003 74 }

abbrev asking : TrapFrame
asking = record (trapped 8 0) { a0 = 0; a7 = 63 }

read_line : Machine
unfolding trap_code_all read_bytes write_bytes copy_to_user put_all read_loop edit syscall_read
    syscall_handle
read_line = elim (supervisor_trap_handler asking stored) [
  | done frame m ↦ m
  | faulted address m ↦ m
  | waiting m ↦ m
  | halted m ↦ m
]

returned :
    supervisor_trap_handler asking stored
    ≡ done (record asking { a0 = 2; epc = 0x1_0004 }) read_line
unfolding read_line
returned = refl

-- The store shows in the direct map too.
seen_twice : stored.memory 0x3_0003 ≡ some (record { byte = 74; user = false; writable = true })
unfolding page_memory
seen_twice = refl

rights-stored : (a : ℕ) → rights (stored.memory a) ≡ rights (typing.memory a)
rights-stored a = elim (Bool-cases (place a == 0x1_0003)) [
  | inr other ↦ rw other refl
  | inl this ↦ rw this (rights-with_byte 74 (shared a))
]

storing : Turn typing stored
unfolding page_memory
storing = program typing stored (record {
  outside = λ a out. elim (Bool-cases (place a == 0x1_0003)) [
    | inr other ↦ rw other refl
    | inl this ↦
        (let same : place a ≡ 0x1_0003 = ground (arith, this) in
          absurd (
            out (0x1_0003, (record { byte = 33; user = true; writable = true }, refl, refl), same)))
  ];
  same_rights = rights-stored;
  same_place = λ a. refl;
  same_sstatus = refl;
})

-- The buffer, by its four addresses.
buffer_user : (k : ℕ) → k < 4 → IsUserAt stored (add64 0x1_0000 k)
unfolding page_memory
buffer_user zero lt = (_, refl, refl)
buffer_user (suc zero) lt = (_, refl, refl)
buffer_user (suc (suc zero)) lt = (_, refl, refl)
buffer_user (suc (suc (suc zero))) lt = (_, refl, refl)
buffer_user (suc (suc (suc (suc k)))) lt = absurd (omega arith)

Run-KernelKept_example : KernelKept typing read_line
Run-KernelKept_example = Run-KernelKept (
    next (next here storing) (
      trap stored read_line asking (record asking { a0 = 2; epc = 0x1_0004 }) (omega arith)
        (λ is_read k lt. buffer_user k (omega arith)) returned))

-- The byte of the kernel is one of those that the theorem keeps.
kernel_byte : ¬ IsUserPlace typing (typing.place 0x2_0000)
unfolding page_memory
kernel_byte (a, (cell, at, on), same) = ground (arith, at, on, same)
