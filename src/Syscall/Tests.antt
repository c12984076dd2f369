-- ===== src/Syscall/Tests.antt =====
-- Runs of the system calls, and the theorems at inputs that meet their hypotheses.
use rv64i_operating_system.Base.{ℕ, min, ◌≡◌, none, List, [], ◌∷◌, arith, refl, inl, inr}
use rv64i_operating_system.Machine.State.{Machine, done, faulted}
use rv64i_operating_system.Machine.{codes}
use rv64i_operating_system.Machine.Print.{printed}
use rv64i_operating_system.Machine.Tests.{machine, page_memory, machine_code}
use rv64i_operating_system.TrapFrame.{TrapFrame}
use rv64i_operating_system.Syscall.{
  read_bytes, copy_from_user, put_bytes, write_loop, syscall_write, read_loop, edit, put_all,
  syscall_read, write_bytes, copy_to_user, syscall_exit, syscall_handle,
}
use rv64i_operating_system.Syscall.Copy.{bytes_at, with_sum}
use rv64i_operating_system.Syscall.Write.{without_nul, syscall_write-mapped, syscall_write-unmapped}
use rv64i_operating_system.Syscall.Fill.{WritableAt, Delivered, syscall_read-Delivered}

-- All the code that a system call goes through.
syscall_code : Unit {0}
unfolding machine_code read_bytes copy_from_user put_bytes write_loop syscall_write read_loop edit
    put_all syscall_read write_bytes copy_to_user syscall_exit syscall_handle bytes_at without_nul
syscall_code = tt

write_hi : syscall_write 1 0x1_0000 4 machine ≡ done 4 (printed machine (codes "Hi!"))
unfolding syscall_code
write_hi = refl

-- "ab", an erased "x", and Enter.
abbrev typed : Machine
typed = record machine { input = 97 ∷ 98 ∷ 120 ∷ 127 ∷ 13 ∷ 99 ∷ [] }

read_line : (o : ℕ × Machine) × (syscall_read 0 0x1_0000 16 typed ≡ done o.0 o.1) × (o.0 ≡ 3)
unfolding syscall_code
read_line = ((_, _), refl, refl)

syscall_write-mapped_example :
    syscall_write 1 0x1_0000 4 machine
    ≡ done 4 (printed machine (without_nul (72 ∷ 105 ∷ 0 ∷ 33 ∷ [])))
unfolding bytes_at page_memory
syscall_write-mapped_example =
    syscall_write-mapped machine 1 0x1_0000 4 (72 ∷ 105 ∷ 0 ∷ 33 ∷ []) (inl refl) (omega arith)
      (omega arith) refl

syscall_write-unmapped_example :
    (fault : ℕ) × (sent : List ℕ) × (page_memory fault ≡ none)
    × (syscall_write 2 0x1_0002 9 machine ≡ faulted fault (with_sum (printed machine sent)))
unfolding bytes_at page_memory
syscall_write-unmapped_example =
    syscall_write-unmapped machine 2 0x1_0002 9 (inr refl) (omega arith) (omega arith) refl

page_writable : (n : ℕ) → WritableAt page_memory 0x1_0000 n
unfolding page_memory
page_writable n k cell lt here = ground arith

page_writable1 : (n : ℕ) → WritableAt page_memory 0x1_0001 n
unfolding page_memory
page_writable1 n k cell lt here = ground arith

syscall_read-Delivered_example :
    Delivered typed 0x1_0000 (min 4 256) (syscall_read 0 0x1_0000 4 typed)
unfolding bytes_at page_memory
syscall_read-Delivered_example =
    syscall_read-Delivered typed 0x1_0000 4 (72 ∷ 105 ∷ 0 ∷ 33 ∷ []) (omega arith) (omega arith)
      (omega arith) refl (page_writable 4) (λ i j lt lt'. omega arith)

abbrev frame : TrapFrame
frame = record {
  ra = 1;
  sp = 2;
  gp = 3;
  tp = 4;
  t0 = 5;
  t1 = 6;
  t2 = 7;
  s0 = 8;
  s1 = 9;
  a0 = 1;
  a1 = 0x1_0000;
  a2 = 4;
  a3 = 13;
  a4 = 14;
  a5 = 15;
  a6 = 16;
  a7 = 64;
  s2 = 18;
  s3 = 19;
  s4 = 20;
  s5 = 21;
  s6 = 22;
  s7 = 23;
  s8 = 24;
  s9 = 25;
  s10 = 26;
  s11 = 27;
  t3 = 28;
  t4 = 29;
  t5 = 30;
  t6 = 31;
  epc = 0x2_0000;
  status = 0;
  cause = 8;
  tval = 0;
}

abbrev exiting : TrapFrame
exiting = record frame { a7 = 93 }

abbrev asking : TrapFrame
asking = record frame { a7 = 172 }
