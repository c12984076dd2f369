-- ===== src/Syscall.antt =====
-- src/kernel/Syscall.cpp: `read`, `write`, `exit` and `exit_group` over the UART. An `int64_t`
-- result is its two's complement bit pattern, as the cast to `uint64_t` leaves it in `a0`.
pub mod Copy
pub mod Write
pub mod Read
pub mod Handle
pub mod Same
pub mod Fill
mod Tests
use rv64i_operating_system.Base.{
  ℕ, zero, suc, ◌+◌, ◌-◌, ◌*◌, ◌/◌, ◌%◌, ◌^◌, Bool, true, false, not, ◌&&◌, ◌||◌, Option, none,
  some, List, [], ◌∷◌, ◌++◌, ◌==◌, ltb, leb, if◌then◌else◌, bit_or, add64, length, take,
}
use rv64i_operating_system.Machine.State.{
  Machine, Outcome, done, faulted, waiting, halted, Kernel, pure, and_then, ◌>>=◌, ◌>>◌,
}
use rv64i_operating_system.Machine.{
  csr_read_sstatus, csr_write_sstatus, sstatus_sum, load8, store8, uart_putc, uart_puts, uart_getc,
  print_hex, codes, halt,
}
use rv64i_operating_system.TrapFrame.{TrapFrame}

abbrev pub err_badf : ℕ
err_badf = 2 ^ 64 - 9

abbrev pub err_fault : ℕ
err_fault = 2 ^ 64 - 14

abbrev pub err_nosys : ℕ
err_nosys = 2 ^ 64 - 38

-- sizeof(temp)
abbrev pub temp_size : ℕ
temp_size = 256

-- for (i = 0; i < size; ++i) out[i] = in[i], from address `user_src`
unfoldable pub read_bytes : ℕ → ℕ → Kernel (List ℕ)
read_bytes user_src zero = pure []
read_bytes user_src (suc n) = do
  byte ← load8 user_src
  bytes ← read_bytes (add64 user_src 1) n
  pure (byte ∷ bytes)

-- The bytes that go into the kernel's buffer, or `none` for `false`. No caller passes a null `dst`.
unfoldable pub copy_from_user : ℕ → ℕ → Kernel (Option (List ℕ))
copy_from_user user_src size = if user_src == 0 && not (size == 0) then pure none else (do
  old_status ← csr_read_sstatus
  csr_write_sstatus (bit_or old_status sstatus_sum)
  bytes ← read_bytes user_src size
  csr_write_sstatus old_status
  pure (some bytes))

unfoldable pub write_bytes : ℕ → List ℕ → Kernel (Unit {0})
write_bytes user_dst [] = pure tt
write_bytes user_dst (byte ∷ bytes) = do store8 user_dst byte; write_bytes (add64 user_dst 1) bytes

-- The list is the kernel's buffer up to `size`. No caller passes a null `src`.
unfoldable pub copy_to_user : ℕ → List ℕ → Kernel Bool
copy_to_user user_dst src = if user_dst == 0 && not (length src == 0) then pure false else (do
  old_status ← csr_read_sstatus
  csr_write_sstatus (bit_or old_status sstatus_sum)
  write_bytes user_dst src
  csr_write_sstatus old_status
  pure true)

-- Each byte goes out as a text of its own, `{ temp[i], '\0' }`.
unfoldable pub put_bytes : List ℕ → Kernel (Unit {0})
put_bytes [] = pure tt
put_bytes (byte ∷ bytes) = do uart_puts (byte ∷ 0 ∷ []); put_bytes bytes

-- The loop of `syscall_write`. Each round but the last takes 256 bytes.
unfoldable pub write_loop : ℕ → ℕ → ℕ → ℕ → Kernel ℕ
write_loop zero buffer count total_written = halt
write_loop (suc fuel) buffer count total_written =
    let chunk = if ltb count temp_size then count else temp_size in
    let rest = write_loop fuel (add64 buffer chunk) (count - chunk) (add64 total_written chunk) in
    if ltb 0 count
    then (do
      copied ← copy_from_user buffer chunk
      elim copied [ none ↦ pure err_fault | some temp ↦ put_bytes temp >> rest ])
    else pure total_written

unfoldable pub syscall_write : ℕ → ℕ → ℕ → Kernel ℕ
syscall_write fd buffer count =
    if not (fd == 1) && not (fd == 2)
    then pure err_badf
    else if count == 0
    then pure 0
    else write_loop (count / temp_size + 2) buffer count 0

-- temp[total_read - 1] goes
abbrev pub drop_last : List ℕ → List ℕ
drop_last bytes = take (length bytes - 1) bytes

-- What a key other than Enter does: the bytes of `temp` in use, and those sent to the UART.
abbrev pub normalise : ℕ → ℕ
normalise c = if c == 13 then 10 else c

abbrev pub is_erase : ℕ → Bool
is_erase c = c == 8 || c == 0x7f

unfoldable pub edit : List ℕ → ℕ → List ℕ × List ℕ
edit temp c =
    if is_erase c
    then (if ltb 0 (length temp) then (drop_last temp, 8 ∷ 32 ∷ 8 ∷ []) else (temp, []))
    else (temp ++ c ∷ [], c ∷ [])

unfoldable pub put_all : List ℕ → Kernel (Unit {0})
put_all [] = pure tt
put_all (c ∷ s) = uart_putc c >> put_all s

-- The loop of `syscall_read`. Each round takes a byte of input, so the fuel is one more than those.
unfoldable pub read_loop : ℕ → ℕ → List ℕ → Kernel (List ℕ)
read_loop zero count temp = halt
read_loop (suc fuel) count temp =
    if ltb (length temp) count
    then (do
      key ← uart_getc
      let c = normalise key
      let (temp', echo) = edit temp c
      put_all echo
      let rest = read_loop fuel count temp'
      if c == 10 then pure temp' else rest)
    else pure temp

unfoldable pub syscall_read : ℕ → ℕ → ℕ → Kernel ℕ
syscall_read fd buffer count m =
    (if not (fd == 0) then pure err_badf else if count == 0 then pure 0 else (do
      temp ← read_loop (length m.input + 2) (if ltb temp_size count then temp_size else count) []
      copied ← copy_to_user buffer temp
      pure (if copied then length temp else err_fault)))
      m

unfoldable pub syscall_exit : {A : Type 0} → ℕ → Kernel A
syscall_exit status = do
  uart_puts (codes "User task exited with status ")
  print_hex status
  uart_puts (codes ".\n")
  halt

-- The result goes to `a0`, and the `ecall` is skipped.
abbrev pub finish : TrapFrame → ℕ → TrapFrame
finish frame result = record frame { a0 = result; epc = add64 frame.epc 4 }

unfoldable pub syscall_handle : TrapFrame → Kernel TrapFrame
syscall_handle frame =
    if frame.a7 == 63
    then syscall_read frame.a0 frame.a1 frame.a2 >>= (λ r. pure (finish frame r))
    else if frame.a7 == 64
    then syscall_write frame.a0 frame.a1 frame.a2 >>= (λ r. pure (finish frame r))
    else if frame.a7 == 93
    then syscall_exit frame.a0
    else if frame.a7 == 94
    then syscall_exit frame.a0
    else pure (finish frame err_nosys)
