-- ===== src/Allocator/Align.antt =====
-- `align_up`, as arithmetic.
use rv64i_operating_system.Base.{
  ℕ, ◌+◌, ◌-◌, ◌*◌, ◌/◌, ◌%◌, ◌^◌, ◌≤◌, ◌<◌, ◌≡◌, arith, bit_and, add64, sub64,
}
use rv64i_operating_system.Base.Bits.{bit_and-low, bit_and-high}
use rv64i_operating_system.Allocator.{align_up}

-- `a & ~(2^k - 1)` clears the low bits of a 64-bit number, for `k + j` = 64.
pub bit_and-clear :
    (k j a : ℕ)
    → (2 ^ j - 1) * 2 ^ k ≡ 2 ^ 64 - 2 ^ k
    → bit_and a (2 ^ 64 - 2 ^ k) ≡ a / 2 ^ k % 2 ^ j * 2 ^ k
bit_and-clear k j a e = rw (← e, bit_and-high k a (2 ^ j - 1), bit_and-low j (a / 2 ^ k))

pub align_up-page : (v : ℕ) → align_up v 4096 ≡ (v + 4095) % 2 ^ 64 / 4096 * 4096
unfolding align_up
align_up-page v = omega (arith, bit_and-clear 12 52 (sub64 (add64 v 4096) 1) (omega arith))

-- Away from the top of the address space, the result is the least multiple of the page size that
-- is not below `v`.
align_up-least :
    (v m : ℕ)
    → v + 4095 < 2 ^ 64
    → (align_up v 4096 % 4096 ≡ 0)
      × (v ≤ align_up v 4096)
      × (v ≤ m * 4096 → align_up v 4096 ≤ m * 4096)
align_up-least v m h = rw (align_up-page v) (omega arith)
