-- ===== src/Ram.antt =====
-- The physical memory as bytes, and the accesses of the kernel's C++ code to it: one byte, or a
-- little-endian `uint64_t`. The UART is a device, and is not in this memory.
pub mod Laws
use rv64i_operating_system.Base.{
  ℕ, ◌+◌, ◌-◌, ◌*◌, ◌/◌, ◌%◌, ◌^◌, ◌&&◌, ◌==◌, ltb, leb, if◌then◌else◌, u8,
}

abbrev pub Ram : Type 0
Ram = ℕ → ℕ

unfoldable pub store8 : Ram → ℕ → ℕ → Ram
store8 ram address value b = if b == address then u8 value else ram b

unfoldable pub load64 : Ram → ℕ → ℕ
load64 ram a =
    ram a
    + 2 ^ 8 * ram (a + 1)
    + 2 ^ 16 * ram (a + 2)
    + 2 ^ 24 * ram (a + 3)
    + 2 ^ 32 * ram (a + 4)
    + 2 ^ 40 * ram (a + 5)
    + 2 ^ 48 * ram (a + 6)
    + 2 ^ 56 * ram (a + 7)

-- Byte `k` of the value goes to `address + k`.
unfoldable pub store64 : Ram → ℕ → ℕ → Ram
store64 ram address value b =
    if leb address b && ltb b (address + 8) then value / 256 ^ (b - address) % 256 else ram b
