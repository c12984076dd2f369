-- ===== src/Platform.antt =====
-- include/utility/PlatformInfo.hpp: what the boot code has learnt of the machine.
use rv64i_operating_system.Base.{ℕ}

pub record PlatformInfo : Type 0 where
  pub ram_base : ℕ
  pub ram_size : ℕ
  pub uart_base : ℕ
  pub dtb_addr : ℕ
  pub dtb_size : ℕ
  pub dtb_end : ℕ
  pub kernel_start : ℕ
  pub kernel_end : ℕ
  pub bss_start : ℕ
  pub bss_end : ℕ
