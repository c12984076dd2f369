-- ===== src/Paging/View.antt =====
-- The memory of a machine, as the page table shows it.
use rv64i_operating_system.Base.{ℕ, true, false, not, Option, none, some, ◌==◌, bit_and}
use rv64i_operating_system.Ram.{Ram}
use rv64i_operating_system.AddressMapping.{late, to_ptr}
use rv64i_operating_system.Pte.{pte_w, pte_u}
use rv64i_operating_system.Paging.State.{PagingState}
use rv64i_operating_system.Paging.{Found, query}
use rv64i_operating_system.Machine.State.{Cell}

-- The byte behind an answer of the page table, with the rights of its entry.
abbrev pub cell_of : Ram → Found → Option Cell
cell_of ram (false, pa, f) = none
cell_of ram (true, pa, f) = some record {
  byte = ram pa;
  user = not (bit_and f pte_u == 0);
  writable = not (bit_and f pte_w == 0);
}

abbrev pub view : ℕ → PagingState → ℕ → Option Cell
view root s va = cell_of s.ram (query late s.ram (to_ptr late root) va)
