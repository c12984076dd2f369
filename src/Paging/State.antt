-- ===== src/Paging/State.antt =====
-- The state that the paging code works on, and a small monad: a step may fail, which keeps the
-- state as the failing step left it.
use rv64i_operating_system.Base.{ℕ, Bool, true, false, Option, none, some}
use rv64i_operating_system.Ram.{Ram}
use rv64i_operating_system.Allocator.{PhysicalPageAllocator, physical_alloc_page}

pub record PagingState : Type 0 where
  pub ram : Ram
  pub allocator : PhysicalPageAllocator

abbrev pub Step : Type 0 → Type 0
Step A = PagingState → Option A × PagingState

abbrev pub fail : {A : Type 0} → Step A
fail s = (none, s)

abbrev pub pure : {A : Type 0} → A → Step A
pure a s = (some a, s)

module _ {A B : Type 0} where
  abbrev pub and_then : Option A → PagingState → (A → Step B) → Option B × PagingState
  and_then none s f = (none, s)
  and_then (some a) s f = f a s

  infixl 5 ◌>>=◌ ◌>>◌
  abbrev pub ◌>>=◌ : Step A → (A → Step B) → Step B
  ◌>>=◌ m f s = and_then (m s).0 (m s).1 f

  abbrev pub ◌>>◌ : Step A → Step B → Step B
  m >> k = m >>= λ _. k

abbrev pub guard : Bool → Step (Unit {0})
guard true s = (some tt, s)
guard false s = (none, s)

abbrev pub get_ram : Step Ram
get_ram s = (some s.ram, s)

abbrev pub put_ram : Ram → Step (Unit {0})
put_ram ram s = (some tt, record s { ram = ram })

unfoldable pub alloc : Step ℕ
alloc s =
    let (page, allocator) = physical_alloc_page s.allocator in
    (some page, record s { allocator = allocator })
