-- ===== src/Kernel/Rights.antt =====
-- What the rights of the kernel's mappings rule out.
use rv64i_operating_system.Base.{ℕ, ◌≡◌, inl, inr, true, min, Option, some, refl, ap}
use rv64i_operating_system.Base.BitAt.{bit_at}
use rv64i_operating_system.AddressMapping.{late, to_ptr}
use rv64i_operating_system.Platform.{PlatformInfo}
use rv64i_operating_system.Allocator.Page.{IsBounded}
use rv64i_operating_system.Pte.{pte_r}
use rv64i_operating_system.Pte.Fields.{leaf_flags}
use rv64i_operating_system.Paging.{paging_query}
use rv64i_operating_system.Kernel.{KernelSymbols, KernelState, kernel_rx, kernel_rw, paging_init}
use rv64i_operating_system.Kernel.Ranges.{BehindAny}
use rv64i_operating_system.Kernel.Space.{
  kernel_ranges, IsPlaced, Inits, kept_off, switched, paging_init-Inits,
}

-- Not for the user, and not both writable and executable.
abbrev pub IsGuarded : ℕ → Type 0
IsGuarded f = (bit_at 4 f ≡ 0) × (min (bit_at 2 f) (bit_at 3 f) ≡ 0)

rx-IsGuarded : (f : ℕ) → f ≡ leaf_flags kernel_rx → IsGuarded f
rx-IsGuarded f e = rw e (refl, refl)

r-IsGuarded : (f : ℕ) → f ≡ leaf_flags pte_r → IsGuarded f
r-IsGuarded f e = rw e (refl, refl)

rw-IsGuarded : (f : ℕ) → f ≡ leaf_flags kernel_rw → IsGuarded f
rw-IsGuarded f e = rw e (refl, refl)

kernel_ranges-IsGuarded :
    (symbols : KernelSymbols) (platform : PlatformInfo) (va pa f : ℕ)
    → BehindAny (kernel_ranges symbols platform) va pa f
    → IsGuarded f
kernel_ranges-IsGuarded symbols platform va pa f (inl (n, at, p, e)) = rx-IsGuarded f e
kernel_ranges-IsGuarded symbols platform va pa f (inr (inl (n, at, p, e))) = r-IsGuarded f e
kernel_ranges-IsGuarded symbols platform va pa f (inr (inr (inl (n, at, p, e)))) = rw-IsGuarded f e
kernel_ranges-IsGuarded symbols platform va pa f (inr (inr (inr (inl (n, at, p, e))))) =
    rw-IsGuarded f e
kernel_ranges-IsGuarded symbols platform va pa f (inr (inr (inr (inr (inl (n, at, p, e)))))) =
    rw-IsGuarded f e
kernel_ranges-IsGuarded symbols platform va pa f (inr (inr (inr (inr (inr (inl (n, at, p, e))))))) =
    rw-IsGuarded f e
kernel_ranges-IsGuarded symbols platform va pa f
      (inr (inr (inr (inr (inr (inr (inl (n, at, p, e)))))))) =
    rw-IsGuarded f e
kernel_ranges-IsGuarded symbols platform va pa f (inr (inr (inr (inr (inr (inr (inr nowhere))))))) =
    elim nowhere [ ]

module _ (symbols : KernelSymbols) (platform : PlatformInfo) (s : KernelState) where
  Inits-IsGuarded :
      (r : Option ℕ × KernelState) (root : ℕ) (s' : KernelState) (va pa f : ℕ)
      → Inits symbols platform s r
      → r ≡ (some root, s')
      → paging_query s'.paging.ram root va ≡ (true, pa, f)
      → IsGuarded f
  unfolding paging_query
  Inits-IsGuarded _ root s' va pa f (kept_off _ e e') same found = cc
  Inits-IsGuarded _ root s' va pa f (switched root' s'' owner tree satp g all only) same found =
      let pointer : to_ptr late root' ≡ root = cc in
      let state : s'' ≡ s' = ap (λ r. r.1) same in
      kernel_ranges-IsGuarded symbols platform va pa f (only va pa f (rw (pointer, state) found))

  -- After a `paging_init` that succeeds, from a bounded allocator and for a kernel, devices and memory
  -- below 2^38: no mapping that a query finds is open to user programs, and none of them is by itself
  -- both writable and executable. This is about the rights of each virtual address; two addresses may
  -- still lead to one frame.
  pub paging_init-IsGuarded :
      (root : ℕ) (s' : KernelState) (va pa f : ℕ)
      → IsBounded s.paging.allocator
      → IsPlaced symbols platform
      → paging_init symbols platform s ≡ (some root, s')
      → paging_query s'.paging.ram root va ≡ (true, pa, f)
      → IsGuarded f
  paging_init-IsGuarded root s' va pa f bounded p done found =
      Inits-IsGuarded _ root s' va pa f (paging_init-Inits symbols platform s bounded p) done found
