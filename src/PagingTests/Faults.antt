-- ===== src/PagingTests/Faults.antt =====
-- The stores of the self tests that are meant to fault.
use rv64i_operating_system.Base.{
  ℕ, suc, inl, inr, Bool-cases, ◌≡◌, true, false, not, Option, some, refl, ap, ◌∙◌, ◌==◌, bit_and,
  sub64, arith,
}
use rv64i_operating_system.AddressMapping.{late, to_ptr}
use rv64i_operating_system.Platform.{PlatformInfo}
use rv64i_operating_system.Allocator.Page.{IsBounded}
use rv64i_operating_system.Pte.{pte_w, pte_r, pte_u}
use rv64i_operating_system.Pte.Fields.{leaf_flags}
use rv64i_operating_system.Paging.{query}
use rv64i_operating_system.Paging.State.{PagingState}
use rv64i_operating_system.Paging.View.{view}
use rv64i_operating_system.Machine.State.{Machine, Cell, faulted}
use rv64i_operating_system.Machine.{store8, allowed}
use rv64i_operating_system.Kernel.{KernelSymbols, KernelState, kernel_rx, paging_init}
use rv64i_operating_system.Kernel.Ranges.{IsMapped}
use rv64i_operating_system.Kernel.Space.{
  IsPlaced, Inits, kept_off, switched, same_range, paging_init-Inits,
}
use rv64i_operating_system.PagingTests.{store_bytes, test_text_write_fault, test_rodata_write_fault}
use rv64i_operating_system.PagingTests.Walk.{IsSection, first_byte}

store8-faulted :
    (root va pa f value : ℕ) (s : PagingState) (m : Machine)
    → m.memory ≡ view root s
    → query late s.ram (to_ptr late root) va ≡ (true, pa, f)
    → not (bit_and f pte_w == 0) ≡ false
    → store8 va value m ≡ faulted va m
unfolding store8
store8-faulted root va pa f value s m seen found never =
    let cell : Cell = record {
      byte = s.ram pa;
      user = not (bit_and f pte_u == 0);
      writable = not (bit_and f pte_w == 0);
    } in
    let at : m.memory va ≡ some cell = ap (λ (g : ℕ → Option Cell). g va) seen ∙ rw found refl in
    elim (Bool-cases (allowed m cell)) [
      | inl may ↦ rw (store8, at, may, never) refl
      | inr no_right ↦ rw (store8, at, no_right) refl
    ]

store_bytes-faulted :
    (va n value : ℕ) (m : Machine)
    → store8 va value m ≡ faulted va m
    → store_bytes (suc n) va value m ≡ faulted va m
unfolding store_bytes
store_bytes-faulted va n value m first = rw first refl

module _ (symbols : KernelSymbols) (platform : PlatformInfo) (s : KernelState) where
  -- Both stores fault at the start of their section.
  abbrev Fault : Machine → Type 0
  Fault m =
      (test_text_write_fault symbols m ≡ faulted symbols.text_start m)
      × (test_rodata_write_fault symbols m ≡ faulted symbols.rodata_start m)

  Inits-Fault :
      (r : Option ℕ × KernelState) (root : ℕ) (s' : KernelState) (m : Machine)
      → Inits symbols platform s r
      → r ≡ (some (to_ptr late root), s')
      → m.memory ≡ view root s'.paging
      → IsSection symbols.text_start symbols.text_end
      → IsSection symbols.rodata_start symbols.rodata_end
      → Fault m
  unfolding test_text_write_fault test_rodata_write_fault
  Inits-Fault _ root s' m (kept_off _ e e') same seen text rodata = absurd (ground (arith, same))
  Inits-Fault _ root s' m (switched root' s'' owner tree satp g all only) same seen text rodata =
      let pointer : to_ptr late root' ≡ to_ptr late root = ground (arith, same) in
      let state : s'' ≡ s' = ap (λ r. r.1) same in
      let fault =
        λ (start end flags value : ℕ) (section_is : IsSection start end)
            (mapped : IsMapped late root' s''.paging (same_range start (sub64 end start) flags))
            (never : not (bit_and (leaf_flags flags) pte_w == 0) ≡ false).
          store_bytes-faulted start 7 value m (
            store8-faulted root start start (leaf_flags flags) value s'.paging m seen
              (rw (pointer, state) at
                (first_byte root' start end flags s''.paging section_is mapped))
              never) in
      (
        fault symbols.text_start symbols.text_end kernel_rx _ text all.0 refl,
        fault symbols.rodata_start symbols.rodata_end pte_r _ rodata all.1.0 refl,
      )

  -- After a `paging_init` that succeeds, on a machine whose memory is what the new tables show, for
  -- sections that have a byte and start a page: the self tests that store to the text and to the
  -- read-only data fault at the first byte, and have written nothing.
  pub test_write_fault-faulted :
      (root : ℕ) (s' : KernelState) (m : Machine)
      → IsBounded s.paging.allocator
      → IsPlaced symbols platform
      → paging_init symbols platform s ≡ (some (to_ptr late root), s')
      → m.memory ≡ view root s'.paging
      → IsSection symbols.text_start symbols.text_end
      → IsSection symbols.rodata_start symbols.rodata_end
      → (test_text_write_fault symbols m ≡ faulted symbols.text_start m)
        × (test_rodata_write_fault symbols m ≡ faulted symbols.rodata_start m)
  test_write_fault-faulted root s' m bounded placed made seen text rodata =
      Inits-Fault _ root s' m (paging_init-Inits symbols platform s bounded placed) made seen text
        rodata
