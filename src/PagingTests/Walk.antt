-- ===== src/PagingTests/Walk.antt =====
-- What the self test prints.
use rv64i_operating_system.Base.{
  ℕ, ◌+◌, ◌*◌, ◌%◌, ◌^◌, ◌≤◌, ◌<◌, ◌≡◌, true, false, Option, some, List, [], ◌∷◌, ◌++◌, arith, refl,
  ap, ◌∙◌, ◌==◌, bit_and, Bool-cases, inl, inr, sub64,
}
use rv64i_operating_system.Ram.{Ram}
use rv64i_operating_system.AddressMapping.{late, to_ptr}
use rv64i_operating_system.Platform.{PlatformInfo}
use rv64i_operating_system.Allocator.Page.{IsBounded}
use rv64i_operating_system.Pte.{pte_v, pte_r, pte_w, pte_x}
use rv64i_operating_system.Pte.Fields.{leaf_flags}
use rv64i_operating_system.Paging.State.{PagingState}
use rv64i_operating_system.Paging.{paging_query, query}
use rv64i_operating_system.Paging.Map.Query.{same_page, same_page_iff}
use rv64i_operating_system.Paging.Range.{nth_va}
use rv64i_operating_system.Machine.State.{Machine, done, Kernel, ◌>>◌}
use rv64i_operating_system.Machine.{codes, uart_puts}
use rv64i_operating_system.Machine.Print.{
  printed, printed-printed, no_nul, uart_puts_lem, hex_digits, print_hex-done,
}
use rv64i_operating_system.Kernel.{KernelSymbols, KernelState, kernel_rx, kernel_rw, paging_init}
use rv64i_operating_system.Kernel.Ranges.{IsMapped}
use rv64i_operating_system.Kernel.Space.{
  IsPlaced, Inits, kept_off, switched, same_range, paging_init-Inits,
}
use rv64i_operating_system.PagingTests.{mark, test_answer, test_va, test_page_walker}

-- A line of the self test.
abbrev pub hex : ℕ → List ℕ
hex value = codes "0x" ++ hex_digits 16 value

abbrev pub walk_line : List ℕ → ℕ → ℕ → List ℕ → List ℕ
walk_line name va pa rights =
    name
    ++ (codes " VA: "
        ++ (hex va
            ++ (codes " -> PA: " ++ (hex pa ++ (codes " flags=" ++ (rights ++ codes "\n"))))))

-- A run that sends this text and nothing else happens.
abbrev Prints : Kernel (Unit {0}) → List ℕ → Type 0
Prints k s = (m : Machine) → k m ≡ done tt (printed m s)

Prints-then :
    {k l : Kernel (Unit {0})} {s t : List ℕ} → Prints k s → Prints l t → Prints (k >> l) (s ++ t)
Prints-then {k} {l} {s} {t} h h' m =
    rw (h m) (h' (printed m s) ∙ ap (λ m'. done tt m') (printed-printed m s t))

Prints-mark :
    (flags bit c : ℕ)
    → (c == 0) ≡ false
    → Prints (uart_puts (mark flags bit (c ∷ []))) (mark flags bit (c ∷ []))
Prints-mark flags bit c h = elim (Bool-cases (bit_and flags bit == 0)) [
  | inl unset ↦ rw unset (λ m. uart_puts_lem (codes "-") m refl)
  | inr set ↦
      let text : no_nul (c ∷ []) ≡ true = rw h refl in rw set (λ m. uart_puts_lem (c ∷ []) m text)
]

-- The four rights of an entry.
abbrev rights_text : ℕ → List ℕ → List ℕ
rights_text flags rest =
    mark flags pte_v (codes "V")
    ++ (mark flags pte_r (codes "R")
        ++ (mark flags pte_w (codes "W") ++ (mark flags pte_x (codes "X") ++ rest)))

Prints-puts : (s : List ℕ) → no_nul s ≡ true → Prints (uart_puts s) s
Prints-puts s h m = uart_puts_lem s m h

test_answer-Prints :
    (pa flags : ℕ)
    → Prints
        (test_answer (true, pa, flags))
        (codes " -> PA: " ++ (hex pa ++ (codes " flags=" ++ rights_text flags (codes "\n"))))
unfolding test_answer
test_answer-Prints pa flags = Prints-then (Prints-puts (codes " -> PA: ") refl) (
    Prints-then (print_hex-done pa) (
      Prints-then (Prints-puts (codes " flags=") refl) (
        Prints-then (Prints-mark flags pte_v 86 refl) (
          Prints-then (Prints-mark flags pte_r 82 refl) (
            Prints-then (Prints-mark flags pte_w 87 refl)
              (Prints-then (Prints-mark flags pte_x 88 refl) (Prints-puts (codes "\n") refl)))))))

test_va-Prints :
    (ram : Ram) (root : ℕ) (name : List ℕ) (va pa flags : ℕ) (rights : List ℕ)
    → no_nul name ≡ true
    → paging_query ram root va ≡ (true, pa, flags)
    → rights_text flags (codes "\n") ≡ rights ++ codes "\n"
    → Prints (test_va ram root name va) (walk_line name va pa rights)
unfolding test_va
test_va-Prints ram root name va pa flags rights text found same =
    Prints-then (Prints-puts name text) (
      Prints-then (Prints-puts (codes " VA: ") refl)
        (Prints-then (print_hex-done va) (rw (found, ← same) (test_answer-Prints pa flags))))

-- A section that has a byte, at the start of a page.
abbrev pub IsSection : ℕ → ℕ → Type 0
IsSection start end = (start % 4096 ≡ 0) × (start < end) × (end ≤ 2 ^ 38)

pub first_byte :
    (root start end flags : ℕ) (s : PagingState)
    → IsSection start end
    → IsMapped late root s (same_range start (sub64 end start) flags)
    → query late s.ram (to_ptr late root) start ≡ (true, start, leaf_flags flags)
first_byte root start end flags s (aligned, some_bytes, top) mapped =
    let first : start + 4096 * 0 + start % 4096 ≡ start = omega arith in
    let same : same_page (nth_va start 0) start ≡ true =
      (same_page_iff (nth_va start 0) start).1 (omega arith) in
    rw first at (mapped 0 start (omega arith, same))

module _ (symbols : KernelSymbols) (platform : PlatformInfo) (s : KernelState) where
  -- The three lines.
  abbrev pub walk_text : List ℕ
  walk_text =
      walk_line (codes "TEXT   ") symbols.text_start symbols.text_start (codes "VR-X")
      ++ (walk_line (codes "RODATA ") symbols.rodata_start symbols.rodata_start (codes "VR--")
          ++ walk_line (codes "DATA   ") symbols.data_start symbols.data_start (codes "VRW-"))

  Inits-walk :
      (r : Option ℕ × KernelState) (root : ℕ) (s' : KernelState)
      → Inits symbols platform s r
      → r ≡ (some root, s')
      → IsSection symbols.text_start symbols.text_end
      → IsSection symbols.rodata_start symbols.rodata_end
      → IsSection symbols.data_start symbols.data_end
      → Prints (test_page_walker symbols s'.paging.ram root) walk_text
  unfolding test_page_walker paging_query
  Inits-walk _ root s' (kept_off _ e e') same text rodata initialised =
      absurd (ground (arith, same))
  Inits-walk _ root s' (switched root' s'' owner tree satp g all only) same text rodata
        initialised =
      let pointer : to_ptr late root' ≡ root = ground (arith, same) in
      let state : s'' ≡ s' = ap (λ r. r.1) same in
      let line =
        λ (name : List ℕ) (start end flags : ℕ) (rights : List ℕ) (plain : no_nul name ≡ true)
            (section_is : IsSection start end)
            (mapped : IsMapped late root' s''.paging (same_range start (sub64 end start) flags))
            (letters : rights_text (leaf_flags flags) (codes "\n") ≡ rights ++ codes "\n").
          test_va-Prints s''.paging.ram (to_ptr late root') name start start (leaf_flags flags)
            rights plain (first_byte root' start end flags s''.paging section_is mapped) letters in
      rw (← pointer, ← state)
        (Prints-then
          (line (codes "TEXT   ") symbols.text_start symbols.text_end kernel_rx (codes "VR-X") refl
            text all.0 refl)
          (Prints-then
            (line (codes "RODATA ") symbols.rodata_start symbols.rodata_end pte_r (codes "VR--")
              refl rodata all.1.0 refl)
            (line (codes "DATA   ") symbols.data_start symbols.data_end kernel_rw (codes "VRW-")
              refl initialised all.1.1.0 refl)))

  -- After a `paging_init` that succeeds, for sections that have a byte and start a page, the self
  -- test prints for each its own address as virtual and as physical address, with `VR-X` for the
  -- text, `VR--` for the read-only data and `VRW-` for the data.
  pub test_page_walker_lem :
      (root : ℕ) (s' : KernelState) (m : Machine)
      → IsBounded s.paging.allocator
      → IsPlaced symbols platform
      → paging_init symbols platform s ≡ (some root, s')
      → IsSection symbols.text_start symbols.text_end
      → IsSection symbols.rodata_start symbols.rodata_end
      → IsSection symbols.data_start symbols.data_end
      → test_page_walker symbols s'.paging.ram root m ≡ done tt (printed m walk_text)
  test_page_walker_lem root s' m bounded placed made text rodata initialised =
      Inits-walk _ root s' (paging_init-Inits symbols platform s bounded placed) made text rodata
        initialised m
