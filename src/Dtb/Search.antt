-- ===== src/Dtb/Search.antt =====
-- The loops of DTB.cpp over the nodes and over the strings of `compatible`.
use rv64i_operating_system.Base.{
  ℕ, zero, suc, ◌+◌, ◌-◌, ◌≤◌, ◌<◌, ◌≡◌, ◌≢◌, ◌↔◌, subst, ◌⊎◌, inl, inr, Bool, true, false, ◌||◌,
  Option, none, some, List, [], ◌∷◌, ◌==◌, ltb, Bool-cases, Option-cases, arith, refl, add64,
  length,
}
use native.Mathlib.Decide.{ℕ_discrete}
use rv64i_operating_system.Ram.{Ram}
use rv64i_operating_system.Machine.{codes}
use rv64i_operating_system.Dtb.{
  ℤ, Libfdt, search_nodes, skip_string, looks_like_uart, starts_with, uart_from, uart_body,
}

-- From this node, `fdt_next_node` gives these nodes in turn and then a negative number.
abbrev pub Walk : Libfdt → ℕ → ℤ → List ℕ → Type 0
Walk fdt g_dtb node [] = (n : ℕ) × (fdt.fdt_next_node g_dtb node ≡ ℤ.negsuc n)
Walk fdt g_dtb node (next ∷ nodes) =
    (fdt.fdt_next_node g_dtb node ≡ ℤ.pos next) × Walk fdt g_dtb (ℤ.pos next) nodes

-- The body of a loop has fuel enough at any node.
abbrev pub Answers : {A : Type 0} → (ℕ → Option (Option A)) → Type 0
Answers {A} body = (node : ℕ) → (answer : Option A) × (body node ≡ some answer)

-- With more fuel than nodes, and a body with enough fuel, `search_nodes` returns.
pub search_nodes-returns :
    (fdt : Libfdt) (ram : Ram) {A : Type 0} (g_dtb : ℕ) (body : ℕ → Option (Option A))
    (nodes : List ℕ) (node : ℤ) (fuel : ℕ)
    → Answers body
    → Walk fdt g_dtb node nodes
    → length nodes < fuel
    → (o : Option A) × (search_nodes fdt ram g_dtb body fuel node ≡ some o)
unfolding search_nodes
search_nodes-returns fdt ram g_dtb body [] node zero answers walk enough = absurd (omega arith)
search_nodes-returns fdt ram g_dtb body [] node (suc fuel) answers (n, last) enough =
    rw (search_nodes, last) (none, refl)
search_nodes-returns fdt ram g_dtb body (next ∷ nodes) node zero answers walk enough =
    absurd (omega arith)
search_nodes-returns fdt ram g_dtb body (next ∷ nodes) node (suc fuel) answers (here, walk) enough =
    let rest =
      search_nodes-returns fdt ram g_dtb body nodes (ℤ.pos next) fuel answers walk (omega arith) in
    let (answer, e) = answers next in
    elim (Option-cases answer) [
      | inl silent ↦ rw (search_nodes, here, e, silent) rest
      | inr (found, some_found) ↦ rw (search_nodes, here, e, some_found) (some found, refl)
    ]

-- The end of a string is the first NUL, or the end of the property.
skip_string_lem :
    (ram : Ram) (p left i : ℕ)
    → (i ≤ skip_string ram p left i)
      × (skip_string ram p left i ≤ i + left)
      × ((k : ℕ) → i ≤ k → k < skip_string ram p left i → ¬ ram (add64 p k) ≡ 0)
      × ((skip_string ram p left i < i + left) → ram (add64 p (skip_string ram p left i)) ≡ 0)
unfolding skip_string
skip_string_lem ram p zero i =
    (omega arith, omega arith, λ k low high. absurd (omega arith), λ short. absurd (omega arith))
skip_string_lem ram p (suc left) i =
    let (low, high, text, nul) = skip_string_lem ram p left (i + 1) in
    elim (ℕ_discrete (ram (add64 p i)) 0) [
      | yes e ↦ rw e (omega arith, omega arith, λ k below above. absurd (omega arith), λ short. e)
      | no ne ↦
          let test : (ram (add64 p i) == 0) ≡ false = ground (arith, ne) in
          rw test (
            omega arith,
            omega arith,
            λ k below above. elim (ℕ_discrete k i) [
              | yes e ↦ rw e ne
              | no far ↦ text k (omega arith) above
            ],
            λ short. nul (omega arith),
          )
    ]

-- A string of the property begins at `j`, seen from the start of a string.
abbrev pub StringAt : Ram → ℕ → ℕ → ℕ → Type 0
StringAt ram p i j = (j ≡ i) ⊎ (ram (add64 p (j - 1)) ≡ 0)

-- One of the two names of a UART stands there.
abbrev pub names_uart : Ram → ℕ → Bool
names_uart ram s = starts_with ram s (codes "ns16550") || starts_with ram s (codes "uart")

-- From the start of a string: one of the strings that begin from there on names a UART.
abbrev pub NamesUart : Ram → ℕ → ℕ → ℕ → Type 0
NamesUart ram p len i =
    (j : ℕ) × (i ≤ j) × (j < len) × StringAt ram p i j × (names_uart ram (add64 p j) ≡ true)

pub ℤ-cases : (i : ℤ) → ((n : ℕ) × (i ≡ ℤ.pos n)) ⊎ ((n : ℕ) × (i ≡ ℤ.negsuc n))
ℤ-cases (ℤ.pos n) = inl (n, refl)
ℤ-cases (ℤ.negsuc n) = inr (n, refl)

ltb-cases : (a b : ℕ) → ((ltb a b ≡ true) × (a < b)) ⊎ ((ltb a b ≡ false) × (b ≤ a))
ltb-cases a b = elim (Bool-cases (ltb a b)) [
  | inl yes_below ↦ inl (yes_below, ground (arith, yes_below))
  | inr above ↦ inr (above, ground (arith, above))
]

-- A string that begins after the first one, seen from the next string.
from_next :
    (ram : Ram) (p len i : ℕ)
    → i < len
    → NamesUart ram p len (skip_string ram p (len - i) i + 1)
    → NamesUart ram p len i
from_next ram p len i below (j, low, high, start, named) =
    let (reach, _, _, nul) = skip_string_lem ram p (len - i) i in
    let ended : ram (add64 p (j - 1)) ≡ 0 = elim start [
      | inl e ↦
          let last : j - 1 ≡ skip_string ram p (len - i) i = omega arith in
          rw last (nul (omega arith))
      | inr z ↦ z
    ] in
    (j, omega arith, high, inr ended, named)

to_next :
    (ram : Ram) (p len i : ℕ)
    → names_uart ram (add64 p i) ≡ false
    → NamesUart ram p len i
    → NamesUart ram p len (skip_string ram p (len - i) i + 1)
to_next ram p len i other (j, low, high, start, named) =
    let (_, _, text, _) = skip_string_lem ram p (len - i) i in
    let far : j ≢ i =
      λ e. ground (arith, other, subst (λ k. names_uart ram (add64 p k) ≡ true) e named) in
    let ended : ram (add64 p (j - 1)) ≡ 0 = elim start [ inl e ↦ absurd (far e) | inr z ↦ z ] in
    let past : ¬ (j - 1 < skip_string ram p (len - i) i) =
      λ inside. text (j - 1) (omega arith) inside ended in
    (j, omega arith, high, inr ended, named)

looks_like_uart_iff :
    (ram : Ram) (p len fuel i : ℕ)
    → len ≤ fuel + i
    → looks_like_uart ram p len fuel i ≡ some true ↔ NamesUart ram p len i
unfolding looks_like_uart
looks_like_uart_iff ram p len zero i enough =
    let test : ltb i len ≡ false = ground arith in
    rw test (λ h. absurd (ground (arith, h)), λ (j, low, high, _, _). absurd (omega arith))
looks_like_uart_iff ram p len (suc fuel) i enough =
    let next = skip_string ram p (len - i) i + 1 in
    let reach = (skip_string_lem ram p (len - i) i).0 in
    let (forth, back) = looks_like_uart_iff ram p len fuel next (omega arith) in
    elim (ltb-cases i len) [
      | inl (test, below) ↦ elim (Bool-cases (names_uart ram (add64 p i))) [
        | inl named ↦ rw (test, named) (λ _. (i, omega arith, below, inl refl, named), λ _. refl)
        | inr other ↦
            rw (test, other)
              (
                λ h. from_next ram p len i below (forth h),
                λ names. back (to_next ram p len i other names),
              )
      ]
      | inr (test, above) ↦
          rw test (λ h. absurd (ground (arith, h)), λ (j, low, high, _, _). absurd (omega arith))
    ]

-- A round goes on by a byte at least, so that the length of the property is fuel enough.
looks_like_uart-returns :
    (ram : Ram) (p len fuel i : ℕ)
    → len ≤ fuel + i
    → (b : Bool) × (looks_like_uart ram p len fuel i ≡ some b)
unfolding looks_like_uart
looks_like_uart-returns ram p len zero i enough =
    let test : ltb i len ≡ false = ground arith in rw test (false, refl)
looks_like_uart-returns ram p len (suc fuel) i enough =
    let next = skip_string ram p (len - i) i + 1 in
    let reach = (skip_string_lem ram p (len - i) i).0 in
    let rest = looks_like_uart-returns ram p len fuel next (omega arith) in
    elim (Bool-cases (ltb i len)) [
      | inr above ↦ rw above (false, refl)
      | inl below ↦ elim (Bool-cases (names_uart ram (add64 p i))) [
        | inl named ↦ rw (below, named) (true, refl)
        | inr other ↦ rw (below, other) rest
      ]
    ]

pub uart_body-Answers :
    (fdt : Libfdt) (ram : Ram) (g_dtb addr_cells : ℕ) → Answers (uart_body fdt ram g_dtb addr_cells)
unfolding uart_body
uart_body-Answers fdt ram g_dtb addr_cells node =
    elim (Option-cases (fdt.fdt_getprop g_dtb (ℤ.pos node) (codes "compatible"))) [
      | inl missing ↦ rw (uart_body, missing) (none, refl)
      | inr ((compatible, len), there) ↦ elim (ℤ-cases len) [
        | inr (n, e) ↦ rw (uart_body, there, e) (none, refl)
        | inl (n, e) ↦
            let (b, loop) = looks_like_uart-returns ram compatible n n 0 (omega arith) in
            rw (uart_body, there, e, loop) (uart_from fdt ram g_dtb addr_cells node b, refl)
      ]
    ]

-- The loop over the strings returns, and answers true exactly when one of the NUL-separated strings
-- of the property begins with "ns16550" or with "uart".
pub looks_like_uart-NamesUart :
    (ram : Ram) (p len : ℕ)
    → ((b : Bool) × (looks_like_uart ram p len len 0 ≡ some b))
      × (looks_like_uart ram p len len 0 ≡ some true ↔ NamesUart ram p len 0)
looks_like_uart-NamesUart ram p len = (
  looks_like_uart-returns ram p len len 0 (omega arith),
  looks_like_uart_iff ram p len len 0 (omega arith),
)
