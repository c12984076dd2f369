-- ===== src/Syscall/Read.antt =====
-- `syscall_read`: the line that the user edits, and what the call returns.
use rv64i_operating_system.Base.{
  ℕ, zero, suc, ◌-◌, ◌≤◌, ◌<◌, ◌≡◌, ◌≢◌, false, true, List, [], ◌∷◌, ◌++◌, inl, inr, arith, refl,
  sym, ap, ◌∙◌, ◌==◌, ltb, ◌||◌, if◌then◌else◌, length, take, length-append, length-take,
  Bool-cases, List-cases,
}
use mathlib.Core.List.{append-nil, append_assoc}
use rv64i_operating_system.Machine.State.{Machine, Outcome, done, waiting}
use rv64i_operating_system.Machine.{uart_putc, uart_getc}
use rv64i_operating_system.Syscall.{normalise, is_erase, edit, put_all, read_loop, drop_last}
use rv64i_operating_system.Machine.Print.{printed, OnlyUart}

-- A byte that `read` keeps in the middle of a line: no Enter, no erase key.
abbrev pub IsText : ℕ → Type 0
IsText c = (c ≢ 8) × (c ≢ 10) × (c ≢ 13) × (c ≢ 127)

abbrev pub AllText : List ℕ → Type 0
AllText [] = Unit {0}
AllText (c ∷ s) = IsText c × AllText s

-- A line that `read` may return for `count` bytes: as many bytes of text, or fewer and a newline.
pub data IsLine (count : ℕ) : List ℕ → Type 0 where
  full : (s : List ℕ) → AllText s → length s ≡ count → IsLine count s
  ended : (s : List ℕ) → AllText s → length s < count → IsLine count (s ++ 10 ∷ [])

AllText-take : (n : ℕ) (s : List ℕ) → AllText s → AllText (take n s)
AllText-take zero s h = tt
AllText-take (suc n) [] h = tt
AllText-take (suc n) (c ∷ s) (h, t) = (h, AllText-take n s t)

AllText-snoc : (s : List ℕ) (c : ℕ) → AllText s → IsText c → AllText (s ++ c ∷ [])
AllText-snoc [] c h t = (t, tt)
AllText-snoc (d ∷ s) c (h, r) t = (h, AllText-snoc s c r t)

-- What is left of the keys that were typed, of which `past` has the last one first: each of `\b` and
-- DEL takes away the nearest byte before it that is not taken away yet, and Enter counts as a newline.
unfoldable pub survivors : ℕ → List ℕ → List ℕ
survivors pending [] = []
survivors pending (key ∷ past) =
    let erased = survivors (suc pending) past in
    let kept = survivors pending past in
    let cancelled = survivors (pending - 1) past in
    if key == 8 || key == 0x7f
    then erased
    else if pending == 0
    then kept ++ (if key == 13 then 10 else key) ∷ []
    else cancelled

-- The keys of `past` in the order typed, and then the rest.
abbrev pub onto : List ℕ → List ℕ → List ℕ
onto [] rest = rest
onto (key ∷ past) rest = onto past (key ∷ rest)

-- After each of these keys, and before the first, the line has room and no Enter has come.
abbrev pub Waits : ℕ → List ℕ → Type 0
Waits count [] = 0 < count
Waits count (key ∷ past) =
    (key ≢ 10) × (key ≢ 13) × (length (survivors 0 (key ∷ past)) < count) × Waits count past

-- So too after each but the last of them.
abbrev pub Reached : ℕ → List ℕ → Type 0
Reached count [] = Unit {0}
Reached count (key ∷ past) = Waits count past

-- How the loop of `read` can end, from `m`: with the line that is left of the keys up to the first
-- Enter, or up to the first that fills it, or with no input left before there is one.
pub data Typed (count : ℕ) (m : Machine) : Outcome (List ℕ) → Type 0 where
  entered :
      (past line : List ℕ) (m' : Machine)
      → m.input ≡ onto past m'.input
      → Reached count past
      → line ≡ survivors 0 past
      → IsLine count line
      → OnlyUart m m'
      → Typed count m (done line m')
  starved :
      (past : List ℕ) (m' : Machine)
      → m.input ≡ onto past []
      → Waits count past
      → m'.input ≡ []
      → OnlyUart m m'
      → Typed count m (waiting m')

take-all : (s : List ℕ) (c : ℕ) → take (length s) (s ++ c ∷ []) ≡ s
take-all [] c = refl
take-all (d ∷ s) c = rw (take-all s c)

drop_last-snoc : (s : List ℕ) (c : ℕ) → drop_last (s ++ c ∷ []) ≡ s
drop_last-snoc s c =
    let e : length (s ++ c ∷ []) - 1 ≡ length s = omega (arith, length-append s (c ∷ [])) in
    rw e (take-all s c)

-- The last key, if there is one, is no Enter.
abbrev HeadText : List ℕ → Type 0
HeadText [] = Unit {0}
HeadText (key ∷ past) = (key ≢ 10) × (key ≢ 13)

Reached-Waits :
    (count : ℕ) (past : List ℕ)
    → Reached count past
    → length (survivors 0 past) < count
    → HeadText past
    → Waits count past
unfolding survivors
Reached-Waits count [] reached room text = room
Reached-Waits count (key ∷ past) reached room text = (text.0, text.1, room, reached)

-- One more pending erase takes the last byte.
survivors-suc :
    (past : List ℕ) (pending : ℕ)
    → survivors (suc pending) past ≡ drop_last (survivors pending past)
unfolding survivors
survivors-suc [] pending = refl
survivors-suc (key ∷ past) zero = elim (Bool-cases (key == 8 || key == 0x7f)) [
  | inl erase ↦ rw erase (survivors-suc past 1)
  | inr text ↦ rw text (sym (drop_last-snoc (survivors 0 past) (if key == 13 then 10 else key)))
]
survivors-suc (key ∷ past) (suc p) = elim (Bool-cases (key == 8 || key == 0x7f)) [
  | inl erase ↦ rw erase (survivors-suc past (suc (suc p)))
  | inr text ↦
      let more : (suc p == 0) ≡ false = ground arith in
      let more' : (suc (suc p) == 0) ≡ false = ground arith in
      let less : suc p - 1 ≡ p = omega arith in
      let less' : suc (suc p) - 1 ≡ suc p = omega arith in
      rw (text, more, more', less, less') (survivors-suc past p)
]

-- What a key that is not Enter leaves of the line.
edit-AllText :
    (temp : List ℕ) (c count : ℕ)
    → AllText temp
    → length temp < count
    → (normalise c == 10) ≡ false
    → AllText (edit temp (normalise c)).0 × (length (edit temp (normalise c)).0 ≤ count)
unfolding edit
edit-AllText temp c count clean room other = elim (Bool-cases (is_erase (normalise c))) [
  | inl erase ↦ rw erase (elim (Bool-cases (ltb 0 (length temp))) [
    | inl some_left ↦ rw some_left (
      AllText-take (length temp - 1) temp clean,
      omega (arith, length-take (length temp - 1) temp),
    )
    | inr empty ↦ rw empty (clean, omega arith)
  ])
  | inr text ↦ rw text (
    AllText-snoc temp (normalise c) clean (ground arith),
    omega (arith, length-append temp (normalise c ∷ [])),
  )
]

edit-newline : (temp : List ℕ) → edit temp 10 ≡ (temp ++ 10 ∷ [], 10 ∷ [])
unfolding edit
edit-newline temp = refl

-- What a key does to the line.
edit-survivors :
    (past : List ℕ) (key : ℕ)
    → (edit (survivors 0 past) (normalise key)).0 ≡ survivors 0 (key ∷ past)
unfolding edit survivors
edit-survivors past key = elim (Bool-cases (key == 8 || key == 0x7f)) [
  | inl erase ↦
      let c : normalise key ≡ key = ground arith in
      elim (List-cases (survivors 0 past)) [
        | inl empty ↦ rw (c, erase, survivors-suc past 0, empty) refl
        | inr (x, rest, e) ↦
            let some_left : ltb 0 (length (x ∷ rest)) ≡ true = ground arith in
            rw (c, erase, survivors-suc past 0, e, some_left) refl
      ]
  | inr text ↦ let kept : is_erase (normalise key) ≡ false = ground arith in rw (text, kept) refl
]

survivors-enter :
    (past : List ℕ) (key : ℕ)
    → normalise key ≡ 10
    → survivors 0 (key ∷ past) ≡ survivors 0 past ++ 10 ∷ []
survivors-enter past key enter =
    sym (edit-survivors past key) ∙ rw enter (ap (λ r. r.0) (edit-newline (survivors 0 past)))

put_all_lem : (s : List ℕ) (m : Machine) → put_all s m ≡ done tt (printed m s)
unfolding put_all uart_putc
put_all_lem [] m = rw append-nil
put_all_lem (c ∷ s) m = rw (put_all_lem s (printed m (c ∷ [])), append_assoc)

-- The loop of `read` when the keys of `past` have been typed since `m0`, with more fuel than input
-- left: it leaves memory and `sstatus` alone.
loop-Typed :
    (fuel count : ℕ) (past : List ℕ) (m0 m : Machine)
    → m0.input ≡ onto past m.input
    → OnlyUart m0 m
    → Reached count past
    → AllText (survivors 0 past)
    → length (survivors 0 past) ≤ count
    → HeadText past
    → length m.input < fuel
    → Typed count m0 (read_loop fuel count (survivors 0 past) m)
unfolding read_loop uart_getc
loop-Typed zero count past m0 m typed same reached clean le text enough = absurd (omega arith)
loop-Typed (suc fuel) count past m0 m typed same reached clean le text enough =
    let temp = survivors 0 past in
    elim (Bool-cases (ltb (length temp) count)) [
      | inr at_limit ↦
          rw at_limit (entered past temp m typed reached refl (full temp clean (ground arith)) same)
      | inl room ↦
          let waits : Waits count past = Reached-Waits count past reached (ground arith) text in
          elim (List-cases m.input) [
            | inl empty ↦
                rw (room, uart_getc, empty) (starved past m (rw empty at typed) waits empty same)
            | inr (key, rest, e) ↦
                let m' : Machine = record m { input = rest } in
                let (temp', echo) = edit temp (normalise key) in
                elim (Bool-cases (normalise key == 10)) [
                  | inl enter ↦
                      let c : normalise key ≡ 10 = ground (arith, enter) in
                      rw (room, uart_getc, e, c, edit-newline temp, put_all_lem (10 ∷ []) m')
                        (entered (key ∷ past) _ (printed m' (10 ∷ [])) (rw e at typed) waits
                          (sym (survivors-enter past key c)) (ended temp clean (ground arith)) same)
                  | inr other ↦
                      let kept = edit-AllText temp key count clean (ground arith) other in
                      let next = edit-survivors past key in
                      rw (room, uart_getc, e, put_all_lem echo m', other, next)
                        (loop-Typed fuel count (key ∷ past) m0 (printed m' echo) (rw e at typed)
                          same waits (rw next at kept.0) (rw next at kept.1) (ground (arith, other))
                          (omega (arith, ap length e)))
                ]
          ]
    ]

pub read_loop-Typed :
    (fuel count : ℕ) (m : Machine)
    → length m.input < fuel
    → Typed count m (read_loop fuel count [] m)
unfolding survivors
read_loop-Typed fuel count m enough =
    loop-Typed fuel count [] m m refl (refl, refl, refl) tt tt (omega arith) tt enough
