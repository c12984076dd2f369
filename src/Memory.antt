-- ===== src/Memory.antt =====
-- src/utility/memory.cpp on a memory of bytes. A pointer is an address. A `while` loop over a text
-- takes fuel and is `none` when that runs out: it ends at the NUL, if the fuel reaches it.
pub mod Move
pub mod Text
pub mod Number
mod Tests
use rv64i_operating_system.Base.{
  ℕ, zero, suc, ◌+◌, ◌-◌, ◌*◌, ◌/◌, ◌%◌, ◌^◌, Bool, true, false, not, ◌&&◌, ◌||◌, Option, none,
  some, ◌==◌, ltb, leb, if◌then◌else◌, u8, u32, add64, mul64,
}
use rv64i_operating_system.Ram.{Ram, store8}

-- for (i = 0; i < n; ++i) d[i] = s[i], from index `i` with `left` rounds to go
unfoldable pub copy_up : ℕ → ℕ → ℕ → ℕ → Ram → Ram
copy_up dest src zero i ram = ram
copy_up dest src (suc left) i ram =
    copy_up dest src left (i + 1) (store8 ram (add64 dest i) (ram (add64 src i)))

-- for (i = n; i != 0; --i) d[i - 1] = s[i - 1]
unfoldable pub copy_down : ℕ → ℕ → ℕ → Ram → Ram
copy_down dest src zero ram = ram
copy_down dest src (suc i) ram =
    copy_down dest src i (store8 ram (add64 dest i) (ram (add64 src i)))

-- The returned pointer, and the memory.
unfoldable pub memcpy : ℕ → ℕ → ℕ → Ram → ℕ × Ram
memcpy dest src n ram = (dest, copy_up dest src n 0 ram)

unfoldable pub memmove : ℕ → ℕ → ℕ → Ram → ℕ × Ram
memmove dest src n ram =
    (dest, if ltb dest src then copy_up dest src n 0 ram else copy_down dest src n ram)

unfoldable pub fill : ℕ → ℕ → ℕ → ℕ → Ram → Ram
fill dest c zero i ram = ram
fill dest c (suc left) i ram = fill dest c left (i + 1) (store8 ram (add64 dest i) (u8 c))

unfoldable pub memset : ℕ → ℕ → ℕ → Ram → ℕ × Ram
memset dest c n ram = (dest, fill dest c n 0 ram)

-- An `int` result is its 32-bit pattern.
unfoldable pub compare_bytes : Ram → ℕ → ℕ → ℕ → ℕ → ℕ
compare_bytes ram a b zero i = 0
compare_bytes ram a b (suc left) i =
    let x = ram (add64 a i) in
    let y = ram (add64 b i) in
    let rest = compare_bytes ram a b left (i + 1) in
    if not (x == y) then u32 (x + 2 ^ 32 - y) else rest

unfoldable pub memcmp : Ram → ℕ → ℕ → ℕ → ℕ
memcmp ram a b n = compare_bytes ram a b n 0

unfoldable pub strlen_loop : Ram → ℕ → ℕ → ℕ → Option ℕ
strlen_loop ram s zero len = none
strlen_loop ram s (suc fuel) len =
    let rest = strlen_loop ram s fuel (len + 1) in if ram (add64 s len) == 0 then some len else rest

unfoldable pub strlen : Ram → ℕ → ℕ → Option ℕ
strlen ram fuel s = strlen_loop ram s fuel 0

-- The null pointer is 0.
unfoldable pub memchr_loop : Ram → ℕ → ℕ → ℕ → ℕ → ℕ
memchr_loop ram ptr c zero i = 0
memchr_loop ram ptr c (suc left) i =
    let rest = memchr_loop ram ptr c left (i + 1) in
    if ram (add64 ptr i) == u8 c then add64 ptr i else rest

unfoldable pub memchr : Ram → ℕ → ℕ → ℕ → ℕ
memchr ram ptr c n = memchr_loop ram ptr c n 0

unfoldable pub strchr : Ram → ℕ → ℕ → ℕ → Option ℕ
strchr ram zero s c = none
strchr ram (suc fuel) s c =
    let rest = strchr ram fuel (add64 s 1) c in
    if ram s == 0 then some (if c == 0 then s else 0) else if ram s == u8 c then some s else rest

-- The loop of `strrchr`: where it stops, and `last`.
unfoldable pub strrchr_loop : Ram → ℕ → ℕ → ℕ → ℕ → Option (ℕ × ℕ)
strrchr_loop ram zero s c last = none
strrchr_loop ram (suc fuel) s c last =
    let rest = strrchr_loop ram fuel (add64 s 1) c (if ram s == u8 c then s else last) in
    if ram s == 0 then some (s, last) else rest

unfoldable pub strrchr : Ram → ℕ → ℕ → ℕ → Option ℕ
strrchr ram fuel s c = elim (strrchr_loop ram fuel s c 0) [
  | none ↦ none
  | some found ↦ some (if c == 0 then found.0 else found.1)
]

unfoldable pub strnlen_loop : Ram → ℕ → ℕ → ℕ → ℕ
strnlen_loop ram s zero len = len
strnlen_loop ram s (suc left) len =
    let rest = strnlen_loop ram s left (len + 1) in
    if not (ram (add64 s len) == 0) then rest else len

unfoldable pub strnlen : Ram → ℕ → ℕ → ℕ
strnlen ram s maxlen = strnlen_loop ram s maxlen 0

-- while (*nptr == ' ' || *nptr == '\t') ++nptr
unfoldable pub skip_blanks : Ram → ℕ → ℕ → Option ℕ
skip_blanks ram zero nptr = none
skip_blanks ram (suc fuel) nptr =
    let rest = skip_blanks ram fuel (add64 nptr 1) in
    if ram nptr == 32 || ram nptr == 9 then rest else some nptr

-- `digit`, or `none` where the loop breaks.
unfoldable pub digit_of : ℕ → Option ℕ
digit_of c =
    if leb b'0' c && leb c b'9'
    then some (c - b'0')
    else if leb b'a' c && leb c b'f'
    then some (10 + (c - b'a'))
    else if leb b'A' c && leb c b'F'
    then some (10 + (c - b'A'))
    else none

-- The result and the end pointer.
unfoldable pub read_digits : Ram → ℕ → ℕ → ℕ → ℕ → Option (ℕ × ℕ)
read_digits ram zero nptr base result = none
read_digits ram (suc fuel) nptr base result =
    let c = ram nptr in
    if c == 0 then some (result, nptr) else elim (digit_of c) [
      | none ↦ some (result, nptr)
      | some digit ↦
          let rest = read_digits ram fuel (add64 nptr 1) base (add64 (mul64 result base) digit) in
          if leb base digit then some (result, nptr) else rest
    ]

-- The base that is used, and where the digits start. A base is not negative.
unfoldable pub base_prefix : Ram → ℕ → ℕ → ℕ × ℕ
base_prefix ram nptr base =
    if base == 0
    then (if ram nptr == b'0' && (ram (add64 nptr 1) == b'x' || ram (add64 nptr 1) == b'X')
        then (16, add64 nptr 2)
        else (10, nptr))
    else (base, nptr)

-- The result, and what is written to `endptr` if that is not null.
unfoldable pub strtoul : Ram → ℕ → ℕ → ℕ → Option (ℕ × ℕ)
strtoul ram fuel nptr base = elim (skip_blanks ram fuel nptr) [
  | none ↦ none
  | some start ↦
      let (base', digits) = base_prefix ram start base in read_digits ram fuel digits base' 0
]
