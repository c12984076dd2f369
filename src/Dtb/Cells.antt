-- ===== src/Dtb/Cells.antt =====
-- `be32_to_cpu` and `read_cells`: the big-endian numbers that a device tree holds.
use rv64i_operating_system.Base.{
  ℕ, ◌+◌, ◌*◌, ◌/◌, ◌%◌, ◌^◌, ◌<◌, ◌≡◌, List, [], ◌∷◌, arith, ◌∙◌, bit_and, bit_or, add64, shl64,
  u32, length,
}
use rv64i_operating_system.Base.Bits.{bit_and-low, bit_and-high, bit_or-fields}
use rv64i_operating_system.Ram.{Ram}
use rv64i_operating_system.Dtb.{Libfdt, load32, be32_to_cpu, read_cells_from, read_cells}

-- The four masks of `be32_to_cpu` pick the four bytes of a 32-bit number.
byte_masks :
    (v : ℕ)
    → v < 2 ^ 32
    → (bit_and v 0xff ≡ v % 256)
      × (bit_and v 0xff00 ≡ v / 256 % 256 * 256)
      × (bit_and v 0xff_0000 ≡ v / 65536 % 256 * 65536)
      × (bit_and v 0xff00_0000 ≡ v / 2 ^ 24 * 2 ^ 24)
byte_masks v h = (
  bit_and-low 8 v,
  omega (arith, bit_and-high 8 v 255, bit_and-low 8 (v / 256)),
  omega (arith, bit_and-high 16 v 255, bit_and-low 8 (v / 65536)),
  omega (arith, bit_and-high 24 v 255, bit_and-low 8 (v / 2 ^ 24)),
)

join_bytes :
    (a b c d : ℕ)
    → a < 256
    → b < 256
    → c < 256
    → d < 256
    → bit_or (bit_or (bit_or (a * 2 ^ 24) (b * 2 ^ 16)) (c * 2 ^ 8)) d
      ≡ a * 2 ^ 24 + b * 2 ^ 16 + c * 2 ^ 8 + d
join_bytes a b c d ha hb hc hd =
    let first : bit_or (a * 2 ^ 24) (b * 2 ^ 16) ≡ a * 2 ^ 24 + b * 2 ^ 16 =
      bit_or-fields 24 a (b * 2 ^ 16) (omega arith) in
    let q = a * 256 + b in
    let two : a * 2 ^ 24 + b * 2 ^ 16 ≡ q * 2 ^ 16 = omega arith in
    let r = q * 256 + c in
    let three : q * 2 ^ 16 + c * 2 ^ 8 ≡ r * 2 ^ 8 = omega arith in
    rw (first, two, bit_or-fields 16 q (c * 2 ^ 8) (omega arith), three, bit_or-fields 8 r d hd)
      (omega arith)

-- `be32_to_cpu` of what a load finds is the number that the four bytes stand for with the highest
-- first.
be32_to_cpu-load32 :
    (ram : Ram) (p : ℕ)
    → ((a : ℕ) → ram a < 256)
    → p + 3 < 2 ^ 64
    → be32_to_cpu (load32 ram p)
      ≡ ram p * 2 ^ 24 + ram (p + 1) * 2 ^ 16 + ram (p + 2) * 2 ^ 8 + ram (p + 3)
unfolding be32_to_cpu load32
be32_to_cpu-load32 ram p bytes top =
    let a = ram p in
    let b = ram (p + 1) in
    let c = ram (p + 2) in
    let d = ram (p + 3) in
    let next : add64 p 1 ≡ p + 1 = omega arith in
    let next2 : add64 p 2 ≡ p + 2 = omega arith in
    let next3 : add64 p 3 ≡ p + 3 = omega arith in
    let (ha, hb, hc, hd) : (a < 256) × (b < 256) × (c < 256) × (d < 256) =
      (bytes p, bytes (p + 1), bytes (p + 2), bytes (p + 3)) in
    let v = a + 2 ^ 8 * b + 2 ^ 16 * c + 2 ^ 24 * d in
    let masks = byte_masks v (omega arith) in
    let one : u32 (v % 256 * 2 ^ 24) ≡ a * 2 ^ 24 = omega arith in
    let two : u32 (v / 256 % 256 * 256 * 2 ^ 8) ≡ b * 2 ^ 16 = omega arith in
    let three : v / 65536 % 256 * 65536 / 2 ^ 8 ≡ c * 2 ^ 8 = omega arith in
    let four : v / 2 ^ 24 * 2 ^ 24 / 2 ^ 24 ≡ d = omega arith in
    rw (next, next2, next3, masks.0, masks.1, masks.2, masks.3, one, two, three, four)
      (join_bytes a b c d ha hb hc hd)

-- The number that cells stand for, the first the highest.
unfoldable pub cells_value : ℕ → List ℕ → ℕ
cells_value acc [] = acc
cells_value acc (v ∷ values) = cells_value (acc * 2 ^ 32 + v) values

-- The cells at a pointer, as `fdt32_to_cpu` reads them.
abbrev pub CellsAt : Libfdt → Ram → ℕ → List ℕ → Type 0
CellsAt fdt ram p [] = Unit {0}
CellsAt fdt ram p (v ∷ values) =
    (fdt.fdt32_to_cpu (load32 ram p) ≡ v) × (v < 2 ^ 32) × CellsAt fdt ram (add64 p 4) values

cells_value-mod :
    (values : List ℕ) (acc acc' : ℕ)
    → acc % 2 ^ 64 ≡ acc' % 2 ^ 64
    → cells_value acc values % 2 ^ 64 ≡ cells_value acc' values % 2 ^ 64
unfolding cells_value
cells_value-mod [] acc acc' h = h
cells_value-mod (v ∷ values) acc acc' h =
    cells_value-mod values (acc * 2 ^ 32 + v) (acc' * 2 ^ 32 + v) (omega arith)

read_cells_from_lem :
    (fdt : Libfdt) (ram : Ram) (values : List ℕ) (p acc : ℕ)
    → CellsAt fdt ram p values
    → acc < 2 ^ 64
    → read_cells_from fdt ram p (length values) acc ≡ cells_value acc values % 2 ^ 64
unfolding read_cells_from cells_value
read_cells_from_lem fdt ram [] p acc cells small = omega arith
read_cells_from_lem fdt ram (v ∷ values) p acc (here, fits, cells) small =
    let shifted : shl64 acc 32 ≡ acc % 2 ^ 32 * 2 ^ 32 = omega arith in
    let joined : bit_or (shl64 acc 32) v ≡ acc % 2 ^ 32 * 2 ^ 32 + v =
      rw shifted (bit_or-fields 32 (acc % 2 ^ 32) v fits) in
    rw (read_cells_from, here, joined)
      (read_cells_from_lem fdt ram values (add64 p 4) (acc % 2 ^ 32 * 2 ^ 32 + v) cells
          (omega arith)
        ∙ cells_value-mod values (acc % 2 ^ 32 * 2 ^ 32 + v) (acc * 2 ^ 32 + v) (omega arith))

-- `read_cells` reads the number that the cells stand for, modulo 2^64: of more than two cells it
-- keeps the last two.
read_cells_lem :
    (fdt : Libfdt) (ram : Ram) (values : List ℕ) (p : ℕ)
    → CellsAt fdt ram p values
    → read_cells fdt ram p (length values) ≡ cells_value 0 values % 2 ^ 64
unfolding read_cells
read_cells_lem fdt ram values p cells = read_cells_from_lem fdt ram values p 0 cells (omega arith)
