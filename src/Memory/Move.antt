-- ===== src/Memory/Move.antt =====
-- `memcpy`, `memmove` and `memset`: every byte of the result.
use rv64i_operating_system.Base.{
  ℕ, zero, suc, ◌+◌, ◌-◌, ◌^◌, ◌≤◌, ◌<◌, ◌≡◌, ◌⊎◌, inl, inr, ◌&&◌, arith, ap, sym, ◌∙◌, ltb, leb,
  if◌then◌else◌, u8, add64, Bool-cases,
}
use rv64i_operating_system.Ram.{Ram, store8}
use rv64i_operating_system.Memory.{copy_up, copy_down, memcpy, memmove, fill, memset}

-- The memory after `n` bytes have been copied at once.
abbrev pub moved : ℕ → ℕ → ℕ → Ram → Ram
moved dest src n ram b =
    if leb dest b && ltb b (dest + n) then u8 (ram (src + (b - dest))) else ram b

module _ (dest src : ℕ) where
  -- Upwards a byte is read before it is written, unless the destination lies inside the source.
  copy_up_lem :
      (left i : ℕ) (ram : Ram) (b : ℕ)
      → (dest ≤ src) ⊎ (src + i + left ≤ dest)
      → dest + i + left < 2 ^ 64
      → src + i + left < 2 ^ 64
      → copy_up dest src left i ram b ≡ (
          if leb (dest + i) b && ltb b (dest + i + left)
          then u8 (ram (src + (b - dest)))
          else ram b)
  unfolding copy_up store8
  copy_up_lem zero i ram b h top top' = ground arith
  copy_up_lem (suc left) i ram b h top top' =
      let d : add64 dest i ≡ dest + i = omega arith in
      let s : add64 src i ≡ src + i = omega arith in
      let ram' = store8 ram (dest + i) (ram (src + i)) in
      let index : dest + i - dest ≡ i = omega arith in
      rw (d, s)
        (copy_up_lem left (i + 1) ram' b (omega arith) (omega arith) (omega arith)
          ∙ ground (arith, ap (λ (t : ℕ). ram (src + t)) index))

  copy_down_lem :
      (n : ℕ) (ram : Ram) (b : ℕ)
      → src ≤ dest
      → dest + n < 2 ^ 64
      → copy_down dest src n ram b
        ≡ (if leb dest b && ltb b (dest + n) then u8 (ram (src + (b - dest))) else ram b)
  unfolding copy_down store8
  copy_down_lem zero ram b h top = ground arith
  copy_down_lem (suc i) ram b h top =
      let d : add64 dest i ≡ dest + i = omega arith in
      let s : add64 src i ≡ src + i = omega arith in
      let ram' = store8 ram (dest + i) (ram (src + i)) in
      let index : dest + i - dest ≡ i = omega arith in
      rw (d, s)
        (copy_down_lem i ram' b h (omega arith)
          ∙ ground (arith, ap (λ (t : ℕ). ram (src + t)) index))

-- `memcpy` copies every byte as it was before the call and touches no other, if the destination does
-- not start inside the source.
pub memcpy_lem :
    (dest src n : ℕ) (ram : Ram) (b : ℕ)
    → (dest ≤ src) ⊎ (src + n ≤ dest)
    → dest + n < 2 ^ 64
    → src + n < 2 ^ 64
    → (memcpy dest src n ram).1 b ≡ moved dest src n ram b
unfolding memcpy
memcpy_lem dest src n ram b h top top' =
    let e : dest + 0 ≡ dest = omega arith in
    rw e at (copy_up_lem dest src n 0 ram b (omega arith) (omega arith) (omega arith))

-- `memmove` copies every byte as it was before the call and touches no other, however the two
-- areas overlap.
pub memmove_lem :
    (dest src n : ℕ) (ram : Ram) (b : ℕ)
    → dest + n < 2 ^ 64
    → src + n < 2 ^ 64
    → (memmove dest src n ram).1 b ≡ moved dest src n ram b
unfolding memmove
memmove_lem dest src n ram b top top' = elim (Bool-cases (ltb dest src)) [
  | inl up ↦
      let e : dest + 0 ≡ dest = omega arith in
      rw up
        (rw e at (copy_up_lem dest src n 0 ram b (inl (ground arith)) (omega arith) (omega arith)))
  | inr down ↦ rw down (copy_down_lem dest src n ram b (ground arith) top)
]

-- If the destination does not start inside the source, `memcpy` and `memmove` leave the same memory.
pub memcpy-memmove :
    (dest src n : ℕ) (ram : Ram) (b : ℕ)
    → (dest ≤ src) ⊎ (src + n ≤ dest)
    → dest + n < 2 ^ 64
    → src + n < 2 ^ 64
    → (memcpy dest src n ram).1 b ≡ (memmove dest src n ram).1 b
memcpy-memmove dest src n ram b h top top' =
    memcpy_lem dest src n ram b h top top' ∙ sym (memmove_lem dest src n ram b top top')

fill_lem :
    (dest c left i : ℕ) (ram : Ram) (b : ℕ)
    → dest + i + left < 2 ^ 64
    → fill dest c left i ram b
      ≡ (if leb (dest + i) b && ltb b (dest + i + left) then u8 c else ram b)
unfolding fill store8
fill_lem dest c zero i ram b top = ground arith
fill_lem dest c (suc left) i ram b top =
    let d : add64 dest i ≡ dest + i = omega arith in
    rw d (ground (arith, fill_lem dest c left (i + 1) (store8 ram (dest + i) (u8 c)) b))

-- `memset` writes its byte to the area and touches no other byte.
pub memset_lem :
    (dest c n : ℕ) (ram : Ram) (b : ℕ)
    → dest + n < 2 ^ 64
    → (memset dest c n ram).1 b ≡ (if leb dest b && ltb b (dest + n) then u8 c else ram b)
unfolding memset
memset_lem dest c n ram b top =
    let e : dest + 0 ≡ dest = omega arith in rw e at (fill_lem dest c n 0 ram b (omega arith))
