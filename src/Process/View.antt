-- ===== src/Process/View.antt =====
-- The image of a program in memory, as the page table shows it.
use rv64i_operating_system.Base.{
  ℕ, zero, suc, ◌+◌, ◌%◌, ◌^◌, ◌≤◌, ◌<◌, ◌≡◌, some, List, [], ◌∷◌, arith, refl, length, get_or,
  add64,
}
use rv64i_operating_system.Paging.State.{PagingState}
use rv64i_operating_system.Syscall.Copy.{bytes_at}
use rv64i_operating_system.Process.{LoadedUserProgram, user_text_start}
use rv64i_operating_system.Paging.View.{view}
use rv64i_operating_system.Process.Load.{Loaded}

-- `n` bytes of the image from byte `j` on.
abbrev pub part : List ℕ → ℕ → ℕ → List ℕ
part image j zero = []
part image j (suc n) = get_or image j 0 % 256 ∷ part image (j + 1) n

-- The text of a program that is loaded reads as its image.
pub bytes_at-view :
    {root : ℕ} {image : List ℕ} {s s' : PagingState} {program : LoadedUserProgram} (n j : ℕ)
    → Loaded root image s s' program
    → j + n ≤ length image
    → user_text_start + length image < 2 ^ 64
    → bytes_at (view root s') (user_text_start + j) n ≡ some (part image j n)
unfolding bytes_at
bytes_at-view zero j holds inside top = refl
bytes_at-view {root} {image} {s} {s'} (suc n) j holds inside top =
    let (pa, found, value) = holds.text j (omega arith) in
    let next : add64 (user_text_start + j) 1 ≡ user_text_start + (j + 1) = omega arith in
    let rest = bytes_at-view n (j + 1) holds (omega arith) top in
    rw (bytes_at, found, next, rest, value) refl
