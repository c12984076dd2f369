-- ===== src/Paging/Entry.antt =====
-- The entries of the tables by physical address, in either stage, and what a write or a cleared
-- table does to them.
use rv64i_operating_system.Base.{
  ℕ, zero, suc, ◌+◌, ◌*◌, ◌%◌, ◌^◌, ◌≤◌, ◌<◌, ◌≡◌, ◌≢◌, ◌⊎◌, refl, arith, ◌∙◌, leb, if◌then◌else◌,
  add64,
}
use rv64i_operating_system.Ram.{Ram, load64, store64}
use rv64i_operating_system.Ram.Laws.{
  load64-store64_self, load64-store64_apart, store64-outside, load64_ext,
}
use rv64i_operating_system.AddressMapping.{Stage, early, late, to_ptr, deref}
use rv64i_operating_system.Paging.{read_entry, write_entry, zero_entries, paging_zero_table}

-- Entry `i` of the table at the physical address `t`.
unfoldable pub entry : Ram → ℕ → ℕ → ℕ
entry ram t i = load64 ram (t + 8 * i)

unfoldable pub set_entry : Ram → ℕ → ℕ → ℕ → Ram
set_entry ram t i v = store64 ram (t + 8 * i) v

-- A page-aligned physical address that the direct map can reach.
abbrev pub IsPage : ℕ → Type 0
IsPage t = (t % 4096 ≡ 0) × (t < 2 ^ 38)

-- A byte outside the page at `t`.
abbrev pub Outside : ℕ → ℕ → Type 0
Outside t b = (b < t) ⊎ (t + 4096 ≤ b)

-- In both stages the pointer that the code makes of a table leads to that table.
pub deref-to_ptr :
    (stage : Stage) (t i : ℕ)
    → t < 2 ^ 38
    → i < 512
    → deref stage (add64 (to_ptr stage t) (8 * i)) ≡ t + 8 * i
unfolding deref to_ptr
deref-to_ptr early t i h k = omega arith
deref-to_ptr late t i h k = omega arith

pub read_entry_lem :
    (stage : Stage) (ram : Ram) (t i : ℕ)
    → t < 2 ^ 38
    → i < 512
    → read_entry stage ram (to_ptr stage t) i ≡ entry ram t i
unfolding read_entry entry
read_entry_lem stage ram t i h k = rw (deref-to_ptr stage t i h k)

pub write_entry_lem :
    (stage : Stage) (ram : Ram) (t i v : ℕ)
    → t < 2 ^ 38
    → i < 512
    → write_entry stage ram (to_ptr stage t) i v ≡ set_entry ram t i v
unfolding write_entry set_entry
write_entry_lem stage ram t i v h k = rw (deref-to_ptr stage t i h k)

module _ (ram : Ram) (t i v : ℕ) where
  pub entry-set_entry_self : v < 2 ^ 64 → entry (set_entry ram t i v) t i ≡ v
  unfolding entry set_entry
  entry-set_entry_self h = load64-store64_self ram (t + 8 * i) v h

  pub entry-set_entry_other :
      (t' i' : ℕ)
      → IsPage t
      → IsPage t'
      → i < 512
      → i' < 512
      → (t ≢ t') ⊎ (i ≢ i')
      → entry (set_entry ram t i v) t' i' ≡ entry ram t' i'
  unfolding entry set_entry
  entry-set_entry_other t' i' p p' h h' ne =
      load64-store64_apart ram (t + 8 * i) v (t' + 8 * i') (omega arith)

  pub set_entry-Outside : (b : ℕ) → i < 512 → Outside t b → set_entry ram t i v b ≡ ram b
  unfolding set_entry
  set_entry-Outside b h out = store64-outside ram (t + 8 * i) v b (omega arith)

-- Memories that agree outside a page have the same entries in every other table.
pub entry_ext :
    (ram ram' : Ram) (t t' i' : ℕ)
    → ((b : ℕ) → Outside t b → ram' b ≡ ram b)
    → IsPage t
    → IsPage t'
    → i' < 512
    → t ≢ t'
    → entry ram' t' i' ≡ entry ram t' i'
unfolding entry
entry_ext ram ram' t t' i' same p p' h ne =
    load64_ext ram ram' (t' + 8 * i') λ b lo hi. same b (omega arith)

module _ (stage : Stage) (t : ℕ) (p : IsPage t) where
  zero_entries-entry :
      (left i j : ℕ) (ram : Ram)
      → i + left ≡ 512
      → j < 512
      → entry (zero_entries stage (to_ptr stage t) left i ram) t j
        ≡ (if leb i j then 0 else entry ram t j)
  unfolding zero_entries
  zero_entries-entry zero i j ram e h = ground arith
  zero_entries-entry (suc left) i j ram e h =
      rw (write_entry_lem stage ram t i 0 p.1 (omega arith)) (
        ground (
          arith,
          zero_entries-entry left (i + 1) j (set_entry ram t i 0) (omega arith) h,
          entry-set_entry_self ram t i 0,
          entry-set_entry_other ram t i 0 t j p p,
        ))

  zero_entries-Outside :
      (left i b : ℕ) (ram : Ram)
      → i + left ≡ 512
      → Outside t b
      → zero_entries stage (to_ptr stage t) left i ram b ≡ ram b
  unfolding zero_entries
  zero_entries-Outside zero i b ram e out = refl
  zero_entries-Outside (suc left) i b ram e out =
      rw (write_entry_lem stage ram t i 0 p.1 (omega arith)) (
        zero_entries-Outside left (i + 1) b (set_entry ram t i 0) (omega arith) out
        ∙ set_entry-Outside ram t i 0 b (omega arith) out)

  -- `paging_zero_table` clears all 512 entries and touches no byte outside the table.
  pub entry-paging_zero_table :
      (ram : Ram) (j : ℕ) → j < 512 → entry (paging_zero_table stage ram (to_ptr stage t)) t j ≡ 0
  unfolding paging_zero_table
  entry-paging_zero_table ram j h = ground (arith, zero_entries-entry 512 0 j ram)

  pub paging_zero_table-Outside :
      (ram : Ram) (b : ℕ) → Outside t b → paging_zero_table stage ram (to_ptr stage t) b ≡ ram b
  unfolding paging_zero_table
  paging_zero_table-Outside ram b out = zero_entries-Outside 512 0 b ram (omega arith) out
