-- ===== src/Process/Copy.antt =====
-- `copy_into_region`: the bytes of the source end up behind their virtual addresses.
use rv64i_operating_system.Base.{
  ℕ, zero, suc, ◌+◌, ◌%◌, ◌^◌, ◌≤◌, ◌<◌, ◌≡◌, ◌≢◌, true, Option, some, List, [], ◌∷◌, arith, refl,
  sym, ◌∙◌, length, get_or, add64,
}
use rv64i_operating_system.Ram.{Ram, store8}
use rv64i_operating_system.AddressMapping.{late, to_ptr, deref, phys_to_virt_ptr}
use rv64i_operating_system.Paging.State.{PagingState}
use rv64i_operating_system.Paging.{paging_query, query}
use rv64i_operating_system.Paging.Tree.{contents, Owner, IsTable, IsTree, apart_of_role}
use rv64i_operating_system.Paging.Contents.{KeepsTables, KeepsTables-IsTree, KeepsTables-query}
use rv64i_operating_system.Paging.Map.Slots.{to_ptr-ne_zero}
use rv64i_operating_system.Process.{copy_bytes, copy_into_region}

deref-pointer : (pa : ℕ) → pa < 2 ^ 38 → deref late (phys_to_virt_ptr pa) ≡ pa
unfolding deref phys_to_virt_ptr
deref-pointer pa h = omega arith

-- A byte in a page of contents, and where a virtual address is mapped to it.
pub record Target (root : ℕ) (owner : Owner) (s : PagingState) (va pa : ℕ) : Type 0 where
  pub flags : ℕ
  pub page : ℕ
  pub found : query late s.ram (to_ptr late root) va ≡ (true, pa, flags)
  pub table : IsTable owner s.allocator.current contents page
  pub from : page ≤ pa
  pub below : pa < page + 4096

module _ {root : ℕ} {owner : Owner} (s : PagingState) (tree : IsTree root owner s) (byte : ℕ)
    {va pa : ℕ} (target : Target root owner s va pa) where
  abbrev stored : PagingState
  stored = record s { ram = store8 s.ram pa byte }

  other_byte : (b : ℕ) → pa ≢ b → stored.ram b ≡ s.ram b
  unfolding store8
  other_byte b ne = ground arith

  this_byte : stored.ram pa ≡ byte % 256
  unfolding store8
  this_byte = ground arith

  KeepsTables-stored : KeepsTables owner owner s stored
  KeepsTables-stored = record {
    bounded = tree.bounded;
    still = λ role t c. c;
    bytes = λ role t b c table lo hi.
        (let apart = apart_of_role c target.table table in
          other_byte b
            (omega (arith, apart, c.page, target.table.page, target.from, target.below)));
  }

  stored-Target : (va' pa' : ℕ) → Target root owner s va' pa' → Target root owner stored va' pa'
  stored-Target va' pa' t = record {
    flags = t.flags;
    page = t.page;
    found = KeepsTables-query tree KeepsTables-stored late va' ∙ t.found;
    table = t.table;
    from = t.from;
    below = t.below;
  }

-- The outcome of copying `source` to the bytes `at lo`, `at (lo + 1)` and so on.
pub record Copied (root : ℕ) (owner : Owner) (at : ℕ → ℕ) (lo : ℕ) (source : List ℕ)
    (s : PagingState) (r : Option (Unit {0}) × PagingState) : Type 0 where
  pub ok : r.0 ≡ some tt
  pub tree : IsTree root owner r.1
  pub same_allocator : r.1.allocator ≡ s.allocator
  pub queries :
      (va : ℕ) → query late r.1.ram (to_ptr late root) va ≡ query late s.ram (to_ptr late root) va
  pub written : (k : ℕ) → k < length source → r.1.ram (at (lo + k)) ≡ get_or source k 0 % 256
  pub others : (b : ℕ) → ((k : ℕ) → k < length source → at (lo + k) ≢ b) → r.1.ram b ≡ s.ram b

module _ (at : ℕ → ℕ) where
  -- From the first byte and the others to all.
  written_all :
      (ram : Ram) (lo byte : ℕ) (source : List ℕ)
      → ram (at lo) ≡ byte % 256
      → ((k : ℕ) → k < length source → ram (at (lo + 1 + k)) ≡ get_or source k 0 % 256)
      → (k : ℕ) → k < suc (length source)
      → ram (at (lo + k)) ≡ get_or (byte ∷ source) k 0 % 256
  written_all ram lo byte source first others zero h =
      let e : lo + 0 ≡ lo = omega arith in rw e first
  written_all ram lo byte source first others (suc k) h =
      let e : lo + suc k ≡ lo + 1 + k = omega arith in rw e (others k (omega arith))

  out_first : (b lo n : ℕ) → ((k : ℕ) → k < suc n → at (lo + k) ≢ b) → at lo ≢ b
  out_first b lo n out = let e : lo + 0 ≡ lo = omega arith in rw e at (out 0 (omega arith))

  out_others :
      (b lo n : ℕ) → ((k : ℕ) → k < suc n → at (lo + k) ≢ b) → (k : ℕ) → k < n → at (lo + 1 + k) ≢ b
  out_others b lo n out k h =
      let e : lo + suc k ≡ lo + 1 + k = omega arith in rw e at (out (suc k) (omega arith))

module _ {root : ℕ} {owner : Owner} (va : ℕ) (at : ℕ → ℕ) (size : ℕ)
    (apart : (j k : ℕ) → j < k → k < size → at j ≢ at k) (top : va + size < 2 ^ 64) where
  copy_bytes-Copied :
      (source : List ℕ) (lo : ℕ) (s : PagingState)
      → lo + length source ≡ size
      → IsTree root owner s
      → ((j : ℕ) → lo ≤ j → j < size → Target root owner s (va + j) (at j))
      → Copied root owner at lo source s (copy_bytes (to_ptr late root) va lo source s)
  unfolding copy_bytes paging_query
  copy_bytes-Copied [] lo s e tree targets = record {
    ok = refl;
    tree = tree;
    same_allocator = refl;
    queries = λ va'. refl;
    written = λ k h. absurd (omega arith);
    others = λ b out. refl;
  }
  copy_bytes-Copied (byte ∷ source) lo s e tree targets =
      let target = targets lo (omega arith) (omega arith) in
      let address : add64 va lo ≡ va + lo = omega arith in
      let pointer = deref-pointer (at lo) (omega (arith, target.table.page, target.below)) in
      let s1 : PagingState = stored s tree byte target in
      let kept = KeepsTables-stored s tree byte target in
      let rest =
        copy_bytes-Copied source (lo + 1) s1 (omega arith) (KeepsTables-IsTree tree kept)
          (λ j lo' hi.
            stored-Target s tree byte target (va + j) (at j) (targets j (omega arith) hi)) in
      rw (address, target.found, pointer)
        record {
          ok = rest.ok;
          tree = rest.tree;
          same_allocator = rest.same_allocator;
          queries = λ va'. rest.queries va' ∙ KeepsTables-query tree kept late va';
          written =
              written_all at (copy_bytes (to_ptr late root) va (lo + 1) source s1).1.ram lo byte
                source
                (rest.others (at lo)
                    (λ k h. λ same. apart lo (lo + 1 + k) (omega arith) (omega arith) (sym same))
                  ∙ this_byte s tree byte target)
                rest.written;
          others = λ b out.
              rest.others b (out_others at b lo (length source) out)
              ∙ other_byte s tree byte target b (out_first at b lo (length source) out);
        }

-- `copy_into_region` to addresses that are mapped to different bytes of contents: it succeeds, puts
-- each byte of the source behind its address, and changes no other byte and no translation.
pub copy_into_region-Copied :
    (root : ℕ) (owner : Owner) (va : ℕ) (at : ℕ → ℕ) (source : List ℕ) (s : PagingState)
    → ((j k : ℕ) → j < k → k < length source → at j ≢ at k)
    → va + length source < 2 ^ 64
    → IsTree root owner s
    → ((j : ℕ) → j < length source → Target root owner s (va + j) (at j))
    → Copied root owner at 0 source s (copy_into_region (to_ptr late root) va source s)
unfolding copy_into_region
copy_into_region-Copied root owner va at source s apart top tree targets =
    rw (to_ptr-ne_zero late root tree.root_pos tree.root_is.page.1) (
      copy_bytes-Copied va at (length source) apart top source 0 s (omega arith) tree
        (λ j lo hi. targets j hi))
