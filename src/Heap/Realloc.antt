-- ===== src/Heap/Realloc.antt =====
-- `krealloc` of an allocated region that has to move, and `memcpy`.
use pygmali_os.Base.{
  ℕ, zero, suc, ◌+◌, ◌-◌, ◌≤◌, ◌<◌, ◌≡◌, ◌∙◌, ◌⊎◌, refl, arith, Option, none, some, List, [], ◌∷◌,
  ◌++◌, ◌==◌, if◌then◌else◌,
}
use native.Mathlib.Nat.{add-zero}
use pygmali_os.Heap.{Store, update, heap_start, heap_end, align4, kfree, memcpy, copy_over}
use pygmali_os.Heap.Blocks.{Block, live, remove, IsCoalesced}
use pygmali_os.Heap.Chain.{IsHeap}

-- A region of `n` bytes at address `a` is among those listed.
abbrev pub In : ℕ → ℕ → List (ℕ × ℕ) → Type 0
In a n [] = ⊥
In a n ((x, m) ∷ l) = ((x ≡ a) × (m ≡ n)) ⊎ In a n l

memcpy-outside :
    (len dest src : ℕ) (m : ℕ → ℕ) (a : ℕ)
    → (a < dest) ⊎ (dest + len ≤ a)
    → memcpy len dest src m a ≡ m a
unfolding memcpy
memcpy-outside zero dest src m a o = refl
memcpy-outside (suc len) dest src m a o =
    memcpy-outside len (dest + 1) (src + 1) (update m dest (m src)) a (omega arith) ∙ ground arith

-- `memcpy` between regions that do not overlap copies every byte.
pub memcpy-copies :
    (len dest src : ℕ) (m : ℕ → ℕ) (i : ℕ)
    → (src + len ≤ dest) ⊎ (dest + len ≤ src)
    → i < len
    → memcpy len dest src m (dest + i) ≡ m (src + i)
unfolding memcpy
memcpy-copies zero dest src m i o l = absurd (omega arith)
memcpy-copies (suc len) dest src m zero o l =
    rw (add-zero, add-zero)
      (memcpy-outside len (dest + 1) (src + 1) (update m dest (m src)) dest (omega arith)
        ∙ ground arith)
memcpy-copies (suc len) dest src m (suc i) o l =
    let d : dest + suc i ≡ dest + 1 + i = omega arith in
    let s : src + suc i ≡ src + 1 + i = omega arith in
    rw (d, s)
      (memcpy-copies len (dest + 1) (src + 1) (update m dest (m src)) i (omega arith) (omega arith)
        ∙ ground arith)

-- A region that was moved: a new one of the size asked for holds the old one's bytes, and the old
-- one is no longer allocated.
pub record Moved (ptr n request : ℕ) (st : Store) (bs : List Block) (new_ptr : ℕ) (st' : Store)
    : Type 0 where
  pub blocks : List Block
  pub heap : IsHeap st' blocks
  pub coalesced : IsCoalesced blocks
  pub granted : ℕ
  pub enough : request ≤ granted
  pub before : List (ℕ × ℕ)
  pub behind : List (ℕ × ℕ)
  pub live_before : live heap_start bs ≡ before ++ behind
  pub live_after : live heap_start blocks ≡ remove ptr (before ++ (new_ptr, granted) ∷ behind)
  pub copied : (i : ℕ) → i < n → st'.bytes (new_ptr + i) ≡ st.bytes (ptr + i)

module _ (st : Store) (bs : List Block) (ptr n request fuel : ℕ) (v : IsHeap st bs)
    (i : In ptr n (live heap_start bs)) (low_end : ptr ≤ heap_end - 48)
    (small : request ≤ 0x3EFFFFF8) (grows : n < align4 request) (enough : 400000 ≤ fuel) where
  -- The move, with the size that the header gives.
  move : ℕ × Store → Option (ℕ × Store)
  move r =
      if r.0 == 0
      then some (0, r.1)
      else elim (kfree fuel ptr (copy_over (r.1.headers (ptr - 12)).size r.0 ptr r.1)) [
        | none ↦ none
        | some st'' ↦ some (r.0, st'')
      ]
