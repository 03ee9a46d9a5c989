-- ===== src/Heap/Blocks/Defs.antt =====
-- Blocks, the regions that they stand for, and the list operations that src/kmalloc.c implements.
-- A block at address `p` has its data at `p + 12`.
use pygmali_os.Base.{
  ℕ, ◌+◌, ◌-◌, ◌≤◌, ◌≡◌, inl, inr, arith, Bool, true, false, ◌&&◌, ◌||◌, Option, none, some, List,
  [], ◌∷◌, ◌++◌, leb, ◌==◌, if◌then◌else◌, Bool-cases,
}

pub record Block : Type 0 where
  pub size : ℕ
  pub free : Bool

abbrev pub used : ℕ → Block
used n = record { size = n; free = false }

-- The bytes that the blocks take up, their headers included.
abbrev pub extent : List Block → ℕ
extent [] = 0
extent (b ∷ bs) = 12 + b.size + extent bs

-- A block that is taken keeps `n` bytes, and what is left becomes a free block if it has a use.
abbrev pub carve : ℕ → Block → List Block → List Block
carve n b bs =
    if leb (12 + n + 4) b.size
    then used n ∷ record { size = b.size - 12 - n; free = true } ∷ bs
    else used b.size ∷ bs

abbrev pub past : Block → Option (ℕ × List Block) → Option (ℕ × List Block)
past b none = none
past b (some (o, bs)) = some (12 + b.size + o, b ∷ bs)

-- First fit: the offset of the block that is taken, and the blocks afterwards.
unfoldable pub first_fit : ℕ → List Block → Option (ℕ × List Block)
first_fit n [] = none
first_fit n (b ∷ bs) =
    if b.free && leb n b.size then some (0, carve n b bs) else past b (first_fit n bs)

-- Neighbours that are both free are joined.
unfoldable pub coalesce_from : Block → List Block → List Block
coalesce_from b [] = b ∷ []
coalesce_from b (c ∷ bs) =
    let joined = coalesce_from (record b { size = b.size + (c.size + 12) }) bs in
    let moved = b ∷ coalesce_from c bs in if b.free && c.free then joined else moved

abbrev pub coalesce : List Block → List Block
coalesce [] = []
coalesce (b ∷ bs) = coalesce_from b bs

-- What is allocated: the address and size of the data of each used block, from address `p` on.
abbrev pub live : ℕ → List Block → List (ℕ × ℕ)
live p [] = []
live p (b ∷ bs) =
    let rest = live (p + 12 + b.size) bs in if b.free then rest else (p + 12, b.size) ∷ rest

-- The block whose data is at `a` is given back.
unfoldable pub release : ℕ → ℕ → List Block → List Block
release a p [] = []
release a p (b ∷ bs) =
    (if p + 12 == a then record b { free = true } else b) ∷ release a (p + 12 + b.size) bs

-- No two neighbours are both free, where `f` says whether the block before is.
abbrev pub Apart : Bool → List Block → Type 0
Apart f [] = Unit
Apart f (b ∷ bs) = ((f && b.free) ≡ false) × Apart b.free bs

abbrev pub IsCoalesced : List Block → Type 0
IsCoalesced bs = Apart false bs

-- Regions in the order of their addresses, each with room for a header before it.
abbrev pub IsPacked : ℕ → List (ℕ × ℕ) → Type 0
IsPacked p [] = Unit
IsPacked p ((a, n) ∷ l) = (p + 12 ≤ a) × IsPacked (a + n) l

-- A region starts at address `a`.
abbrev pub has : ℕ → List (ℕ × ℕ) → Bool
has a [] = false
has a ((x, n) ∷ l) = x == a || has a l

-- The regions but those at address `a`.
abbrev pub remove : ℕ → List (ℕ × ℕ) → List (ℕ × ℕ)
remove a [] = []
remove a ((x, n) ∷ l) = if x == a then remove a l else (x, n) ∷ remove a l

IsPacked-le : (p q : ℕ) (l : List (ℕ × ℕ)) → p ≤ q → IsPacked q l → IsPacked p l
IsPacked-le p q [] h v = tt
IsPacked-le p q ((a, n) ∷ l) h v = (omega arith, v.1)

-- The allocated regions never overlap one another or a header.
pub live-IsPacked : (p : ℕ) (bs : List Block) → IsPacked p (live p bs)
live-IsPacked p [] = tt
live-IsPacked p (b ∷ bs) = elim (Bool-cases b.free) [
  | inl e ↦
      rw e (IsPacked-le p (p + 12 + b.size) _ (omega arith) (live-IsPacked (p + 12 + b.size) bs))
  | inr e ↦ rw e (omega arith, live-IsPacked (p + 12 + b.size) bs)
]

pub extent-append : (bs cs : List Block) → extent (bs ++ cs) ≡ extent bs + extent cs
extent-append [] cs = omega arith
extent-append (b ∷ bs) cs = omega (arith, extent-append bs cs)

pub has-live : (a p : ℕ) (bs : List Block) → has a (live p bs) ≡ true → p + 12 ≤ a
has-live a p [] e = cc
has-live a p (b ∷ bs) e = ground (arith, has-live a (p + 12 + b.size) bs)
