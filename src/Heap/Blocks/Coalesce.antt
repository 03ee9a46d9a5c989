-- ===== src/Heap/Blocks/Coalesce.antt =====
-- Giving a block back and joining free neighbours.
use pygmali_os.Base.{
  ℕ, suc, ◌+◌, ◌<◌, ◌≡◌, refl, ap, inl, inr, arith, Bool, false, ◌&&◌, List, [], ◌∷◌, length,
  Bool-cases,
}
use pygmali_os.Heap.Blocks.Defs.{Block, extent, coalesce_from, live, release, Apart, remove}

pub extent-coalesce_from :
    (b : Block) (bs : List Block) → extent (coalesce_from b bs) ≡ extent (b ∷ bs)
unfolding coalesce_from
extent-coalesce_from b [] = omega arith
extent-coalesce_from b (c ∷ bs) = ground (
  arith,
  extent-coalesce_from (record b { size = b.size + (c.size + 12) }) bs,
  extent-coalesce_from c bs,
)

pub Apart-coalesce_from :
    (f : Bool) (b : Block) (bs : List Block) → (f && b.free) ≡ false → Apart f (coalesce_from b bs)
unfolding coalesce_from
Apart-coalesce_from f b [] h = (h, tt)
Apart-coalesce_from f b (c ∷ bs) h = elim (Bool-cases (b.free && c.free)) [
  | inl e ↦ rw e (Apart-coalesce_from f (record b { size = b.size + (c.size + 12) }) bs h)
  | inr e ↦ rw e (h, Apart-coalesce_from b.free c bs e)
]

pub live-coalesce_from :
    (p : ℕ) (b : Block) (bs : List Block) → live p (coalesce_from b bs) ≡ live p (b ∷ bs)
unfolding coalesce_from
live-coalesce_from p b [] = ground arith
live-coalesce_from p b (c ∷ bs) = ground (
  arith,
  live-coalesce_from p (record b { size = b.size + (c.size + 12) }) bs,
  live-coalesce_from (p + 12 + b.size) c bs,
  address,
)
  where
    address : live (p + 12 + (b.size + (c.size + 12))) bs ≡ live (p + 12 + b.size + 12 + c.size) bs
    address = ap (λ q. live q bs) (omega arith)

pub extent-release : (a p : ℕ) (bs : List Block) → extent (release a p bs) ≡ extent bs
unfolding release
extent-release a p [] = refl
extent-release a p (b ∷ bs) = ground (arith, extent-release a (p + 12 + b.size) bs)

pub length-release : (a p : ℕ) (bs : List Block) → length (release a p bs) ≡ length bs
unfolding release
length-release a p [] = refl
length-release a p (b ∷ bs) = ap suc (length-release a (p + 12 + b.size) bs)

pub live-release : (a p : ℕ) (bs : List Block) → live p (release a p bs) ≡ remove a (live p bs)
unfolding release
live-release a p [] = refl
live-release a p (b ∷ bs) = ground (arith, live-release a (p + 12 + b.size) bs)

pub length-coalesce_from : (b : Block) (bs : List Block) → 0 < length (coalesce_from b bs)
unfolding coalesce_from
length-coalesce_from b [] = omega arith
length-coalesce_from b (c ∷ bs) =
    ground (arith, length-coalesce_from (record b { size = b.size + (c.size + 12) }) bs)
