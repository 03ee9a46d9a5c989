-- ===== src/Heap/Search.antt =====
-- The first-fit loop and the splitting of a block, on a chain.
use pygmali_os.Base.{
  ℕ, zero, suc, ◌+◌, ◌-◌, ◌≤◌, ◌<◌, ◌^◌, ◌≡◌, ◌≢◌, refl, inl, inr, ap, sym, ◌∙◌, arith, true, false,
  ◌&&◌, none, some, List, [], ◌∷◌, ◌==◌, leb, leb→le, if◌then◌else◌, length, Bool-cases,
}
use pygmali_os.Heap.{Headers, heap_start, heap_end, search, claim}
use mathlib.Core.Path.{subst}
use native.Mathlib.Nat.{add-zero}
use pygmali_os.Heap.Blocks.{
  Block, used, extent, carve, first_fit, first_fit-nil, first_fit-eq-none, first_fit-eq-some,
  first_fit-le-extent,
}
use pygmali_os.Heap.Chain.{link, header_of, IsChain, IsChain-frame}

-- The address of the last block, or `prev` where there is none.
abbrev pub last_address : ℕ → ℕ → List Block → ℕ
last_address prev p [] = prev
last_address prev p (b ∷ bs) = last_address p (p + 12 + b.size) bs

search-null : (k : ℕ) (h : Headers) (n prev : ℕ) → search (suc k) h n 0 prev ≡ some (0, prev)
unfolding search
search-null k h n prev = refl

-- One round of the loop at a block.
module _ (h : Headers) (n p prev k : ℕ) (b : Block) (bs : List Block) (e : h p ≡ header_of p b bs)
    (pos : p ≢ 0) where
  search-hit : (b.free && leb n b.size) ≡ true → search (suc k) h n p prev ≡ some (p, prev)
  unfolding search
  search-hit t = ground arith

  search-miss :
      (b.free && leb n b.size) ≡ false → search (suc k) h n p prev ≡ search k h n (link p b bs) p
  unfolding search
  search-miss t = ground arith

-- Where no block fits, the loop ends at NULL with the last block behind it.
pub search-none :
    (h : Headers) (n fuel p prev : ℕ) (bs : List Block)
    → IsChain h p bs
    → 0 < p
    → length bs < fuel
    → 0 < length bs
    → first_fit n bs ≡ none
    → search fuel h n p prev ≡ some (0, last_address prev p bs)
search-none h n zero p prev bs c pos f l e = absurd (omega arith)
search-none h n (suc zero) p prev bs c pos f l e = absurd (omega arith)
search-none h n (suc (suc k)) p prev [] c pos f l e = absurd (omega arith)
search-none h n (suc (suc k)) p prev (b ∷ []) c pos f l e =
    search-miss h n p prev (suc k) b [] c.0 (omega arith) (first_fit-eq-none n b [] e).0
    ∙ search-null k h n p
search-none h n (suc (suc k)) p prev (b ∷ d ∷ bs) c pos f l e =
    search-miss h n p prev (suc k) b (d ∷ bs) c.0 (omega arith) (first_fit-eq-none n b _ e).0
    ∙ search-none h n (suc k) (p + 12 + b.size) p (d ∷ bs) c.1 (omega arith) (omega arith)
        (omega arith) (first_fit-eq-none n b _ e).1

-- A block before a block that fits has a successor.
pub link_of_fit :
    (n p : ℕ) (b : Block) (bs : List Block) {r : ℕ × List Block}
    → first_fit n bs ≡ some r
    → link p b bs ≡ p + 12 + b.size
link_of_fit n p b [] e = absurd (first_fit-nil n e)
link_of_fit n p b (c ∷ bs) e = refl

-- Where a block fits, the loop ends at the first such block.
pub search-some :
    (h : Headers) (n fuel p prev : ℕ) (bs : List Block) {o : ℕ} {bs' : List Block}
    → IsChain h p bs
    → 0 < p
    → length bs < fuel
    → first_fit n bs ≡ some (o, bs')
    → (q : ℕ) × (search fuel h n p prev ≡ some (p + o, q))
search-some h n zero p prev bs c pos f e = absurd (omega arith)
search-some h n (suc k) p prev [] c pos f e = absurd (first_fit-nil n e)
search-some h n (suc k) p prev (b ∷ bs) {o} c pos f e = elim (first_fit-eq-some n b bs e) [
  | inl (t, eo, eb) ↦ (prev, rw (eo, add-zero) (search-hit h n p prev k b bs c.0 (omega arith) t))
  | inr (i, cs, t, er, eo, eb) ↦
      let (q, rest) = search-some h n k (p + 12 + b.size) p bs c.1 (omega arith) (omega arith) er in
      (
        q,
        search-miss h n p prev k b bs c.0 (omega arith) t
            ∙ (ap (λ a. search k h n a p) (link_of_fit n p b bs er)
                ∙ (rest ∙ ap (λ a. some (a, q)) (omega arith))),
      )
]

pub link_before :
    (p : ℕ) (b : Block) (bs : List Block) → 0 < length bs → link p b bs ≡ p + 12 + b.size
link_before p b [] l = absurd (omega arith)
link_before p b (c ∷ bs) l = refl

-- The link of a block depends on where it ends.
pub link_end :
    (p q : ℕ) (b c : Block) (bs : List Block)
    → p + 12 + b.size ≡ q + 12 + c.size
    → link p b bs ≡ link q c bs
link_end p q b c [] e = refl
link_end p q b c (d ∷ bs) e = e

claim_below : (h : Headers) (n q a : ℕ) → q + n + 12 < 2 ^ 32 → a < q → claim h q n a ≡ h a
unfolding claim
claim_below h n q a w l = ground arith

-- What `claim` leaves in memory, with the arithmetic of 32 bits out of the way.
module _ (h : Headers) (n p : ℕ) (b : Block) (bs : List Block) (e : h p ≡ header_of p b bs) where
  claim-whole :
      p + 12 + b.size < 2 ^ 32
      → n ≤ b.size
      → b.size < 2 ^ 31
      → leb (12 + n + 4) b.size ≡ false
      → (a : ℕ) → claim h p n a ≡ (if p == a then header_of p (used b.size) bs else h a)
  unfolding claim
  claim-whole w l s t a = ground (arith, link_end p p b (used b.size) bs refl)

  claim-split :
      p + 12 + b.size < 2 ^ 32
      → b.size < 2 ^ 31
      → leb (12 + n + 4) b.size ≡ true
      → (a : ℕ)
      → claim h p n a ≡ (
          if p == a
          then record { size = n; free = false; next = p + 12 + n }
          else if p + 12 + n == a
          then record { size = b.size - 12 - n; free = true; next = link p b bs }
          else h a)
  unfolding claim
  claim-split w s t a = ground arith

claim-carve :
    (h : Headers) (n p : ℕ) (b : Block) (bs : List Block)
    → IsChain h p (b ∷ bs)
    → p + 12 + b.size < 2 ^ 32
    → b.size < 2 ^ 31
    → n ≤ b.size
    → IsChain (claim h p n) p (carve n b bs)
claim-carve h n p b bs c w s l = elim (Bool-cases (leb (12 + n + 4) b.size)) [
  | inl t ↦
      let left : Block = record { size = b.size - 12 - n; free = true } in
      let at = claim-split h n p b bs c.0 w s t in
      let fits : 12 + n + 4 ≤ b.size = leb→le _ _ t in
      let same_end : p + 12 + n + 12 + (b.size - 12 - n) ≡ p + 12 + b.size = omega arith in
      rw t (
        ground (arith, at p),
        (
          ground (arith, at (p + 12 + n), link_end p (p + 12 + n) b left bs (omega arith)),
          rw same_end (
              IsChain-frame h (claim h p n) (p + 12 + b.size) bs (λ a k. ground (arith, at a)) c.1),
        ),
      )
  | inr t ↦
      let at = claim-whole h n p b bs c.0 w l s t in
      rw t (
        ground (arith, at p),
        IsChain-frame h (claim h p n) (p + 12 + b.size) bs (λ a k. ground (arith, at a)) c.1,
      )
]

-- Taking the block that first fit finds leaves the chain of the new list of blocks.
pub claim-first_fit :
    (h : Headers) (n p : ℕ) (bs : List Block) {o : ℕ} {bs' : List Block}
    → IsChain h p bs
    → p + extent bs ≤ heap_end
    → n ≤ 0x3F000000
    → heap_start ≤ p
    → first_fit n bs ≡ some (o, bs')
    → IsChain (claim h (p + o) n) p bs'
claim-first_fit h n p [] c w s l e = absurd (first_fit-nil n e)
claim-first_fit h n p (b ∷ bs) {o} {bs'} c w s l e = elim (first_fit-eq-some n b bs e) [
  | inl (t, eo, eb) ↦
      rw (eo, eb, add-zero) (claim-carve h n p b bs c (omega arith) (omega arith) (ground arith))
  | inr (i, cs, t, er, eo, eb) ↦
      let q = p + 12 + b.size in
      let size = first_fit-le-extent n bs er in
      let tail = claim-first_fit h n q bs c.1 (omega arith) s (omega arith) er in
      let address : p + (12 + b.size + i) ≡ q + i = omega arith in
      rw (eo, eb)
        (
          claim_below h n (p + (12 + b.size + i)) p (omega arith) (omega arith)
              ∙ (c.0
                  ∙ ap (λ k. record { size = b.size; free = b.free; next = k })
                      (link_of_fit n p b bs er ∙ sym (link_before p b cs size.2))),
          subst (λ a. IsChain (claim h a n) q cs) (sym address) tail,
        )
]
