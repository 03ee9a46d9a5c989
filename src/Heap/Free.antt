-- ===== src/Heap/Free.antt =====
-- `kfree` on a well-formed heap.
use pygmali_os.Base.{
  ℕ, zero, suc, ◌+◌, ◌-◌, ◌≤◌, ◌<◌, ◌≡◌, ◌∙◌, inl, inr, refl, sym, ap, arith, true, false, ◌&&◌,
  Bool, Option, some, List, [], ◌∷◌, length, ◌==◌, Bool-cases, u32,
}
use pygmali_os.Heap.{Headers, Store, update, heap_start, heap_end, merge, kfree}
use pygmali_os.Heap.Blocks.{
  Block, extent, coalesce, coalesce_from, release, live, remove, IsCoalesced, Apart-coalesce_from,
  extent-coalesce_from, live-coalesce_from, length-coalesce_from, extent-release, length-release,
  live-release, has, has-live,
}
use pygmali_os.Heap.Chain.{link, header_of, IsChain, IsChain-frame, IsHeap}
use pygmali_os.Heap.Search.{link_end, link_before}

-- The header of the block whose data is at `a`, marked as free.
abbrev pub freed : Headers → ℕ → Headers
freed h a = update h (a - 12) (record (h (a - 12)) { free = true })

link-release :
    (p q a : ℕ) (f : Bool) (b : Block) (bs : List Block)
    → link p b bs ≡ link p (record b { free = f }) (release a q bs)
unfolding release
link-release p q a f b [] = refl
link-release p q a f b (c ∷ bs) = refl

pub IsChain-freed :
    (h : Headers) (a p : ℕ) (bs : List Block)
    → 12 ≤ a
    → IsChain h p bs
    → IsChain (freed h a) p (release a p bs)
unfolding release
IsChain-freed h a p [] k c = tt
IsChain-freed h a p (b ∷ bs) k c = elim (Bool-cases (p + 12 == a)) [
  | inl t ↦ rw t (
    ground (arith, c.0, link-release p (p + 12 + b.size) a true b bs),
    IsChain-freed h a (p + 12 + b.size) bs k c.1,
  )
  | inr t ↦ rw t (
    ground (arith, c.0, link-release p (p + 12 + b.size) a b.free b bs),
    IsChain-freed h a (p + 12 + b.size) bs k c.1,
  )
]

-- What the merging loop leaves, started at a block.
pub record Merged (h : Headers) (p : ℕ) (b : Block) (bs : List Block) (r : Option Headers)
    : Type 0 where
  pub headers : Headers
  pub ends : r ≡ some headers
  pub chain : IsChain headers p (coalesce_from b bs)
  pub below : (a : ℕ) → a < p → headers a ≡ h a

merge-last :
    (h : Headers) (p k : ℕ) (b : Block)
    → 0 < p
    → h p ≡ header_of p b []
    → merge (suc k) h p ≡ some h
unfolding merge
merge-last h p k b pos e = ground (arith, e)

-- One round of the loop.
module _ (h : Headers) (p k : ℕ) (b c : Block) (bs : List Block)
    (w : p + extent (b ∷ c ∷ bs) ≤ heap_end) (pos : 0 < p) (chain : IsChain h p (b ∷ c ∷ bs)) where
  abbrev next : ℕ
  next = p + 12 + b.size

  abbrev join : Block
  join = record b { size = b.size + (c.size + 12) }

  joined : Headers
  joined = update h p (header_of p join bs)

  merge-joined : (b.free && c.free) ≡ true → merge (suc k) h p ≡ merge k joined p
  unfolding merge joined
  merge-joined t =
      let size : u32 (b.size + u32 (c.size + 12)) ≡ join.size = omega arith in
      rw (chain.0, chain.1.0, t, size, ← link_end p next join c bs (omega arith)) (ground arith)

  merge-moved : (b.free && c.free) ≡ false → merge (suc k) h p ≡ merge k h next
  unfolding merge
  merge-moved t = ground (arith, chain.0, chain.1.0)

  IsChain-joined : IsChain joined p (join ∷ bs)
  unfolding joined
  IsChain-joined =
      let end : p + 12 + join.size ≡ next + 12 + c.size = omega arith in
      (
        ground arith,
        rw end (IsChain-frame h joined (next + 12 + c.size) bs (λ a k. ground arith) chain.1.1),
      )

  Merged-joined :
      (b.free && c.free) ≡ true
      → Merged joined p join bs (merge k joined p)
      → Merged h p b (c ∷ bs) (merge (suc k) h p)
  unfolding coalesce_from joined
  Merged-joined t m = record {
    headers = m.headers;
    ends = merge-joined t ∙ m.ends;
    chain = rw t m.chain;
    below = λ a l. ground (arith, m.below a);
  }

  Merged-moved :
      (b.free && c.free) ≡ false
      → Merged h next c bs (merge k h next)
      → Merged h p b (c ∷ bs) (merge (suc k) h p)
  unfolding coalesce_from
  Merged-moved t m = record {
    headers = m.headers;
    ends = merge-moved t ∙ m.ends;
    chain = rw t (
      m.below p (omega arith)
          ∙ (chain.0
              ∙ ap (λ n. record { size = b.size; free = b.free; next = n })
                  (sym (link_before p b (coalesce_from c bs) (length-coalesce_from c bs)))),
      m.chain,
    );
    below = λ a l. m.below a (omega arith);
  }

-- The loop ends, and leaves the joined blocks.
merge-Merged :
    (h : Headers) (p fuel : ℕ) (b : Block) (bs : List Block)
    → p + extent (b ∷ bs) ≤ heap_end
    → 0 < p
    → IsChain h p (b ∷ bs)
    → length bs < fuel
    → Merged h p b bs (merge fuel h p)
unfolding coalesce_from
merge-Merged h p zero b bs w pos c f = absurd (omega arith)
merge-Merged h p (suc k) b [] w pos c f = record {
  headers = h;
  ends = merge-last h p k b pos c.0;
  chain = c;
  below = λ a l. refl;
}
merge-Merged h p (suc k) b (d ∷ bs) w pos c f = elim (Bool-cases (b.free && d.free)) [
  | inl t ↦ Merged-joined h p k b d bs w pos c t (
      merge-Merged (joined h p k b d bs w pos c) p k (record b { size = b.size + (d.size + 12) }) bs
        (omega arith) pos (IsChain-joined h p k b d bs w pos c) (omega arith))
  | inr t ↦
      Merged-moved h p k b d bs w pos c t
        (merge-Merged h (p + 12 + b.size) k d bs (omega arith) (omega arith) c.1 (omega arith))
]

-- A heap from which the region at `ptr` was given back.
pub record Freed (ptr : ℕ) (st : Store) (bs : List Block) (st' : Store) : Type 0 where
  pub blocks : List Block
  pub heap : IsHeap st' blocks
  pub coalesced : IsCoalesced blocks
  pub live_after : live heap_start blocks ≡ remove ptr (live heap_start bs)
  pub data_kept : st'.bytes ≡ st.bytes

kfree-valid :
    (st : Store) (ptr fuel : ℕ) (h : Headers)
    → heap_start ≤ ptr
    → ptr ≤ heap_end - 48
    → merge fuel (freed st.headers ptr) st.heap_base ≡ some h
    → kfree fuel ptr st ≡ some (record st { headers = h })
unfolding kfree
kfree-valid st ptr fuel h l u e = rw e (ground arith)

-- The blocks after `kfree`.
abbrev pub blocks_after : ℕ → List Block → List Block
blocks_after ptr bs = coalesce (release ptr heap_start bs)

blocks_after-shape :
    (ptr : ℕ) (bs : List Block)
    → (extent (blocks_after ptr bs) ≡ extent bs)
      × IsCoalesced (blocks_after ptr bs)
      × (live heap_start (blocks_after ptr bs) ≡ remove ptr (live heap_start bs))
      × (0 < length bs → 0 < length (blocks_after ptr bs))
blocks_after-shape ptr bs = shape (release ptr heap_start bs) refl
  where
    shape :
        (cs : List Block)
        → release ptr heap_start bs ≡ cs
        → (extent (coalesce cs) ≡ extent bs)
          × IsCoalesced (coalesce cs)
          × (live heap_start (coalesce cs) ≡ remove ptr (live heap_start bs))
          × (0 < length bs → 0 < length (coalesce cs))
    shape [] e = (
      omega (arith, extent-release ptr heap_start bs, ap extent e),
      tt,
      ap (live heap_start) (sym e) ∙ live-release ptr heap_start bs,
      λ l. absurd (omega (arith, length-release ptr heap_start bs, ap length e)),
    )
    shape (c ∷ cs) e = (
      omega (arith, extent-release ptr heap_start bs, ap extent e, extent-coalesce_from c cs),
      Apart-coalesce_from false c cs refl,
      live-coalesce_from heap_start c cs
          ∙ (ap (live heap_start) (sym e) ∙ live-release ptr heap_start bs),
      λ l. length-coalesce_from c cs,
    )

merge-blocks :
    (h : Headers) (fuel : ℕ) (cs : List Block)
    → heap_start + extent cs ≤ heap_end
    → 0 < length cs
    → IsChain h heap_start cs
    → length cs ≤ fuel
    → (g : Headers) × (merge fuel h heap_start ≡ some g) × IsChain g heap_start (coalesce cs)
merge-blocks h fuel [] w l c f = absurd (omega arith)
merge-blocks h fuel (b ∷ cs) w l c f =
    let m = merge-Merged h heap_start fuel b cs w (omega arith) c (omega arith) in
    (m.headers, m.ends, m.chain)

-- Given the address of an allocated region that does not start in the last 48 bytes of the heap,
-- `kfree` ends, on a well-formed heap where that region alone is no longer allocated, the data are
-- untouched, and no two neighbouring blocks are free.
pub kfree-Freed :
    (st : Store) (bs : List Block) (ptr fuel : ℕ)
    → IsHeap st bs
    → has ptr (live heap_start bs) ≡ true
    → ptr ≤ heap_end - 48
    → length bs ≤ fuel
    → (st' : Store) × (kfree fuel ptr st ≡ some st') × Freed ptr st bs st'
kfree-Freed st bs ptr fuel v m u f =
    let low = has-live ptr heap_start bs m in
    let shape = blocks_after-shape ptr bs in
    let (g, e, c) =
      merge-blocks (freed st.headers ptr) fuel (release ptr heap_start bs)
        (omega (arith, extent-release ptr heap_start bs, v.within))
        (omega (arith, length-release ptr heap_start bs, v.not_empty))
        (IsChain-freed st.headers ptr heap_start bs (omega arith) v.chain)
        (omega (arith, length-release ptr heap_start bs)) in
    (
      record st { headers = g },
      kfree-valid st ptr fuel g (omega arith) u (rw v.base e),
      record {
        blocks = blocks_after ptr bs;
        heap = record {
          base = v.base;
          chain = c;
          not_empty = shape.3 v.not_empty;
          within = omega (arith, shape.0, v.within);
        };
        coalesced = shape.1;
        live_after = shape.2;
        data_kept = refl;
      },
    )
