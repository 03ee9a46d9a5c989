-- ===== src/Heap/Stats.antt =====
-- `heap_stats` on a well-formed heap.
use pygmali_os.Base.{
  ℕ, zero, suc, ◌+◌, ◌*◌, ◌-◌, ◌<◌, ◌≡◌, ◌∙◌, ap, refl, arith, some, List, [], ◌∷◌, length,
  if◌then◌else◌,
}
use pygmali_os.Heap.{Headers, Store, HeapInfo, heap_start, count_blocks, heap_stats}
use pygmali_os.Heap.Blocks.{Block, extent, live}
use pygmali_os.Heap.Chain.{link, header_of, IsChain, IsHeap, length-le-extent}

-- The bytes of the allocated regions.
abbrev pub sum_sizes : List (ℕ × ℕ) → ℕ
sum_sizes [] = 0
sum_sizes ((a, n) ∷ l) = n + sum_sizes l

-- The counters once the blocks from address `p` on are counted; the bytes are those of the data.
abbrev pub counted : HeapInfo → ℕ → List Block → HeapInfo
counted i p bs = record {
  used_blocks = i.used_blocks + length (live p bs);
  used_bytes = i.used_bytes + sum_sizes (live p bs);
  total_bytes = i.total_bytes + (extent bs - 12 * length bs);
  total_blocks = i.total_blocks + length bs;
}

-- One round of the loop.
abbrev count_one : HeapInfo → Block → HeapInfo
count_one i b =
    let all = record i {
      total_blocks = i.total_blocks + 1;
      total_bytes = i.total_bytes + b.size;
    } in
    if b.free
    then all
    else record all { used_blocks = i.used_blocks + 1; used_bytes = i.used_bytes + b.size }

count_blocks-step :
    (k p : ℕ) (h : Headers) (i : HeapInfo) (b : Block) (bs : List Block)
    → 0 < p
    → h p ≡ header_of p b bs
    → count_blocks (suc k) h p i ≡ count_blocks k h (link p b bs) (count_one i b)
unfolding count_blocks
count_blocks-step k p h i b bs pos e = rw e (ground arith)

counted-step :
    (i : HeapInfo) (p : ℕ) (b : Block) (bs : List Block)
    → counted (count_one i b) (p + 12 + b.size) bs ≡ counted i p (b ∷ bs)
counted-step i p b bs = ground (arith, length-le-extent bs)

count_blocks-null : (k : ℕ) (h : Headers) (i : HeapInfo) → count_blocks (suc k) h 0 i ≡ some i
unfolding count_blocks
count_blocks-null k h i = refl

count_blocks-counted :
    (k p : ℕ) (h : Headers) (i : HeapInfo) (b : Block) (bs : List Block)
    → 0 < p
    → IsChain h p (b ∷ bs)
    → length bs + 1 < k
    → count_blocks k h p i ≡ some (counted i p (b ∷ bs))
count_blocks-counted zero p h i b bs pos c l = absurd (omega arith)
count_blocks-counted (suc zero) p h i b bs pos c l = absurd (omega arith)
count_blocks-counted (suc (suc k)) p h i b [] pos c l =
    count_blocks-step (suc k) p h i b [] pos c.0
    ∙ (count_blocks-null k h (count_one i b) ∙ ground arith)
count_blocks-counted (suc (suc k)) p h i b (d ∷ bs) pos c l =
    count_blocks-step (suc k) p h i b (d ∷ bs) pos c.0
    ∙ (count_blocks-counted (suc k) (p + 12 + b.size) h (count_one i b) d bs (omega arith) c.1
          (omega arith)
        ∙ ap some (counted-step i p b (d ∷ bs)))

-- On a well-formed heap `heap_stats` ends, and reports the number of blocks and of allocated
-- regions, and the bytes of both with 12 for each header.
pub heap_stats-counted :
    (st : Store) (bs : List Block) (fuel : ℕ)
    → IsHeap st bs
    → length bs + 1 < fuel
    → heap_stats fuel st
      ≡ some (record {
        used_blocks = length (live heap_start bs);
        used_bytes = sum_sizes (live heap_start bs) + length (live heap_start bs) * 12;
        total_bytes = extent bs;
        total_blocks = length bs;
      })
unfolding heap_stats
heap_stats-counted st [] fuel v l = absurd (omega (arith, v.not_empty))
heap_stats-counted st (b ∷ bs) fuel v l =
    let zeros : HeapInfo = record {
      used_blocks = 0;
      used_bytes = 0;
      total_bytes = 0;
      total_blocks = 0;
    } in
    rw
      (
        heap_stats,
        count_blocks-counted fuel heap_start st.headers zeros b bs (omega arith) v.chain
            (omega arith),
      )
      (ground (arith, length-le-extent bs))
