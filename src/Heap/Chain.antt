-- ===== src/Heap/Chain.antt =====
-- The headers in memory as the list of blocks that they form.
use pygmali_os.Base.{ℕ, ◌+◌, ◌≤◌, ◌<◌, ◌≡◌, ◌∙◌, arith, List, [], ◌∷◌, length, ◌*◌}
use pygmali_os.Heap.{Header, Headers, Store, heap_start, heap_end}
use pygmali_os.Heap.Blocks.{Block, extent}

-- The `next` pointer of block `b` at address `p`, before the blocks `bs`.
abbrev pub link : ℕ → Block → List Block → ℕ
link p b [] = 0
link p b (c ∷ bs) = p + 12 + b.size

abbrev pub header_of : ℕ → Block → List Block → Header
header_of p b bs = record { size = b.size; free = b.free; next = link p b bs }

-- From address `p` on the headers are those of the blocks `bs`, one right behind the other.
abbrev pub IsChain : Headers → ℕ → List Block → Type 0
IsChain h p [] = Unit
IsChain h p (b ∷ bs) = (h p ≡ header_of p b bs) × IsChain h (p + 12 + b.size) bs

-- A chain depends on the headers from its address on.
pub IsChain-frame :
    (h g : Headers) (p : ℕ) (bs : List Block)
    → ((a : ℕ) → p ≤ a → g a ≡ h a)
    → IsChain h p bs
    → IsChain g p bs
IsChain-frame h g p [] same c = tt
IsChain-frame h g p (b ∷ bs) same c = (
  same p (omega arith) ∙ c.0,
  IsChain-frame h g (p + 12 + b.size) bs (λ a l. same a (omega arith)) c.1,
)

pub record IsHeap (st : Store) (bs : List Block) : Type 0 where
  pub base : st.heap_base ≡ heap_start
  pub chain : IsChain st.headers heap_start bs
  pub not_empty : 0 < length bs
  pub within : heap_start + extent bs ≤ heap_end

pub length-le-extent : (bs : List Block) → 12 * length bs ≤ extent bs
length-le-extent [] = omega arith
length-le-extent (b ∷ bs) = omega (arith, length-le-extent bs)
