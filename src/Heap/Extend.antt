-- ===== src/Heap/Extend.antt =====
-- Putting a new block behind the last one of a chain.
use pygmali_os.Base.{ℕ, ◌+◌, ◌≤◌, ◌<◌, ◌≡◌, arith, false, List, [], ◌∷◌, ◌++◌, length}
use pygmali_os.Heap.{Headers, update}
use pygmali_os.Heap.Blocks.{Block, used, extent}
use pygmali_os.Heap.Chain.{IsChain}
use pygmali_os.Heap.Search.{last_address}

-- The last block ends where the chain does.
pub last_address-end :
    (h : Headers) (prev p : ℕ) (bs : List Block)
    → IsChain h p bs
    → 0 < length bs
    → let q = last_address prev p bs in (q + 12 + (h q).size ≡ p + extent bs) × (p ≤ q)
last_address-end h prev p [] c l = absurd (omega arith)
last_address-end h prev p (b ∷ []) c l = ground arith
last_address-end h prev p (b ∷ d ∷ bs) c l =
    omega (arith, last_address-end h p (p + 12 + b.size) (d ∷ bs) c.1 (omega arith))

-- The headers once a used block of `n` bytes at `e` follows the block at `q`.
abbrev pub linked : Headers → ℕ → ℕ → ℕ → Headers
linked h q e n =
    update (update h e (record { size = n; free = false; next = 0 })) q (record (h q) { next = e })

pub IsChain-linked :
    (h : Headers) (n prev p e : ℕ) (bs : List Block)
    → IsChain h p bs
    → 0 < length bs
    → p + extent bs ≡ e
    → IsChain (linked h (last_address prev p bs) e n) p (bs ++ used n ∷ [])
IsChain-linked h n prev p e [] c l w = absurd (omega arith)
IsChain-linked h n prev p e (b ∷ []) c l w =
    let at : p + 12 + b.size ≡ e = omega arith in (ground (arith, c.0), (ground (arith), tt))
IsChain-linked h n prev p e (b ∷ d ∷ bs) c l w =
    let q = last_address p (p + 12 + b.size) (d ∷ bs) in
    let behind = last_address-end h p (p + 12 + b.size) (d ∷ bs) c.1 (omega arith) in
    (
      ground (arith, c.0),
      IsChain-linked h n p (p + 12 + b.size) e (d ∷ bs) c.1 (omega arith) (omega arith),
    )
