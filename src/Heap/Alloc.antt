-- ===== src/Heap/Alloc.antt =====
-- `kmalloc` on a well-formed heap, and the first allocation.
use pygmali_os.Base.{
  ℕ, ◌+◌, ◌-◌, ◌≤◌, ◌<◌, ◌≡◌, ◌∙◌, ◌⊎◌, inl, inr, refl, ap, arith, none, some, List, [], ◌∷◌, ◌++◌,
  length, length-append, ltb, if◌then◌else◌, Bool-cases, Option-cases, ltb→lt,
}
use pygmali_os.Heap.{Store, heap_start, heap_end, align4, claim, kmalloc, first_block}
use pygmali_os.Heap.Blocks.{
  Block, used, extent, first_fit, first_fit-Grants, first_fit-le-extent, Grants, Grants-append,
  Grants-weaken, extent-append,
}
use pygmali_os.Heap.Chain.{IsHeap}
use pygmali_os.Heap.Extend.{linked, last_address-end, IsChain-linked}
use pygmali_os.Heap.Search.{last_address, search-none, search-some, claim-first_fit}

-- A pointer to a region of at least `request` bytes that is new among the allocated ones.
pub record Allocated (request : ℕ) (st : Store) (bs : List Block) (ptr : ℕ) (st' : Store)
    : Type 0 where
  pub blocks : List Block
  pub heap : IsHeap st' blocks
  pub offset : ℕ
  pub pointer : ptr ≡ heap_start + offset + 12
  pub grants : Grants heap_start request offset bs blocks
  pub data_kept : st'.bytes ≡ st.bytes

-- No block fits, and there is no room behind the last one.
pub record Refused (request : ℕ) (st : Store) (bs : List Block) (ptr : ℕ) (st' : Store)
    : Type 0 where
  pub null : ptr ≡ 0
  pub unchanged : st' ≡ st
  pub no_fit : first_fit (align4 request) bs ≡ none
  pub no_room : heap_end < heap_start + extent bs + 12 + align4 request

pub align4_bounds :
    (n : ℕ) → n ≤ 0x3EFFFFFC → (n ≤ align4 n) × (align4 n ≤ n + 3) × (align4 n ≤ 0x3F000000)
align4_bounds n h = omega arith

module _ (st : Store) (bs : List Block) (request fuel : ℕ) (v : IsHeap st bs)
    (small : request ≤ 0x3EFFFFFC) (enough : length bs < fuel) where
  abbrev size : ℕ
  size = align4 request

  abbrev Outcome : ℕ × Store → Type 0
  Outcome r = Refused request st bs r.0 r.1 ⊎ Allocated request st bs r.0 r.1

  -- Where a block fits, it is taken.
  fitted : ℕ → Store
  fitted o = record st { headers = claim st.headers (heap_start + o) size }

  kmalloc-fit :
      {o : ℕ} {bs' : List Block}
      → first_fit size bs ≡ some (o, bs')
      → kmalloc fuel request st ≡ some (heap_start + o + 12, fitted o)
  unfolding kmalloc fitted
  kmalloc-fit {o} e =
      let (q, found) =
        search-some st.headers size fuel heap_start 0 bs v.chain (omega arith) enough e in
      let within : o ≤ extent bs = (first_fit-le-extent size bs e).0 in
      rw (v.base, found) (ground (arith, v.within))

  fitted-Allocated :
      {o : ℕ} {bs' : List Block}
      → first_fit size bs ≡ some (o, bs')
      → Allocated request st bs (heap_start + o + 12) (fitted o)
  unfolding fitted
  fitted-Allocated {o} {bs'} e =
      let bounds = align4_bounds request small in
      let shape = first_fit-le-extent size bs e in
      let g = first_fit-Grants heap_start size bs e in
      record {
        blocks = bs';
        heap = record {
          base = v.base;
          chain =
              claim-first_fit st.headers size heap_start bs v.chain v.within bounds.2 (omega arith)
                e;
          not_empty = shape.2;
          within = omega (arith, shape.1, v.within);
        };
        offset = o;
        pointer = refl;
        grants = Grants-weaken heap_start request size o bs bs' bounds.0 g;
        data_kept = refl;
      }

  -- Where none fits, the last block is followed by a new one, if there is room.
  end : ℕ
  end = heap_start + extent bs

  grown : Store
  unfolding end
  grown = record st { headers = linked st.headers (last_address 0 heap_start bs) end size }

  module _ (nothing : first_fit size bs ≡ none) where
    kmalloc-extend :
        kmalloc fuel request st
        ≡ some (if ltb heap_end (end + 12 + size) then (0, st) else (end + 12, grown))
    unfolding kmalloc grown
    kmalloc-extend =
        let found =
          search-none st.headers size fuel heap_start 0 bs v.chain (omega arith) enough v.not_empty
            nothing in
        let last = last_address-end st.headers 0 heap_start bs v.chain v.not_empty in
        let bounds = align4_bounds request small in
        rw (v.base, found) (ground (arith, v.within, last))

    grown-Allocated : end + 12 + size ≤ heap_end → Allocated request st bs (end + 12) grown
    unfolding grown
    grown-Allocated room =
        let bounds = align4_bounds request small in
        let g = Grants-append heap_start size bs in
        record {
          blocks = bs ++ used size ∷ [];
          heap = record {
            base = v.base;
            chain = IsChain-linked st.headers size 0 heap_start end bs v.chain v.not_empty refl;
            not_empty = omega (arith, length-append bs (used size ∷ []));
            within = omega (arith, extent-append bs (used size ∷ []));
          };
          offset = extent bs;
          pointer = refl;
          grants =
              Grants-weaken heap_start request size (extent bs) bs (bs ++ used size ∷ []) bounds.0
                g;
          data_kept = refl;
        }

    kmalloc-new : (r : ℕ × Store) × (kmalloc fuel request st ≡ some r) × Outcome r
    kmalloc-new = elim (Bool-cases (ltb heap_end (end + 12 + size))) [
      | inl full ↦ (
        (0, st),
        kmalloc-extend ∙ ap (λ t. some (if t then (0, st) else (end + 12, grown))) full,
        inl (record {
          null = refl;
          unchanged = refl;
          no_fit = nothing;
          no_room = ltb→lt _ _ (unfold end in full);
        }),
      )
      | inr room ↦ (
        (end + 12, grown),
        kmalloc-extend ∙ ap (λ t. some (if t then (0, st) else (end + 12, grown))) room,
        inr (grown-Allocated (ground arith)),
      )
    ]

  -- On a well-formed heap, with a request of at most 0x3EFFFFFC bytes and fuel for more rounds than
  -- there are blocks, `kmalloc` ends. It either returns NULL and changes nothing, where no block
  -- fits and the heap has no room left, or it returns the address of a region of at least the
  -- requested size, which is then allocated beside all that were, on a well-formed heap.
  pub kmalloc-Outcome : (r : ℕ × Store) × (kmalloc fuel request st ≡ some r) × Outcome r
  kmalloc-Outcome = elim (Option-cases (first_fit size bs)) [
    | inl nothing ↦ kmalloc-new nothing
    | inr (found, e) ↦
        ((heap_start + found.0 + 12, fitted found.0), kmalloc-fit e, inr (fitted-Allocated e))
  ]

-- The first allocation makes the heap, if what is asked for fits into it.
pub kmalloc-first :
    (st : Store) (request fuel : ℕ)
    → st.heap_base ≡ 0
    → 12 + request ≤ heap_end - heap_start
    → (st' : Store) × (kmalloc fuel request st ≡ some (heap_start + 12, st'))
      × IsHeap st' (used (align4 request) ∷ [])
unfolding kmalloc first_block
kmalloc-first st request fuel b fits = (
  first_block st (align4 request),
  rw b refl,
  record { base = refl; chain = (refl, tt); not_empty = omega arith; within = omega arith },
)
