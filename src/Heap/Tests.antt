-- ===== src/Heap/Tests.antt =====
-- The allocator at fixed heaps.
use pygmali_os.Base.{
  ℕ, ◌+◌, ◌≡◌, ◌⊎◌, refl, arith, true, false, Option, none, some, List, [], ◌∷◌, ◌==◌,
  if◌then◌else◌,
}
use pygmali_os.Heap.{Store, heap_start, kmalloc, kfree, search, claim, extend, first_block, merge}
use pygmali_os.Heap.Alloc.{Allocated, Refused, kmalloc-Outcome}
use pygmali_os.Heap.Blocks.{Block, used}
use pygmali_os.Heap.Chain.{IsHeap}
use pygmali_os.Heap.Free.{Freed, kfree-Freed}

abbrev untouched : Store
untouched = record {
  heap_base = 0;
  headers = λ a. record { size = 0; free = false; next = 0 };
  bytes = λ a. a;
}

-- A used block of 8 bytes, a free one of 40 and a used one of 4.
abbrev blocks : List Block
blocks = used 8 ∷ record { size = 40; free = true } ∷ used 4 ∷ []

abbrev store : Store
store = record {
  heap_base = heap_start;
  headers = λ a.
      if a == heap_start
      then record { size = 8; free = false; next = heap_start + 20 }
      else if a == heap_start + 20
      then record { size = 40; free = true; next = heap_start + 72 }
      else record { size = 4; free = false; next = 0 };
  bytes = λ a. a;
}

store-IsHeap : IsHeap store blocks
store-IsHeap = record {
  base = refl;
  chain = (refl, (refl, (refl, tt)));
  not_empty = omega arith;
  within = omega arith;
}

-- Three allocations, a release in the middle and one that splits the free block.
session : Option (ℕ × ℕ × ℕ)
unfolding kmalloc kfree search claim extend first_block merge
session = elim (kmalloc 9 5 untouched) [
  | none ↦ none
  | some (a, s) ↦ elim (kmalloc 9 40 s) [
    | none ↦ none
    | some (b, s) ↦ elim (kmalloc 9 4 s) [
      | none ↦ none
      | some (c, s) ↦ elim (kfree 9 b s) [
        | none ↦ none
        | some s ↦ elim (kmalloc 9 9 s) [ none ↦ none | some (d, s) ↦ some (a, c, d) ]
      ]
    ]
  ]
]

session_addresses : session ≡ some (heap_start + 12, heap_start + 84, heap_start + 32)
unfolding session
session_addresses = refl

kmalloc-Outcome_example :
    (r : ℕ × Store) × (kmalloc 9 9 store ≡ some r)
    × (Refused 9 store blocks r.0 r.1 ⊎ Allocated 9 store blocks r.0 r.1)
kmalloc-Outcome_example = kmalloc-Outcome store blocks 9 9 store-IsHeap (omega arith) (omega arith)

kfree-Freed_example :
    (st' : Store) × (kfree 9 (heap_start + 12) store ≡ some st')
    × Freed (heap_start + 12) store blocks st'
kfree-Freed_example =
    kfree-Freed store blocks (heap_start + 12) 9 store-IsHeap refl (omega arith) (omega arith)
