-- ===== src/Heap.antt =====
-- src/kmalloc.c: the kernel's heap, a chain of blocks with a header before each.
-- The headers and the bytes of the blocks are two maps from addresses, so a header is never read
-- as data. Addresses and sizes are 32 bits wide, and a header takes 12 bytes. A loop runs on fuel
-- and returns `none` when that is used up.
pub mod Blocks
pub mod Chain
pub mod Extend
pub mod Search
pub mod Alloc
pub mod Free
pub mod Realloc
pub mod Stats
mod Tests
use pygmali_os.Base.{
  ℕ, zero, suc, ◌+◌, ◌-◌, ◌*◌, ◌/◌, ◌%◌, ◌^◌, Bool, true, false, not, ◌&&◌, ◌||◌, Option, none,
  some, ◌==◌, leb, ltb, if◌then◌else◌, u32, sub32,
}

-- `block_header`; the address 0 is NULL.
pub record Header : Type 0 where
  pub size : ℕ
  pub free : Bool
  pub next : ℕ

abbrev pub Headers : Type 0
Headers = ℕ → Header

pub record Store : Type 0 where
  pub heap_base : ℕ
  pub headers : Headers
  pub bytes : ℕ → ℕ

abbrev pub heap_start : ℕ
heap_start = 0xC0400000

abbrev pub heap_end : ℕ
heap_end = 0xC0800000

abbrev pub update {ℓ} : {A : Type ℓ} → (ℕ → A) → ℕ → A → ℕ → A
update f p v q = if p == q then v else f q

-- `ALIGN4` on a `size_t`.
abbrev pub align4 : ℕ → ℕ
align4 x = u32 (x + 3) / 4 * 4

-- The first-fit loop: where `current` and `prev` stand when it ends.
unfoldable pub search : ℕ → Headers → ℕ → ℕ → ℕ → Option (ℕ × ℕ)
search zero h size current prev = none
search (suc fuel) h size current prev =
    let rest = search fuel h size (h current).next current in
    if not (current == 0) && not ((h current).free && leb size (h current).size)
    then rest
    else some (current, prev)

-- The block that was found is taken, and split if it is big enough.
unfoldable pub claim : Headers → ℕ → ℕ → Headers
claim h current size =
    let h = update h current (record (h current) { free = false }) in
    let split_block = u32 (current + size + 12) in
    if leb (u32 (12 + size + 4)) (h current).size
    then update
        (update h split_block (record {
          size = sub32 (sub32 (h current).size 12) size;
          free = true;
          next = (h current).next;
        }))
        current (record (h current) { size = size; next = split_block })
    else h

-- A new block behind the last one, unless it would end beyond the heap.
unfoldable pub extend : Store → ℕ → ℕ → ℕ × Store
extend st prev size =
    let h = st.headers in
    let new_block = u32 (prev + 12 + (h prev).size) in
    if prev == 0 then (0, st) else if ltb heap_end (u32 (new_block + 12 + size)) then (0, st) else (
      u32 (new_block + 12),
      record st {
        headers =
            update (update h new_block (record { size = size; free = false; next = 0 })) prev
              (record (h prev) { next = new_block });
      },
    )

abbrev pub serve : Store → ℕ → ℕ × ℕ → ℕ × Store
serve st size found =
    if found.0 == 0
    then extend st found.1 size
    else (u32 (found.0 + 12), record st { headers = claim st.headers found.0 size })

unfoldable pub first_block : Store → ℕ → Store
first_block st size = record st {
  heap_base = heap_start;
  headers = update st.headers heap_start (record { size = size; free = false; next = 0 });
}

-- The pointer returned and the new store.
unfoldable pub kmalloc : ℕ → ℕ → Store → Option (ℕ × Store)
unfolding search claim extend first_block
kmalloc fuel request st =
    let size = align4 request in
    if st.heap_base == 0
    then some (heap_start + 12, first_block st size)
    else elim (search fuel st.headers size st.heap_base 0) [
      | none ↦ none
      | some found ↦ some (serve st size found)
    ]

-- The loop that merges neighbours that are both free.
unfoldable pub merge : ℕ → Headers → ℕ → Option Headers
merge zero h current = none
merge (suc fuel) h current =
    let after = (h current).next in
    let joined = update h current (record (h current) {
      size = u32 ((h current).size + u32 ((h after).size + 12));
      next = (h after).next;
    }) in
    let merged = merge fuel joined current in
    let moved = merge fuel h after in
    if not (current == 0) && not (after == 0)
    then (if (h current).free && (h after).free then merged else moved)
    else some h

-- Pointers to `int` are compared, so `heap_end - sizeof(block_header)` is 48 bytes below the end.
abbrev pub is_invalid : ℕ → Bool
is_invalid p = p == 0 || (ltb p heap_start || ltb (heap_end - 48) p)

unfoldable pub kfree : ℕ → ℕ → Store → Option Store
unfolding merge
kfree fuel to_be_freed st =
    let header = to_be_freed - 12 in
    let freed = update st.headers header (record (st.headers header) { free = true }) in
    if is_invalid to_be_freed then some st else elim (merge fuel freed st.heap_base) [
      | none ↦ none
      | some h ↦ some (record st { headers = h })
    ]

-- `memcpy`, one byte after the other from the front.
unfoldable pub memcpy : ℕ → ℕ → ℕ → (ℕ → ℕ) → ℕ → ℕ
memcpy zero dest src m = m
memcpy (suc len) dest src m = memcpy len (dest + 1) (src + 1) (update m dest (m src))

abbrev pub copy_over : ℕ → ℕ → ℕ → Store → Store
copy_over len dest src st = record st { bytes = memcpy len dest src st.bytes }

unfoldable pub krealloc : ℕ → ℕ → ℕ → Store → Option (ℕ × Store)
krealloc fuel ptr request st =
    let header = st.headers (ptr - 12) in
    let size = align4 request in
    if ptr == 0
    then kmalloc fuel request st
    else if request == 0
    then elim (kfree fuel ptr st) [ none ↦ none | some st' ↦ some (0, st') ]
    else if leb size header.size
    then some (ptr, st)
    else elim (kmalloc fuel size st) [
      | none ↦ none
      | some (new_ptr, st') ↦
          if new_ptr == 0
          then some (0, st')
          else elim (kfree fuel ptr (copy_over (st'.headers (ptr - 12)).size new_ptr ptr st')) [
            | none ↦ none
            | some st'' ↦ some (new_ptr, st'')
          ]
    ]

pub record HeapInfo : Type 0 where
  pub used_blocks : ℕ
  pub used_bytes : ℕ
  pub total_bytes : ℕ
  pub total_blocks : ℕ

unfoldable pub count_blocks : ℕ → Headers → ℕ → HeapInfo → Option HeapInfo
count_blocks zero h current i = none
count_blocks (suc fuel) h current i =
    let all = record i {
      total_blocks = i.total_blocks + 1;
      total_bytes = i.total_bytes + (h current).size;
    } in
    let counted = if (h current).free then all else record all {
      used_blocks = i.used_blocks + 1;
      used_bytes = i.used_bytes + (h current).size;
    } in
    let rest = count_blocks fuel h (h current).next counted in if current == 0 then some i else rest

-- The counters are `int`s; what they count fits, since the heap is 4 MiB.
unfoldable pub heap_stats : ℕ → Store → Option HeapInfo
unfolding count_blocks
heap_stats fuel st =
    let zeros : HeapInfo = record {
      used_blocks = 0;
      used_bytes = 0;
      total_bytes = 0;
      total_blocks = 0;
    } in
    elim (count_blocks fuel st.headers heap_start zeros) [
      | none ↦ none
      | some i ↦ some (record i {
        used_bytes = i.used_bytes + i.used_blocks * 12;
        total_bytes = i.total_bytes + i.total_blocks * 12;
      })
    ]
