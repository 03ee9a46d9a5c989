-- ===== src/Paging/Pages.antt =====
-- The bitmap as a set of free pages.
use pygmali_os.Base.{
  ℕ, zero, suc, ◌+◌, ◌-◌, ◌*◌, ◌/◌, ◌%◌, ◌^◌, ◌≤◌, ◌<◌, ◌≡◌, ◌∙◌, ◌⊎◌, inl, inr, refl, ap, arith,
  Bool, true, false, ◌&&◌, List, ◌==◌, leb, ltb, if◌then◌else◌, length, get_or, set, length-set,
  get_or-set, Bool-cases, u8, u32,
}
use pygmali_os.Paging.{
  page_size, max_pages, test_bit, set_bit, clear_bit, alloc_from, alloc_raw_page, free_raw_page,
  clear_from, set_from, reserve_address, unreserve_address,
}
use pygmali_os.Paging.Bytes.{bit, bit-set, bit-clear}

abbrev pub IsBitmap : List ℕ → Type 0
IsBitmap m = (length m * 8 ≡ max_pages) × ((i : ℕ) → get_or m i 0 < 256)

-- A bit of the bitmap after the byte of page `i` was replaced.
test_bit-set :
    (m : List ℕ) (i j v : ℕ) (b : Bool)
    → i < length m * 8
    → ((k : ℕ) → k < 8 → bit v k ≡ (if k == i % 8 then b else bit (get_or m (i / 8) 0) k))
    → test_bit (set m (i / 8) v) j ≡ (if j == i then b else test_bit m j)
unfolding test_bit
test_bit-set m i j v b l h =
    let got = get_or-set m (i / 8) (j / 8) v 0 (omega arith) in
    elim (Bool-cases (j / 8 == i / 8)) [
      | inl e ↦
          let k : j / 8 ≡ i / 8 = ground arith in
          let test : (j % 8 == i % 8) ≡ (j == i) = ground arith in
          let hit : get_or (set m (i / 8) v) (j / 8) 0 ≡ v = rw (got, e) refl in
          ap (λ a. bit a (j % 8)) hit ∙ (h (j % 8) (omega arith) ∙ rw (test, k) refl)
      | inr e ↦
          let other : (j == i) ≡ false = ground arith in
          let miss : get_or (set m (i / 8) v) (j / 8) 0 ≡ get_or m (j / 8) 0 = rw (got, e) refl in
          ap (λ a. bit a (j % 8)) miss ∙ rw other refl
    ]

replaced-IsBitmap :
    (m : List ℕ) (i v : ℕ) → IsBitmap m → i < max_pages → IsBitmap (set m (i / 8) (u8 v))
replaced-IsBitmap m i v w l =
    let size = length-set m (i / 8) (u8 v) in
    let byte : (j : ℕ) → get_or (set m (i / 8) (u8 v)) j 0 < 256 =
      λ j. ground (arith, get_or-set m (i / 8) j (u8 v) 0 (omega (arith, w.0, l)), w.1 j) in
    (omega (arith, size, w.0), byte)

set_bit-IsBitmap : (m : List ℕ) (i : ℕ) → IsBitmap m → i < max_pages → IsBitmap (set_bit m i)
unfolding set_bit
set_bit-IsBitmap m i w l = replaced-IsBitmap m i _ w l

pub clear_bit-IsBitmap :
    (m : List ℕ) (i : ℕ) → IsBitmap m → i < max_pages → IsBitmap (clear_bit m i)
unfolding clear_bit
clear_bit-IsBitmap m i w l = replaced-IsBitmap m i _ w l

test_bit-set_bit :
    (m : List ℕ) (i j : ℕ)
    → IsBitmap m
    → i < max_pages
    → test_bit (set_bit m i) j ≡ (if j == i then true else test_bit m j)
unfolding set_bit
test_bit-set_bit m i j w l =
    test_bit-set m i j _ true (omega (arith, w.0, l))
      (λ k h. bit-set (i % 8) k (get_or m (i / 8) 0) (omega arith) h (w.1 (i / 8)))

pub test_bit-clear_bit :
    (m : List ℕ) (i j : ℕ)
    → IsBitmap m
    → i < max_pages
    → test_bit (clear_bit m i) j ≡ (if j == i then false else test_bit m j)
unfolding clear_bit
test_bit-clear_bit m i j w l =
    test_bit-set m i j _ false (omega (arith, w.0, l))
      (λ k h. bit-clear (i % 8) k (get_or m (i / 8) 0) (omega arith) h (w.1 (i / 8)))

-- The first free page at or behind `i`, or none among the `n` pages from there.
alloc_from-first :
    (n i : ℕ) (m : List ℕ)
    → IsBitmap m
    → i + n ≡ max_pages
    → ((j : ℕ) → j < i → test_bit m j ≡ false)
    → ((alloc_from n i m ≡ (0, m)) × ((j : ℕ) → j < max_pages → test_bit m j ≡ false))
      ⊎ ((p : ℕ) × (p < max_pages)
          × (test_bit m p ≡ true)
          × ((j : ℕ) → j < p → test_bit m j ≡ false)
          × (alloc_from n i m ≡ (p * page_size, clear_bit m p)))
unfolding alloc_from
alloc_from-first zero i m w e none = inl (refl, λ j l. none j (omega arith))
alloc_from-first (suc n) i m w e none = elim (Bool-cases (test_bit m i)) [
  | inl t ↦
      let small : u32 (i * page_size) ≡ i * page_size = omega arith in
      inr (i, omega arith, t, none, rw (t, small) refl)
  | inr t ↦
      let rest = alloc_from-first n (i + 1) m w (omega arith) (λ j l. elim (Bool-cases (j == i)) [
        | inl k ↦ let same : j ≡ i = ground arith in rw same t
        | inr k ↦ none j (ground arith)
      ]) in
      rw t rest
]

-- Allocating a page gives the address of the lowest free page, which alone is then no longer free.
-- Without a free page it returns 0 and leaves the bitmap.
pub alloc_raw_page-first :
    (m : List ℕ)
    → IsBitmap m
    → ((alloc_raw_page m ≡ (0, m)) × ((j : ℕ) → j < max_pages → test_bit m j ≡ false))
      ⊎ ((p : ℕ) × (m' : List ℕ) × (p < max_pages)
          × (test_bit m p ≡ true)
          × ((j : ℕ) → j < p → test_bit m j ≡ false)
          × (alloc_raw_page m ≡ (p * page_size, m'))
          × IsBitmap m'
          × ((j : ℕ) → test_bit m' j ≡ (if j == p then false else test_bit m j)))
unfolding alloc_raw_page
alloc_raw_page-first m w =
    elim (alloc_from-first max_pages 0 m w (omega arith) (λ j l. absurd (omega arith))) [
      | inl none ↦ inl none
      | inr (p, l, t, below, e) ↦ inr (
        p,
        clear_bit m p,
        l,
        t,
        below,
        e,
        clear_bit-IsBitmap m p w l,
        λ j. test_bit-clear_bit m p j w l,
      )
    ]

-- Freeing a page makes that page free and no other.
pub free_raw_page-frees :
    (m : List ℕ) (addr : ℕ)
    → IsBitmap m
    → addr < 2 ^ 32
    → IsBitmap (free_raw_page addr m)
      × ((j : ℕ)
          → test_bit (free_raw_page addr m) j
            ≡ (if j == addr / page_size then true else test_bit m j))
unfolding free_raw_page
free_raw_page-frees m addr w l = (
  set_bit-IsBitmap m (addr / page_size) w (omega arith),
  λ j. test_bit-set_bit m (addr / page_size) j w (omega arith),
)

clear_from-cleared :
    (n i : ℕ) (m : List ℕ)
    → IsBitmap m
    → (0 < n → i + n ≤ max_pages)
    → IsBitmap (clear_from n i m)
      × ((j : ℕ)
          → test_bit (clear_from n i m) j
            ≡ (if leb i j && ltb j (i + n) then false else test_bit m j))
unfolding clear_from
clear_from-cleared zero i m w e = (w, λ j. ground arith)
clear_from-cleared (suc n) i m w e =
    let l : i < max_pages = omega (arith, e (omega arith)) in
    let (v, t) =
      clear_from-cleared n (i + 1) (clear_bit m i) (clear_bit-IsBitmap m i w l)
        (λ h. omega (arith, e (omega arith))) in
    (
      v,
      λ j.
          t j
          ∙ (ap (λ b. if leb (i + 1) j && ltb j (i + 1 + n) then false else b)
                (test_bit-clear_bit m i j w l)
              ∙ ground arith),
    )

set_from-set :
    (n i : ℕ) (m : List ℕ)
    → IsBitmap m
    → (0 < n → i + n ≤ max_pages)
    → IsBitmap (set_from n i m)
      × ((j : ℕ)
          → test_bit (set_from n i m) j ≡ (if leb i j && ltb j (i + n) then true else test_bit m j))
unfolding set_from
set_from-set zero i m w e = (w, λ j. ground arith)
set_from-set (suc n) i m w e =
    let l : i < max_pages = omega (arith, e (omega arith)) in
    let (v, t) =
      set_from-set n (i + 1) (set_bit m i) (set_bit-IsBitmap m i w l)
        (λ h. omega (arith, e (omega arith))) in
    (
      v,
      λ j.
          t j
          ∙ (ap (λ b. if leb (i + 1) j && ltb j (i + 1 + n) then true else b)
                (test_bit-set_bit m i j w l)
              ∙ ground arith),
    )

abbrev pub is_between : ℕ → ℕ → ℕ → Bool
is_between start end j = leb (start / page_size) j && leb j (end / page_size)

-- Reserving a range of addresses takes exactly the pages from that of its start up to that of its
-- end, this one too, and giving it up makes exactly these free.
pub reserve_address-pages :
    (m : List ℕ) (start end : ℕ)
    → IsBitmap m
    → end < 2 ^ 32
    → IsBitmap (reserve_address start end m)
      × ((j : ℕ)
          → test_bit (reserve_address start end m) j
            ≡ (if is_between start end j then false else test_bit m j))
      × IsBitmap (unreserve_address start end m)
      × ((j : ℕ)
          → test_bit (unreserve_address start end m) j
            ≡ (if is_between start end j then true else test_bit m j))
unfolding reserve_address unreserve_address
reserve_address-pages m start end w l =
    let n = end / page_size + 1 - start / page_size in
    let fits : 0 < n → start / page_size + n ≤ max_pages = λ h. omega arith in
    let (v, t) = clear_from-cleared n (start / page_size) m w fits in
    let (u, s) = set_from-set n (start / page_size) m w fits in
    (v, λ j. t j ∙ ground arith, u, λ j. s j ∙ ground arith)
