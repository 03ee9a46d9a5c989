-- ===== src/Fat/Table.antt =====
-- The file allocation table as a map from clusters to 32-bit words, kept in several copies.
use pygmali_os.Base.{
  ℕ, ◌+◌, ◌*◌, ◌/◌, ◌%◌, ◌^◌, ◌≤◌, ◌<◌, ◌≡◌, ◌∙◌, inl, inr, refl, ap, arith, true, false, List, leb,
  ◌==◌, if◌then◌else◌, length, get_or, set, drop, length-set, get_or-set, get_or-drop, Bool-cases,
  u32, bit_and,
}
use native.Mathlib.Nat.{mul-le-mul_right}
use pygmali_os.Base.Bits.{bit_and_mask}
use pygmali_os.CString.{merge_bytes}
use pygmali_os.CString.Bytes.{merge_bytes-four}
use pygmali_os.Fat.Volume.{
  Volume, read_sector, fat_start, fat_sector, entry_offset, get_from_fat, put_entry, int_ltb,
}

-- The table's first sector, and the sector and place of a cluster's entry in its first copy.
abbrev pub first : Volume → ℕ
first v = v.partition_start + v.reserved_sectors

abbrev pub word_at : List ℕ → ℕ → ℕ
word_at s o =
    get_or s (o + 3) 0 * 2 ^ 24
    + get_or s (o + 2) 0 * 2 ^ 16
    + get_or s (o + 1) 0 * 2 ^ 8
    + get_or s o 0

abbrev pub entry : Volume → ℕ → ℕ
entry v c = word_at (v.sectors (first v + c / 128)) (c % 128 * 4)

abbrev pub IsSector : List ℕ → Type 0
IsSector s = (length s ≡ 512) × ((i : ℕ) → get_or s i 0 < 256)

-- The table and its copies lie in the partition, and there is memory for a sector.
pub record IsVolume (v : Volume) : Type 0 where
  pub table_in : first v + v.num_of_fats * v.sectors_per_fat ≤ v.partition_end + 1
  pub end_in : v.partition_end + 1 < 2 ^ 32
  pub not_first : 0 < first v
  pub one_fat : 1 ≤ v.num_of_fats
  pub table_size : v.sectors_per_fat ≤ 2 ^ 21
  pub has_memory : v.memory ≡ true
  pub sector : (s : ℕ) → IsSector (v.sectors s)

-- A cluster that has an entry.
abbrev pub IsCluster : Volume → ℕ → Type 0
IsCluster v c = (2 ≤ c) × (c < v.sectors_per_fat * 128)

pub put_entry-get :
    (s : List ℕ) (o x j : ℕ)
    → o + 3 < length s
    → get_or (put_entry s o x) j 0 ≡ (
        if j == o + 3
        then bit_and (x / 2 ^ 24) 0xFF
        else if j == o + 2
        then bit_and (x / 2 ^ 16) 0xFF
        else if j == o + 1
        then bit_and (x / 2 ^ 8) 0xFF
        else if j == o
        then bit_and x 0xFF
        else get_or s j 0)
put_entry-get s o x j l =
    let s0 = set s o (bit_and x 0xFF) in
    let s1 = set s0 (o + 1) (bit_and (x / 2 ^ 8) 0xFF) in
    let s2 = set s1 (o + 2) (bit_and (x / 2 ^ 16) 0xFF) in
    let l0 : length s0 ≡ length s = length-set s o _ in
    let l1 : length s1 ≡ length s = length-set s0 (o + 1) _ ∙ l0 in
    let l2 : length s2 ≡ length s = length-set s1 (o + 2) _ ∙ l1 in
    rw
      (
        get_or-set s2 (o + 3) j (bit_and (x / 2 ^ 24) 0xFF) 0 (omega (arith, l2)),
        get_or-set s1 (o + 2) j (bit_and (x / 2 ^ 16) 0xFF) 0 (omega (arith, l1)),
        get_or-set s0 (o + 1) j (bit_and (x / 2 ^ 8) 0xFF) 0 (omega (arith, l0)),
        get_or-set s o j (bit_and x 0xFF) 0 (omega arith),
      )
      refl

pub put_entry-word :
    (s : List ℕ) (o x p : ℕ)
    → IsSector s
    → o < 128
    → p < 128
    → x < 2 ^ 32
    → word_at (put_entry s (o * 4) x) (p * 4) ≡ (if p == o then x else word_at s (p * 4))
put_entry-word s o x p h lo lp lx =
    let got = λ (j : ℕ). put_entry-get s (o * 4) x j (omega arith) in
    let t = put_entry s (o * 4) x in
    let b3 : get_or t (p * 4 + 3) 0
        ≡ (if p == o then x / 2 ^ 24 % 2 ^ 8 else get_or s (p * 4 + 3) 0) =
      rw (got (p * 4 + 3), bit_and_mask 8 (x / 2 ^ 24)) (ground arith) in
    let b2 : get_or t (p * 4 + 2) 0
        ≡ (if p == o then x / 2 ^ 16 % 2 ^ 8 else get_or s (p * 4 + 2) 0) =
      rw (got (p * 4 + 2), bit_and_mask 8 (x / 2 ^ 16)) (ground arith) in
    let b1 : get_or t (p * 4 + 1) 0
        ≡ (if p == o then x / 2 ^ 8 % 2 ^ 8 else get_or s (p * 4 + 1) 0) =
      rw (got (p * 4 + 1), bit_and_mask 8 (x / 2 ^ 8)) (ground arith) in
    let b0 : get_or t (p * 4) 0 ≡ (if p == o then x % 2 ^ 8 else get_or s (p * 4) 0) =
      rw (got (p * 4), bit_and_mask 8 x) (ground arith) in
    rw (b3, b2, b1, b0)
      (elim (Bool-cases (p == o)) [ inl e ↦ rw e (omega arith) | inr e ↦ rw e refl ])

-- Where the code looks for an entry.
pub entry_place :
    (v : Volume) (c : ℕ)
    → IsVolume v
    → IsCluster v c
    → (int_ltb c 2 ≡ false)
      × (fat_start v ≡ first v)
      × (fat_sector v c ≡ first v + c / 128)
      × (entry_offset c ≡ c % 128 * 4)
      × (first v + c / 128 < first v + v.sectors_per_fat)
      × (u32 (fat_start v + v.sectors_per_fat) ≡ first v + v.sectors_per_fat)
      × (first v + v.sectors_per_fat ≤ v.partition_end + 1)
entry_place v c w h =
    let one : v.sectors_per_fat ≤ v.num_of_fats * v.sectors_per_fat =
      omega (arith, mul-le-mul_right v.sectors_per_fat w.one_fat) in
    let far : first v + v.sectors_per_fat ≤ v.partition_end + 1 = omega (arith, w.table_in) in
    let limit : v.sectors_per_fat ≤ 2 ^ 21 = w.table_size in
    let last : v.partition_end + 1 < 2 ^ 32 = w.end_in in
    let inside : c / 128 < v.sectors_per_fat = omega arith in
    (ground arith, omega arith, ground arith, ground arith, omega arith, omega arith, far)

-- What the code reads from a sector is the word there.
pub merged-word :
    (s : List ℕ) (o : ℕ)
    → IsSector s
    → bit_and (merge_bytes (drop o s) 4) 0x0FFFFFFF ≡ word_at s o % 2 ^ 28
merged-word s o h =
    let at = λ (i : ℕ). get_or-drop s o i 0 in
    let small = λ (i : ℕ). h.1 (o + i) in
    let zeroth : get_or (drop o s) 0 0 ≡ get_or s o 0 =
      at 0 ∙ ap (λ j. get_or s j 0) (omega arith) in
    let four =
      merge_bytes-four (drop o s) (rw zeroth (h.1 o)) (rw (at 1) (small 1)) (rw (at 2) (small 2))
        (rw (at 3) (small 3)) in
    rw (four, zeroth, at 1, at 2, at 3) (bit_and_mask 28 (word_at s o))

-- A sector of the partition is read from the disk.
pub read_sector-inside :
    (v : Volume) (s : ℕ) (buffer : List ℕ)
    → v.partition_start ≤ s
    → s ≤ v.partition_end
    → read_sector v s buffer ≡ v.sectors s
unfolding read_sector
read_sector-inside v s buffer low high = ground arith

-- An entry is read as its word without the four highest bits.
pub get_from_fat-entry :
    (v : Volume) (c : ℕ) → IsVolume v → IsCluster v c → get_from_fat v c ≡ entry v c % 2 ^ 28
unfolding get_from_fat
get_from_fat-entry v c w h =
    let (low, start, sector, offset, inside, limit, far) = entry_place v c w h in
    let within : leb (u32 (fat_start v + v.sectors_per_fat)) (fat_sector v c) ≡ false =
      rw (limit, sector) (ground arith) in
    rw
      (
        low,
        within,
        sector,
        offset,
        read_sector-inside v (first v + c / 128) v.stale (omega arith) (omega arith),
        w.has_memory,
      )
      (merged-word (v.sectors (first v + c / 128)) (c % 128 * 4) (w.sector (first v + c / 128)))
