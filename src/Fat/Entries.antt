-- ===== src/Fat/Entries.antt =====
-- Writing an entry of the table.
use pygmali_os.Base.{
  ℕ, zero, suc, ◌+◌, ◌*◌, ◌/◌, ◌%◌, ◌^◌, ◌≤◌, ◌<◌, ◌≡◌, ◌≢◌, ◌∙◌, ◌⊎◌, inl, inr, refl, sym, ap,
  arith, false, List, ltb, ◌==◌, if◌then◌else◌, length, get_or, length-set, Bool-cases, u32, not,
  else-taken,
}
use native.Mathlib.Nat.{mul-le-mul_right}
use pygmali_os.Base.Bits.{bit_and_mask}
use pygmali_os.Fat.Volume.{Volume, fat_start, fat_sector, get_from_fat, put_entry, modify_fat}
use pygmali_os.Fat.Table.{
  first, word_at, entry, IsSector, IsVolume, IsCluster, put_entry-word, put_entry-get, entry_place,
  get_from_fat-entry, read_sector-inside,
}
use pygmali_os.Fat.Copies.{copied, write_copies-copied, copied-hit, copied-miss, copied-all}

-- The sector of an entry in the first copy, the bytes written, and the volume afterwards.
abbrev pub place : Volume → ℕ → ℕ
place v c = first v + c / 128

abbrev pub changed : Volume → ℕ → ℕ → List ℕ
changed v c x = put_entry (v.sectors (place v c)) (c % 128 * 4) x

abbrev pub modified : Volume → ℕ → ℕ → Volume
modified v c x = record v {
  sectors = copied v.num_of_fats v.sectors_per_fat (place v c) (changed v c x) v.sectors;
}

pub modify_fat-modified :
    (v : Volume) (c x : ℕ) → IsVolume v → IsCluster v c → modify_fat v c x ≡ (0, modified v c x)
unfolding modify_fat
modify_fat-modified v c x w h =
    let (low, start, sector, offset, inside, limit, far) = entry_place v c w h in
    let two : ltb c 2 ≡ false = ground arith in
    let within : ltb (u32 (fat_start v + v.sectors_per_fat)) (fat_sector v c) ≡ false =
      rw (limit, sector) (ground arith) in
    let read = read_sector-inside v (place v c) v.stale (omega arith) (omega arith) in
    let room : 0 < v.num_of_fats
        → place v c + (0 + v.num_of_fats) * v.sectors_per_fat
          < v.partition_end + 1 + v.sectors_per_fat =
      λ some. omega (arith, w.table_in) in
    let written =
      write_copies-copied v.num_of_fats 0 (place v c) v.sectors_per_fat (changed v c x) v refl
        (omega arith) (omega (arith, w.not_first)) room (omega (arith, w.end_in)) in
    else-taken (ltb c 2) _ _ two
    ∙ (else-taken (not v.memory) _ _ (ap not w.has_memory)
        ∙ (else-taken _ _ _ within
            ∙ rw (sector, offset, read, written)
                (ap
                  (λ a. (
                    0,
                    record v {
                      sectors = copied v.num_of_fats v.sectors_per_fat a (changed v c x) v.sectors;
                    },
                  ))
                  (omega arith))))

changed-IsSector : (v : Volume) (c x : ℕ) → IsVolume v → IsSector (changed v c x)
changed-IsSector v c x w =
    let s = v.sectors (place v c) in
    let (size, small) = w.sector (place v c) in
    let o = c % 128 * 4 in
    let count : length (changed v c x) ≡ 512 =
      length-set _ (o + 3) _
      ∙ (length-set _ (o + 2) _ ∙ (length-set _ (o + 1) _ ∙ (length-set s o _ ∙ size))) in
    let byte : (i : ℕ) → get_or (changed v c x) i 0 < 256 = λ i.
      rw
        (
          put_entry-get s o x i (omega (arith, size)),
          bit_and_mask 8 x,
          bit_and_mask 8 (x / 2 ^ 8),
          bit_and_mask 8 (x / 2 ^ 16),
          bit_and_mask 8 (x / 2 ^ 24),
        )
        (ground (arith, small i)) in
    (count, byte)

pub modified-IsVolume : (v : Volume) (c x : ℕ) → IsVolume v → IsVolume (modified v c x)
modified-IsVolume v c x w = record {
  table_in = w.table_in;
  end_in = w.end_in;
  not_first = w.not_first;
  one_fat = w.one_fat;
  table_size = w.table_size;
  has_memory = w.has_memory;
  sector =
      copied-all IsSector v.num_of_fats v.sectors_per_fat (place v c) (changed v c x) v.sectors
        (changed-IsSector v c x w) w.sector;
}

-- Sectors at two places of a copy are different sectors, in whichever copies.
apart : (f q p s j k : ℕ) → q < s → p < s → q ≢ p → f + j * s + q ≢ f + p + k * s
apart f q p s zero zero lq lp n e = n (omega arith)
apart f q p s zero (suc k) lq lp n e = omega arith
apart f q p s (suc j) zero lq lp n e = omega arith
apart f q p s (suc j) (suc k) lq lp n e = apart f q p s j k lq lp n (omega arith)

-- The entries of the first copy.
entry-modified :
    (v : Volume) (c d x : ℕ)
    → IsVolume v
    → IsCluster v c
    → IsCluster v d
    → x < 2 ^ 32
    → entry (modified v c x) d ≡ (if d == c then x else entry v d)
entry-modified v c d x w hc hd l = elim (Bool-cases (place v d == place v c)) [
  | inl e ↦
      let same : place v d ≡ place v c = ground arith in
      let hit =
        copied-hit v.num_of_fats 0 v.sectors_per_fat (place v c) (place v d) (changed v c x)
          v.sectors (omega (arith, w.one_fat)) (omega (arith, same)) in
      let word =
        put_entry-word (v.sectors (place v c)) (c % 128) x (d % 128) (w.sector (place v c))
          (omega arith) (omega arith) l in
      let test : (d % 128 == c % 128) ≡ (d == c) = ground arith in
      ap (λ s. word_at s (d % 128 * 4)) hit ∙ (word ∙ rw (test, same) refl)
  | inr e ↦
      let other : (d == c) ≡ false = ground arith in
      let miss =
        copied-miss v.num_of_fats v.sectors_per_fat (place v c) (place v d) (changed v c x)
          v.sectors
          (λ k l m.
            apart (first v) (d / 128) (c / 128) v.sectors_per_fat 0 k (omega arith) (omega arith)
              (ground arith) (omega (arith, m))) in
      rw other (ap (λ s. word_at s (d % 128 * 4)) miss)
]

outside-modified :
    (v : Volume) (c x t : ℕ)
    → IsCluster v c
    → (t < first v) ⊎ (first v + v.num_of_fats * v.sectors_per_fat ≤ t)
    → (modified v c x).sectors t ≡ v.sectors t
outside-modified v c x t h o =
    copied-miss v.num_of_fats v.sectors_per_fat (place v c) t (changed v c x) v.sectors
      (λ k l m. let up = mul-le-mul_right v.sectors_per_fat (l) in omega (arith, o, m, up))

pub get_from_fat-modified :
    (v : Volume) (c d x : ℕ)
    → IsVolume v
    → IsCluster v c
    → IsCluster v d
    → x < 2 ^ 32
    → get_from_fat (modified v c x) d ≡ (if d == c then x % 2 ^ 28 else get_from_fat v d)
get_from_fat-modified v c d x w h hd l =
    get_from_fat-entry (modified v c x) d (modified-IsVolume v c x w) hd
    ∙ rw (entry-modified v c d x w h hd l, get_from_fat-entry v d w hd)
        (elim (Bool-cases (d == c)) [ inl e ↦ rw e refl | inr e ↦ rw e refl ])

-- Writing the entry of a cluster succeeds on a well-formed volume, which stays well-formed.
-- Afterwards that entry is the value, without its four highest bits, every other entry is as before,
-- and so is every sector outside the table and its copies.
pub modify_fat-entries :
    (v : Volume) (c x : ℕ)
    → IsVolume v
    → IsCluster v c
    → x < 2 ^ 32
    → (v' : Volume) × (modify_fat v c x ≡ (0, v'))
      × IsVolume v'
      × ((d : ℕ)
          → IsCluster v d
          → get_from_fat v' d ≡ (if d == c then x % 2 ^ 28 else get_from_fat v d))
      × ((t : ℕ)
          → (t < first v) ⊎ (first v + v.num_of_fats * v.sectors_per_fat ≤ t)
          → v'.sectors t ≡ v.sectors t)
modify_fat-entries v c x w h l = (
  modified v c x,
  modify_fat-modified v c x w h,
  modified-IsVolume v c x w,
  λ d hd. get_from_fat-modified v c d x w h hd l,
  λ t o. outside-modified v c x t h o,
)

-- The copies of the table agree.
abbrev pub IsMirrored : Volume → Type 0
IsMirrored v =
    (j q : ℕ)
    → j < v.num_of_fats
    → q < v.sectors_per_fat
    → v.sectors (first v + j * v.sectors_per_fat + q) ≡ v.sectors (first v + q)

-- Where the copies of the table agree, they still do after an entry was written.
pub modify_fat-IsMirrored :
    (v : Volume) (c x : ℕ)
    → IsVolume v
    → IsCluster v c
    → IsMirrored v
    → IsMirrored (modify_fat v c x).1
modify_fat-IsMirrored v c x w h m = rw (modify_fat-modified v c x w h) (λ j q lj lq.
    elim (Bool-cases (q == c / 128)) [
      | inl e ↦
          copied-hit v.num_of_fats j v.sectors_per_fat (place v c) _ (changed v c x) v.sectors lj
            (ground arith)
          ∙ sym (
              copied-hit v.num_of_fats 0 v.sectors_per_fat (place v c) _ (changed v c x) v.sectors
                (omega arith) (ground arith))
      | inr e ↦
          copied-miss v.num_of_fats v.sectors_per_fat (place v c) _ (changed v c x) v.sectors
            (λ k l n.
              apart (first v) q (c / 128) v.sectors_per_fat j k lq (omega arith) (ground arith)
                (omega (arith, n)))
          ∙ (m j q lj lq
              ∙ sym (
                  copied-miss v.num_of_fats v.sectors_per_fat (place v c) _ (changed v c x)
                    v.sectors
                    (λ k l n.
                      apart (first v) q (c / 128) v.sectors_per_fat 0 k lq (omega arith)
                        (ground arith) (omega (arith, n)))))
    ])
