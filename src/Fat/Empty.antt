-- ===== src/Fat/Empty.antt =====
-- The search for an empty entry of the table.
use pygmali_os.Base.{
  ℕ, zero, suc, ◌+◌, ◌*◌, ◌/◌, ◌%◌, ◌≤◌, ◌<◌, ◌≡◌, ◌≢◌, ◌∙◌, ◌⊎◌, inl, inr, refl, ap, arith, Bool,
  true, false, List, ltb, ◌==◌, if◌then◌else◌, Bool-cases, u32, not, else-taken,
}
use native.Mathlib.Nat.{mul-le-mul_right}
use pygmali_os.Fat.Volume.{
  Volume, fat_start, minus_one, is_empty, scan_entries, scan_sectors, get_empty_cluster,
}
use pygmali_os.Fat.Table.{first, word_at, entry, IsVolume, IsCluster, read_sector-inside}

module _ (v : Volume) where
  -- No cluster below `c` has an empty entry.
  abbrev pub IsFull : ℕ → Type 0
  IsFull c = (d : ℕ) → 2 ≤ d → d < c → entry v d ≢ 0

  IsFull-next : (c : ℕ) → IsFull c → ((2 ≤ c) → entry v c ≢ 0) → IsFull (c + 1)
  IsFull-next c f n d l h = elim (Bool-cases (d == c)) [
    | inl e ↦ let same : d ≡ c = ground arith in rw same (n (omega arith))
    | inr e ↦ f d l (ground arith)
  ]

  -- The result of a search that may go up to the cluster before `end`.
  abbrev pub Searched : ℕ → Bool × ℕ → Type 0
  Searched end r =
      ((r.0 ≡ true) × (2 ≤ r.1) × (r.1 < end) × (entry v r.1 ≡ 0) × IsFull r.1)
      ⊎ ((r.0 ≡ false) × (r.1 ≡ end) × IsFull end)

  scan_entries-Searched :
      (n i j c : ℕ)
      → c + n ≡ i * 128 + 128
      → j + n * 4 ≡ 512
      → IsFull c
      → Searched (i * 128 + 128) (scan_entries n j (v.sectors (first v + i)) c)
  unfolding scan_entries
  scan_entries-Searched zero i j c e o f =
      inr (refl, omega arith, rw (let k : i * 128 + 128 ≡ c = omega arith in k) f)
  scan_entries-Searched (suc n) i j c e o f =
      let s = v.sectors (first v + i) in
      let here : entry v c ≡ word_at s j =
        let q : c / 128 ≡ i = omega arith in
        let r : c % 128 * 4 ≡ j = omega arith in rw (q, r) refl in
      elim (Bool-cases (ltb c 2)) [
        | inl k ↦ rw k (
            scan_entries-Searched n i (j + 4) (c + 1) (omega arith) (omega arith)
              (IsFull-next c f (λ l. absurd (ground arith))))
        | inr k ↦ elim (Bool-cases (is_empty s j)) [
          | inl m ↦ rw (k, m) (inl (refl, ground arith, omega arith, here ∙ ground arith, f))
          | inr m ↦
              rw (k, m)
                (scan_entries-Searched n i (j + 4) (c + 1) (omega arith) (omega arith)
                  (IsFull-next c f (λ l. rw here (ground arith))))
        ]
      ]

  scan_sectors-Searched :
      (n i c : ℕ) (buffer : List ℕ)
      → IsVolume v
      → i + n ≡ v.sectors_per_fat
      → c ≡ i * 128
      → IsFull c
      → Searched (v.sectors_per_fat * 128) (scan_sectors n i v buffer c)
  unfolding scan_sectors
  scan_sectors-Searched zero i c buffer w e o f =
      let k : v.sectors_per_fat * 128 ≡ c = omega arith in inr (refl, omega arith, rw k f)
  scan_sectors-Searched (suc n) i c buffer w e o f =
      let last : first v + v.sectors_per_fat ≤ v.partition_end + 1 =
        omega (arith, w.table_in, mul-le-mul_right v.sectors_per_fat w.one_fat) in
      let sector : u32 (fat_start v + i) ≡ first v + i = omega (arith, w.end_in, last) in
      let read = read_sector-inside v (first v + i) buffer (omega arith) (omega arith) in
      let s = v.sectors (first v + i) in
      elim (scan_entries-Searched 128 i 0 c (omega arith) (omega arith) f) [
        | inl (t, two, below, empty, full) ↦
            rw (sector, read, t) (inl (refl, two, omega arith, empty, full))
        | inr (t, end, full) ↦
            rw (sector, read, t)
              (scan_sectors-Searched n (i + 1) (scan_entries 128 0 s c).1 s w (omega arith)
                (omega (arith, end)) (rw end full))
      ]

-- On a well-formed volume, with memory for a sector, `get_empty_cluster` returns the first cluster whose entry is empty, or -1 if the table is full.
pub get_empty_cluster-first :
    (v : Volume)
    → IsVolume v
    → (IsCluster v (get_empty_cluster v)
        × (entry v (get_empty_cluster v) ≡ 0)
        × IsFull v (get_empty_cluster v))
      ⊎ ((get_empty_cluster v ≡ minus_one) × IsFull v (v.sectors_per_fat * 128))
unfolding get_empty_cluster
get_empty_cluster-first v w =
    let r = scan_sectors v.sectors_per_fat 0 v v.stale 0 in
    let result : get_empty_cluster v ≡ (if r.0 then r.1 else minus_one) =
      else-taken (not v.memory) _ _ (ap not w.has_memory) in
    rw result
      (elim (scan_sectors-Searched v v.sectors_per_fat 0 0 v.stale w (omega arith) (omega arith)
        (λ d l h. absurd (omega arith))) [
          | inl (t, two, below, empty, full) ↦ rw t (inl ((two, below), empty, full))
          | inr (t, end, full) ↦ rw t (inr (refl, full))
        ])
