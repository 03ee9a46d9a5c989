-- ===== src/Fat/Extend.antt =====
-- Extending a file by a cluster.
use pygmali_os.Base.{
  ℕ, zero, suc, ◌+◌, ◌-◌, ◌*◌, ◌/◌, ◌%◌, ◌^◌, ◌≤◌, ◌<◌, ◌≡◌, ◌≢◌, ◌∙◌, inl, inr, refl, sym, ap,
  arith, false, List, [], ◌∷◌, ◌++◌, ltb, ◌==◌, if◌then◌else◌, length, get_or, Bool-cases, u32,
  ◌||◌, some, replicate, length-replicate, sub32,
}
use native.Mathlib.Nat.{mul-le-mul_right}
use pygmali_os.Fat.Volume.{Volume, write_sector, get_from_fat, get_empty_cluster, minus_one}
use pygmali_os.Fat.Table.{first, IsVolume, IsCluster, get_from_fat-entry}
use pygmali_os.Fat.Entries.{modified, modify_fat-modified, modified-IsVolume, get_from_fat-modified}
use pygmali_os.Fat.Empty.{get_empty_cluster-first}
use pygmali_os.Fat.Chains.{sector_of_cluster, write_nulls, extend_file}
use pygmali_os.Fat.Files.{IsFile, last_of, find_end-last}

-- The entry of the last cluster marks the end.
last_of-end :
    (v : Volume) (c d : ℕ) (ds : List ℕ)
    → IsFile v c (d ∷ ds)
    → IsCluster v (last_of d ds) × (0x0FFFFFF8 ≤ get_from_fat v (last_of d ds))
last_of-end v c d [] f = rw⁻¹ f.0 (f.2, f.4.0)
last_of-end v c d (e ∷ ds) f = last_of-end v (get_from_fat v c) e ds f.4

-- A cluster linked behind the last one, in a volume where no other entry has changed.
linked-IsFile :
    (v v' : Volume) (c d n : ℕ) (ds : List ℕ)
    → IsFile v c (d ∷ ds)
    → v'.root_cluster ≡ v.root_cluster
    → v'.sectors_per_fat ≡ v.sectors_per_fat
    → v.root_cluster ≤ n
    → IsCluster v n
    → n < 0x0FFFFFF8
    → get_from_fat v n ≡ 0
    → get_from_fat v' n ≡ 0x0FFFFFF8
    → get_from_fat v' (last_of d ds) ≡ n
    → ((x : ℕ) → IsCluster v x → x ≢ n → x ≢ last_of d ds → get_from_fat v' x ≡ get_from_fat v x)
    → IsFile v' c (d ∷ (ds ++ n ∷ []))
linked-IsFile v v' c d n [] f er es rn cn ln en me le same =
    let next : get_from_fat v' c ≡ n = ap (get_from_fat v') f.0 ∙ le in
    (
      f.0,
      omega (arith, f.1),
      (f.2.0, omega (arith, f.2.1)),
      f.3,
      (
        next,
        rw next (omega arith),
        rw next (cn.0, omega (arith, cn.1)),
        rw next ln,
        rw (next, me) (omega arith, omega arith),
      ),
    )
linked-IsFile v v' c d n (e ∷ ds) f er es rn cn ln en me le same =
    let (el, ee) = last_of-end v (get_from_fat v c) e ds f.4 in
    let not_new : c ≢ n = λ k. omega (arith, f.4.2.0, ap (get_from_fat v) k, en) in
    let not_last : c ≢ last_of e ds = λ k. omega (arith, f.4.3, ap (get_from_fat v) k, ee) in
    let next : get_from_fat v' c ≡ get_from_fat v c = same c f.2 not_new not_last in
    (
      f.0,
      omega (arith, f.1),
      (f.2.0, omega (arith, f.2.1)),
      f.3,
      rw next (linked-IsFile v v' (get_from_fat v c) e n ds f.4 er es rn cn ln en me le same),
    )

-- What writing outside the table keeps.
abbrev Kept : Volume → Volume → Type 0
Kept v v' =
    IsVolume v'
    × (v'.root_cluster ≡ v.root_cluster)
    × (v'.sectors_per_fat ≡ v.sectors_per_fat)
    × (v'.num_of_fats ≡ v.num_of_fats)
    × (first v' ≡ first v)
    × ((d : ℕ) → IsCluster v d → get_from_fat v' d ≡ get_from_fat v d)

zeros_small : (n i : ℕ) → get_or (replicate n 0) i 0 < 256
zeros_small zero i = omega arith
zeros_small (suc n) zero = omega arith
zeros_small (suc n) (suc i) = zeros_small n i

write_sector-Kept :
    (v : Volume) (t : ℕ)
    → IsVolume v
    → first v + v.num_of_fats * v.sectors_per_fat ≤ t
    → Kept v (write_sector v t (replicate 512 0))
unfolding write_sector
write_sector-Kept v t w l =
    elim (Bool-cases (ltb t v.partition_start || ltb v.partition_end t || t == 0)) [
      | inl e ↦ rw e (w, refl, refl, refl, refl, λ d h. refl)
      | inr e ↦
          let v' : Volume = record v {
            sectors = λ s. if s == t then replicate 512 0 else v.sectors s;
          } in
          let w' : IsVolume v' = record {
            table_in = w.table_in;
            end_in = w.end_in;
            not_first = w.not_first;
            one_fat = w.one_fat;
            table_size = w.table_size;
            has_memory = w.has_memory;
            sector = λ s. elim (Bool-cases (s == t)) [
              | inl k ↦ rw k (length-replicate {A = ℕ} 512 0, zeros_small 512)
              | inr k ↦ rw k (w.sector s)
            ];
          } in
          rw e (
            w',
            refl,
            refl,
            refl,
            refl,
            λ d h.
                let up = mul-le-mul_right v.sectors_per_fat w.one_fat in
                let off : (first v + d / 128 == t) ≡ false = ground (arith, up, l, h) in
                get_from_fat-entry v' d w' h ∙ (rw off refl ∙ sym (get_from_fat-entry v d w h)),
          )
    ]

write_nulls-Kept :
    (n i start : ℕ) (v : Volume)
    → IsVolume v
    → first v + v.num_of_fats * v.sectors_per_fat ≤ start
    → start + (i + n) ≤ 2 ^ 32
    → Kept v (write_nulls n i start v)
unfolding write_nulls
write_nulls-Kept zero i start v w l h = (w, refl, refl, refl, refl, λ d k. refl)
write_nulls-Kept (suc n) i start v w l h =
    let at : u32 (start + i) ≡ start + i = omega arith in
    let v' = write_sector v (u32 (start + i)) (replicate 512 0) in
    let kept : Kept v v' = write_sector-Kept v (u32 (start + i)) w (omega arith) in
    let (w', er, es, en, ef, same) = kept in
    let later : first v' + v'.num_of_fats * v'.sectors_per_fat ≤ start = rw (ef, en, es) l in
    let (w'', er', es', en', ef', same') =
      write_nulls-Kept n (i + 1) start v' w' later (omega arith) in
    (
      w'',
      er' ∙ er,
      es' ∙ es,
      en' ∙ en,
      ef' ∙ ef,
      λ d k. same' d (k.0, omega (arith, k.1, es)) ∙ same d k,
    )

-- Where the parts of the volume lie, and that a cluster's number is no mark of an end.
pub record IsFileSystem (v : Volume) : Type 0 where
  pub volume : IsVolume v
  pub root : v.root_cluster ≡ 2
  pub numbers : v.sectors_per_fat * 128 ≤ 0x0FFFFFF8
  pub data_start : v.first_data_sector ≡ first v + v.num_of_fats * v.sectors_per_fat
  pub data_end : v.first_data_sector + v.sectors_per_fat * 128 * v.sectors_per_cluster < 2 ^ 32

-- The sectors of a cluster lie behind the table.
pub sector_of_cluster-data :
    (v : Volume) (c : ℕ)
    → IsFileSystem v
    → IsCluster v c
    → (first v + v.num_of_fats * v.sectors_per_fat ≤ sector_of_cluster v c)
      × (sector_of_cluster v c + (0 + v.sectors_per_cluster) ≤ 2 ^ 32)
sector_of_cluster-data v c w h =
    let k = v.sectors_per_cluster in
    let less : sub32 c 2 ≡ c - 2 = omega (arith, h, w.numbers) in
    let next : (c - 2 + 1) * k ≡ (c - 2) * k + k = omega arith in
    let up : (c - 2 + 1) * k ≤ v.sectors_per_fat * 128 * k =
      mul-le-mul_right k (omega (arith, h)) in
    let at : sector_of_cluster v c ≡ (c - 2) * k + v.first_data_sector =
      rw less (omega (arith, w.data_end, next, up)) in
    (omega (arith, at, w.data_start), omega (arith, at, next, up, w.data_end))

-- The volume after both entries were written.
module _ (v : Volume) (c n : ℕ) (ds : List ℕ) (w : IsFileSystem v) (f : IsFile v c (c ∷ ds))
    (cn : IsCluster v n) (empty : get_from_fat v n ≡ 0) where
  abbrev marked : Volume
  marked = modified v n 0x0FFFFFF8

  abbrev linked : Volume
  linked = modified marked (last_of c ds) n

  abbrev finished : Volume
  finished = write_nulls v.sectors_per_cluster 0 (sector_of_cluster v n) linked

  marked-IsVolume : IsVolume marked
  marked-IsVolume = modified-IsVolume v n 0x0FFFFFF8 w.volume

  finished-Kept : Kept linked finished
  finished-Kept =
      let (low, high) = sector_of_cluster-data v n w cn in
      write_nulls-Kept v.sectors_per_cluster 0 (sector_of_cluster v n) linked
        (modified-IsVolume marked (last_of c ds) n marked-IsVolume) low high

  get_from_fat-finished :
      (x : ℕ)
      → IsCluster v x
      → get_from_fat finished x
        ≡ (if x == last_of c ds then n else if x == n then 0x0FFFFFF8 else get_from_fat v x)
  get_from_fat-finished x h =
      let cl = (last_of-end v c c ds f).0 in
      let small : n % 2 ^ 28 ≡ n = omega (arith, cn, w.numbers) in
      let link =
        get_from_fat-modified marked (last_of c ds) x n marked-IsVolume cl h
          (omega (arith, small)) in
      let mark = get_from_fat-modified v n x 0x0FFFFFF8 w.volume cn h (omega arith) in
      finished-Kept.5 x h ∙ (link ∙ rw (small, mark) refl)

  finished-IsFile : IsFile finished c (c ∷ (ds ++ n ∷ []))
  finished-IsFile =
      let (cl, le) = last_of-end v c c ds f in
      let (w', er, es, en, ef, same) = finished-Kept in
      let apart : (n == last_of c ds) ≡ false = elim (Bool-cases (n == last_of c ds)) [
        | inl e ↦
            let k : n ≡ last_of c ds = ground arith in
            absurd (omega (arith, le, empty, ap (get_from_fat v) k))
        | inr e ↦ e
      ] in
      linked-IsFile v finished c c n ds f er es (omega (arith, w.root, cn)) cn
        (omega (arith, w.numbers, cn)) empty (get_from_fat-finished n cn ∙ ground (arith, apart))
        (get_from_fat-finished (last_of c ds) cl ∙ ground arith)
        (λ x h nn nl. get_from_fat-finished x h ∙ ground (arith, nn, nl))

-- On a well-formed volume, whose root directory is at the cluster 2, with an empty cluster and fuel for
-- more rounds than the file has clusters, extending a file ends and returns that cluster, which is now
-- the last one of the file; the entries of the clusters of other files are as before.
pub extend_file-appends :
    (fuel : ℕ) (v : Volume) (c : ℕ) (ds : List ℕ)
    → IsFileSystem v
    → IsFile v c (c ∷ ds)
    → get_empty_cluster v ≢ minus_one
    → length ds + 1 < fuel
    → let n = get_empty_cluster v in
      (v' : Volume) × (extend_file fuel v c ≡ some (n, v'))
      × IsFile v' c (c ∷ (ds ++ n ∷ []))
      × ((x : ℕ) → IsCluster v x → x ≢ n → x ≢ last_of c ds → get_from_fat v' x ≡ get_from_fat v x)
unfolding extend_file
extend_file-appends fuel v c ds w f some_empty l =
    let n = get_empty_cluster v in
    let (e, walked, ended) = find_end-last fuel v c 0 (c ∷ ds) f (omega arith) in
    let (cl, le) = last_of-end v c c ds f in
    elim (get_empty_cluster-first v w.volume) [
      | inr (none_left, full) ↦ absurd (some_empty none_left)
      | inl (cn, empty, full) ↦
          let zero_entry : get_from_fat v n ≡ 0 =
            get_from_fat-entry v n w.volume cn ∙ ap (λ a. a % 2 ^ 28) empty in
          let mark = modify_fat-modified v n 0x0FFFFFF8 w.volume cn in
          let link =
            modify_fat-modified (marked v c n ds w f cn zero_entry) (last_of c ds) n
              (marked-IsVolume v c n ds w f cn zero_entry) cl in
          (
            finished v c n ds w f cn zero_entry,
            rw (extend_file, walked, ended, mark, link) refl,
            finished-IsFile v c n ds w f cn zero_entry,
            λ x h nn nl.
                get_from_fat-finished v c n ds w f cn zero_entry x h ∙ ground (arith, nn, nl),
          )
    ]
