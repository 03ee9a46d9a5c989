-- ===== src/Fat/Listing.antt =====
-- src/fatparser.c: `directory_parse` reads all clusters of a directory.
use pygmali_os.Base.{
  ℕ, zero, suc, ◌+◌, ◌≤◌, ◌<◌, ◌≡◌, ◌∙◌, refl, sym, ap, arith, true, false, ◌&&◌, List, [], ◌∷◌,
  ◌++◌, leb, ltb, if◌then◌else◌, get_or, set, replicate, length,
}
use pygmali_os.Base.{some, u32, append_assoc, append-nil, length-append, length-replicate}
use mathlib.Core.Path.{subst}
use pygmali_os.Fat.Volume.{Volume, read_sector, get_from_fat}
use pygmali_os.Fat.Table.{read_sector-inside}
use pygmali_os.Fat.Chains.{sector_of_cluster}
use pygmali_os.Fat.Files.{IsFile}
use pygmali_os.Fat.Directory.{read_cluster, entries_of, parse_clusters, directory_parse}

-- The sectors of a cluster on the disk.
abbrev pub sectors_of : ℕ → ℕ → Volume → ℕ → List (List ℕ)
sectors_of zero i v sector = []
sectors_of (suc n) i v sector = v.sectors (u32 (sector + i)) ∷ sectors_of n (i + 1) v sector

-- All sectors of a cluster are in the partition.
abbrev pub IsReadable : Volume → ℕ → Type 0
IsReadable v c =
    (i : ℕ)
    → i < v.sectors_per_cluster
    → let s = u32 (sector_of_cluster v c + i) in (v.partition_start ≤ s) × (s ≤ v.partition_end)

abbrev pub AllReadable : Volume → List ℕ → Type 0
AllReadable v [] = Unit
AllReadable v (c ∷ cs) = IsReadable v c × AllReadable v cs

-- The entries of the clusters of a directory, one cluster after the other.
abbrev pub entries_in : Volume → List ℕ → List (List ℕ)
entries_in v [] = []
entries_in v (c ∷ cs) =
    entries_of (sectors_of v.sectors_per_cluster 0 v (sector_of_cluster v c)) ++ entries_in v cs

set-behind :
    (pre : List (List ℕ)) (b x : List ℕ) (bs : List (List ℕ))
    → set (pre ++ b ∷ bs) (length pre) x ≡ (pre ++ x ∷ []) ++ bs
set-behind [] b x bs = refl
set-behind (y ∷ pre) b x bs = ap (y ∷◌) (set-behind pre b x bs)

length-sectors_of : (n i : ℕ) (v : Volume) (sector : ℕ) → length (sectors_of n i v sector) ≡ n
length-sectors_of zero i v sector = refl
length-sectors_of (suc n) i v sector = ap suc (length-sectors_of n (i + 1) v sector)

read_cluster-sectors :
    (bs pre : List (List ℕ)) (v : Volume) (sector : ℕ)
    → ((i : ℕ)
        → i < length pre + length bs
        → (v.partition_start ≤ u32 (sector + i)) × (u32 (sector + i) ≤ v.partition_end))
    → read_cluster (length bs) (length pre) v sector (pre ++ bs)
      ≡ pre ++ sectors_of (length bs) (length pre) v sector
unfolding read_cluster
read_cluster-sectors [] pre v sector h = refl
read_cluster-sectors (b ∷ bs) pre v sector h =
    let s = u32 (sector + length pre) in
    let x = v.sectors s in
    let here = h (length pre) (omega arith) in
    let count : length (pre ++ x ∷ []) ≡ length pre + 1 = length-append pre (x ∷ []) in
    let first : set (pre ++ b ∷ bs) (length pre)
          (read_sector v s (get_or (pre ++ b ∷ bs) (length pre) []))
        ≡ (pre ++ x ∷ []) ++ bs =
      ap (set (pre ++ b ∷ bs) (length pre))
        (read_sector-inside v s (get_or (pre ++ b ∷ bs) (length pre) []) here.0 here.1)
      ∙ set-behind pre b x bs in
    let rest =
      read_cluster-sectors bs (pre ++ x ∷ []) v sector (λ i l. h i (omega (arith, count))) in
    ap (read_cluster (length bs) (length pre + 1) v sector) first
    ∙ (rw count at rest
        ∙ append_assoc pre (x ∷ []) (sectors_of (length bs) (length pre + 1) v sector))

parse_clusters-entries :
    (fuel : ℕ) (v : Volume) (c : ℕ) (cs : List ℕ) (buffers entries : List (List ℕ))
    → IsFile v c cs
    → AllReadable v cs
    → length buffers ≡ v.sectors_per_cluster
    → length cs < fuel
    → parse_clusters fuel v c buffers entries ≡ some (entries ++ entries_in v cs)
unfolding parse_clusters
parse_clusters-entries zero v c cs buffers entries f r n l = absurd (omega arith)
parse_clusters-entries (suc fuel) v c [] buffers entries f r n l =
    let stop : (ltb c 0x0FFFFFF8 && leb 2 c) ≡ false = ground arith in
    rw (stop, append-nil entries) refl
parse_clusters-entries (suc fuel) v c (d ∷ cs) buffers entries f r n l =
    let go : (ltb c 0x0FFFFFF8 && leb 2 c) ≡ true = ground (arith, f.2) in
    let readable : IsReadable v c = subst (IsReadable v) (sym f.0) r.0 in
    let sector = sector_of_cluster v c in
    let read : read_cluster v.sectors_per_cluster 0 v sector buffers
        ≡ sectors_of v.sectors_per_cluster 0 v sector =
      ap (λ k. read_cluster k 0 v sector buffers) (sym n)
      ∙ (read_cluster-sectors buffers [] v sector (λ i b. readable i (omega (arith, n)))
          ∙ ap (λ k. sectors_of k 0 v sector) n) in
    let cluster = sectors_of v.sectors_per_cluster 0 v sector in
    rw (go, read)
      (parse_clusters-entries fuel v (get_from_fat v c) cs cluster (entries ++ entries_of cluster)
          f.4 r.1 (length-sectors_of v.sectors_per_cluster 0 v sector) (omega arith)
        ∙ (ap some (append_assoc entries (entries_of cluster) (entries_in v cs))
            ∙ ap (λ x. some (entries ++ entries_in v (x ∷ cs))) f.0))

-- A directory is read whole: the entries of all its clusters, in their order. The directory's
-- clusters form a file, their sectors are in the partition, memory is enough, and the fuel is more
-- than the number of the clusters.
pub directory_parse-entries :
    (fuel : ℕ) (v : Volume) (c : ℕ) (cs : List ℕ)
    → IsFile v c cs
    → AllReadable v cs
    → v.memory ≡ true
    → length cs < fuel
    → directory_parse fuel v c ≡ some (entries_in v cs)
unfolding directory_parse
directory_parse-entries fuel v c cs f r m l =
    ap
      (λ b.
        if b then parse_clusters fuel v c (replicate v.sectors_per_cluster v.stale) [] else some [])
      m
    ∙ (parse_clusters-entries fuel v c cs (replicate v.sectors_per_cluster v.stale) [] f r
        (length-replicate v.sectors_per_cluster v.stale) l)
