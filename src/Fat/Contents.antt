-- ===== src/Fat/Contents.antt =====
-- src/fatparser.c: what a file holds after its clusters were written.
use mathlib.Core.Path.{subst}
use native.Mathlib.Nat.{mul-le-mul_right, mod-add-div, mod-lt}
use pygmali_os.Base.{
  ℕ, zero, suc, ◌+◌, ◌-◌, ◌*◌, ◌≤◌, ◌<◌, ◌≡◌, ◌≢◌, ◌∙◌, ◌⊎◌, inl, inr, refl, sym, ap, ap₂, arith,
  true, false, ◌&&◌, ◌||◌, List, [], ◌∷◌, ◌++◌, ◌==◌, leb, ltb, if◌then◌else◌, length, take, drop,
  Bool-cases, u32, append_assoc, append-nil, length-drop, take-append-drop, length-append,
  length-replicate, replicate,
}
use pygmali_os.Base.{some, sub32}
use pygmali_os.Fat.Volume.{Volume, read_sector, write_sector, get_from_fat, fat_sector}
use pygmali_os.Fat.Table.{IsCluster, entry_place, read_sector-inside}
use pygmali_os.Fat.Chains.{sector_of_cluster, get_file_size}
use pygmali_os.Fat.Files.{IsFile, get_file_size-length}
use pygmali_os.Fat.Freed.{among, not_among}
use pygmali_os.Fat.Extend.{IsFileSystem}
use pygmali_os.Fat.Directory.{copy_sectors, contents_from}
use pygmali_os.Fat.Changes.{
  write_sectors, write_clusters, extend_by, shorten, cluster_count, padded, write_entry,
}

abbrev Disk : Type 0
Disk = ℕ → List ℕ

-- `n` sectors from `t` on, written and read.
put_sectors : ℕ → ℕ → List ℕ → Disk → Disk
put_sectors zero t contents f = f
put_sectors (suc n) t contents f =
    put_sectors n (t + 1) (drop 512 contents) (λ s. if s == t then take 512 contents else f s)

sectors_at : ℕ → ℕ → Disk → List ℕ
sectors_at zero t f = []
sectors_at (suc n) t f = take 512 (f t) ++ sectors_at n (t + 1) f

put_sectors-outside :
    (n t s : ℕ) (contents : List ℕ) (f : Disk)
    → (s < t) ⊎ (t + n ≤ s)
    → put_sectors n t contents f s ≡ f s
unfolding put_sectors
put_sectors-outside zero t s contents f out = refl
put_sectors-outside (suc n) t s contents f (inl l) =
    let other : (s == t) ≡ false = ground arith in
    put_sectors-outside n (t + 1) s (drop 512 contents) _ (inl (omega arith)) ∙ rw other refl
put_sectors-outside (suc n) t s contents f (inr l) =
    let other : (s == t) ≡ false = ground arith in
    put_sectors-outside n (t + 1) s (drop 512 contents) _ (inr (omega arith)) ∙ rw other refl

sectors_at-same :
    (n t : ℕ) (f g : Disk)
    → ((s : ℕ) → t ≤ s → s < t + n → f s ≡ g s)
    → sectors_at n t f ≡ sectors_at n t g
unfolding sectors_at
sectors_at-same zero t f g h = refl
sectors_at-same (suc n) t f g h =
    ap₂ (λ (x y : List ℕ). take 512 x ++ y) (h t (omega arith) (omega arith))
      (sectors_at-same n (t + 1) f g (λ s l k. h s (omega arith) (omega arith)))

take-take : (n : ℕ) (xs : List ℕ) → take n (take n xs) ≡ take n xs
take-take zero xs = refl
take-take (suc n) [] = refl
take-take (suc n) (x ∷ xs) = ap (x ∷◌) (take-take n xs)

take-nil : (m : ℕ) → ◌≡◌ {A = List ℕ} (take m []) []
take-nil zero = refl
take-nil (suc m) = refl

take-add : (n m : ℕ) (xs : List ℕ) → take (n + m) xs ≡ take n xs ++ take m (drop n xs)
take-add zero m xs = let same : 0 + m ≡ m = omega arith in rw same refl
take-add (suc n) m [] = let one : suc n + m ≡ suc (n + m) = omega arith in rw one (sym (take-nil m))
take-add (suc n) m (x ∷ xs) =
    let one : suc n + m ≡ suc (n + m) = omega arith in rw one (ap (x ∷◌) (take-add n m xs))

-- What was written is read.
sectors_at-put_sectors :
    (n t : ℕ) (contents : List ℕ) (f : Disk)
    → sectors_at n t (put_sectors n t contents f) ≡ take (n * 512) contents
unfolding sectors_at put_sectors
sectors_at-put_sectors zero t contents f = refl
sectors_at-put_sectors (suc n) t contents f =
    let g : Disk = λ s. if s == t then take 512 contents else f s in
    let itself : (t == t) ≡ true = ground arith in
    let here : put_sectors n (t + 1) (drop 512 contents) g t ≡ take 512 contents =
      put_sectors-outside n (t + 1) t (drop 512 contents) g (inl (omega arith)) ∙ rw itself refl in
    let size : suc n * 512 ≡ 512 + n * 512 = omega arith in
    ap₂ (λ (x y : List ℕ). take 512 x ++ y) here
      (sectors_at-put_sectors n (t + 1) (drop 512 contents) g)
    ∙ (ap (λ (x : List ℕ). x ++ take (n * 512) (drop 512 contents)) (take-take 512 contents)
        ∙ (sym (take-add 512 (n * 512) contents) ∙ ap (λ k. take k contents) (sym size)))

module _ (v : Volume) (w : IsFileSystem v)
    (room : v.first_data_sector + v.sectors_per_fat * 128 * v.sectors_per_cluster
      ≤ v.partition_end + 1) where
  abbrev k : ℕ
  k = v.sectors_per_cluster

  abbrev start : ℕ → ℕ
  start c = sector_of_cluster v c

  abbrev over : Disk → Volume
  over f = record v { sectors = f }

  start-sum : (c : ℕ) → IsCluster v c → start c ≡ (c - 2) * k + v.first_data_sector
  start-sum c h =
      let less : sub32 c 2 ≡ c - 2 = omega (arith, h, w.numbers) in
      let next : (c - 2 + 1) * k ≡ (c - 2) * k + k = omega arith in
      let up : (c - 2 + 1) * k ≤ v.sectors_per_fat * 128 * k =
        mul-le-mul_right k (omega (arith, h)) in
      rw less (omega (arith, w.data_end, next, up))

  -- The sectors of a cluster are in the partition, behind the table.
  cluster_room :
      (c : ℕ)
      → IsCluster v c
      → (v.first_data_sector ≤ start c) × (start c + k ≤ v.partition_end + 1)
  cluster_room c h =
      let next : (c - 2 + 1) * k ≡ (c - 2) * k + k = omega arith in
      let up : (c - 2 + 1) * k ≤ v.sectors_per_fat * 128 * k =
        mul-le-mul_right k (omega (arith, h)) in
      let at = start-sum c h in (omega (arith, at), omega (arith, at, next, up, room))

  cluster_before : (c d : ℕ) → IsCluster v c → IsCluster v d → c < d → start c + k ≤ start d
  cluster_before c d h g l =
      let next : (c - 2 + 1) * k ≡ (c - 2) * k + k = omega arith in
      let up : (c - 2 + 1) * k ≤ (d - 2) * k = mul-le-mul_right k (omega (arith, h, g)) in
      omega (arith, start-sum c h, start-sum d g, next, up)

  put_clusters : List ℕ → List ℕ → Disk → Disk
  put_clusters [] contents f = f
  put_clusters (d ∷ ds) contents f =
      put_clusters ds (drop (k * 512) contents) (put_sectors k (start d) contents f)

  read_all : List ℕ → Disk → List ℕ
  read_all [] f = []
  read_all (d ∷ ds) f = sectors_at k (start d) f ++ read_all ds f

  abbrev Away : ℕ → List ℕ → Type 0
  Away s [] = Unit
  Away s (d ∷ ds) = ((s < start d) ⊎ (start d + k ≤ s)) × Away s ds

  put_clusters-Away :
      (cs : List ℕ) (s : ℕ) (contents : List ℕ) (f : Disk)
      → Away s cs
      → put_clusters cs contents f s ≡ f s
  unfolding put_clusters
  put_clusters-Away [] s contents f a = refl
  put_clusters-Away (d ∷ ds) s contents f (a, rest) =
      put_clusters-Away ds s (drop (k * 512) contents) _ rest
      ∙ put_sectors-outside k (start d) s contents f a

  table-Away : (c s : ℕ) (cs : List ℕ) → IsFile v c cs → s < v.first_data_sector → Away s cs
  table-Away c s [] f l = tt
  table-Away c s (d ∷ ds) f l =
      let (low, high) = cluster_room c f.2 in
      (inl (omega (arith, ap start f.0)), table-Away (get_from_fat v c) s ds f.4 l)

  cluster-Away :
      (x c s : ℕ) (cs : List ℕ)
      → IsCluster v x
      → IsFile v c cs
      → among x cs ≡ false
      → start x ≤ s
      → s < start x + k
      → Away s cs
  cluster-Away x c s [] h f a l m = tt
  cluster-Away x c s (d ∷ ds) h f a l m =
      let same = ap start f.0 in
      (
        elim (Bool-cases (ltb x c)) [
          | inl e ↦
              let before = cluster_before x c h f.2 (ground arith) in inl (omega (arith, same))
          | inr e ↦
              let other : x ≢ c = λ q. ground (arith, a, f.0) in
              let before = cluster_before c x f.2 h (ground arith) in inr (omega (arith, same))
        ],
        cluster-Away x (get_from_fat v c) s ds h f.4 (ground (arith, a)) l m,
      )

  read_all-put_clusters :
      (c : ℕ) (cs contents : List ℕ) (f : Disk)
      → IsFile v c cs
      → length contents ≡ length cs * (k * 512)
      → read_all cs (put_clusters cs contents f) ≡ contents
  unfolding read_all put_clusters
  read_all-put_clusters c [] [] f h size = refl
  read_all-put_clusters c [] (x ∷ contents) f h size = absurd (ground arith)
  read_all-put_clusters c (d ∷ ds) contents f h size =
      let g = put_sectors k (start d) contents f in
      let rest = drop (k * 512) contents in
      let cluster : IsCluster v d = subst (IsCluster v) h.0 h.2 in
      let once : among d ds ≡ false =
        ap (λ x. among x ds) (sym h.0)
        ∙ not_among v c (d ∷ ds) (get_from_fat v c) ds h h.4 (omega arith) in
      let shorter : length rest ≡ length ds * (k * 512) =
        let one : suc (length ds) * (k * 512) ≡ k * 512 + length ds * (k * 512) = ground arith in
        omega (arith, length-drop (k * 512) contents, size, one) in
      let away = λ (s : ℕ) (l : start d ≤ s) (m : s < start d + k).
        cluster-Away d (get_from_fat v c) s ds cluster h.4 once l m in
      ap₂ ◌++◌
        (sectors_at-same k (start d) (put_clusters ds rest g) g
            (λ s l m. put_clusters-Away ds s rest g (away s l m))
          ∙ sectors_at-put_sectors k (start d) contents f)
        (read_all-put_clusters (get_from_fat v c) ds rest g h.4 shorter)
      ∙ take-append-drop (k * 512) contents

  -- The table is as it was.
  abbrev Table : Disk → Type 0
  Table f = (s : ℕ) → s < v.first_data_sector → f s ≡ v.sectors s

  get_from_fat-Table :
      (f : Disk) (c : ℕ) → Table f → IsCluster v c → get_from_fat (over f) c ≡ get_from_fat v c
  unfolding get_from_fat read_sector
  get_from_fat-Table f c t h =
      let (_, _, sector, _, _, _, _) = entry_place v c w.volume h in
      let up = mul-le-mul_right v.sectors_per_fat w.volume.one_fat in
      let same : f (fat_sector v c) ≡ v.sectors (fat_sector v c) =
        t (fat_sector v c) (omega (arith, sector, h, up, w.data_start)) in
      rw (get_from_fat, same) refl

  write_sector-inside :
      (t : ℕ) (bytes : List ℕ) (f : Disk)
      → v.first_data_sector ≤ t
      → t < v.partition_end + 1
      → write_sector (over f) t bytes ≡ over (λ s. if s == t then bytes else f s)
  unfolding write_sector
  write_sector-inside t bytes f low high =
      let positive = w.volume.not_first in
      let inside : (ltb t v.partition_start || ltb v.partition_end t || t == 0) ≡ false =
        ground (arith, w.data_start) in
      rw (write_sector, inside) refl

  write_sectors-put :
      (n j sector : ℕ) (contents : List ℕ) (f : Disk)
      → v.first_data_sector ≤ sector
      → sector + j + n ≤ v.partition_end + 1
      → write_sectors n j sector contents (over f) ≡ over (put_sectors n (sector + j) contents f)
  unfolding write_sectors put_sectors
  write_sectors-put zero j sector contents f low high = refl
  write_sectors-put (suc n) j sector contents f low high =
      let small = w.volume.end_in in
      let at : u32 (sector + j) ≡ sector + j = omega arith in
      let next : sector + (j + 1) ≡ sector + j + 1 = omega arith in
      let here =
        write_sector-inside (sector + j) (take 512 contents) f (omega arith) (omega arith) in
      let g : Disk = λ s. if s == sector + j then take 512 contents else f s in
      ap (write_sectors n (j + 1) sector (drop 512 contents))
        (ap (λ t. write_sector (over f) t (take 512 contents)) at ∙ here)
      ∙ (write_sectors-put n (j + 1) sector (drop 512 contents) g low (omega arith)
          ∙ ap (λ t. over (put_sectors n t (drop 512 contents) g)) next)

  write_clusters-put :
      (c : ℕ) (cs contents : List ℕ) (f : Disk)
      → Table f
      → IsFile v c cs
      → write_clusters (length cs) contents (over f) c ≡ over (put_clusters cs contents f)
  unfolding write_clusters put_clusters
  write_clusters-put c [] contents f t h = refl
  write_clusters-put c (d ∷ ds) contents f t h =
      let (low, high) = cluster_room c h.2 in
      let none : start c + 0 ≡ start d = omega (arith, ap start h.0) in
      let g = put_sectors k (start d) contents f in
      let wrote : write_sectors k 0 (start c) contents (over f) ≡ over g =
        write_sectors-put k 0 (start c) contents f low (omega (arith, high))
        ∙ ap (λ s. over (put_sectors k s contents f)) none in
      let t' : Table g = λ s l.
        put_sectors-outside k (start d) s contents f (inl (omega (arith, none, low))) ∙ t s l in
      let rest = drop (k * 512) contents in
      ap (λ (x : Volume). write_clusters (length ds) rest x (get_from_fat x c)) wrote
      ∙ (ap (write_clusters (length ds) rest (over g)) (get_from_fat-Table g c t' h.2)
          ∙ write_clusters-put (get_from_fat v c) ds rest g t' h.4)

  copy_sectors-read :
      (n i sector : ℕ) (g : Disk) (buffer contents : List ℕ)
      → v.first_data_sector ≤ sector
      → sector + i + n ≤ v.partition_end + 1
      → (copy_sectors n i (over g) sector buffer contents).0
        ≡ contents ++ sectors_at n (sector + i) g
  unfolding copy_sectors sectors_at
  copy_sectors-read zero i sector g buffer contents low high = sym (append-nil contents)
  copy_sectors-read (suc n) i sector g buffer contents low high =
      let small = w.volume.end_in in
      let at : u32 (sector + i) ≡ sector + i = omega arith in
      let next : sector + (i + 1) ≡ sector + i + 1 = omega arith in
      let read : read_sector (over g) (u32 (sector + i)) buffer ≡ g (sector + i) =
        read_sector-inside (over g) (u32 (sector + i)) buffer (omega (arith, w.data_start))
          (omega arith)
        ∙ ap g at in
      ap (λ (b : List ℕ). (copy_sectors n (i + 1) (over g) sector b (contents ++ take 512 b)).0)
        read
      ∙ (copy_sectors-read n (i + 1) sector g (g (sector + i))
            (contents ++ take 512 (g (sector + i))) low (omega arith)
          ∙ (ap (λ t. (contents ++ take 512 (g (sector + i))) ++ sectors_at n t g) next
              ∙ append_assoc contents (take 512 (g (sector + i)))
                  (sectors_at n (sector + i + 1) g)))

  contents_from-read :
      (fuel c num : ℕ) (cs : List ℕ) (g : Disk) (buffer contents : List ℕ)
      → Table g
      → IsFile v c cs
      → length cs < fuel
      → num + length cs < 256
      → contents_from fuel (over g) c num buffer contents ≡ some (some (contents ++ read_all cs g))
  unfolding contents_from read_all
  contents_from-read zero c num cs g buffer contents t h l m = absurd (omega arith)
  contents_from-read (suc fuel) c num [] g buffer contents t h l m =
      let stop : (leb v.root_cluster c && ltb c 0x0FFFFFF8) ≡ false = ground arith in
      rw (stop, append-nil contents) refl
  contents_from-read (suc fuel) c num (d ∷ ds) g buffer contents t h l m =
      let go : (leb v.root_cluster c && ltb c 0x0FFFFFF8) ≡ true = ground arith in
      let few : leb 256 (num + 1) ≡ false = ground arith in
      let (low, high) = cluster_room c h.2 in
      let none : start c + 0 ≡ start d = omega (arith, ap start h.0) in
      let copied = copy_sectors k 0 (over g) (start c) buffer contents in
      let read : copied.0 ≡ contents ++ sectors_at k (start d) g =
        copy_sectors-read k 0 (start c) g buffer contents low (omega (arith, high))
        ∙ ap (λ s. contents ++ sectors_at k s g) none in
      let next = get_from_fat-Table g c t h.2 in
      let rest =
        contents_from-read fuel (get_from_fat v c) (num + 1) ds g copied.1 copied.0 t h.4
          (omega arith) (omega arith) in
      rw (contents_from, go, few)
        (ap (λ x. contents_from fuel (over g) x (num + 1) copied.1 copied.0) next
          ∙ (rest
              ∙ ap (λ (x : List ℕ). some (some x))
                  (ap (λ (x : List ℕ). x ++ read_all ds g) read
                    ∙ append_assoc contents (sectors_at k (start d) g) (read_all ds g))))

  -- After the clusters of a file were written with as many bytes as they take, the file holds these
  -- bytes: reading it ends and gives them.
  pub contents_from-write_clusters :
      (fuel c : ℕ) (cs contents buffer : List ℕ)
      → IsFile v c cs
      → length contents ≡ length cs * (v.sectors_per_cluster * 512)
      → length cs < fuel
      → length cs < 256
      → contents_from fuel (write_clusters (length cs) contents v c) c 0 buffer []
        ≡ some (some contents)
  contents_from-write_clusters fuel c cs contents buffer h size l m =
      let g = put_clusters cs contents v.sectors in
      let wrote = write_clusters-put c cs contents v.sectors (λ s k. refl) h in
      let t : Table g = λ s k. put_clusters-Away cs s contents v.sectors (table-Away c s cs h k) in
      ap (λ (x : Volume). contents_from fuel x c 0 buffer []) wrote
      ∙ (contents_from-read fuel c 0 cs g buffer [] t h l (omega arith)
          ∙ ap (λ (x : List ℕ). some (some x))
              (read_all-put_clusters c cs contents v.sectors h size))

  padded-size :
      (contents : List ℕ)
      → 0 < k
      → length (padded v contents) ≡ cluster_count v (length contents) * (k * 512)
  padded-size contents l =
      let size = length contents in
      let unit = k * 512 in
      let positive : 0 < unit = omega arith in
      let whole = mod-add-div (size + unit - 1) unit in
      let below = mod-lt (size + unit - 1) positive in
      let filled = length-append contents (replicate (cluster_count v size * unit - size) 0) in
      let zeros = length-replicate {A = ℕ} (cluster_count v size * unit - size) 0 in
      let turned : unit * cluster_count v size ≡ cluster_count v size * unit = ground arith in
      omega (arith, whole, below, filled, zeros, turned)

  -- On a well-formed volume whose clusters lie in the partition, writing contents that take as many clusters as the file has, at least one and fewer than 256 and
  -- than the fuel, succeeds, and reading the file then gives these contents, filled up with zeros to
  -- whole clusters. A cluster has a sector at least.
  pub write_entry-contents :
      (fuel c : ℕ) (cs contents buffer : List ℕ)
      → IsFile v c cs
      → 0 < k
      → cluster_count v (length contents) ≡ length cs
      → 0 < length cs
      → length cs < fuel
      → length cs < 256
      → (v' : Volume) × (write_entry fuel v c contents ≡ some (v', 0))
        × (contents_from fuel v' c 0 buffer [] ≡ some (some (padded v contents)))
  unfolding write_entry extend_by shorten
  write_entry-contents fuel c cs contents buffer h l count some_cluster m few =
      let n = cluster_count v (length contents) in
      let size : get_file_size fuel v c ≡ some n =
        get_file_size-length fuel v c cs h m ∙ ap some (sym count) in
      let none_more : n - n ≡ 0 = omega arith in
      let same : ltb n n ≡ false = ground arith in
      let cluster : (c == 1) ≡ false = is_cluster cs h some_cluster in
      (
        write_clusters n (padded v contents) v c,
        rw (write_entry, size, none_more, cluster, same) refl,
        ap (λ n. contents_from fuel (write_clusters n (padded v contents) v c) c 0 buffer []) count
            ∙ contents_from-write_clusters fuel c cs (padded v contents) buffer h
                (padded-size contents l ∙ ap (λ n. n * (k * 512)) count) m few,
      )
    where
      is_cluster : (cs : List ℕ) → IsFile v c cs → 0 < length cs → (c == 1) ≡ false
      is_cluster [] h l = absurd (omega arith)
      is_cluster (d ∷ ds) h l = let two = h.2.0 in ground arith
