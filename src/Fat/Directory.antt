-- ===== src/Fat/Directory.antt =====
-- src/fatparser.c: the entries of a directory, and the bytes of a file. An entry is the list of its
-- 32 bytes. All requests for memory have the answer of the volume.
use pygmali_os.Base.{
  ℕ, zero, suc, ◌+◌, ◌-◌, ◌*◌, Bool, ◌&&◌, List, [], ◌∷◌, ◌++◌, ◌==◌, leb, ltb, if◌then◌else◌,
  get_or, set, take, drop, replicate, length,
}
use pygmali_os.Base.{Option, none, some, u32, bit_and, shl}
use pygmali_os.CString.{strlen}
use pygmali_os.Fat.Names.{space, filename_to_plaintext}
use pygmali_os.Fat.Volume.{Volume, read_sector, get_from_fat}
use pygmali_os.Fat.Chains.{sector_of_cluster}

-- The sectors of a cluster, with `n` of them left; each buffer keeps what it held where the sector
-- is not read.
unfoldable pub read_cluster : ℕ → ℕ → Volume → ℕ → List (List ℕ) → List (List ℕ)
read_cluster zero i v sector buffers = buffers
read_cluster (suc n) i v sector buffers =
    read_cluster n (i + 1) v sector
      (set buffers i (read_sector v (u32 (sector + i)) (get_or buffers i [])))

-- The entries of a sector, with `n` of them left.
abbrev pub split_entries : ℕ → List ℕ → List (List ℕ)
split_entries zero bytes = []
split_entries (suc n) bytes = take 32 bytes ∷ split_entries n (drop 32 bytes)

abbrev pub entries_of : List (List ℕ) → List (List ℕ)
entries_of [] = []
entries_of (sector ∷ sectors) = split_entries 16 sector ++ entries_of sectors

-- The loop over the clusters, on fuel.
unfoldable pub parse_clusters :
    ℕ → Volume → ℕ → List (List ℕ) → List (List ℕ) → Option (List (List ℕ))
parse_clusters zero v cluster_num buffers entries = none
parse_clusters (suc fuel) v cluster_num buffers entries =
    let cluster =
      read_cluster v.sectors_per_cluster 0 v (sector_of_cluster v cluster_num) buffers in
    let rest =
      parse_clusters fuel v (get_from_fat v cluster_num) cluster (entries ++ entries_of cluster) in
    if ltb cluster_num 0x0FFFFFF8 && leb 2 cluster_num then rest else some entries

unfoldable pub directory_parse : ℕ → Volume → ℕ → Option (List (List ℕ))
directory_parse fuel v cluster_num =
    let result = parse_clusters fuel v cluster_num (replicate v.sectors_per_cluster v.stale) [] in
    if v.memory then result else some []

abbrev pub attr : List ℕ → ℕ
attr entry = get_or entry 11 0

abbrev pub entry_cluster : List ℕ → ℕ
entry_cluster entry = u32 (
    get_or entry 26 0
    + get_or entry 27 0 * 256
    + shl (get_or entry 20 0 + get_or entry 21 0 * 256) 16)

-- Each name with a blank behind it; a name that is empty, deleted or long is left out.
unfoldable pub collect_names : Bool → List (List ℕ) → Option (List ℕ)
collect_names memory [] = some []
collect_names memory (entry ∷ entries) =
    let first = get_or entry 0 0 in
    let rest = collect_names memory entries in
    if first == 0
    then rest
    else if first == 0xE5
    then rest
    else if bit_and (attr entry) 0x0F == 0x0F
    then rest
    else elim (filename_to_plaintext memory (take 11 entry)) [
      | none ↦ none
      | some name ↦ elim rest [
        | none ↦ none
        | some names ↦ some (take (strlen name) name ++ space ∷ names)
      ]
    ]

-- The last blank becomes the zero byte; without a name the result is NULL.
unfoldable pub names_from_directory : Bool → List (List ℕ) → Option (List ℕ)
names_from_directory memory entries = elim (collect_names memory entries) [
  | none ↦ none
  | some names ↦ if length names == 0 then none else some (set names (length names - 1) 0)
]

-- The sectors of a cluster of a file, with `n` of them left: the bytes, and the buffer.
unfoldable pub copy_sectors : ℕ → ℕ → Volume → ℕ → List ℕ → List ℕ → List ℕ × List ℕ
copy_sectors zero i v sector sectordata contents = (contents, sectordata)
copy_sectors (suc n) i v sector sectordata contents =
    let sectordata = read_sector v (u32 (sector + i)) sectordata in
    copy_sectors n (i + 1) v sector sectordata (contents ++ take 512 sectordata)

-- The loop over the clusters of a file, on fuel: `some none` for NULL.
unfoldable pub contents_from : ℕ → Volume → ℕ → ℕ → List ℕ → List ℕ → Option (Option (List ℕ))
contents_from zero v cluster clusternum sectordata contents = none
contents_from (suc fuel) v cluster clusternum sectordata contents =
    let (contents', sectordata') =
      copy_sectors v.sectors_per_cluster 0 v (sector_of_cluster v cluster) sectordata contents in
    let rest =
      contents_from fuel v (get_from_fat v cluster) (clusternum + 1) sectordata' contents' in
    if leb v.root_cluster cluster && ltb cluster 0x0FFFFFF8
    then if leb 256 (clusternum + 1) then some none else rest
    else some (some contents)

-- `file_contents` behind the search for the file, whose entry is `entry`.
unfoldable pub entry_contents : ℕ → Volume → List ℕ → Option (Option (List ℕ))
entry_contents fuel v entry =
    let result = contents_from fuel v (entry_cluster entry) 0 v.stale [] in
    if bit_and (attr entry) 0x10 == 0x10 then some none else if v.memory then result else some none
