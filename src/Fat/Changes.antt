-- ===== src/Fat/Changes.antt =====
-- src/fatparser.c: the operations that change a file: writing, creating and deleting it.
use pygmali_os.Base.{
  ℕ, zero, suc, ◌+◌, ◌-◌, ◌*◌, ◌/◌, ◌^◌, ◌&&◌, ◌||◌, not, List, [], ◌∷◌, ◌++◌, ◌==◌, leb, ltb,
  if◌then◌else◌, get_or, set, take, drop, replicate, length,
}
use pygmali_os.Base.{Option, none, some, u32, bit_and, shr}
use pygmali_os.CString.{strcmp}
use pygmali_os.Fat.Names.{dot, slash, space, filename_to_plaintext, plaintext_to_filename}
use pygmali_os.Fat.Volume.{
  Volume, minus_one, write_sector, get_from_fat, modify_fat, get_empty_cluster,
}
use pygmali_os.Fat.Chains.{sector_of_cluster, get_file_size, extend_file, write_nulls}
use pygmali_os.Fat.Directory.{directory_parse, attr, entry_cluster}
use pygmali_os.Fat.Locations.{
  FileLocation, find_exists, find_new, split_path, get_file_location, entry_sector, entry_at,
}

-- The extension of a file by `n` clusters: what the last call returned.
unfoldable pub extend_by : ℕ → ℕ → Volume → ℕ → Option (Volume × ℕ)
extend_by fuel zero v extend = some (v, extend)
extend_by fuel (suc n) v extend = elim (extend_file fuel v extend) [
  | none ↦ none
  | some (next, v') ↦ extend_by fuel n v' next
]

-- The cluster `n` steps on.
unfoldable pub follow : ℕ → Volume → ℕ → ℕ
follow zero v cluster = cluster
follow (suc n) v cluster = follow n v (get_from_fat v cluster)

-- The loop that frees the clusters from `low` on, on fuel.
unfoldable pub free_chain : ℕ → ℕ → Volume → ℕ → Option Volume
free_chain zero low v cluster = none
free_chain (suc fuel) low v cluster =
    let rest = free_chain fuel low (modify_fat v cluster 0).1 (get_from_fat v cluster) in
    if leb low cluster && ltb cluster 0x0FFFFFF8 then rest else some v

-- A file that is too long ends at the last one of its clusters, and what is behind that is freed.
unfoldable pub shorten : ℕ → ℕ → ℕ → Volume → ℕ → Option Volume
shorten fuel cluster_size start_size v start_cluster =
    let last = follow (start_size - 1) v start_cluster in
    let ended = (modify_fat v last 0x0FFFFFF8).1 in
    if ltb cluster_size start_size then free_chain fuel 2 ended (get_from_fat v last) else some v

unfoldable pub write_sectors : ℕ → ℕ → ℕ → List ℕ → Volume → Volume
write_sectors zero j sector contents v = v
write_sectors (suc n) j sector contents v =
    write_sectors n (j + 1) sector (drop 512 contents)
      (write_sector v (u32 (sector + j)) (take 512 contents))

-- The loop over the clusters of the new contents.
unfoldable pub write_clusters : ℕ → List ℕ → Volume → ℕ → Volume
write_clusters zero contents v cluster = v
write_clusters (suc n) contents v cluster =
    let v' = write_sectors v.sectors_per_cluster 0 (sector_of_cluster v cluster) contents v in
    write_clusters n (drop (v.sectors_per_cluster * 512) contents) v' (get_from_fat v' cluster)

-- The contents are filled up with zeros to whole clusters; the number of them.
abbrev pub cluster_count : Volume → ℕ → ℕ
cluster_count v byte_size =
    (byte_size + v.sectors_per_cluster * 512 - 1) / (v.sectors_per_cluster * 512)

abbrev pub padded : Volume → List ℕ → List ℕ
padded v contents =
    contents
    ++ replicate
        (cluster_count v (length contents) * (v.sectors_per_cluster * 512) - length contents) 0

-- `write_to_file` once the entry is found: the volume and the value that is returned. Writing to a
-- volume without sectors in a cluster divides by zero, which is left out.
unfoldable pub write_entry : ℕ → Volume → ℕ → List ℕ → Option (Volume × ℕ)
write_entry fuel v start_cluster contents =
    let cluster_size = cluster_count v (length contents) in
    elim (get_file_size fuel v start_cluster) [
      | none ↦ none
      | some start_size ↦ elim (extend_by fuel (cluster_size - start_size) v start_cluster) [
        | none ↦ none
        | some (v', extend) ↦
            if extend == 1
            then some (v', minus_one)
            else elim (shorten fuel cluster_size start_size v' start_cluster) [
              | none ↦ none
              | some v'' ↦
                  some (write_clusters cluster_size (padded v contents) v'' start_cluster, 0)
            ]
      ]
    ]

unfoldable pub write_to_file : ℕ → Volume → List ℕ → List ℕ → List ℕ → Option (Volume × ℕ)
write_to_file fuel v working_dir contents filename =
    if not v.memory
    then some (v, minus_one)
    else elim (get_file_location fuel v working_dir filename find_exists) [
      | none ↦ none
      | some (v', none) ↦ some (v', minus_one)
      | some (v', some l) ↦ write_entry fuel v' (entry_cluster (entry_at v' l)) contents
    ]

-- The sector with other bytes from the place `o` on.
abbrev pub overlay : ℕ → List ℕ → List ℕ → List ℕ
overlay o bytes sector = take o sector ++ (bytes ++ drop (o + length bytes) sector)

-- The entries of a directory that is deleted, one after the other; `delete` deletes one file.
unfoldable pub delete_entries :
    (Volume → List ℕ → Option (Volume × ℕ)) → Volume → List ℕ → List (List ℕ) → Option Volume
delete_entries delete v filename [] = some v
delete_entries delete v filename (entry ∷ entries) =
    let first = get_or entry 0 0 in
    let rest = delete_entries delete v filename entries in
    if first == 0 || first == 0xE5 || bit_and (attr entry) 0x0F == 0x0F
    then rest
    else elim (filename_to_plaintext v.memory (take 11 entry)) [
      | none ↦ rest
      | some name ↦
          if strcmp name (dot ∷ []) == 0 || strcmp name (dot ∷ dot ∷ []) == 0
          then rest
          else elim (delete v (filename ++ slash ∷ name)) [
            | none ↦ none
            | some (v', r) ↦ delete_entries delete v' filename entries
          ]
    ]

abbrev pub deleted : ℕ
deleted = 0xE5

-- `delete_file` once the entry is found: `sector` is the sector of it.
unfoldable pub delete_entry :
    (Volume → List ℕ → Option (Volume × ℕ))
    → ℕ
    → Volume
    → List ℕ
    → FileLocation
    → List ℕ
    → Option (Volume × ℕ)
delete_entry delete fuel v filename l sector =
    let entry = take 32 (drop l.byte_offset sector) in
    let cluster = entry_cluster entry in
    let marked = set sector l.byte_offset deleted in
    let free = λ (w : Volume).
      elim (free_chain fuel v.root_cluster w cluster) as (λ _. Option (Volume × ℕ)) [
        | none ↦ none
        | some w' ↦ some (write_sector w' l.lba marked, 0)
      ] in
    if get_or entry 0 0 == dot && (get_or entry 1 0 == dot || get_or entry 1 0 == space)
    then some (v, minus_one)
    else if attr entry == 0x0F
    then some (write_sector v l.lba marked, 0)
    else if bit_and (attr entry) 0x10 == 0
    then free v
    else elim (directory_parse fuel v cluster) [
      | none ↦ none
      | some entries ↦ elim (delete_entries delete v filename entries) [
        | none ↦ none
        | some w ↦ free w
      ]
    ]

-- On fuel for the depth of the directories; `fuel` is for the chains.
unfoldable pub delete_file : ℕ → ℕ → Volume → List ℕ → List ℕ → Option (Volume × ℕ)
delete_file zero fuel v working_dir filename = none
delete_file (suc depth) fuel v working_dir filename =
    elim (get_file_location fuel v working_dir filename find_exists) [
      | none ↦ none
      | some (v', none) ↦ some (v', minus_one)
      | some (v', some l) ↦
          if not (leb 2 l.cluster && ltb l.cluster (2 ^ 31))
          then some (v', minus_one)
          else if not v'.memory
          then some (v', 1)
          else delete_entry (λ w name. delete_file depth fuel w working_dir name) fuel v' filename l
              (entry_sector v' l)
    ]

pub data FileType : Type 0 where
  file : FileType
  directory : FileType

abbrev pub new_entry : List ℕ → FileType → ℕ → List ℕ
new_entry name type cluster =
    name
    ++ elim type [ file ↦ 0 | directory ↦ 0x10 ] ∷ replicate 8 0
    ++ bit_and (shr cluster 16) 0xFF ∷ bit_and (shr cluster 24) 0xFF ∷ replicate 4 0
    ++ bit_and cluster 0xFF ∷ bit_and (shr cluster 8) 0xFF ∷ replicate 4 0

-- `create_file` once the place of the entry is found.
unfoldable pub create_entry : Volume → List ℕ → FileType → FileLocation → Volume × ℕ
create_entry v filename type l =
    let newcluster = get_empty_cluster v in
    let cleared = write_nulls v.sectors_per_cluster 0 (sector_of_cluster v newcluster) v in
    if get_or filename (length filename - 1) 0 == slash
    then (v, minus_one)
    else elim (plaintext_to_filename v.memory (split_path filename).1) [
      | none ↦ (v, minus_one)
      | some name ↦
          let dir = overlay l.byte_offset (new_entry name type newcluster) (entry_sector v l) in
          if newcluster == minus_one
          then (v, minus_one)
          else ((modify_fat (write_sector cleared l.lba dir) newcluster 0x0FFFFFF8).1, newcluster)
    ]

-- A file of that name is deleted first.
unfoldable pub create_file : ℕ → ℕ → Volume → List ℕ → List ℕ → FileType → Option (Volume × ℕ)
create_file depth fuel v working_dir filename type =
    let place = λ (w : Volume).
      elim (get_file_location fuel w working_dir filename find_new) as (λ _. Option (Volume × ℕ)) [
        | none ↦ none
        | some (w', none) ↦ some (w', minus_one)
        | some (w', some l) ↦ some (create_entry w' filename type l)
      ] in
    elim (get_file_location fuel v working_dir filename find_exists) [
      | none ↦ none
      | some (v', none) ↦ place v'
      | some (v', some l) ↦ elim (delete_file depth fuel v' working_dir filename) [
        | none ↦ none
        | some (v'', r) ↦ place v''
      ]
    ]
