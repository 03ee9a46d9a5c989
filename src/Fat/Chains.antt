-- ===== src/Fat/Chains.antt =====
-- src/fatparser.c: the length of a file and its extension, along the chain of its clusters.
use pygmali_os.Base.{
  ℕ, zero, suc, ◌+◌, ◌*◌, ◌&&◌, leb, Option, none, some, ltb, if◌then◌else◌, u32, sub32, replicate,
}
use pygmali_os.Fat.Volume.{
  Volume, int_ltb, write_sector, get_from_fat, modify_fat, get_empty_cluster,
}

-- The loop that follows the chain of a file, on fuel.
unfoldable pub file_size_from : ℕ → Volume → ℕ → ℕ → Option ℕ
file_size_from zero v cluster size = none
file_size_from (suc fuel) v cluster size =
    let rest = file_size_from fuel v (get_from_fat v cluster) (size + 1) in
    if ltb cluster 0x0FFFFFF8 && ltb 1 cluster then rest else some size

unfoldable pub get_file_size : ℕ → Volume → ℕ → Option ℕ
get_file_size fuel v cluster = file_size_from fuel v cluster 0

abbrev pub sector_of_cluster : Volume → ℕ → ℕ
sector_of_cluster v cluster = u32 (sub32 cluster 2 * v.sectors_per_cluster + v.first_data_sector)

-- The loop that looks for the end of a file: the last cluster of it, and what that one's entry says.
unfoldable pub find_end : ℕ → Volume → ℕ → ℕ → Option (ℕ × ℕ)
find_end zero v cluster prev = none
find_end (suc fuel) v cluster prev =
    let rest = find_end fuel v (get_from_fat v cluster) cluster in
    if leb v.root_cluster cluster && int_ltb cluster 0x0FFFFFF8 then rest else some (prev, cluster)

-- The loop that clears the sectors of a cluster, with `n` of them left.
unfoldable pub write_nulls : ℕ → ℕ → ℕ → Volume → Volume
write_nulls zero i start v = v
write_nulls (suc n) i start v =
    write_nulls n (i + 1) start (write_sector v (u32 (start + i)) (replicate 512 0))

unfoldable pub extend_file : ℕ → Volume → ℕ → Option (ℕ × Volume)
extend_file fuel v cluster = elim (find_end fuel v cluster 0) [
  | none ↦ none
  | some (prev_last_cluster, cluster) ↦
      let new_cluster = get_empty_cluster v in
      let marked = (modify_fat v new_cluster 0x0FFFFFF8).1 in
      let linked = (modify_fat marked prev_last_cluster new_cluster).1 in
      let start = sector_of_cluster linked new_cluster in
      if int_ltb cluster 0x0FFFFFF8
      then some (1, v)
      else some (new_cluster, write_nulls linked.sectors_per_cluster 0 start linked)
]
