-- ===== src/Fat/Tests.antt =====
-- The file system on a small disk.
use pygmali_os.Base.{
  ℕ, zero, suc, ◌≤◌, ◌<◌, ◌≡◌, ◌≢◌, ◌⊎◌, refl, arith, true, false, [], ◌∷◌, some, ◌==◌,
  if◌then◌else◌, get_or, replicate, length-replicate,
}
use pygmali_os.Base.{List, ◌++◌}
use pygmali_os.CString.{strlen}
use pygmali_os.Fat.Names.{
  space, dot, slash, filename_to_plaintext, scan_name, copy_name, copy_extension,
  plaintext_to_filename,
}
use pygmali_os.Fat.ShortNames.{filename_to_plaintext-plaintext_to_filename}
use pygmali_os.Fat.ShortNames.Places.{AllPlain, plain_text}
use pygmali_os.Fat.ShortNames.Pick.{IsEntry}
use pygmali_os.Fat.Directory.{directory_parse}
use pygmali_os.Fat.Listing.{entries_in, directory_parse-entries}
use pygmali_os.Split.{skip, run, spread, IsSpread}
use pygmali_os.Fat.Paths.{
  append_path, is_slash, no_slash, normalize_path, find_segments, join_segments, copy_segment,
}
use pygmali_os.Fat.Parts.{AllSegments}
use pygmali_os.Fat.Normal.{Holds, normalize_path-resolve}
use pygmali_os.Base.{set, none}
use pygmali_os.Fat.Locations.{FileLocation, split_path, after_slash}
use pygmali_os.Fat.Changes.{delete_entry}
use pygmali_os.Fat.Freed.{among, delete_entry-frees}
use pygmali_os.Fat.Volume.{
  Volume, read_sector, write_sector, get_from_fat, write_copies, modify_fat, scan_entries,
  scan_sectors, get_empty_cluster, minus_one,
}
use pygmali_os.Fat.Table.{IsVolume, IsCluster, entry}
use pygmali_os.Fat.Entries.{
  modify_fat-entries, IsMirrored, modify_fat-IsMirrored, modified, modified-IsVolume,
  get_from_fat-modified,
}
use pygmali_os.Fat.Empty.{IsFull, get_empty_cluster-first}
use pygmali_os.Fat.Chains.{get_file_size, extend_file}
use pygmali_os.Fat.Files.{IsFile, get_file_size-length}
use pygmali_os.Fat.Contents.{write_entry-contents}
use pygmali_os.Fat.Directory.{contents_from}
use pygmali_os.Fat.Changes.{padded, write_entry}
use pygmali_os.Fat.Extend.{IsFileSystem, extend_file-appends}

-- Two copies of a table of four sectors, at sector 132 of the disk.
abbrev blank : Volume
blank = record {
  partition_start = 100;
  partition_end = 1000;
  startup_read = false;
  sectors_per_cluster = 1;
  reserved_sectors = 32;
  num_of_fats = 2;
  sectors_per_fat = 4;
  root_cluster = 2;
  first_data_sector = 140;
  sectors = λ s. replicate 512 0;
  memory = true;
  stale = [];
}

zeros : (n i : ℕ) → get_or (replicate n 0) i 0 < 256
zeros zero i = omega arith
zeros (suc n) zero = omega arith
zeros (suc n) (suc i) = zeros n i

blank-IsVolume : IsVolume blank
blank-IsVolume = record {
  table_in = omega arith;
  end_in = omega arith;
  not_first = omega arith;
  one_fat = omega arith;
  table_size = omega arith;
  has_memory = refl;
  sector = λ s. (length-replicate {A = ℕ} 512 0, zeros 512);
}

modify_fat-entries_example :
    (v' : Volume) × (modify_fat blank 200 0x0FFFFFFF ≡ (0, v'))
    × IsVolume v'
    × ((d : ℕ)
        → IsCluster blank d
        → get_from_fat v' d ≡ (if d == 200 then 0x0FFFFFFF else get_from_fat blank d))
    × ((t : ℕ) → (t < 132) ⊎ (140 ≤ t) → v'.sectors t ≡ replicate 512 0)
modify_fat-entries_example =
    modify_fat-entries blank 200 0x0FFFFFFF blank-IsVolume (omega arith, omega arith) (omega arith)

modify_fat-IsMirrored_example : IsMirrored (modify_fat blank 200 7).1
modify_fat-IsMirrored_example =
    modify_fat-IsMirrored blank 200 7 blank-IsVolume (omega arith, omega arith) (λ j q lj lq. refl)

second_copy : get_or ((modify_fat blank 200 7).1.sectors 137) 288 0 ≡ 7
unfolding modify_fat write_copies write_sector read_sector
second_copy = refl

get_empty_cluster-first_example :
    (IsCluster blank (get_empty_cluster blank)
      × (entry blank (get_empty_cluster blank) ≡ 0)
      × IsFull blank (get_empty_cluster blank))
    ⊎ ((get_empty_cluster blank ≡ minus_one) × IsFull blank 512)
get_empty_cluster-first_example = get_empty_cluster-first blank blank-IsVolume

-- The same disk with a file of one cluster.
abbrev one_file : Volume
one_file = modified blank 2 0x0FFFFFF8

one_file-IsFileSystem : IsFileSystem one_file
one_file-IsFileSystem = record {
  volume = modified-IsVolume blank 2 0x0FFFFFF8 blank-IsVolume;
  root = refl;
  numbers = omega arith;
  data_start = refl;
  data_end = omega arith;
}

one_file-IsFile : IsFile one_file 2 (2 ∷ [])
one_file-IsFile =
    let end : get_from_fat one_file 2 ≡ 0x0FFFFFF8 =
      get_from_fat-modified blank 2 2 0x0FFFFFF8 blank-IsVolume (omega arith, omega arith)
        (omega arith, omega arith) (omega arith) in
    (refl, omega arith, (omega arith, omega arith), omega arith, rw end (omega arith, omega arith))

get_file_size-length_example : get_file_size 2 one_file 2 ≡ some 1
get_file_size-length_example =
    get_file_size-length 2 one_file 2 (2 ∷ []) one_file-IsFile (omega arith)

third : get_empty_cluster one_file ≡ 3
unfolding get_empty_cluster scan_sectors scan_entries read_sector
third = refl

extend_file-appends_example :
    let n = get_empty_cluster one_file in
    (v' : Volume) × (extend_file 3 one_file 2 ≡ some (n, v'))
    × IsFile v' 2 (2 ∷ n ∷ [])
    × ((x : ℕ) → IsCluster one_file x → x ≢ n → x ≢ 2 → get_from_fat v' x ≡ get_from_fat one_file x)
extend_file-appends_example =
    extend_file-appends 3 one_file 2 [] one_file-IsFileSystem one_file-IsFile
      (λ e. omega (arith, e, third)) (omega arith)

write_entry-contents_example :
    (v' : Volume) × (write_entry 2 one_file 2 (1 ∷ 2 ∷ []) ≡ some (v', 0))
    × (contents_from 2 v' 2 0 [] [] ≡ some (some (padded one_file (1 ∷ 2 ∷ []))))
write_entry-contents_example =
    write_entry-contents one_file one_file-IsFileSystem (omega arith) 2 2 (2 ∷ []) (1 ∷ 2 ∷ []) []
      one_file-IsFile (omega arith) refl (omega arith) (omega arith) (omega arith)

-- `OS.C` as an entry.
abbrev os : List ℕ
os = 0x4F ∷ 0x53 ∷ []

abbrev c_file : List ℕ
c_file = 0x43 ∷ []

os-AllPlain : AllPlain os
os-AllPlain = (omega arith, omega arith, refl, (omega arith, omega arith, refl, tt))

c_file-AllPlain : AllPlain c_file
c_file-AllPlain = (omega arith, omega arith, refl, tt)

filename_to_plaintext-plaintext_to_filename_example :
    (fat : List ℕ) × (plaintext_to_filename true (plain_text os c_file) ≡ some fat)
    × IsEntry fat os c_file
    × (filename_to_plaintext true fat ≡ some (plain_text os c_file))
filename_to_plaintext-plaintext_to_filename_example =
    filename_to_plaintext-plaintext_to_filename os c_file os-AllPlain c_file-AllPlain (omega arith)
      (omega arith) (omega arith)

-- Of `O.C` the copy goes on behind the zero byte: `X` gets into the extension.
past_end :
    plaintext_to_filename true (0x4F ∷ dot ∷ 0x43 ∷ 0 ∷ 0x58 ∷ [])
    ≡ some (0x4F ∷ replicate 7 space ++ 0x43 ∷ space ∷ 0x58 ∷ [])
unfolding plaintext_to_filename strlen scan_name copy_name copy_extension
past_end = refl

directory_parse-entries_example : directory_parse 2 one_file 2 ≡ some (entries_in one_file (2 ∷ []))
directory_parse-entries_example =
    directory_parse-entries 2 one_file 2 (2 ∷ []) one_file-IsFile
      ((λ i l. (omega arith, omega (arith, l))), tt) refl (omega arith)

-- A file in the root directory, named by its whole path, is looked for in the working directory.
root_lost :
    append_path true (slash ∷ 0x41 ∷ []) (split_path (slash ∷ 0x42 ∷ [])).0
    ≡ some (slash ∷ 0x41 ∷ [])
unfolding append_path split_path after_slash
root_lost = refl

-- The sector of the entry of a file `A` at cluster 2.
abbrev entry_of_a : List ℕ
entry_of_a = 0x41 ∷ replicate 25 0 ++ 2 ∷ replicate 5 0

abbrev place_of_a : FileLocation
place_of_a = record { lba = 140; byte_offset = 0; cluster = 2 }

delete_entry-frees_example :
    (v' : Volume) × (delete_entry (λ w name. none) 2 one_file (0x41 ∷ []) place_of_a entry_of_a
      ≡ some (write_sector v' 140 (set entry_of_a 0 0xE5), 0))
    × IsVolume v'
    × ((x : ℕ)
        → IsCluster one_file x
        → get_from_fat v' x ≡ (if among x (2 ∷ []) then 0 else get_from_fat one_file x))
delete_entry-frees_example =
    delete_entry-frees (λ w name. none) 2 one_file (0x41 ∷ []) place_of_a entry_of_a (2 ∷ [])
      one_file-IsFileSystem.volume one_file-IsFile (omega arith) (omega arith) (omega arith) refl

-- `/a/../b`
abbrev parts : List (List ℕ × List ℕ)
parts = (slash ∷ [], 0x61 ∷ []) ∷ (slash ∷ [], dot ∷ dot ∷ []) ∷ (slash ∷ [], 0x62 ∷ []) ∷ []

parts-IsSpread : IsSpread is_slash no_slash parts (0 ∷ [])
parts-IsSpread = (
  (refl, tt),
  ((refl, tt), omega arith),
  refl,
  (
    (refl, tt),
    ((refl, (refl, tt)), omega arith),
    refl,
    ((refl, tt), ((refl, tt), omega arith), refl, ([], 0 ∷ [], tt, refl, refl)),
  ),
)

normalize_path-resolve_example :
    (bytes : List ℕ) × (normalize_path 5 (spread parts (0 ∷ [])) ≡ some bytes)
    × Holds bytes (slash ∷ 0x62 ∷ [])
    × AllSegments ((0x62 ∷ []) ∷ [])
normalize_path-resolve_example =
    normalize_path-resolve parts 5 (0 ∷ []) parts-IsSpread refl (omega arith) (omega arith)
      (omega arith) (omega arith)

-- Of `a/b` the first byte is lost before it is copied: it becomes `//b`.
relative : normalize_path 4 (0x61 ∷ slash ∷ 0x62 ∷ 0 ∷ []) ≡ some (slash ∷ slash ∷ 0x62 ∷ 0 ∷ [])
unfolding normalize_path find_segments join_segments copy_segment skip run
relative = refl
