-- ===== src/Fat/Locations.antt =====
-- src/fatparser.c: the search for the entry of a file, and the operations that only read it.
use pygmali_os.Base.{
  ℕ, ◌+◌, ◌-◌, Bool, true, false, ◌&&◌, ◌||◌, not, List, [], ◌∷◌, ◌==◌, leb, ltb, if◌then◌else◌,
  get_or, take, drop,
}
use pygmali_os.Base.{Option, none, some, u32}
use pygmali_os.CString.{strncmp}
use pygmali_os.Fat.Names.{slash, plaintext_to_filename}
use pygmali_os.Fat.Volume.{Volume, minus_one, read_sector, get_from_fat}
use pygmali_os.Fat.Chains.{sector_of_cluster, get_file_size, extend_file}
use pygmali_os.Fat.Directory.{directory_parse, attr, entry_contents}
use pygmali_os.Fat.Paths.{append_path, file_path_destination}

pub record FileLocation : Type 0 where
  pub lba : ℕ
  pub byte_offset : ℕ
  pub cluster : ℕ

pub data LookupMode : Type 0 where
  find_exists : LookupMode
  find_new : LookupMode

-- The loop that finds the last slash: the place behind it, or zero.
unfoldable pub after_slash : ℕ → List ℕ → ℕ → ℕ
after_slash i [] place = place
after_slash i (c ∷ filename) place =
    after_slash (i + 1) filename (if c == slash then i + 1 else place)

-- The path before the last slash, and the name behind it.
unfoldable pub split_path : List ℕ → List ℕ × List ℕ
split_path filename =
    let place = after_slash 0 filename 0 in (take (place - 1) filename, drop place filename)

abbrev pub is_match : LookupMode → List ℕ → List ℕ → Bool
is_match find_exists entry name = strncmp 11 entry name == 0
is_match find_new entry name = get_or entry 0 0 == 0xE5 || get_or entry 0 0 == 0

-- The loop over the entries: whether one was found, and where the loop stands; `lba` counts the
-- sectors of the cluster.
unfoldable pub locate :
    Volume → LookupMode → List ℕ → List (List ℕ) → FileLocation → Bool × FileLocation
locate v mode name [] l = (false, l)
locate v mode name (entry ∷ entries) l =
    let byte_offset = if l.byte_offset + 32 == 512 then 0 else l.byte_offset + 32 in
    let lba = if l.byte_offset + 32 == 512 then l.lba + 1 else l.lba in
    let next = locate v mode name entries (record l { byte_offset = byte_offset; lba = lba }) in
    let over =
      locate v mode name entries
        (record { byte_offset = byte_offset; lba = 0; cluster = get_from_fat v l.cluster }) in
    if is_match mode entry name
    then (true, l)
    else if not (lba == v.sectors_per_cluster)
    then next
    else if not (leb 2 l.cluster && ltb l.cluster 0x0FFFFFF8)
    then (false, record l { byte_offset = byte_offset; lba = lba })
    else over

-- What `get_file_location` returns for a directory at `cluster`, with the volume, which a search
-- for a new place extends: `none` without fuel, and `some (v, none)` where there is no place.
unfoldable pub location_in :
    ℕ → Volume → ℕ → List ℕ → LookupMode → List (List ℕ) → Option (Volume × Option FileLocation)
location_in fuel v cluster formatted_name mode entries =
    let (match, l) =
      locate v mode formatted_name entries
        (record { lba = 0; byte_offset = 0; cluster = cluster }) in
    if match
    then some (v, some (record l { lba = u32 (l.lba + sector_of_cluster v l.cluster) }))
    else elim mode [
      | find_exists ↦ some (v, none)
      | find_new ↦ elim (extend_file fuel v cluster) [
        | none ↦ none
        | some (next, v') ↦
            if next == 1
            then some (v', none)
            else some (
              v',
              some (record { lba = sector_of_cluster v' next; byte_offset = 0; cluster = next }),
            )
      ]
    ]

unfoldable pub get_file_location :
    ℕ → Volume → List ℕ → List ℕ → LookupMode → Option (Volume × Option FileLocation)
get_file_location fuel v working_dir filename mode =
    let (filepath, name) = split_path filename in
    elim (append_path v.memory working_dir filepath) [
      | none ↦ some (v, none)
      | some full_path ↦ elim (file_path_destination fuel v full_path) [
        | none ↦ none
        | some cluster ↦
            if cluster == minus_one then some (v, none) else elim (directory_parse fuel v cluster) [
              | none ↦ none
              | some entries ↦ elim (plaintext_to_filename v.memory name) [
                | none ↦ some (v, none)
                | some formatted_name ↦ location_in fuel v cluster formatted_name mode entries
              ]
            ]
      ]
    ]

-- The sector of the entry, and the entry in it.
abbrev pub entry_sector : Volume → FileLocation → List ℕ
entry_sector v l = read_sector v l.lba v.stale

abbrev pub entry_at : Volume → FileLocation → List ℕ
entry_at v l = take 32 (drop l.byte_offset (entry_sector v l))

-- The search that the readers begin with: the entry of a file that exists.
abbrev pub find_entry : ℕ → Volume → List ℕ → List ℕ → Option (Option FileLocation)
find_entry fuel v working_dir filename =
    elim (get_file_location fuel v working_dir filename find_exists) [
      | none ↦ none
      | some (v', l) ↦ some l
    ]

-- A file that is not found has the cluster -1 and the size zero.
unfoldable pub file_size_from_name : ℕ → Volume → List ℕ → List ℕ → Option ℕ
file_size_from_name fuel v working_dir filename = elim (find_entry fuel v working_dir filename) [
  | none ↦ none
  | some none ↦ get_file_size fuel v minus_one
  | some (some l) ↦ get_file_size fuel v l.cluster
]

unfoldable pub file_contents : ℕ → Volume → List ℕ → List ℕ → Option (Option (List ℕ))
file_contents fuel v working_dir filename = elim (find_entry fuel v working_dir filename) [
  | none ↦ none
  | some none ↦ some none
  | some (some l) ↦ entry_contents fuel v (entry_at v l)
]

unfoldable pub check_attributes : ℕ → Volume → List ℕ → List ℕ → Option ℕ
check_attributes fuel v working_dir filename = elim (find_entry fuel v working_dir filename) [
  | none ↦ none
  | some none ↦ some minus_one
  | some (some l) ↦ if v.memory then some (attr (entry_at v l)) else some minus_one
]
