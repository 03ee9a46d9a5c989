-- ===== src/Fat/Paths.antt =====
-- src/fatparser.c: paths. A path is the list of its bytes up to the zero byte.
use pygmali_os.Base.{
  ℕ, zero, suc, ◌+◌, set, ◌-◌, Bool, ◌&&◌, not, List, [], ◌∷◌, ◌++◌, ◌==◌, leb, if◌then◌else◌,
  get_or, drop, length,
}
use pygmali_os.Base.{Option, none, some, bit_and}
use pygmali_os.CString.{strcmp, strncmp}
use pygmali_os.Split.{here, skip, run}
use pygmali_os.Fat.Names.{dot, slash, plaintext_to_filename}
use pygmali_os.Fat.Volume.{Volume, minus_one}
use pygmali_os.Fat.Directory.{directory_parse, attr, entry_cluster}

abbrev pub no_slash : ℕ → Bool
no_slash c = not (c == slash) && not (c == 0)

abbrev pub is_slash : ℕ → Bool
is_slash c = c == slash

-- The loop over the segments, on fuel: `src` is what is left of the path of `size` bytes, and the
-- place of the last segment is the head of `segments`. Where the array of 64 segments is full, the
-- result is `none` too.
unfoldable pub find_segments : ℕ → ℕ → List ℕ → List ℕ → Option (List ℕ)
find_segments zero size src segments = none
find_segments (suc fuel) size src segments =
    let start = skip is_slash src in
    let segment = run no_slash start in
    let rest = find_segments fuel size (skip no_slash start) (
      if length segment == 1 && get_or segment 0 0 == dot
      then segments
      else if length segment == 2 && get_or segment 0 0 == dot && get_or segment 1 0 == dot
      then drop 1 segments
      else (size - length start) ∷ segments) in
    if here src == 0
    then some segments
    else if here start == 0
    then some segments
    else if leb 64 (length segments)
    then none
    else rest

-- `while (*seg && *seg != '/') *dst++ = *seg++;` in at most `n` rounds, and where `dst` is then.
unfoldable pub copy_segment : ℕ → ℕ → ℕ → List ℕ → ℕ × List ℕ
copy_segment zero seg dst path = (dst, path)
copy_segment (suc n) seg dst path =
    let c = get_or path seg 0 in
    let rest = copy_segment n (seg + 1) (dst + 1) (set path dst c) in
    if no_slash c then rest else (dst, path)

-- The loop that writes the segments: those before the last one are written first.
unfoldable pub join_segments : List ℕ → ℕ × List ℕ → ℕ × List ℕ
join_segments [] start = start
join_segments (seg ∷ segments) start =
    let (dst, path) = join_segments segments start in
    copy_segment (length path) seg (dst + 1) (set path dst slash)

-- The bytes of the path afterwards: it is written over itself.
unfoldable pub normalize_path : ℕ → List ℕ → Option (List ℕ)
normalize_path fuel path = elim (find_segments fuel (length path) path []) [
  | none ↦ none
  | some segments ↦
      let (dst, written) =
        if length segments == 0 then (1, set path 0 slash) else join_segments segments (0, path) in
      some (set written dst 0)
]

-- The directories between the working directory and a name; `memory` says whether there is a block.
unfoldable pub append_path : Bool → List ℕ → List ℕ → Option (List ℕ)
append_path memory working_dir filepath =
    let add_slash = not (get_or working_dir (length working_dir - 1) 0 == slash) in
    if not memory
    then none
    else if here filepath == slash
    then some filepath
    else if length filepath == 0
    then some working_dir
    else some (working_dir ++ (if add_slash then slash ∷ filepath else filepath))

-- The loop over the entries of a directory: the last one of that name that is a directory counts.
unfoldable pub find_directory : List (List ℕ) → List ℕ → ℕ → ℕ
find_directory [] file_entry current_cluster = current_cluster
find_directory (entry ∷ entries) file_entry current_cluster = find_directory entries file_entry (
    if strncmp 11 entry file_entry == 0 && not (bit_and (attr entry) 0x10 == 0)
    then entry_cluster entry
    else current_cluster)

-- The loop over the parts of the path, with as many rounds as bytes are left at most: `stack` has
-- the clusters above the current one, and `fuel` is for each directory.
unfoldable pub walk : ℕ → ℕ → Volume → List ℕ → ℕ → List ℕ → Option ℕ
walk fuel zero v path current_cluster stack = some current_cluster
walk fuel (suc n) v path current_cluster stack =
    let name = run no_slash path in
    let left = drop 1 (skip no_slash path) in
    let same = walk fuel n v left current_cluster stack in
    let up = walk fuel n v left (get_or stack 0 0) (drop 1 stack) in
    if length path == 0
    then some current_cluster
    else if leb 13 (length name)
    then some minus_one
    else if length name == 0
    then same
    else if strcmp (dot ∷ []) name == 0
    then same
    else if strcmp (dot ∷ dot ∷ []) name == 0
    then if length stack == 0 then some minus_one else up
    else if leb 64 (length stack)
    then some minus_one
    else elim (directory_parse fuel v current_cluster) [
      | none ↦ none
      | some entries ↦ elim (plaintext_to_filename v.memory name) [
        | none ↦ some minus_one
        | some file_entry ↦
            let found = find_directory entries file_entry minus_one in
            let down = walk fuel n v left found (current_cluster ∷ stack) in
            if found == minus_one then some minus_one else down
      ]
    ]

unfoldable pub file_path_destination : ℕ → Volume → List ℕ → Option ℕ
file_path_destination fuel v input_dir =
    if not (here input_dir == slash)
    then some minus_one
    else walk fuel (length input_dir) v (drop 1 input_dir) v.root_cluster []
