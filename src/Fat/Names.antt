-- ===== src/Fat/Names.antt =====
-- src/fatparser.c: names of files as text and as the eleven bytes of a directory entry. A name as
-- text is the bytes from its first one on; it ends at the first zero byte.
use pygmali_os.Base.{
  ℕ, zero, suc, ◌+◌, ◌-◌, Bool, true, false, ◌&&◌, ◌||◌, not, List, [], ◌∷◌, ◌++◌, ◌==◌, ltb,
  if◌then◌else◌, get_or, set, replicate,
}
use pygmali_os.Base.{Option, none, some}
use pygmali_os.CString.{strlen}

abbrev pub space : ℕ
space = 0x20

abbrev pub dot : ℕ
dot = 0x2E

abbrev pub slash : ℕ
slash = 0x2F

abbrev pub backslash : ℕ
backslash = 0x5C

-- The loop that leaves the blanks of an entry out, with `n` bytes left.
unfoldable pub pick : ℕ → ℕ → List ℕ → List ℕ → List ℕ
pick zero i filename out = out
pick (suc n) i filename out =
    let c = get_or filename i 0 in
    pick n (i + 1) filename (if c == space then out else out ++ c ∷ [])

-- `memory` says whether `kmalloc` finds a block.
unfoldable pub filename_to_plaintext : Bool → List ℕ → Option (List ℕ)
filename_to_plaintext memory filename =
    let name = pick 8 0 filename [] in
    if not memory
    then none
    else if not (get_or filename 8 0 == space)
        || not (get_or filename 9 0 == space)
        || not (get_or filename 10 0 == space)
    then some (pick 3 8 filename (name ++ dot ∷ []))
    else some name

pub record NameParts : Type 0 where
  pub extension_start : ℕ
  pub period_exists : Bool
  pub valid_fat : Bool

abbrev pub is_valid_char : ℕ → Bool
is_valid_char c = not (c == dot || c == slash || c == backslash)

-- The loop over the name, with `n` bytes left; a second period ends it.
unfoldable pub scan_name : ℕ → ℕ → List ℕ → NameParts → Option NameParts
scan_name zero i filename p = some p
scan_name (suc n) i filename p =
    let c = get_or filename i 0 in
    let p' : NameParts = record {
      extension_start = if c == dot then i + 1 else p.extension_start;
      period_exists = if c == dot then true else p.period_exists;
      valid_fat = if is_valid_char c then true else p.valid_fat;
    } in
    let rest = scan_name n (i + 1) filename p' in if c == dot && p.period_exists then none else rest

-- The loop over the eight bytes of the name: the entry, and whether the text has ended.
unfoldable pub copy_name : ℕ → ℕ → List ℕ → List ℕ → List ℕ × Bool
copy_name zero i filename fat = (fat, false)
copy_name (suc n) i filename fat =
    let c = get_or filename i 0 in
    let rest = copy_name n (i + 1) filename (set fat i c) in
    if c == 0 then (fat, true) else if c == dot then (fat, false) else rest

-- The loop over the three bytes of the extension. It goes on behind the end of the text.
unfoldable pub copy_extension : ℕ → ℕ → ℕ → List ℕ → List ℕ → List ℕ
copy_extension zero i start filename fat = fat
copy_extension (suc n) i start filename fat =
    let c = get_or filename (start + i) 0 in
    copy_extension n (i + 1) start filename (if c == 0 then fat else set fat (8 + i) c)

unfoldable pub plaintext_to_filename : Bool → List ℕ → Option (List ℕ)
plaintext_to_filename memory filename =
    let len = strlen filename in
    let start : NameParts = record {
      extension_start = 0;
      period_exists = false;
      valid_fat = false;
    } in
    let (copied, ended) = copy_name 8 0 filename (replicate 11 space) in
    if ltb 12 len || len == 0 || not memory then none else elim (scan_name len 0 filename start) [
      | none ↦ none
      | some p ↦
          if not p.valid_fat
            || ltb 9 p.extension_start
            || (p.period_exists && ltb 3 (len - p.extension_start))
          then none
          else if ended || not p.period_exists
          then some copied
          else some (copy_extension 3 0 p.extension_start filename copied)
    ]
