-- ===== src/Song.antt =====
-- src/orpheus.c: a song is a text of words, `BPM`, a number, and for each note its name and the
-- letter of its length.
mod Tokens
use pygmali_os.Base.{
  ℕ, zero, suc, ◌+◌, ◌-◌, ◌*◌, ◌/◌, ◌%◌, ◌^◌, ◌≤◌, ◌<◌, ◌≡◌, ◌≢◌, ◌∙◌, ◌⊎◌, inl, inr, refl, sym, ap,
  arith, Bool, true, false, ◌&&◌, ◌||◌, not, List, [], ◌∷◌, ◌++◌, ◌==◌, leb, ltb, min,
  if◌then◌else◌, get_or, set, take, drop, replicate, length, Bool-cases, else-taken, u64, sub32,
  get_or-cons,
}
use pygmali_os.Base.{Option, none, some, u16, u32}
use pygmali_os.CString.{strcmp, str_to_int}
use pygmali_os.Pit.{Note, note_table, SoundEvent, msleep, play_sound}
use pygmali_os.Split.{here, skip, run}

abbrev pub is_blank : ℕ → Bool
is_blank c = (c == 0x20 || c == 0x09 || c == 0x0A) && not (c == 0)

abbrev pub is_letter : ℕ → Bool
is_letter c = (not (c == 0x20) && not (c == 0x09) && not (c == 0x0A)) && not (c == 0)

-- The first pass: the number of words, on fuel.
unfoldable pub count_words : ℕ → List ℕ → ℕ → Option ℕ
count_words zero s word_count = none
count_words (suc fuel) s word_count =
    let word = skip is_blank s in
    let rest =
      count_words fuel (skip is_letter word)
        (if here word == 0 then word_count else word_count + 1) in
    if here s == 0 then some word_count else rest

-- The second pass, on fuel: `none` without fuel, `some none` for NULL. `memory` says for each word
-- whether `kmalloc` finds a block; a place of the array that is not set holds `none`.
unfoldable pub copy_words :
    ℕ → (ℕ → Bool) → List ℕ → ℕ → List (Option (List ℕ)) → Option (Option (List (Option (List ℕ))))
copy_words zero memory s word_count word_array = none
copy_words (suc fuel) memory s word_count word_array =
    let start = skip is_blank s in
    let word = run is_letter start in
    let next = skip is_letter start in
    let with_word =
      copy_words fuel memory next (word_count + 1) (set word_array word_count (some word)) in
    let without = copy_words fuel memory next word_count word_array in
    if here s == 0
    then some (some word_array)
    else if length word == 0
    then without
    else if memory word_count
    then with_word
    else some none

-- `memory` answers the request for the array first, then that for each word.
unfoldable pub tokenize_song :
    ℕ → Bool → (ℕ → Bool) → List ℕ → Option (Option (List (Option (List ℕ))))
tokenize_song fuel array_memory memory contents = elim (count_words fuel contents 0) [
  | none ↦ none
  | some word_count ↦
      if array_memory
      then copy_words fuel memory contents 0 (replicate (word_count + 1) none)
      else some none
]

-- Words of 32 bits as signed numbers: the quotient is cut towards zero.
abbrev pub is_negative : ℕ → Bool
is_negative w = leb (2 ^ 31) w

abbrev pub magnitude : ℕ → ℕ
magnitude w = if is_negative w then 2 ^ 32 - w else w

abbrev pub divide : ℕ → ℕ → ℕ
divide a b =
    let q = magnitude a / magnitude b in
    let same_sign = if is_negative a then is_negative b else not (is_negative b) in
    if same_sign then u32 q else sub32 0 q

abbrev pub minus_one : ℕ
minus_one = 0xFFFFFFFF

unfoldable pub note_dur : ℕ → List ℕ → ℕ
note_dur bpm type =
    if strcmp type (0x57 ∷ []) == 0
    then u32 (bpm * 4)
    else if strcmp type (0x48 ∷ []) == 0
    then u32 (bpm * 2)
    else if strcmp type (0x51 ∷ []) == 0
    then bpm
    else if strcmp type (0x45 ∷ []) == 0
    then divide bpm 2
    else if strcmp type (0x53 ∷ []) == 0
    then divide bpm 4
    else minus_one

-- The loop over the table: the last entry of that name counts.
unfoldable pub find_frequency : List Note → List ℕ → ℕ → ℕ
find_frequency [] name frequency = frequency
find_frequency (n ∷ table) name frequency =
    find_frequency table name (if strcmp name n.name == 0 then n.frequency else frequency)

-- How a song ends: with a value, or in a processor's exception, after what has been played.
pub data Outcome : Type 0 where
  returned : ℕ → List SoundEvent → Outcome
  division_error : List SoundEvent → Outcome
  null_tokens : Outcome

abbrev pub after : List SoundEvent → Outcome → Outcome
after played (returned code l) = returned code (played ++ l)
after played (division_error l) = division_error (played ++ l)
after played null_tokens = null_tokens

-- The words before the NULL that ends the array.
abbrev pub filled : List (Option (List ℕ)) → List (List ℕ)
filled [] = []
filled (none ∷ l) = []
filled (some w ∷ l) = w ∷ filled l

abbrev pub rest_name : List ℕ
rest_name = 0x52 ∷ 0x45 ∷ 0x53 ∷ 0x54 ∷ []

-- The loop over the notes, with `n` left.
unfoldable pub play_notes : ℕ → ℕ → ℕ → List (List ℕ) → Outcome
play_notes zero i bpm tokens = returned 0 []
play_notes (suc n) i bpm tokens =
    let name = get_or tokens (2 + 2 * i) [] in
    let frequency = find_frequency note_table name 0 in
    let is_rest = strcmp name rest_name == 0 in
    let duration = note_dur bpm (get_or tokens (3 + 2 * i) []) in
    let rest = play_notes n (i + 1) bpm tokens in
    if duration == minus_one || (frequency == 0 && not is_rest)
    then returned minus_one []
    else if is_rest
    then after (msleep duration ∷ []) rest
    else elim (play_sound (u16 frequency) duration) [
      | none ↦ division_error []
      | some l ↦ after l rest
    ]

-- `play_song` once the file is read and cut into words.
unfoldable pub play_tokens : List (List ℕ) → Outcome
play_tokens tokens =
    let len = length tokens in
    let bpm_val = str_to_int (get_or tokens 1 []) in
    if not (len % 2 == 0) || len == 0
    then returned minus_one []
    else if not (strcmp (get_or tokens 0 []) (0x42 ∷ 0x50 ∷ 0x4D ∷ []) == 0)
    then returned minus_one []
    else if bpm_val == 0
    then division_error []
    else play_notes ((len - 1) / 2) 0 (divide 60000 bpm_val) tokens

-- `contents` is what `file_contents` returns.
unfoldable pub play_song : ℕ → Bool → (ℕ → Bool) → Option (List ℕ) → Option Outcome
play_song fuel array_memory memory none = some (returned minus_one [])
play_song fuel array_memory memory (some contents) =
    elim (tokenize_song fuel array_memory memory contents) [
      | none ↦ none
      | some none ↦ some null_tokens
      | some (some word_array) ↦ some (play_tokens (filled word_array))
    ]
