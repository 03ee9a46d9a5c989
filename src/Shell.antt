-- ===== src/Shell.antt =====
-- src/inputhandler.c, and the input buffer of src/writingmode.c: the line that is typed, its words,
-- the table of the commands, and the lines typed before. A buffer is the list of its bytes. The
-- result `none` of a change to the line stands for a write outside of the buffer.
mod Arguments
mod Line
mod Past
mod Tests
use pygmali_os.Base.{
  ℕ, zero, suc, ◌+◌, ◌-◌, ◌*◌, ◌/◌, ◌%◌, ◌^◌, ◌≤◌, ◌<◌, ◌≡◌, ◌≢◌, ◌∙◌, ◌⊎◌, inl, inr, refl, sym, ap,
  arith, Bool, true, false, ◌&&◌, ◌||◌, not, List, [], ◌∷◌, ◌++◌, ◌==◌, leb, ltb, min,
  if◌then◌else◌, get_or, set, take, drop, replicate, length, Bool-cases, else-taken, u64, sub32,
  get_or-cons,
}
use pygmali_os.Base.{Option, none, some, u8}
use pygmali_os.CString.{strlen, strcmp, memmove, memcpy}
use pygmali_os.Split.{here, skip, run}

abbrev pub input_buffer_size : ℕ
input_buffer_size = 1024

abbrev pub prev_inputs_buffer : ℕ
prev_inputs_buffer = 1024

pub record Input : Type 0 where
  pub input_buffer : List ℕ
  pub input_len : ℕ
  pub input_pos : ℕ

unfoldable pub add_to_input_buffer : ℕ → Input → Option Input
add_to_input_buffer newinput i =
    let moved =
      memmove (i.input_pos + 1) i.input_pos (i.input_len - i.input_pos + 1) i.input_buffer in
    if leb (input_buffer_size - 1) i.input_len
    then some i
    else if ltb i.input_len i.input_pos
    then none
    else some (record {
      input_buffer = set moved i.input_pos newinput;
      input_len = i.input_len + 1;
      input_pos = i.input_pos + 1;
    })

unfoldable pub remove_from_input_buffer : Input → Option Input
remove_from_input_buffer i =
    let input_len = i.input_len - 1 in
    let input_pos = i.input_pos - 1 in
    let moved = memmove (input_pos - 1) input_pos (input_len - input_pos) i.input_buffer in
    if i.input_len == 0
    then some i
    else if i.input_pos == 0 || ltb i.input_len i.input_pos
    then none
    else if input_pos == 0 && ltb 0 input_len
    then none
    else some (record {
      input_buffer = set moved input_len 0;
      input_len = input_len;
      input_pos = input_pos;
    })

abbrev pub cleared : Input
cleared = record { input_buffer = replicate input_buffer_size 0; input_len = 0; input_pos = 0 }

pub record History : Type 0 where
  pub historybuffersize : ℕ
  pub previous_inputs : List ℕ
  pub history_position : ℕ
  pub history_current_size : ℕ

-- `grow` gives the bytes that `krealloc` returns for a new size.
unfoldable pub store_prev_inputs : (ℕ → List ℕ → List ℕ) → List ℕ → History → History
store_prev_inputs grow input h =
    let len = strlen input in
    let full = ltb h.historybuffersize (h.history_current_size + len + 1) in
    let size = if full then h.historybuffersize + (len + 1) * 5 else h.historybuffersize in
    let buffer = if full then grow size h.previous_inputs else h.previous_inputs in
    record h {
      historybuffersize = size;
      previous_inputs =
          memcpy (len + 1) 0 (memmove (len + 1) 0 (prev_inputs_buffer - (len + 1)) buffer) 0 input;
      history_current_size = h.history_current_size + len + 1;
    }

-- The loop that brings a line back, with `n` bytes of the history left: the place behind the line,
-- the input buffer, and the bytes that are shown.
unfoldable pub recall : ℕ → ℕ → ℕ → List ℕ → List ℕ → List ℕ → ℕ × List ℕ × List ℕ
recall zero i input_num previous input shown = (i, input, shown)
recall (suc n) i input_num previous input shown =
    let c = get_or previous i 0 in
    let rest =
      recall n (i + 1) (input_num + 1) previous (set input input_num c) (shown ++ c ∷ []) in
    if c == 0 then (i, input, shown) else rest

-- The history, the input and the bytes that are shown.
unfoldable pub back_history : History → History × Input × List ℕ
back_history h =
    let (i, input, shown) =
      recall (h.history_current_size - h.history_position) h.history_position 0 h.previous_inputs
        cleared.input_buffer [] in
    if leb h.history_current_size h.history_position
    then (h, cleared, [])
    else (record h { history_position = i + 1 }, record cleared { input_buffer = input }, shown)

-- The place behind the last zero byte before the place `i`.
unfoldable pub line_start : ℕ → List ℕ → ℕ
line_start zero previous = 0
line_start (suc i) previous =
    let before = line_start i previous in if get_or previous i 0 == 0 then suc i else before

unfoldable pub forward_history : History → History × Input × List ℕ
forward_history h =
    let start = line_start (h.history_position - 1) h.previous_inputs in
    let (i, input, shown) =
      recall (h.history_current_size - start) start 0 h.previous_inputs cleared.input_buffer [] in
    if ltb h.history_position 2
    then (h, cleared, [])
    else (record h { history_position = start }, record cleared { input_buffer = input }, shown)

abbrev pub is_space : ℕ → Bool
is_space c = c == 0x20

abbrev pub is_letter : ℕ → Bool
is_letter c = not (c == 0x20) && not (c == 0)

-- `argv[argc] = arg` behind `krealloc`, which keeps what the array holds.
abbrev pub place : List (List ℕ) → ℕ → List ℕ → List (List ℕ)
place argv argc arg = if ltb argc (length argv) then set argv argc arg else argv ++ arg ∷ []

-- The loop over the words, on fuel: `none` without fuel, `some none` where memory is out, which
-- `memory` says for each of the requests.
unfoldable pub parse_words :
    ℕ → (ℕ → Bool) → ℕ → List ℕ → ℕ → List (List ℕ) → Option (Option (ℕ × List (List ℕ)))
parse_words zero memory k s argc argv = none
parse_words (suc fuel) memory k s argc argv =
    let start = skip is_space s in
    let rest =
      parse_words fuel memory (k + 1) (skip is_letter start) (u8 (argc + 1))
        (place argv argc (run is_letter start)) in
    if here start == 0
    then some (some (argc, argv))
    else if not (memory (2 * k)) || not (memory (2 * k + 1))
    then some none
    else rest

-- The history, the input and the words.
unfoldable pub parse_input :
    ℕ
    → (ℕ → Bool)
    → (ℕ → List ℕ → List ℕ)
    → Input
    → History
    → Option (History × Input × Option (ℕ × List (List ℕ)))
parse_input fuel memory grow i h = elim (parse_words fuel memory 0 i.input_buffer 0 []) [
  | none ↦ none
  | some r ↦ some (store_prev_inputs grow i.input_buffer h, cleared, r)
]

abbrev pub commands : List (List ℕ)
commands =
    (0x65 ∷ 0x63 ∷ 0x68 ∷ 0x6F ∷ [])
    ∷ (0x68 ∷ 0x65 ∷ 0x6C ∷ 0x70 ∷ [])
    ∷ (0x70 ∷ 0x6C ∷ 0x61 ∷ 0x79 ∷ [])
    ∷ (0x63 ∷ 0x6C ∷ 0x65 ∷ 0x61 ∷ 0x72 ∷ [])
    ∷ (0x74 ∷ 0x69 ∷ 0x6D ∷ 0x65 ∷ [])
    ∷ (0x70 ∷ 0x77 ∷ 0x64 ∷ [])
    ∷ (0x6C ∷ 0x73 ∷ [])
    ∷ (0x63 ∷ 0x64 ∷ [])
    ∷ (0x72 ∷ 0x6D ∷ [])
    ∷ (0x63 ∷ 0x61 ∷ 0x74 ∷ [])
    ∷ (0x74 ∷ 0x6F ∷ 0x75 ∷ 0x63 ∷ 0x68 ∷ [])
    ∷ (0x6D ∷ 0x6B ∷ 0x64 ∷ 0x69 ∷ 0x72 ∷ [])
    ∷ (0x67 ∷ 0x61 ∷ 0x6C ∷ 0x61 ∷ 0x74 ∷ 0x65 ∷ 0x61 ∷ [])
    ∷ (0x68 ∷ 0x65 ∷ 0x61 ∷ 0x70 ∷ 0x63 ∷ 0x68 ∷ 0x65 ∷ 0x63 ∷ 0x6B ∷ [])
    ∷ (0x6F ∷ 0x72 ∷ 0x70 ∷ 0x68 ∷ 0x65 ∷ 0x75 ∷ 0x73 ∷ [])
    ∷ (0x63 ∷ 0x72 ∷ 0x61 ∷ 0x73 ∷ 0x68 ∷ [])
    ∷ (0x66 ∷ 0x6F ∷ 0x6E ∷ 0x74 ∷ [])
    ∷ []

-- What `run_command` does: nothing, the command of that number, or the message.
pub data Ran : Type 0 where
  nothing : Ran
  ran : ℕ → Ran
  not_found : Ran

unfoldable pub find_command : List (List ℕ) → ℕ → List ℕ → Ran
find_command [] i name = not_found
find_command (c ∷ table) i name =
    let rest = find_command table (i + 1) name in if strcmp name c == 0 then ran i else rest

unfoldable pub run_command : Option (ℕ × List (List ℕ)) → Ran
run_command none = nothing
run_command (some (argc, argv)) =
    let found = find_command commands 0 (get_or argv 0 []) in
    if argc == 0 || length argv == 0 then nothing else found

-- The part of `parse_and_run` before the screen is set for the next line.
unfoldable pub parse_and_run :
    ℕ → (ℕ → Bool) → (ℕ → List ℕ → List ℕ) → Input → History → Option (History × Input × Ran)
parse_and_run fuel memory grow i h = elim (parse_input fuel memory grow i h) [
  | none ↦ none
  | some (h', i', r) ↦ some (record h' { history_position = 0 }, i', run_command r)
]
