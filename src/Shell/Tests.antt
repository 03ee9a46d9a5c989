-- ===== src/Shell/Tests.antt =====
-- The shell's line, its words and its history on small inputs.
use pygmali_os.Base.{ℕ, ◌≡◌, refl, arith, true, List, [], ◌∷◌, replicate}
use pygmali_os.Base.{none, some, length-replicate}
use pygmali_os.CString.{strcmp, memmove, move_up, move_down}
use pygmali_os.Split.{spread, words, IsSpread}
use pygmali_os.Base.Texts.{zeros}
use pygmali_os.Shell.{
  is_space, is_letter, Input, History, cleared, remove_from_input_buffer, parse_input, ran,
  find_command, run_command,
}
use pygmali_os.Shell.Arguments.{parse_input-words}
use pygmali_os.Shell.Line.{IsInput}
use pygmali_os.Shell.Past.{IsHistory}

-- `cd  b`
abbrev two_words : List (List ℕ × List ℕ)
two_words = ([], 0x63 ∷ 0x64 ∷ []) ∷ (0x20 ∷ 0x20 ∷ [], 0x62 ∷ []) ∷ []

two_words-IsSpread : IsSpread is_space is_letter two_words (0 ∷ [])
two_words-IsSpread = (
  tt,
  ((refl, (refl, tt)), omega arith),
  refl,
  ((refl, (refl, tt)), ((refl, tt), omega arith), refl, ([], 0 ∷ [], tt, refl, refl)),
)

abbrev typed : Input
typed = record { input_buffer = spread two_words (0 ∷ []); input_len = 5; input_pos = 5 }

abbrev empty_history : History
empty_history = record {
  historybuffersize = 4096;
  previous_inputs = replicate 1024 0;
  history_position = 0;
  history_current_size = 0;
}

abbrev same_bytes : ℕ → List ℕ → List ℕ
same_bytes n l = l

parse_input-words_example :
    (h' : History) × (parse_input 3 (λ j. true) same_bytes typed empty_history
      ≡ some (h', cleared, some (2, words two_words)))
parse_input-words_example =
    parse_input-words two_words 3 (λ j. true) same_bytes (0 ∷ []) typed empty_history refl
      two_words-IsSpread (λ j. refl) (omega arith) (omega arith)

-- `cd` is the eighth command.
eighth : run_command (some (2, words two_words)) ≡ ran 7
unfolding run_command find_command strcmp
eighth = refl

cleared-IsInput : IsInput cleared
cleared-IsInput = record {
  size = length-replicate {A = ℕ} 1024 0;
  room = omega arith;
  cursor = omega arith;
  ended = zeros 1024 0;
}

-- Of `abc` with the cursor before `c`, erasing leaves `bb` instead of `ac`.
erased_wrong :
    remove_from_input_buffer
      (record { input_buffer = 0x61 ∷ 0x62 ∷ 0x63 ∷ 0 ∷ []; input_len = 3; input_pos = 2 })
    ≡ some (record { input_buffer = 0x62 ∷ 0x62 ∷ 0 ∷ 0 ∷ []; input_len = 2; input_pos = 1 })
unfolding remove_from_input_buffer memmove move_up move_down
erased_wrong = refl

-- With the cursor behind the first of two characters, erasing writes before the buffer.
erased_outside :
    remove_from_input_buffer
      (record { input_buffer = 0x61 ∷ 0x62 ∷ 0 ∷ []; input_len = 2; input_pos = 1 })
    ≡ none
unfolding remove_from_input_buffer
erased_outside = refl

empty-IsHistory : IsHistory empty_history []
empty-IsHistory = record {
  block = omega (arith, length-replicate {A = ℕ} 1024 0);
  room = omega arith;
  size = refl;
  bound = omega arith;
  visible = tt;
  bytes = λ i l. absurd (omega arith);
}
