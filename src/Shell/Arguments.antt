-- ===== src/Shell/Arguments.antt =====
-- src/inputhandler.c: `parse_input` finds the words of the line.
use pygmali_os.Base.{
  ℕ, zero, suc, ◌+◌, ◌*◌, ◌<◌, ◌≡◌, ◌∙◌, refl, ap, arith, Bool, true, false, List, [], ◌∷◌, ◌++◌,
  ◌==◌, ltb, length,
}
use pygmali_os.Base.{some, u8, length-append, append_assoc, append-nil}
use pygmali_os.Split.{here, skip, skip-All, skip-word, spread, words, IsSpread}
use pygmali_os.Shell.{
  is_space, is_letter, place, parse_words, parse_input, Input, History, store_prev_inputs, cleared,
}

letter-space : (c : ℕ) → is_letter c ≡ true → is_space c ≡ false
letter-space c h = ground arith

letter-nonzero : (c : ℕ) → is_letter c ≡ true → (c == 0) ≡ false
letter-nonzero c h = ground arith

place-next : (argv : List (List ℕ)) (arg : List ℕ) → place argv (length argv) arg ≡ argv ++ arg ∷ []
place-next argv arg = let no : ltb (length argv) (length argv) ≡ false = ground arith in rw no refl

parse_words-words :
    (l : List (List ℕ × List ℕ)) (fuel : ℕ) (memory : ℕ → Bool) (k : ℕ) (end : List ℕ)
    (argv : List (List ℕ))
    → IsSpread is_space is_letter l end
    → ((i : ℕ) → memory i ≡ true)
    → length argv + length l < 256
    → length l < fuel
    → parse_words fuel memory k (spread l end) (length argv) argv
      ≡ some (some (length argv + length l, argv ++ words l))
unfolding parse_words
parse_words-words l zero memory k end argv v m b f = absurd (omega arith)
parse_words-words [] (suc fuel) memory k end argv (s, rest, a, e, h) m b f =
    let gone : skip is_space (s ++ rest) ≡ rest = skip-All is_space s rest a (rw h refl) in
    let same : length argv + 0 ≡ length argv = omega arith in
    rw (e, gone, h, same, append-nil argv) refl
parse_words-words ((gap, word) ∷ l) (suc fuel) memory k end argv (g, w, h, v) m b f =
    let (gone, letter, taken, left) =
      skip-word is_space is_letter gap word (spread l end) letter-space g w.0 w.1 h in
    let more : (here (word ++ spread l end) == 0) ≡ false =
      letter-nonzero (here (word ++ spread l end)) letter in
    let count : length (argv ++ word ∷ []) ≡ length argv + 1 = length-append argv (word ∷ []) in
    let next : u8 (length argv + 1) ≡ length (argv ++ word ∷ []) = omega (arith, count) in
    let sum : length argv + suc (length l) ≡ length (argv ++ word ∷ []) + length l =
      omega (arith, count) in
    rw (gone, more, taken, left, m (2 * k), m (2 * k + 1), next, place-next argv word, sum)
      (parse_words-words l fuel memory (k + 1) end (argv ++ word ∷ []) v m (omega (arith, count))
          (omega arith)
        ∙ ap (λ (t : List (List ℕ)). some (some (length (argv ++ word ∷ []) + length l, t)))
            (append_assoc argv (word ∷ []) (words l)))

-- A line is cut into its words, in their order, and the input is cleared; what the history then holds
-- is not stated. The line is written as at most 255 words with the gaps of blanks around them, memory
-- is enough, and the fuel is more than the number of the words.
pub parse_input-words :
    (l : List (List ℕ × List ℕ)) (fuel : ℕ) (memory : ℕ → Bool) (grow : ℕ → List ℕ → List ℕ)
    (end : List ℕ) (i : Input) (h : History)
    → i.input_buffer ≡ spread l end
    → IsSpread is_space is_letter l end
    → ((j : ℕ) → memory j ≡ true)
    → length l < 256
    → length l < fuel
    → (h' : History) × (parse_input fuel memory grow i h
        ≡ some (h', cleared, some (length l, words l)))
unfolding parse_input
parse_input-words l fuel memory grow end i h e v m b f =
    let zero_more : 0 + length l ≡ length l = omega arith in
    let cut : parse_words fuel memory 0 i.input_buffer 0 [] ≡ some (some (length l, words l)) =
      ap (λ s. parse_words fuel memory 0 s 0 []) e
      ∙ (parse_words-words l fuel memory 0 end [] v m (omega arith) f ∙ rw zero_more refl) in
    (store_prev_inputs grow i.input_buffer h, rw (parse_input, cut) refl)
