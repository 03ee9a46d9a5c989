-- ===== src/Song/Tokens.antt =====
-- src/orpheus.c: `tokenize_song` finds the words of a song.
use pygmali_os.Base.{
  ℕ, zero, suc, ◌+◌, ◌≤◌, ◌<◌, ◌≡◌, ◌∙◌, refl, ap, arith, Bool, true, false, List, [], ◌∷◌, ◌++◌,
  ◌==◌, set, replicate, length,
}
use pygmali_os.Base.{Option, none, some, length-append, append_assoc, append-nil}
use pygmali_os.Split.{
  here, skip, run, All, skip-All, skip-stops, run-stops, skip-word, spread, words, IsSpread,
}
use pygmali_os.Song.{is_blank, is_letter, count_words, copy_words, tokenize_song}

letter-blank : (c : ℕ) → is_letter c ≡ true → is_blank c ≡ false
letter-blank c h = ground arith

letter-nonzero : (c : ℕ) → is_letter c ≡ true → (c == 0) ≡ false
letter-nonzero c h = ground arith

blank-nonzero :
    (gap r : List ℕ) → All is_blank gap → is_letter (here r) ≡ true → (here (gap ++ r) == 0) ≡ false
blank-nonzero [] r a h = letter-nonzero (here r) h
blank-nonzero (c ∷ gap) r a h = ground (arith, a.0)

-- A round that meets blanks and then the end comes to the end.
end-skip :
    (s rest : List ℕ)
    → All is_blank s
    → here rest ≡ 0
    → (skip is_blank (s ++ rest) ≡ rest) × (run is_letter rest ≡ []) × (skip is_letter rest ≡ rest)
end-skip s rest a h = (
  skip-All is_blank s rest a (rw h refl),
  run-stops is_letter rest (rw h refl),
  skip-stops is_letter rest (rw h refl),
)

count_words-end :
    (fuel : ℕ) (s rest : List ℕ) (n : ℕ)
    → All is_blank s
    → here rest ≡ 0
    → 2 ≤ fuel
    → count_words fuel (s ++ rest) n ≡ some n
unfolding count_words
count_words-end zero s rest n a h f = absurd (omega arith)
count_words-end (suc zero) s rest n a h f = absurd (omega arith)
count_words-end (suc (suc fuel)) [] rest n a h f = rw h refl
count_words-end (suc (suc fuel)) (c ∷ s) rest n a h f =
    let (gone, none_left, same) = end-skip (c ∷ s) rest a h in
    let blank : (c == 0) ≡ false = ground (arith, a.0) in rw (gone, same, h, blank) refl

count_words-words :
    (l : List (List ℕ × List ℕ)) (fuel : ℕ) (end : List ℕ) (n : ℕ)
    → IsSpread is_blank is_letter l end
    → length l + 2 ≤ fuel
    → count_words fuel (spread l end) n ≡ some (n + length l)
unfolding count_words
count_words-words [] fuel end n (s, rest, a, e, h) f =
    let same : n + 0 ≡ n = omega arith in rw (e, same) (count_words-end fuel s rest n a h f)
count_words-words ((gap, word) ∷ l) zero end n v f = absurd (omega arith)
count_words-words ((gap, word) ∷ l) (suc fuel) end n (g, w, h, v) f =
    let (gone, letter, taken, left) =
      skip-word is_blank is_letter gap word (spread l end) letter-blank g w.0 w.1 h in
    let more : (here (gap ++ (word ++ spread l end)) == 0) ≡ false =
      blank-nonzero gap (word ++ spread l end) g letter in
    let at_word : (here (word ++ spread l end) == 0) ≡ false =
      letter-nonzero (here (word ++ spread l end)) letter in
    let sum : n + suc (length l) ≡ n + 1 + length l = omega arith in
    rw (more, gone, left, at_word, sum) (count_words-words l fuel end (n + 1) v (omega arith))

-- The array after some of its places are set.
abbrev pub array : List (List ℕ) → ℕ → List (Option (List ℕ))
array [] n = replicate n none
array (w ∷ ws) n = some w ∷ array ws n

set-array :
    (ws : List (List ℕ)) (n : ℕ) (w : List ℕ)
    → set (array ws (suc n)) (length ws) (some w) ≡ array (ws ++ w ∷ []) n
set-array [] n w = refl
set-array (v ∷ ws) n w = ap (some v ∷◌) (set-array ws n w)

copy_words-end :
    (fuel : ℕ) (memory : ℕ → Bool) (s rest : List ℕ) (n : ℕ) (arr : List (Option (List ℕ)))
    → All is_blank s
    → here rest ≡ 0
    → 2 ≤ fuel
    → copy_words fuel memory (s ++ rest) n arr ≡ some (some arr)
unfolding copy_words
copy_words-end zero memory s rest n arr a h f = absurd (omega arith)
copy_words-end (suc zero) memory s rest n arr a h f = absurd (omega arith)
copy_words-end (suc (suc fuel)) memory [] rest n arr a h f = rw h refl
copy_words-end (suc (suc fuel)) memory (c ∷ s) rest n arr a h f =
    let (gone, none_left, same) = end-skip (c ∷ s) rest a h in
    let blank : (c == 0) ≡ false = ground (arith, a.0) in rw (gone, same, none_left, h, blank) refl

copy_words-words :
    (l : List (List ℕ × List ℕ)) (fuel : ℕ) (memory : ℕ → Bool) (end : List ℕ) (ws : List (List ℕ))
    → IsSpread is_blank is_letter l end
    → ((i : ℕ) → i < length ws + length l → memory i ≡ true)
    → length l + 2 ≤ fuel
    → copy_words fuel memory (spread l end) (length ws) (array ws (length l + 1))
      ≡ some (some (array (ws ++ words l) 1))
unfolding copy_words
copy_words-words [] fuel memory end ws (s, rest, a, e, h) m f =
    rw (e, append-nil ws) (copy_words-end fuel memory s rest (length ws) (array ws 1) a h f)
copy_words-words ((gap, word) ∷ l) zero memory end ws v m f = absurd (omega arith)
copy_words-words ((gap, word) ∷ l) (suc fuel) memory end ws (g, w, h, v) m f =
    let (gone, letter, taken, left) =
      skip-word is_blank is_letter gap word (spread l end) letter-blank g w.0 w.1 h in
    let more : (here (gap ++ (word ++ spread l end)) == 0) ≡ false =
      blank-nonzero gap (word ++ spread l end) g letter in
    let filled : (length word == 0) ≡ false = ground (arith, w.1) in
    let count : length ws + 1 ≡ length (ws ++ word ∷ []) =
      omega (arith, length-append ws (word ∷ [])) in
    let places : suc (length l) + 1 ≡ suc (length l + 1) = omega arith in
    rw
      (
        more,
        gone,
        left,
        taken,
        filled,
        m (length ws) (omega arith),
        places,
        set-array ws (length l + 1) word,
        count,
      )
      (copy_words-words l fuel memory end (ws ++ word ∷ []) v (λ i b. m i (omega (arith, count)))
          (omega arith)
        ∙ ap (λ (t : List (List ℕ)). some (some (array t 1)))
            (append_assoc ws (word ∷ []) (words l)))

-- The words of a song come out in their order, each in its own place of an array that is as long as
-- they and the NULL behind them need. The song is written as its words with the gaps of blanks,
-- tabs and newlines around them, memory is enough, and the fuel is the number of words and two more.
pub tokenize_song-words :
    (l : List (List ℕ × List ℕ)) (fuel : ℕ) (memory : ℕ → Bool) (end : List ℕ)
    → IsSpread is_blank is_letter l end
    → ((i : ℕ) → i < length l → memory i ≡ true)
    → length l + 2 ≤ fuel
    → tokenize_song fuel true memory (spread l end) ≡ some (some (array (words l) 1))
unfolding tokenize_song
tokenize_song-words l fuel memory end v m f =
    let count : 0 + length l ≡ length l = omega arith in
    rw (tokenize_song, count_words-words l fuel end 0 v f, count)
      (copy_words-words l fuel memory end [] v (λ i b. m i (omega arith)) f)
