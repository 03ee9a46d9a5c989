-- ===== src/Split.antt =====
-- The loops that src/inputhandler.c and src/orpheus.c use to cut a text into its words. A text is
-- the list of its bytes from the place on that the loop has come to; behind it is a zero byte.
use pygmali_os.Base.{
  ℕ, ◌≤◌, ◌≡◌, refl, ap, arith, Bool, true, false, List, [], ◌∷◌, ◌++◌, if◌then◌else◌, get_or,
  length,
}

-- The byte at the place the loop has come to.
abbrev pub here : List ℕ → ℕ
here s = get_or s 0 0

-- `while (p(*s)) s++;`
unfoldable pub skip : (ℕ → Bool) → List ℕ → List ℕ
skip p [] = []
skip p (c ∷ s) = let rest = skip p s in if p c then rest else c ∷ s

-- The bytes that the loop passes.
unfoldable pub run : (ℕ → Bool) → List ℕ → List ℕ
run p [] = []
run p (c ∷ s) = let rest = run p s in if p c then c ∷ rest else []

abbrev pub All : (ℕ → Bool) → List ℕ → Type 0
All p [] = Unit
All p (c ∷ s) = (p c ≡ true) × All p s

pub skip-stops : (p : ℕ → Bool) (s : List ℕ) → p (here s) ≡ false → skip p s ≡ s
unfolding skip
skip-stops p [] h = refl
skip-stops p (c ∷ s) h = rw h refl

pub skip-All : (p : ℕ → Bool) (w r : List ℕ) → All p w → p (here r) ≡ false → skip p (w ++ r) ≡ r
unfolding skip
skip-All p [] r a h = skip-stops p r h
skip-All p (c ∷ w) r a h = rw a.0 (skip-All p w r a.1 h)

pub run-stops : (p : ℕ → Bool) (s : List ℕ) → p (here s) ≡ false → run p s ≡ []
unfolding run
run-stops p [] h = refl
run-stops p (c ∷ s) h = rw h refl

pub run-All : (p : ℕ → Bool) (w r : List ℕ) → All p w → p (here r) ≡ false → run p (w ++ r) ≡ w
unfolding run
run-All p [] r a h = run-stops p r h
run-All p (c ∷ w) r a h = rw a.0 (ap (c ∷◌) (run-All p w r a.1 h))

-- A text written as its words, each with the gap before it, and what stands behind the last one.
abbrev pub spread : List (List ℕ × List ℕ) → List ℕ → List ℕ
spread [] end = end
spread ((gap, word) ∷ l) end = gap ++ (word ++ spread l end)

abbrev pub words : List (List ℕ × List ℕ) → List (List ℕ)
words [] = []
words ((gap, word) ∷ l) = word ∷ words l

-- The gaps are blank, the words are of letters and not empty, and between two of them the gap is
-- not empty; behind them there are blanks, then a zero byte or the end of the bytes.
abbrev pub IsSpread : (ℕ → Bool) → (ℕ → Bool) → List (List ℕ × List ℕ) → List ℕ → Type 0
IsSpread blank letter [] end =
    (tail : List ℕ) × (rest : List ℕ) × All blank tail × (end ≡ tail ++ rest) × (here rest ≡ 0)
IsSpread blank letter ((gap, word) ∷ l) end =
    All blank gap
    × (All letter word × (1 ≤ length word))
    × (letter (here (spread l end)) ≡ false)
    × IsSpread blank letter l end

-- What a round of the loop over the words meets at a word: the gap goes, then the word.
pub skip-word :
    (blank letter : ℕ → Bool) (gap word r : List ℕ)
    → ((c : ℕ) → letter c ≡ true → blank c ≡ false)
    → All blank gap
    → All letter word
    → 1 ≤ length word
    → letter (here r) ≡ false
    → (skip blank (gap ++ (word ++ r)) ≡ word ++ r)
      × (letter (here (word ++ r)) ≡ true)
      × (run letter (word ++ r) ≡ word)
      × (skip letter (word ++ r) ≡ r)
skip-word blank letter gap [] r apart g w l h = absurd (omega arith)
skip-word blank letter gap (c ∷ word) r apart g w l h = (
  skip-All blank gap (c ∷ word ++ r) g (apart c w.0),
  w.0,
  run-All letter (c ∷ word) r w h,
  skip-All letter (c ∷ word) r w h,
)
