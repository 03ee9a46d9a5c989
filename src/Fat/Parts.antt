-- ===== src/Fat/Parts.antt =====
-- src/fatparser.c: the segments that `normalize_path` finds in a path.
use pygmali_os.Base.{
  ℕ, zero, suc, ◌+◌, ◌-◌, ◌≤◌, ◌<◌, ◌≡◌, ◌∙◌, inl, inr, refl, sym, ap, arith, true, false, ◌&&◌,
  List, [], ◌∷◌, ◌++◌, ◌==◌, leb, if◌then◌else◌, get_or, drop, length, Bool-cases,
}
use pygmali_os.Base.{Option, length-append, some, length-drop}
use pygmali_os.Split.{here, skip, All, skip-All, skip-word, spread, words, IsSpread}
use pygmali_os.Fat.Names.{dot, slash}
use pygmali_os.Fat.Paths.{no_slash, is_slash, find_segments}
use pygmali_os.Fat.InPlace.{Reads, Reads-behind, absolute, Placed}

-- A segment that stays: it has bytes, none of them a slash, and is neither one nor two periods.
abbrev pub IsSegment : List ℕ → Type 0
IsSegment w =
    (1 ≤ length w)
    × All no_slash w
    × ((length w == 1 && get_or w 0 0 == dot) ≡ false)
    × ((length w == 2 && get_or w 0 0 == dot && get_or w 1 0 == dot) ≡ false)

abbrev pub AllSegments : List (List ℕ) → Type 0
AllSegments [] = Unit
AllSegments (w ∷ ws) = IsSegment w × AllSegments ws

abbrev pub AllWords : List (List ℕ) → Type 0
AllWords [] = Unit
AllWords (w ∷ ws) = (1 ≤ length w) × All no_slash w × AllWords ws

-- What is left when one part more is read.
abbrev pub step : List (List ℕ) → List ℕ → List (List ℕ)
step segments w =
    if length w == 1 && get_or w 0 0 == dot
    then segments
    else if length w == 2 && get_or w 0 0 == dot && get_or w 1 0 == dot
    then drop 1 segments
    else w ∷ segments

-- The segments that are left, the last one first: `.` goes, and `..` takes the one before it along.
abbrev pub resolve : List (List ℕ) → List (List ℕ) → List (List ℕ)
resolve [] segments = segments
resolve (w ∷ ws) segments = resolve ws (step segments w)

length-step :
    (segments : List (List ℕ)) (w : List ℕ) → length (step segments w) ≤ length segments + 1
length-step segments w = elim (Bool-cases (length w == 1 && get_or w 0 0 == dot)) [
  | inl e ↦ rw e (omega arith)
  | inr e ↦ elim (Bool-cases (length w == 2 && get_or w 0 0 == dot && get_or w 1 0 == dot)) [
    | inl k ↦ rw (e, k) (omega (arith, length-drop 1 segments))
    | inr k ↦ rw (e, k) (omega arith)
  ]
]

slash-apart : (c : ℕ) → no_slash c ≡ true → is_slash c ≡ false
slash-apart c h = ground arith

slash-nonzero :
    (gap r : List ℕ) → All is_slash gap → no_slash (here r) ≡ true → (here (gap ++ r) == 0) ≡ false
slash-nonzero [] r a h = ground arith
slash-nonzero (c ∷ gap) r a h = ground (arith, a.0)

drop-AllSegments : (ws : List (List ℕ)) → AllSegments ws → AllSegments (drop 1 ws)
drop-AllSegments [] a = tt
drop-AllSegments (w ∷ ws) a = a.1

-- One word more: the segments are still segments, and one more at most.
pub resolve-AllSegments :
    (ws segments : List (List ℕ))
    → AllWords ws
    → AllSegments segments
    → AllSegments (resolve ws segments)
resolve-AllSegments [] segments h a = a
resolve-AllSegments (w ∷ ws) segments h a =
    elim (Bool-cases (length w == 1 && get_or w 0 0 == dot)) [
      | inl e ↦ rw e (resolve-AllSegments ws segments h.2 a)
      | inr e ↦ elim (Bool-cases (length w == 2 && get_or w 0 0 == dot && get_or w 1 0 == dot)) [
        | inl k ↦
            rw (e, k) (resolve-AllSegments ws (drop 1 segments) h.2 (drop-AllSegments segments a))
        | inr k ↦ rw (e, k) (resolve-AllSegments ws (w ∷ segments) h.2 ((h.0, h.1, e, k), a))
      ]
    ]

length-absolute :
    (w : List ℕ) (ws : List (List ℕ))
    → length (absolute (w ∷ ws)) ≡ length (absolute ws) + 1 + length w
length-absolute w ws = omega (arith, length-append (absolute ws) (slash ∷ w))

length-spread : (l : List (List ℕ × List ℕ)) (end : List ℕ) → length end ≤ length (spread l end)
length-spread [] end = omega arith
length-spread ((gap, word) ∷ l) end = omega (
  arith,
  length-append gap (word ++ spread l end),
  length-append word (spread l end),
  length-spread l end,
)

-- The places of as many segments, and room for what they are written as up to a place.
pub record AreAt (path : List ℕ) (segs : List ℕ) (ws : List (List ℕ)) (place : ℕ) : Type 0 where
  pub placed : Placed path segs ws
  pub count : length segs ≡ length ws
  pub room : length (absolute ws) ≤ place

drop-AreAt :
    (path segs : List ℕ) (ws : List (List ℕ)) (place : ℕ)
    → AreAt path segs ws place
    → AreAt path (drop 1 segs) (drop 1 ws) place
drop-AreAt path [] [] place a = a
drop-AreAt path [] (w ∷ ws) place a = absurd a.placed
drop-AreAt path (seg ∷ segs) [] place a = absurd a.placed
drop-AreAt path (seg ∷ segs) (w ∷ ws) place a = record {
  placed = a.placed.1;
  count = omega (arith, a.count);
  room = omega (arith, a.room, length-absolute w ws);
}

later-AreAt :
    {path segs : List ℕ} {ws : List (List ℕ)} {place later : ℕ}
    → place ≤ later
    → AreAt path segs ws place
    → AreAt path segs ws later
later-AreAt l a = record { placed = a.placed; count = a.count; room = omega (arith, a.room) }

abbrev step_at : ℕ → List ℕ → List ℕ → List ℕ
step_at seg segs w =
    if length w == 1 && get_or w 0 0 == dot
    then segs
    else if length w == 2 && get_or w 0 0 == dot && get_or w 1 0 == dot
    then drop 1 segs
    else seg ∷ segs

-- One part more, behind a slash.
step-AreAt :
    (path segs rest : List ℕ) (ws : List (List ℕ)) (place seg : ℕ) (w : List ℕ)
    → AreAt path segs ws place
    → place < seg
    → All no_slash w
    → no_slash (here rest) ≡ false
    → Reads path seg (w ++ rest)
    → seg + length w < length path
    → AreAt path (step_at seg segs w) (step ws w) (seg + length w)
step-AreAt path segs rest ws place seg w a l letters stop reads k =
    elim (Bool-cases (length w == 1 && get_or w 0 0 == dot)) [
      | inl e ↦ rw e (later-AreAt (omega arith) a)
      | inr e ↦ elim (Bool-cases (length w == 2 && get_or w 0 0 == dot && get_or w 1 0 == dot)) [
        | inl d ↦ rw (e, d) (drop-AreAt path segs ws _ (later-AreAt (omega arith) a))
        | inr d ↦
            rw (e, d)
              record {
                placed = ((rest, letters, stop, reads, omega (arith, a.room), k), a.placed);
                count = omega (arith, a.count);
                room = omega (arith, a.room, length-absolute w ws);
              }
      ]
    ]

-- A gap before a word, where no word can go on, has a slash.
gap-length :
    (gap r : List ℕ)
    → no_slash (here (gap ++ r)) ≡ false
    → no_slash (here r) ≡ true
    → 1 ≤ length gap
gap-length [] r h k = let clash : true ≡ false = sym k ∙ h in absurd (cc)
gap-length (c ∷ gap) r h k = omega arith

abbrev pub Found : List ℕ → List (List ℕ) → Option (List ℕ) → Type 0
Found path ws result =
    (segs : List ℕ) × (result ≡ some segs) × Placed path segs ws × (length segs ≡ length ws)

pub find_segments-Found :
    (path : List ℕ) (l : List (List ℕ × List ℕ)) (fuel place : ℕ) (end : List ℕ) (segs : List ℕ)
    (ws : List (List ℕ))
    → IsSpread is_slash no_slash l end
    → 1 ≤ length end
    → no_slash (here (spread l end)) ≡ false
    → Reads path place (spread l end)
    → place + length (spread l end) ≡ length path
    → AreAt path segs ws place
    → length ws + length l ≤ 64
    → length l + 1 < fuel
    → Found path (resolve (words l) ws) (find_segments fuel (length path) (spread l end) segs)
unfolding find_segments
find_segments-Found path l zero place end segs ws v z from reads size a b f = absurd (omega arith)
find_segments-Found path [] (suc fuel) place end segs ws (s, rest, t, e, h) z from reads size a b
      f =
    let gone : skip is_slash (s ++ rest) ≡ rest = skip-All is_slash s rest t (rw h refl) in
    elim (Bool-cases (here end == 0)) [
      | inl y ↦ (segs, rw y refl, a.placed, a.count)
      | inr y ↦ (segs, rw (y, ap (skip is_slash) e ∙ gone, h) refl, a.placed, a.count)
    ]
find_segments-Found path ((gap, word) ∷ l) (suc fuel) place end segs ws (g, w, h, v) z from reads
      size a b f =
    let rest = spread l end in
    let (gone, letter, taken, left) =
      skip-word is_slash no_slash gap word rest slash-apart g w.0 w.1 h in
    let more : (here (gap ++ (word ++ rest)) == 0) ≡ false =
      slash-nonzero gap (word ++ rest) g letter in
    let at_word : (here (word ++ rest) == 0) ≡ false = ground arith in
    let room : leb 64 (length segs) ≡ false = ground (arith, a.count) in
    let whole = length-append gap (word ++ rest) in
    let part = length-append word rest in
    let some_end = length-spread l end in
    let seg = place + length gap in
    let at : length path - length (word ++ rest) ≡ seg = omega arith in
    let behind_gap : Reads path seg (word ++ rest) =
      Reads-behind path place gap (word ++ rest) reads in
    let (segs', found, placed, count) =
      find_segments-Found path l fuel (seg + length word) end (step_at seg segs word) (step ws word)
        v z h (Reads-behind path seg word rest behind_gap) (omega arith)
        (step-AreAt path segs rest ws place seg word a
          (omega (arith, gap-length gap (word ++ rest) from letter)) w.0 h behind_gap (omega arith))
        (omega (arith, length-step ws word)) (omega arith) in
    let same : find_segments fuel (length path) rest
          (step_at (length path - length (word ++ rest)) segs word)
        ≡ some segs' =
      ap (λ p. find_segments fuel (length path) rest (step_at p segs word)) at ∙ found in
    (segs', rw (more, gone, taken, left, at_word, room) same, placed, count)
