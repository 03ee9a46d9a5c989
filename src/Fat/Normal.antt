-- ===== src/Fat/Normal.antt =====
-- src/fatparser.c: what `normalize_path` makes of an absolute path.
use pygmali_os.Base.{
  ℕ, ◌+◌, set, ◌≤◌, ◌<◌, ◌≡◌, ◌∙◌, inl, inr, refl, sym, ap, arith, true, false, List, [], ◌∷◌, ◌==◌,
  if◌then◌else◌, get_or, length, Bool-cases,
}
use pygmali_os.Base.{get_or-set, get_or_past, some}
use pygmali_os.Split.{here, spread, words, IsSpread}
use pygmali_os.Fat.Names.{slash}
use pygmali_os.Fat.Paths.{no_slash, is_slash, join_segments, normalize_path}
use pygmali_os.Fat.InPlace.{
  Copied, set-Copied, absolute, Placed-room, nothing-Copied, join_segments-Copied,
}
use pygmali_os.Fat.Parts.{AllSegments, AllWords, resolve, resolve-AllSegments, find_segments-Found}

IsSpread-AllWords :
    (l : List (List ℕ × List ℕ)) (end : List ℕ)
    → IsSpread is_slash no_slash l end
    → AllWords (words l)
IsSpread-AllWords [] end v = tt
IsSpread-AllWords ((gap, word) ∷ l) end (g, w, h, v) = (w.1, w.0, IsSpread-AllWords l end v)

-- What is written at the beginning of the bytes, with a zero byte behind it.
abbrev pub Holds : List ℕ → List ℕ → Type 0
Holds bytes text = (i : ℕ) → i ≤ length text → get_or bytes i 0 ≡ get_or text i 0

ended :
    (path out : List ℕ) (at : ℕ × List ℕ)
    → Copied path out at
    → length out < length path
    → Holds (set at.1 at.0 0) out
ended path out at h l i k =
    get_or-set at.1 at.0 i 0 0 (omega (arith, h.size, h.end)) ∙ elim (Bool-cases (i == at.0)) [
      | inl e ↦ rw e (sym (get_or_past out i 0 (ground (arith, h.end))))
      | inr e ↦ rw e (h.front i (ground (arith, h.end)))
    ]

-- A path that begins with a slash is written over itself and becomes the segments that are left of its
-- parts, each behind one slash, or a single slash if none is left, with a zero byte behind; no segment
-- of the result is empty, `.` or `..` or has a slash. The path is written as its parts, 64 at most, with
-- the slashes around them and a byte more behind, and the fuel is more than their number and one.
pub normalize_path-resolve :
    (l : List (List ℕ × List ℕ)) (fuel : ℕ) (end : List ℕ)
    → IsSpread is_slash no_slash l end
    → here (spread l end) ≡ slash
    → 1 ≤ length end
    → 2 ≤ length (spread l end)
    → length l ≤ 64
    → length l + 1 < fuel
    → let segments = resolve (words l) [] in
      (bytes : List ℕ) × (normalize_path fuel (spread l end) ≡ some bytes)
      × Holds bytes (if length segments == 0 then slash ∷ [] else absolute segments)
      × AllSegments segments
unfolding normalize_path
normalize_path-resolve l fuel end v from z two b f =
    let path = spread l end in
    let segments = resolve (words l) [] in
    let stop : no_slash (here path) ≡ false = ground arith in
    let (segs, found, placed, count) =
      find_segments-Found path l fuel 0 end [] [] v z stop
        (λ j. ap (λ i. get_or path i 0) (omega arith)) (omega arith)
        (record { placed = tt; count = refl; room = omega arith }) (omega arith) f in
    let rooted = set-Copied path [] path 0 slash (nothing-Copied path) (omega arith) in
    let all = resolve-AllSegments (words l) [] (IsSpread-AllWords l end v) tt in
    elim (Bool-cases (length segments == 0)) [
      | inl e ↦
          let none_left : (length segs == 0) ≡ true = ground arith in
          (
            set (set path 0 slash) 1 0,
            rw (normalize_path, found, none_left) refl,
            rw e (ended path (slash ∷ []) (1, set path 0 slash) rooted (omega arith)),
            all,
          )
      | inr e ↦
          let some_left : (length segs == 0) ≡ false = ground arith in
          let written = join_segments segs (0, path) in
          (
            set written.1 written.0 0,
            rw (normalize_path, found, some_left) refl,
            rw e (
                ended path (absolute segments) written
                  (join_segments-Copied path segs segments placed)
                  (Placed-room path segs segments placed (ground arith))),
            all,
          )
    ]
