-- ===== src/Fat/ShortNames/Pick.antt =====
-- src/fatparser.c: filename_to_plaintext on an entry that holds a name.
use pygmali_os.Base.{
  ℕ, zero, suc, ◌+◌, ◌-◌, ◌≤◌, ◌<◌, ◌≡◌, ◌∙◌, refl, ap, arith, true, false, List, [], ◌∷◌, ◌++◌,
  ◌==◌, if◌then◌else◌, get_or, length,
}
use pygmali_os.Base.{some, append_assoc, append-nil}
use pygmali_os.Fat.Names.{space, dot, pick, filename_to_plaintext}
use pygmali_os.Fat.ShortNames.Places.{At, AllPlain, plain_text}

-- The entry of a name: both parts stand at their places, and blanks fill the rest.
pub record IsEntry (fat name ext : List ℕ) : Type 0 where
  pub size : length fat ≡ 11
  pub name_at : At fat 0 name
  pub ext_at : At fat 8 ext
  pub name_blanks : (j : ℕ) → length name ≤ j → j < 8 → get_or fat j 0 ≡ space
  pub ext_blanks : (j : ℕ) → 8 + length ext ≤ j → j < 11 → get_or fat j 0 ≡ space

pub pick-plain :
    (s : List ℕ) (n i : ℕ) (f out : List ℕ)
    → At f i s
    → AllPlain s
    → pick (length s + n) i f out ≡ pick n (i + length s) f (out ++ s)
unfolding pick
pick-plain [] n i f out a w =
    let e : 0 + n ≡ n = omega arith in
    let k : i + 0 ≡ i = omega arith in rw (e, k, append-nil out) refl
pick-plain (c ∷ s) n i f out a w =
    let e : suc (length s) + n ≡ suc (length s + n) = omega arith in
    let k : i + suc (length s) ≡ i + 1 + length s = omega arith in
    let plain : (c == space) ≡ false = ground (arith, w.1) in
    let next : (if get_or f i 0 == space then out else out ++ get_or f i 0 ∷ []) ≡ out ++ c ∷ [] =
      rw (a.0, plain) refl in
    rw (e, k)
      (ap (pick (length s + n) (i + 1) f) next
        ∙ (pick-plain s n (i + 1) f (out ++ c ∷ []) a.1 w.3
            ∙ ap (pick n (i + 1 + length s) f) (append_assoc out (c ∷ []) s)))

pub pick-blanks :
    (n i : ℕ) (f out : List ℕ)
    → ((j : ℕ) → i ≤ j → j < i + n → get_or f j 0 ≡ space)
    → pick n i f out ≡ out
unfolding pick
pick-blanks zero i f out b = refl
pick-blanks (suc n) i f out b =
    let blank : (get_or f i 0 == space) ≡ true = ground (arith, b i (omega arith) (omega arith)) in
    rw blank (pick-blanks n (i + 1) f out (λ j l h. b j (omega arith) (omega arith)))

pub pick-part :
    (s : List ℕ) (n i : ℕ) (f out : List ℕ)
    → At f i s
    → AllPlain s
    → length s ≤ n
    → ((j : ℕ) → i + length s ≤ j → j < i + n → get_or f j 0 ≡ space)
    → pick n i f out ≡ out ++ s
pick-part s n i f out a w l b =
    let e : n ≡ length s + (n - length s) = omega arith in
    ap (λ m. pick m i f out) e
    ∙ (pick-plain s (n - length s) i f out a w
        ∙ pick-blanks (n - length s) (i + length s) f (out ++ s) (λ j g h. b j g (omega arith)))

-- The text of an entry.
pub filename_to_plaintext-IsEntry :
    (fat name ext : List ℕ)
    → IsEntry fat name ext
    → AllPlain name
    → AllPlain ext
    → length name ≤ 8
    → length ext ≤ 3
    → filename_to_plaintext true fat ≡ some (plain_text name ext)
unfolding filename_to_plaintext
filename_to_plaintext-IsEntry fat name [] v wn we ln le =
    let b8 : (get_or fat 8 0 == space) ≡ true =
      ground (arith, v.ext_blanks 8 (omega arith) (omega arith)) in
    let b9 : (get_or fat 9 0 == space) ≡ true =
      ground (arith, v.ext_blanks 9 (omega arith) (omega arith)) in
    let b10 : (get_or fat 10 0 == space) ≡ true =
      ground (arith, v.ext_blanks 10 (omega arith) (omega arith)) in
    let base =
      pick-part name 8 0 fat [] v.name_at wn ln
        (λ j l h. v.name_blanks j (omega arith) (omega arith)) in
    rw (b8, b9, b10, base) refl
filename_to_plaintext-IsEntry fat name (c ∷ ext) v wn we ln le =
    let b8 : (get_or fat 8 0 == space) ≡ false = ground (arith, v.ext_at, we.1) in
    let base =
      pick-part name 8 0 fat [] v.name_at wn ln
        (λ j l h. v.name_blanks j (omega arith) (omega arith)) in
    let rest =
      pick-part (c ∷ ext) 3 8 fat (name ++ dot ∷ []) v.ext_at we le (λ j l h. v.ext_blanks j l h) in
    rw (b8, base, rest) (ap some (append_assoc name (dot ∷ []) (c ∷ ext)))
