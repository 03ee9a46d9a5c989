-- ===== src/Fat/ShortNames/Scan.antt =====
-- src/fatparser.c: the loop of plaintext_to_filename that looks for the period.
use pygmali_os.Base.{
  ℕ, suc, ◌+◌, ◌≤◌, ◌≡◌, ◌∙◌, refl, ap, arith, Bool, true, false, not, List, [], ◌∷◌, ◌++◌, ◌==◌,
  if◌then◌else◌, length,
}
use pygmali_os.Base.{some, length-append}
use pygmali_os.Fat.Names.{dot, NameParts, scan_name}
use pygmali_os.Fat.ShortNames.Places.{At, At-self, At-whole, At-period, AllPlain, plain_text}

abbrev pub valid_after : List ℕ → Bool → Bool
valid_after [] v = v
valid_after (c ∷ s) v = true

pub valid_after-true : (s : List ℕ) → valid_after s true ≡ true
valid_after-true [] = refl
valid_after-true (c ∷ s) = refl

pub scan_name-plain :
    (s : List ℕ) (n i : ℕ) (f : List ℕ) (p : NameParts)
    → At f i s
    → AllPlain s
    → scan_name (length s + n) i f p
      ≡ scan_name n (i + length s) f (record p { valid_fat = valid_after s p.valid_fat })
unfolding scan_name
scan_name-plain [] n i f p a w =
    let e : 0 + n ≡ n = omega arith in let k : i + 0 ≡ i = omega arith in rw (e, k) refl
scan_name-plain (c ∷ s) n i f p a w =
    let e : suc (length s) + n ≡ suc (length s + n) = omega arith in
    let k : i + suc (length s) ≡ i + 1 + length s = omega arith in
    let plain : (c == dot) ≡ false = ground (arith, w.2) in
    let next : NameParts = record p { valid_fat = true } in
    rw (e, k)
      (rw (a.0, w.2, plain)
        (scan_name-plain s n (i + 1) f next a.1 w.3 ∙ rw (valid_after-true s) refl))

-- The parts that the first loop finds in the text of a name.
abbrev pub start : NameParts
start = record { extension_start = 0; period_exists = false; valid_fat = false }

pub valid_after-some : (s : List ℕ) (v : Bool) → 1 ≤ length s → valid_after s v ≡ true
valid_after-some [] v l = absurd (omega arith)
valid_after-some (c ∷ s) v l = refl

pub scan_name-text :
    (name ext : List ℕ)
    → AllPlain name
    → AllPlain ext
    → 1 ≤ length name
    → scan_name (length (plain_text name ext)) 0 (plain_text name ext) start
      ≡ some (record {
        extension_start = if length ext == 0 then 0 else length name + 1;
        period_exists = not (length ext == 0);
        valid_fat = true;
      })
unfolding scan_name
scan_name-text name [] wn we l =
    let none_left : length name ≡ length name + 0 = omega arith in
    ap (λ m. scan_name m 0 name start) none_left
    ∙ (scan_name-plain name 0 0 name start (At-whole name) wn
        ∙ rw (valid_after-some name false l) refl)
scan_name-text name (c ∷ ext) wn we l =
    let f = name ++ dot ∷ c ∷ ext in
    let m : length f ≡ length name + suc (length (c ∷ ext) + 0) =
      omega (arith, length-append name (dot ∷ c ∷ ext)) in
    let place : 0 + length name ≡ length name = omega arith in
    let (period, rest) = At-period name (c ∷ ext) in
    let named : NameParts = record start { valid_fat = true } in
    let behind : NameParts = record {
      extension_start = length name + 1;
      period_exists = true;
      valid_fat = true;
    } in
    let over : scan_name (suc (length (c ∷ ext) + 0)) (length name) f named
        ≡ scan_name (length (c ∷ ext) + 0) (length name + 1) f behind =
      rw (scan_name, period) refl in
    ap (λ k. scan_name k 0 f start) m
    ∙ (scan_name-plain name (suc (length (c ∷ ext) + 0)) 0 f start (At-self name (dot ∷ c ∷ ext)) wn
        ∙ (rw (valid_after-some name false l, place) over
            ∙ (scan_name-plain (c ∷ ext) 0 (length name + 1) f behind rest we ∙ ground arith)))
