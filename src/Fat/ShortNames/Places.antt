-- ===== src/Fat/ShortNames/Places.antt =====
-- src/fatparser.c: the bytes of a name, and where they stand in an array.
use pygmali_os.Base.{
  ℕ, suc, ◌+◌, ◌-◌, ◌<◌, ◌≡◌, ◌≢◌, ◌∙◌, refl, sym, ap, arith, true, false, List, [], ◌∷◌, ◌++◌,
  ◌==◌, get_or, length, get_or-cons,
}
use pygmali_os.Base.{length-append, append-nil}
use pygmali_os.CString.{strlen}
use pygmali_os.Fat.Names.{space, dot, is_valid_char}

-- The bytes of a name or an extension.
abbrev pub AllPlain : List ℕ → Type 0
AllPlain [] = Unit
AllPlain (c ∷ s) = (c ≢ 0) × (c ≢ space) × (is_valid_char c ≡ true) × AllPlain s

-- The text of a name: without a period if there is no extension.
abbrev pub plain_text : List ℕ → List ℕ → List ℕ
plain_text name [] = name
plain_text name (c ∷ ext) = name ++ dot ∷ c ∷ ext

-- From place `i` on, the array `f` holds the bytes `s`.
abbrev pub At : List ℕ → ℕ → List ℕ → Type 0
At f i [] = Unit
At f i (c ∷ s) = (get_or f i 0 ≡ c) × At f (i + 1) s

pub At-cons : (x : ℕ) (f : List ℕ) (i : ℕ) (s : List ℕ) → At f i s → At (x ∷ f) (i + 1) s
At-cons x f i [] a = tt
At-cons x f i (c ∷ s) a =
    let next : get_or (x ∷ f) (i + 1) 0 ≡ get_or f i 0 =
      get_or-cons x f (i + 1) 0
      ∙ (let no : (i + 1 == 0) ≡ false = ground arith in
          let less : i + 1 - 1 ≡ i = omega arith in rw (no, less) refl) in
    (next ∙ a.0, At-cons x f (i + 1) s a.1)

pub At-self : (s r : List ℕ) → At (s ++ r) 0 s
At-self [] r = tt
At-self (c ∷ s) r = (refl, At-cons c (s ++ r) 0 s (At-self s r))

pub At-behind : (pre f : List ℕ) (i : ℕ) (s : List ℕ) → At f i s → At (pre ++ f) (length pre + i) s
At-behind [] f i s a = let e : 0 + i ≡ i = omega arith in rw e a
At-behind (x ∷ pre) f i s a =
    let e : suc (length pre) + i ≡ length pre + i + 1 = omega arith in
    rw e (At-cons x (pre ++ f) (length pre + i) s (At-behind pre f i s a))

pub At-whole : (s : List ℕ) → At s 0 s
At-whole s = rw (append-nil s) at (At-self s [])

pub At-same :
    (s f g : List ℕ) (i : ℕ)
    → At f i s
    → ((j : ℕ) → j < i + length s → get_or g j 0 ≡ get_or f j 0)
    → At g i s
At-same [] f g i a same = tt
At-same (c ∷ s) f g i a same =
    (same i (omega arith) ∙ a.0, At-same s f g (i + 1) a.1 (λ j b. same j (omega arith)))

-- The period behind a name, and the extension behind it.
pub At-period : (name r : List ℕ) → At (name ++ dot ∷ r) (length name) (dot ∷ r)
At-period name r =
    let e : length name + 0 ≡ length name = omega arith in
    rw e at (At-behind name (dot ∷ r) 0 (dot ∷ r) (At-whole (dot ∷ r)))

pub get_or-end : (s : List ℕ) → get_or s (length s) 0 ≡ 0
get_or-end [] = refl
get_or-end (x ∷ s) = get_or-end s

pub strlen-plain : (s r : List ℕ) → AllPlain s → strlen (s ++ r) ≡ length s + strlen r
unfolding strlen
strlen-plain [] r a = omega arith
strlen-plain (c ∷ s) r a =
    let no : (c == 0) ≡ false = ground (arith, a.0) in rw no (omega (arith, strlen-plain s r a.3))

pub strlen-all : (s : List ℕ) → AllPlain s → strlen s ≡ length s
unfolding strlen
strlen-all s w = ap strlen (sym (append-nil s)) ∙ (strlen-plain s [] w ∙ omega arith)

pub strlen-text :
    (name ext : List ℕ)
    → AllPlain name
    → AllPlain ext
    → strlen (plain_text name ext) ≡ length (plain_text name ext)
unfolding strlen
strlen-text name [] wn we = strlen-all name wn
strlen-text name (c ∷ ext) wn we = omega (
  arith,
  strlen-plain name (dot ∷ c ∷ ext) wn,
  length-append name (dot ∷ c ∷ ext),
  strlen-all (c ∷ ext) we,
)
