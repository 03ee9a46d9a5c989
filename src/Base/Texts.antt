-- ===== src/Base/Texts.antt =====
-- A text in a buffer of bytes: what it is at each place, and after a byte is put in or taken out.
use pygmali_os.Base.Tests.{◌==◌, ltb, if◌then◌else◌, Bool-cases}
use pygmali_os.Base.Lists.{
  length, get_or, take, drop, replicate, length-take, get_or_ext, get_or-take, get_or_past,
  get_or-append_left, get_or-append_right, get_or-cons, get_or-drop,
}
use Prim.Native.Nat.{ℕ, zero, suc, ◌+◌, ◌-◌, ◌≤◌, ◌<◌}
use mathlib.Core.Path.{◌≡◌, refl, sym, ◌∙◌, ap}
use mathlib.Core.Logic.{inl, inr}
use mathlib.Core.List.{List, [], ◌∷◌, ◌++◌}
use native.Mathlib.Omega.{arith}

-- The first bytes of a buffer that is read at each place.
pub text-pointwise :
    (buffer : List ℕ) (n : ℕ) (t : List ℕ)
    → n ≤ length buffer
    → length t ≡ n
    → ((i : ℕ) → i < n → get_or buffer i 0 ≡ get_or t i 0)
    → take n buffer ≡ t
text-pointwise buffer n t h e p =
    let len : length (take n buffer) ≡ length t = omega (arith, length-take n buffer) in
    get_or_ext 0 (take n buffer) t len (λ i. elim (Bool-cases (ltb i n)) [
      | inl k ↦ get_or-take n buffer i 0 (ground arith) ∙ p i (ground arith)
      | inr k ↦
          get_or_past (take n buffer) i 0 (ground (arith, len))
          ∙ sym (get_or_past t i 0 (ground arith))
    ])

-- A byte of the text with a character put in or taken out.
pub get_or-inserted :
    (t : List ℕ) (p c i : ℕ)
    → p ≤ length t
    → get_or (take p t ++ c ∷ drop p t) i 0
      ≡ (if ltb i p then get_or t i 0 else if i == p then c else get_or t (i - 1) 0)
get_or-inserted t p c i h =
    let n : length (take p t) ≡ p = omega (arith, length-take p t) in
    elim (Bool-cases (ltb i p)) [
      | inl k ↦ rw k (
          get_or-append_left (take p t) (c ∷ drop p t) i 0 (ground (arith, n))
          ∙ get_or-take p t i 0 (ground arith))
      | inr k ↦ rw k (
          get_or-append_right (take p t) (c ∷ drop p t) i 0 (ground (arith, n))
          ∙ (get_or-cons c (drop p t) (i - length (take p t)) 0
              ∙ rw (n, get_or-drop t p (i - p - 1) 0) (ground arith)))
    ]

pub get_or-erased :
    (t : List ℕ) (p i : ℕ)
    → 1 ≤ p
    → p ≤ length t
    → get_or (take (p - 1) t ++ drop p t) i 0
      ≡ (if ltb i (p - 1) then get_or t i 0 else get_or t (i + 1) 0)
get_or-erased t p i l h =
    let n : length (take (p - 1) t) ≡ p - 1 = omega (arith, length-take (p - 1) t) in
    elim (Bool-cases (ltb i (p - 1))) [
      | inl k ↦ rw k (
          get_or-append_left (take (p - 1) t) (drop p t) i 0 (ground (arith, n))
          ∙ get_or-take (p - 1) t i 0 (ground arith))
      | inr k ↦ rw k (
          get_or-append_right (take (p - 1) t) (drop p t) i 0 (ground (arith, n))
          ∙ (get_or-drop t p (i - length (take (p - 1) t)) 0
              ∙ ap (λ j. get_or t j 0) (ground (arith, n))))
    ]

pub take_whole : (n : ℕ) (t : List ℕ) → length t ≤ n → take n t ≡ t
take_whole zero [] h = refl
take_whole zero (x ∷ t) h = absurd (omega arith)
take_whole (suc n) [] h = refl
take_whole (suc n) (x ∷ t) h = ap (x ∷◌) (take_whole n t (omega arith))

pub drop_past : (n : ℕ) (t : List ℕ) → length t ≤ n → drop n t ≡ []
drop_past zero [] h = refl
drop_past zero (x ∷ t) h = absurd (omega arith)
drop_past (suc n) [] h = refl
drop_past (suc n) (x ∷ t) h = drop_past n t (omega arith)

pub zeros : (n i : ℕ) → get_or {A = ℕ} (replicate n 0) i 0 ≡ 0
zeros zero i = refl
zeros (suc n) zero = refl
zeros (suc n) (suc i) = zeros n i
