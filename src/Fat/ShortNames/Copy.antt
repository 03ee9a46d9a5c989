-- ===== src/Fat/ShortNames/Copy.antt =====
-- src/fatparser.c: the loops of plaintext_to_filename that copy the name and the extension.
use pygmali_os.Base.{
  ℕ, zero, suc, ◌+◌, ◌≤◌, ◌<◌, ◌≡◌, ◌∙◌, ◌⊎◌, inl, inr, refl, sym, ap, arith, Bool, true, false,
  List, [], ◌∷◌, ◌==◌, ltb, if◌then◌else◌, get_or, set, length, Bool-cases,
}
use pygmali_os.Base.{length-set, get_or-set_self, get_or-set_ne}
use pygmali_os.Fat.Names.{dot, copy_name, copy_extension}
use pygmali_os.Fat.ShortNames.Places.{At, AllPlain}

-- The bytes of `f` from `i` on become those of `s`, and none else changes.
abbrev pub Copied : List ℕ → List ℕ → ℕ → List ℕ → Type 0
Copied fat fat' i s =
    (length fat' ≡ length fat)
    × At fat' i s
    × ((j : ℕ) → (j < i) ⊎ (i + length s ≤ j) → get_or fat' j 0 ≡ get_or fat j 0)

pub Copied-cons :
    (fat fat' : List ℕ) (i c : ℕ) (s : List ℕ)
    → i < length fat
    → Copied (set fat i c) fat' (i + 1) s
    → Copied fat fat' i (c ∷ s)
Copied-cons fat fat' i c s l (n, a, r) = (
  n ∙ length-set fat i c,
  (r i (inl (omega arith)) ∙ get_or-set_self fat i c 0 l, a),
  λ j o.
      r j (elim o [ inl q ↦ inl (omega arith) | inr q ↦ inr (omega arith) ])
      ∙ get_or-set_ne fat i j c 0 (λ e. omega (arith, o)),
)

-- `q` is what the loop over the name returns.
pub copy_name-Copied :
    (s : List ℕ) (n i : ℕ) (f fat : List ℕ) (q : List ℕ × Bool)
    → At f i s
    → AllPlain s
    → length s ≤ n
    → i + n ≤ length fat
    → (length s ≡ n) ⊎ ((get_or f (i + length s) 0 ≡ 0) ⊎ (get_or f (i + length s) 0 ≡ dot))
    → copy_name n i f fat ≡ q
    → Copied fat q.0 i s × (q.1 ≡ (if length s == n then false else get_or f (i + length s) 0 == 0))
unfolding copy_name
copy_name-Copied [] zero i f fat q a w l h o e = rw⁻¹ e ((refl, tt, λ j r. refl), refl)
copy_name-Copied [] (suc n) i f fat q a w l h o e =
    let k : i + 0 ≡ i = omega arith in
    elim (Bool-cases (get_or f i 0 == 0)) [
      | inl z ↦
          let stop : q ≡ (fat, true) = sym e ∙ rw z refl in
          rw (k, stop) ((refl, tt, λ j r. refl), ground arith)
      | inr z ↦
          let period : (get_or f i 0 == dot) ≡ true =
            ground (arith, o, k, ap (λ j. get_or f j 0) k) in
          let stop : q ≡ (fat, false) = sym e ∙ rw (z, period) refl in
          rw (k, stop) ((refl, tt, λ j r. refl), ground arith)
    ]
copy_name-Copied (c ∷ s) zero i f fat q a w l h o e = absurd (omega arith)
copy_name-Copied (c ∷ s) (suc n) i f fat q a w l h o e =
    let k : i + suc (length s) ≡ i + 1 + length s = omega arith in
    let nonzero : (c == 0) ≡ false = ground (arith, w.0) in
    let plain : (c == dot) ≡ false = ground (arith, w.2) in
    let more : (length s ≡ n)
        ⊎ ((get_or f (i + 1 + length s) 0 ≡ 0) ⊎ (get_or f (i + 1 + length s) 0 ≡ dot)) =
      elim o [ inl r ↦ inl (omega arith) | inr r ↦ inr (rw k at r) ] in
    let step : copy_name n (i + 1) f (set fat i c) ≡ q = sym (rw (a.0, nonzero, plain) refl) ∙ e in
    let (copied, ended) =
      copy_name-Copied s n (i + 1) f (set fat i c) q a.1 w.3 (omega arith)
        (omega (arith, length-set fat i c)) more step in
    let test : (suc (length s) == suc n) ≡ (length s == n) = ground arith in
    (Copied-cons fat q.0 i c s (omega arith) copied, ended ∙ rw (k, test) refl)

-- An extension is copied where zero bytes stand behind it.
pub copy_extension-Copied :
    (s : List ℕ) (n i start : ℕ) (f fat q : List ℕ)
    → At f (start + i) s
    → AllPlain s
    → length s ≤ n
    → 8 + i + n ≤ length fat
    → ((j : ℕ) → start + i + length s ≤ j → get_or f j 0 ≡ 0)
    → copy_extension n i start f fat ≡ q
    → Copied fat q (8 + i) s
unfolding copy_extension
copy_extension-Copied [] zero i start f fat q a w l h o e = rw⁻¹ e (refl, tt, λ j r. refl)
copy_extension-Copied [] (suc n) i start f fat q a w l h o e =
    let stop : (get_or f (start + i) 0 == 0) ≡ true = ground (arith, o (start + i) (omega arith)) in
    let step : copy_extension n (i + 1) start f fat ≡ q = sym (rw stop refl) ∙ e in
    let (n', t, r) =
      copy_extension-Copied [] n (i + 1) start f fat q tt tt (omega arith) (omega arith)
        (λ j m. o j (omega arith)) step in
    (
      n',
      tt,
      λ j m. elim (Bool-cases (ltb j (8 + (i + 1)))) [
        | inl b ↦ r j (inl (ground arith))
        | inr b ↦ r j (inr (ground arith))
      ],
    )
copy_extension-Copied (c ∷ s) zero i start f fat q a w l h o e = absurd (omega arith)
copy_extension-Copied (c ∷ s) (suc n) i start f fat q a w l h o e =
    let nonzero : (c == 0) ≡ false = ground (arith, w.0) in
    let k : start + i + 1 ≡ start + (i + 1) = omega arith in
    let m : 8 + (i + 1) ≡ 8 + i + 1 = omega arith in
    let step : copy_extension n (i + 1) start f (set fat (8 + i) c) ≡ q =
      sym (rw (a.0, nonzero) refl) ∙ e in
    let copied =
      copy_extension-Copied s n (i + 1) start f (set fat (8 + i) c) q (rw k at a.1) w.3
        (omega arith) (omega (arith, length-set fat (8 + i) c)) (λ j t. o j (omega arith)) step in
    Copied-cons fat q (8 + i) c s (omega arith) (rw m at copied)
