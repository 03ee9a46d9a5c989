-- ===== src/Fat/InPlace.antt =====
-- src/fatparser.c: `normalize_path` writes the path over itself. No byte is overwritten before it has
-- been copied.
use pygmali_os.Base.{
  ℕ, zero, suc, ◌+◌, ◌-◌, ◌≤◌, ◌<◌, ◌≡◌, ◌∙◌, inl, inr, refl, sym, ap, arith, false, List, [], ◌∷◌,
  ◌++◌, ◌==◌, get_or, set, length, Bool-cases,
}
use pygmali_os.Base.{
  append_assoc, append-nil, length-append, length-set, get_or-set, get_or-append_left,
  get_or-append_right,
}
use pygmali_os.Split.{here, All}
use pygmali_os.Fat.Names.{slash}
use pygmali_os.Fat.Paths.{no_slash, copy_segment, join_segments}

-- At a place of the path stands a text.
abbrev pub Reads : List ℕ → ℕ → List ℕ → Type 0
Reads path at text = (j : ℕ) → get_or path (at + j) 0 ≡ get_or text j 0

pub Reads-behind :
    (path : List ℕ) (at : ℕ) (front text : List ℕ)
    → Reads path at (front ++ text)
    → Reads path (at + length front) text
Reads-behind path at front text h j =
    ap (λ i. get_or path i 0) (omega arith)
    ∙ (h (length front + j)
        ∙ (get_or-append_right front text (length front + j) 0 (omega arith)
            ∙ ap (λ i. get_or text i 0) (omega arith)))

-- Up to the place `dst` the buffer holds what has been written, and behind it the path as it was.
pub record Copied (path out : List ℕ) (at : ℕ × List ℕ) : Type 0 where
  pub size : length at.1 ≡ length path
  pub end : at.0 ≡ length out
  pub front : (i : ℕ) → i < at.0 → get_or at.1 i 0 ≡ get_or out i 0
  pub back : (i : ℕ) → at.0 ≤ i → get_or at.1 i 0 ≡ get_or path i 0

pub set-Copied :
    (path out buffer : List ℕ) (dst c : ℕ)
    → Copied path out (dst, buffer)
    → dst < length path
    → Copied path (out ++ c ∷ []) (dst + 1, set buffer dst c)
set-Copied path out buffer dst c h l =
    let inside : dst < length buffer = omega (arith, h.size) in
    record {
      size = length-set buffer dst c ∙ h.size;
      end = omega (arith, length-append out (c ∷ []), h.end);
      front = λ i k. get_or-set buffer dst i c 0 inside ∙ elim (Bool-cases (i == dst)) [
        | inl e ↦
            let same : i ≡ length out = ground (arith, h.end) in
            let zero_at : i - length out ≡ 0 = omega arith in
            rw e (
              sym (
                get_or-append_right out (c ∷ []) i 0 (omega arith)
                ∙ ap (λ j. get_or (c ∷ []) j 0) zero_at))
        | inr e ↦
            let low : i < dst = ground arith in
            rw e (h.front i low ∙ sym (get_or-append_left out (c ∷ []) i 0 (omega (arith, h.end))))
      ];
      back = λ i k.
          let other : (i == dst) ≡ false = ground arith in
          get_or-set buffer dst i c 0 inside ∙ rw other (h.back i (omega arith));
    }

copy_segment-Copied :
    (n : ℕ) (path out word rest buffer : List ℕ) (seg dst : ℕ)
    → Copied path out (dst, buffer)
    → All no_slash word
    → no_slash (here rest) ≡ false
    → Reads path seg (word ++ rest)
    → dst ≤ seg
    → seg + length word < length path
    → length word < n
    → Copied path (out ++ word) (copy_segment n seg dst buffer)
unfolding copy_segment
copy_segment-Copied zero path out word rest buffer seg dst h a stop reads l k f =
    absurd (omega arith)
copy_segment-Copied (suc n) path out [] rest buffer seg dst h a stop reads l k f =
    let byte : get_or buffer seg 0 ≡ here rest =
      h.back seg l ∙ (ap (λ i. get_or path i 0) (omega arith) ∙ reads 0) in
    rw (byte, stop, append-nil out) h
copy_segment-Copied (suc n) path out (c ∷ word) rest buffer seg dst h a stop reads l k f =
    let byte : get_or buffer seg 0 ≡ c =
      h.back seg l ∙ (ap (λ i. get_or path i 0) (omega arith) ∙ reads 0) in
    let more =
      copy_segment-Copied n path (out ++ c ∷ []) word rest (set buffer dst c) (seg + 1) (dst + 1)
        (set-Copied path out buffer dst c h (omega arith)) a.1 stop
        (λ j. ap (λ i. get_or path i 0) (omega arith) ∙ reads (suc j)) (omega arith) (omega arith)
        (omega arith) in
    rw (byte, a.0) (rw⁻¹ (append_assoc out (c ∷ []) word) more)

-- A segment behind a slash, the last one first.
abbrev pub absolute : List (List ℕ) → List ℕ
absolute [] = []
absolute (w ∷ ws) = absolute ws ++ slash ∷ w

-- The places of the segments: what is written before one ends before it.
abbrev pub Placed : List ℕ → List ℕ → List (List ℕ) → Type 0
Placed path [] [] = Unit
Placed path (seg ∷ segs) (w ∷ ws) =
    ((rest : List ℕ) × All no_slash w
      × (no_slash (here rest) ≡ false)
      × Reads path seg (w ++ rest)
      × (length (absolute ws) < seg)
      × (seg + length w < length path))
    × Placed path segs ws
Placed path _ _ = ⊥

pub Placed-room :
    (path : List ℕ) (segs : List ℕ) (ws : List (List ℕ))
    → Placed path segs ws
    → 0 < length ws
    → length (absolute ws) < length path
Placed-room path segs [] p l = absurd (omega arith)
Placed-room path [] (w ∷ ws) p l = absurd p
Placed-room path (seg ∷ segs) (w ∷ ws) ((rest, a, stop, reads, k, m), p) l =
    omega (arith, length-append (absolute ws) (slash ∷ w))

pub nothing-Copied : (path : List ℕ) → Copied path [] (0, path)
nothing-Copied path = record {
  size = refl;
  end = refl;
  front = λ i l. absurd (omega arith);
  back = λ i l. refl;
}

pub join_segments-Copied :
    (path : List ℕ) (segs : List ℕ) (ws : List (List ℕ))
    → Placed path segs ws
    → Copied path (absolute ws) (join_segments segs (0, path))
unfolding join_segments
join_segments-Copied path [] [] p = nothing-Copied path
join_segments-Copied path [] (w ∷ ws) p = absurd p
join_segments-Copied path (seg ∷ segs) [] p = absurd p
join_segments-Copied path (seg ∷ segs) (w ∷ ws) ((rest, a, stop, reads, l, k), p) =
    let before = join_segments segs (0, path) in
    let h : Copied path (absolute ws) before = join_segments-Copied path segs ws p in
    let slashed = set-Copied path (absolute ws) before.1 before.0 slash h (omega (arith, h.end)) in
    let done =
      copy_segment-Copied (length before.1) path (absolute ws ++ slash ∷ []) w rest
        (set before.1 before.0 slash) seg (before.0 + 1) slashed a stop reads (omega (arith, h.end))
        k (omega (arith, h.size)) in
    rw⁻¹ (append_assoc (absolute ws) (slash ∷ []) w) done
