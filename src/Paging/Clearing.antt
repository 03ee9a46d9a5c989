-- ===== src/Paging/Clearing.antt =====
-- The clearing of a page, or of parts of it, behind `map_page` of src/paging.c.
use pygmali_os.Base.{
  ℕ, zero, suc, ◌+◌, ◌-◌, min, ◌*◌, ◌/◌, ◌%◌, ◌^◌, ◌≤◌, ◌<◌, ◌≡◌, ◌∙◌, ◌⊎◌, inl, inr, refl, sym, ap,
  arith, ◌==◌, if◌then◌else◌, u32, Bool-cases, true, false,
}
use pygmali_os.Base.{Option, none, some}
use pygmali_os.Paging.{test_bit}
use pygmali_os.Paging.Tables.{Space, translate, cleared_word, clear_page, clear_bytes, memset_page}
use pygmali_os.Paging.Mapping.{IsSpace, IsPlain, dir, equal, differ, translate-same, IsSpace-same}

-- What is kept of a word is not larger than the word.
kept-le : (a b w : ℕ) → a ≤ b → b ≤ 4 → w % 2 ^ (8 * a) + w / 2 ^ (8 * b) * 2 ^ (8 * b) ≤ w
kept-le zero zero w l m = omega arith
kept-le zero (suc zero) w l m = omega arith
kept-le zero (suc (suc zero)) w l m = omega arith
kept-le zero (suc (suc (suc zero))) w l m = omega arith
kept-le zero (suc (suc (suc (suc zero)))) w l m = omega arith
kept-le zero (suc (suc (suc (suc (suc b))))) w l m = absurd (omega arith)
kept-le (suc zero) zero w l m = absurd (omega arith)
kept-le (suc zero) (suc zero) w l m = omega arith
kept-le (suc zero) (suc (suc zero)) w l m = omega arith
kept-le (suc zero) (suc (suc (suc zero))) w l m = omega arith
kept-le (suc zero) (suc (suc (suc (suc zero)))) w l m = omega arith
kept-le (suc zero) (suc (suc (suc (suc (suc b))))) w l m = absurd (omega arith)
kept-le (suc (suc zero)) zero w l m = absurd (omega arith)
kept-le (suc (suc zero)) (suc zero) w l m = absurd (omega arith)
kept-le (suc (suc zero)) (suc (suc zero)) w l m = omega arith
kept-le (suc (suc zero)) (suc (suc (suc zero))) w l m = omega arith
kept-le (suc (suc zero)) (suc (suc (suc (suc zero)))) w l m = omega arith
kept-le (suc (suc zero)) (suc (suc (suc (suc (suc b))))) w l m = absurd (omega arith)
kept-le (suc (suc (suc zero))) zero w l m = absurd (omega arith)
kept-le (suc (suc (suc zero))) (suc zero) w l m = absurd (omega arith)
kept-le (suc (suc (suc zero))) (suc (suc zero)) w l m = absurd (omega arith)
kept-le (suc (suc (suc zero))) (suc (suc (suc zero))) w l m = omega arith
kept-le (suc (suc (suc zero))) (suc (suc (suc (suc zero)))) w l m = omega arith
kept-le (suc (suc (suc zero))) (suc (suc (suc (suc (suc b))))) w l m = absurd (omega arith)
kept-le (suc (suc (suc (suc zero)))) zero w l m = absurd (omega arith)
kept-le (suc (suc (suc (suc zero)))) (suc zero) w l m = absurd (omega arith)
kept-le (suc (suc (suc (suc zero)))) (suc (suc zero)) w l m = absurd (omega arith)
kept-le (suc (suc (suc (suc zero)))) (suc (suc (suc zero))) w l m = absurd (omega arith)
kept-le (suc (suc (suc (suc zero)))) (suc (suc (suc (suc zero)))) w l m = omega arith
kept-le (suc (suc (suc (suc zero)))) (suc (suc (suc (suc (suc b))))) w l m = absurd (omega arith)
kept-le (suc (suc (suc (suc (suc a))))) b w l m = absurd (omega arith)

cleared_word-le : (from to j w : ℕ) → from ≤ to → cleared_word from to j w ≤ w
cleared_word-le from to j w l =
    kept-le (min 4 (from - 4 * j)) (min 4 (to - 4 * j)) w (omega arith) (omega arith)

-- A physical page that is no table is changed word by word.
module _ (s : Space) (h : IsSpace s) (q : ℕ) (plain : IsPlain s q) (g : ℕ → ℕ → ℕ)
    (below : (i w : ℕ) → g i w ≤ w) where
  abbrev pub wiped : Space
  wiped = record s { frames = λ p i. if p == q then g i (s.frames p i) else s.frames p i }

  wiped-directory : (i : ℕ) → wiped.frames s.root i ≡ s.frames s.root i
  wiped-directory i = rw (differ plain.0) refl

  wiped-le : (p i : ℕ) → wiped.frames p i ≤ s.frames p i
  wiped-le p i = elim (Bool-cases (p == q)) [
    | inl e ↦ rw e (below i (s.frames p i))
    | inr e ↦ rw e (omega arith)
  ]

  pub wiped-IsSpace : IsSpace wiped
  wiped-IsSpace =
      IsSpace-same h refl refl wiped-directory (λ p j. omega (arith, wiped-le p j, h.words p j))

  pub wiped-IsPlain : (p : ℕ) → IsPlain s p → IsPlain wiped p
  wiped-IsPlain p (root, tables) = (
    root,
    λ i l present e.
        tables i l (ap (λ w. w % 2) (sym (wiped-directory i)) ∙ present)
          (ap (λ w. w / 4096) (sym (wiped-directory i)) ∙ e),
  )

  pub translate-wiped : (v : ℕ) → v < 0xFFC00000 → translate wiped v ≡ translate s v
  translate-wiped v low =
      translate-same s wiped v (wiped-directory (dir v))
        (λ present. rw (differ (plain.1 (dir v) (omega arith) present)) refl)

-- Behind the address of a page there is nothing to clear, or a page that is translated to one that is
-- neither the directory nor a table.
abbrev pub Clears : Space → ℕ → Type 0
Clears s v =
    (v % 4096 ≡ 0)
    ⊎ ((v + 4096 < 0xFFC00000) × (a : ℕ) × (translate s (v + 4096) ≡ some a) × IsPlain s (a / 4096))

-- As `Clears`, with that page in use.
abbrev pub IsBehind : Space → ℕ → Type 0
IsBehind s v =
    (v % 4096 ≡ 0)
    ⊎ ((v + 4096 < 0xFFC00000)
        × (a : ℕ) × (translate s (v + 4096) ≡ some a)
        × (test_bit s.bitmap (a / 4096) ≡ false)
        × IsPlain s (a / 4096))

clear_page-at :
    (s : Space) (v a : ℕ)
    → translate s v ≡ some a
    → clear_page s v ≡ some (record s { frames = λ p i. if p == a / 4096 then 0 else s.frames p i })
unfolding clear_page
clear_page-at s v a e = rw (clear_page, e) refl

clear_bytes-at :
    (s : Space) (v from to a : ℕ)
    → translate s v ≡ some a
    → clear_bytes s v from to
      ≡ some (record s {
        frames =
            λ p i. if p == a / 4096 then cleared_word from to i (s.frames p i) else s.frames p i;
      })
unfolding clear_bytes
clear_bytes-at s v from to a e = rw (clear_bytes, e) refl

-- The 4096 bytes are cleared, and no address is translated otherwise.
abbrev pub Cleared : Space → ℕ → ℕ → Option Space → Type 0
Cleared s v page result =
    (s' : Space) × (result ≡ some s')
    × IsSpace s'
    × ((v' : ℕ) → v' < 0xFFC00000 → translate s' v' ≡ translate s v')
    × ((j : ℕ) → v % 4096 ≤ 4 * j → j < 1024 → s'.frames page j ≡ 0)

module _ (s : Space) (h : IsSpace s) (v page : ℕ) (low : v < 0xFFC00000) (plain : IsPlain s page)
    (here : translate s v ≡ some (page * 4096 + v % 4096)) where
  base : (page * 4096 + v % 4096) / 4096 ≡ page
  base = omega arith

  aligned-Cleared : v % 4096 ≡ 0 → Cleared s v page (clear_page s v)
  aligned-Cleared start =
      let g : ℕ → ℕ → ℕ = λ i w. 0 in
      let wipe : ℕ → Option Space =
        λ t. some (record s { frames = λ p i. if p == t then 0 else s.frames p i }) in
      let itself : (page == page) ≡ true = equal refl in
      (
        wiped s h page plain g (λ i w. omega arith),
        clear_page-at s v (page * 4096 + v % 4096) here ∙ ap wipe base,
        wiped-IsSpace s h page plain g (λ i w. omega arith),
        translate-wiped s h page plain g (λ i w. omega arith),
        λ j l k. rw itself refl,
      )

  module _ (behind : v + 4096 < 0xFFC00000) (a : ℕ) (next : translate s (v + 4096) ≡ some a)
      (other : IsPlain s (a / 4096)) where
    abbrev offset : ℕ
    offset = v % 4096

    abbrev end_cleared : Space
    end_cleared =
        wiped s h page plain (cleared_word offset 4096)
          (λ i w. cleared_word-le offset 4096 i w (omega arith))

    end_cleared-IsSpace : IsSpace end_cleared
    end_cleared-IsSpace =
        wiped-IsSpace s h page plain (cleared_word offset 4096)
          (λ i w. cleared_word-le offset 4096 i w (omega arith))

    end_translate : (v' : ℕ) → v' < 0xFFC00000 → translate end_cleared v' ≡ translate s v'
    end_translate v' l =
        translate-wiped s h page plain (cleared_word offset 4096)
          (λ i w. cleared_word-le offset 4096 i w (omega arith)) v' l

    other-IsPlain : IsPlain end_cleared (a / 4096)
    other-IsPlain =
        wiped-IsPlain s h page plain (cleared_word offset 4096)
          (λ i w. cleared_word-le offset 4096 i w (omega arith)) (a / 4096) other

    abbrev both_cleared : Space
    both_cleared =
        wiped end_cleared end_cleared-IsSpace (a / 4096) other-IsPlain (cleared_word 0 offset)
          (λ i w. cleared_word-le 0 offset i w (omega arith))

    end_zero : (j : ℕ) → offset ≤ 4 * j → j < 1024 → end_cleared.frames page j ≡ 0
    end_zero j l k =
        let itself : (page == page) ≡ true = equal refl in
        let first : min 4 (offset - 4 * j) ≡ 0 = omega arith in
        let last : min 4 (4096 - 4 * j) ≡ 4 = omega arith in
        rw (itself, first, last) (omega (arith, h.words page j))

    both-Cleared : Cleared s v page (elim (clear_bytes s v offset 4096) [
      | none ↦ none
      | some s' ↦ clear_bytes s' (u32 (v + 4096)) 0 offset
    ])
    both-Cleared =
        let wrapped : u32 (v + 4096) ≡ v + 4096 = omega arith in
        let first : clear_bytes s v offset 4096 ≡ some end_cleared =
          clear_bytes-at s v offset 4096 (page * 4096 + v % 4096) here
          ∙ ap
              (λ t. some (record s {
                frames = λ p i.
                    if p == t then cleared_word offset 4096 i (s.frames p i) else s.frames p i;
              }))
              base in
        let second : clear_bytes end_cleared (v + 4096) 0 offset ≡ some both_cleared =
          clear_bytes-at end_cleared (v + 4096) 0 offset a
            (end_translate (v + 4096) behind ∙ next) in
        (
          both_cleared,
          rw (first, wrapped) second,
          wiped-IsSpace end_cleared end_cleared-IsSpace (a / 4096) other-IsPlain
              (cleared_word 0 offset) (λ i w. cleared_word-le 0 offset i w (omega arith)),
          λ v' l.
              translate-wiped end_cleared end_cleared-IsSpace (a / 4096) other-IsPlain
                (cleared_word 0 offset) (λ i w. cleared_word-le 0 offset i w (omega arith)) v' l
              ∙ end_translate v' l,
          λ j l k. omega (
            arith,
            end_zero j l k,
            wiped-le end_cleared end_cleared-IsSpace (a / 4096) other-IsPlain
                (cleared_word 0 offset) (λ i w. cleared_word-le 0 offset i w (omega arith)) page j,
          ),
        )

  pub memset_page-Cleared : Clears s v → Cleared s v page (memset_page s v)
  unfolding memset_page
  memset_page-Cleared behind = elim (Bool-cases (v % 4096 == 0)) [
    | inl e ↦ rw e (aligned-Cleared (ground arith))
    | inr e ↦ elim behind [
      | inl start ↦ absurd (ground arith)
      | inr (l, a, next, other) ↦ rw e (both-Cleared l a next other)
    ]
  ]
