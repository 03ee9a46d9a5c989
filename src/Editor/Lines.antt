-- ===== src/Editor/Lines.antt =====
-- Where the lines of the editor start, and the line of the cursor.
use pygmali_os.Base.{
  ℕ, zero, suc, ◌+◌, ◌-◌, ◌≤◌, ◌<◌, ◌≡◌, ◌∙◌, ◌⊎◌, inl, inr, refl, ap, arith, Bool, true, false,
  ◌||◌, List, [], ◌∷◌, ◌==◌, leb, ltb, if◌then◌else◌, get_or, length, Bool-cases, sub32,
  get_or-cons,
}
use pygmali_os.Editor.{
  Editor, newline, after_tab, line_starts_from, assign_line_starts, cursor_line_from,
  get_cursor_line,
}

-- Places from `lo` to `hi`, each behind the one before.
abbrev pub Ascends : ℕ → ℕ → List ℕ → Type 0
Ascends lo hi [] = Unit
Ascends lo hi (s ∷ ss) = (lo ≤ s) × (s ≤ hi) × Ascends (s + 1) hi ss

Ascends-lower : (lo lo' hi : ℕ) (ss : List ℕ) → lo' ≤ lo → Ascends lo hi ss → Ascends lo' hi ss
Ascends-lower lo lo' hi [] l a = tt
Ascends-lower lo lo' hi (s ∷ ss) l a = (omega (arith, a.0), a.1, a.2)

line_starts_from-Ascends :
    (n i line_len width : ℕ) (text : List ℕ)
    → Ascends (i + 1) (i + n) (line_starts_from n i line_len width text)
unfolding line_starts_from
line_starts_from-Ascends zero i line_len width text = tt
line_starts_from-Ascends (suc n) i line_len width text =
    let c = get_or text i 0 in
    let col = after_tab c line_len in
    let starts = leb (sub32 width 1) col || c == newline in
    let rest = line_starts_from-Ascends n (i + 1) (if starts then 0 else col + 1) width text in
    let top : i + 1 + n ≡ i + suc n = omega arith in
    let found : Ascends (i + 1 + 1) (i + suc n) _ = rw top at rest in
    elim (Bool-cases starts) [
      | inl e ↦ rw e (omega arith, omega arith, rw e at found)
      | inr e ↦ rw e (Ascends-lower (i + 1 + 1) (i + 1) (i + suc n) _ (omega arith) (rw e at found))
    ]

pub assign_line_starts-Ascends :
    (width : ℕ) (e : Editor) → Ascends 0 e.char_len (assign_line_starts width e)
unfolding assign_line_starts
assign_line_starts-Ascends width e =
    let top : 0 + e.char_len ≡ e.char_len = omega arith in
    let rest = line_starts_from-Ascends e.char_len 0 0 width e.text_buffer in
    (omega arith, omega arith, rw top at rest)

abbrev pub Has : List ℕ → ℕ → Type 0
Has ss v = (k : ℕ) × (k < length ss) × (get_or ss k 0 ≡ v)

Has-cons : (b : Bool) (x v : ℕ) (ss : List ℕ) → Has ss v → Has (if b then x ∷ ss else ss) v
Has-cons true x v ss (k, l, e) = (suc k, omega arith, e)
Has-cons false x v ss h = h

newline-start :
    (n i line_len width j : ℕ) (text : List ℕ)
    → i ≤ j
    → j < i + n
    → get_or text j 0 ≡ newline
    → Has (line_starts_from n i line_len width text) (j + 1)
unfolding line_starts_from
newline-start zero i line_len width j text l h e = absurd (omega arith)
newline-start (suc n) i line_len width j text l h e =
    let c = get_or text i 0 in
    let col = after_tab c line_len in
    let starts = leb (sub32 width 1) col || c == newline in
    elim (Bool-cases (i == j)) [
      | inl s ↦
          let same : i ≡ j = ground arith in
          let line : c ≡ newline = ap (λ q. get_or text q 0) same ∙ e in
          let yes : starts ≡ true = ground arith in rw yes (0, omega arith, omega (arith, same))
      | inr s ↦ Has-cons starts (i + 1) (j + 1) _ (
          newline-start n (i + 1) (if starts then 0 else col + 1) width j text (ground arith)
            (omega arith) e)
    ]

-- Behind the places in front of the cursor there are only places behind it.
all_behind :
    (ss : List ℕ) (lo hi pos j : ℕ)
    → Ascends lo hi ss
    → pos < lo
    → j < length ss
    → pos < get_or ss j 0
all_behind [] lo hi pos j a l h = absurd (omega arith)
all_behind (s ∷ ss) lo hi pos zero a l h = omega (arith, a.0)
all_behind (s ∷ ss) lo hi pos (suc j) a l h =
    all_behind ss (s + 1) hi pos j a.2 (omega (arith, a.0)) (omega arith)

cursor_line_from-last :
    (ss : List ℕ) (i pos cl lo hi : ℕ)
    → Ascends lo hi ss
    → let r = cursor_line_from ss i pos cl in
      ((r ≡ cl) × ((j : ℕ) → j < length ss → pos < get_or ss j 0))
      ⊎ ((k : ℕ) × (r ≡ i + k)
          × (k < length ss)
          × (get_or ss k 0 ≤ pos)
          × ((j : ℕ) → k < j → j < length ss → pos < get_or ss j 0))
unfolding cursor_line_from
cursor_line_from-last [] i pos cl lo hi a = inl (refl, λ j l. absurd (omega arith))
cursor_line_from-last (s ∷ ss) i pos cl lo hi a = elim (Bool-cases (ltb pos s)) [
  | inl e ↦
      rw e
        (inl (refl, λ j l. all_behind (s ∷ ss) s hi pos j (omega arith, a.1, a.2) (ground arith) l))
  | inr e ↦ elim (cursor_line_from-last ss (i + 1) pos i (s + 1) hi a.2) [
    | inl (r, none) ↦ rw e (
        inr (
          0,
          omega (arith, r),
          omega arith,
          ground arith,
          λ j l h. ground (arith, get_or-cons s ss j 0, none (j - 1)),
        ))
    | inr (k, r, lk, le, rest) ↦ rw e (
        inr (
          suc k,
          omega (arith, r),
          omega arith,
          le,
          λ j l h. ground (arith, get_or-cons s ss j 0, rest (j - 1)),
        ))
  ]
]

-- The line of the cursor is the last one that starts at it or before it, and every newline of the
-- text ends a line: the next one starts behind it.
pub get_cursor_line-line :
    (width : ℕ) (e : Editor)
    → let starts = assign_line_starts width e in
      let r = get_cursor_line width e in
      (r < length starts)
      × (get_or starts r 0 ≤ e.text_buffer_pos)
      × ((j : ℕ) → r < j → j < length starts → e.text_buffer_pos < get_or starts j 0)
      × ((i : ℕ) → i < e.char_len → get_or e.text_buffer i 0 ≡ newline → Has starts (i + 1))
unfolding get_cursor_line assign_line_starts
get_cursor_line-line width e =
    let starts = assign_line_starts width e in
    let ends : (i : ℕ) → i < e.char_len → get_or e.text_buffer i 0 ≡ newline → Has starts (i + 1) =
      λ i l h.
        Has-cons true 0 (i + 1) _
          (newline-start e.char_len 0 0 width i e.text_buffer (omega arith) (omega arith) h) in
    elim (cursor_line_from-last starts 0 e.text_buffer_pos 0 0 e.char_len
      (assign_line_starts-Ascends width e)) [
        | inl (r, none) ↦ absurd (omega (arith, none 0 (omega arith)))
        | inr (k, r, l, le, rest) ↦
            let at : get_cursor_line width e ≡ k = omega (arith, r) in rw at (l, le, rest, ends)
      ]
