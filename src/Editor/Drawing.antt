-- ===== src/Editor/Drawing.antt =====
-- src/galatea.c: how far `update_to_screen` writes, and which lines it shows.
use pygmali_os.Base.{
  ℕ, zero, suc, ◌+◌, ◌-◌, ◌*◌, ◌%◌, ◌^◌, ◌≤◌, ◌<◌, ◌≡◌, ◌≢◌, ◌∙◌, inl, inr, refl, ap, arith, true,
  false, ◌&&◌, not, ◌==◌, leb, ltb, max, get_or, set, length, Bool-cases,
}
use pygmali_os.Base.{none, some}
use native.Mathlib.Nat.{mod-lt}
use pygmali_os.Editor.Lines.{get_cursor_line-line}
use pygmali_os.Editor.{Editor, tab, newline, assign_line_starts, get_cursor_line}
use pygmali_os.Editor.Screen.{
  Screen, scroll_to, fill, char_at, mark_cursor, newline_cells, tab_cells, char_cell, wrap,
  draw_one, draw, blank, update_to_screen,
}

fill-text_length :
    (n size : ℕ) (s : Screen)
    → ((fill n size s).text_length ≤ max s.text_length size)
      × (s.text_length ≤ (fill n size s).text_length)
      × (0 < n → s.text_length < size → s.text_length < (fill n size s).text_length)
unfolding fill
fill-text_length zero size s = (omega arith, omega arith, λ h. absurd (omega arith))
fill-text_length (suc n) size s = elim (Bool-cases (leb size s.text_length)) [
  | inl e ↦ rw e (omega arith, omega arith, λ h l. ground arith)
  | inr e ↦
      let r =
        fill-text_length n size
          (record s { cells = set s.cells s.text_length 0x20; text_length = s.text_length + 1 }) in
      rw e (ground (arith, r.0), omega (arith, r.1), λ h l. omega (arith, r.1))
]

module _ (width size startchar : ℕ) (e : Editor) (wide : 0 < width) where
  abbrev at : Screen → ℕ
  at s = char_at width size startchar e s

  -- What a step does to the number of cells that are drawn.
  abbrev Grows : ℕ → Screen → Screen → Type 0
  Grows top s s' = (s'.text_length ≤ top) × (s.text_length ≤ s'.text_length)

  newline_cells-Grows :
      (s : Screen)
      → s.text_length ≤ size
      → Grows size s (newline_cells width size startchar e s)
        × (at s ≡ newline
            → s.text_length < size
            → s.text_length < (newline_cells width size startchar e s).text_length)
  newline_cells-Grows s l =
      let n = width - s.text_length % width in
      let some_left : 0 < n = omega (arith, mod-lt s.text_length wide) in
      let f = fill-text_length n size (record s { col = 0; row = s.row + 1 }) in
      elim (Bool-cases (at s == newline)) [
        | inl k ↦ rw k ((omega (arith, f.0), f.1), λ h. f.2 some_left)
        | inr k ↦ rw k ((omega arith, omega arith), λ h. absurd (ground arith))
      ]

  tab_cells-Grows :
      (s : Screen)
      → s.text_length ≤ size
      → Grows size s (tab_cells width size startchar e s)
        × (at s ≡ tab
            → s.text_length < size
            → s.text_length < (tab_cells width size startchar e s).text_length)
  tab_cells-Grows s l =
      let len = 4 - s.text_length % width % 4 in
      let f = fill-text_length len size (record s { col = s.col + len }) in
      elim (Bool-cases (at s == tab)) [
        | inl k ↦ rw k ((omega (arith, f.0), f.1), λ h. f.2 (omega arith))
        | inr k ↦ rw k ((omega arith, omega arith), λ h. absurd (ground arith))
      ]

  char_cell-Grows :
      (s : Screen)
      → s.text_length ≤ size
      → Grows (size + 1) s (char_cell width size startchar e s)
        × (at s ≢ newline
            → at s ≢ tab
            → s.text_length < (char_cell width size startchar e s).text_length)
  char_cell-Grows s l = elim (Bool-cases (not (at s == newline) && not (at s == tab))) [
    | inl k ↦ rw k ((omega arith, omega arith), λ h g. omega arith)
    | inr k ↦ rw k ((omega arith, omega arith), λ h g. absurd (ground arith))
  ]

  wrap-text_length : (s : Screen) → (wrap width size startchar e s).text_length ≡ s.text_length
  wrap-text_length s = elim (Bool-cases (leb width s.col)) [ inl k ↦ rw k refl | inr k ↦ rw k refl ]

  -- Each round draws a cell or more, and at most one behind the screen.
  draw_one-Grows :
      (s : Screen)
      → s.text_length < size
      → ((draw_one width size startchar e s).text_length ≤ size + 1)
        × (s.text_length < (draw_one width size startchar e s).text_length)
  draw_one-Grows s l =
      let s1 = newline_cells width size startchar e s in
      let ((u1, g1), p1) = newline_cells-Grows s (omega arith) in
      let s2 = tab_cells width size startchar e s1 in
      let ((u2, g2), p2) = tab_cells-Grows s1 u1 in
      let ((u3, g3), p3) = char_cell-Grows s2 u2 in
      let end = wrap-text_length (char_cell width size startchar e s2) in
      elim (Bool-cases (at s == newline)) [
        | inl k ↦ (omega (arith, end, u3), omega (arith, end, g3, g2, p1 (ground arith) l))
        | inr k ↦
            let first : s1 ≡ s = rw k refl in
            elim (Bool-cases (at s == tab)) [
              | inl t ↦
                  let tabs : at s1 ≡ tab = ap at first ∙ ground arith in
                  let low : s1.text_length < size =
                    omega (arith, ap (λ (q : Screen). q.text_length) first) in
                  (omega (arith, end, u3), omega (arith, end, g3, g1, p2 tabs low))
              | inr t ↦
                  let second : s2 ≡ s = ap (tab_cells width size startchar e) first ∙ rw t refl in
                  let other : at s2 ≡ at s = ap at second in
                  (
                    omega (arith, end, u3),
                    omega (arith, end, g1, g2, p3 (ground (arith, other)) (ground (arith, other))),
                  )
            ]
      ]

  mark_cursor-text_length :
      (s : Screen) → (mark_cursor width size startchar e s).text_length ≡ s.text_length
  mark_cursor-text_length s = elim (Bool-cases (startchar + s.buffer_length == e.text_buffer_pos)) [
    | inl k ↦ rw k refl
    | inr k ↦ rw k refl
  ]

  draw-ends :
      (fuel : ℕ) (s : Screen)
      → s.text_length ≤ size + 1
      → size - s.text_length < fuel
      → (s' : Screen) × (draw width size startchar e fuel s ≡ some s') × (s'.text_length ≤ size + 1)
  unfolding draw
  draw-ends zero s l f = absurd (omega arith)
  draw-ends (suc fuel) s l f =
      let marked = mark_cursor width size startchar e s in
      let same = mark_cursor-text_length s in
      elim (Bool-cases (leb size s.text_length)) [
        | inl k ↦ rw k (s, refl, l)
        | inr k ↦ elim (Bool-cases (leb e.char_len (startchar + marked.buffer_length))) [
          | inl m ↦ rw (k, m) (marked, refl, omega (arith, same))
          | inr m ↦
              let low : s.text_length < size = ground arith in
              let g = draw_one-Grows marked (omega (arith, same)) in
              rw (k, m)
                (draw-ends fuel (draw_one width size startchar e marked) g.0
                  (omega (arith, g.1, same)))
        ]
      ]

-- With memory for it the screen is drawn: with one round for each of its cells and one more the loop
-- ends, having written one cell behind the screen at most. Without, nothing is drawn and -1 returned.
-- In both cases the line of the cursor is among those shown. The screen has a column and three rows at
-- least, and the numbers of the lines are within 32 bits.
pub update_to_screen-ends :
    (fuel width height : ℕ) (e : Editor)
    → 0 < width
    → 3 ≤ height
    → e.startline + height < 2 ^ 32
    → get_cursor_line width e < 2 ^ 32
    → width * (height - 2) < fuel
    → (e' : Editor) × (s : Screen) × (update_to_screen fuel width height true e ≡ some (e', some s))
      × (update_to_screen fuel width height false e ≡ some (e', none))
      × (s.text_length ≤ width * (height - 2) + 1)
      × (e'.startline ≤ get_cursor_line width e)
      × (get_cursor_line width e < e'.startline + (height - 2))
unfolding update_to_screen
update_to_screen-ends fuel width height e wide tall l c f =
    let starts = assign_line_starts width e in
    let cursor = get_cursor_line width e in
    let line = get_cursor_line-line width e in
    let startline = scroll_to height cursor e.startline in
    let shown : (startline ≤ cursor)
        × (cursor < startline + (height - 2))
        × (ltb (length starts - 1) startline ≡ false) =
      ground (arith, line.0) in
    let e' : Editor = record e { startline = startline } in
    let (s, drawn, bound) =
      draw-ends width (width * (height - 2)) (get_or starts startline 0) e' wide fuel
        (blank (width * (height - 2))) (omega arith) (omega arith) in
    (
      e',
      s,
      rw (update_to_screen, shown.2, drawn) refl,
      rw (update_to_screen, shown.2) refl,
      bound,
      shown.0,
      shown.1,
    )
