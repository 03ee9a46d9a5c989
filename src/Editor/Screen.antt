-- ===== src/Editor/Screen.antt =====
-- `update_to_screen` of src/galatea.c up to the drawing: the lines that are shown and the cells of
-- the screen.
use pygmali_os.Base.{
  ℕ, zero, suc, ◌+◌, ◌-◌, ◌*◌, ◌%◌, ◌&&◌, Bool, not, List, ◌==◌, leb, ltb, if◌then◌else◌, get_or,
  set, replicate, length, sub32,
}
use pygmali_os.Base.{Option, none, some}
use pygmali_os.Base.{u32}
use pygmali_os.Editor.{Editor, tab, newline, assign_line_starts, get_cursor_line}

pub record Screen : Type 0 where
  pub cells : List ℕ
  pub text_length : ℕ
  pub row : ℕ
  pub col : ℕ
  pub buffer_length : ℕ
  pub final_place : Option (ℕ × ℕ)

-- The first line shown is moved so that the cursor's line is on the screen.
abbrev pub scroll_to : ℕ → ℕ → ℕ → ℕ
scroll_to height cursor startline =
    let startline = if ltb cursor startline then cursor else startline in
    if leb (u32 (startline + sub32 height 2)) cursor
    then sub32 cursor (sub32 height 3)
    else startline

-- Blanks, as far as the screen goes.
unfoldable pub fill : ℕ → ℕ → Screen → Screen
fill zero size s = s
fill (suc n) size s =
    if leb size s.text_length
    then s
    else fill n size
        (record s { cells = set s.cells s.text_length 0x20; text_length = s.text_length + 1 })

module _ (width size startchar : ℕ) (e : Editor) where
  abbrev pub char_at : Screen → ℕ
  char_at s = get_or e.text_buffer (startchar + s.buffer_length) 0

  abbrev pub mark_cursor : Screen → Screen
  mark_cursor s =
      if startchar + s.buffer_length == e.text_buffer_pos
      then record s { final_place = some (s.col, s.row) }
      else s

  abbrev pub newline_cells : Screen → Screen
  newline_cells s =
      let filled =
        fill (width - s.text_length % width) size (record s { col = 0; row = s.row + 1 }) in
      if char_at s == newline then record filled { buffer_length = s.buffer_length + 1 } else s

  abbrev pub tab_cells : Screen → Screen
  tab_cells s =
      let len = 4 - s.text_length % width % 4 in
      let filled = fill len size (record s { col = s.col + len }) in
      if char_at s == tab then record filled { buffer_length = s.buffer_length + 1 } else s

  -- A write behind the screen's cells is left out.
  abbrev pub char_cell : Screen → Screen
  char_cell s =
      if not (char_at s == newline) && not (char_at s == tab)
      then record s {
        cells = set s.cells s.text_length (char_at s);
        text_length = s.text_length + 1;
        buffer_length = s.buffer_length + 1;
        col = s.col + 1;
      }
      else s

  abbrev pub wrap : Screen → Screen
  wrap s = if leb width s.col then record s { col = 0; row = s.row + 1 } else s

  abbrev pub draw_one : Screen → Screen
  draw_one s = wrap (char_cell (tab_cells (newline_cells s)))

  -- The loop over the text, on fuel.
  unfoldable pub draw : ℕ → Screen → Option Screen
  draw zero s = none
  draw (suc fuel) s =
      let marked = mark_cursor s in
      let rest = draw fuel (draw_one marked) in
      if leb size s.text_length
      then some s
      else if leb e.char_len (startchar + marked.buffer_length)
      then some marked
      else rest

abbrev pub blank : ℕ → Screen
blank size = record {
  cells = replicate size 0;
  text_length = 0;
  row = 0;
  col = 0;
  buffer_length = 0;
  final_place = none;
}

-- The editor with its first line, and the screen, unless the text has no such line or there is no
-- `memory` for the screen, where -1 is returned.
unfoldable pub update_to_screen : ℕ → ℕ → ℕ → Bool → Editor → Option (Editor × Option Screen)
update_to_screen fuel width height memory e =
    let starts = assign_line_starts width e in
    let startline = scroll_to height (get_cursor_line width e) e.startline in
    let e' = record e { startline = startline } in
    let size = width * (height - 2) in
    if ltb (length starts - 1) startline
    then some (e', none)
    else if not memory
    then some (e', none)
    else elim (draw width size (get_or starts startline 0) e' fuel (blank size)) [
      | none ↦ none
      | some s ↦ some (e', some s)
    ]
