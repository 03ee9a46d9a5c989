-- ===== src/Editor/Tests.antt =====
-- The editor on a short text.
use pygmali_os.Base.{
  ℕ, zero, suc, ◌+◌, ◌≤◌, ◌<◌, ◌≡◌, ◌≢◌, refl, arith, true, false, List, [], ◌∷◌, get_or, replicate,
  length,
}
use pygmali_os.Base.{Option, none, some}
use pygmali_os.CString.{memmove, strlen}
use pygmali_os.CString.Moves.{moved, memmove-moved}
use pygmali_os.Keyboard.{KeyEvent}
use pygmali_os.Editor.{
  Editor, load_text, text, editor_write, editor_backspace, editor_parse, get_cursor_line,
  assign_line_starts, line_starts_from, cursor_line_from, cursor_right,
}
use pygmali_os.Editor.Edits.{IsEditor, editor_write-inserts, editor_backspace-erases}
use pygmali_os.Editor.Keys.{editor_parse-IsEditor}
use pygmali_os.Editor.Drawing.{update_to_screen-ends}
use pygmali_os.Editor.Screen.{Screen, fill, draw, update_to_screen}
use pygmali_os.Editor.Start.{load_text-IsEditor}

-- "ab", newline, "c"
abbrev short_text : List ℕ
short_text = 97 ∷ 98 ∷ 10 ∷ 99 ∷ []

abbrev opened : Editor
opened = record {
  text_buffer = 97 ∷ 98 ∷ 10 ∷ 99 ∷ 0 ∷ [];
  char_len = 4;
  text_buffer_pos = 3;
  text_buffer_size = 5;
  startline = 0;
}

opened-IsEditor : IsEditor opened
opened-IsEditor = record {
  block = refl;
  room = omega arith;
  cursor = omega arith;
  end = refl;
  characters = visible;
}
  where
    visible : (i : ℕ) → i < 4 → get_or {A = ℕ} (97 ∷ 98 ∷ 10 ∷ 99 ∷ 0 ∷ []) i 0 ≢ 0
    visible zero l = omega arith
    visible (suc zero) l = omega arith
    visible (suc (suc zero)) l = omega arith
    visible (suc (suc (suc zero))) l = omega arith
    visible (suc (suc (suc (suc i)))) l = absurd (omega arith)

memmove-moved_example :
    (length (memmove 1 0 3 short_text) ≡ 4)
    × ((i : ℕ) → get_or (memmove 1 0 3 short_text) i 0 ≡ moved 1 0 3 short_text i)
memmove-moved_example = memmove-moved 1 0 3 short_text (omega arith)

editor_write-inserts_example :
    let e' = editor_write 512 100 opened in
    IsEditor e' × (text e' ≡ 97 ∷ 98 ∷ 10 ∷ 100 ∷ 99 ∷ []) × (e'.text_buffer_pos ≡ 4)
editor_write-inserts_example =
    editor_write-inserts 512 100 opened opened-IsEditor (omega arith) (omega arith) (omega arith)

editor_backspace-erases_example :
    let e' = editor_backspace opened in
    IsEditor e' × (text e' ≡ 97 ∷ 98 ∷ 99 ∷ []) × (e'.text_buffer_pos ≡ 2)
editor_backspace-erases_example = editor_backspace-erases opened opened-IsEditor

second_line : get_cursor_line 80 opened ≡ 1
unfolding get_cursor_line assign_line_starts line_starts_from cursor_line_from
second_line = refl

abbrev right : KeyEvent
right = record {
  scancode = cursor_right;
  ascii = 0;
  fn = false;
  shift = false;
  ctrl = false;
  alt = false;
  special = true;
}

editor_parse-IsEditor_example :
    IsEditor (editor_parse 80 512 right (load_text 512 (some short_text))).0
unfolding load_text strlen
editor_parse-IsEditor_example =
    editor_parse-IsEditor 80 512 right (omega arith) (load_text 512 (some short_text))
      (load_text-IsEditor 512 (some short_text) (omega arith)) (omega arith)

update_to_screen-ends_example :
    (e' : Editor) × (s : Screen) × (update_to_screen 2000 80 25 true opened ≡ some (e', some s))
    × (update_to_screen 2000 80 25 false opened ≡ some (e', none))
    × (s.text_length ≤ 1841)
    × (e'.startline ≤ get_cursor_line 80 opened)
    × (get_cursor_line 80 opened < e'.startline + 23)
update_to_screen-ends_example =
    update_to_screen-ends 2000 80 25 opened (omega arith) (omega arith) (omega arith)
      (omega (arith, second_line)) (omega arith)

-- A newline in the last row, with a character behind it: five cells of a screen of four are written.
overrun : Option ℕ
unfolding draw fill
overrun =
    elim (draw 2 4 0
      (record {
        text_buffer = 97 ∷ 98 ∷ 99 ∷ 10 ∷ 100 ∷ 0 ∷ [];
        char_len = 5;
        text_buffer_pos = 0;
        text_buffer_size = 6;
        startline = 0;
      })
      6
      (record {
        cells = replicate 4 0;
        text_length = 0;
        row = 0;
        col = 0;
        buffer_length = 0;
        final_place = none;
      })) [ none ↦ none | some s ↦ some s.text_length ]

overrun_lem : overrun ≡ some 5
unfolding overrun
overrun_lem = refl
