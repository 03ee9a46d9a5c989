-- ===== src/Editor.antt =====
-- src/galatea.c: the text editor. The text stands in a block of the heap that grows; its end is
-- marked by a zero byte. `kmalloc` and `krealloc` find the memory that they are asked for.
pub mod Edits
pub mod Lines
pub mod Keys
pub mod Drawing
pub mod Screen
pub mod Start
mod Tests
use pygmali_os.Base.{
  ℕ, zero, suc, ◌+◌, ◌-◌, ◌*◌, ◌/◌, ◌%◌, ◌^◌, Bool, true, false, ◌&&◌, ◌||◌, not, List, [], ◌∷◌,
  ◌++◌, ◌==◌, leb, ltb, if◌then◌else◌, get_or, set, take, replicate, length, u64, sub32, Option,
  none, some,
}
use pygmali_os.CString.{memmove, strlen}
use pygmali_os.Keyboard.{KeyEvent}

pub record Editor : Type 0 where
  pub text_buffer : List ℕ
  pub char_len : ℕ
  pub text_buffer_pos : ℕ
  pub text_buffer_size : ℕ
  pub startline : ℕ

-- The text that `init_editor` starts with: that of the file, up to its first zero byte, or none.
unfoldable pub load_text : ℕ → Option (List ℕ) → Editor
load_text cluster_bytes none = record {
  text_buffer = replicate cluster_bytes 0;
  char_len = 0;
  text_buffer_pos = 0;
  text_buffer_size = cluster_bytes;
  startline = 0;
}
load_text cluster_bytes (some filetext) =
    let len = strlen filetext in
    record {
      text_buffer = take (len + 1) (filetext ++ 0 ∷ []);
      char_len = len;
      text_buffer_pos = 0;
      text_buffer_size = len + 1;
      startline = 0;
    }

-- The block is made larger by a cluster when the text would fill it.
abbrev pub grow : ℕ → Editor → Editor
grow cluster_bytes e =
    if leb e.text_buffer_size (e.char_len + 1)
    then record e {
      text_buffer_size = u64 (e.text_buffer_size + cluster_bytes);
      text_buffer = e.text_buffer ++ replicate cluster_bytes 0;
    }
    else e

abbrev pub clamp : Editor → Editor
clamp e = if ltb e.char_len e.text_buffer_pos then record e { text_buffer_pos = e.char_len } else e

-- The bytes from the cursor on make room, and the character is put there.
abbrev pub put_char : ℕ → Editor → Editor
put_char c e =
    let pos = e.text_buffer_pos in
    let shifted = memmove (pos + 1) pos (e.char_len - pos + 1) e.text_buffer in
    record e {
      text_buffer = set (set shifted pos c) (e.char_len + 1) 0;
      char_len = e.char_len + 1;
      text_buffer_pos = pos + 1;
    }

unfoldable pub editor_write : ℕ → ℕ → Editor → Editor
editor_write cluster_bytes c e = put_char c (clamp (grow cluster_bytes e))

unfoldable pub editor_backspace : Editor → Editor
editor_backspace e =
    let pos = e.text_buffer_pos in
    let shifted = memmove (pos - 1) pos (e.char_len - pos + 1) e.text_buffer in
    if e.char_len == 0 || pos == 0 then e else record e {
      text_buffer = set shifted (e.char_len - 1) 0;
      char_len = e.char_len - 1;
      text_buffer_pos = pos - 1;
    }

abbrev pub tab : ℕ
tab = 9

abbrev pub newline : ℕ
newline = 10

-- The column behind a tab, and behind any other character.
abbrev pub after_tab : ℕ → ℕ → ℕ
after_tab c line_len = if c == tab then line_len + (4 - line_len % 4) else line_len

-- The loop over the text, with `n` characters left: where the next lines start.
unfoldable pub line_starts_from : ℕ → ℕ → ℕ → ℕ → List ℕ → List ℕ
line_starts_from zero i line_len width text = []
line_starts_from (suc n) i line_len width text =
    let c = get_or text i 0 in
    let col = after_tab c line_len in
    let starts = leb (sub32 width 1) col || c == newline in
    let rest = line_starts_from n (i + 1) (if starts then 0 else col + 1) width text in
    if starts then (i + 1) ∷ rest else rest

unfoldable pub assign_line_starts : ℕ → Editor → List ℕ
assign_line_starts width e = 0 ∷ line_starts_from e.char_len 0 0 width e.text_buffer

-- The loop over the lines: the last one that starts at or before the cursor.
unfoldable pub cursor_line_from : List ℕ → ℕ → ℕ → ℕ → ℕ
cursor_line_from [] i pos cursor_line = cursor_line
cursor_line_from (s ∷ ss) i pos cursor_line =
    let rest = cursor_line_from ss (i + 1) pos i in if ltb pos s then cursor_line else rest

unfoldable pub get_cursor_line : ℕ → Editor → ℕ
get_cursor_line width e = cursor_line_from (assign_line_starts width e) 0 e.text_buffer_pos 0

-- What a key makes the editor do outside its text.
pub data Effect : Type 0 where
  save : List ℕ → Effect
  leave : Effect
  redraw : Effect

abbrev pub backspace_key : ℕ
backspace_key = 0x66

abbrev pub cursor_up : ℕ
cursor_up = 0x75

abbrev pub cursor_down : ℕ
cursor_down = 0x72

abbrev pub cursor_left : ℕ
cursor_left = 0x6B

abbrev pub cursor_right : ℕ
cursor_right = 0x74

-- The text that is written to the file.
abbrev pub text : Editor → List ℕ
text e = take e.char_len e.text_buffer

-- The loop of the key "up": the last start before the cursor, if there is one.
unfoldable pub start_before : List ℕ → ℕ → ℕ → Bool → ℕ × Bool
start_before [] pos last found = (last, found)
start_before (s ∷ ss) pos last found =
    let rest = start_before ss pos s true in if leb pos s then (last, found) else rest

-- The loop of the key "down": the first start behind the cursor, or the cursor.
unfoldable pub start_behind : List ℕ → ℕ → ℕ × Bool
start_behind [] pos = (pos, false)
start_behind (s ∷ ss) pos = if ltb pos s then (s, true) else start_behind ss pos

abbrev pub is_special : KeyEvent → ℕ → Bool
is_special key code = key.scancode == code && key.special

abbrev pub left_key : KeyEvent → Editor → Editor
left_key key e =
    if is_special key cursor_left && ltb 0 e.text_buffer_pos
    then record e { text_buffer_pos = e.text_buffer_pos - 1 }
    else e

abbrev pub right_key : KeyEvent → Editor → Editor
right_key key e =
    if is_special key cursor_right && ltb e.text_buffer_pos e.char_len
    then record e { text_buffer_pos = e.text_buffer_pos + 1 }
    else e

abbrev pub type_key : ℕ → KeyEvent → Editor → Editor
type_key cluster_bytes key e = if key.ascii == 0 then e else editor_write cluster_bytes key.ascii e

-- The cursor keys left and right and the characters, in the order of the source.
unfoldable pub edit_keys : ℕ → KeyEvent → Editor → Editor × List Effect
edit_keys cluster_bytes key e = (
  type_key cluster_bytes key (right_key key (left_key key e)),
  (if is_special key cursor_left then redraw ∷ [] else [])
      ++ (if is_special key cursor_right then redraw ∷ [] else [])
      ++ (if key.ascii == 0 then [] else redraw ∷ []),
)

-- The key "down" returns when it has moved the cursor.
unfoldable pub down_key : ℕ → ℕ → KeyEvent → Editor → Editor × List Effect
down_key width cluster_bytes key e =
    let (pos, found) = start_behind (assign_line_starts width e) e.text_buffer_pos in
    if is_special key cursor_down && found
    then (record e { text_buffer_pos = pos }, redraw ∷ [])
    else edit_keys cluster_bytes key e

-- The key "up" returns when no line starts before the cursor.
unfoldable pub up_key : ℕ → ℕ → KeyEvent → Editor → Editor × List Effect
up_key width cluster_bytes key e =
    let (pos, found) = start_before (assign_line_starts width e) e.text_buffer_pos 0 false in
    let (e', effects) = down_key width cluster_bytes key (record e { text_buffer_pos = pos }) in
    if not (is_special key cursor_up)
    then down_key width cluster_bytes key e
    else if found
    then (e', redraw ∷ effects)
    else (e, [])

-- On leaving, the block of the text is given back to the heap: the text is the one that was left, and
-- `init_editor` starts from another.
unfoldable pub editor_parse : ℕ → ℕ → KeyEvent → Editor → Editor × List Effect
editor_parse width cluster_bytes key e =
    if key.ascii == b'q' && key.ctrl
    then (e, leave ∷ [])
    else if key.ascii == b'w' && key.ctrl
    then (e, save (text e) ∷ redraw ∷ [])
    else if key.ascii == b's' && key.ctrl
    then (e, save (text e) ∷ redraw ∷ leave ∷ [])
    else if key.scancode == backspace_key
    then (editor_backspace e, redraw ∷ [])
    else up_key width cluster_bytes key e
