-- ===== src/Editor/Keys.antt =====
-- Every key keeps the editor's text well-formed.
use pygmali_os.Base.{
  ℕ, ◌+◌, ◌-◌, ◌^◌, ◌≤◌, ◌<◌, ◌≡◌, inl, inr, refl, arith, Bool, true, false, ◌&&◌, not, List, [],
  ◌∷◌, ◌==◌, leb, ltb, Bool-cases,
}
use pygmali_os.Keyboard.{KeyEvent}
use pygmali_os.Editor.{
  Editor, assign_line_starts, start_before, start_behind, is_special, backspace_key, cursor_up,
  cursor_down, cursor_left, cursor_right, left_key, right_key, type_key, edit_keys, down_key,
  up_key, editor_parse,
}
use pygmali_os.Editor.Edits.{IsEditor, editor_write-inserts, editor_backspace-erases}
use pygmali_os.Editor.Lines.{Ascends, assign_line_starts-Ascends}

placed-IsEditor :
    (e : Editor) (p : ℕ) → IsEditor e → p ≤ e.char_len → IsEditor (record e { text_buffer_pos = p })
placed-IsEditor e p v l = record {
  block = v.block;
  room = v.room;
  cursor = l;
  end = v.end;
  characters = v.characters;
}

start_before-le :
    (ss : List ℕ) (pos last : ℕ) (found : Bool)
    → last ≤ pos
    → (start_before ss pos last found).0 ≤ pos
unfolding start_before
start_before-le [] pos last found l = l
start_before-le (s ∷ ss) pos last found l = elim (Bool-cases (leb pos s)) [
  | inl e ↦ rw e l
  | inr e ↦ rw e (start_before-le ss pos s true (ground arith))
]

start_behind-le :
    (ss : List ℕ) (lo hi pos : ℕ) → Ascends lo hi ss → pos ≤ hi → (start_behind ss pos).0 ≤ hi
unfolding start_behind
start_behind-le [] lo hi pos a l = l
start_behind-le (s ∷ ss) lo hi pos a l = elim (Bool-cases (ltb pos s)) [
  | inl e ↦ rw e a.1
  | inr e ↦ rw e (start_behind-le ss (s + 1) hi pos a.2 l)
]

module _ (width cluster_bytes : ℕ) (key : KeyEvent) (two : 2 ≤ cluster_bytes) where
  left_key-IsEditor :
      (e : Editor)
      → IsEditor e
      → IsEditor (left_key key e) × ((left_key key e).text_buffer_size ≡ e.text_buffer_size)
  left_key-IsEditor e v =
      elim (Bool-cases (is_special key cursor_left && ltb 0 e.text_buffer_pos)) [
        | inl m ↦ rw m (placed-IsEditor e (e.text_buffer_pos - 1) v (omega (arith, v.cursor)), refl)
        | inr m ↦ rw m (v, refl)
      ]

  right_key-IsEditor :
      (e : Editor)
      → IsEditor e
      → IsEditor (right_key key e) × ((right_key key e).text_buffer_size ≡ e.text_buffer_size)
  right_key-IsEditor e v =
      elim (Bool-cases (is_special key cursor_right && ltb e.text_buffer_pos e.char_len)) [
        | inl m ↦ rw m (placed-IsEditor e (e.text_buffer_pos + 1) v (ground arith), refl)
        | inr m ↦ rw m (v, refl)
      ]

  type_key-IsEditor :
      (e : Editor)
      → IsEditor e
      → e.text_buffer_size + cluster_bytes < 2 ^ 64
      → IsEditor (type_key cluster_bytes key e)
  type_key-IsEditor e v l = elim (Bool-cases (key.ascii == 0)) [
    | inl m ↦ rw m v
    | inr m ↦ rw m (editor_write-inserts cluster_bytes key.ascii e v (ground arith) two l).0
  ]

  edit_keys-IsEditor :
      (e : Editor)
      → IsEditor e
      → e.text_buffer_size + cluster_bytes < 2 ^ 64
      → IsEditor (edit_keys cluster_bytes key e).0
  unfolding edit_keys
  edit_keys-IsEditor e v l =
      let (v1, s1) = left_key-IsEditor e v in
      let (v2, s2) = right_key-IsEditor (left_key key e) v1 in
      type_key-IsEditor (right_key key (left_key key e)) v2 (omega (arith, s1, s2))

  down_key-IsEditor :
      (e : Editor)
      → IsEditor e
      → e.text_buffer_size + cluster_bytes < 2 ^ 64
      → IsEditor (down_key width cluster_bytes key e).0
  unfolding down_key
  down_key-IsEditor e v l =
      let (pos, found) = start_behind (assign_line_starts width e) e.text_buffer_pos in
      let low =
        start_behind-le (assign_line_starts width e) 0 e.char_len e.text_buffer_pos
          (assign_line_starts-Ascends width e) v.cursor in
      elim (Bool-cases (is_special key cursor_down && found)) [
        | inl m ↦ rw m (placed-IsEditor e pos v low)
        | inr m ↦ rw m (edit_keys-IsEditor e v l)
      ]

  up_key-IsEditor :
      (e : Editor)
      → IsEditor e
      → e.text_buffer_size + cluster_bytes < 2 ^ 64
      → IsEditor (up_key width cluster_bytes key e).0
  unfolding up_key
  up_key-IsEditor e v l =
      let (pos, found) = start_before (assign_line_starts width e) e.text_buffer_pos 0 false in
      let low =
        start_before-le (assign_line_starts width e) e.text_buffer_pos 0 false (omega arith) in
      let up = placed-IsEditor e pos v (omega (arith, low, v.cursor)) in
      elim (Bool-cases (not (is_special key cursor_up))) [
        | inl m ↦ rw m (down_key-IsEditor e v l)
        | inr m ↦ elim (Bool-cases found) [
          | inl f ↦ rw (m, f) (down_key-IsEditor (record e { text_buffer_pos = pos }) up l)
          | inr f ↦ rw (m, f) v
        ]
      ]

  -- Whatever key is pressed, the text keeps its end inside its block and the cursor stays in it, memory
  -- being enough for a larger block and its size within 64 bits.
  pub editor_parse-IsEditor :
      (e : Editor)
      → IsEditor e
      → e.text_buffer_size + cluster_bytes < 2 ^ 64
      → IsEditor (editor_parse width cluster_bytes key e).0
  unfolding editor_parse
  editor_parse-IsEditor e v l =
      let w = key.ascii == b'w' && key.ctrl in
      let q = key.ascii == b'q' && key.ctrl in
      let s = key.ascii == b's' && key.ctrl in
      elim (Bool-cases q) [
        | inl k ↦ rw k v
        | inr k ↦ elim (Bool-cases w) [
          | inl m ↦ rw (k, m) v
          | inr m ↦ elim (Bool-cases s) [
            | inl n ↦ rw (k, m, n) v
            | inr n ↦ elim (Bool-cases (key.scancode == backspace_key)) [
              | inl b ↦ rw (k, m, n, b) (editor_backspace-erases e v).0
              | inr b ↦ rw (k, m, n, b) (up_key-IsEditor e v l)
            ]
          ]
        ]
      ]
