-- ===== src/Editor/Edits.antt =====
-- Typing and erasing a character, on the text before and behind the cursor.
use pygmali_os.Base.Texts.{text-pointwise, get_or-inserted, get_or-erased}
use pygmali_os.Base.{
  ℕ, ◌+◌, ◌-◌, ◌^◌, ◌≤◌, ◌<◌, ◌≡◌, ◌≢◌, ◌∙◌, inl, inr, refl, sym, arith, true, false, ◌||◌, ◌∷◌,
  ◌++◌, ◌==◌, leb, ltb, if◌then◌else◌, get_or, set, take, drop, replicate, length, length-set,
  get_or-set, length-append, length-take, length-drop, length-replicate, get_or-append_left,
  get_or-take, Bool-cases, else-taken, u64,
}
use pygmali_os.CString.{memmove}
use pygmali_os.CString.Moves.{memmove-moved}
use pygmali_os.Editor.{Editor, grow, clamp, put_char, editor_write, editor_backspace, text}

-- The text ends with a zero byte inside its block, and the cursor is in it.
pub record IsEditor (e : Editor) : Type 0 where
  pub block : length e.text_buffer ≡ e.text_buffer_size
  pub room : e.char_len < e.text_buffer_size
  pub cursor : e.text_buffer_pos ≤ e.char_len
  pub end : get_or e.text_buffer e.char_len 0 ≡ 0
  pub characters : (i : ℕ) → i < e.char_len → get_or e.text_buffer i 0 ≢ 0

module _ (c : ℕ) (e : Editor) (v : IsEditor e) (room : e.char_len + 1 < e.text_buffer_size)
    (visible : c ≢ 0) where
  abbrev pos : ℕ
  pos = e.text_buffer_pos

  put_char-byte :
      (i : ℕ)
      → i < e.char_len + 2
      → get_or (put_char c e).text_buffer i 0 ≡ (
          if i == e.char_len + 1
          then 0
          else if i == pos
          then c
          else if ltb i pos
          then get_or e.text_buffer i 0
          else get_or e.text_buffer (i - 1) 0)
  put_char-byte i l =
      let (n, m) =
        memmove-moved (pos + 1) pos (e.char_len - pos + 1) e.text_buffer
          (omega (arith, v.block, v.cursor, room)) in
      let shifted = memmove (pos + 1) pos (e.char_len - pos + 1) e.text_buffer in
      rw
        (
          get_or-set (set shifted pos c) (e.char_len + 1) i 0 0
              (omega (arith, length-set shifted pos c, n, v.block, room)),
          get_or-set shifted pos i c 0 (omega (arith, n, v.block, v.cursor, room)),
          m i,
        )
        (ground (arith, v.cursor, l))

  put_char-IsEditor : IsEditor (put_char c e)
  put_char-IsEditor =
      let (n, m) =
        memmove-moved (pos + 1) pos (e.char_len - pos + 1) e.text_buffer
          (omega (arith, v.block, v.cursor, room)) in
      record {
        block = length-set _ (e.char_len + 1) 0 ∙ (length-set _ pos c ∙ (n ∙ v.block));
        room = room;
        cursor = omega (arith, v.cursor);
        end = put_char-byte (e.char_len + 1) (omega arith) ∙ ground arith;
        characters = λ i l.
            rw (put_char-byte i (omega arith))
              (ground (arith, visible, v.cursor, l, v.characters i, v.characters (i - 1)));
      }

  put_char-text : text (put_char c e) ≡ take pos (text e) ++ c ∷ drop pos (text e)
  put_char-text =
      let t = text e in
      let whole : length t ≡ e.char_len =
        omega (arith, length-take e.char_len e.text_buffer, v.block, v.room) in
      let len : length (take pos t ++ c ∷ drop pos t) ≡ e.char_len + 1 = omega (
        arith,
        length-append (take pos t) (c ∷ drop pos t),
        length-take pos t,
        length-drop pos t,
        whole,
        v.cursor,
      ) in
      text-pointwise (put_char c e).text_buffer (e.char_len + 1) _
        (omega (arith, put_char-IsEditor.block, room)) len
        (λ i l.
          put_char-byte i (omega arith)
          ∙ sym (
              get_or-inserted t pos c i (omega (arith, whole, v.cursor))
              ∙ ground (
                arith,
                l,
                v.cursor,
                get_or-take e.char_len e.text_buffer i 0,
                get_or-take e.char_len e.text_buffer (i - 1) 0,
              )))

-- Making the block larger keeps the text and the cursor.
grow-IsEditor :
    (cluster_bytes : ℕ) (e : Editor)
    → IsEditor e
    → 2 ≤ cluster_bytes
    → e.text_buffer_size + cluster_bytes < 2 ^ 64
    → IsEditor (grow cluster_bytes e)
      × ((grow cluster_bytes e).char_len + 1 < (grow cluster_bytes e).text_buffer_size)
      × (text (grow cluster_bytes e) ≡ text e)
      × ((grow cluster_bytes e).text_buffer_pos ≡ e.text_buffer_pos)
grow-IsEditor k e v two l = elim (Bool-cases (leb e.text_buffer_size (e.char_len + 1))) [
  | inr s ↦ rw s (v, ground arith, refl, refl)
  | inl s ↦
      let same : (i : ℕ)
          → i ≤ e.char_len
          → get_or (e.text_buffer ++ replicate k 0) i 0 ≡ get_or e.text_buffer i 0 =
        λ i h.
          get_or-append_left e.text_buffer (replicate k 0) i 0
            (omega (arith, v.block, v.room, h)) in
      let size : u64 (e.text_buffer_size + k) ≡ e.text_buffer_size + k = omega (arith, l) in
      let grown : length (e.text_buffer ++ replicate k 0) ≡ e.text_buffer_size + k = omega (
        arith,
        length-append e.text_buffer (replicate k 0),
        length-replicate {A = ℕ} k 0,
        v.block,
      ) in
      let keep : take e.char_len (e.text_buffer ++ replicate k 0) ≡ text e =
        text-pointwise _ e.char_len (text e) (omega (arith, grown, v.room))
          (omega (arith, length-take e.char_len e.text_buffer, v.block, v.room))
          (λ i h. same i (omega (arith, h)) ∙ sym (get_or-take e.char_len e.text_buffer i 0 h)) in
      rw s (
        record {
          block = grown ∙ sym size;
          room = omega (arith, size, v.room);
          cursor = v.cursor;
          end = same e.char_len (omega arith) ∙ v.end;
          characters = λ i h. rw (same i (omega (arith, h))) (v.characters i h);
        },
        omega (arith, size, v.room, two),
        keep,
        refl,
      )
]

-- The text without the character before the cursor.
module _ (e : Editor) (v : IsEditor e) (some : 0 < e.text_buffer_pos) where
  abbrev after : Editor
  after =
      let pos = e.text_buffer_pos in
      let shifted = memmove (pos - 1) pos (e.char_len - pos + 1) e.text_buffer in
      record e {
        text_buffer = set shifted (e.char_len - 1) 0;
        char_len = e.char_len - 1;
        text_buffer_pos = pos - 1;
      }

  after-byte :
      (i : ℕ)
      → i < e.char_len
      → get_or after.text_buffer i 0 ≡ (
          if i == e.char_len - 1
          then 0
          else if ltb i (e.text_buffer_pos - 1)
          then get_or e.text_buffer i 0
          else get_or e.text_buffer (i + 1) 0)
  after-byte i l =
      let pos = e.text_buffer_pos in
      let (n, m) =
        memmove-moved (pos - 1) pos (e.char_len - pos + 1) e.text_buffer
          (omega (arith, v.block, v.cursor, v.room)) in
      let shifted = memmove (pos - 1) pos (e.char_len - pos + 1) e.text_buffer in
      let at : leb (pos - 1) i ≡ true → pos + (i - (pos - 1)) ≡ i + 1 = λ k. ground arith in
      rw
        (
          get_or-set shifted (e.char_len - 1) i 0 0 (omega (arith, n, v.block, v.room, v.cursor)),
          m i,
        )
        (ground (arith, v.cursor, l, at, v.end))

  after-IsEditor : IsEditor after
  after-IsEditor =
      let pos = e.text_buffer_pos in
      let (n, m) =
        memmove-moved (pos - 1) pos (e.char_len - pos + 1) e.text_buffer
          (omega (arith, v.block, v.cursor, v.room)) in
      record {
        block = length-set _ (e.char_len - 1) 0 ∙ (n ∙ v.block);
        room = omega (arith, v.room);
        cursor = omega (arith, v.cursor);
        end = after-byte (e.char_len - 1) (omega (arith, v.cursor)) ∙ ground arith;
        characters = λ i l.
            rw (after-byte i (omega arith))
              (ground (arith, v.cursor, l, v.characters i, v.characters (i + 1)));
      }

  after-text : text after ≡ take (e.text_buffer_pos - 1) (text e) ++ drop e.text_buffer_pos (text e)
  after-text =
      let pos = e.text_buffer_pos in
      let t = text e in
      let whole : length t ≡ e.char_len =
        omega (arith, length-take e.char_len e.text_buffer, v.block, v.room) in
      let len : length (take (pos - 1) t ++ drop pos t) ≡ e.char_len - 1 = omega (
        arith,
        length-append (take (pos - 1) t) (drop pos t),
        length-take (pos - 1) t,
        length-drop pos t,
        whole,
        v.cursor,
      ) in
      text-pointwise after.text_buffer (e.char_len - 1) _
        (omega (arith, after-IsEditor.block, v.room)) len
        (λ i l.
          after-byte i (omega arith)
          ∙ sym (
              get_or-erased t pos i (omega arith) (omega (arith, whole, v.cursor))
              ∙ ground (
                arith,
                l,
                v.cursor,
                get_or-take e.char_len e.text_buffer i 0,
                get_or-take e.char_len e.text_buffer (i + 1) 0,
              )))

-- Typing a character puts it at the cursor and moves the cursor behind it. The text keeps its end
-- inside the block, which is made larger by a cluster where it must be, memory being enough for it and
-- its size within 64 bits.
pub editor_write-inserts :
    (cluster_bytes c : ℕ) (e : Editor)
    → IsEditor e
    → c ≢ 0
    → 2 ≤ cluster_bytes
    → e.text_buffer_size + cluster_bytes < 2 ^ 64
    → let e' = editor_write cluster_bytes c e in
      IsEditor e'
      × (text e' ≡ take e.text_buffer_pos (text e) ++ c ∷ drop e.text_buffer_pos (text e))
      × (e'.text_buffer_pos ≡ e.text_buffer_pos + 1)
unfolding editor_write
editor_write-inserts k c e v visible two l =
    let (w, room, same, still) = grow-IsEditor k e v two l in
    let g = grow k e in
    let clamped : clamp g ≡ g =
      else-taken (ltb g.char_len g.text_buffer_pos) _ _ (ground (arith, w.cursor)) in
    let typed = put_char-text c g w room visible in
    rw clamped
      (put_char-IsEditor c g w room visible, rw (typed, same, still) refl, omega (arith, still))

-- Erasing takes the character before the cursor out of the text, if there is one.
pub editor_backspace-erases :
    (e : Editor)
    → IsEditor e
    → let e' = editor_backspace e in
      IsEditor e'
      × (text e' ≡ take (e.text_buffer_pos - 1) (text e) ++ drop e.text_buffer_pos (text e))
      × (e'.text_buffer_pos ≡ e.text_buffer_pos - 1)
unfolding editor_backspace
editor_backspace-erases e v = elim (Bool-cases (e.text_buffer_pos == 0)) [
  | inl z ↦
      let zero_pos : e.text_buffer_pos ≡ 0 = ground arith in
      let stop : (e.char_len == 0 || e.text_buffer_pos == 0) ≡ true = ground arith in
      rw stop (v, rw zero_pos refl, omega (arith, zero_pos))
  | inr z ↦
      let go : (e.char_len == 0 || e.text_buffer_pos == 0) ≡ false = ground (arith, v.cursor) in
      let some : 0 < e.text_buffer_pos = ground arith in
      rw go (after-IsEditor e v some, after-text e v some, refl)
]
