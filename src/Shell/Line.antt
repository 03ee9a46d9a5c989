-- ===== src/Shell/Line.antt =====
-- src/writingmode.c: what a key does to the line that is typed.
use pygmali_os.Base.{
  ℕ, ◌+◌, ◌-◌, ◌≤◌, ◌<◌, ◌≡◌, ◌∙◌, inl, inr, refl, sym, ap, arith, true, false, ◌&&◌, List, [], ◌∷◌,
  ◌++◌, ◌==◌, leb, ltb, if◌then◌else◌, get_or, set, take, drop, length, Bool-cases,
}
use pygmali_os.Base.{
  some, length-set, length-take, length-drop, length-append, get_or-set, get_or-set_self,
  get_or-set_ne, get_or-take,
}
use pygmali_os.CString.{memmove, move_up, move_down}
use pygmali_os.CString.Moves.{memmove-moved}
use pygmali_os.Base.Texts.{text-pointwise, get_or-inserted, take_whole, drop_past}
use pygmali_os.Shell.{Input, add_to_input_buffer, remove_from_input_buffer}

-- The buffer holds its bytes, the cursor is in the text, and behind the text is a zero byte.
pub record IsInput (i : Input) : Type 0 where
  pub size : length i.input_buffer ≡ 1024
  pub room : i.input_len < 1024
  pub cursor : i.input_pos ≤ i.input_len
  pub ended : get_or i.input_buffer i.input_len 0 ≡ 0

abbrev pub line : Input → List ℕ
line i = take i.input_len i.input_buffer

module _ (c : ℕ) (i : Input) (v : IsInput i) (room : i.input_len < 1023) where
  abbrev pos : ℕ
  pos = i.input_pos

  abbrev added : Input
  added = record {
    input_buffer = set (memmove (pos + 1) pos (i.input_len - pos + 1) i.input_buffer) pos c;
    input_len = i.input_len + 1;
    input_pos = pos + 1;
  }

  added-byte :
      (j : ℕ)
      → j < i.input_len + 2
      → get_or added.input_buffer j 0 ≡ (
          if ltb j pos
          then get_or i.input_buffer j 0
          else if j == pos
          then c
          else get_or i.input_buffer (j - 1) 0)
  added-byte j l =
      let (n, m) =
        memmove-moved (pos + 1) pos (i.input_len - pos + 1) i.input_buffer
          (omega (arith, v.size, v.cursor, room)) in
      get_or-set _ pos j c 0 (omega (arith, n, v.size, v.cursor, room))
      ∙ rw (m j) (ground (arith, v.cursor, l))

  added-IsInput : IsInput added
  added-IsInput =
      let (n, m) =
        memmove-moved (pos + 1) pos (i.input_len - pos + 1) i.input_buffer
          (omega (arith, v.size, v.cursor, room)) in
      record {
        size = length-set _ pos c ∙ (n ∙ v.size);
        room = omega (arith, room);
        cursor = omega (arith, v.cursor);
        ended = added-byte (i.input_len + 1) (omega arith) ∙ ground (arith, v.cursor, v.ended);
      }

  added-line : line added ≡ take pos (line i) ++ c ∷ drop pos (line i)
  added-line =
      let t = line i in
      let whole : length t ≡ i.input_len =
        omega (arith, length-take i.input_len i.input_buffer, v.size, v.room) in
      let len : length (take pos t ++ c ∷ drop pos t) ≡ i.input_len + 1 = omega (
        arith,
        length-append (take pos t) (c ∷ drop pos t),
        length-take pos t,
        length-drop pos t,
        whole,
        v.cursor,
      ) in
      text-pointwise added.input_buffer (i.input_len + 1) _
        (omega (arith, added-IsInput.size, room)) len
        (λ j l.
          added-byte j (omega arith)
          ∙ sym (
              get_or-inserted t pos c j (omega (arith, whole, v.cursor))
              ∙ ground (
                arith,
                l,
                v.cursor,
                get_or-take i.input_len i.input_buffer j 0,
                get_or-take i.input_len i.input_buffer (j - 1) 0,
              )))

-- Typing a character puts it at the cursor and moves the cursor behind it, as long as the line is
-- shorter than 1023 bytes; a longer line stays as it is.
pub add_to_input_buffer-inserts :
    (c : ℕ) (i : Input)
    → IsInput i
    → (i' : Input) × (add_to_input_buffer c i ≡ some i')
      × IsInput i'
      × (line i' ≡ (
          if ltb i.input_len 1023
          then take i.input_pos (line i) ++ c ∷ drop i.input_pos (line i)
          else line i))
      × (i'.input_pos ≡ (if ltb i.input_len 1023 then i.input_pos + 1 else i.input_pos))
unfolding add_to_input_buffer
add_to_input_buffer-inserts c i v = elim (Bool-cases (leb 1023 i.input_len)) [
  | inl e ↦
      let full : ltb i.input_len 1023 ≡ false = ground arith in
      rw (e, full) (i, refl, v, refl, refl)
  | inr e ↦
      let room : i.input_len < 1023 = ground arith in
      let free : ltb i.input_len 1023 ≡ true = ground arith in
      let inside : ltb i.input_len i.input_pos ≡ false = ground (arith, v.cursor) in
      rw (e, free, inside)
        (added c i v room, refl, added-IsInput c i v room, added-line c i v room, refl)
]

memmove-nothing : (dest src : ℕ) (bytes : List ℕ) → memmove dest src 0 bytes ≡ bytes
unfolding memmove move_up move_down
memmove-nothing dest src bytes = elim (Bool-cases (ltb dest src)) [
  | inl e ↦ rw e refl
  | inr e ↦ rw e refl
]

remove_from_input_buffer-last :
    (buffer : List ℕ) (n : ℕ)
    → remove_from_input_buffer
        (record { input_buffer = buffer; input_len = n + 1; input_pos = n + 1 })
      ≡ some (record { input_buffer = set buffer n 0; input_len = n; input_pos = n })
unfolding remove_from_input_buffer
remove_from_input_buffer-last buffer n =
    let some_left : (n + 1 == 0) ≡ false = ground arith in
    let inside : ltb (n + 1) (n + 1) ≡ false = ground arith in
    let less : n + 1 - 1 ≡ n = omega arith in
    let none_left : n - n ≡ 0 = omega arith in
    let still : (n == 0 && ltb 0 n) ≡ false = ground arith in
    rw (some_left, inside, less, none_left, still, memmove-nothing (n - 1) n buffer) refl

-- Erasing a character that was typed at the end of the line takes the line back to what it was.
pub remove_from_input_buffer-add_to_input_buffer :
    (c : ℕ) (i : Input)
    → IsInput i
    → i.input_len < 1023
    → i.input_pos ≡ i.input_len
    → (i' : Input) × (i'' : Input) × (add_to_input_buffer c i ≡ some i')
      × (remove_from_input_buffer i' ≡ some i'')
      × (line i' ≡ line i ++ c ∷ [])
      × (line i'' ≡ line i)
      × (i''.input_pos ≡ i.input_pos)
      × IsInput i''
unfolding add_to_input_buffer
remove_from_input_buffer-add_to_input_buffer c i v room e =
    let a = added c i v room in
    let w = added-IsInput c i v room in
    let r : Input = record {
      input_buffer = set a.input_buffer i.input_len 0;
      input_len = i.input_len;
      input_pos = i.input_len;
    } in
    let whole : length (line i) ≡ i.input_len =
      omega (arith, length-take i.input_len i.input_buffer, v.size, v.room) in
    let typed : add_to_input_buffer c i ≡ some a =
      let free : leb 1023 i.input_len ≡ false = ground arith in
      let inside : ltb i.input_len i.input_pos ≡ false = ground (arith, v.cursor) in
      rw (free, inside) refl in
    let erased : remove_from_input_buffer a ≡ some r =
      ap (λ p. remove_from_input_buffer (record a { input_pos = p + 1 })) e
      ∙ remove_from_input_buffer-last a.input_buffer i.input_len in
    (
      a,
      r,
      typed,
      erased,
      added-line c i v room
          ∙ rw
              (
                e,
                take_whole i.input_len (line i) (omega (arith, whole)),
                drop_past i.input_len (line i) (omega (arith, whole)),
              )
              refl,
      text-pointwise r.input_buffer i.input_len (line i)
          (omega (arith, length-set a.input_buffer i.input_len 0, w.size, room)) whole
          (λ j l.
            get_or-set_ne a.input_buffer i.input_len j 0 0 (λ k. omega arith)
            ∙ (added-byte c i v room j (omega arith)
                ∙ ground (arith, l, e, get_or-take i.input_len i.input_buffer j 0))),
      sym e,
      record {
        size = length-set a.input_buffer i.input_len 0 ∙ w.size;
        room = v.room;
        cursor = omega arith;
        ended = get_or-set_self a.input_buffer i.input_len 0 0 (omega (arith, w.size, room));
      },
    )
