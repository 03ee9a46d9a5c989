-- ===== src/Keyboard/Tests.antt =====
-- The keyboard at fixed inputs.
use pygmali_os.Base.{
  ℕ, zero, suc, get_or, ◌≡◌, refl, arith, false, some, List, [], ◌∷◌, replicate, set,
}
use pygmali_os.Io.{inb, outb}
use pygmali_os.Keyboard.{
  Keyboard, no_event, write_to_buffer, read_from_buffer, update_key_state, scancode_to_char,
  get_keyevent,
}
use pygmali_os.Keyboard.Layout.{ascii_map}
use pygmali_os.Keyboard.Ring.{IsKeyboard, contents, write_to_buffer-append}
use pygmali_os.Keyboard.ScanCodes.{release_extended, read_from_buffer-bytes}

-- 0xF0 0x1C then 0x32 wait at the end of the buffer and round it.
abbrev ring : List ℕ
ring = set (set (set (replicate 256 0) 254 0xF0) 255 0x1C) 0 0x32

abbrev board : Keyboard
board = record {
  buffer = ring;
  head = 1;
  tail = 254;
  key_state = replicate 512 false;
  capslock_on = false;
}

board-IsKeyboard : IsKeyboard board
board-IsKeyboard = record {
  buffer_size = refl;
  head_in = omega arith;
  tail_in = omega arith;
  keys_size = refl;
}

released : Keyboard
released = record board { tail = 0 }

typed : (get_keyevent 0 released).0 ≡ some (record no_event { scancode = 0x32; ascii = 98 })
unfolding released get_keyevent read_from_buffer update_key_state scancode_to_char ascii_map
typed = refl

replicate-IsQuiet : (n j : ℕ) → get_or (replicate n false) j false ≡ false
replicate-IsQuiet zero j = refl
replicate-IsQuiet (suc n) zero = refl
replicate-IsQuiet (suc n) (suc j) = replicate-IsQuiet n j

write_to_buffer-append_example :
    let (k', io) = write_to_buffer 0x5A board in
    IsKeyboard k'
    × (contents k' ≡ 0xF0 ∷ 0x1C ∷ 0x32 ∷ 0x5A ∷ [])
    × (io ≡ inb 0x60 ∷ outb 0x20 0x20 ∷ [])
write_to_buffer-append_example = write_to_buffer-append 0x5A board board-IsKeyboard

-- 0xE0 0xF0 0x75, the release of the upper cursor key.
abbrev cursor_board : Keyboard
cursor_board = record board { buffer = set (set (set (replicate 256 0) 254 0xE0) 255 0xF0) 0 0x75 }

cursor-IsKeyboard : IsKeyboard cursor_board
cursor-IsKeyboard = record {
  buffer_size = refl;
  head_in = omega arith;
  tail_in = omega arith;
  keys_size = refl;
}

read_from_buffer-bytes_example :
    (k' : Keyboard) × (read_from_buffer 0 cursor_board ≡ some (504, k'))
    × IsKeyboard k'
    × (contents k' ≡ [])
    × (k'.key_state ≡ replicate 512 false)
    × (k'.capslock_on ≡ false)
read_from_buffer-bytes_example =
    read_from_buffer-bytes 0 cursor_board (release_extended 0x75) [] cursor-IsKeyboard refl
      (omega arith) tt

abbrev early : Keyboard
early = record board { head = 255 }

early-IsKeyboard : IsKeyboard early
early-IsKeyboard = record {
  buffer_size = refl;
  head_in = omega arith;
  tail_in = omega arith;
  keys_size = refl;
}
