-- ===== src/Keyboard.antt =====
-- src/keyboardhandler.c: the ring buffer between the keyboard interrupt and the kernel's loop, the
-- decoding of scan code set 2, and the state of the keys.
pub mod Layout
pub mod Ring
pub mod ScanCodes
pub mod Keys
mod Tests
use pygmali_os.Base.{
  ℕ, ◌+◌, ◌-◌, ◌%◌, Bool, true, false, not, ◌&&◌, ◌||◌, Option, none, some, List, [], ◌∷◌, ◌==◌,
  ltb, if◌then◌else◌, get_or, set, u8, u16,
}
use pygmali_os.Io.{IoEvent, inb, pic_send_eoi}
use Layout.{ascii_map, shift_ascii_map}

-- `head` and `tail` are `uint8_t`; `key_state` has 512 elements and `keyboard_buffer` 256.
pub record Keyboard : Type 0 where
  pub buffer : List ℕ
  pub head : ℕ
  pub tail : ℕ
  pub key_state : List Bool
  pub capslock_on : Bool

-- The interrupt handler, given the byte that the controller holds.
unfoldable pub write_to_buffer : ℕ → Keyboard → Keyboard × List IoEvent
unfolding pic_send_eoi
write_to_buffer byte k =
    let next = (k.head + 1) % 256 in
    if next == k.tail
    then (k, [])
    else (record k { buffer = set k.buffer k.head byte; head = next }, inb 0x60 ∷ pic_send_eoi 1)

abbrev pub printscreen_press : ℕ
printscreen_press = 513

abbrev pub printscreen_release : ℕ
printscreen_release = 514

abbrev pub pause : ℕ
pause = 515

-- The byte `n` places behind the tail, round the buffer.
abbrev pub peek : Keyboard → ℕ → ℕ
peek k n = get_or k.buffer ((k.tail + n) % 256) 0

abbrev pub take_code : Keyboard → ℕ → ℕ → Option (ℕ × Keyboard)
take_code k value n = some (value, record k { tail = (k.tail + n) % 256 })

-- `read_from_buffer`: `none` where there is nothing to read. The test for 0x12 does not go round the
-- buffer; `beyond` is the byte that stands behind the array.
unfoldable pub read_from_buffer : ℕ → Keyboard → Option (ℕ × Keyboard)
read_from_buffer beyond k =
    if k.head == k.tail
    then none
    else if get_or k.buffer k.tail 0 == 0xE0
    then if peek k 1 == 0xF0
      then if peek k 2 == 0x7C
        then take_code k printscreen_release 6
        else take_code k (u16 (peek k 2 + 387)) 3
      else if get_or k.buffer (k.tail + 1) beyond == 0x12
      then take_code k printscreen_press 4
      else take_code k (u16 (peek k 1 + 131)) 2
    else if get_or k.buffer k.tail 0 == 0xE1
    then take_code k pause 8
    else if get_or k.buffer k.tail 0 == 0xF0
    then take_code k (u16 (peek k 1 + 256)) 2
    else take_code k (get_or k.buffer k.tail 0) 1

-- A write behind the 512 elements of `key_state` is left out.
unfoldable pub update_key_state : ℕ → Keyboard → Keyboard
update_key_state code k =
    if ltb 256 code && ltb code printscreen_press
    then record k { key_state = set k.key_state (code - 256) false }
    else record k {
      key_state = set k.key_state code true;
      capslock_on = if code == 0x58 then not k.capslock_on else k.capslock_on;
    }

pub record KeyEvent : Type 0 where
  pub scancode : ℕ
  pub ascii : ℕ
  pub fn : Bool
  pub shift : Bool
  pub ctrl : Bool
  pub alt : Bool
  pub special : Bool

abbrev pub no_event : KeyEvent
no_event = record {
  scancode = 0;
  ascii = 0;
  fn = false;
  shift = false;
  ctrl = false;
  alt = false;
  special = false;
}

abbrev pub is_down : Keyboard → ℕ → Bool
is_down k n = get_or k.key_state n false

abbrev pub xor : Bool → Bool → Bool
xor true b = not b
xor false b = b

unfoldable pub scancode_to_char : ℕ → Keyboard → KeyEvent
scancode_to_char keynum k =
    let special = ltb 131 keynum && ltb keynum 256 in
    let num = if special then keynum - 131 else keynum in
    let shift_on = is_down k 0x12 || is_down k 0x59 in
    if not (is_down k keynum) then no_event else record {
      scancode = u8 num;
      ascii = if xor shift_on k.capslock_on then shift_ascii_map num else ascii_map num;
      fn = false;
      shift = shift_on;
      ctrl = is_down k 0x14;
      alt = is_down k 0x11;
      special = special;
    }

-- `get_keyevent`: the event, if there was a code to read.
unfoldable pub get_keyevent : ℕ → Keyboard → Option KeyEvent × Keyboard
get_keyevent beyond k = elim (read_from_buffer beyond k) [
  | none ↦ (none, k)
  | some (code, k') ↦ let k'' = update_key_state code k' in (some (scancode_to_char code k''), k'')
]
