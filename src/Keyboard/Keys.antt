-- ===== src/Keyboard/Keys.antt =====
-- The state of the keys and the key events.
use pygmali_os.Base.{
  ℕ, ◌+◌, ◌-◌, ◌≤◌, ◌<◌, ◌≡◌, ◌≢◌, ◌∙◌, inl, inr, refl, ap, arith, Bool, true, false, ◌&&◌, ltb,
  ◌||◌, some, List, ◌∷◌, ◌==◌, if◌then◌else◌, get_or, set, length-set, get_or-set, Bool-cases,
}
use pygmali_os.Keyboard.{
  Keyboard, KeyEvent, no_event, is_down, xor, update_key_state, scancode_to_char, get_keyevent,
}
use pygmali_os.Keyboard.Layout.{ascii_map, shift_ascii_map}
use pygmali_os.Keyboard.Ring.{IsKeyboard, contents}
use pygmali_os.Keyboard.ScanCodes.{press, release, IsScanCode, read_from_buffer-bytes}

-- A press code marks its key as down, a release code as up, and no other key changes.
pub is_down-update_key_state :
    (n j : ℕ) (k : Keyboard)
    → IsKeyboard k
    → 1 ≤ n
    → n ≤ 256
    → (is_down (update_key_state n k) j ≡ (if j == n then true else is_down k j))
      × (is_down (update_key_state (n + 256) k) j ≡ (if j == n then false else is_down k j))
unfolding update_key_state
is_down-update_key_state n j k v low high = (
  ground (arith, get_or-set k.key_state n j true false (omega (arith, v.keys_size))),
  ground (
    arith,
    get_or-set k.key_state n j false false (omega (arith, v.keys_size)),
    ap (λ i. set k.key_state i false) (minus n),
  ),
)
  where
    minus : (m : ℕ) → m + 256 - 256 ≡ m
    minus m = omega arith

-- No release code is marked as a key that is down.
abbrev pub IsQuiet : Keyboard → Type 0
IsQuiet k = (j : ℕ) → 256 < j → is_down k j ≡ false

update_key_state-IsKeyboard :
    (code : ℕ) (k : Keyboard) → IsKeyboard k → IsKeyboard (update_key_state code k)
unfolding update_key_state
update_key_state-IsKeyboard code k v =
    ground (arith, length-set k.key_state (code - 256) false, length-set k.key_state code true)

contents-update_key_state :
    (code : ℕ) (k : Keyboard) → contents (update_key_state code k) ≡ contents k
unfolding update_key_state
contents-update_key_state code k = elim (Bool-cases (ltb 256 code && ltb code 513)) [
  | inl e ↦ rw e refl
  | inr e ↦ rw e refl
]

-- A character key: none of the prefixes and modifiers.
abbrev pub IsCharacterKey : ℕ → Type 0
IsCharacterKey c =
    IsScanCode (press c)
    × (1 ≤ c)
    × (c ≤ 131)
    × (c ≢ 0x11)
    × (c ≢ 0x12)
    × (c ≢ 0x14)
    × (c ≢ 0x58)
    × (c ≢ 0x59)

abbrev pub is_shifted : Keyboard → Bool
is_shifted k = is_down k 0x12 || is_down k 0x59

-- The event of a character key under the modifiers of `k`.
abbrev pub character_event : Keyboard → ℕ → KeyEvent
character_event k c = record {
  scancode = c;
  ascii = if xor (is_shifted k) k.capslock_on then shift_ascii_map c else ascii_map c;
  fn = false;
  shift = is_shifted k;
  ctrl = is_down k 0x14;
  alt = is_down k 0x11;
  special = false;
}

scancode_to_char-character :
    (c : ℕ) (k m : Keyboard)
    → IsKeyboard k
    → IsCharacterKey c
    → m.key_state ≡ k.key_state
    → m.capslock_on ≡ k.capslock_on
    → scancode_to_char c (update_key_state c m) ≡ character_event k c
unfolding scancode_to_char update_key_state
scancode_to_char-character c k m v w e f =
    let here = λ (j : ℕ). get_or-set k.key_state c j true false (omega (arith, v.keys_size)) in
    rw (e, f) (ground (arith, here c, here 0x12, here 0x59, here 0x14, here 0x11))

-- A whole press code of a character key at the front of the buffer becomes one event, with the
-- character that the layout and the modifiers give, and the key is down afterwards.
pub get_keyevent-character :
    (beyond c : ℕ) (k : Keyboard) (rest : List ℕ)
    → IsKeyboard k
    → contents k ≡ c ∷ rest
    → IsCharacterKey c
    → (k' : Keyboard) × (get_keyevent beyond k ≡ (some (character_event k c), k'))
      × IsKeyboard k'
      × (contents k' ≡ rest)
      × (is_down k' c ≡ true)
unfolding get_keyevent
get_keyevent-character beyond c k rest v e w =
    let (m, r, vm, cm, em, fm) = read_from_buffer-bytes beyond k (press c) rest v e w.0 tt in
    (
      update_key_state c m,
      rw (get_keyevent, r)
          (ap (λ q. (some q, update_key_state c m)) (scancode_to_char-character c k m v w em fm)),
      update_key_state-IsKeyboard c m vm,
      contents-update_key_state c m ∙ cm,
      (is_down-update_key_state c c m vm w.1 (omega arith)).0 ∙ ground arith,
    )

scancode_to_char-up : (n : ℕ) (k : Keyboard) → is_down k n ≡ false → scancode_to_char n k ≡ no_event
unfolding scancode_to_char
scancode_to_char-up n k e = rw e refl

-- A release code of a key at the front of the buffer gives the empty event; afterwards that key is
-- up, no other key has changed, and no release code is marked as a key.
pub get_keyevent-release :
    (beyond c : ℕ) (k : Keyboard) (rest : List ℕ)
    → IsKeyboard k
    → IsQuiet k
    → contents k ≡ 0xF0 ∷ c ∷ rest
    → 1 ≤ c
    → c < 256
    → (k' : Keyboard) × (get_keyevent beyond k ≡ (some no_event, k'))
      × (contents k' ≡ rest)
      × IsQuiet k'
      × ((j : ℕ) → is_down k' j ≡ (if j == c then false else is_down k j))
unfolding get_keyevent
get_keyevent-release beyond c k rest v q e l h =
    let (m, r, vm, cm, em, fm) = read_from_buffer-bytes beyond k (release c) rest v e h tt in
    let keys = λ (j : ℕ). (is_down-update_key_state c j m vm l (omega arith)).1 in
    let same = λ (j : ℕ). ap (λ t. get_or t j false) em in
    (
      update_key_state (c + 256) m,
      rw (get_keyevent, r)
          (ap (λ t. (some t, update_key_state (c + 256) m))
            (scancode_to_char-up (c + 256) (update_key_state (c + 256) m)
              (ground (arith, keys (c + 256), same (c + 256), q (c + 256))))),
      contents-update_key_state (c + 256) m ∙ cm,
      λ j g. ground (arith, keys j, same j, q j g),
      λ j. ground (arith, keys j, same j),
    )
