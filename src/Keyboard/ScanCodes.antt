-- ===== src/Keyboard/ScanCodes.antt =====
-- The byte sequences of scan code set 2, and `read_from_buffer` on a buffer that starts with one.
use pygmali_os.Base.{
  ℕ, ◌+◌, ◌-◌, ◌%◌, ◌≤◌, ◌<◌, ◌≡◌, ◌≢◌, ◌⊎◌, ◌∙◌, sym, refl, ap, arith, some, List, [], ◌∷◌, ◌++◌,
  length, get_or, drop, length-append, get_or_default, get_or_past,
}
use pygmali_os.Keyboard.{Keyboard, read_from_buffer}
use pygmali_os.Keyboard.Ring.{
  IsKeyboard, window, waiting, contents, length-window, get_or-window, drop-window,
}

-- What the keyboard reports at a press or a release.
pub data ScanCode : Type 0 where
  press : ℕ → ScanCode
  release : ℕ → ScanCode
  press_extended : ℕ → ScanCode
  release_extended : ℕ → ScanCode
  press_print : ScanCode
  release_print : ScanCode
  press_pause : ScanCode

abbrev pub bytes : ScanCode → List ℕ
bytes (press c) = c ∷ []
bytes (release c) = 0xF0 ∷ c ∷ []
bytes (press_extended c) = 0xE0 ∷ c ∷ []
bytes (release_extended c) = 0xE0 ∷ 0xF0 ∷ c ∷ []
bytes press_print = 0xE0 ∷ 0x12 ∷ 0xE0 ∷ 0x7C ∷ []
bytes release_print = 0xE0 ∷ 0xF0 ∷ 0x7C ∷ 0xE0 ∷ 0xF0 ∷ 0x12 ∷ []
bytes press_pause = 0xE1 ∷ 0x14 ∷ 0x77 ∷ 0xE1 ∷ 0xF0 ∷ 0x14 ∷ 0xF0 ∷ 0x77 ∷ []

-- The codes that the set uses: no prefix byte stands for a key, and neither do the bytes by which
-- the sequences of Print Screen are told.
abbrev pub IsScanCode : ScanCode → Type 0
IsScanCode (press c) = (c ≢ 0xE0) × (c ≢ 0xE1) × (c ≢ 0xF0) × (c < 256)
IsScanCode (release c) = c < 256
IsScanCode (press_extended c) = (c ≢ 0xF0) × (c ≢ 0x12) × (c < 256)
IsScanCode (release_extended c) = (c ≢ 0x7C) × (c < 256)
IsScanCode press_print = Unit
IsScanCode release_print = Unit
IsScanCode press_pause = Unit

-- The number by which the kernel knows a code.
abbrev pub number : ScanCode → ℕ
number (press c) = c
number (release c) = c + 256
number (press_extended c) = c + 131
number (release_extended c) = c + 387
number press_print = 513
number release_print = 514
number press_pause = 515

drop-append {ℓ} : {A : Type ℓ} (xs ys : List A) → drop (length xs) (xs ++ ys) ≡ ys
drop-append [] ys = refl
drop-append (x ∷ xs) ys = drop-append xs ys

module _ (k : Keyboard) (v : IsKeyboard k) (s : ScanCode) (rest : List ℕ)
    (e : contents k ≡ bytes s ++ rest) where
  enough : length (bytes s) ≤ waiting k
  enough =
      omega (
        arith,
        length-window k.buffer k.tail (waiting k),
        ap length e,
        length-append (bytes s) rest,
      )

  byte_at :
      (i : ℕ)
      → i < length (bytes s)
      → get_or k.buffer ((k.tail + i) % 256) 0 ≡ get_or (bytes s ++ rest) i 0
  byte_at i l =
      sym (get_or-window k.buffer k.tail (waiting k) i v.tail_in (omega (arith, enough)))
      ∙ ap (λ q. get_or q i 0) e

  -- The keyboard once the bytes of the code are taken.
  taken : Keyboard
  taken = record k { tail = (k.tail + length (bytes s)) % 256 }

  contents-taken : contents taken ≡ rest
  unfolding taken
  contents-taken =
      let fewer : waiting taken ≡ waiting k - length (bytes s) =
        omega (arith, enough, v.head_in, v.tail_in) in
      ap (window k.buffer ((k.tail + length (bytes s)) % 256)) fewer
      ∙ (sym (drop-window k.buffer k.tail (waiting k) (length (bytes s)) v.tail_in enough)
          ∙ (ap (drop (length (bytes s))) e ∙ drop-append (bytes s) rest))

  taken-IsKeyboard : IsKeyboard taken
  unfolding taken
  taken-IsKeyboard = record {
    buffer_size = v.buffer_size;
    head_in = v.head_in;
    tail_in = omega arith;
    keys_size = v.keys_size;
  }

-- The byte behind the array is the one that the code means, where it is read.
abbrev pub IsSafe : ℕ → ℕ → ScanCode → Type 0
IsSafe beyond tail (press_extended c) = (tail ≢ 255) ⊎ (beyond ≢ 0x12)
IsSafe beyond tail press_print = (tail ≢ 255) ⊎ (beyond ≡ 0x12)
IsSafe beyond tail _ = Unit

-- The first bytes, as `read_from_buffer` looks at them.
module _ (k : Keyboard) (v : IsKeyboard k) (s : ScanCode) (rest : List ℕ)
    (e : contents k ≡ bytes s ++ rest) where
  first : 0 < length (bytes s) → get_or k.buffer k.tail 0 ≡ get_or (bytes s ++ rest) 0 0
  first l = ap (λ j. get_or k.buffer j 0) (omega (arith, v.tail_in)) ∙ byte_at k v s rest e 0 l

  not_empty : 0 < length (bytes s) → k.head ≢ k.tail
  not_empty l = omega (arith, enough k v s rest e, v.tail_in)

  second :
      (beyond : ℕ)
      → k.tail ≢ 255
      → 1 < length (bytes s)
      → get_or k.buffer (k.tail + 1) beyond ≡ get_or (bytes s ++ rest) 1 0
  second beyond n l =
      get_or_default k.buffer (k.tail + 1) beyond 0 (omega (arith, v.buffer_size, v.tail_in))
      ∙ (ap (λ j. get_or k.buffer j 0) (omega (arith, v.tail_in)) ∙ byte_at k v s rest e 1 l)

  second_beyond : (beyond : ℕ) → k.tail ≡ 255 → get_or k.buffer (k.tail + 1) beyond ≡ beyond
  second_beyond beyond n = get_or_past k.buffer (k.tail + 1) beyond (omega (arith, v.buffer_size))

read-taken :
    (beyond : ℕ) (k : Keyboard) (v : IsKeyboard k) (s : ScanCode) (rest : List ℕ)
    (e : contents k ≡ bytes s ++ rest)
    → IsScanCode s
    → IsSafe beyond k.tail s
    → read_from_buffer beyond k ≡ some (number s, taken k v s rest e)
unfolding read_from_buffer taken
read-taken b k v (press c) rest e w h =
    ground (
      arith,
      not_empty k v (press c) rest e (omega arith),
      first k v (press c) rest e (omega arith),
    )
read-taken b k v (release c) rest e w h = ground (
  arith,
  not_empty k v (release c) rest e (omega arith),
  first k v (release c) rest e (omega arith),
  byte_at k v (release c) rest e 1 (omega arith),
)
read-taken b k v (press_extended c) rest e w h = ground (
  arith,
  not_empty k v (press_extended c) rest e (omega arith),
  first k v (press_extended c) rest e (omega arith),
  byte_at k v (press_extended c) rest e 1 (omega arith),
  (λ (n : k.tail ≢ 255). second k v (press_extended c) rest e b n (omega arith)),
  second_beyond k v (press_extended c) rest e b,
)
read-taken b k v (release_extended c) rest e w h = ground (
  arith,
  not_empty k v (release_extended c) rest e (omega arith),
  first k v (release_extended c) rest e (omega arith),
  byte_at k v (release_extended c) rest e 1 (omega arith),
  byte_at k v (release_extended c) rest e 2 (omega arith),
)
read-taken b k v press_print rest e w h = ground (
  arith,
  not_empty k v press_print rest e (omega arith),
  first k v press_print rest e (omega arith),
  byte_at k v press_print rest e 1 (omega arith),
  (λ (n : k.tail ≢ 255). second k v press_print rest e b n (omega arith)),
  second_beyond k v press_print rest e b,
)
read-taken b k v release_print rest e w h = ground (
  arith,
  not_empty k v release_print rest e (omega arith),
  first k v release_print rest e (omega arith),
  byte_at k v release_print rest e 1 (omega arith),
  byte_at k v release_print rest e 2 (omega arith),
)
read-taken b k v press_pause rest e w h = ground (
  arith,
  not_empty k v press_pause rest e (omega arith),
  first k v press_pause rest e (omega arith),
)

-- Where the bytes of a whole scan code stand at the front of the buffer, `read_from_buffer` returns
-- its number and takes exactly those bytes. A code that starts with 0xE0 in the last element of the
-- buffer needs the byte behind the array to agree.
pub read_from_buffer-bytes :
    (beyond : ℕ) (k : Keyboard) (s : ScanCode) (rest : List ℕ)
    → IsKeyboard k
    → contents k ≡ bytes s ++ rest
    → IsScanCode s
    → IsSafe beyond k.tail s
    → (k' : Keyboard) × (read_from_buffer beyond k ≡ some (number s, k'))
      × IsKeyboard k'
      × (contents k' ≡ rest)
      × (k'.key_state ≡ k.key_state)
      × (k'.capslock_on ≡ k.capslock_on)
unfolding taken
read_from_buffer-bytes beyond k s rest v e w h = (
  taken k v s rest e,
  read-taken beyond k v s rest e w h,
  taken-IsKeyboard k v s rest e,
  contents-taken k v s rest e,
  refl,
  refl,
)

-- A prefix whose code has not arrived yet is taken with the byte behind it: the tail passes the
-- head, and 255 bytes seem to wait.
pub read_from_buffer-early :
    (beyond : ℕ) (k : Keyboard)
    → IsKeyboard k
    → contents k ≡ 0xF0 ∷ []
    → (code : ℕ) (k' : Keyboard) → read_from_buffer beyond k ≡ some (code, k')
    → waiting k' ≡ 255
unfolding read_from_buffer
read_from_buffer-early beyond k v e code k' r =
    let one : waiting k ≡ 1 =
      omega (arith, length-window k.buffer k.tail (waiting k), ap length e) in
    let byte : get_or k.buffer k.tail 0 ≡ 0xF0 =
      ap (λ j. get_or k.buffer j 0) (omega (arith, v.tail_in))
      ∙ (sym (get_or-window k.buffer k.tail (waiting k) 0 v.tail_in (omega arith))
          ∙ ap (λ q. get_or q 0 0) e) in
    ground (arith, v.head_in, v.tail_in)
