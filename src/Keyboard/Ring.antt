-- ===== src/Keyboard/Ring.antt =====
-- The ring buffer as a queue of bytes.
use pygmali_os.Base.{
  ℕ, zero, suc, ◌+◌, ◌-◌, ◌%◌, ◌≤◌, ◌<◌, ◌≡◌, ◌≢◌, ◌∙◌, refl, ap, ap₂, arith, List, [], ◌∷◌, ◌++◌,
  ◌==◌, if◌then◌else◌, length, get_or, set, drop, length-set, get_or-set_self, get_or-set_ne, inl,
  inr, Bool-cases,
}
use pygmali_os.Io.{outb, inb}
use pygmali_os.Keyboard.{Keyboard, write_to_buffer}

-- The `n` bytes from index `t` on, round the buffer.
abbrev pub window : List ℕ → ℕ → ℕ → List ℕ
window b t zero = []
window b t (suc n) = get_or b t 0 ∷ window b ((t + 1) % 256) n

-- The number of bytes that wait to be read.
abbrev pub waiting : Keyboard → ℕ
waiting k = (k.head + 256 - k.tail) % 256

abbrev pub contents : Keyboard → List ℕ
contents k = window k.buffer k.tail (waiting k)

pub record IsKeyboard (k : Keyboard) : Type 0 where
  pub buffer_size : length k.buffer ≡ 256
  pub head_in : k.head < 256
  pub tail_in : k.tail < 256
  pub keys_size : length k.key_state ≡ 512

pub length-window : (b : List ℕ) (t n : ℕ) → length (window b t n) ≡ n
length-window b t zero = refl
length-window b t (suc n) = ap suc (length-window b ((t + 1) % 256) n)

pub get_or-window :
    (b : List ℕ) (t n i : ℕ)
    → t < 256
    → i < n
    → get_or (window b t n) i 0 ≡ get_or b ((t + i) % 256) 0
get_or-window b t zero i h l = absurd (omega arith)
get_or-window b t (suc n) zero h l = ap (λ j. get_or b j 0) (omega arith)
get_or-window b t (suc n) (suc i) h l =
    get_or-window b ((t + 1) % 256) n i (omega arith) (omega arith)
    ∙ ap (λ j. get_or b j 0) (omega arith)

pub drop-window :
    (b : List ℕ) (t n i : ℕ)
    → t < 256
    → i ≤ n
    → drop i (window b t n) ≡ window b ((t + i) % 256) (n - i)
drop-window b t n zero h l = ap₂ (window b) (omega arith) (omega arith)
drop-window b t zero (suc i) h l = absurd (omega arith)
drop-window b t (suc n) (suc i) h l =
    drop-window b ((t + 1) % 256) n i (omega arith) (omega arith)
    ∙ ap₂ (window b) (omega arith) (omega arith)

-- A byte stored just behind a window makes it longer.
window-set :
    (b : List ℕ) (t n i x : ℕ)
    → length b ≡ 256
    → t < 256
    → n < 256
    → i ≡ (t + n) % 256
    → window (set b i x) t (suc n) ≡ window b t n ++ x ∷ []
window-set b t zero i x s h l e =
    let here : i ≡ t = omega arith in rw (here, get_or-set_self b t x 0 (omega arith)) refl
window-set b t (suc n) i x s h l e =
    ap₂ ◌∷◌ (get_or-set_ne b i t x 0 (omega arith))
      (window-set b ((t + 1) % 256) n i x s (omega arith) (omega arith) (omega arith))

module _ (byte : ℕ) (k : Keyboard) (v : IsKeyboard k) where
  write-full : waiting k ≡ 255 → write_to_buffer byte k ≡ (k, [])
  unfolding write_to_buffer
  write-full e = ground (arith, v.head_in, v.tail_in)

  stored : Keyboard
  stored = record k { buffer = set k.buffer k.head byte; head = (k.head + 1) % 256 }

  write-room : waiting k ≢ 255 → write_to_buffer byte k ≡ (stored, inb 0x60 ∷ outb 0x20 0x20 ∷ [])
  unfolding write_to_buffer stored
  write-room e = ground (arith, v.head_in, v.tail_in)

  stored-contents : waiting k ≢ 255 → contents stored ≡ contents k ++ byte ∷ []
  unfolding stored
  stored-contents e =
      let more : waiting stored ≡ suc (waiting k) = omega (arith, v.head_in, v.tail_in) in
      ap (window (set k.buffer k.head byte) k.tail) more
      ∙ window-set k.buffer k.tail (waiting k) k.head byte v.buffer_size v.tail_in (omega arith)
          (omega (arith, v.head_in, v.tail_in))

  stored-IsKeyboard : IsKeyboard stored
  unfolding stored
  stored-IsKeyboard = record {
    buffer_size = length-set k.buffer k.head byte ∙ v.buffer_size;
    head_in = omega arith;
    tail_in = v.tail_in;
    keys_size = v.keys_size;
  }

-- The handler reads the byte, appends it to what waits to be read and ends the interrupt, unless
-- 255 bytes wait: then it changes nothing and leaves the interrupt without an end.
pub write_to_buffer-append :
    (byte : ℕ) (k : Keyboard)
    → IsKeyboard k
    → let (k', io) = write_to_buffer byte k in
      IsKeyboard k'
      × (contents k' ≡ (if waiting k == 255 then contents k else contents k ++ byte ∷ []))
      × (io ≡ (if waiting k == 255 then [] else inb 0x60 ∷ outb 0x20 0x20 ∷ []))
write_to_buffer-append byte k v = elim (Bool-cases (waiting k == 255)) [
  | inl e ↦ rw (e, write-full byte k v (ground arith)) (v, refl, refl)
  | inr e ↦
      rw (e, write-room byte k v (ground arith))
        (stored-IsKeyboard byte k v, stored-contents byte k v (ground arith), refl)
]
