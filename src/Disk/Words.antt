-- ===== src/Disk/Words.antt =====
-- Sectors as bytes and as 16-bit words.
use pygmali_os.Base.{
  ℕ, zero, suc, ◌+◌, ◌*◌, ◌/◌, ◌%◌, ◌^◌, ◌≤◌, ◌<◌, ◌≡◌, ◌∙◌, ◌⊎◌, inl, inr, ◌&&◌, ltb, Bool-cases,
  refl, sym, ap, arith, Bool, true, List, [], ◌∷◌, ◌==◌, length, get_or, get_or_ext, get_or_past,
  shl, shr, bit_and, bit_or,
}
use pygmali_os.Base.Bits.{bit_and_mask, each_below, each_below→at}
use pygmali_os.Disk.Ata.{bytes_of_words, words_of_bytes}

abbrev pub AreWords : List ℕ → Type 0
AreWords [] = Unit
AreWords (w ∷ ws) = (w < 2 ^ 16) × AreWords ws

-- The 512 bytes of a sector.
abbrev pub AreBytes : List ℕ → Type 0
AreBytes bytes = (length bytes ≡ 512) × ((i : ℕ) → get_or bytes i 0 < 256)

pub words_of_bytes-AreWords : (n i : ℕ) (bytes : List ℕ) → AreWords (words_of_bytes n i bytes)
unfolding words_of_bytes
words_of_bytes-AreWords zero i bytes = tt
words_of_bytes-AreWords (suc n) i bytes = (omega arith, words_of_bytes-AreWords n (i + 1) bytes)

pub length-words_of_bytes : (n i : ℕ) (bytes : List ℕ) → length (words_of_bytes n i bytes) ≡ n
unfolding words_of_bytes
length-words_of_bytes zero i bytes = refl
length-words_of_bytes (suc n) i bytes = ap suc (length-words_of_bytes n (i + 1) bytes)

length-bytes_of_words : (ws : List ℕ) → length (bytes_of_words ws) ≡ 2 * length ws
unfolding bytes_of_words
length-bytes_of_words [] = refl
length-bytes_of_words (w ∷ ws) = omega (arith, length-bytes_of_words ws)

get_or-bytes_of_words :
    (n i j : ℕ) (bytes : List ℕ)
    → j < 2 * n
    → ((k : ℕ) → get_or bytes k 0 < 256)
    → get_or (bytes_of_words (words_of_bytes n i bytes)) j 0 ≡ get_or bytes (2 * i + j) 0
unfolding words_of_bytes bytes_of_words
get_or-bytes_of_words zero i j bytes l b = absurd (omega arith)
get_or-bytes_of_words (suc n) i zero bytes l b =
    let at : 2 * i + 0 ≡ 2 * i = omega arith in rw at (omega (arith, b (2 * i), b (2 * i + 1)))
get_or-bytes_of_words (suc n) i (suc zero) bytes l b = omega (arith, b (2 * i), b (2 * i + 1))
get_or-bytes_of_words (suc n) i (suc (suc j)) bytes l b =
    let at : 2 * (i + 1) + j ≡ 2 * i + suc (suc j) = omega arith in
    get_or-bytes_of_words n (i + 1) j bytes (omega arith) b ∙ ap (λ k. get_or bytes k 0) at

-- Packing the bytes of a sector and taking the words apart again gives these bytes.
pub bytes_of_words-words_of_bytes :
    (bytes : List ℕ) → AreBytes bytes → bytes_of_words (words_of_bytes 256 0 bytes) ≡ bytes
bytes_of_words-words_of_bytes bytes (l, b) =
    let packed = words_of_bytes 256 0 bytes in
    let size : length (bytes_of_words packed) ≡ 512 =
      omega (arith, length-bytes_of_words packed, length-words_of_bytes 256 0 bytes) in
    get_or_ext 0 _ _ (omega (arith, size, l)) (λ j. elim (compare_512 j) [
      | inl inside ↦
          get_or-bytes_of_words 256 0 j bytes (omega arith) b
          ∙ ap (λ k. get_or bytes k 0) (omega arith)
      | inr past ↦
          get_or_past _ j 0 (omega (arith, size)) ∙ sym (get_or_past bytes j 0 (omega (arith, l)))
    ])
  where
    compare_512 : (j : ℕ) → (j < 512) ⊎ (512 ≤ j)
    compare_512 j = elim (Bool-cases (ltb j 512)) [
      | inl less ↦ inl (ground arith)
      | inr more ↦ inr (ground arith)
    ]

-- The register of the drive has the four high bits of the address below its flags.
abbrev register_right : ℕ → ℕ → Bool
register_right slave top =
    bit_or (bit_or 0xE0 top) (shl slave 4) % 16 == top
    && ltb (bit_or (bit_or 0xE0 top) (shl slave 4)) 256

register_table : each_below (λ slave. each_below (register_right slave) 16) 2 ≡ true
unfolding each_below
register_table = refl

pub device_register :
    (slave sector : ℕ)
    → slave < 2
    → let x : ℕ = bit_or (bit_or 0xE0 (bit_and (shr sector 24) 0x0F)) (shl slave 4) in
      (x % 16 ≡ sector / 2 ^ 24 % 16) × (x < 256)
device_register slave sector l =
    let top : ℕ = bit_and (shr sector 24) 0x0F in
    let low : top ≡ sector / 2 ^ 24 % 16 = bit_and_mask 4 (shr sector 24) in
    let right =
      each_below→at (register_right slave) 16 top
        (each_below→at (λ slave. each_below (register_right slave) 16) 2 slave register_table l)
        (omega arith) in
    ground arith
