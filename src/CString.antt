-- ===== src/CString.antt =====
-- src/string.c: the routines on bytes and on strings that end with a zero byte. A string is the
-- list of the bytes from its first one on; behind the list there is a zero byte.
pub mod Bytes
pub mod Moves
pub mod Length
use pygmali_os.Base.{
  ℕ, zero, suc, ◌+◌, ◌-◌, ◌*◌, ◌^◌, Bool, true, false, ◌&&◌, ◌||◌, not, List, [], ◌∷◌, ◌==◌, leb,
  ltb, if◌then◌else◌, get_or, set, drop, u64, u32, u8, sub32, shl, bit_or,
}

unfoldable pub strlen : List ℕ → ℕ
strlen [] = 0
strlen (c ∷ s) = let rest = suc (strlen s) in if c == 0 then 0 else rest

-- The loop of `merge_bytes`, with `n` rounds left.
unfoldable pub merge_from : ℕ → ℕ → List ℕ → ℕ → ℕ
merge_from zero i bytes sum = sum
merge_from (suc n) i bytes sum =
    merge_from n (i + 1) bytes (bit_or sum (u64 (shl (get_or bytes i 0) (8 * i))))

unfoldable pub merge_bytes : List ℕ → ℕ → ℕ
unfolding merge_from
merge_bytes bytes len = merge_from len 0 bytes 0

-- `memmove` inside one array, from the place `src` to the place `dest`: from the front where the
-- bytes go to a lower place, else from the back.
unfoldable pub move_up : ℕ → ℕ → ℕ → List ℕ → List ℕ
move_up zero dest src bytes = bytes
move_up (suc len) dest src bytes =
    move_up len (dest + 1) (src + 1) (set bytes dest (get_or bytes src 0))

unfoldable pub move_down : ℕ → ℕ → ℕ → List ℕ → List ℕ
move_down zero dest src bytes = bytes
move_down (suc len) dest src bytes =
    move_down len dest src (set bytes (dest + len) (get_or bytes (src + len) 0))

unfoldable pub memmove : ℕ → ℕ → ℕ → List ℕ → List ℕ
memmove dest src len bytes =
    if ltb dest src then move_up len dest src bytes else move_down len dest src bytes

-- The difference of the first bytes that differ, as a word of 32 bits.
unfoldable pub strcmp : List ℕ → List ℕ → ℕ
strcmp [] s2 = sub32 0 (get_or s2 0 0)
strcmp (c ∷ s1) [] = sub32 c 0
strcmp (c ∷ s1) (d ∷ s2) =
    let rest = strcmp s1 s2 in if not (c == 0) && c == d then rest else sub32 c d

unfoldable pub strncmp : ℕ → List ℕ → List ℕ → ℕ
strncmp zero s1 s2 = 0
strncmp (suc n) s1 s2 =
    let u1 = get_or s1 0 0 in
    let u2 = get_or s2 0 0 in
    let rest = strncmp n (drop 1 s1) (drop 1 s2) in
    if not (u1 == u2) then sub32 u1 u2 else if u1 == 0 then 0 else rest

-- The digits of a number; the value is a word of 32 bits, as is a byte less `'0'`.
unfoldable pub str_to_int_from : List ℕ → ℕ → ℕ
str_to_int_from [] return_val = return_val
str_to_int_from (c ∷ val) return_val =
    let rest = str_to_int_from val (u32 (u32 (return_val * 10) + sub32 c 0x30)) in
    if c == 0 then return_val else rest

unfoldable pub str_to_int : List ℕ → ℕ
str_to_int val = str_to_int_from val 0

unfoldable pub to_uppercase : List ℕ → List ℕ
to_uppercase [] = []
to_uppercase (c ∷ s) =
    let rest = to_uppercase s in
    if c == 0 then c ∷ s else (if leb 0x61 c && leb c 0x7A then c - 0x20 else c) ∷ rest

-- `memcpy` of `len` bytes from the place `i` of one array to the place `j` of another.
unfoldable pub memcpy : ℕ → ℕ → List ℕ → ℕ → List ℕ → List ℕ
memcpy zero j dest i src = dest
memcpy (suc len) j dest i src = memcpy len (j + 1) (set dest j (get_or src i 0)) (i + 1) src
