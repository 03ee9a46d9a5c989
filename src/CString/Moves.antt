-- ===== src/CString/Moves.antt =====
-- What `memmove` leaves where the two ranges may overlap.
use pygmali_os.Base.{
  ℕ, zero, suc, ◌+◌, ◌-◌, ◌≤◌, ◌<◌, ◌≡◌, ◌∙◌, refl, arith, ◌&&◌, inl, inr, List, leb, ltb,
  if◌then◌else◌, length, get_or, set, length-set, get_or-set, Bool-cases,
}
use pygmali_os.CString.{memcpy, move_up, move_down, memmove}

-- The byte at `i` after `len` bytes went from `src` to `dest`.
abbrev pub moved : ℕ → ℕ → ℕ → List ℕ → ℕ → ℕ
moved dest src len bytes i =
    if leb dest i && ltb i (dest + len) then get_or bytes (src + (i - dest)) 0 else get_or bytes i 0

length-move_up :
    (len dest src : ℕ) (bytes : List ℕ) → length (move_up len dest src bytes) ≡ length bytes
unfolding move_up
length-move_up zero dest src bytes = refl
length-move_up (suc len) dest src bytes =
    length-move_up len (dest + 1) (src + 1) _ ∙ length-set bytes dest _

length-move_down :
    (len dest src : ℕ) (bytes : List ℕ) → length (move_down len dest src bytes) ≡ length bytes
unfolding move_down
length-move_down zero dest src bytes = refl
length-move_down (suc len) dest src bytes =
    length-move_down len dest src _ ∙ length-set bytes (dest + len) _

get_or-move_up :
    (len dest src i : ℕ) (bytes : List ℕ)
    → dest < src
    → dest + len ≤ length bytes
    → get_or (move_up len dest src bytes) i 0 ≡ moved dest src len bytes i
unfolding move_up
get_or-move_up zero dest src i bytes l h = ground arith
get_or-move_up (suc len) dest src i bytes l h =
    let v = get_or bytes src 0 in
    let step = λ (j : ℕ). get_or-set bytes dest j v 0 (omega arith) in
    let rest =
      get_or-move_up len (dest + 1) (src + 1) i (set bytes dest v) (omega arith)
        (omega (arith, length-set bytes dest v)) in
    rest ∙ rw (step (src + 1 + (i - (dest + 1))), step i) (ground arith)

get_or-move_down :
    (len dest src i : ℕ) (bytes : List ℕ)
    → src ≤ dest
    → dest + len ≤ length bytes
    → get_or (move_down len dest src bytes) i 0 ≡ moved dest src len bytes i
unfolding move_down
get_or-move_down zero dest src i bytes l h = ground arith
get_or-move_down (suc len) dest src i bytes l h =
    let v = get_or bytes (src + len) 0 in
    let step = λ (j : ℕ). get_or-set bytes (dest + len) j v 0 (omega arith) in
    let rest =
      get_or-move_down len dest src i (set bytes (dest + len) v) l
        (omega (arith, length-set bytes (dest + len) v)) in
    rest ∙ rw (step (src + (i - dest)), step i) (ground arith)

-- `memmove` copies the bytes as they were before, also where the ranges overlap, and touches no
-- other byte.
pub memmove-moved :
    (dest src len : ℕ) (bytes : List ℕ)
    → dest + len ≤ length bytes
    → (length (memmove dest src len bytes) ≡ length bytes)
      × ((i : ℕ) → get_or (memmove dest src len bytes) i 0 ≡ moved dest src len bytes i)
unfolding memmove
memmove-moved dest src len bytes h = elim (Bool-cases (ltb dest src)) [
  | inl e ↦
      rw e (
        length-move_up len dest src bytes,
        λ i. get_or-move_up len dest src i bytes (ground arith) h,
      )
  | inr e ↦ rw e (
    length-move_down len dest src bytes,
    λ i. get_or-move_down len dest src i bytes (ground arith) h,
  )
]

pub length-memcpy :
    (len j : ℕ) (dest : List ℕ) (i : ℕ) (src : List ℕ)
    → length (memcpy len j dest i src) ≡ length dest
unfolding memcpy
length-memcpy zero j dest i src = refl
length-memcpy (suc len) j dest i src =
    length-memcpy len (j + 1) (set dest j (get_or src i 0)) (i + 1) src
    ∙ length-set dest j (get_or src i 0)

-- What `memcpy` between two arrays leaves.
pub get_or-memcpy :
    (len j : ℕ) (dest : List ℕ) (i : ℕ) (src : List ℕ) (k : ℕ)
    → j + len ≤ length dest
    → get_or (memcpy len j dest i src) k 0
      ≡ (if leb j k && ltb k (j + len) then get_or src (i + (k - j)) 0 else get_or dest k 0)
unfolding memcpy
get_or-memcpy zero j dest i src k h = ground arith
get_or-memcpy (suc len) j dest i src k h =
    let v = get_or src i 0 in
    get_or-memcpy len (j + 1) (set dest j v) (i + 1) src k (omega (arith, length-set dest j v))
    ∙ rw (get_or-set dest j k v 0 (omega arith)) (ground arith)
