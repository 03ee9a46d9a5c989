-- ===== src/Base/Bits.antt =====
-- `|` and `&` at variables, as arithmetic: what each does on the two sides of a cut, and low masks.
use Prim.Native.Nat.{
  ℕ, zero, suc, ◌+◌, ◌-◌, ◌*◌, ◌/◌, ◌%◌, ◌^◌, ◌≤◌, ◌<◌, min, max, bit_and, bit_or, digits, bitwise,
  bit_and-bitwise, bit_or-bitwise,
}
use mathlib.Core.Path.{◌≡◌, refl, sym, ap, ◌∙◌}
use mathlib.Core.Bool.{Bool, true, false}
use native.Mathlib.Omega.{arith}
use native.Mathlib.Nat.{
  pow-suc, one-le-pow, mod-add-div, mod-lt, mod-eq_of_lt, mul-add-mod_self_left,
}

-- A test at every number below a bound, by evaluation.
unfoldable pub each_below : (ℕ → Bool) → ℕ → Bool
each_below test zero = true
each_below test (suc top) = elim (test top) [ true ↦ each_below test top | false ↦ false ]

pub each_below→at :
    (test : ℕ → Bool) (top x : ℕ) → each_below test top ≡ true → x < top → test x ≡ true
unfolding each_below
each_below→at test zero x all below = absurd (omega arith)
each_below→at test (suc top) x all below = ground (arith, each_below→at test top x)

-- Both operations stand for a recursion on binary digits with the left word as fuel. Fuel beyond
-- the left word is spare.
module _ (rest : ℕ → ℕ) (join : ℕ → ℕ → ℕ) where
  spare_one :
      (a b fuel : ℕ) → a ≤ fuel → digits rest join (suc fuel) a b ≡ digits rest join fuel a b
  spare_one zero b zero e = refl
  spare_one zero b (suc fuel) e = refl
  spare_one (suc a) b zero e = absurd (omega arith)
  spare_one (suc a) b (suc fuel) e =
      ap (λ high. high * 2 + join (suc a % 2) (b % 2))
        (spare_one (suc a / 2) (b / 2) fuel (omega arith))

  spare : (d a b : ℕ) → digits rest join (d + a) a b ≡ digits rest join a a b
  spare zero a b = let none : 0 + a ≡ a = omega arith in ap (λ n. digits rest join n a b) none
  spare (suc d) a b =
      let one : suc d + a ≡ suc (d + a) = omega arith in
      ap (λ n. digits rest join n a b) one ∙ (spare_one a b (d + a) (omega arith) ∙ spare d a b)

  halves :
      (a b : ℕ)
      → bitwise rest join (suc a) b
        ≡ bitwise rest join (suc a / 2) (b / 2) * 2 + join (suc a % 2) (b % 2)
  halves a b =
      let half = suc a / 2 in
      let fuel : (a - half) + half ≡ a = omega arith in
      ap (λ high. high * 2 + join (suc a % 2) (b % 2))
        (ap (λ n. digits rest join n half (b / 2)) (sym fuel) ∙ spare (a - half) half (b / 2))

-- The lowest digit apart from the others.
pub bit_or-halves : (x y : ℕ) → bit_or x y ≡ max (x % 2) (y % 2) + 2 * bit_or (x / 2) (y / 2)
bit_or-halves zero y = omega (arith, bit_or-bitwise 0 y, bit_or-bitwise 0 (y / 2))
bit_or-halves (suc x) y =
    omega
      (arith, bit_or-bitwise (suc x) y, bit_or-bitwise (suc x / 2) (y / 2), halves (λ n. n) max x y)

pub bit_and-halves : (x y : ℕ) → bit_and x y ≡ min (x % 2) (y % 2) + 2 * bit_and (x / 2) (y / 2)
bit_and-halves zero y = omega (arith, bit_and-bitwise 0 y, bit_and-bitwise 0 (y / 2))
bit_and-halves (suc x) y =
    omega (
      arith,
      bit_and-bitwise (suc x) y,
      bit_and-bitwise (suc x / 2) (y / 2),
      halves (λ _. 0) min x y,
    )

-- The order of the two words does not matter, by induction on a bound of both.
or_swap : (bound x y : ℕ) → max x y ≤ bound → bit_or x y ≡ bit_or y x
or_swap zero x y h = ap (λ a. bit_or a y) (omega arith) ∙ ap (λ b. bit_or y b) (omega arith)
or_swap (suc bound) x y h =
    omega (arith, bit_or-halves x y, bit_or-halves y x, or_swap bound (x / 2) (y / 2) (omega arith))

pub bit_or_comm : (a b : ℕ) → bit_or a b ≡ bit_or b a
bit_or_comm a b = or_swap (max a b) a b (omega arith)

pub bit_or-zero : (a : ℕ) → bit_or a 0 ≡ a
bit_or-zero a = bit_or_comm a 0 ∙ bit_or-bitwise 0 a

-- One more bit below the cut.
shift_cut : (k p : ℕ) → p * 2 ^ suc k ≡ 2 * (p * 2 ^ k)
shift_cut k p = omega (arith, ap (λ (w : ℕ). p * w) (pow-suc 2 k))

-- `|` works on the two sides of a cut at bit `k` apart.
pub bit_or_split :
    (k p q r s : ℕ)
    → r < 2 ^ k
    → s < 2 ^ k
    → bit_or (p * 2 ^ k + r) (q * 2 ^ k + s) ≡ bit_or p q * 2 ^ k + bit_or r s
bit_or_split zero p q r s fr fs =
    let er : r ≡ 0 = omega arith in
    let es : s ≡ 0 = omega arith in rw (er, es) (ground (arith, bit_or-zero 0))
bit_or_split (suc k) p q r s fr fs = ground (
  arith,
  bit_or-halves (p * 2 ^ suc k + r) (q * 2 ^ suc k + s),
  bit_or-halves r s,
  shift_cut k p,
  shift_cut k q,
  shift_cut k (bit_or p q),
  pow-suc 2 k,
  bit_or_split k p q (r / 2) (s / 2) (omega arith) (omega arith),
)

-- A field above another one that ends below it.
pub bit_or_fields : (k q r : ℕ) → r < 2 ^ k → bit_or (q * 2 ^ k) r ≡ q * 2 ^ k + r
bit_or_fields k q r fits = ground (arith, bit_or_split k q 0 0 r, bit_or-zero q, bit_or-bitwise 0 r)

pub bit_or_above : (k q r : ℕ) → r < 2 ^ k → bit_or r (q * 2 ^ k) ≡ q * 2 ^ k + r
bit_or_above k q r fits = bit_or_comm r (q * 2 ^ k) ∙ bit_or_fields k q r fits

-- The remainder by `2 ^ suc k`, from its lowest bit.
low_bits : (m a : ℕ) → 0 < m → a % (2 * m) ≡ a % 2 + 2 * (a / 2 % m)
low_bits m a h =
    let q = a / 2 / m in
    let r = a % 2 + 2 * (a / 2 % m) in
    let whole : 2 * m * q + r ≡ a = ground (arith, mod-add-div (a / 2) m) in
    let small : r < 2 * m = omega (arith, mod-lt (a / 2) h) in
    ap (λ n. n % (2 * m)) (sym whole) ∙ (mul-add-mod_self_left (2 * m) q r ∙ mod-eq_of_lt small)

and_none : (bound x : ℕ) → x ≤ bound → bit_and x 0 ≡ 0
and_none zero x h = let e : x ≡ 0 = omega arith in rw e refl
and_none (suc bound) x h = ground (arith, bit_and-halves x 0, and_none bound (x / 2))

-- A mask of `k` ones keeps the `k` lowest bits.
pub bit_and_mask : (k a : ℕ) → bit_and a (2 ^ k - 1) ≡ a % 2 ^ k
bit_and_mask zero a = ground (arith, and_none a a)
bit_and_mask (suc k) a = ground (
  arith,
  bit_and-halves a (2 ^ suc k - 1),
  pow-suc 2 k,
  one-le-pow k 2,
  low_bits (2 ^ k) a,
  bit_and_mask k (a / 2),
)

-- A mask of high bits keeps those of the word.
pub bit_and_cut :
    (k p q r : ℕ) → r < 2 ^ k → bit_and (p * 2 ^ k + r) (q * 2 ^ k) ≡ bit_and p q * 2 ^ k
bit_and_cut zero p q r l = let none : r ≡ 0 = omega arith in rw none (ground arith)
bit_and_cut (suc k) p q r l = ground (
  arith,
  bit_and-halves (p * 2 ^ suc k + r) (q * 2 ^ suc k),
  shift_cut k p,
  shift_cut k q,
  shift_cut k (bit_and p q),
  pow-suc 2 k,
  bit_and_cut k p q (r / 2) (omega arith),
)
