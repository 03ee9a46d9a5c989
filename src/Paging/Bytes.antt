-- ===== src/Paging/Bytes.antt =====
-- Setting, clearing and testing a bit of a byte.
use pygmali_os.Base.{
  ℕ, ◌-◌, ◌<◌, ◌≡◌, refl, arith, Bool, true, false, not, ◌==◌, if◌then◌else◌, u8, shl, bit_and,
  bit_or,
}
use pygmali_os.Base.Bits.{each_below, each_below→at}

abbrev pub bit : ℕ → ℕ → Bool
bit b j = not (bit_and b (shl 1 j) == 0)

abbrev same : Bool → Bool → Bool
same p q = if p then q else not q

same→eq : (p q : Bool) → same p q ≡ true → p ≡ q
same→eq p q e = ground arith

abbrev set_right : ℕ → ℕ → ℕ → Bool
set_right k j b = same (bit (u8 (bit_or b (shl 1 k))) j) (if j == k then true else bit b j)

abbrev clear_right : ℕ → ℕ → ℕ → Bool
clear_right k j b =
    same (bit (u8 (bit_and b (0xFFFFFFFF - shl 1 k))) j) (if j == k then false else bit b j)

set_table : each_below (λ k. each_below (λ j. each_below (set_right k j) 256) 8) 8 ≡ true
unfolding each_below
set_table = refl

clear_table : each_below (λ k. each_below (λ j. each_below (clear_right k j) 256) 8) 8 ≡ true
unfolding each_below
clear_table = refl

pub bit-set :
    (k j b : ℕ)
    → k < 8
    → j < 8
    → b < 256
    → bit (u8 (bit_or b (shl 1 k))) j ≡ (if j == k then true else bit b j)
bit-set k j b hk hj hb = same→eq _ _ (
    each_below→at (set_right k j) 256 b
      (each_below→at (λ j. each_below (set_right k j) 256) 8 j
        (each_below→at (λ k. each_below (λ j. each_below (set_right k j) 256) 8) 8 k set_table hk)
        hj)
      hb)

pub bit-clear :
    (k j b : ℕ)
    → k < 8
    → j < 8
    → b < 256
    → bit (u8 (bit_and b (0xFFFFFFFF - shl 1 k))) j ≡ (if j == k then false else bit b j)
bit-clear k j b hk hj hb = same→eq _ _ (
    each_below→at (clear_right k j) 256 b
      (each_below→at (λ j. each_below (clear_right k j) 256) 8 j
        (each_below→at (λ k. each_below (λ j. each_below (clear_right k j) 256) 8) 8 k clear_table
          hk)
        hj)
      hb)
