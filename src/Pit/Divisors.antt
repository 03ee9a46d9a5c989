-- ===== src/Pit/Divisors.antt =====
-- src/pit.c: the divisor that the timer gets.
use pygmali_os.Base.{ℕ, ◌+◌, ◌*◌, ◌/◌, ◌%◌, ◌≤◌, ◌≡◌, refl, arith, false, [], ◌∷◌, ◌==◌}
use pygmali_os.Base.{bit_and, some}
use pygmali_os.Base.Bits.{bit_and-halves, bit_and_mask}
use native.Mathlib.Nat.{div-mul-le_self, mul-le-mul_left}
use pygmali_os.Io.{outb, io_wait}
use pygmali_os.Pit.{
  pit_frequency, divisor, lo_divisor, hi_divisor, set_hertz, play_sound, port, msleep,
}

bit_and-0xFF1 : (d : ℕ) → bit_and d 0xFF1 ≡ d % 2 + 16 * (d / 16 % 256)
bit_and-0xFF1 d = omega (
  arith,
  bit_and-halves d 0xFF1,
  bit_and-halves (d / 2) 0x7F8,
  bit_and-halves (d / 2 / 2) 0x3FC,
  bit_and-halves (d / 2 / 2 / 2) 0x1FE,
  bit_and_mask 8 (d / 2 / 2 / 2 / 2),
)

bytes-divisor :
    (hertz : ℕ)
    → lo_divisor hertz + 256 * hi_divisor hertz ≡ divisor hertz % 2 + 16 * (divisor hertz / 16)
bytes-divisor hertz =
    let d = divisor hertz in omega (arith, bit_and-0xFF1 d, bit_and_mask 8 (d / 256))

divisor-exact : (hertz : ℕ) → 19 ≤ hertz → divisor hertz ≡ pit_frequency / hertz
divisor-exact hertz l =
    omega (arith, div-mul-le_self pit_frequency hertz, mul-le-mul_left (pit_frequency / hertz) l)

-- For a frequency from 19 on, the two bytes that the timer gets are the divisor without its bits
-- 1, 2 and 3: they are at most 14 less, both for the timer's channel and for the speaker's.
pub set_hertz-divisor :
    (hertz duration : ℕ)
    → 19 ≤ hertz
    → (lo : ℕ) × (hi : ℕ) × (set_hertz hertz
        ≡ some (outb 0x43 0x34 ∷ io_wait ∷ outb 0x40 lo ∷ io_wait ∷ outb 0x40 hi ∷ []))
      × (play_sound hertz duration
          ≡ some (
              port (outb 0x43 0xB6)
              ∷ port io_wait
              ∷ port (outb 0x42 lo)
              ∷ port io_wait
              ∷ port (outb 0x42 hi)
              ∷ port (outb 0x61 3)
              ∷ msleep duration
              ∷ port (outb 0x61 0)
              ∷ []))
      × (lo + 256 * hi ≤ pit_frequency / hertz)
      × (pit_frequency / hertz ≤ lo + 256 * hi + 14)
unfolding set_hertz play_sound
set_hertz-divisor hertz duration l =
    let nonzero : (hertz == 0) ≡ false = ground arith in
    let bytes = bytes-divisor hertz in
    let exact = divisor-exact hertz l in
    (
      lo_divisor hertz,
      hi_divisor hertz,
      rw nonzero refl,
      rw nonzero refl,
      omega (arith, bytes, exact),
      omega (arith, bytes, exact),
    )
