-- ===== src/Rtc/Startup.antt =====
-- `bcd_to_binary` and `read_startup_time` against the encodings that the CMOS chip documents.
use pygmali_os.Base.{
  ℕ, ◌+◌, ◌*◌, ◌/◌, ◌%◌, ◌<◌, ◌≡◌, refl, Bool, true, false, not, ◌&&◌, List, ◌==◌, ==_iff, leb,
  if◌then◌else◌, bit_and,
}
use pygmali_os.Base.Bits.{each_below, each_below→at}
use pygmali_os.Rtc.{Clock, bcd_to_binary, decode_hour, read_startup_time}

-- Two decimal digits in one byte.
abbrev pub encode_bcd : ℕ → ℕ
encode_bcd v = v / 10 * 16 + v % 10

abbrev pub encode : Bool → ℕ → ℕ
encode bcd v = if bcd then encode_bcd v else v

-- The hour register: in the twelve-hour mode the hours go from 1 to 12, and the top bit says PM.
abbrev pub encode_hour : Bool → Bool → ℕ → ℕ
encode_hour bcd full h =
    if full
    then encode bcd h
    else encode bcd (if h % 12 == 0 then 12 else h % 12) + (if leb 12 h then 128 else 0)

bcd_table : each_below (λ v. bcd_to_binary (encode_bcd v) == v) 100 ≡ true
unfolding each_below bcd_to_binary
bcd_table = refl

-- Every number of two digits comes back from its BCD byte.
pub bcd_to_binary-encode_bcd : (v : ℕ) → v < 100 → bcd_to_binary (encode_bcd v) ≡ v
bcd_to_binary-encode_bcd v h = (==_iff _ v).0 (each_below→at _ 100 v bcd_table h)

-- What `decode_hour` makes of a chip's hour register.
abbrev pub hour_read : Bool → ℕ → ℕ
hour_read full h = if not full && h == 0 then 12 else h

abbrev hour_is_right : Bool → Bool → ℕ → Bool
hour_is_right bcd full h = decode_hour bcd full (encode_hour bcd full h) == hour_read full h

hour_table : (bcd full : Bool) → each_below (hour_is_right bcd full) 24 ≡ true
unfolding each_below decode_hour
hour_table true true = refl
hour_table true false = refl
hour_table false true = refl
hour_table false false = refl

-- The hour is read right in each mode of the chip, but for the hour after midnight of the
-- twelve-hour modes, which is read as noon.
pub decode_hour-encode_hour :
    (bcd full : Bool) (h : ℕ)
    → h < 24
    → decode_hour bcd full (encode_hour bcd full h) ≡ hour_read full h
decode_hour-encode_hour bcd full h k =
    (==_iff _ (hour_read full h)).0 (each_below→at _ 24 h (hour_table bcd full) k)

-- The chip's registers show the date and time `t`, in the mode of its status register B.
pub record Shows (cmos : ℕ → ℕ) (bcd full : Bool) (t : Clock) : Type 0 where
  pub mode_bcd : (bit_and (cmos 0x0B) 4 == 0) ≡ bcd
  pub mode_full : not (bit_and (cmos 0x0B) 2 == 0) ≡ full
  pub second_reg : cmos 0 ≡ encode bcd t.second
  pub minute_reg : cmos 2 ≡ encode bcd t.minute
  pub hour_reg : cmos 4 ≡ encode_hour bcd full t.hour
  pub day_reg : cmos 7 ≡ encode bcd t.day
  pub month_reg : cmos 8 ≡ encode bcd t.month
  pub year_reg : cmos 9 ≡ encode bcd t.year

pub record IsShown (t : Clock) : Type 0 where
  pub second_two : t.second < 100
  pub minute_two : t.minute < 100
  pub hour_in : t.hour < 24
  pub day_two : t.day < 100
  pub month_two : t.month < 100
  pub year_two : t.year < 100

decode :
    (bcd : Bool) (v : ℕ)
    → v < 100
    → (if bcd then bcd_to_binary (encode bcd v) else encode bcd v) ≡ v
decode true v h = bcd_to_binary-encode_bcd v h
decode false v h = refl

-- At startup the clock takes over the time that the chip shows, whichever of its four modes it is
-- in, up to the reading of the hour.
pub read_startup_time-Shows :
    (cmos : ℕ → ℕ) (polls : List ℕ) (bcd full : Bool) (t c : Clock)
    → Shows cmos bcd full t
    → IsShown t
    → (read_startup_time polls cmos c).0
      ≡ record t { hour = hour_read full t.hour; timer = c.timer; is_24_hrs = full; is_bcd = bcd }
unfolding read_startup_time
read_startup_time-Shows cmos polls bcd full t c s v =
    rw
      (
        s.mode_bcd,
        s.mode_full,
        s.second_reg,
        s.minute_reg,
        s.hour_reg,
        s.day_reg,
        s.month_reg,
        s.year_reg,
        decode_hour-encode_hour bcd full t.hour v.hour_in,
        decode bcd t.second v.second_two,
        decode bcd t.minute v.minute_two,
        decode bcd t.day v.day_two,
        decode bcd t.month v.month_two,
        decode bcd t.year v.year_two,
      )
      refl
