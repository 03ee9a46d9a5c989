-- ===== src/Rtc/Tests.antt =====
-- The clock at fixed inputs.
use pygmali_os.Base.{ℕ, ◌≡◌, refl, arith, inl, true, ◌==◌, if◌then◌else◌}
use pygmali_os.Rtc.{Clock, update_time}
use pygmali_os.Rtc.Update.{date, IsClock, update_time-IsClock, date-update_time}
use pygmali_os.Rtc.Startup.{Shows}

abbrev clock : ℕ → ℕ → ℕ → ℕ → ℕ → ℕ → Clock
clock d mo y h mi s = record {
  second = s;
  minute = mi;
  hour = h;
  day = d;
  month = mo;
  year = y;
  timer = 7;
  is_24_hrs = true;
  is_bcd = true;
}

abbrev new_year : Clock
new_year = clock 31 12 25 23 59 59

new_year_turns : (update_time new_year).0 ≡ record (clock 1 1 26 0 0 0) { timer = 8 }
unfolding update_time
new_year_turns = refl

-- 28 February 2023 at 8:00 is followed by 1 March at 8:00:01.
february_is_cut : (update_time (clock 28 2 23 8 0 0)).0 ≡ record (clock 1 3 23 8 0 1) { timer = 8 }
unfolding update_time
february_is_cut = refl

update_time-IsClock_example : IsClock (update_time new_year).0
update_time-IsClock_example =
    update_time-IsClock new_year
      (record { time = omega arith; calendar = omega arith; february = inl (omega arith) })

date-update_time_example : date (update_time new_year).0 ≡ record { day = 1; month = 1; year = 26 }
date-update_time_example = date-update_time new_year (omega arith) (omega arith) (inl (omega arith))

-- A chip in the 24-hour BCD mode that shows 31 December 2025, 23:59:59.
abbrev chip : ℕ → ℕ
chip r =
    if r == 0
    then 0x59
    else if r == 2
    then 0x59
    else if r == 4
    then 0x23
    else if r == 7
    then 0x31
    else if r == 8
    then 0x12
    else if r == 9
    then 0x25
    else if r == 0x0B
    then 2
    else 0

chip-Shows : Shows chip true true new_year
chip-Shows = record {
  mode_bcd = refl;
  mode_full = refl;
  second_reg = refl;
  minute_reg = refl;
  hour_reg = refl;
  day_reg = refl;
  month_reg = refl;
  year_reg = refl;
}
