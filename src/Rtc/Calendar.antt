-- ===== src/Rtc/Calendar.antt =====
-- What a clock is to show, said without the code of src/rtc.c: dates from 2000 to 2099 by their
-- months' lengths, and the time of day as a number of seconds.
use pygmali_os.Base.{ℕ, ◌+◌, ◌*◌, ◌%◌, ◌≤◌, ◌<◌, Bool, ◌||◌, ◌==◌, ltb, if◌then◌else◌}

abbrev pub is_leap : ℕ → Bool
is_leap year = year % 4 == 0

abbrev pub days_in : ℕ → ℕ → ℕ
days_in year month =
    if month == 2
    then (if is_leap year then 29 else 28)
    else if month == 4 || month == 6 || month == 9 || month == 11
    then 30
    else 31

pub record Date : Type 0 where
  pub day : ℕ
  pub month : ℕ
  pub year : ℕ

pub record IsDate (d : Date) : Type 0 where
  pub month_low : 1 ≤ d.month
  pub month_high : d.month ≤ 12
  pub day_low : 1 ≤ d.day
  pub day_high : d.day ≤ days_in d.year d.month
  pub year_high : d.year < 256

-- The next day; the year is one byte.
abbrev pub tomorrow : Date → Date
tomorrow d =
    if ltb d.day (days_in d.year d.month)
    then record d { day = d.day + 1 }
    else if d.month == 12
    then record { day = 1; month = 1; year = (d.year + 1) % 256 }
    else record d { day = 1; month = d.month + 1 }

abbrev pub second_of_day : ℕ → ℕ → ℕ → ℕ
second_of_day hour minute second = (hour * 60 + minute) * 60 + second
