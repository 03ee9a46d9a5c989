-- ===== src/Rtc/Update.antt =====
-- `update_time` against the calendar.
use pygmali_os.Base.{
  ℕ, ◌+◌, ◌%◌, ◌<◌, ◌≡◌, ◌≢◌, ◌⊎◌, inl, inr, arith, Bool-cases, ◌==◌, if◌then◌else◌,
}
use pygmali_os.Rtc.{Clock, update_time, settle_date, settle_time, count_second}
use pygmali_os.Rtc.Calendar.{Date, IsDate, days_in, tomorrow, second_of_day}

abbrev pub date : Clock → Date
date c = record { day = c.day; month = c.month; year = c.year }

pub record IsTime (c : Clock) : Type 0 where
  pub second_in : c.second < 60
  pub minute_in : c.minute < 60
  pub hour_in : c.hour < 24

abbrev pub IsBeforeFebruaryEnd : Clock → Type 0
IsBeforeFebruaryEnd c = (c.month ≢ 2) ⊎ (c.day < days_in c.year c.month)

-- A time of day and a date, the last day of February left out.
pub record IsClock (c : Clock) : Type 0 where
  pub time : IsTime c
  pub calendar : IsDate (date c)
  pub february : IsBeforeFebruaryEnd c

abbrev pub seconds : Clock → ℕ
seconds c = second_of_day c.hour c.minute c.second

-- The clock after the second counter and the time of day are brought up to date.
abbrev timed : Clock → Clock
timed c = settle_time (count_second c)

settle_time_lem :
    (c : Clock)
    → IsTime c
    → IsTime (timed c)
      × (seconds (timed c) ≡ (seconds c + 1) % 86400)
      × ((timed c).month ≡ c.month)
      × ((timed c).year ≡ c.year)
      × ((timed c).day ≡ (if seconds c == 86399 then (c.day + 1) % 256 else c.day))
unfolding settle_time
settle_time_lem c v = ground arith

-- `settle_date` leaves the time of day alone.
settle_date-IsTime :
    (d : Clock) → IsTime d → IsTime (settle_date d) × (seconds (settle_date d) ≡ seconds d)
unfolding settle_date
settle_date-IsTime d v = ground arith

module _ (c d : Clock) (v : IsDate (date c)) (m : d.month ≡ c.month) (y : d.year ≡ c.year) where
  settle_date_same : IsBeforeFebruaryEnd c → d.day ≡ c.day → date (settle_date d) ≡ date c
  unfolding settle_date
  settle_date_same h e = ground arith

  settle_date-tomorrow :
      (c.month ≢ 2) ⊎ (c.day < 27)
      → d.day ≡ (c.day + 1) % 256
      → date (settle_date d) ≡ tomorrow (date c)
  unfolding settle_date
  settle_date-tomorrow h e = ground arith

  settle_date-IsDate :
      IsBeforeFebruaryEnd c
      → (d.day ≡ c.day) ⊎ (d.day ≡ (c.day + 1) % 256)
      → IsDate (date (settle_date d))
  unfolding settle_date
  settle_date-IsDate h e = ground arith

  settle_date-february :
      IsBeforeFebruaryEnd c
      → (d.day ≡ c.day) ⊎ (d.day ≡ (c.day + 1) % 256)
      → IsBeforeFebruaryEnd (settle_date d)
  unfolding settle_date
  settle_date-february h e = ground arith

day_choice : (c : Clock) → IsTime c → ((timed c).day ≡ c.day) ⊎ ((timed c).day ≡ (c.day + 1) % 256)
day_choice c v = ground (arith, settle_time_lem c v)

-- A clock that shows a time of day and a date that is not the last day of its February still does
-- after the interrupt.
pub update_time-IsClock : (c : Clock) → IsClock c → IsClock (update_time c).0
unfolding update_time
update_time-IsClock c v =
    let t = settle_time_lem c v.time in
    record {
      time = (settle_date-IsTime (timed c) t.0).0;
      calendar = settle_date-IsDate c (timed c) v.calendar t.2 t.3 v.february (day_choice c v.time);
      february =
          settle_date-february c (timed c) v.calendar t.2 t.3 v.february (day_choice c v.time);
    }

-- The interrupt moves a time of day on by one second, round the day, whatever the date is.
pub seconds-update_time :
    (c : Clock)
    → IsTime c
    → IsTime (update_time c).0 × (seconds (update_time c).0 ≡ (seconds c + 1) % 86400)
unfolding update_time
seconds-update_time c v =
    omega (arith, settle_time_lem c v, settle_date-IsTime (timed c) (settle_time_lem c v).0)

-- Outside February, and in it up to the 26th, the interrupt turns a valid date to the next day at
-- midnight and leaves it alone at every other second.
pub date-update_time :
    (c : Clock)
    → IsTime c
    → IsDate (date c)
    → (c.month ≢ 2) ⊎ (c.day < 27)
    → date (update_time c).0 ≡ (if seconds c == 86399 then tomorrow (date c) else date c)
unfolding update_time
date-update_time c v w h =
    let t = settle_time_lem c v in
    elim (Bool-cases (seconds c == 86399)) [
      | inl e ↦ rw e (settle_date-tomorrow c (timed c) w t.2 t.3 h (rw e at t.4))
      | inr e ↦ rw e (settle_date_same c (timed c) w t.2 t.3 (ground arith) (rw e at t.4))
    ]

-- On the last day of February the next interrupt shows 1 March, unless it is the one at midnight.
pub update_time-february_end :
    (c : Clock)
    → IsTime c
    → IsDate (date c)
    → c.month ≡ 2
    → c.day ≡ days_in c.year 2
    → seconds c ≢ 86399
    → date (update_time c).0 ≡ record { day = 1; month = 3; year = c.year }
unfolding update_time settle_date
update_time-february_end c v w m e n = ground (arith, settle_time_lem c v)
