-- ===== src/Rtc.antt =====
-- src/rtc.c: the wall clock kept by the real-time-clock interrupt.
pub mod Calendar
pub mod Startup
pub mod Update
mod Tests
use pygmali_os.Base.{
  ℕ, ◌+◌, ◌*◌, ◌%◌, Bool, true, false, not, ◌&&◌, ◌||◌, List, [], ◌∷◌, ◌++◌, ◌==◌, leb, ltb,
  if◌then◌else◌, u8, u64, shr, bit_and, bit_or,
}
use pygmali_os.Io.{IoEvent, outb, inb, io_wait, pic_send_eoi}

-- The globals of rtc.c. Each field but `timer` is a `uint8_t`.
pub record Clock : Type 0 where
  pub second : ℕ
  pub minute : ℕ
  pub hour : ℕ
  pub day : ℕ
  pub month : ℕ
  pub year : ℕ
  pub timer : ℕ
  pub is_24_hrs : Bool
  pub is_bcd : Bool

-- The `if`s of `update_time`, in order, each on the fields as the one above left them.
abbrev pub roll_minute : Clock → Clock
roll_minute c = if leb 60 c.second then record c { second = 0; minute = u8 (c.minute + 1) } else c

abbrev pub roll_hour : Clock → Clock
roll_hour c = if leb 60 c.minute then record c { minute = 0; hour = u8 (c.hour + 1) } else c

abbrev pub roll_day : Clock → Clock
roll_day c = if leb 24 c.hour then record c { hour = 0; day = u8 (c.day + 1) } else c

abbrev pub next_month : Clock → Clock
next_month c = record c { day = 1; month = u8 (c.month + 1) }

abbrev pub roll_february : Clock → Clock
roll_february c =
    if c.month == 2 && ((c.day == 29 && c.year % 4 == 0) || (c.day == 28 && not (c.year % 4 == 0)))
    then next_month c
    else c

abbrev pub is_long : ℕ → Bool
is_long m = m == 1 || m == 3 || m == 5 || m == 7 || m == 8 || m == 10 || m == 12

abbrev pub is_short : ℕ → Bool
is_short m = m == 4 || m == 6 || m == 9 || m == 11

abbrev pub roll_long : Clock → Clock
roll_long c = if ltb 31 c.day && is_long c.month then next_month c else c

abbrev pub roll_short : Clock → Clock
roll_short c = if ltb 30 c.day && is_short c.month then next_month c else c

abbrev pub roll_year : Clock → Clock
roll_year c = if ltb 12 c.month then record c { month = 1; year = u8 (c.year + 1) } else c

-- The date after the day counter was raised.
pub settle_date : Clock → Clock
settle_date c = roll_year (roll_short (roll_long (roll_february c)))

-- The time of day after the second counter was raised.
pub settle_time : Clock → Clock
settle_time c = roll_day (roll_hour (roll_minute c))

abbrev pub count_second : Clock → Clock
count_second c = record c { timer = u64 (c.timer + 1); second = u8 (c.second + 1) }

-- Register C is read at the end, so that the interrupt can occur again.
abbrev pub acknowledge : List IoEvent
acknowledge = outb 0x70 0x0C ∷ io_wait ∷ inb 0x71 ∷ []

pub update_time : Clock → Clock × List IoEvent
unfolding settle_date settle_time pic_send_eoi
update_time c = (settle_date (settle_time (count_second c)), acknowledge ++ pic_send_eoi 8)

pub bcd_to_binary : ℕ → ℕ
bcd_to_binary v = u8 (bit_and v 0x0F + shr v 4 * 10)

-- `check_status`, given status register B.
pub check_status : ℕ → Clock → Clock
check_status b c = record c { is_24_hrs = not (bit_and b 2 == 0); is_bcd = bit_and b 4 == 0 }

-- `enable_rtc_interrupts`, given status register B.
pub enable_rtc_interrupts : ℕ → List IoEvent
enable_rtc_interrupts b =
    outb 0x70 (bit_or 0x0B 0x80)
    ∷ io_wait
    ∷ inb 0x71
    ∷ io_wait
    ∷ outb 0x70 (bit_or 0x0B 0x80)
    ∷ io_wait
    ∷ outb 0x71 (bit_or b 0x10)
    ∷ io_wait
    ∷ outb 0x70 0x0B
    ∷ []

-- The polling loop of `check_for_updates` over the bytes that register A shows, one at a poll; the
-- loop ends at the first byte whose top bit is clear.
poll_updates : List ℕ → List IoEvent
poll_updates [] = []
poll_updates (a ∷ rest) =
    if bit_and a 0x80 == 0 then inb 0x71 ∷ [] else inb 0x71 ∷ io_wait ∷ poll_updates rest

pub check_for_updates : List ℕ → List IoEvent
unfolding poll_updates
check_for_updates polls = io_wait ∷ outb 0x70 (bit_or 0x0A 0x80) ∷ io_wait ∷ poll_updates polls

-- The port traffic of `check_status`.
abbrev check_status_io : List IoEvent
check_status_io = io_wait ∷ outb 0x70 (bit_or 0x0B 0x80) ∷ io_wait ∷ inb 0x71 ∷ []

-- Selecting a register and reading it.
abbrev read_register : ℕ → List IoEvent
read_register r = outb 0x70 (bit_or r 0x80) ∷ io_wait ∷ inb 0x71 ∷ []

-- The correction of the hour register by its afternoon bit.
pub decode_hour : Bool → Bool → ℕ → ℕ
unfolding bcd_to_binary
decode_hour bcd full h =
    let low = bit_and h 0x7F in
    let value = λ (n : ℕ). if bcd then bcd_to_binary n else n in
    if not (bit_and h 0x80 == 0) && not full
    then (if value low == 12 then value low else u8 (value low + 12))
    else value h

-- `read_startup_time`. `polls` are the bytes that register A shows while an update is going on, and
-- `cmos` is the register file of the chip, which the code reads register by register.
pub read_startup_time : List ℕ → (ℕ → ℕ) → Clock → Clock × List IoEvent
unfolding bcd_to_binary check_status decode_hour enable_rtc_interrupts check_for_updates
read_startup_time polls cmos c =
    let s = check_status (cmos 0x0B) c in
    let value = λ (n : ℕ). if s.is_bcd then bcd_to_binary n else n in
    (
      record s {
        second = value (cmos 0);
        minute = value (cmos 2);
        hour = decode_hour s.is_bcd s.is_24_hrs (cmos 4);
        day = value (cmos 7);
        month = value (cmos 8);
        year = value (cmos 9);
      },
      enable_rtc_interrupts (cmos 0x0B)
          ++ (check_status_io
              ++ (check_for_updates polls
                  ++ (read_register 0
                      ++ (read_register 2
                          ++ (read_register 4
                              ++ (read_register 7
                                  ++ (read_register 8
                                      ++ (read_register 9 ++ (outb 0x70 9 ∷ []))))))))),
    )
