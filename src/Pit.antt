-- ===== src/Pit.antt =====
-- src/pit.c: the interval timer and the speaker, and the table of the notes. A note's name is the
-- list of its bytes. Waiting is an event of its own, with the milliseconds to wait.
pub mod Divisors
use pygmali_os.Base.{
  ℕ, zero, suc, ◌+◌, ◌-◌, ◌*◌, ◌/◌, ◌%◌, ◌^◌, ◌≤◌, ◌<◌, ◌≡◌, ◌≢◌, ◌∙◌, ◌⊎◌, inl, inr, refl, sym, ap,
  arith, Bool, true, false, ◌&&◌, ◌||◌, not, List, [], ◌∷◌, ◌++◌, ◌==◌, leb, ltb, min,
  if◌then◌else◌, get_or, set, take, drop, replicate, length, Bool-cases, else-taken, u64, sub32,
  get_or-cons,
}
use pygmali_os.Base.{bit_and, u8, u16, u32, shr, Option, none, some}
use pygmali_os.Io.{IoEvent, outb, io_wait}

abbrev pub pit_frequency : ℕ
pit_frequency = 1193182

abbrev pub channel_0_data : ℕ
channel_0_data = 0x40

abbrev pub channel_2_data : ℕ
channel_2_data = 0x42

abbrev pub pit_command_register : ℕ
pit_command_register = 0x43

abbrev pub pc_speaker : ℕ
pc_speaker = 0x61

abbrev pub divisor : ℕ → ℕ
divisor hertz = u16 (pit_frequency / hertz)

abbrev pub lo_divisor : ℕ → ℕ
lo_divisor hertz = u8 (bit_and (divisor hertz) 0xFF1)

abbrev pub hi_divisor : ℕ → ℕ
hi_divisor hertz = bit_and (shr (divisor hertz) 8) 0xFF

-- What the speaker driver does: port writes, and waits that the timer ends.
pub data SoundEvent : Type 0 where
  port : IoEvent → SoundEvent
  msleep : ℕ → SoundEvent

-- A frequency of zero is a division error.
unfoldable pub set_hertz : ℕ → Option (List IoEvent)
set_hertz hertz =
    if hertz == 0
    then none
    else some (
        outb pit_command_register 0x34
        ∷ io_wait
        ∷ outb channel_0_data (lo_divisor hertz)
        ∷ io_wait
        ∷ outb channel_0_data (hi_divisor hertz)
        ∷ [])

unfoldable pub play_sound : ℕ → ℕ → Option (List SoundEvent)
play_sound hertz duration =
    if hertz == 0
    then none
    else some (
        port (outb pit_command_register 0xB6)
        ∷ port io_wait
        ∷ port (outb channel_2_data (lo_divisor hertz))
        ∷ port io_wait
        ∷ port (outb channel_2_data (hi_divisor hertz))
        ∷ port (outb pc_speaker 3)
        ∷ msleep duration
        ∷ port (outb pc_speaker 0)
        ∷ [])

-- The wait of `msleep`, with the interrupts that `hlt` waits for as fuel: the timer when it ends.
unfoldable pub wait_until : ℕ → ℕ → ℕ → Option ℕ
wait_until zero end timer = none
wait_until (suc n) end timer =
    let rest = wait_until n end (timer + 1) in if ltb timer end then rest else some timer

pub record Note : Type 0 where
  pub frequency : ℕ
  pub name : List ℕ

abbrev note : ℕ → List ℕ → Note
note f s = record { frequency = f; name = s }

abbrev pub note_table : List Note
note_table =
    note 33 (0x43 ∷ 0x31 ∷ [])
    ∷ note 35 (0x43 ∷ 0x53 ∷ 0x48 ∷ 0x41 ∷ 0x52 ∷ 0x50 ∷ 0x31 ∷ [])
    ∷ note 37 (0x44 ∷ 0x31 ∷ [])
    ∷ note 39 (0x44 ∷ 0x53 ∷ 0x48 ∷ 0x41 ∷ 0x52 ∷ 0x50 ∷ 0x31 ∷ [])
    ∷ note 41 (0x45 ∷ 0x31 ∷ [])
    ∷ note 44 (0x46 ∷ 0x31 ∷ [])
    ∷ note 46 (0x46 ∷ 0x53 ∷ 0x48 ∷ 0x41 ∷ 0x52 ∷ 0x50 ∷ 0x31 ∷ [])
    ∷ note 49 (0x47 ∷ 0x31 ∷ [])
    ∷ note 52 (0x47 ∷ 0x53 ∷ 0x48 ∷ 0x41 ∷ 0x52 ∷ 0x50 ∷ 0x31 ∷ [])
    ∷ note 55 (0x41 ∷ 0x31 ∷ [])
    ∷ note 58 (0x41 ∷ 0x53 ∷ 0x48 ∷ 0x41 ∷ 0x52 ∷ 0x50 ∷ 0x31 ∷ [])
    ∷ note 62 (0x42 ∷ 0x31 ∷ [])
    ∷ note 65 (0x43 ∷ 0x32 ∷ [])
    ∷ note 69 (0x43 ∷ 0x53 ∷ 0x48 ∷ 0x41 ∷ 0x52 ∷ 0x50 ∷ 0x32 ∷ [])
    ∷ note 73 (0x44 ∷ 0x32 ∷ [])
    ∷ note 78 (0x44 ∷ 0x53 ∷ 0x48 ∷ 0x41 ∷ 0x52 ∷ 0x50 ∷ 0x32 ∷ [])
    ∷ note 82 (0x45 ∷ 0x32 ∷ [])
    ∷ note 87 (0x46 ∷ 0x32 ∷ [])
    ∷ note 93 (0x46 ∷ 0x53 ∷ 0x48 ∷ 0x41 ∷ 0x52 ∷ 0x50 ∷ 0x32 ∷ [])
    ∷ note 98 (0x47 ∷ 0x32 ∷ [])
    ∷ note 104 (0x47 ∷ 0x53 ∷ 0x48 ∷ 0x41 ∷ 0x52 ∷ 0x50 ∷ 0x32 ∷ [])
    ∷ note 110 (0x41 ∷ 0x32 ∷ [])
    ∷ note 117 (0x41 ∷ 0x53 ∷ 0x48 ∷ 0x41 ∷ 0x52 ∷ 0x50 ∷ 0x32 ∷ [])
    ∷ note 123 (0x42 ∷ 0x32 ∷ [])
    ∷ note 131 (0x43 ∷ 0x33 ∷ [])
    ∷ note 139 (0x43 ∷ 0x53 ∷ 0x48 ∷ 0x41 ∷ 0x52 ∷ 0x50 ∷ 0x33 ∷ [])
    ∷ note 147 (0x44 ∷ 0x33 ∷ [])
    ∷ note 156 (0x44 ∷ 0x53 ∷ 0x48 ∷ 0x41 ∷ 0x52 ∷ 0x50 ∷ 0x33 ∷ [])
    ∷ note 165 (0x45 ∷ 0x33 ∷ [])
    ∷ note 175 (0x46 ∷ 0x33 ∷ [])
    ∷ note 185 (0x46 ∷ 0x53 ∷ 0x48 ∷ 0x41 ∷ 0x52 ∷ 0x50 ∷ 0x33 ∷ [])
    ∷ note 196 (0x47 ∷ 0x33 ∷ [])
    ∷ note 208 (0x47 ∷ 0x53 ∷ 0x48 ∷ 0x41 ∷ 0x52 ∷ 0x50 ∷ 0x33 ∷ [])
    ∷ note 220 (0x41 ∷ 0x33 ∷ [])
    ∷ note 233 (0x41 ∷ 0x53 ∷ 0x48 ∷ 0x41 ∷ 0x52 ∷ 0x50 ∷ 0x33 ∷ [])
    ∷ note 247 (0x42 ∷ 0x33 ∷ [])
    ∷ note 262 (0x43 ∷ 0x34 ∷ [])
    ∷ note 277 (0x43 ∷ 0x53 ∷ 0x48 ∷ 0x41 ∷ 0x52 ∷ 0x50 ∷ 0x34 ∷ [])
    ∷ note 294 (0x44 ∷ 0x34 ∷ [])
    ∷ note 311 (0x44 ∷ 0x53 ∷ 0x48 ∷ 0x41 ∷ 0x52 ∷ 0x50 ∷ 0x34 ∷ [])
    ∷ note 330 (0x45 ∷ 0x34 ∷ [])
    ∷ note 349 (0x46 ∷ 0x34 ∷ [])
    ∷ note 370 (0x46 ∷ 0x53 ∷ 0x48 ∷ 0x41 ∷ 0x52 ∷ 0x50 ∷ 0x34 ∷ [])
    ∷ note 392 (0x47 ∷ 0x34 ∷ [])
    ∷ note 415 (0x47 ∷ 0x53 ∷ 0x48 ∷ 0x41 ∷ 0x52 ∷ 0x50 ∷ 0x34 ∷ [])
    ∷ note 440 (0x41 ∷ 0x34 ∷ [])
    ∷ note 466 (0x41 ∷ 0x53 ∷ 0x48 ∷ 0x41 ∷ 0x52 ∷ 0x50 ∷ 0x34 ∷ [])
    ∷ note 494 (0x42 ∷ 0x34 ∷ [])
    ∷ note 523 (0x43 ∷ 0x35 ∷ [])
    ∷ note 554 (0x43 ∷ 0x53 ∷ 0x48 ∷ 0x41 ∷ 0x52 ∷ 0x50 ∷ 0x35 ∷ [])
    ∷ note 587 (0x44 ∷ 0x35 ∷ [])
    ∷ note 622 (0x44 ∷ 0x53 ∷ 0x48 ∷ 0x41 ∷ 0x52 ∷ 0x50 ∷ 0x35 ∷ [])
    ∷ note 659 (0x45 ∷ 0x35 ∷ [])
    ∷ note 698 (0x46 ∷ 0x35 ∷ [])
    ∷ note 740 (0x46 ∷ 0x53 ∷ 0x48 ∷ 0x41 ∷ 0x52 ∷ 0x50 ∷ 0x35 ∷ [])
    ∷ note 784 (0x47 ∷ 0x35 ∷ [])
    ∷ note 831 (0x47 ∷ 0x53 ∷ 0x48 ∷ 0x41 ∷ 0x52 ∷ 0x50 ∷ 0x35 ∷ [])
    ∷ note 880 (0x41 ∷ 0x35 ∷ [])
    ∷ note 932 (0x41 ∷ 0x53 ∷ 0x48 ∷ 0x41 ∷ 0x52 ∷ 0x50 ∷ 0x35 ∷ [])
    ∷ note 988 (0x42 ∷ 0x35 ∷ [])
    ∷ note 1047 (0x43 ∷ 0x36 ∷ [])
    ∷ note 1109 (0x43 ∷ 0x53 ∷ 0x48 ∷ 0x41 ∷ 0x52 ∷ 0x50 ∷ 0x36 ∷ [])
    ∷ note 1175 (0x44 ∷ 0x36 ∷ [])
    ∷ note 1245 (0x44 ∷ 0x53 ∷ 0x48 ∷ 0x41 ∷ 0x52 ∷ 0x50 ∷ 0x36 ∷ [])
    ∷ note 1319 (0x45 ∷ 0x36 ∷ [])
    ∷ note 1397 (0x46 ∷ 0x36 ∷ [])
    ∷ note 1480 (0x46 ∷ 0x53 ∷ 0x48 ∷ 0x41 ∷ 0x52 ∷ 0x50 ∷ 0x36 ∷ [])
    ∷ note 1568 (0x47 ∷ 0x36 ∷ [])
    ∷ note 1661 (0x47 ∷ 0x53 ∷ 0x48 ∷ 0x41 ∷ 0x52 ∷ 0x50 ∷ 0x36 ∷ [])
    ∷ note 1760 (0x41 ∷ 0x36 ∷ [])
    ∷ note 1865 (0x41 ∷ 0x53 ∷ 0x48 ∷ 0x41 ∷ 0x52 ∷ 0x50 ∷ 0x36 ∷ [])
    ∷ note 1976 (0x42 ∷ 0x36 ∷ [])
    ∷ []
