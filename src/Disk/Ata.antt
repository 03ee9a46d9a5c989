-- ===== src/Disk/Ata.antt =====
-- src/diskreader.c: `read_sector`, `write_sector` and `disk_info` at the ports of the drive. What
-- the hardware does with the instructions is an argument, `ports`, with a state of its own.
use pygmali_os.Base.{
  ℕ, zero, suc, ◌+◌, ◌*◌, ◌^◌, Bool, not, ◌&&◌, ◌||◌, List, [], ◌∷◌, ◌==◌, ltb, if◌then◌else◌,
  get_or, u8, u16, u32, shl, shr, bit_and, bit_or,
}

-- The port instructions of include/io.h, on the state of the machine outside the processor.
pub record Ports (D : Type 0) : Type 0 where
  pub inb : ℕ → D → ℕ × D
  pub inw : ℕ → D → ℕ × D
  pub outb : ℕ → ℕ → D → D
  pub outw : ℕ → ℕ → D → D

-- The globals of the driver.
pub record Driver : Type 0 where
  pub bus_select : ℕ
  pub is_slave_drive : ℕ
  pub startup_read : Bool
  pub partition_start : ℕ
  pub partition_end : ℕ

abbrev pub failed : ℕ
failed = 0xFFFFFFFF

-- Bits 7 and 3 of the status.
abbrev pub is_busy : ℕ → Bool
is_busy status = not (bit_and status 0x80 == 0)

abbrev pub is_unready : ℕ → Bool
is_unready status = bit_and status 0x08 == 0

-- The loops that take 16-bit words apart and put them together, the latter with `n` words left.
unfoldable pub bytes_of_words : List ℕ → List ℕ
bytes_of_words [] = []
bytes_of_words (word ∷ words) = u8 word ∷ u8 (shr word 8) ∷ bytes_of_words words

unfoldable pub words_of_bytes : ℕ → ℕ → List ℕ → List ℕ
words_of_bytes zero i bytes = []
words_of_bytes (suc n) i bytes =
    u16 (get_or bytes (2 * i) 0 + shl (get_or bytes (2 * i + 1) 0) 8)
    ∷ words_of_bytes n (i + 1) bytes

module _ {D : Type 0} (ports : Ports D) (driver : Driver) where
  open ports use {inb, inw, outb, outw}
  open driver use {bus_select, is_slave_drive, startup_read, partition_start, partition_end}

  unfoldable pub io_wait : D → D
  io_wait d = outb 0x80 0 d

  -- The loop of `mega_wait`, with `n` rounds left.
  unfoldable pub wait_from : ℕ → D → D
  wait_from zero d = d
  wait_from (suc n) d = wait_from n (io_wait d)

  unfoldable pub mega_wait : D → D
  mega_wait d = wait_from 15 d

  -- `while(waiting(inb(status)) && --timer) io_wait();`, with the timer at `n`.
  unfoldable pub poll : (ℕ → Bool) → ℕ → D → ℕ × D
  poll waiting zero d = (0, d)
  poll waiting (suc n) d =
      let (status, d') = inb (bus_select + 7) d in
      let rest = poll waiting n (if n == 0 then d' else io_wait d') in
      if waiting status then rest else (u32 (suc n), d')

  -- A timer that is zero before the loop wraps around.
  unfoldable pub wait_while : (ℕ → Bool) → ℕ → D → ℕ × D
  wait_while waiting timer d = poll waiting (if timer == 0 then 2 ^ 32 else timer) d

  unfoldable pub select_sector : ℕ → D → D
  select_sector sector d =
      let top = bit_and (shr sector 24) 0x0F in
      let d = outb (bus_select + 6) (bit_or (bit_or 0xE0 top) (shl is_slave_drive 4)) d in
      let d = outb (bus_select + 3) (bit_and sector 0xFF) d in
      let d = outb (bus_select + 4) (bit_and (shr sector 8) 0xFF) d in
      let d = outb (bus_select + 5) (bit_and (shr sector 16) 0xFF) d in outb (bus_select + 2) 1 d

  unfoldable pub read_words : ℕ → D → List ℕ × D
  read_words zero d = ([], d)
  read_words (suc n) d =
      let (word, d) = inw bus_select d in let (words, d) = read_words n d in (word ∷ words, d)

  unfoldable pub write_words : List ℕ → D → D
  write_words [] d = d
  write_words (word ∷ words) d = write_words words (outw bus_select word d)

  -- Behind the two waits, and behind the first one.
  unfoldable pub receive : ℕ × D → List ℕ → ℕ × List ℕ × D
  receive (timer, d) buffer =
      let (words, d') = read_words 256 d in
      if timer == 0 then (failed, buffer, d) else (0, bytes_of_words words, d')

  unfoldable pub request : ℕ × D → List ℕ → ℕ × List ℕ × D
  request (timer, d) buffer =
      let (timer', d') = wait_while is_unready timer (outb (bus_select + 7) 0x20 d) in
      if timer == 0 then (failed, buffer, d) else receive (wait_while is_busy timer' d') buffer

  -- What is returned, and the buffer and the hardware afterwards.
  unfoldable pub read_sector : ℕ → List ℕ → D → ℕ × List ℕ × D
  read_sector sector buffer d =
      if not startup_read && (ltb sector partition_start || ltb partition_end sector)
      then (failed, buffer, d)
      else request (wait_while is_busy 100000 (mega_wait (select_sector sector d))) buffer

  -- The steps of a write, from its end.
  unfoldable pub flush : D → ℕ → ℕ × D
  flush d timer =
      let (timer', d') = wait_while is_busy timer (outb (bus_select + 7) 0xE7 d) in
      (if timer' == 0 then failed else 0, d')

  unfoldable pub send : List ℕ → ℕ × D → ℕ × D
  send words (timer, d) = if timer == 0 then (failed, d) else flush (write_words words d) timer

  unfoldable pub start_write : List ℕ → ℕ × D → ℕ × D
  start_write words (timer, d) =
      let (timer', d') = wait_while is_busy timer (mega_wait (outb (bus_select + 7) 0x30 d)) in
      if timer == 0 then (failed, d) else send words (wait_while is_unready timer' d')

  -- `memory` says whether `kmalloc` finds a block for the words.
  unfoldable pub write_sector : Bool → ℕ → List ℕ → D → ℕ × D
  write_sector memory sector bytes d =
      if ltb sector partition_start || ltb partition_end sector || sector == 0
      then (failed, d)
      else if not memory
      then (failed, d)
      else start_write (words_of_bytes 256 0 bytes)
          (wait_while is_busy 1000000 (mega_wait (select_sector sector d)))

  -- The 256 words about the drive, unless it does not answer, and `sector_space`.
  unfoldable pub info_words : ℕ × D → ℕ → (List ℕ × ℕ) × D
  info_words (timer, d) sector_space =
      let (words, d') = read_words 256 d in
      if timer == 0
      then (([], sector_space), d)
      else ((words, u32 (shl (get_or words 61 0) 16 + get_or words 60 0)), d')

  unfoldable pub identify : ℕ × D → ℕ → (List ℕ × ℕ) × D
  identify (timer, d) sector_space =
      let (timer', d') = wait_while is_busy timer (outb (bus_select + 7) 0xEC d) in
      if timer == 0
      then (([], sector_space), d)
      else info_words (wait_while is_unready timer' d') sector_space

  unfoldable pub disk_info : ℕ → D → (List ℕ × ℕ) × D
  disk_info sector_space d =
      let d = outb (bus_select + 6) (bit_or 0xE0 (shl is_slave_drive 4)) d in
      let d = outb (bus_select + 3) 0 d in
      let d = outb (bus_select + 4) 0 d in
      let d = outb (bus_select + 5) 0 d in
      identify (wait_while is_busy 10000 (mega_wait d)) sector_space
