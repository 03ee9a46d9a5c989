-- ===== src/Io.antt =====
-- The port instructions of include/io.h, as the events that a driver leaves behind, in order.
-- What an input instruction returns is the device's, and is an argument of the function that reads.
use pygmali_os.Base.{ℕ, List, [], ◌∷◌, leb, if◌then◌else◌}

pub data IoEvent : Type 0 where
  outb : ℕ → ℕ → IoEvent
  inb : ℕ → IoEvent
  io_wait : IoEvent

abbrev pub pic1_command : ℕ
pic1_command = 0x20

abbrev pub pic2_command : ℕ
pic2_command = 0xA0

-- `PIC_sendEOI` of pic.c
unfoldable pub pic_send_eoi : ℕ → List IoEvent
pic_send_eoi irq =
    let master = outb pic1_command 0x20 ∷ [] in
    if leb 8 irq then outb pic2_command 0x20 ∷ master else master
