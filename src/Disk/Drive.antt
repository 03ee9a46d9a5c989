-- ===== src/Disk/Drive.antt =====
-- What src/diskreader.c relies on of the drive, which is not of this repository: the registers, the
-- status bits and the transfers of 16-bit words of the ATA standard.
use pygmali_os.Base.{
  ℕ, suc, ◌+◌, ◌%◌, ◌^◌, ◌≤◌, ◌<◌, ◌≡◌, true, false, List, [], ◌∷◌, ◌++◌, ◌==◌, if◌then◌else◌,
  length, shl,
}
use pygmali_os.Disk.Ata.{Ports, is_busy, is_unready}

-- What a drive is doing: `reading` has the words that are still to come, and `writing` those that
-- have come in.
pub data Phase : Type 0 where
  idle : Phase
  reading writing : List ℕ → Phase

-- A drive as it is seen from outside: its registers and the words of each sector.
pub record View : Type 0 where
  pub low : ℕ
  pub med : ℕ
  pub high : ℕ
  pub device : ℕ
  pub words : ℕ → List ℕ

-- The 28 bits of the address.
abbrev pub address : View → ℕ
address v = v.low + shl v.med 8 + shl v.high 16 + shl (v.device % 16) 24

abbrev pub stored : View → List ℕ → View
stored v new = record v { words = λ s. if s == address v then new else v.words s }

-- `Shows v phase n d`: in the state `d` the drive looks like `v`, and is busy for the next `n` times
-- that its status is read. It is never busy for more than `limit` of them. It takes words without a
-- pause, and commands when it is not busy.
pub record IsDrive {D : Type 0} (ports : Ports D) (bus limit : ℕ) : Type 1 where
  pub Shows : View → Phase → ℕ → D → Type 0
  pub within : {v : View} {p : Phase} {n : ℕ} {d : D} → Shows v p n d → n ≤ limit
  pub delay :
      {v : View} {p : Phase} {n : ℕ} {d : D} → Shows v p n d → Shows v p n (ports.outb 0x80 0 d)
  pub status_busy :
      {v : View} {p : Phase} {n : ℕ} {d : D}
      → Shows v p (suc n) d
      → (is_busy (ports.inb (bus + 7) d).0 ≡ true) × Shows v p n (ports.inb (bus + 7) d).1
  pub status_free :
      {v : View} {p : Phase} {d : D}
      → Shows v p 0 d
      → (is_busy (ports.inb (bus + 7) d).0 ≡ false) × Shows v p 0 (ports.inb (bus + 7) d).1
  pub ready_reading :
      {v : View} {w : ℕ} {ws : List ℕ} {d : D}
      → Shows v (reading (w ∷ ws)) 0 d
      → is_unready (ports.inb (bus + 7) d).0 ≡ false
  pub ready_writing :
      {v : View} {ws : List ℕ} {d : D}
      → Shows v (writing ws) 0 d
      → is_unready (ports.inb (bus + 7) d).0 ≡ false
  pub put_count :
      {v : View} {n : ℕ} {d : D} → Shows v idle n d → Shows v idle n (ports.outb (bus + 2) 1 d)
  pub put_low :
      {v : View} {n : ℕ} {d : D} (x : ℕ)
      → x < 256
      → Shows v idle n d
      → Shows (record v { low = x }) idle n (ports.outb (bus + 3) x d)
  pub put_med :
      {v : View} {n : ℕ} {d : D} (x : ℕ)
      → x < 256
      → Shows v idle n d
      → Shows (record v { med = x }) idle n (ports.outb (bus + 4) x d)
  pub put_high :
      {v : View} {n : ℕ} {d : D} (x : ℕ)
      → x < 256
      → Shows v idle n d
      → Shows (record v { high = x }) idle n (ports.outb (bus + 5) x d)
  pub put_device :
      {v : View} {n : ℕ} {d : D} (x : ℕ)
      → x < 256
      → Shows v idle n d
      → Shows (record v { device = x }) idle n (ports.outb (bus + 6) x d)
  pub command_read :
      {v : View} {d : D}
      → Shows v idle 0 d
      → (n : ℕ) × Shows v (reading (v.words (address v))) n (ports.outb (bus + 7) 0x20 d)
  pub give_word :
      {v : View} {w : ℕ} {ws : List ℕ} {d : D}
      → Shows v (reading (w ∷ ws)) 0 d
      → ((ports.inw bus d).0 ≡ w) × Shows v (reading ws) 0 (ports.inw bus d).1
  pub given : {v : View} {d : D} → Shows v (reading []) 0 d → Shows v idle 0 d
  pub command_write :
      {v : View} {d : D}
      → Shows v idle 0 d
      → (n : ℕ) × Shows v (writing []) n (ports.outb (bus + 7) 0x30 d)
  pub take_word :
      {v : View} {ws : List ℕ} {d : D} (w : ℕ)
      → w < 2 ^ 16
      → length ws < 255
      → Shows v (writing ws) 0 d
      → Shows v (writing (ws ++ (w ∷ []))) 0 (ports.outw bus w d)
  pub command_flush :
      {v : View} {d : D} → Shows v idle 0 d → (m : ℕ) × Shows v idle m (ports.outb (bus + 7) 0xE7 d)

-- A drive that has stored the sector, and is not busy, as soon as the last word is in. The code sends
-- the command to flush behind that word without waiting for the drive, so that a write relies on it.
pub record IsPrompt {D : Type 0} (ports : Ports D) (bus limit : ℕ) (drive : IsDrive ports bus limit)
    : Type 0 where
  pub take_last :
      {v : View} {ws : List ℕ} {d : D} (w : ℕ)
      → w < 2 ^ 16
      → length ws ≡ 255
      → drive.Shows v (writing ws) 0 d
      → drive.Shows (stored v (ws ++ (w ∷ []))) idle 0 (ports.outw bus w d)
