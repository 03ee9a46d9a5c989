-- ===== src/Disk/Sectors.antt =====
-- src/diskreader.c at its ports against the model of the disk that src/fatparser.c is verified with.
use pygmali_os.Base.{
  ℕ, zero, suc, ◌+◌, ◌≡◌, inl, inr, refl, Bool, true, not, ◌&&◌, ◌||◌, List, [], ◌==◌, length,
  Bool-cases, ltb,
}
use pygmali_os.Disk.Ata
use pygmali_os.Disk.Ata.{
  Ports, Driver, failed, is_busy, is_unready, mega_wait, wait_while, poll, select_sector, request,
  start_write, identify, disk_info, bytes_of_words,
}
use pygmali_os.Disk.Drive.{IsDrive}
use pygmali_os.Disk.Transfers.{Holds}
use pygmali_os.Fat.Volume.{Volume, read_sector, write_sector}

-- Any hardware at all whose status is busy whenever it is read, such as the empty bus.
module _ {D : Type 0} (ports : Ports D) (driver : Driver)
    (stuck : (d : D) → is_busy (ports.inb (driver.bus_select + 7) d).0 ≡ true) where
  poll-stuck : (timer : ℕ) (d : D) → (poll ports driver is_busy timer d).0 ≡ 0
  unfolding poll
  poll-stuck zero d = refl
  poll-stuck (suc timer) d = rw (stuck d) (poll-stuck timer _)

  wait_while-stuck : (timer : ℕ) (d : D) → (wait_while ports driver is_busy timer d).0 ≡ 0
  unfolding wait_while
  wait_while-stuck timer d = poll-stuck _ d

  request-stuck :
      (timer : ℕ) (d : D) (buffer : List ℕ)
      → request ports driver (wait_while ports driver is_busy timer d) buffer
        ≡ (failed, buffer, (wait_while ports driver is_busy timer d).1)
  unfolding request
  request-stuck timer d buffer = rw (wait_while-stuck timer d) refl

  start_write-stuck :
      (timer : ℕ) (d : D) (new : List ℕ)
      → (start_write ports driver new (wait_while ports driver is_busy timer d)).0 ≡ failed
  unfolding start_write
  start_write-stuck timer d new = rw (wait_while-stuck timer d) refl

  identify-stuck :
      (timer : ℕ) (d : D) (space : ℕ)
      → (identify ports driver (wait_while ports driver is_busy timer d) space).0 ≡ ([], space)
  unfolding identify
  identify-stuck timer d space = rw (wait_while-stuck timer d) refl

  -- With a drive that stays busy, a read and a write of any sector end with -1, the buffer is as it
  -- was, and asking about the drive gives no words and leaves the size of the disk.
  pub read_sector-stuck :
      (memory : Bool) (sector space : ℕ) (buffer bytes : List ℕ) (d : D)
      → ((d' : D) × (Ata.read_sector ports driver sector buffer d ≡ (failed, buffer, d')))
        × ((Ata.write_sector ports driver memory sector bytes d).0 ≡ failed)
        × ((disk_info ports driver space d).0 ≡ ([], space))
  unfolding Ata.read_sector Ata.write_sector disk_info
  read_sector-stuck memory sector space buffer bytes d =
      let outside =
        not driver.startup_read
        && (ltb sector driver.partition_start || ltb driver.partition_end sector) in
      let refused =
        ltb sector driver.partition_start || ltb driver.partition_end sector || sector == 0 in
      (
        elim (Bool-cases outside) [
          | inl out ↦ (d, rw out refl)
          | inr within ↦ (
            (wait_while ports driver is_busy 100000
                (mega_wait ports driver (select_sector ports driver sector d))).1,
            rw within (request-stuck 100000 _ buffer),
          )
        ],
        elim (Bool-cases refused) [
          | inl out ↦ rw out refl
          | inr within ↦ elim (Bool-cases memory) [
            | inl m ↦ rw (within, m) (start_write-stuck 1000000 _ _)
            | inr m ↦ rw (within, m) refl
          ]
        ],
        identify-stuck 10000 _ space,
      )

abbrev pub is_unreadable : Volume → ℕ → Bool
is_unreadable v sector =
    not v.startup_read && (ltb sector v.partition_start || ltb v.partition_end sector)

abbrev pub is_unwritable : Volume → ℕ → Bool
is_unwritable v sector = ltb sector v.partition_start || ltb v.partition_end sector || sector == 0

module _ {D : Type 0} (ports : Ports D) (driver : Driver) {limit : ℕ}
    (drive : IsDrive ports driver.bus_select limit) where
  -- The globals of the volume are those of the driver, and its sectors are on the drive.
  pub record Mounts (v : Volume) (d : D) : Type 0 where
    pub words : ℕ → List ℕ
    pub sized : (s : ℕ) → length (words s) ≡ 256
    pub bytes : (s : ℕ) → v.sectors s ≡ bytes_of_words (words s)
    pub holds : Holds ports driver drive words d
    pub start : driver.partition_start ≡ v.partition_start
    pub end : driver.partition_end ≡ v.partition_end
    pub startup : driver.startup_read ≡ v.startup_read
