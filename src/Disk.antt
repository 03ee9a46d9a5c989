-- ===== src/Disk.antt =====
-- src/diskreader.c: the search for the partition of the system in the table of partitions, and the
-- boot record of src/fatparser.c. `sectors` gives the 512 bytes of each sector.
pub mod Ata
pub mod Drive
pub mod Waits
pub mod Words
pub mod Transfers
pub mod Sectors
mod Tests
use pygmali_os.Base.{
  ℕ, zero, suc, ◌+◌, ◌*◌, ◌/◌, ◌%◌, Bool, true, false, ◌&&◌, List, [], ◌∷◌, ◌==◌, if◌then◌else◌,
  get_or, drop,
}
use pygmali_os.Base.{Option, none, some, u16, u32}
use pygmali_os.CString.{merge_bytes, strcmp}

pub record Partition : Type 0 where
  pub partition_start : ℕ
  pub partition_end : ℕ

-- `EFI PART`
abbrev pub signature : List ℕ
signature = 0x45 ∷ 0x46 ∷ 0x49 ∷ 0x20 ∷ 0x50 ∷ 0x41 ∷ 0x52 ∷ 0x54 ∷ []

abbrev pub begins_with : List ℕ → List ℕ → Bool
begins_with [] bytes = true
begins_with (c ∷ s) [] = false
begins_with (c ∷ s) (d ∷ bytes) = d == c && begins_with s bytes

-- The loop over the name of a partition, with `n` bytes left: the low byte of each character.
unfoldable pub partition_name : ℕ → ℕ → List ℕ → List ℕ
partition_name zero j bytes = []
partition_name (suc n) j bytes =
    let low = get_or bytes (j * 2) 0 in
    let rest = partition_name n (j + 1) bytes in
    if low == 0 && get_or bytes (j * 2 + 1) 0 == 0 then [] else low ∷ rest

-- `PYGMALI_OS`
abbrev pub system_name : List ℕ
system_name = 0x50 ∷ 0x59 ∷ 0x47 ∷ 0x4D ∷ 0x41 ∷ 0x4C ∷ 0x49 ∷ 0x5F ∷ 0x4F ∷ 0x53 ∷ []

-- The loop over the partitions, with `n` left: the entry `i` is the one at `iteration` in its sector.
unfoldable pub find_partition : ℕ → ℕ → ℕ → (ℕ → List ℕ) → ℕ → Option Partition
find_partition zero i iteration sectors lba = none
find_partition (suc n) i iteration sectors lba =
    let gpt = sectors (u32 (lba + i / 4)) in
    let at = iteration * 128 in
    let rest = find_partition n (i + 1) ((iteration + 1) % 4) sectors lba in
    if strcmp (partition_name 37 0 (drop (at + 0x38) gpt)) system_name == 0
    then some (record {
      partition_start = u32 (merge_bytes (drop (0x20 + at) gpt) 8);
      partition_end = u32 (merge_bytes (drop (0x28 + at) gpt) 8);
    })
    else rest

-- The partition, if there is one, and `startup_read` afterwards: without the signature nothing is
-- changed.
unfoldable pub scan_gpt : (ℕ → List ℕ) → Option Partition × Bool
scan_gpt sectors =
    let gpt = sectors 1 in
    let lba = u32 (merge_bytes (drop 0x48 gpt) 8) in
    let found = find_partition (u32 (merge_bytes (drop 0x50 gpt) 4)) 0 0 sectors lba in
    if begins_with signature gpt then (found, false) else (none, true)

-- The values of the boot record.
pub record BootRecord : Type 0 where
  pub bytes_per_sector : ℕ
  pub sectors_per_cluster : ℕ
  pub reserved_sectors : ℕ
  pub num_of_fats : ℕ
  pub sectors_per_fat : ℕ
  pub root_cluster : ℕ
  pub first_data_sector : ℕ

unfoldable pub read_boot_record : ℕ → List ℕ → BootRecord
read_boot_record partition_start boot_record =
    let reserved_sectors = u16 (merge_bytes (drop 14 boot_record) 2) in
    let num_of_fats = get_or boot_record 16 0 in
    let sectors_per_fat = u32 (merge_bytes (drop 36 boot_record) 4) in
    record {
      bytes_per_sector = u16 (merge_bytes (drop 11 boot_record) 2);
      sectors_per_cluster = get_or boot_record 13 0;
      reserved_sectors = reserved_sectors;
      num_of_fats = num_of_fats;
      sectors_per_fat = sectors_per_fat;
      root_cluster = u32 (merge_bytes (drop 44 boot_record) 4);
      first_data_sector = u32 (partition_start + reserved_sectors + num_of_fats * sectors_per_fat);
    }
