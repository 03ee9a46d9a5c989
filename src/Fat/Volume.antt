-- ===== src/Fat/Volume.antt =====
-- The disk and the volume: `read_sector` and `write_sector` of src/diskreader.c, and the file
-- allocation table of src/fatparser.c. An `int` is its 32-bit pattern; -1 is `minus_one`.
use pygmali_os.Base.{
  ℕ, zero, suc, ◌+◌, ◌-◌, ◌*◌, ◌/◌, ◌%◌, ◌^◌, Bool, true, false, not, ◌&&◌, ◌||◌, List, ◌==◌, leb,
  ltb, if◌then◌else◌, get_or, set, drop, u32, shr, bit_and,
}
use pygmali_os.CString.{merge_bytes}

-- The globals of fatparser.c and diskreader.c, and the disk: the drive answers every command, and
-- `sectors` gives the 512 bytes of each sector. `memory` says whether `kmalloc` finds a block for a
-- sector, and `stale` is what that block holds. The ports take 28 bits of a sector's number; where it is
-- larger, and where the drive is late, Disk/Sectors does not say that they behave like this.
pub record Volume : Type 0 where
  pub partition_start : ℕ
  pub partition_end : ℕ
  pub startup_read : Bool
  pub sectors_per_cluster : ℕ
  pub reserved_sectors : ℕ
  pub num_of_fats : ℕ
  pub sectors_per_fat : ℕ
  pub root_cluster : ℕ
  pub first_data_sector : ℕ
  pub sectors : ℕ → List ℕ
  pub memory : Bool
  pub stale : List ℕ

abbrev pub minus_one : ℕ
minus_one = 0xFFFFFFFF

-- `x < c` on `int`s, where `c` is not negative.
abbrev pub int_ltb : ℕ → ℕ → Bool
int_ltb x c = leb (2 ^ 31) x || ltb x c

-- `x / d` and `x % d` on `int`s, where `d` is positive: both are cut towards zero.
abbrev pub int_div : ℕ → ℕ → ℕ
int_div x d = if leb (2 ^ 31) x then u32 (2 ^ 32 - (2 ^ 32 - x) / d) else x / d

abbrev pub int_mod : ℕ → ℕ → ℕ
int_mod x d = if leb (2 ^ 31) x then u32 (2 ^ 32 - (2 ^ 32 - x) % d) else x % d

-- The buffer after `read_sector`: outside the partition it is left as it is.
unfoldable pub read_sector : Volume → ℕ → List ℕ → List ℕ
read_sector v sector buffer =
    if not v.startup_read && (ltb sector v.partition_start || ltb v.partition_end sector)
    then buffer
    else v.sectors sector

-- The volume after `write_sector`: outside the partition nothing is written.
unfoldable pub write_sector : Volume → ℕ → List ℕ → Volume
write_sector v sector bytes =
    if ltb sector v.partition_start || ltb v.partition_end sector || sector == 0
    then v
    else record v { sectors = λ s. if s == sector then bytes else v.sectors s }

abbrev pub fat_start : Volume → ℕ
fat_start v = u32 (v.partition_start + v.reserved_sectors)

abbrev pub fat_sector : Volume → ℕ → ℕ
fat_sector v cluster = u32 (fat_start v + int_div (u32 (cluster * 4)) 512)

abbrev pub entry_offset : ℕ → ℕ
entry_offset cluster = int_mod (u32 (cluster * 4)) 512

unfoldable pub get_from_fat : Volume → ℕ → ℕ
get_from_fat v cluster_num =
    if int_ltb cluster_num 2
    then minus_one
    else if not v.memory
    then minus_one
    else if leb (u32 (fat_start v + v.sectors_per_fat)) (fat_sector v cluster_num)
    then minus_one
    else let fat_table = read_sector v (fat_sector v cluster_num) v.stale in
      bit_and (merge_bytes (drop (entry_offset cluster_num) fat_table) 4) 0x0FFFFFFF

-- The four bytes of an entry. A negative offset, of a cluster from 2 ^ 29 on, is far behind the
-- buffer here: nothing is written there, and zeros are read.
abbrev pub put_entry : List ℕ → ℕ → ℕ → List ℕ
put_entry t o value =
    let t = set t o (bit_and value 0xFF) in
    let t = set t (o + 1) (bit_and (shr value 8) 0xFF) in
    let t = set t (o + 2) (bit_and (shr value 16) 0xFF) in
    set t (o + 3) (bit_and (shr value 24) 0xFF)

-- The loop over the copies of the table, with `n` rounds left.
unfoldable pub write_copies : ℕ → ℕ → ℕ → List ℕ → Volume → Volume
write_copies zero i sector bytes v = v
write_copies (suc n) i sector bytes v =
    write_copies n (i + 1) sector bytes
      (write_sector v (u32 (sector + i * v.sectors_per_fat)) bytes)

unfoldable pub modify_fat : Volume → ℕ → ℕ → ℕ × Volume
modify_fat v cluster value =
    if ltb cluster 2
    then (minus_one, v)
    else if not v.memory
    then (minus_one, v)
    else if ltb (u32 (fat_start v + v.sectors_per_fat)) (fat_sector v cluster)
    then (minus_one, v)
    else let fat_table = read_sector v (fat_sector v cluster) v.stale in
      let fat_table = put_entry fat_table (entry_offset cluster) value in
      (0, write_copies v.num_of_fats 0 (fat_sector v cluster) fat_table v)

abbrev pub is_empty : List ℕ → ℕ → Bool
is_empty s j =
    get_or s j 0 == 0
    && get_or s (j + 1) 0 == 0
    && get_or s (j + 2) 0 == 0
    && get_or s (j + 3) 0 == 0

-- The loop over the entries of a sector, with `n` of them left: whether it found an empty one, and
-- `current_cluster`.
unfoldable pub scan_entries : ℕ → ℕ → List ℕ → ℕ → Bool × ℕ
scan_entries zero j s current = (false, current)
scan_entries (suc n) j s current =
    let rest = scan_entries n (j + 4) s (current + 1) in
    if ltb current 2 then rest else if is_empty s j then (true, current) else rest

-- The loop over the sectors of the table, with `n` of them left.
unfoldable pub scan_sectors : ℕ → ℕ → Volume → List ℕ → ℕ → Bool × ℕ
scan_sectors zero i v buffer current = (false, current)
scan_sectors (suc n) i v buffer current =
    let buffer = read_sector v (u32 (fat_start v + i)) buffer in
    let (found, current) = scan_entries 128 0 buffer current in
    let rest = scan_sectors n (i + 1) v buffer current in if found then (true, current) else rest

unfoldable pub get_empty_cluster : Volume → ℕ
get_empty_cluster v =
    if not v.memory
    then minus_one
    else let (found, current) = scan_sectors v.sectors_per_fat 0 v v.stale 0 in
      if found then current else minus_one
