-- ===== src/Paging.antt =====
-- src/paging.c: the bitmap of physical pages, one bit for each, which is set while the page is free.
pub mod Bytes
pub mod Pages
pub mod Tables
pub mod Windows
pub mod Mapping
pub mod Clearing
pub mod Entries
pub mod NewTable
pub mod AddressSpace
pub mod Faults
mod Tests
use pygmali_os.Base.{
  ℕ, zero, suc, ◌+◌, ◌-◌, ◌*◌, ◌/◌, ◌%◌, ◌^◌, Bool, not, List, ◌==◌, if◌then◌else◌, get_or, set, u8,
  u32, shl, bit_and, bit_or,
}

abbrev pub page_size : ℕ
page_size = 4096

abbrev pub max_pages : ℕ
max_pages = 0x100000

-- `page_bitmap[i/8]&(1<<(i%8))`, and the assignments that set and clear this bit.
unfoldable pub test_bit : List ℕ → ℕ → Bool
test_bit bitmap i = not (bit_and (get_or bitmap (i / 8) 0) (shl 1 (i % 8)) == 0)

unfoldable pub set_bit : List ℕ → ℕ → List ℕ
set_bit bitmap i = set bitmap (i / 8) (u8 (bit_or (get_or bitmap (i / 8) 0) (shl 1 (i % 8))))

-- `~` on an `int`, of which the assignment keeps the low byte.
unfoldable pub clear_bit : List ℕ → ℕ → List ℕ
clear_bit bitmap i =
    set bitmap (i / 8) (u8 (bit_and (get_or bitmap (i / 8) 0) (0xFFFFFFFF - shl 1 (i % 8))))

-- The loops over the pages, with `n` of them left.
unfoldable pub alloc_from : ℕ → ℕ → List ℕ → ℕ × List ℕ
alloc_from zero i bitmap = (0, bitmap)
alloc_from (suc n) i bitmap =
    let rest = alloc_from n (i + 1) bitmap in
    if test_bit bitmap i then (u32 (i * page_size), clear_bit bitmap i) else rest

unfoldable pub alloc_raw_page : List ℕ → ℕ × List ℕ
alloc_raw_page bitmap = alloc_from max_pages 0 bitmap

unfoldable pub free_raw_page : ℕ → List ℕ → List ℕ
free_raw_page addr bitmap = set_bit bitmap (addr / page_size)

unfoldable pub clear_from : ℕ → ℕ → List ℕ → List ℕ
clear_from zero i bitmap = bitmap
clear_from (suc n) i bitmap = clear_from n (i + 1) (clear_bit bitmap i)

unfoldable pub set_from : ℕ → ℕ → List ℕ → List ℕ
set_from zero i bitmap = bitmap
set_from (suc n) i bitmap = set_from n (i + 1) (set_bit bitmap i)

unfoldable pub reserve_address : ℕ → ℕ → List ℕ → List ℕ
reserve_address start end bitmap =
    clear_from (end / page_size + 1 - start / page_size) (start / page_size) bitmap

unfoldable pub unreserve_address : ℕ → ℕ → List ℕ → List ℕ
unreserve_address start end bitmap =
    set_from (end / page_size + 1 - start / page_size) (start / page_size) bitmap
