-- ===== src/Paging/Tests.antt =====
-- The bitmap of pages when all of them are free, and the tables when none is there.
use pygmali_os.Base.{
  ℕ, zero, suc, ◌*◌, ◌<◌, ◌≡◌, ◌⊎◌, arith, true, false, ◌&&◌, List, [], ◌==◌, if◌then◌else◌, length,
  get_or, replicate, length-replicate,
}
use pygmali_os.Base.{none}
use pygmali_os.Paging.{page_size, max_pages, test_bit, clear_bit, alloc_raw_page}
use pygmali_os.Paging.Pages.{IsBitmap, alloc_raw_page-first}
use pygmali_os.Paging.Tables.{Space}

abbrev all_free : List ℕ
all_free = replicate 131072 255

ones : (n i : ℕ) → get_or (replicate n 255) i 0 < 256
ones zero i = omega arith
ones (suc n) zero = omega arith
ones (suc n) (suc i) = ones n i

all_free-IsBitmap : IsBitmap all_free
all_free-IsBitmap =
    let size : length all_free ≡ 131072 = length-replicate {A = ℕ} 131072 255 in
    (omega (arith, size), ones 131072)

alloc_raw_page-first_example :
    ((alloc_raw_page all_free ≡ (0, all_free))
      × ((j : ℕ) → j < max_pages → test_bit all_free j ≡ false))
    ⊎ ((p : ℕ) × (m' : List ℕ) × (p < max_pages)
        × (test_bit all_free p ≡ true)
        × ((j : ℕ) → j < p → test_bit all_free j ≡ false)
        × (alloc_raw_page all_free ≡ (p * page_size, m'))
        × IsBitmap m'
        × ((j : ℕ) → test_bit m' j ≡ (if j == p then false else test_bit all_free j)))
alloc_raw_page-first_example = alloc_raw_page-first all_free all_free-IsBitmap

abbrev with_root : List ℕ
with_root = clear_bit all_free 1

-- The directory in page 1, with no table but itself, and the page 9 in use.
abbrev bare : Space
bare = record {
  frames = λ p j. if p == 1 && j == 1023 then 0x1003 else 0;
  root = 1;
  bitmap = clear_bit with_root 9;
  virt_bitmap = replicate 0x8000 255;
  lists = none;
  effects = [];
}
