-- ===== src/Paging/Faults.antt =====
-- From a page fault to the page that is mapped, in src/paging.c.
use pygmali_os.Base.{ℕ, ◌<◌, ◌≡◌, true, false, List, ◌==◌, if◌then◌else◌}
use pygmali_os.Paging.{max_pages, test_bit, clear_bit}
use pygmali_os.Paging.Pages.{IsBitmap}
use pygmali_os.Paging.Tables.{Space}
use pygmali_os.Paging.Mapping.{IsSpace}

-- Two free pages, one of them for a table.
abbrev pub HasTwoFree : List ℕ → Type 0
HasTwoFree m =
    (p : ℕ) × (q : ℕ) × (p < q) × (q < max_pages) × (test_bit m p ≡ true) × (test_bit m q ≡ true)

module _ (s : Space) (h : IsSpace s) (i p : ℕ) (m : List ℕ) (bitmap : IsBitmap m)
    (taken : (j : ℕ) → test_bit m j ≡ (if j == p then false else test_bit s.bitmap j)) where
  abbrev reserved : Space
  reserved = record s { virt_bitmap = clear_bit s.virt_bitmap i; bitmap = m }
