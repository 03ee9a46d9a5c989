-- ===== src/Paging/AddressSpace.antt =====
-- Mapping a page, looking an address up, and giving a page back, in src/paging.c.
use pygmali_os.Base.{
  ℕ, ◌+◌, ◌*◌, ◌/◌, ◌%◌, ◌<◌, ◌≡◌, ◌≢◌, ◌∙◌, inl, inr, refl, sym, arith, true, false, ◌&&◌, ◌==◌,
  shr, bit_and, Bool-cases,
}
use pygmali_os.Base.{Option, none, some}
use pygmali_os.Base.Bits.{bit_and_mask, bit_or_fields}
use pygmali_os.Paging.{test_bit}
use pygmali_os.Paging.Tables.{Space, translate, get_page_table_virtual, phys_from_virt, free_page}
use pygmali_os.Paging.Windows.{page_mask, load-window}
use pygmali_os.Paging.Mapping.{IsSpace, IsPlain, dir, idx}
use pygmali_os.Paging.Entries.{table_index}

low_bit : (w : ℕ) → w % 2 ≡ 1 → (bit_and w 1 == 0) ≡ false
low_bit w e = ground (arith, bit_and_mask 1 w)

no_low_bit : (w : ℕ) → w % 2 ≢ 1 → (bit_and w 1 == 0) ≡ true
no_low_bit w e = ground (arith, bit_and_mask 1 w)

-- Behind `ensure_table` there is a table, no address is translated otherwise than before, and a page
-- in use that was no table is still none.
abbrev Ensured : Space → ℕ → Option Space → Type 0
Ensured s v result =
    (s' : Space) × (result ≡ some s')
    × IsSpace s'
    × (s'.frames s'.root (dir v) % 2 ≡ 1)
    × ((v' : ℕ) → v' < 0xFFC00000 → translate s' v' ≡ translate s v')
    × ((q : ℕ) → test_bit s.bitmap q ≡ false → IsPlain s q → IsPlain s' q)

-- `phys_from_virt` gives the address that the processor translates to.
pub phys_from_virt-translate :
    (s : Space) (v a : ℕ)
    → IsSpace s
    → v < 0xFFC00000
    → translate s v ≡ some a
    → phys_from_virt s v ≡ some a
unfolding phys_from_virt translate
phys_from_virt-translate s v a h low e =
    let pde = s.frames s.root (dir v) in
    let pte = s.frames (pde / 4096) (idx v) in
    elim (Bool-cases (pde % 2 == 1 && pte % 2 == 1)) [
      | inl c ↦
          let present : pde % 2 ≡ 1 = ground arith in
          let valid : pte % 2 ≡ 1 = ground arith in
          let value : translate s v ≡ some (pte / 4096 * 4096 + v % 4096) =
            rw (translate, c) refl in
          let found =
            load-window s h.recursive (dir v) (idx v) (omega arith) (omega arith) present in
          let base = page_mask pte (h.words (pde / 4096) (idx v)) in
          let offset = bit_and_mask 12 v in
          let sum = bit_or_fields 12 (pte / 4096) (v % 4096) (omega arith) in
          rw (phys_from_virt, table_index v, found, low_bit pte valid, base, offset, sum)
            (sym value ∙ e)
      | inr c ↦
          let value : translate s v ≡ none = rw (translate, c) refl in
          let clash : none ≡ some a = sym value ∙ e in absurd (cc)
    ]

-- `free_page` tests the lowest bit of the address of a table, which is always zero, and so gives
-- nothing back: the tables and both bitmaps are as before.
free_page-nothing : (s : Space) (addr : ℕ) → free_page s addr ≡ some s
unfolding free_page get_page_table_virtual
free_page-nothing s addr =
    let even : (bit_and (get_page_table_virtual (shr addr 22)) 1 == 0) ≡ true =
      no_low_bit _ (omega arith) in
    rw even refl
