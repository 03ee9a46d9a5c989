-- ===== src/Paging/Entries.antt =====
-- The steps of `map_page` of src/paging.c.
use pygmali_os.Base.{
  ℕ, ◌≤◌, false, ◌+◌, ◌*◌, ◌/◌, ◌%◌, ◌^◌, ◌<◌, ◌≡◌, ◌∙◌, inl, inr, refl, sym, ap, arith, true, ◌==◌,
  if◌then◌else◌, u32, shr, bit_and,
}
use pygmali_os.Base.{Option, none, some}
use pygmali_os.Base.Bits.{bit_and_mask}
use pygmali_os.Paging.{page_size}
use pygmali_os.Paging.Tables.{
  Space, PageLists, invlpg, does, memset_page, translate, put_word, get_page_table_virtual,
  list_page, user_of, set_entry,
}
use pygmali_os.Paging.Clearing.{Clears, memset_page-Cleared}
use pygmali_os.Paging.Windows.{page_mask, entry_word, store-window}
use pygmali_os.Paging.Mapping.{
  IsSpace, IsPlain, dir, idx, equal, differ, directory, translate-put_word, changed-IsSpace,
  IsSpace-same,
}

pub dir_index : (v : ℕ) → v < 2 ^ 32 → bit_and (shr v 22) 0x3FF ≡ dir v
dir_index v l = omega (arith, bit_and_mask 10 (shr v 22))

pub table_index : (v : ℕ) → bit_and (shr v 12) 0x3FF ≡ idx v
table_index v = bit_and_mask 10 (shr v 12)

aligned :
    (i : ℕ) → i < 1024 → bit_and (get_page_table_virtual i) 0xFFFFF000 ≡ get_page_table_virtual i
unfolding get_page_table_virtual
aligned i l = omega (arith, page_mask (u32 (0xFFC00000 + i * page_size)) (omega arith))

user-below : (lists : Option PageLists) → user_of lists < 2
user-below none = omega arith
user-below (some lists) = omega arith

abbrev pub entry_of : Space → ℕ → ℕ → ℕ
entry_of s v page = page * 4096 + (3 + 4 * user_of (list_page v (page * 4096) s.lists))

-- The addresses of the page of `v` are translated to those of a physical page, the others as before,
-- and the physical page is zero from the place of `v` on.
abbrev pub Mapped : Space → ℕ → ℕ → Option Space → Type 0
Mapped s v page result =
    (s' : Space) × (result ≡ some s')
    × IsSpace s'
    × ((v' : ℕ)
        → v' < 0xFFC00000
        → translate s' v'
          ≡ (if v' / 4096 == v / 4096 then some (page * 4096 + v' % 4096) else translate s v'))
    × ((j : ℕ) → v % 4096 ≤ 4 * j → j < 1024 → s'.frames page j ≡ 0)

module _ (s : Space) (h : IsSpace s) (v page : ℕ) (low : v < 0xFFC00000)
    (small : page < 2 ^ 20) where
  abbrev listed : Space
  listed = record s { lists = list_page v (page * 4096) s.lists }

  listed-IsSpace : IsSpace listed
  listed-IsSpace = IsSpace-same h refl refl (λ i. refl) h.words

  module _ (present : s.frames s.root (dir v) % 2 ≡ 1) (clears : Clears s v)
      (plain : IsPlain s page) where
    abbrev word : ℕ
    word = entry_of s v page

    abbrev written : Space
    written = put_word listed (s.frames s.root (dir v) / 4096) (idx v) word

    valid : word % 2 ≡ 1
    valid = let two = user-below listed.lists in omega arith

    fits : word < 2 ^ 32
    fits = let two = user-below listed.lists in omega arith

    high : word / 4096 ≡ page
    high = let two = user-below listed.lists in omega arith

    abbrev done : Space
    done = does (invlpg v) written

    written-translate :
        (v' : ℕ)
        → v' < 0xFFC00000
        → translate done v'
          ≡ (if v' / 4096 == v / 4096 then some (page * 4096 + v' % 4096) else translate s v')
    unfolding translate
    written-translate v' low' =
        translate-put_word listed listed-IsSpace v word low present valid fits v' low'
        ∙ rw high refl

    written-directory : (i : ℕ) → done.frames s.root i ≡ s.frames s.root i
    written-directory i = directory listed listed-IsSpace v word low present valid fits i

    done-IsSpace : IsSpace done
    done-IsSpace =
        let before = changed-IsSpace listed listed-IsSpace v word low present valid fits in
        IsSpace-same before refl refl (λ i. refl) before.words

    done-IsPlain : (q : ℕ) → IsPlain s q → IsPlain done q
    done-IsPlain q (root, tables) = (
      root,
      λ i l p e.
          tables i l (ap (λ w. w % 2) (sym (written-directory i)) ∙ p)
            (ap (λ w. w / 4096) (sym (written-directory i)) ∙ e),
    )

    done-Clears : Clears done v
    done-Clears = elim clears [
      | inl start ↦ inl start
      | inr (l, a, next, other) ↦
          let apart : ((v + 4096) / 4096 == v / 4096) ≡ false = differ (λ e. omega arith) in
          inr (l, a, written-translate (v + 4096) l ∙ rw apart next, done-IsPlain (a / 4096) other)
    ]

    done-here : translate done v ≡ some (page * 4096 + v % 4096)
    done-here =
        let same : (v / 4096 == v / 4096) ≡ true = equal refl in
        written-translate v low ∙ rw same refl

    set_entry-memset : set_entry s v (page * 4096) ≡ memset_page done v
    unfolding set_entry
    set_entry-memset =
        let put =
          store-window listed h.recursive (dir v) (idx v) (omega arith) (omega arith) present
            word in
        rw
          (
            set_entry,
            dir_index v (omega arith),
            table_index v,
            aligned (dir v) (omega arith),
            entry_word page (user_of listed.lists) (user-below listed.lists),
            put,
          )
          refl

    pub set_entry-Mapped : Mapped s v page (set_entry s v (page * 4096))
    set_entry-Mapped =
        let (s', e, h', same, empty) =
          memset_page-Cleared done done-IsSpace v page low (done-IsPlain page plain) done-here
            done-Clears in
        (s', set_entry-memset ∙ e, h', λ v' low'. same v' low' ∙ written-translate v' low', empty)
