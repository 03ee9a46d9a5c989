-- ===== src/Paging/Windows.antt =====
-- The addresses through which the kernel reaches its page tables.
use pygmali_os.Base.{
  ℕ, zero, suc, ◌+◌, ◌*◌, ◌/◌, ◌%◌, ◌^◌, ◌<◌, ◌≡◌, ◌∙◌, refl, ap, ap₂, arith, true, ◌==◌,
  if◌then◌else◌, shl, bit_and, bit_or,
}
use pygmali_os.Base.{some}
use pygmali_os.Base.Bits.{bit_and_mask, bit_and_cut, bit_or_fields, bit_or_split, bit_or-zero}
use pygmali_os.Paging.Tables.{
  Space, translate, load, store, put_word, clear_page, get_page_table_virtual, element,
}

pub page_mask : (x : ℕ) → x < 2 ^ 32 → bit_and x 0xFFFFF000 ≡ x / 4096 * 4096
page_mask x l =
    let parts : x ≡ x / 4096 * 4096 + x % 4096 = omega arith in
    ap (λ y. bit_and y 0xFFFFF000) parts
    ∙ (bit_and_cut 12 (x / 4096) 0xFFFFF (x % 4096) (omega arith)
        ∙ ap (λ p. p * 4096) (bit_and_mask 20 (x / 4096) ∙ omega arith))

-- The flags of an entry of a page: present, writable, and open to the user.
flags : (user : ℕ) → user < 2 → bit_or 3 (shl user 2) ≡ 3 + 4 * user
flags zero l = refl
flags (suc zero) l = refl
flags (suc (suc user)) l = absurd (omega arith)

pub entry_word :
    (page user : ℕ)
    → user < 2
    → bit_or (bit_or (page * 4096) 3) (shl user 2) ≡ page * 4096 + (3 + 4 * user)
entry_word page user l =
    let low : shl user 2 ≡ 0 * 2 ^ 12 + shl user 2 = omega arith in
    ap₂ bit_or (bit_or_fields 12 page 3 (omega arith)) low
    ∙ (bit_or_split 12 page 0 3 (shl user 2) (omega arith) (omega arith)
        ∙ ap₂ (λ a b. a * 4096 + b) (bit_or-zero page) (flags user l))

-- The directory has itself as its last table.
abbrev pub IsRecursive : Space → Type 0
IsRecursive s = (s.frames s.root 1023 / 4096 ≡ s.root) × (s.frames s.root 1023 % 2 ≡ 1)

module _ (s : Space) (recursive : IsRecursive s) (i j : ℕ) (inside : i < 1024) (small : j < 1024)
    (present : s.frames s.root i % 2 ≡ 1) where
  abbrev address : ℕ
  address = element (get_page_table_virtual i) j

  abbrev table : ℕ
  table = s.frames s.root i / 4096

  translate-window : translate s address ≡ some (table * 4096 + 4 * j)
  unfolding translate get_page_table_virtual
  translate-window =
      let top : address / 2 ^ 22 ≡ 1023 = omega arith in
      let middle : address / 4096 % 1024 ≡ i = omega arith in
      let low : address % 4096 ≡ 4 * j = omega arith in
      let is_table : (s.frames s.root 1023 % 2 == 1) ≡ true = ground (arith, recursive.1) in
      let is_page : (s.frames s.root i % 2 == 1) ≡ true = ground (arith, present) in
      rw (top, middle, low, recursive.0, is_table, is_page) refl

  pub load-window : load s address ≡ some (s.frames table j)
  unfolding load
  load-window =
      let page : (table * 4096 + 4 * j) / 4096 ≡ table = omega arith in
      let word : (table * 4096 + 4 * j) % 4096 / 4 ≡ j = omega arith in
      rw (load, translate-window, page, word) refl

  pub store-window : (word : ℕ) → store s address word ≡ some (put_word s table j word)
  unfolding store
  store-window word =
      let page : (table * 4096 + 4 * j) / 4096 ≡ table = omega arith in
      let at : (table * 4096 + 4 * j) % 4096 / 4 ≡ j = omega arith in
      rw (store, translate-window, page, at) refl

  pub clear-window :
      j ≡ 0
      → clear_page s address
        ≡ some (record s { frames = λ p i. if p == table then 0 else s.frames p i })
  unfolding clear_page
  clear-window e =
      let page : (table * 4096 + 4 * j) / 4096 ≡ table = omega arith in
      rw (clear_page, translate-window, page) refl
