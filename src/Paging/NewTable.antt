-- ===== src/Paging/NewTable.antt =====
-- `create_new_table` of src/paging.c.
use pygmali_os.Base.{
  ℕ, ◌+◌, ◌*◌, ◌/◌, ◌%◌, ◌^◌, ◌<◌, ◌≡◌, ◌≢◌, ◌∙◌, ◌⊎◌, inl, inr, refl, sym, ap, ap₂, arith, true,
  false, ◌&&◌, List, ◌∷◌, ◌==◌, if◌then◌else◌, shl, Bool-cases,
}
use pygmali_os.Base.{Option, none, some}
use pygmali_os.Base.Bits.{bit_or_fields}
use pygmali_os.Paging.{max_pages, page_size, test_bit, alloc_raw_page}
use pygmali_os.Paging.Pages.{IsBitmap}
use pygmali_os.Paging.Tables.{
  Space, invlpg, does, translate, store, put_word, clear_page, get_page_table_virtual, element,
  enter_table, create_new_table,
}
use pygmali_os.Paging.Windows.{IsRecursive, store-window, clear-window}
use pygmali_os.Paging.Mapping.{IsSpace, IsPlain, dir, idx, equal, differ, translate-same}
use pygmali_os.Paging.Entries.{dir_index}

-- There is a free page.
abbrev pub HasFree : List ℕ → Type 0
HasFree bitmap = (p : ℕ) × (p < max_pages) × (test_bit bitmap p ≡ true)

pub translate-no_table :
    (s : Space) (v : ℕ) → s.frames s.root (dir v) % 2 ≢ 1 → translate s v ≡ none
unfolding translate
translate-no_table s v absent = rw (translate, differ absent) refl

translate-no_page :
    (s : Space) (v table : ℕ)
    → s.frames s.root (dir v) / 4096 ≡ table
    → s.frames table (idx v) ≡ 0
    → translate s v ≡ none
unfolding translate
translate-no_page s v table e zero_entry = elim (Bool-cases (s.frames s.root (dir v) % 2 == 1)) [
  | inl p ↦ rw (translate, e, zero_entry, p) refl
  | inr p ↦ rw (translate, p) refl
]

module _ (s : Space) (h : IsSpace s) (i p : ℕ) (m : List ℕ) (inside : i < 1023) (small : p < 2 ^ 20)
    (absent : s.frames s.root i % 2 ≢ 1) (free : test_bit s.bitmap p ≡ true) (bitmap : IsBitmap m)
    (taken : (j : ℕ) → test_bit m j ≡ (if j == p then false else test_bit s.bitmap j)) where
  abbrev linked : Space
  linked = put_word (record s { bitmap = m }) s.root i (p * 4096 + 3)

  abbrev added : Space
  added = record linked { frames = λ p' j. if p' == p then 0 else linked.frames p' j }

  no_root : s.root ≢ p
  no_root e =
      let clash : true ≡ false = sym free ∙ (ap (test_bit s.bitmap) (sym e) ∙ h.root_used) in
      absurd (cc)

  no_table : (j : ℕ) → j < 1023 → s.frames s.root j % 2 ≡ 1 → s.frames s.root j / 4096 ≢ p
  no_table j l q e =
      let clash : true ≡ false = sym free ∙ (ap (test_bit s.bitmap) (sym e) ∙ h.used j l q) in
      absurd (cc)

  directory : (j : ℕ) → added.frames s.root j ≡ (if j == i then p * 4096 + 3 else s.frames s.root j)
  directory j =
      let itself : (s.root == s.root) ≡ true = equal refl in rw (differ no_root, itself) refl

  directory_new : added.frames s.root i ≡ p * 4096 + 3
  directory_new = let itself : (i == i) ≡ true = equal refl in directory i ∙ rw itself refl

  directory_old : (j : ℕ) → (j == i) ≡ false → added.frames s.root j ≡ s.frames s.root j
  directory_old j e = directory j ∙ rw e refl

  still_used : (j : ℕ) → test_bit s.bitmap j ≡ false → test_bit m j ≡ false
  still_used j u = elim (Bool-cases (j == p)) [
    | inl e ↦ taken j ∙ rw e refl
    | inr e ↦ taken j ∙ rw e u
  ]

  -- An entry of the directory is that of the new table, or one of before.
  place :
      (j : ℕ)
      → ((j ≡ i) × (added.frames s.root j / 4096 ≡ p))
        ⊎ ((j ≢ i) × (added.frames s.root j ≡ s.frames s.root j))
  place j = elim (Bool-cases (j == i)) [
    | inl e ↦
        let same : j ≡ i = ground arith in
        let entry : added.frames s.root j ≡ p * 4096 + 3 =
          ap (added.frames s.root) same ∙ directory_new in
        inl (same, omega (arith, entry))
    | inr e ↦ let other : j ≢ i = ground arith in inr (other, directory_old j e)
  ]

  was :
      (j : ℕ)
      → added.frames s.root j ≡ s.frames s.root j
      → added.frames s.root j % 2 ≡ 1
      → s.frames s.root j % 2 ≡ 1
  was j e q = sym (ap (λ w. w % 2) e) ∙ q

  page :
      (j : ℕ)
      → added.frames s.root j ≡ s.frames s.root j
      → added.frames s.root j / 4096 ≡ s.frames s.root j / 4096
  page j e = ap (λ w. w / 4096) e

  added-used :
      (j : ℕ)
      → j < 1023
      → added.frames s.root j % 2 ≡ 1
      → test_bit m (added.frames s.root j / 4096) ≡ false
  added-used j l q = elim (place j) [
    | inl (same, e) ↦
        let itself : (p == p) ≡ true = equal refl in ap (test_bit m) e ∙ (taken p ∙ rw itself refl)
    | inr (other, e) ↦ ap (test_bit m) (page j e) ∙ still_used _ (h.used j l (was j e q))
  ]

  added-apart :
      (j : ℕ) → j < 1023 → added.frames s.root j % 2 ≡ 1 → added.frames s.root j / 4096 ≢ s.root
  added-apart j l q r = elim (place j) [
    | inl (same, e) ↦ no_root (sym r ∙ e)
    | inr (other, e) ↦ h.apart j l (was j e q) (sym (page j e) ∙ r)
  ]

  added-distinct :
      (j k : ℕ)
      → j < 1023
      → k < 1023
      → added.frames s.root j % 2 ≡ 1
      → added.frames s.root k % 2 ≡ 1
      → added.frames s.root j / 4096 ≡ added.frames s.root k / 4096
      → j ≡ k
  added-distinct j k l n q r same = elim (place j) [
    | inl (here, e) ↦ elim (place k) [
      | inl (there, f) ↦ here ∙ sym there
      | inr (there, f) ↦ absurd (no_table k n (was k f r) (sym (page k f) ∙ (sym same ∙ e)))
    ]
    | inr (here, e) ↦ elim (place k) [
      | inl (there, f) ↦ absurd (no_table j l (was j e q) (sym (page j e) ∙ (same ∙ f)))
      | inr (there, f) ↦
          h.distinct j k l n (was j e q) (was k f r) (sym (page j e) ∙ (same ∙ page k f))
    ]
  ]

  added-IsSpace : IsSpace added
  added-IsSpace =
      let top = directory_old 1023 (differ (λ e. omega arith)) in
      record {
        recursive = (page 1023 top ∙ h.recursive.0, ap (λ w. w % 2) top ∙ h.recursive.1);
        words = λ p' j. elim (Bool-cases (p' == p)) [
          | inl e ↦ rw e (omega arith)
          | inr e ↦ elim (Bool-cases (p' == s.root && j == i)) [
            | inl f ↦ rw (e, f) (omega arith)
            | inr f ↦ rw (e, f) (h.words p' j)
          ]
        ];
        bitmap = bitmap;
        root_used = still_used s.root h.root_used;
        used = added-used;
        apart = added-apart;
        distinct = added-distinct;
      }

  -- The new table is empty, so that no address is translated otherwise than before.
  translate-added : (v : ℕ) → v < 0xFFC00000 → translate added v ≡ translate s v
  translate-added v low = elim (place (dir v)) [
    | inl (same, e) ↦
        let itself : (p == p) ≡ true = equal refl in
        translate-no_page added v p e (rw itself refl)
        ∙ sym
            (translate-no_table s v (λ q. absent (ap (λ j. s.frames s.root j % 2) (sym same) ∙ q)))
    | inr (other, e) ↦ translate-same s added v e (λ q.
        let l : dir v < 1023 = omega arith in
        rw (differ (no_table (dir v) l q), differ (h.apart (dir v) l q)) refl)
  ]

  linked-IsRecursive : IsRecursive linked
  linked-IsRecursive =
      let other : (1023 == i) ≡ false = differ (λ e. omega arith) in
      let itself : (s.root == s.root) ≡ true = equal refl in
      let top : linked.frames s.root 1023 ≡ s.frames s.root 1023 = rw (itself, other) refl in
      (ap (λ w. w / 4096) top ∙ h.recursive.0, ap (λ w. w % 2) top ∙ h.recursive.1)

  linked_entry : linked.frames s.root i ≡ p * 4096 + 3
  linked_entry =
      let itself : (s.root == s.root) ≡ true = equal refl in
      let here : (i == i) ≡ true = equal refl in rw (itself, here) refl

  first_word : element (get_page_table_virtual i) 0 ≡ get_page_table_virtual i
  unfolding get_page_table_virtual
  first_word = omega arith

  store-linked :
      store (record s { bitmap = m }) (element (get_page_table_virtual 1023) i) (p * 4096 + 3)
      ≡ some linked
  store-linked =
      store-window (record s { bitmap = m }) h.recursive 1023 i (omega arith) (omega arith)
        h.recursive.1 (p * 4096 + 3)
      ∙ ap (λ t. some (put_word (record s { bitmap = m }) t i (p * 4096 + 3))) h.recursive.0

  abbrev pub with_table : Space
  with_table = record added { effects = invlpg (0xFFC00000 + shl i 12) ∷ s.effects }

  clear-linked :
      clear_page (does (invlpg (0xFFC00000 + shl i 12)) linked) (get_page_table_virtual i)
      ≡ some with_table
  clear-linked =
      let linked' = does (invlpg (0xFFC00000 + shl i 12)) linked in
      let present : linked.frames s.root i % 2 ≡ 1 = omega (arith, linked_entry) in
      let table : linked.frames s.root i / 4096 ≡ p = omega (arith, linked_entry) in
      let wipe : ℕ → Option Space =
        λ t. some (record linked' { frames = λ p' j. if p' == t then 0 else linked.frames p' j }) in
      ap (clear_page linked') (sym first_word)
      ∙ (clear-window linked' linked-IsRecursive i 0 (omega arith) (omega arith) present refl
          ∙ ap wipe table)

  enter_table-added : enter_table i (p * page_size, m) s ≡ some (p * page_size, with_table)
  unfolding enter_table
  enter_table-added =
      let entry = bit_or_fields 12 p 3 (omega arith) in
      rw (enter_table, entry, store-linked, clear-linked) refl

  pub create_new_table-added :
      (v : ℕ)
      → v < 2 ^ 32
      → dir v ≡ i
      → alloc_raw_page s.bitmap ≡ (p * page_size, m)
      → create_new_table s v ≡ some (p * page_size, with_table)
  unfolding create_new_table
  create_new_table-added v low here allocated =
      ap₂ (λ (t : ℕ) (b : ℕ × List ℕ). enter_table t b s) (dir_index v low ∙ here) allocated
      ∙ enter_table-added

  pub with_table-IsSpace : IsSpace with_table
  with_table-IsSpace = record {
    recursive = added-IsSpace.recursive;
    words = added-IsSpace.words;
    bitmap = bitmap;
    root_used = added-IsSpace.root_used;
    used = added-IsSpace.used;
    apart = added-IsSpace.apart;
    distinct = added-IsSpace.distinct;
  }

  pub translate-with_table : (v : ℕ) → v < 0xFFC00000 → translate with_table v ≡ translate s v
  unfolding translate
  translate-with_table v low = translate-added v low

  -- A page in use that was no table is still none.
  pub with_table-IsPlain :
      (q : ℕ) → test_bit s.bitmap q ≡ false → IsPlain s q → IsPlain with_table q
  with_table-IsPlain q in_use (root, tables) =
      let other : p ≢ q = λ e.
        let clash : true ≡ false = sym free ∙ (ap (test_bit s.bitmap) e ∙ in_use) in absurd (cc) in
      (
        root,
        λ j l present e. elim (place j) [
          | inl (same, at_p) ↦ other (sym at_p ∙ e)
          | inr (apart, old) ↦ tables j l (was j old present) (sym (page j old) ∙ e)
        ],
      )

  pub with_table-present : with_table.frames s.root i % 2 ≡ 1
  with_table-present = ap (λ w. w % 2) directory_new ∙ omega arith
