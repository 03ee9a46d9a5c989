-- ===== src/Paging/Mapping.antt =====
-- The page tables as a map from virtual to physical addresses.
use mathlib.Core.Path.{subst}
use pygmali_os.Base.{
  ℕ, ◌+◌, ◌*◌, ◌/◌, ◌%◌, ◌^◌, ◌<◌, ◌≡◌, ◌≢◌, ◌∙◌, inl, inr, refl, sym, ap, ap₂, arith, true, false,
  ◌&&◌, ◌==◌, if◌then◌else◌, Bool-cases,
}
use pygmali_os.Base.{some}
use pygmali_os.Paging.{test_bit}
use pygmali_os.Paging.Pages.{IsBitmap}
use pygmali_os.Paging.Tables.{Space, translate, put_word}
use pygmali_os.Paging.Windows.{IsRecursive}

-- The index of an address in the directory, and in its table.
abbrev pub dir : ℕ → ℕ
dir virt = virt / 2 ^ 22

abbrev pub idx : ℕ → ℕ
idx virt = virt / 4096 % 1024

-- The tables are in use, differ from each other and from the directory, and the directory is its
-- own last table.
pub record IsSpace (s : Space) : Type 0 where
  pub recursive : IsRecursive s
  pub words : (p j : ℕ) → s.frames p j < 2 ^ 32
  pub bitmap : IsBitmap s.bitmap
  pub root_used : test_bit s.bitmap s.root ≡ false
  pub used :
      (i : ℕ)
      → i < 1023
      → s.frames s.root i % 2 ≡ 1
      → test_bit s.bitmap (s.frames s.root i / 4096) ≡ false
  pub apart : (i : ℕ) → i < 1023 → s.frames s.root i % 2 ≡ 1 → s.frames s.root i / 4096 ≢ s.root
  pub distinct :
      (i j : ℕ)
      → i < 1023
      → j < 1023
      → s.frames s.root i % 2 ≡ 1
      → s.frames s.root j % 2 ≡ 1
      → s.frames s.root i / 4096 ≡ s.frames s.root j / 4096
      → i ≡ j

-- A physical page that is neither the directory nor one of the tables.
abbrev pub IsPlain : Space → ℕ → Type 0
IsPlain s page =
    (s.root ≢ page)
    × ((i : ℕ) → i < 1023 → s.frames s.root i % 2 ≡ 1 → s.frames s.root i / 4096 ≢ page)

pub equal : {a b : ℕ} → a ≡ b → (a == b) ≡ true
equal e = ground arith

pub differ : {a b : ℕ} → a ≢ b → (a == b) ≡ false
differ h = ground arith

-- A translation depends on one entry of the directory and, where that is present, one of a table.
pub translate-same :
    (s s' : Space) (v : ℕ)
    → s'.frames s'.root (dir v) ≡ s.frames s.root (dir v)
    → (s.frames s.root (dir v) % 2 ≡ 1
        → s'.frames (s.frames s.root (dir v) / 4096) (idx v)
          ≡ s.frames (s.frames s.root (dir v) / 4096) (idx v))
    → translate s' v ≡ translate s v
unfolding translate
translate-same s s' v e h = elim (Bool-cases (s.frames s.root (dir v) % 2 == 1)) [
  | inl p ↦ rw (translate, e, h (ground arith)) refl
  | inr p ↦ rw (translate, e, p) refl
]

translate-entry :
    (s : Space) (v pde pte : ℕ)
    → s.frames s.root (dir v) ≡ pde
    → s.frames (pde / 4096) (idx v) ≡ pte
    → pde % 2 ≡ 1
    → pte % 2 ≡ 1
    → translate s v ≡ some (pte / 4096 * 4096 + v % 4096)
unfolding translate
translate-entry s v pde pte e f p q = rw (translate, e, f, equal p, equal q) refl

-- The same directory and the same bitmap.
pub IsSpace-same :
    {s s' : Space}
    → IsSpace s
    → s'.root ≡ s.root
    → s'.bitmap ≡ s.bitmap
    → ((i : ℕ) → s'.frames s'.root i ≡ s.frames s.root i)
    → ((p j : ℕ) → s'.frames p j < 2 ^ 32)
    → IsSpace s'
IsSpace-same {s = s} {s' = s'} h root bitmap same fits =
    let back : (i : ℕ) → s'.frames s'.root i % 2 ≡ 1 → s.frames s.root i % 2 ≡ 1 =
      λ i p. sym (ap (λ w. w % 2) (same i)) ∙ p in
    let page : (i : ℕ) → s'.frames s'.root i / 4096 ≡ s.frames s.root i / 4096 =
      λ i. ap (λ w. w / 4096) (same i) in
    record {
      recursive =
          (page 1023 ∙ (h.recursive.0 ∙ sym root), ap (λ w. w % 2) (same 1023) ∙ h.recursive.1);
      words = fits;
      bitmap = subst IsBitmap (sym bitmap) h.bitmap;
      root_used = ap₂ test_bit bitmap root ∙ h.root_used;
      used = λ i l p. ap₂ test_bit bitmap (page i) ∙ h.used i l (back i p);
      apart = λ i l p e. h.apart i l (back i p) (sym (page i) ∙ (e ∙ root));
      distinct =
          λ i j l k p q e. h.distinct i j l k (back i p) (back j q) (sym (page i) ∙ (e ∙ page j));
    }

module _ (s : Space) (h : IsSpace s) (v word : ℕ) (low : v < 0xFFC00000)
    (present : s.frames s.root (dir v) % 2 ≡ 1) (valid : word % 2 ≡ 1) (fits : word < 2 ^ 32) where
  abbrev table : ℕ
  table = s.frames s.root (dir v) / 4096

  abbrev changed : Space
  changed = put_word s table (idx v) word

  other_table : table ≢ s.root
  other_table = h.apart (dir v) (omega arith) present

  pub directory : (i : ℕ) → changed.frames s.root i ≡ s.frames s.root i
  directory i = rw (differ (λ e. other_table (sym e))) refl

  entry : changed.frames table (idx v) ≡ word
  entry =
      let same_table : (table == table) ≡ true = equal refl in
      let same_index : (idx v == idx v) ≡ true = equal refl in rw (same_table, same_index) refl

  -- The translation after the entry of the page of `v` was written.
  pub translate-put_word :
      (v' : ℕ)
      → v' < 0xFFC00000
      → translate changed v'
        ≡ (if v' / 4096 == v / 4096 then some (word / 4096 * 4096 + v' % 4096) else translate s v')
  translate-put_word v' low' = elim (Bool-cases (v' / 4096 == v / 4096)) [
    | inl e ↦
        let same : v' / 4096 ≡ v / 4096 = ground arith in
        let same_dir : dir v' ≡ dir v = omega arith in
        let same_idx : idx v' ≡ idx v = omega arith in
        rw e (
          translate-entry changed v' (s.frames s.root (dir v)) word
            (directory (dir v') ∙ ap (s.frames s.root) same_dir)
            (ap (changed.frames table) same_idx ∙ entry) present valid)
    | inr e ↦ rw e (
        translate-same s changed v' (directory (dir v')) (λ p.
          elim (Bool-cases (s.frames s.root (dir v') / 4096 == table)) [
            | inl t ↦
                let one : dir v' ≡ dir v =
                  h.distinct (dir v') (dir v) (omega arith) (omega arith) p present
                    (ground arith) in
                let apart : v' / 4096 ≢ v / 4096 = ground arith in
                let other : idx v' ≢ idx v = λ i. apart (omega arith) in rw (t, differ other) refl
            | inr t ↦ rw t refl
          ]))
  ]

  pub changed-IsSpace : IsSpace changed
  changed-IsSpace = IsSpace-same h refl refl directory (λ p j.
      elim (Bool-cases (p == table && j == idx v)) [
        | inl e ↦ rw e fits
        | inr e ↦ rw e (h.words p j)
      ])
