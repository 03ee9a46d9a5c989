-- ===== src/Fat/ShortNames.antt =====
-- src/fatparser.c: a name goes into an entry of a directory by plaintext_to_filename and comes back
-- by filename_to_plaintext.
use pygmali_os.Base.{
  ℕ, zero, suc, ◌+◌, ◌-◌, ◌*◌, ◌/◌, ◌%◌, ◌^◌, ◌≤◌, ◌<◌, ◌≡◌, ◌≢◌, ◌∙◌, ◌⊎◌, inl, inr, refl, sym, ap,
  arith, Bool, true, false, ◌&&◌, ◌||◌, not, List, [], ◌∷◌, ◌++◌, ◌==◌, leb, ltb, min,
  if◌then◌else◌, get_or, set, take, drop, replicate, length, Bool-cases, else-taken, u64, sub32,
  get_or-cons,
}
use pygmali_os.Base.{
  Option, none, some, length-append, length-set, get_or-set_self, get_or-set_ne, length-replicate,
  get_or_ext, append_assoc, append-nil, get_or_past,
}
use pygmali_os.CString.{strlen}
use pygmali_os.Fat.Names.{
  space, dot, slash, backslash, pick, filename_to_plaintext, NameParts, is_valid_char, scan_name,
  copy_name, copy_extension, plaintext_to_filename,
}
use pygmali_os.Fat.ShortNames.Places.{
  At, At-cons, At-self, At-behind, At-whole, At-same, At-period, AllPlain, plain_text, get_or-end,
  strlen-plain, strlen-all, strlen-text,
}
use pygmali_os.Fat.ShortNames.Scan.{valid_after, start, valid_after-some, scan_name-text}
use pygmali_os.Fat.ShortNames.Copy.{Copied, copy_name-Copied, copy_extension-Copied}
use pygmali_os.Fat.ShortNames.Pick.{IsEntry, filename_to_plaintext-IsEntry}
mod Copy
pub mod Pick
pub mod Places
mod Scan

blanks : (n j : ℕ) → j < n → get_or (replicate n space) j 0 ≡ space
blanks zero j l = absurd (omega arith)
blanks (suc n) zero l = refl
blanks (suc n) (suc j) l = blanks n j (omega arith)

-- Putting the text of a name into an entry gives that entry, and its text is the name again. The
-- name has one to eight bytes and the extension at most three, none of them a blank, a period, a
-- slash or a backslash, and behind the text there are zero bytes.
pub filename_to_plaintext-plaintext_to_filename :
    (name ext : List ℕ)
    → AllPlain name
    → AllPlain ext
    → 1 ≤ length name
    → length name ≤ 8
    → length ext ≤ 3
    → (fat : List ℕ) × (plaintext_to_filename true (plain_text name ext) ≡ some fat)
      × IsEntry fat name ext
      × (filename_to_plaintext true fat ≡ some (plain_text name ext))
unfolding plaintext_to_filename
filename_to_plaintext-plaintext_to_filename name [] wn we l1 l8 l3 =
    let q = copy_name 8 0 name (replicate 11 space) in
    let end : (length name ≡ 8)
        ⊎ ((get_or name (0 + length name) 0 ≡ 0) ⊎ (get_or name (0 + length name) 0 ≡ dot)) =
      let k : 0 + length name ≡ length name = omega arith in inr (inl (rw k (get_or-end name))) in
    let ((size, name_at, same), ended) =
      copy_name-Copied name 8 0 name (replicate 11 space) q (At-whole name) wn l8 (omega arith) end
        refl in
    let v : IsEntry q.0 name [] = record {
      size = size;
      name_at = name_at;
      ext_at = tt;
      name_blanks = λ j l h. same j (inr (omega arith)) ∙ blanks 11 j (omega arith);
      ext_blanks = λ j l h. same j (inr (omega arith)) ∙ blanks 11 j h;
    } in
    let short : (ltb 12 (length name) || length name == 0 || not true) ≡ false = ground arith in
    (
      q.0,
      rw (plaintext_to_filename, strlen-text name [] wn tt, short, scan_name-text name [] wn tt l1)
          (elim (Bool-cases q.1) [ inl e ↦ rw e refl | inr e ↦ rw e refl ]),
      v,
      filename_to_plaintext-IsEntry q.0 name [] v wn tt l8 l3,
    )
filename_to_plaintext-plaintext_to_filename name (c ∷ ext) wn we l1 l8 l3 =
    let f = name ++ dot ∷ c ∷ ext in
    let q = copy_name 8 0 f (replicate 11 space) in
    let place : 0 + length name ≡ length name = omega arith in
    let (period, rest) = At-period name (c ∷ ext) in
    let ((size, name_at, same), ended) =
      copy_name-Copied name 8 0 f (replicate 11 space) q (At-self name (dot ∷ c ∷ ext)) wn l8
        (omega arith) (inr (inr (rw place period))) refl in
    let open_end : q.1 ≡ false =
      ended
      ∙ rw (place, period)
          (elim (Bool-cases (length name == 8)) [ inl b ↦ rw b refl | inr b ↦ rw b refl ]) in
    let r = copy_extension 3 0 (length name + 1) f q.0 in
    let here : length name + 1 + 0 ≡ length name + 1 = omega arith in
    let (size2, ext_at, same2) =
      copy_extension-Copied (c ∷ ext) 3 0 (length name + 1) f q.0 r (rw here rest) we l3
        (omega (arith, size))
        (λ j l. get_or_past f j 0 (omega (arith, length-append name (dot ∷ c ∷ ext)))) refl in
    let v : IsEntry r name (c ∷ ext) = record {
      size = size2 ∙ size;
      name_at = At-same name q.0 r 0 name_at (λ j b. same2 j (inl (omega arith)));
      ext_at = ext_at;
      name_blanks = λ j l h.
          same2 j (inl (omega arith)) ∙ (same j (inr (omega arith)) ∙ blanks 11 j (omega arith));
      ext_blanks =
          λ j l h. same2 j (inr (omega arith)) ∙ (same j (inr (omega arith)) ∙ blanks 11 j h);
    } in
    let len : length f ≡ length name + suc (suc (length ext)) =
      length-append name (dot ∷ c ∷ ext) in
    let short : (ltb 12 (length f) || length f == 0 || not true) ≡ false = ground (arith, len) in
    let fits : ltb 3 (strlen f - (length name + 1)) ≡ false =
      ground (arith, len, strlen-text name (c ∷ ext) wn we) in
    let near : ltb 9 (length name + 1) ≡ false = ground arith in
    let parts : NameParts = record {
      extension_start = length name + 1;
      period_exists = true;
      valid_fat = true;
    } in
    let nonempty : (length {A = ℕ} (c ∷ ext) == 0) ≡ false = ground arith in
    let scanned : scan_name (length f) 0 f start ≡ some parts =
      scan_name-text name (c ∷ ext) wn we l1 ∙ rw nonempty refl in
    (
      r,
      rw
          (
            plaintext_to_filename,
            strlen-text name (c ∷ ext) wn we,
            short,
            scanned,
            near,
            fits,
            open_end,
          )
          refl,
      v,
      filename_to_plaintext-IsEntry r name (c ∷ ext) v wn we l8 l3,
    )
