-- ===== src/Fat/Freed.antt =====
-- src/fatparser.c: the loop of `delete_file` and `write_to_file` that frees the clusters of a file.
use pygmali_os.Base.{
  ℕ, zero, suc, ◌≤◌, ◌<◌, ◌≡◌, ◌≢◌, ◌∙◌, inl, inr, refl, sym, ap, arith, Bool, true, false, ◌&&◌,
  ◌||◌, List, [], ◌∷◌, ◌==◌, leb, ltb, if◌then◌else◌, get_or, set, take, drop, length, Bool-cases,
}
use pygmali_os.Base.{Option, some, bit_and}
use mathlib.Core.Path.{subst}
use pygmali_os.Fat.Volume.{Volume, write_sector, get_from_fat}
use pygmali_os.Fat.Table.{IsVolume, IsCluster}
use pygmali_os.Fat.Entries.{modify_fat-modified, modified, modified-IsVolume, get_from_fat-modified}
use pygmali_os.Fat.Files.{IsFile}
use pygmali_os.Fat.Changes.{free_chain, delete_entry}
use pygmali_os.Fat.Names.{dot}
use pygmali_os.Fat.Directory.{attr, entry_cluster}
use pygmali_os.Fat.Locations.{FileLocation}

-- Whether a cluster is one of these.
abbrev pub among : ℕ → List ℕ → Bool
among x [] = false
among x (c ∷ cs) = x == c || among x cs

-- A file is determined by its first cluster.
IsFile-length :
    (v : Volume) (c : ℕ) (cs ds : List ℕ) → IsFile v c cs → IsFile v c ds → length cs ≡ length ds
IsFile-length v c [] [] f g = refl
IsFile-length v c [] (d ∷ ds) f g = absurd (omega (arith, f, g.3))
IsFile-length v c (d ∷ cs) [] f g = absurd (omega (arith, g, f.3))
IsFile-length v c (d ∷ cs) (e ∷ ds) f g = ap suc (IsFile-length v (get_from_fat v c) cs ds f.4 g.4)

-- A cluster is not met again further on, since the file behind it is shorter.
pub not_among :
    (v : Volume) (c : ℕ) (cs : List ℕ) (x : ℕ) (ds : List ℕ)
    → IsFile v c cs
    → IsFile v x ds
    → length ds < length cs
    → among c ds ≡ false
not_among v c cs x [] f g l = refl
not_among v c cs x (d ∷ ds) f g l =
    let rest = not_among v c cs (get_from_fat v x) ds f g.4 (omega arith) in
    elim (Bool-cases (c == d)) [
      | inl e ↦
          let same : x ≡ c = ground (arith, g.0) in
          absurd (
            omega
              (arith, IsFile-length v c cs (d ∷ ds) f (subst (λ y. IsFile v y (d ∷ ds)) same g)))
      | inr e ↦ rw (e, rest) refl
    ]

modified-IsFile :
    (v : Volume) (c x : ℕ) (ds : List ℕ)
    → IsVolume v
    → IsCluster v c
    → among c ds ≡ false
    → IsFile v x ds
    → IsFile (modified v c 0) x ds
modified-IsFile v c x [] w k a f = f
modified-IsFile v c x (d ∷ ds) w k a f =
    let other : (x == c) ≡ false = ground (arith, a, f.0) in
    let next : get_from_fat (modified v c 0) x ≡ get_from_fat v x =
      get_from_fat-modified v c x 0 w k f.2 (omega arith) ∙ rw other refl in
    (
      f.0,
      f.1,
      f.2,
      f.3,
      subst (λ y. IsFile (modified v c 0) y ds) (sym next)
          (modified-IsFile v c (get_from_fat v x) ds w k (ground (arith, a)) f.4),
    )

-- All clusters of a file are freed, and no other one. The fuel is more than the number of them.
pub free_chain-frees :
    (fuel low : ℕ) (v : Volume) (c : ℕ) (cs : List ℕ)
    → IsVolume v
    → low ≤ v.root_cluster
    → IsFile v c cs
    → length cs < fuel
    → (v' : Volume) × (free_chain fuel low v c ≡ some v')
      × IsVolume v'
      × ((x : ℕ) → IsCluster v x → get_from_fat v' x ≡ (if among x cs then 0 else get_from_fat v x))
unfolding free_chain
free_chain-frees zero low v c cs w r f l = absurd (omega arith)
free_chain-frees (suc fuel) low v c [] w r f l =
    let stop : (leb low c && ltb c 0x0FFFFFF8) ≡ false = ground arith in
    rw stop (v, refl, w, λ x k. refl)
free_chain-frees (suc fuel) low v c (d ∷ ds) w r f l =
    let go : (leb low c && ltb c 0x0FFFFFF8) ≡ true = ground (arith, f.1, f.3) in
    let written = modify_fat-modified v c 0 w f.2 in
    let apart = not_among v c (d ∷ ds) (get_from_fat v c) ds f f.4 (omega arith) in
    let (v', done, w', entries) =
      free_chain-frees fuel low (modified v c 0) (get_from_fat v c) ds (modified-IsVolume v c 0 w) r
        (modified-IsFile v c (get_from_fat v c) ds w f.2 apart f.4) (omega arith) in
    (
      v',
      rw (go, written) done,
      w',
      λ x k.
          entries x k
          ∙ (let now = get_from_fat-modified v c x 0 w f.2 k (omega arith) in
              elim (Bool-cases (x == c)) [
                | inl e ↦
                    let own : (x == d) ≡ true = ground (arith, f.0) in
                    elim (Bool-cases (among x ds)) [
                      | inl a ↦ rw (own, a) refl
                      | inr a ↦ rw (own, a, now, e) refl
                    ]
                | inr e ↦
                    let other : (x == d) ≡ false = ground (arith, f.0) in
                    elim (Bool-cases (among x ds)) [
                      | inl a ↦ rw (other, a) refl
                      | inr a ↦ rw (other, a, now, e) refl
                    ]
              ]),
    )

-- Deleting an ordinary file, once its entry is found, frees all its clusters and no other one, then
-- writes the entry's sector back with the entry marked as deleted. The name does not begin with a
-- period, the entry is neither a directory nor a part of a long name, and the fuel is more than the
-- number of the clusters.
pub delete_entry-frees :
    (delete : Volume → List ℕ → Option (Volume × ℕ)) (fuel : ℕ) (v : Volume) (filename : List ℕ)
    (l : FileLocation) (sector cs : List ℕ)
    → IsVolume v
    → let entry = take 32 (drop l.byte_offset sector) in
      IsFile v (entry_cluster entry) cs
      → length cs < fuel
      → get_or entry 0 0 ≢ dot
      → attr entry ≢ 0x0F
      → bit_and (attr entry) 0x10 ≡ 0
      → (v' : Volume) × (delete_entry delete fuel v filename l sector
          ≡ some (write_sector v' l.lba (set sector l.byte_offset 0xE5), 0))
        × IsVolume v'
        × ((x : ℕ)
            → IsCluster v x
            → get_from_fat v' x ≡ (if among x cs then 0 else get_from_fat v x))
unfolding delete_entry
delete_entry-frees delete fuel v filename l sector cs w f b named short plain =
    let entry = take 32 (drop l.byte_offset sector) in
    let first : (get_or entry 0 0 == dot) ≡ false = ground (arith, named) in
    let part : (attr entry == 0x0F) ≡ false = ground (arith, short) in
    let (v', done, w', entries) =
      free_chain-frees fuel v.root_cluster v (entry_cluster entry) cs w (omega arith) f b in
    (v', rw (first, part, plain, done) refl, w', entries)
