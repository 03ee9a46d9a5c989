-- ===== src/Fat/Files.antt =====
-- Files as chains of clusters.
use pygmali_os.Base.{
  ℕ, zero, suc, ◌+◌, ◌^◌, ◌≤◌, ◌<◌, ◌≡◌, ◌∙◌, refl, ap, arith, true, false, List, [], ◌∷◌, leb, ltb,
  length, ◌&&◌, some,
}
use pygmali_os.Fat.Volume.{Volume, get_from_fat, int_ltb}
use pygmali_os.Fat.Table.{IsCluster}
use pygmali_os.Fat.Chains.{file_size_from, get_file_size, find_end}

-- From cluster `c` on, the file has the clusters `cs`, and its last entry marks the end.
abbrev pub IsFile : Volume → ℕ → List ℕ → Type 0
IsFile v c [] = (0x0FFFFFF8 ≤ c) × (c < 2 ^ 28)
IsFile v c (d ∷ ds) =
    (c ≡ d)
    × (v.root_cluster ≤ c)
    × IsCluster v c
    × (c < 0x0FFFFFF8)
    × IsFile v (get_from_fat v c) ds

abbrev pub last_of : ℕ → List ℕ → ℕ
last_of p [] = p
last_of p (d ∷ ds) = last_of d ds

file_size_from-length :
    (fuel : ℕ) (v : Volume) (c n : ℕ) (cs : List ℕ)
    → IsFile v c cs
    → length cs < fuel
    → file_size_from fuel v c n ≡ some (n + length cs)
unfolding file_size_from
file_size_from-length zero v c n cs f l = absurd (omega arith)
file_size_from-length (suc fuel) v c n [] f l =
    let stop : (ltb c 0x0FFFFFF8 && ltb 1 c) ≡ false = ground arith in
    rw stop (ap some (omega arith))
file_size_from-length (suc fuel) v c n (d ∷ ds) f l =
    let go : (ltb c 0x0FFFFFF8 && ltb 1 c) ≡ true = ground arith in
    rw go (
      file_size_from-length fuel v (get_from_fat v c) (n + 1) ds f.4 (omega arith)
      ∙ ap some (omega arith))

-- The size of a file is the number of its clusters, and one round more than that is enough.
pub get_file_size-length :
    (fuel : ℕ) (v : Volume) (c : ℕ) (cs : List ℕ)
    → IsFile v c cs
    → length cs < fuel
    → get_file_size fuel v c ≡ some (length cs)
unfolding get_file_size
get_file_size-length fuel v c cs f l =
    file_size_from-length fuel v c 0 cs f l ∙ ap some (omega arith)

pub find_end-last :
    (fuel : ℕ) (v : Volume) (c p : ℕ) (cs : List ℕ)
    → IsFile v c cs
    → length cs < fuel
    → (e : ℕ) × (find_end fuel v c p ≡ some (last_of p cs, e)) × (int_ltb e 0x0FFFFFF8 ≡ false)
unfolding find_end
find_end-last zero v c p cs f l = absurd (omega arith)
find_end-last (suc fuel) v c p [] f l =
    let stop : int_ltb c 0x0FFFFFF8 ≡ false = ground arith in
    let both : (leb v.root_cluster c && int_ltb c 0x0FFFFFF8) ≡ false = ground (arith, stop) in
    (c, rw both refl, stop)
find_end-last (suc fuel) v c p (d ∷ ds) f l =
    let both : (leb v.root_cluster c && int_ltb c 0x0FFFFFF8) ≡ true = ground arith in
    let (e, r, s) = find_end-last fuel v (get_from_fat v c) c ds f.4 (omega arith) in
    (e, rw both (r ∙ ap (λ q. some (last_of q ds, e)) f.0), s)
