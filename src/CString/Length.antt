-- ===== src/CString/Length.antt =====
-- Where a string ends.
use pygmali_os.Base.{
  ℕ, zero, suc, ◌≤◌, ◌<◌, ◌≡◌, ◌≢◌, refl, arith, inl, inr, List, [], ◌∷◌, ◌==◌, length, get_or,
  Bool-cases,
}
use pygmali_os.CString.{strlen}

-- The first zero byte is at the length, at the end of the list at the latest.
pub strlen-end :
    (s : List ℕ)
    → (strlen s ≤ length s)
      × (get_or s (strlen s) 0 ≡ 0)
      × ((i : ℕ) → i < strlen s → get_or s i 0 ≢ 0)
unfolding strlen
strlen-end [] = (omega arith, refl, λ i l. absurd (omega arith))
strlen-end (c ∷ s) = elim (Bool-cases (c == 0)) [
  | inl e ↦ rw e (omega arith, ground arith, λ i l. absurd (omega arith))
  | inr e ↦
      let (l, z, n) = strlen-end s in
      rw e (omega (arith, l), z, λ i h. nonzero c s i (ground arith) n h)
]
  where
    nonzero :
        (c : ℕ) (s : List ℕ) (i : ℕ)
        → c ≢ 0
        → ((i : ℕ) → i < strlen s → get_or s i 0 ≢ 0)
        → i < suc (strlen s)
        → get_or (c ∷ s) i 0 ≢ 0
    nonzero c s zero d n h = d
    nonzero c s (suc i) d n h = n i (omega arith)
