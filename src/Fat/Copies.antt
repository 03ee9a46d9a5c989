-- ===== src/Fat/Copies.antt =====
-- The loop of `modify_fat` over the copies of the table.
use pygmali_os.Base.{
  ℕ, zero, suc, ◌+◌, ◌*◌, ◌^◌, ◌≤◌, ◌<◌, ◌≡◌, ◌≢◌, ◌∙◌, inl, inr, refl, ap, arith, false, List,
  ◌==◌, if◌then◌else◌, Bool-cases, u32,
}
use native.Mathlib.Nat.{mul-le-mul_right}
use pygmali_os.Fat.Volume.{Volume, write_sector, write_copies}

-- The sectors after the copies from the one at `s` on, every `step` sectors, were written.
abbrev pub copied : ℕ → ℕ → ℕ → List ℕ → (ℕ → List ℕ) → ℕ → List ℕ
copied zero step s bytes f = f
copied (suc n) step s bytes f = copied n step (s + step) bytes (λ t. if t == s then bytes else f t)

write_sector-inside :
    (v : Volume) (s : ℕ) (bytes : List ℕ)
    → v.partition_start ≤ s
    → s ≤ v.partition_end
    → 0 < s
    → write_sector v s bytes ≡ record v { sectors = λ t. if t == s then bytes else v.sectors t }
unfolding write_sector
write_sector-inside v s bytes low high some = ground arith

pub write_copies-copied :
    (n i sector step : ℕ) (bytes : List ℕ) (v : Volume)
    → v.sectors_per_fat ≡ step
    → v.partition_start ≤ sector
    → 0 < sector
    → (0 < n → sector + (i + n) * step < v.partition_end + 1 + step)
    → v.partition_end < 2 ^ 32
    → write_copies n i sector bytes v
      ≡ record v { sectors = copied n step (sector + i * step) bytes v.sectors }
unfolding write_copies
write_copies-copied zero i sector step bytes v e low some high l = refl
write_copies-copied (suc n) i sector step bytes v e low some high l =
    let top : sector + (i + suc n) * step < v.partition_end + 1 + step = high (omega arith) in
    let split : (i + suc n) * step ≡ (i + n) * step + step = omega arith in
    let below : i * step ≤ (i + n) * step = mul-le-mul_right step (omega arith) in
    let at : u32 (sector + i * v.sectors_per_fat) ≡ sector + i * step = rw e (omega arith) in
    let w =
      write_sector-inside v (sector + i * step) bytes (omega arith) (omega arith) (omega arith) in
    let next : (i + 1) * step ≡ i * step + step = omega arith in
    rw (at, w)
      (write_copies-copied n (i + 1) sector step bytes
          (record v { sectors = λ t. if t == sector + i * step then bytes else v.sectors t }) e low
          some (λ h. omega (arith, top)) l
        ∙ ap
            (λ a. record v {
              sectors =
                  copied n step a bytes
                    (λ t. if t == sector + i * step then bytes else v.sectors t);
            })
            (omega (arith, next)))

copied-keep :
    (n step s t : ℕ) (bytes : List ℕ) (f : ℕ → List ℕ)
    → f t ≡ bytes
    → copied n step s bytes f t ≡ bytes
copied-keep zero step s t bytes f e = e
copied-keep (suc n) step s t bytes f e = copied-keep n step (s + step) t bytes _ (ground (arith, e))

-- A copy that was written holds the bytes, and no other sector changes.
pub copied-hit :
    (n k step s t : ℕ) (bytes : List ℕ) (f : ℕ → List ℕ)
    → k < n
    → t ≡ s + k * step
    → copied n step s bytes f t ≡ bytes
copied-hit zero k step s t bytes f l e = absurd (omega arith)
copied-hit (suc n) zero step s t bytes f l e =
    copied-keep n step (s + step) t bytes _ (ground arith)
copied-hit (suc n) (suc k) step s t bytes f l e =
    copied-hit n k step (s + step) t bytes _ (omega arith) (omega arith)

pub copied-miss :
    (n step s t : ℕ) (bytes : List ℕ) (f : ℕ → List ℕ)
    → ((k : ℕ) → k < n → t ≢ s + k * step)
    → copied n step s bytes f t ≡ f t
copied-miss zero step s t bytes f m = refl
copied-miss (suc n) step s t bytes f m =
    let no : (t == s) ≡ false = ground (arith, m 0) in
    copied-miss n step (s + step) t bytes _ (λ k l e. m (suc k) (omega arith) (omega arith))
    ∙ rw no refl

-- What holds of the bytes and of all sectors before holds of all sectors afterwards.
pub copied-all {ℓ} :
    (P : List ℕ → Type ℓ) (n step s : ℕ) (bytes : List ℕ) (f : ℕ → List ℕ)
    → P bytes
    → ((t : ℕ) → P (f t))
    → (t : ℕ) → P (copied n step s bytes f t)
copied-all P zero step s bytes f b h t = h t
copied-all P (suc n) step s bytes f b h t =
    copied-all P n step (s + step) bytes _ b
      (λ u. elim (Bool-cases (u == s)) [ inl e ↦ rw e b | inr e ↦ rw e (h u) ]) t
