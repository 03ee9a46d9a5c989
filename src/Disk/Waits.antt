-- ===== src/Disk/Waits.antt =====
-- The loops of src/diskreader.c that wait for the drive.
use pygmali_os.Base.{
  ℕ, zero, suc, ◌+◌, ◌^◌, ◌≤◌, ◌<◌, ◌≡◌, inl, inr, refl, arith, Bool, false, List, [], ◌∷◌, ◌==◌,
  length, Bool-cases, u32,
}
use pygmali_os.Disk.Ata.{
  Ports, Driver, is_busy, is_unready, io_wait, wait_from, mega_wait, poll, wait_while,
}
use pygmali_os.Disk.Drive.{IsDrive, View, Phase, reading, writing}

module _ {D : Type 0} (ports : Ports D) (driver : Driver) {limit : ℕ}
    (drive : IsDrive ports driver.bus_select limit) where
  open ports use {inb}
  open drive use {Shows, delay, status_busy, status_free, ready_reading, ready_writing}

  abbrev status : D → ℕ
  status d = (inb (driver.bus_select + 7) d).0

  wait_from-Shows :
      {v : View} {p : Phase} {n : ℕ} (k : ℕ) (d : D)
      → Shows v p n d
      → Shows v p n (wait_from ports driver k d)
  unfolding wait_from io_wait
  wait_from-Shows zero d s = s
  wait_from-Shows (suc k) d s = wait_from-Shows k _ (delay s)

  pub mega_wait-Shows :
      {v : View} {p : Phase} {n : ℕ} (d : D)
      → Shows v p n d
      → Shows v p n (mega_wait ports driver d)
  unfolding mega_wait
  mega_wait-Shows d s = wait_from-Shows 15 d s

  -- A loop that ends with the timer above zero, as `Done` for the times the drive is still busy.
  abbrev pub Waited : (ℕ → Bool) → View → Phase → (ℕ → Type 0) → ℕ → ℕ → D → Type 0
  Waited waiting v p Done timer n d =
      (t : ℕ) × (m : ℕ) × (d' : D) × (wait_while ports driver waiting timer d ≡ (t, d'))
      × (timer + m ≤ t + n)
      × (0 < t)
      × (t ≤ timer)
      × Done m
      × Shows v p m d'

  module _ (waiting : ℕ → Bool) {v : View} {p : Phase} (Done : ℕ → Type 0)
      (free : (d : D) → Shows v p 0 d → (waiting (status d) ≡ false) × Done 0)
      (busy : (n : ℕ) (d : D) → Shows v p (suc n) d → waiting (status d) ≡ false → Done n) where
    poll-ends :
        (timer n : ℕ) (d : D)
        → n < timer
        → timer < 2 ^ 32
        → Shows v p n d
        → (t : ℕ) × (m : ℕ) × (d' : D) × (poll ports driver waiting timer d ≡ (t, d'))
          × (timer + m ≤ t + n)
          × (0 < t)
          × (t ≤ timer)
          × Done m
          × Shows v p m d'
    unfolding poll io_wait
    poll-ends zero n d l f s = absurd (omega arith)
    poll-ends (suc timer) zero d l f s =
        let (now, done) = free d s in
        let whole : u32 (suc timer) ≡ suc timer = omega arith in
        (
          suc timer,
          0,
          (inb (driver.bus_select + 7) d).1,
          rw (now, whole) refl,
          omega arith,
          omega arith,
          omega arith,
          done,
          (status_free s).1,
        )
    poll-ends (suc timer) (suc n) d l f s = elim (Bool-cases (waiting (status d))) [
      | inl waits ↦
          let more : (timer == 0) ≡ false = ground arith in
          let (t, m, d', e, a, b, c, done, s') =
            poll-ends timer n _ (omega arith) (omega arith) (delay (status_busy s).1) in
          (t, m, d', rw (waits, more) e, omega arith, b, omega arith, done, s')
      | inr ends ↦
          let whole : u32 (suc timer) ≡ suc timer = omega arith in
          (
            suc timer,
            n,
            (inb (driver.bus_select + 7) d).1,
            rw (ends, whole) refl,
            omega arith,
            omega arith,
            omega arith,
            busy n d s ends,
            (status_busy s).1,
          )
    ]

    wait_while-ends :
        (timer n : ℕ) (d : D)
        → n < timer
        → timer < 2 ^ 32
        → Shows v p n d
        → Waited waiting v p Done timer n d
    unfolding wait_while
    wait_while-ends timer n d l f s =
        let more : (timer == 0) ≡ false = ground arith in
        let (t, m, d', e, a, b, c, done, s') = poll-ends timer n d l f s in
        (t, m, d', rw more e, a, b, c, done, s')

  abbrev pub Free : ℕ → Type 0
  Free n = n ≡ 0

  pub wait_while-is_busy :
      {v : View} {p : Phase} (timer n : ℕ) (d : D)
      → n < timer
      → timer < 2 ^ 32
      → Shows v p n d
      → Waited is_busy v p Free timer n d
  wait_while-is_busy timer n d l f s =
      wait_while-ends is_busy Free (λ d s. ((status_free s).0, refl))
        (λ n d s ends. let waits = (status_busy s).0 in absurd (cc)) timer n d l f s

  pub wait_while-is_unready :
      {v : View} (ws : List ℕ) (timer n : ℕ) (d : D)
      → 0 < length ws
      → n < timer
      → timer < 2 ^ 32
      → Shows v (reading ws) n d
      → Waited is_unready v (reading ws) (λ _. Unit) timer n d
  wait_while-is_unready [] timer n d k l f s = absurd (omega arith)
  wait_while-is_unready (w ∷ ws) timer n d k l f s =
      wait_while-ends is_unready (λ _. Unit) (λ d s. (ready_reading s, tt)) (λ n d s ends. tt) timer
        n d l f s

  pub wait_while-writing :
      {v : View} {ws : List ℕ} (timer : ℕ) (d : D)
      → 0 < timer
      → timer < 2 ^ 32
      → Shows v (writing ws) 0 d
      → Waited is_unready v (writing ws) Free timer 0 d
  wait_while-writing timer d l f s =
      let (t, m, d', e, a, b, c, done, s') =
        wait_while-ends is_unready (λ _. Unit) (λ d s. (ready_writing s, tt)) (λ n d s ends. tt)
          timer 0 d l f s in
      (t, m, d', e, a, b, c, omega arith, s')
