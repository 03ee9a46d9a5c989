-- ===== src/Disk/Transfers.antt =====
-- The sectors that src/diskreader.c reads and writes, on a drive that answers before the timer ends.
use pygmali_os.Base.{
  ℕ, ◌+◌, ◌*◌, ◌^◌, ◌<◌, ◌≡◌, ◌∙◌, refl, ap, ap₂, arith, false, List, [], ◌∷◌, ◌++◌, ◌==◌,
  if◌then◌else◌, length, shl, shr, bit_and, bit_or, length-append, append_assoc,
}
use mathlib.Core.Path.{subst}
use pygmali_os.Base.Bits.{bit_and_mask}
use pygmali_os.Disk.Ata.{
  Ports, Driver, is_busy, is_unready, mega_wait, wait_while, select_sector, read_words, write_words,
  receive, request, flush, send, start_write, bytes_of_words,
}
use pygmali_os.Disk.Drive.{IsPrompt, IsDrive, View, idle, reading, writing, address, stored}
use pygmali_os.Disk.Waits.{
  mega_wait-Shows, wait_while-is_busy, wait_while-is_unready, wait_while-writing,
}
use pygmali_os.Disk.Words.{AreWords, device_register}

-- The sectors after one of them was replaced.
abbrev pub store : ℕ → List ℕ → (ℕ → List ℕ) → ℕ → List ℕ
store sector new words s = if s == sector then new else words s

stored-store :
    {words : ℕ → List ℕ} {sector : ℕ} (v : View) (new : List ℕ)
    → v.words ≡ words
    → address v ≡ sector
    → (stored v new).words ≡ store sector new words
stored-store v new e at =
    let put : (ℕ → List ℕ) → ℕ → ℕ → List ℕ = λ f a s. if s == a then new else f s in ap₂ put e at

module _ {D : Type 0} (ports : Ports D) (driver : Driver) {limit : ℕ}
    (drive : IsDrive ports driver.bus_select limit) where
  open drive use {
    Shows, within, put_count, put_low, put_med, put_high, put_device, command_read, give_word,
    given, command_write, take_word, command_flush,
  }

  -- The drive is idle, and its sectors hold `words`.
  abbrev pub Holds : (ℕ → List ℕ) → D → Type 0
  Holds words d = (v : View) × (n : ℕ) × (v.words ≡ words) × Shows v idle n d

  select_sector-address :
      {words : ℕ → List ℕ} (sector : ℕ) (d : D)
      → driver.is_slave_drive < 2
      → sector < 2 ^ 28
      → Holds words d
      → (v : View) × (n : ℕ) × (v.words ≡ words)
        × (address v ≡ sector)
        × Shows v idle n (mega_wait ports driver (select_sector ports driver sector d))
  unfolding select_sector
  select_sector-address sector d two fits (v, n, e, s) =
      let slave = driver.is_slave_drive in
      let top : ℕ = bit_or (bit_or 0xE0 (bit_and (shr sector 24) 0x0F)) (shl slave 4) in
      let right = device_register slave sector two in
      let low = bit_and_mask 8 sector in
      let med = bit_and_mask 8 (shr sector 8) in
      let high = bit_and_mask 8 (shr sector 16) in
      let s1 = put_device top right.1 s in
      let s2 = put_low (bit_and sector 0xFF) (omega (arith, low)) s1 in
      let s3 = put_med (bit_and (shr sector 8) 0xFF) (omega (arith, med)) s2 in
      let s4 = put_high (bit_and (shr sector 16) 0xFF) (omega (arith, high)) s3 in
      (
        _,
        n,
        e,
        omega (arith, right.0, low, med, high),
        mega_wait-Shows ports driver drive _ (put_count s4),
      )

  read_words-reading :
      {v : View} (ws : List ℕ) (d : D)
      → Shows v (reading ws) 0 d
      → (d' : D) × (read_words ports driver (length ws) d ≡ (ws, d')) × Shows v (reading []) 0 d'
  unfolding read_words
  read_words-reading [] d s = (d, refl, s)
  read_words-reading (w ∷ ws) d s =
      let (first, s') = give_word s in
      let (d', e, last) = read_words-reading ws _ s' in (d', rw (e, first) refl, last)

  write_words-writing :
      {v : View} (prompt : IsPrompt ports driver.bus_select limit drive) (ws sent : List ℕ) (d : D)
      → 0 < length ws
      → length sent + length ws ≡ 256
      → AreWords ws
      → Shows v (writing sent) 0 d
      → Shows (stored v (sent ++ ws)) idle 0 (write_words ports driver ws d)
  unfolding write_words
  write_words-writing prompt [] sent d k l b s = absurd (omega arith)
  write_words-writing prompt (w ∷ []) sent d k l b s = prompt.take_last w b.0 (omega arith) s
  write_words-writing {v = v} prompt (w ∷ x ∷ ws) sent d k l b s =
      let size = length-append sent (w ∷ []) in
      let s' =
        write_words-writing prompt (x ∷ ws) (sent ++ (w ∷ [])) _ (omega arith) (omega (arith, size))
          b.1 (take_word w b.0 (omega arith) s) in
      subst
        (λ all.
          Shows (stored v all) idle 0
            (write_words ports driver (x ∷ ws) (ports.outw driver.bus_select w d)))
        (append_assoc sent (w ∷ []) (x ∷ ws)) s'

  read_words-sector :
      {v : View} (ws : List ℕ) (d : D)
      → length ws ≡ 256
      → Shows v (reading ws) 0 d
      → (d' : D) × (read_words ports driver 256 d ≡ (ws, d')) × Shows v idle 0 d'
  read_words-sector {v = v} ws d size s =
      let (d', e, last) = read_words-reading ws d s in
      (d', subst (λ n. read_words ports driver n d ≡ (ws, d')) size e, given last)

  abbrev Received : View → List ℕ → ℕ × List ℕ × D → Type 0
  Received v ws result = (d' : D) × (result ≡ (0, bytes_of_words ws, d')) × Shows v idle 0 d'

  above : (t : ℕ) → 0 < t → (t == 0) ≡ false
  above t l = ground arith

  receive-Received :
      {v : View} (ws : List ℕ) (t m : ℕ) (d : D) (buffer : List ℕ)
      → length ws ≡ 256
      → 0 < t
      → m ≡ 0
      → Shows v (reading ws) m d
      → Received v ws (receive ports driver (t, d) buffer)
  unfolding receive
  receive-Received {v = v} ws t m d buffer size l none s =
      let (d', e, s') =
        read_words-sector ws d size (subst (λ m. Shows v (reading ws) m d) none s) in
      (d', rw (e, above t l) refl, s')

  await-Received :
      {v : View} (ws : List ℕ) (t n : ℕ) (d : D) (buffer : List ℕ)
      → length ws ≡ 256
      → n < t
      → t < 2 ^ 32
      → Shows v (reading ws) n d
      → let (t', d') = wait_while ports driver is_unready t d in
        Received v ws (receive ports driver (wait_while ports driver is_busy t' d') buffer)
  await-Received {v = v} ws t n d buffer size l f s =
      let (t2, m2, d2, e2, a2, b2, c2, _, s2) =
        wait_while-is_unready ports driver drive ws t n d (omega (arith, size)) l f s in
      let (t3, m3, d3, e3, a3, b3, c3, none, s3) =
        wait_while-is_busy ports driver drive t2 m2 d2 (omega arith) (omega arith) s2 in
      let done = receive-Received ws t3 m3 d3 buffer size b3 none s3 in rw (e2, e3) done

  request-Received :
      {v : View} (ws : List ℕ) (t m : ℕ) (d : D) (buffer : List ℕ)
      → length ws ≡ 256
      → v.words (address v) ≡ ws
      → limit < t
      → t < 2 ^ 32
      → m ≡ 0
      → Shows v idle m d
      → Received v ws (request ports driver (t, d) buffer)
  unfolding request
  request-Received {v = v} ws t m d buffer size asked l f none s =
      let (n, s') = command_read (subst (λ m. Shows v idle m d) none s) in
      let small = within s' in
      rw (above t (omega arith)) (
        await-Received ws t n _ buffer size (omega arith) f (
          subst (λ ws. Shows v (reading ws) n (ports.outb (driver.bus_select + 7) 0x20 d)) asked
            s'))

  abbrev Written : View → ℕ × D → Type 0
  Written v result = (n : ℕ) × (d' : D) × (result ≡ (0, d')) × Shows v idle n d'

  flush-Written :
      {v : View} (t : ℕ) (d : D)
      → limit < t
      → t < 2 ^ 32
      → Shows v idle 0 d
      → Written v (flush ports driver d t)
  unfolding flush
  flush-Written t d l f s =
      let (n', s1) = command_flush s in
      let small = within s1 in
      let (t', m', d', e, a, b, c, none, s2) =
        wait_while-is_busy ports driver drive t n' _ (omega arith) f s1 in
      (m', d', rw (e, above t' b) refl, s2)

  send-Written :
      {v : View} (prompt : IsPrompt ports driver.bus_select limit drive) (new : List ℕ) (t m : ℕ)
      (d : D)
      → length new ≡ 256
      → AreWords new
      → limit < t
      → t < 2 ^ 32
      → m ≡ 0
      → Shows v (writing []) m d
      → Written (stored v new) (send ports driver new (t, d))
  unfolding send
  send-Written {v = v} prompt new t m d size fit l f none s =
      let s' =
        write_words-writing prompt new [] d (omega (arith, size)) (omega (arith, size)) fit
          (subst (λ m. Shows v (writing []) m d) none s) in
      rw (above t (omega arith)) (flush-Written t _ l f s')

  settle-Written :
      {v : View} (prompt : IsPrompt ports driver.bus_select limit drive) (new : List ℕ) (t m : ℕ)
      (d : D)
      → length new ≡ 256
      → AreWords new
      → limit < t
      → t < 2 ^ 32
      → m ≡ 0
      → Shows v (writing []) m d
      → Written (stored v new) (send ports driver new (wait_while ports driver is_unready t d))
  settle-Written {v = v} prompt new t m d size fit l f none s =
      let (t', m', d', e, a, b, c, none', s') =
        wait_while-writing ports driver drive t d (omega arith) f
          (subst (λ m. Shows v (writing []) m d) none s) in
      rw e (send-Written prompt new t' m' d' size fit (omega arith) (omega arith) none' s')

  start_write-Written :
      {v : View} (prompt : IsPrompt ports driver.bus_select limit drive) (new : List ℕ) (t m : ℕ)
      (d : D)
      → length new ≡ 256
      → AreWords new
      → 2 * limit < t
      → t < 2 ^ 32
      → m ≡ 0
      → Shows v idle m d
      → Written (stored v new) (start_write ports driver new (t, d))
  unfolding start_write
  start_write-Written {v = v} prompt new t m d size fit l f none s =
      let (n, s1) = command_write (subst (λ m. Shows v idle m d) none s) in
      let small = within s1 in
      let (t', m', d', e, a, b, c, none', s2) =
        wait_while-is_busy ports driver drive t n _ (omega arith) f
          (mega_wait-Shows ports driver drive _ s1) in
      rw (above t (omega arith), e)
        (settle-Written prompt new t' m' d' size fit (omega arith) (omega arith) none' s2)

  abbrev selected : ℕ → D → D
  selected sector d = mega_wait ports driver (select_sector ports driver sector d)

  module _ {words : ℕ → List ℕ} (sector : ℕ) (d : D) (two : driver.is_slave_drive < 2)
      (fits : sector < 2 ^ 28) (quick : 3 * limit < 100000) (holds : Holds words d) where
    pub request-reads :
        (buffer : List ℕ)
        → length (words sector) ≡ 256
        → (d' : D) × (request ports driver
              (wait_while ports driver is_busy 100000 (selected sector d))
              buffer
            ≡ (0, bytes_of_words (words sector), d'))
          × Holds words d'
    request-reads buffer size =
        let (v, n, e, at, s) = select_sector-address sector d two fits holds in
        let small = within s in
        let (t, m, d1, e1, a1, b1, c1, none, s1) =
          wait_while-is_busy ports driver drive 100000 n _ (omega arith) (omega arith) s in
        let asked : v.words (address v) ≡ words sector = ap (λ f. f (address v)) e ∙ ap words at in
        let (d', e', s2) =
          request-Received (words sector) t m d1 buffer size asked (omega arith) (omega arith) none
            s1 in
        (d', rw (e1, e') refl, (v, 0, e, s2))

    pub start_write-writes :
        (prompt : IsPrompt ports driver.bus_select limit drive) (new : List ℕ)
        → length new ≡ 256
        → AreWords new
        → (d' : D) × (start_write ports driver new
              (wait_while ports driver is_busy 1000000 (selected sector d))
            ≡ (0, d'))
          × Holds (store sector new words) d'
    start_write-writes prompt new size fit =
        let (v, n, e, at, s) = select_sector-address sector d two fits holds in
        let small = within s in
        let (t, m, d1, e1, a1, b1, c1, none, s1) =
          wait_while-is_busy ports driver drive 1000000 n _ (omega arith) (omega arith) s in
        let (n', d', e', s2) =
          start_write-Written prompt new t m d1 size fit (omega arith) (omega arith) none s1 in
        (d', rw (e1, e') refl, (stored v new, n', stored-store v new e at, s2))
