-- ===== src/Process/Turns.antt =====
-- The scheduler of src/process.c on a ring of processes: whose turn it is, and what is restored.
use mathlib.Core.Path.{subst}
use pygmali_os.Base.{
  ℕ, suc, ◌+◌, ◌-◌, ltb, ◌≤◌, ◌<◌, ◌≡◌, ◌≢◌, ◌∙◌, ◌⊎◌, inl, inr, refl, sym, ap, arith, true, false,
  List, [], ◌∷◌, ◌==◌, if◌then◌else◌, length, Bool-cases,
}
use pygmali_os.Process.{
  Regs, Process, Processes, Effect, pit_timer, update_tss_esp, switch_page_directory,
  context_switch, user_registers, next_of, put_node, put_process, schedule,
}
use pygmali_os.Process.Ring.{
  Ring, Ring-same, at, equal, differ, next-put_process, process-put_process,
}

-- One interrupt of the timer for each element: the registers that it finds.
unfoldable pub run_ticks : List Regs → Processes → Processes
run_ticks [] s = s
run_ticks (registers ∷ ticks) s = run_ticks ticks (schedule registers s).0

-- The process at index `i` of the ring is the current one.
pub record Turn (s : Processes) (xs : List ℕ) (i : ℕ) : Type 0 where
  pub ring : Ring s xs
  pub inside : i < length xs
  pub current : s.current_process ≡ at xs i

abbrev after : ℕ → ℕ → ℕ
after i n = if suc i == n then 0 else suc i

-- From `i` it is `d` steps to `j` around a ring of `n`.
abbrev Dist : ℕ → ℕ → ℕ → ℕ → Type 0
Dist i d j n = (i + d ≡ j) ⊎ (i + d ≡ j + n)

Dist-after : (i d j n : ℕ) → i < n → j < n → Dist i (suc d) j n → Dist (after i n) d j n
Dist-after i d j n l k (inl e) = elim (Bool-cases (suc i == n)) [
  | inl last ↦ absurd (ground arith)
  | inr more ↦ rw more (inl (omega arith))
]
Dist-after i d j n l k (inr e) = elim (Bool-cases (suc i == n)) [
  | inl last ↦ rw last (inl (ground arith))
  | inr more ↦ rw more (inr (omega arith))
]

Dist-zero : (i j n : ℕ) → i < n → j < n → Dist i 0 j n → i ≡ j
Dist-zero i j n l k (inl e) = omega arith
Dist-zero i j n l k (inr e) = absurd (omega arith)

Dist-apart : (i d j n : ℕ) → suc d < n → Dist i (suc d) j n → i ≢ j
Dist-apart i d j n l (inl e) same = omega arith
Dist-apart i d j n l (inr e) same = omega arith

-- What the interrupt saves.
abbrev pub saved : Processes → Regs → Regs
saved s r = if s.first_time then user_registers r else r

abbrev pub switch_to : Process → List Effect
switch_to p =
    pit_timer
    ∷ update_tss_esp p.kernel_stack_base
    ∷ switch_page_directory p.page_directory
    ∷ context_switch p.registers
    ∷ []

module _ {s : Processes} {xs : List ℕ} {i : ℕ} (turn : Turn s xs i) (r : Regs) where
  abbrev kept : Process
  kept = record ((s.nodes s.current_process).p) { registers = saved s r }

  abbrev stored : Processes
  stored = put_process s.current_process kept (record s { first_time = false })

  fields-stored :
      (stored.current_process ≡ s.current_process)
      × (stored.process_list ≡ s.process_list)
      × (stored.first_time ≡ false)
  unfolding put_process put_node
  fields-stored = (refl, refl, refl)

  next-stored : (a : ℕ) → next_of stored a ≡ next_of s a
  next-stored a = next-put_process s.current_process a kept (record s { first_time = false })

  next_turn : next_of s (at xs i) ≡ at xs (after i (length xs))
  next_turn = elim (Bool-cases (suc i == length xs)) [
    | inl e ↦ let last : i ≡ length xs - 1 = ground arith in rw (e, last) turn.ring.closes
    | inr e ↦ let l = turn.inside in rw e (turn.ring.follows i (ground arith))
  ]

  process-schedule :
      (a : ℕ)
      → ((schedule r s).0.nodes a).p ≡ (if a == s.current_process then kept else (s.nodes a).p)
  unfolding schedule
  process-schedule a =
      process-put_process s.current_process a kept (record s { first_time = false })

  current-schedule : (schedule r s).0.current_process ≡ at xs (after i (length xs))
  unfolding schedule
  current-schedule =
      ap (next_of stored) fields-stored.0
      ∙ (next-stored s.current_process ∙ (ap (next_of s) turn.current ∙ next_turn))

  schedule-Turn : Turn (schedule r s).0 xs (after i (length xs))
  unfolding schedule
  schedule-Turn = record {
    ring = Ring-same turn.ring fields-stored.1 (λ j l. next-stored (at xs j));
    inside = elim (Bool-cases (suc i == length xs)) [
      | inl e ↦ rw e turn.ring.inhabited
      | inr e ↦ let l = turn.inside in rw e (ground arith)
    ];
    current = current-schedule;
  }

  effects-schedule :
      (schedule r s).1 ≡ switch_to ((schedule r s).0.nodes (schedule r s).0.current_process).p
  unfolding schedule
  effects-schedule = refl

-- The process at `j` is left alone until its turn comes.
run_ticks-Turn :
    (ticks : List Regs) {s : Processes} {xs : List ℕ} (i j d : ℕ)
    → Turn s xs i
    → j < length xs
    → Dist i (length ticks + d) j (length xs)
    → (m : ℕ) × Turn (run_ticks ticks s) xs m
      × Dist m d j (length xs)
      × (length ticks + d < length xs
          → ((run_ticks ticks s).nodes (at xs j)).p ≡ (s.nodes (at xs j)).p)
unfolding run_ticks
run_ticks-Turn [] {xs = xs} i j d turn l dist =
    let none : 0 + d ≡ d = omega arith in
    (i, turn, subst (λ k. Dist i k j (length xs)) none dist, λ h. refl)
run_ticks-Turn (r ∷ ticks) {s = s} {xs = xs} i j d turn l dist =
    let step : suc (length ticks) + d ≡ suc (length ticks + d) = omega arith in
    let dist' = subst (λ k. Dist i k j (length xs)) step dist in
    let (m, turn', left, alone) =
      run_ticks-Turn ticks (after i (length xs)) j d (schedule-Turn turn r) l
        (Dist-after i (length ticks + d) j (length xs) turn.inside l dist') in
    (
      m,
      turn',
      left,
      λ h.
          let other : at xs j ≢ s.current_process = λ e.
            Dist-apart i (length ticks + d) j (length xs) (omega arith) dist'
              (turn.ring.apart i j turn.inside l (sym (e ∙ turn.current))) in
          alone (omega arith) ∙ (process-schedule turn r (at xs j) ∙ rw (differ other) refl),
    )

-- Whatever process is the current one, each of the ring, it too, is the current one again after as
-- many interrupts of the timer as there are processes, or fewer.
pub run_ticks-returns :
    {s : Processes} {xs : List ℕ} (i j : ℕ)
    → Turn s xs i
    → j < length xs
    → (k : ℕ) × (0 < k)
      × (k ≤ length xs)
      × ((ticks : List Regs) → length ticks ≡ k → (run_ticks ticks s).current_process ≡ at xs j)
run_ticks-returns {s = s} {xs = xs} i j turn l = elim (Bool-cases (ltb i j)) [
  | inl e ↦
      (j - i, ground arith, omega arith, λ ticks size. reach ticks (inl (ground (arith, size))))
  | inr e ↦
      let inside = turn.inside in
      (
        length xs - i + j,
        omega arith,
        ground arith,
        λ ticks size. reach ticks (inr (omega (arith, size))),
      )
]
  where
    reach :
        (ticks : List Regs)
        → Dist i (length ticks + 0) j (length xs)
        → (run_ticks ticks s).current_process ≡ at xs j
    reach ticks dist =
        let (m, turn', left, _) = run_ticks-Turn ticks i j 0 turn l dist in
        turn'.current ∙ ap (at xs) (Dist-zero m j (length xs) turn'.inside l left)

-- A process that an interrupt stops is restored with the registers that were saved, by the switch to
-- it that comes after the turns of all others, whatever these did to their registers.
pub schedule-resumes :
    {s : Processes} {xs : List ℕ} (i : ℕ) (r q : Regs) (ticks : List Regs)
    → Turn s xs i
    → length ticks + 2 ≡ length xs
    → let p : Process = (s.nodes s.current_process).p in
      (schedule q (run_ticks ticks (schedule r s).0)).1
      ≡ pit_timer
        ∷ update_tss_esp p.kernel_stack_base
        ∷ switch_page_directory p.page_directory
        ∷ context_switch (saved s r)
        ∷ []
schedule-resumes {s = s} {xs = xs} i r q ticks turn size =
    let n = length xs in
    let inside = turn.inside in
    let around : i + suc (length ticks + 1) ≡ i + n = omega arith in
    let (m, turn', left, alone) =
      run_ticks-Turn ticks (after i n) i 1 (schedule-Turn turn r) inside
        (Dist-after i (length ticks + 1) i n inside inside (inr around)) in
    let s' = run_ticks ticks (schedule r s).0 in
    let back : after m n ≡ i =
      Dist-zero (after m n) i n (schedule-Turn turn' q).inside inside
        (Dist-after m 0 i n turn'.inside inside left) in
    let other : at xs i ≢ s'.current_process = λ e.
      Dist-apart m 0 i n (omega arith) left
        (turn.ring.apart m i turn'.inside inside (sym (e ∙ turn'.current))) in
    let itself : (at xs i == s.current_process) ≡ true = equal (sym turn.current) in
    let now : (schedule q s').0.current_process ≡ at xs i =
      current-schedule turn' q ∙ ap (at xs) back in
    let process : ((schedule q s').0.nodes (at xs i)).p ≡ kept turn r =
      process-schedule turn' q (at xs i)
      ∙ (rw (differ other) (alone (omega arith))
          ∙ (process-schedule turn r (at xs i) ∙ rw itself refl)) in
    effects-schedule turn' q ∙ ap switch_to (ap (λ a. ((schedule q s').0.nodes a).p) now ∙ process)
