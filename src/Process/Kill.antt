-- ===== src/Process/Kill.antt =====
-- `kill_process` of src/process.c when it is asked to end the first process of the list.
use mathlib.Core.Path.{subst}
use pygmali_os.Base.{
  ℕ, zero, suc, ◌-◌, ◌<◌, ◌≡◌, ◌∙◌, inl, inr, refl, sym, ap, arith, true, false, List, [], ◌==◌,
  if◌then◌else◌, length, Bool-cases,
}
use pygmali_os.Base.{none}
use pygmali_os.Process.{
  Processes, next_of, put_next, put_node, unlink, unlink_later, kill_from, kill_process,
}
use pygmali_os.Process.Ring.{Ring, at, equal, differ, next-put_next}

module _ (xs : List ℕ) (real : (i : ℕ) → i < length xs → 0 < at xs i) where
  abbrev In : ℕ → Type 0
  In a = (i : ℕ) × (i < length xs) × (a ≡ at xs i)

  non_null-In : (a : ℕ) → In a → 0 < a
  non_null-In a (i, l, e) = let p = real i l in omega arith

  -- The links lead from nodes to nodes, and the globals are null.
  record Closed (s : Processes) : Type 0 where
    links : (a : ℕ) → In a → In (next_of s a)
    no_list : s.process_list ≡ 0
    no_current : s.current_process ≡ 0

  unlink_later-Closed :
      (prev cur : ℕ) (s : Processes)
      → Closed s
      → In prev
      → In cur
      → Closed (unlink_later prev cur s).0
  unfolding unlink_later put_next put_node
  unlink_later-Closed prev cur s c m n =
      let positive = non_null-In cur n in
      let no_list : (cur == s.process_list) ≡ false =
        differ (λ e. let z = c.no_list in omega arith) in
      let no_current : (cur == s.current_process) ≡ false =
        differ (λ e. let z = c.no_current in omega arith) in
      rw (no_list, no_current)
        record {
          links = λ a h. elim (Bool-cases (a == prev)) [
            | inl e ↦
                subst In (sym (next-put_next prev (next_of s cur) a s ∙ rw e refl)) (c.links cur n)
            | inr e ↦
                subst In (sym (next-put_next prev (next_of s cur) a s ∙ rw e refl)) (c.links a h)
          ];
          no_list = c.no_list;
          no_current = c.no_current;
        }

  unlink-Closed :
      (prev cur : ℕ) (s : Processes) → Closed s → In prev → In cur → Closed (unlink prev cur s).0
  unfolding unlink
  unlink-Closed prev cur s c m n = elim (Bool-cases (cur == prev)) [
    | inl e ↦ rw e record { links = c.links; no_list = refl; no_current = refl }
    | inr e ↦ rw e (unlink_later-Closed prev cur s c m n)
  ]

  round-Closed :
      (pid prev cur : ℕ) (s : Processes)
      → Closed s
      → In prev
      → In cur
      → Closed (if (s.nodes cur).p.pid == pid then unlink prev cur s else (s, [])).0
  round-Closed pid prev cur s c m n = elim (Bool-cases ((s.nodes cur).p.pid == pid)) [
    | inl e ↦ rw e (unlink-Closed prev cur s c m n)
    | inr e ↦ rw e c
  ]

  kill_from-endless :
      (fuel pid prev cur : ℕ) (s : Processes)
      → Closed s
      → In prev
      → In cur
      → kill_from fuel pid prev cur s ≡ none
  unfolding kill_from
  kill_from-endless zero pid prev cur s c m n = refl
  kill_from-endless (suc fuel) pid prev cur s c m n =
      let s' = (if (s.nodes cur).p.pid == pid then unlink prev cur s else (s, [])).0 in
      let c' = round-Closed pid prev cur s c m n in
      let n' = c'.links cur n in
      let going : (next_of s' cur == s'.process_list) ≡ false = differ (λ e.
        let positive = non_null-In (next_of s' cur) n' in let z = c'.no_list in omega arith) in
      rw (going, kill_from-endless fuel pid cur (next_of s' cur) s' c' n n') refl

module _ {s : Processes} {xs : List ℕ} (ring : Ring s xs) where
  abbrev emptied : Processes
  emptied = record s { process_list = 0; current_process = 0 }

  emptied-Closed : Closed xs ring.non_null emptied
  emptied-Closed = record {
    links = λ a (i, l, e). elim (Bool-cases (suc i == length xs)) [
      | inl end ↦
          let last : i ≡ length xs - 1 = ground arith in
          (0, ring.inhabited, ap (next_of s) (e ∙ ap (at xs) last) ∙ ring.closes)
      | inr more ↦
          let inside : suc i < length xs = ground arith in
          (suc i, inside, ap (next_of s) e ∙ ring.follows i inside)
    ];
    no_list = refl;
    no_current = refl;
  }

  first_round :
      (fuel pid : ℕ)
      → (s.nodes s.process_list).p.pid ≡ pid
      → kill_from fuel pid s.process_list s.process_list s ≡ none
  unfolding kill_from unlink
  first_round zero pid e = refl
  first_round (suc fuel) pid e =
      let head : ℕ = s.process_list in
      let itself : In xs ring.non_null head = (0, ring.inhabited, sym ring.head) in
      let next = emptied-Closed.links head itself in
      let going : (next_of s head == 0) ≡ false =
        differ
          (λ z. let positive = non_null-In xs ring.non_null (next_of s head) next in omega arith) in
      let rest =
        kill_from-endless xs ring.non_null fuel pid head (next_of s head) emptied emptied-Closed
          itself next in
      let found : ((s.nodes head).p.pid == pid) ≡ true = equal e in
      let same : (head == head) ≡ true = equal refl in rw (found, same, going, rest) refl

-- Asked for the process at the head of the list, `kill_process` never returns: with any number of
-- rounds its loop is not over.
pub kill_process-first :
    {s : Processes} {xs : List ℕ} (fuel pid : ℕ)
    → Ring s xs
    → (s.nodes s.process_list).p.pid ≡ pid
    → kill_process fuel pid s ≡ none
unfolding kill_process
kill_process-first {s = s} {xs = xs} fuel pid ring first =
    let listed : (s.process_list == 0) ≡ false =
      differ (λ z. let positive = ring.non_null 0 ring.inhabited in omega (arith, ring.head)) in
    rw (listed, first_round ring fuel pid first) refl
