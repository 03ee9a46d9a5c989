-- ===== src/Process/Ring.antt =====
-- The ring of the processes, as the list of the addresses of its nodes.
use mathlib.Core.Path.{subst}
use pygmali_os.Base.{
  ℕ, zero, suc, ◌+◌, ◌-◌, ◌≤◌, ◌<◌, ◌≡◌, ◌≢◌, ◌∙◌, ◌⊎◌, inl, inr, refl, sym, ap, arith, true, false,
  List, [], ◌∷◌, ◌++◌, ◌==◌, if◌then◌else◌, length, get_or, Bool-cases, length-append,
  get_or-append_left, get_or-append_right,
}
use pygmali_os.Base.{some}
use pygmali_os.Process.{
  Process, Processes, next_of, put_node, put_next, put_process, find_tail, append_node, add_process,
}

pub equal : {a b : ℕ} → a ≡ b → (a == b) ≡ true
equal e = ground arith

pub differ : {a b : ℕ} → a ≢ b → (a == b) ≡ false
differ h = ground arith

abbrev pub at : List ℕ → ℕ → ℕ
at xs i = get_or xs i 0

-- Each node is followed by the next one of the list, and the last by the first.
pub record Ring (s : Processes) (xs : List ℕ) : Type 0 where
  pub inhabited : 0 < length xs
  pub head : at xs 0 ≡ s.process_list
  pub follows : (i : ℕ) → suc i < length xs → next_of s (at xs i) ≡ at xs (suc i)
  pub closes : next_of s (at xs (length xs - 1)) ≡ at xs 0
  pub apart : (i j : ℕ) → i < length xs → j < length xs → at xs i ≡ at xs j → i ≡ j
  pub non_null : (i : ℕ) → i < length xs → 0 < at xs i

-- The links and the processes after an assignment to one of them.
pub next-put_next :
    (place next a : ℕ) (s : Processes)
    → next_of (put_next place next s) a ≡ (if a == place then next else next_of s a)
unfolding put_next put_node
next-put_next place next a s = elim (Bool-cases (a == place)) [
  | inl e ↦ rw (next_of, e) refl
  | inr e ↦ rw (next_of, e) refl
]

pub process-put_next :
    (place next a : ℕ) (s : Processes) → ((put_next place next s).nodes a).p ≡ (s.nodes a).p
unfolding put_next put_node
process-put_next place next a s = elim (Bool-cases (a == place)) [
  | inl e ↦ let same : a ≡ place = ground arith in rw (e, same) refl
  | inr e ↦ rw e refl
]

pub next-put_process :
    (place a : ℕ) (p : Process) (s : Processes) → next_of (put_process place p s) a ≡ next_of s a
unfolding put_process put_node
next-put_process place a p s = elim (Bool-cases (a == place)) [
  | inl e ↦ let same : a ≡ place = ground arith in rw (next_of, e, same) refl
  | inr e ↦ rw (next_of, e) refl
]

pub process-put_process :
    (place a : ℕ) (p : Process) (s : Processes)
    → ((put_process place p s).nodes a).p ≡ (if a == place then p else (s.nodes a).p)
unfolding put_process put_node
process-put_process place a p s = elim (Bool-cases (a == place)) [
  | inl e ↦ rw e refl
  | inr e ↦ rw e refl
]

module _ {s : Processes} {xs : List ℕ} (ring : Ring s xs) where
  open ring use {inhabited, head, follows, closes, apart, non_null}

  find_tail-last :
      (fuel i : ℕ)
      → i < length xs
      → length xs ≤ fuel + i
      → find_tail fuel (at xs i) s ≡ some (at xs (length xs - 1))
  unfolding find_tail
  find_tail-last zero i l f = absurd (omega arith)
  find_tail-last (suc fuel) i l f = elim (Bool-cases (suc i == length xs)) [
    | inl e ↦
        let last : i ≡ length xs - 1 = ground arith in
        let back : (next_of s (at xs i) == s.process_list) ≡ true =
          subst (λ k. (next_of s (at xs k) == s.process_list) ≡ true) (sym last)
            (equal (closes ∙ head)) in
        rw back (ap (λ k. some (at xs k)) last)
    | inr e ↦
        let more : suc i < length xs = ground arith in
        let on : (next_of s (at xs i) == s.process_list) ≡ false = differ (λ e'.
          let same = apart (suc i) 0 more inhabited (sym (follows i more) ∙ (e' ∙ sym head)) in
          omega arith) in
        rw (on, follows i more) (find_tail-last fuel (suc i) more (omega arith))
  ]

-- A state with the same links has the same ring.
pub Ring-same :
    {s s' : Processes} {xs : List ℕ}
    → Ring s xs
    → s'.process_list ≡ s.process_list
    → ((i : ℕ) → i < length xs → next_of s' (at xs i) ≡ next_of s (at xs i))
    → Ring s' xs
Ring-same {xs = xs} ring first links = record {
  inhabited = ring.inhabited;
  head = ring.head ∙ sym first;
  follows = λ i l. links i (omega arith) ∙ ring.follows i l;
  closes = links (length xs - 1) (omega (arith, ring.inhabited)) ∙ ring.closes;
  apart = ring.apart;
  non_null = ring.non_null;
}

-- A new node behind the last one.
module _ {s : Processes} {xs : List ℕ} (ring : Ring s xs) (fuel node local : ℕ) (p : Process)
    (enough : length xs ≤ fuel) (real : 0 < node)
    (fresh : (i : ℕ) → i < length xs → at xs i ≢ node) where
  abbrev ys : List ℕ
  ys = xs ++ (node ∷ [])

  size : length ys ≡ length xs + 1
  size = length-append xs (node ∷ [])

  old : (i : ℕ) → i < length xs → at ys i ≡ at xs i
  old i l = get_or-append_left xs (node ∷ []) i 0 l

  new : at ys (length xs) ≡ node
  new =
      let none : length xs - length xs ≡ 0 = omega arith in
      get_or-append_right xs (node ∷ []) (length xs) 0 (omega arith) ∙ rw none refl

  abbrev tail : ℕ
  tail = at xs (length xs - 1)

  abbrev counted : Processes
  counted = put_process node p (record s { process_count = s.process_count + 1 })

  abbrev linked : Processes
  linked = put_next node s.process_list (put_next tail node counted)

  counted-Ring : Ring counted xs
  unfolding put_process put_node
  counted-Ring =
      Ring-same ring refl (λ i l.
        next-put_process node (at xs i) p (record s { process_count = s.process_count + 1 }))

  add_process-linked : add_process fuel node local p s ≡ some linked
  unfolding add_process put_next put_process put_node
  add_process-linked =
      let found = find_tail-last counted-Ring fuel 0 ring.inhabited (omega arith) in
      let some_list : (s.process_list == 0) ≡ false =
        differ (λ e. let positive = ring.non_null 0 ring.inhabited in omega (arith, ring.head)) in
      rw some_list (
        ap (append_node node counted)
          (subst (λ h. find_tail fuel h counted ≡ some tail) ring.head found))

  next-linked :
      (a : ℕ)
      → next_of linked a
        ≡ (if a == node then s.process_list else if a == tail then node else next_of s a)
  next-linked a =
      next-put_next node s.process_list a _
      ∙ ap (λ n. if a == node then s.process_list else n)
          (next-put_next tail node a counted
            ∙ ap (λ n. if a == tail then node else n) (next-put_process node a p _))

  process-linked : (a : ℕ) → (linked.nodes a).p ≡ (if a == node then p else (s.nodes a).p)
  process-linked a =
      process-put_next node s.process_list a _
      ∙ (process-put_next tail node a counted ∙ process-put_process node a p _)

  link-old : (i : ℕ) → suc i < length xs → next_of linked (at xs i) ≡ at xs (suc i)
  link-old i l =
      let other : (at xs i == tail) ≡ false = differ (λ e.
        let same = ring.apart i (length xs - 1) (omega arith) (omega arith) e in omega arith) in
      next-linked (at xs i) ∙ (rw (differ (fresh i (omega arith)), other) (ring.follows i l))

  link-tail : next_of linked tail ≡ node
  link-tail =
      let other : (tail == node) ≡ false =
        differ (fresh (length xs - 1) (omega (arith, ring.inhabited))) in
      let self : (tail == tail) ≡ true = equal refl in next-linked tail ∙ rw (other, self) refl

  link-node : next_of linked node ≡ s.process_list
  link-node = let self : (node == node) ≡ true = equal refl in next-linked node ∙ rw self refl

  place :
      (i : ℕ)
      → i < length ys
      → ((i < length xs) × (at ys i ≡ at xs i)) ⊎ ((i ≡ length xs) × (at ys i ≡ node))
  place i l = elim (Bool-cases (i == length xs)) [
    | inl e ↦ let same : i ≡ length xs = ground arith in inr (same, rw same new)
    | inr e ↦ let less : i < length xs = ground (arith, size) in inl (less, old i less)
  ]

  first-linked : linked.process_list ≡ s.process_list
  unfolding put_next put_process put_node
  first-linked = refl

  follows-linked : (i : ℕ) → suc i < length ys → next_of linked (at ys i) ≡ at ys (suc i)
  follows-linked i l =
      let here = old i (omega (arith, size)) in
      elim (place (suc i) l) [
        | inl (less, e) ↦ rw (here, e) (link-old i less)
        | inr (end, e) ↦ let last : i ≡ length xs - 1 = omega arith in rw (here, e, last) link-tail
      ]

  apart-linked : (i j : ℕ) → i < length ys → j < length ys → at ys i ≡ at ys j → i ≡ j
  apart-linked i j l k same = elim (place i l) [
    | inl (less, e) ↦ elim (place j k) [
      | inl (less', e') ↦ ring.apart i j less less' (sym e ∙ (same ∙ e'))
      | inr (end', e') ↦ absurd (fresh i less (sym e ∙ (same ∙ e')))
    ]
    | inr (end, e) ↦ elim (place j k) [
      | inl (less', e') ↦ absurd (fresh j less' (sym e' ∙ (sym same ∙ e)))
      | inr (end', e') ↦ end ∙ sym end'
    ]
  ]

  linked-Ring : Ring linked ys
  linked-Ring = record {
    inhabited = omega (arith, size);
    head = old 0 ring.inhabited ∙ (ring.head ∙ sym first-linked);
    follows = follows-linked;
    closes =
        let last : length ys - 1 ≡ length xs = omega (arith, size) in
        rw (last, new) (link-node ∙ (sym ring.head ∙ sym (old 0 ring.inhabited)));
    apart = apart-linked;
    non_null = λ i l. elim (place i l) [
      | inl (less, e) ↦ rw e (ring.non_null i less)
      | inr (end, e) ↦ rw e real
    ];
  }

  -- On a ring of processes a new process is put behind the last one, and the list is a ring again,
  -- with the other processes as they were, the same current one, and the count one higher.
  pub add_process-Ring :
      (s' : Processes) × (add_process fuel node local p s ≡ some s')
      × Ring s' (xs ++ (node ∷ []))
      × ((s'.nodes node).p ≡ p)
      × ((i : ℕ) → i < length xs → (s'.nodes (at xs i)).p ≡ (s.nodes (at xs i)).p)
      × (s'.current_process ≡ s.current_process)
      × (s'.process_count ≡ s.process_count + 1)
  unfolding put_next put_process put_node
  add_process-Ring =
      let self : (node == node) ≡ true = equal refl in
      (
        linked,
        add_process-linked,
        linked-Ring,
        process-linked node ∙ rw self refl,
        λ i l. process-linked (at xs i) ∙ rw (differ (fresh i l)) refl,
        refl,
        refl,
      )
