-- ===== src/Shell/Past.antt =====
-- src/inputhandler.c: the lines typed before, the last one first.
use pygmali_os.Base.{
  ℕ, zero, suc, ◌+◌, ◌-◌, ◌≤◌, ◌<◌, ◌≡◌, ◌∙◌, inl, inr, refl, sym, ap, arith, Bool, true, false,
  ◌&&◌, not, List, [], ◌∷◌, ◌++◌, ◌==◌, leb, ltb, get_or, set, take, length, Bool-cases,
}
use pygmali_os.Base.{
  length-append, append_assoc, append-nil, get_or-append_left, get_or-append_right,
  length-replicate,
}
use pygmali_os.Base.Texts.{text-pointwise, zeros}
use pygmali_os.CString.{strlen, memmove, memcpy}
use pygmali_os.CString.Moves.{memmove-moved, length-memcpy, get_or-memcpy}
use pygmali_os.Split.{All}
use pygmali_os.Shell.{Input, History, cleared, store_prev_inputs, recall, back_history}

abbrev nonzero : ℕ → Bool
nonzero c = not (c == 0)

-- The lines with a zero byte behind each.
abbrev pub stored : List (List ℕ) → List ℕ
stored [] = []
stored (l ∷ lines) = l ++ 0 ∷ stored lines

abbrev pub AllLines : List (List ℕ) → Type 0
AllLines [] = Unit
AllLines (l ∷ lines) = All nonzero l × AllLines lines

pub record IsHistory (h : History) (lines : List (List ℕ)) : Type 0 where
  pub block : 1024 ≤ length h.previous_inputs
  pub room : 1024 ≤ h.historybuffersize
  pub size : h.history_current_size ≡ length (stored lines)
  pub bound : length (stored lines) ≤ 1024
  pub visible : AllLines lines
  pub bytes :
      (i : ℕ) → i < length (stored lines) → get_or h.previous_inputs i 0 ≡ get_or (stored lines) i 0

strlen-line : (l r : List ℕ) → All nonzero l → strlen (l ++ 0 ∷ r) ≡ length l
unfolding strlen
strlen-line [] r a = refl
strlen-line (c ∷ l) r a =
    let no : (c == 0) ≡ false = ground (arith, a.0) in rw no (ap suc (strlen-line l r a.1))

same_front :
    (l a b : List ℕ) (i : ℕ) → i < length l + 1 → get_or (l ++ 0 ∷ a) i 0 ≡ get_or (l ++ 0 ∷ b) i 0
same_front [] a b zero h = refl
same_front [] a b (suc i) h = absurd (omega arith)
same_front (c ∷ l) a b zero h = refl
same_front (c ∷ l) a b (suc i) h = same_front l a b i (omega arith)

get_or-behind :
    (l b : List ℕ) (i : ℕ)
    → length l + 1 ≤ i
    → get_or (l ++ 0 ∷ b) i 0 ≡ get_or b (i - (length l + 1)) 0
get_or-behind [] b zero h = absurd (omega arith)
get_or-behind [] b (suc i) h = ap (λ k. get_or b k 0) (omega arith)
get_or-behind (c ∷ l) b zero h = absurd (omega arith)
get_or-behind (c ∷ l) b (suc i) h =
    get_or-behind l b i (omega arith) ∙ ap (λ k. get_or b k 0) (omega arith)

-- A line goes to the front of the history. The history and the line, with the zero byte behind it,
-- take 1024 bytes at most.
pub store_prev_inputs-IsHistory :
    (grow : ℕ → List ℕ → List ℕ) (l r : List ℕ) (lines : List (List ℕ)) (h : History)
    → IsHistory h lines
    → All nonzero l
    → h.history_current_size + length l + 1 ≤ 1024
    → IsHistory (store_prev_inputs grow (l ++ 0 ∷ r) h) (l ∷ lines)
      × ((store_prev_inputs grow (l ++ 0 ∷ r) h).history_position ≡ h.history_position)
unfolding store_prev_inputs
store_prev_inputs-IsHistory grow l r lines h v a b =
    let n = length l in
    let len = strlen-line l r a in
    let fits : ltb h.historybuffersize (h.history_current_size + n + 1) ≡ false =
      ground (arith, v.room) in
    let (same, m) =
      memmove-moved (n + 1) 0 (1024 - (n + 1)) h.previous_inputs (omega (arith, v.block)) in
    let whole : length (stored (l ∷ lines)) ≡ n + 1 + length (stored lines) =
      omega (arith, length-append l (0 ∷ stored lines)) in
    let shifted = memmove (n + 1) 0 (1024 - (n + 1)) h.previous_inputs in
    let done : History = record h {
      previous_inputs = memcpy (n + 1) 0 shifted 0 (l ++ 0 ∷ r);
      history_current_size = h.history_current_size + n + 1;
    } in
    let result : store_prev_inputs grow (l ++ 0 ∷ r) h ≡ done =
      rw (store_prev_inputs, len, fits) refl in
    rw result (
      record {
        block = omega (arith, length-memcpy (n + 1) 0 shifted 0 (l ++ 0 ∷ r), same, v.block);
        room = v.room;
        size = omega (arith, whole, v.size);
        bound = omega (arith, whole, v.size);
        visible = (a, v.visible);
        bytes = λ i k.
            get_or-memcpy (n + 1) 0 shifted 0 (l ++ 0 ∷ r) i (omega (arith, same, v.block))
            ∙ elim (Bool-cases (ltb i (n + 1))) [
              | inl e ↦
                  let inside : (leb 0 i && ltb i (0 + (n + 1))) ≡ true = ground arith in
                  let place : 0 + (i - 0) ≡ i = omega arith in
                  rw (inside, place) (same_front l r (stored lines) i (ground arith))
              | inr e ↦
                  let outside : (leb 0 i && ltb i (0 + (n + 1))) ≡ false = ground arith in
                  let move : (leb (n + 1) i && ltb i (n + 1 + (1024 - (n + 1)))) ≡ true =
                    ground (arith, k, whole, v.size, b) in
                  let place : 0 + (i - (n + 1)) ≡ i - (n + 1) = omega arith in
                  rw (outside, m i, move, place)
                    (v.bytes (i - (n + 1)) (ground (arith, k, whole))
                      ∙ sym (get_or-behind l (stored lines) i (ground arith)))
            ];
      },
      refl,
    )

recall-line :
    (l : List ℕ) (n i num : ℕ) (previous input shown : List ℕ)
    → All nonzero l
    → ((j : ℕ) → j < length l + 1 → get_or previous (i + j) 0 ≡ get_or (l ++ 0 ∷ []) j 0)
    → length l < n
    → recall n i num previous input shown
      ≡ (i + length l, memcpy (length l) num input i previous, shown ++ l)
unfolding recall memcpy
recall-line l zero i num previous input shown a p h = absurd (omega arith)
recall-line [] (suc n) i num previous input shown a p h =
    let here : i + 0 ≡ i = omega arith in
    let end : get_or previous i 0 ≡ 0 =
      ap (λ k. get_or previous k 0) (sym here) ∙ p 0 (omega arith) in
    rw (end, here, append-nil shown) refl
recall-line (c ∷ l) (suc n) i num previous input shown a p h =
    let here : i + 0 ≡ i = omega arith in
    let first : get_or previous i 0 ≡ c =
      ap (λ k. get_or previous k 0) (sym here) ∙ p 0 (omega arith) in
    let no : (c == 0) ≡ false = ground (arith, a.0) in
    let end : i + suc (length l) ≡ i + 1 + length l = omega arith in
    rw (first, no, end)
      (recall-line l n (i + 1) (num + 1) previous (set input num c) (shown ++ c ∷ []) a.1
          (λ j k.
            let next : i + 1 + j ≡ i + suc j = omega arith in rw next (p (suc j) (omega arith)))
          (omega arith)
        ∙ rw (append_assoc shown (c ∷ []) l) (
            ap
              (λ v. (
                i + 1 + length l,
                memcpy (length l) (num + 1) (set input num v) (i + 1) previous,
                shown ++ c ∷ l,
              ))
              (sym first)))

stored-append : (a b : List (List ℕ)) → stored (a ++ b) ≡ stored a ++ stored b
stored-append [] b = refl
stored-append (l ∷ a) b = rw (stored-append a b) (sym (append_assoc l (0 ∷ stored a) (stored b)))

length-stored :
    (a : List (List ℕ)) (l : List ℕ) (b : List (List ℕ))
    → length (stored (a ++ l ∷ b)) ≡ length (stored a) + (length l + 1 + length (stored b))
length-stored a l b = omega (
  arith,
  ap length (stored-append a (l ∷ b)),
  length-append (stored a) (stored (l ∷ b)),
  length-append l (0 ∷ stored b),
)

AllLines-at :
    (a : List (List ℕ)) (l : List ℕ) (b : List (List ℕ)) → AllLines (a ++ l ∷ b) → All nonzero l
AllLines-at [] l b v = v.0
AllLines-at (x ∷ a) l b v = AllLines-at a l b v.1

get_or-stored :
    (a : List (List ℕ)) (l : List ℕ) (b : List (List ℕ)) (j : ℕ)
    → get_or (stored (a ++ l ∷ b)) (length (stored a) + j) 0 ≡ get_or (l ++ 0 ∷ stored b) j 0
get_or-stored a l b j =
    let less : length (stored a) + j - length (stored a) ≡ j = omega arith in
    ap (λ s. get_or s (length (stored a) + j) 0) (stored-append a (l ∷ b))
    ∙ (get_or-append_right (stored a) (stored (l ∷ b)) (length (stored a) + j) 0 (omega arith)
        ∙ rw less refl)

-- Going back shows the line at the place where the history stands, puts it into the input buffer,
-- with a zero byte behind it, and steps to the line before it.
pub back_history-line :
    (h : History) (a : List (List ℕ)) (l : List ℕ) (b : List (List ℕ))
    → IsHistory h (a ++ l ∷ b)
    → h.history_position ≡ length (stored a)
    → (h' : History) × (i : Input) × (back_history h ≡ (h', i, l))
      × (take (length l) i.input_buffer ≡ l)
      × (get_or i.input_buffer (length l) 0 ≡ 0)
      × IsHistory h' (a ++ l ∷ b)
      × (h'.history_position ≡ length (stored (a ++ l ∷ [])))
unfolding back_history
back_history-line h a l b v e =
    let pos = h.history_position in
    let size = length-stored a l b in
    let read : (j : ℕ)
        → j < length l + 1
        → get_or h.previous_inputs (pos + j) 0 ≡ get_or (l ++ 0 ∷ []) j 0 =
      λ j k.
        v.bytes (pos + j) (omega (arith, size, e))
        ∙ (rw e (get_or-stored a l b j) ∙ same_front l (stored b) [] j k) in
    let start = cleared.input_buffer in
    let wide : length start ≡ 1024 = length-replicate {A = ℕ} 1024 0 in
    let result =
      recall-line l (h.history_current_size - pos) pos 0 h.previous_inputs start []
        (AllLines-at a l b v.visible) read (omega (arith, v.size, size, e)) in
    let more : leb h.history_current_size pos ≡ false = ground (arith, v.size, size, e) in
    let input = memcpy (length l) 0 start pos h.previous_inputs in
    let byte = λ (j : ℕ).
      get_or-memcpy (length l) 0 start pos h.previous_inputs j
        (omega (arith, wide, v.bound, size)) in
    (
      record h { history_position = pos + length l + 1 },
      record cleared { input_buffer = input },
      rw (back_history, result, more) refl,
      text-pointwise input (length l) l
          (omega
            (arith, length-memcpy (length l) 0 start pos h.previous_inputs, wide, v.bound, size))
          refl
          (λ j k.
            let inside : (leb 0 j && ltb j (0 + length l)) ≡ true = ground arith in
            let place : pos + (j - 0) ≡ pos + j = omega arith in
            byte j
            ∙ rw (inside, place) (read j (omega arith) ∙ get_or-append_left l (0 ∷ []) j 0 k)),
      (let outside : (leb 0 (length l) && ltb (length l) (0 + length l)) ≡ false = ground arith in
          byte (length l) ∙ rw outside (zeros 1024 (length l))),
      record {
        block = v.block;
        room = v.room;
        size = v.size;
        bound = v.bound;
        visible = v.visible;
        bytes = v.bytes;
      },
      omega (arith, e, length-stored a l []),
    )
