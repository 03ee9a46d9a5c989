-- ===== src/Editor/Start.antt =====
-- The editor on a file that was just opened, and a session with it.
use pygmali_os.Base.Texts.{zeros}
use pygmali_os.Base.{
  ℕ, ◌+◌, ◌-◌, ◌≤◌, ◌<◌, ◌≡◌, ◌∙◌, inl, inr, sym, ap, arith, List, [], ◌∷◌, ◌++◌, ltb, get_or, take,
  length, Bool-cases,
}
use pygmali_os.Base.{
  Option, none, some, length-replicate, length-take, length-append, get_or-take, get_or-append_left,
  get_or-append_right,
}
use pygmali_os.CString.{strlen}
use pygmali_os.CString.Length.{strlen-end}
use pygmali_os.Editor.{load_text}
use pygmali_os.Editor.Edits.{IsEditor}

-- A string that is written out with its end.
ended :
    (s : List ℕ) (i : ℕ)
    → i ≤ strlen s
    → get_or (take (strlen s + 1) (s ++ 0 ∷ [])) i 0 ≡ get_or s i 0
ended s i l =
    let (len, end, n) = strlen-end s in
    get_or-take (strlen s + 1) (s ++ 0 ∷ []) i 0 (omega arith)
    ∙ elim (Bool-cases (ltb i (length s))) [
      | inl k ↦ get_or-append_left s (0 ∷ []) i 0 (ground arith)
      | inr k ↦
          let same : i ≡ strlen s = ground (arith, len) in
          let past : i - length s ≡ 0 = ground (arith, len) in
          get_or-append_right s (0 ∷ []) i 0 (ground arith)
          ∙ (ap (λ j. get_or (0 ∷ []) j 0) past ∙ sym (ap (λ j. get_or s j 0) same ∙ end))
    ]

pub load_text-IsEditor :
    (cluster_bytes : ℕ) (file : Option (List ℕ))
    → 0 < cluster_bytes
    → IsEditor (load_text cluster_bytes file)
unfolding load_text
load_text-IsEditor k none l = record {
  block = length-replicate {A = ℕ} k 0;
  room = l;
  cursor = omega arith;
  end = zeros k 0;
  characters = λ i h. absurd (omega arith);
}
load_text-IsEditor k (some s) l =
    let (len, end, n) = strlen-end s in
    record {
      block =
          omega (arith, length-take (strlen s + 1) (s ++ 0 ∷ []), length-append s (0 ∷ []), len);
      room = omega arith;
      cursor = omega arith;
      end = ended s (strlen s) (omega arith) ∙ end;
      characters = λ i h. rw (ended s i (omega (arith, h))) (n i h);
    }
