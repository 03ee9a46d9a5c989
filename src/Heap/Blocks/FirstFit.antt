-- ===== src/Heap/Blocks/FirstFit.antt =====
-- First fit: what it grants.
use pygmali_os.Base.{
  ℕ, ◌+◌, ◌-◌, ◌≤◌, ◌<◌, ◌≡◌, ◌≢◌, ◌⊎◌, refl, ap, sym, append-nil, inl, inr, arith, true, false,
  ◌&&◌, Option, none, some, List, [], ◌∷◌, ◌++◌, leb, leb→le, if◌then◌else◌, length, Bool-cases,
}
use pygmali_os.Heap.Blocks.Defs.{Block, used, extent, carve, past, first_fit, live}

-- What an allocation of `n` bytes at offset `o` does to the list of blocks: one more region is
-- allocated, big enough, and the rest stays.
pub record Grants (p n o : ℕ) (bs bs' : List Block) : Type 0 where
  pub granted : ℕ
  pub enough : n ≤ granted
  pub before : List (ℕ × ℕ)
  pub behind : List (ℕ × ℕ)
  pub live_before : live p bs ≡ before ++ behind
  pub live_after : live p bs' ≡ before ++ ((p + o + 12, granted) ∷ behind)

-- A region that is big enough is big enough for less.
pub Grants-weaken :
    (p m n o : ℕ) (bs bs' : List Block) → m ≤ n → Grants p n o bs bs' → Grants p m o bs bs'
Grants-weaken p m n o bs bs' h g = record {
  granted = g.granted;
  enough = omega (arith, g.enough);
  before = g.before;
  behind = g.behind;
  live_before = g.live_before;
  live_after = g.live_after;
}

Grants-past :
    (p n o : ℕ) (b : Block) (bs bs' : List Block)
    → Grants (p + 12 + b.size) n o bs bs'
    → Grants p n (12 + b.size + o) (b ∷ bs) (b ∷ bs')
Grants-past p n o b bs bs' g = record {
  granted = g.granted;
  enough = g.enough;
  before = if b.free then g.before else (p + 12, b.size) ∷ g.before;
  behind = g.behind;
  live_before = ground (arith, g.live_before);
  live_after = ground (arith, g.live_after, address);
}
  where
    address : p + 12 + b.size + o + 12 ≡ p + (12 + b.size + o) + 12
    address = omega arith

Grants-carve :
    (p n : ℕ) (b : Block) (bs : List Block)
    → b.free ≡ true
    → n ≤ b.size
    → Grants p n 0 (b ∷ bs) (carve n b bs)
Grants-carve p n b bs f h = elim (Bool-cases (leb (12 + n + 4) b.size)) [
  | inl e ↦ record {
    granted = n;
    enough = omega arith;
    before = [];
    behind = live (p + 12 + b.size) bs;
    live_before = rw f;
    live_after = rw e (ground (arith, ap (λ q. live q bs) (rest e)));
  }
  | inr e ↦ record {
    granted = b.size;
    enough = h;
    before = [];
    behind = live (p + 12 + b.size) bs;
    live_before = rw f;
    live_after = rw e (ground arith);
  }
]
  where
    rest : leb (12 + n + 4) b.size ≡ true → p + 12 + n + 12 + (b.size - 12 - n) ≡ p + 12 + b.size
    rest e = omega (arith, leb→le (12 + n + 4) b.size e)

-- A step over a block that is not taken.
past-eq-some :
    (b : Block) (r : Option (ℕ × List Block)) {o : ℕ} {bs' : List Block}
    → past b r ≡ some (o, bs')
    → (i : ℕ) × (cs : List Block) × (r ≡ some (i, cs)) × (o ≡ 12 + b.size + i) × (bs' ≡ b ∷ cs)
past-eq-some b none e = cc
past-eq-some b (some (i, cs)) e = (i, cs, refl, ground arith, ground arith)

pub first_fit-nil : (n : ℕ) {r : ℕ × List Block} → first_fit n [] ≢ some r
unfolding first_fit
first_fit-nil n e = cc

past-eq-none : (b : Block) (r : Option (ℕ × List Block)) → past b r ≡ none → r ≡ none
past-eq-none b none e = refl
past-eq-none b (some (o, bs)) e = cc

-- Where first fit finds no block, it takes none on the way.
pub first_fit-eq-none :
    (n : ℕ) (b : Block) (bs : List Block)
    → first_fit n (b ∷ bs) ≡ none
    → ((b.free && leb n b.size) ≡ false) × (first_fit n bs ≡ none)
unfolding first_fit
first_fit-eq-none n b bs e = elim (Bool-cases (b.free && leb n b.size)) [
  | inl t ↦ cc (rw t at e)
  | inr t ↦ (t, past-eq-none b (first_fit n bs) (rw t at e))
]

-- Where first fit finds a block, it is the first one or one behind it.
pub first_fit-eq-some :
    (n : ℕ) (b : Block) (bs : List Block) {o : ℕ} {bs' : List Block}
    → first_fit n (b ∷ bs) ≡ some (o, bs')
    → (((b.free && leb n b.size) ≡ true) × (o ≡ 0) × (bs' ≡ carve n b bs))
      ⊎ ((i : ℕ) × (cs : List Block) × ((b.free && leb n b.size) ≡ false)
          × (first_fit n bs ≡ some (i, cs))
          × (o ≡ 12 + b.size + i)
          × (bs' ≡ b ∷ cs))
unfolding first_fit
first_fit-eq-some n b bs {o} {bs'} e = elim (Bool-cases (b.free && leb n b.size)) [
  | inl t ↦ inl (t, ground arith, ground arith)
  | inr t ↦
      let (i, cs, er, eo, eb) = past-eq-some b (first_fit n bs) (rw t at e) in
      inr (i, cs, t, er, eo, eb)
]

pub first_fit-Grants :
    (p n : ℕ) (bs : List Block) {o : ℕ} {bs' : List Block}
    → first_fit n bs ≡ some (o, bs')
    → Grants p n o bs bs'
unfolding first_fit
first_fit-Grants p n [] e = cc
first_fit-Grants p n (b ∷ bs) {o} {bs'} e = elim (first_fit-eq-some n b bs e) [
  | inl (t, eo, eb) ↦ rw (eo, eb) (Grants-carve p n b bs (ground arith) (ground arith))
  | inr (i, cs, t, er, eo, eb) ↦
      rw (eo, eb) (Grants-past p n i b bs cs (first_fit-Grants (p + 12 + b.size) n bs er))
]

pub first_fit-le-extent :
    (n : ℕ) (bs : List Block) {o : ℕ} {bs' : List Block}
    → first_fit n bs ≡ some (o, bs')
    → (o ≤ extent bs) × (extent bs' ≡ extent bs) × (0 < length bs')
first_fit-le-extent n [] e = absurd (first_fit-nil n e)
first_fit-le-extent n (b ∷ bs) {o} {bs'} e = elim (first_fit-eq-some n b bs e) [
  | inl (t, eo, eb) ↦ rw (eo, eb) (ground arith)
  | inr (i, cs, t, er, eo, eb) ↦ rw (eo, eb) (ground (arith, first_fit-le-extent n bs er))
]

live-append :
    (p n : ℕ) (bs : List Block)
    → live p (bs ++ used n ∷ []) ≡ live p bs ++ (p + extent bs + 12, n) ∷ []
live-append p n [] = ground arith
live-append p n (b ∷ bs) = ground (arith, live-append (p + 12 + b.size) n bs, address)
  where
    address : p + 12 + b.size + extent bs + 12 ≡ p + (12 + b.size + extent bs) + 12
    address = omega arith

-- A block put behind all others.
pub Grants-append : (p n : ℕ) (bs : List Block) → Grants p n (extent bs) bs (bs ++ used n ∷ [])
Grants-append p n bs = record {
  granted = n;
  enough = omega arith;
  before = live p bs;
  behind = [];
  live_before = sym (append-nil (live p bs));
  live_after = live-append p n bs;
}
