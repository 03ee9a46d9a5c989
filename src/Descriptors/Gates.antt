-- ===== src/Descriptors/Gates.antt =====
-- `initIdt` of src/idt.c: the table of gates.
use pygmali_os.Base.{
  ℕ, zero, suc, ◌^◌, ◌<◌, ◌≡◌, ◌∙◌, refl, sym, ap, arith, inl, inr, Bool, true, List, [], ◌∷◌, ◌==◌,
  ltb, if◌then◌else◌, get_or, set, replicate, length, length-set, length-replicate, get_or-set,
  Bool-cases,
}
use pygmali_os.Base.{Option, none, some}
use pygmali_os.Base.Bits.{each_below, each_below→at}
use pygmali_os.Descriptors.Idt.{Gate, make_idt_entry, decode_gate, decode-make_idt_entry}

-- The routines that the gates lead to, those of src/include/idt.h and the three of the devices.
pub data Wrapper : Type 0 where
  write_to_buffer_wrapper update_time_wrapper pit_timer_wrapper syscall_handler_wrapper : Wrapper
  exception_wrapper : ℕ → Wrapper

-- The entries in the order in which they are made.
abbrev gates : List (ℕ × Wrapper)
gates =
    (33, write_to_buffer_wrapper)
    ∷ (40, update_time_wrapper)
    ∷ (32, pit_timer_wrapper)
    ∷ (0, exception_wrapper 0)
    ∷ (1, exception_wrapper 1)
    ∷ (2, exception_wrapper 2)
    ∷ (3, exception_wrapper 3)
    ∷ (4, exception_wrapper 4)
    ∷ (5, exception_wrapper 5)
    ∷ (6, exception_wrapper 6)
    ∷ (7, exception_wrapper 7)
    ∷ (8, exception_wrapper 8)
    ∷ (9, exception_wrapper 9)
    ∷ (10, exception_wrapper 10)
    ∷ (11, exception_wrapper 11)
    ∷ (12, exception_wrapper 12)
    ∷ (13, exception_wrapper 13)
    ∷ (14, exception_wrapper 14)
    ∷ (16, exception_wrapper 16)
    ∷ (17, exception_wrapper 17)
    ∷ (18, exception_wrapper 18)
    ∷ (19, exception_wrapper 19)
    ∷ (20, exception_wrapper 20)
    ∷ (21, exception_wrapper 21)
    ∷ (80, syscall_handler_wrapper)
    ∷ []

-- `address` is where the linker puts each routine.
unfoldable pub put_gates : (Wrapper → ℕ) → List (ℕ × Wrapper) → List ℕ → List ℕ
put_gates address [] idt = idt
put_gates address ((i, w) ∷ rest) idt =
    put_gates address rest (set idt i (make_idt_entry (address w) 0x08 0xE 0))

unfoldable pub init_idt : (Wrapper → ℕ) → List ℕ → List ℕ
init_idt address idt = put_gates address gates idt

-- What each interrupt is for.
abbrev pub handler : ℕ → Option Wrapper
handler i =
    if ltb i 22
    then if i == 15 then none else some (exception_wrapper i)
    else if i == 32
    then some pit_timer_wrapper
    else if i == 33
    then some write_to_buffer_wrapper
    else if i == 40
    then some update_time_wrapper
    else if i == 80
    then some syscall_handler_wrapper
    else none

-- The gate of the kernel's code segment to a routine, and the entry that is no gate.
abbrev pub gate_to : (Wrapper → ℕ) → Option Wrapper → Gate
gate_to address none = record { offset = 0; selector = 0; kind = 0; dpl = 0; present = 0 }
gate_to address (some w) = record {
  offset = address w;
  selector = 0x08;
  kind = 0xE;
  dpl = 0;
  present = 1;
}

-- The last entry for a number.
abbrev find : ℕ → List (ℕ × Wrapper) → Option Wrapper → Option Wrapper
find i [] before = before
find i ((j, w) ∷ rest) before = find i rest (if i == j then some w else before)

abbrev entry_for : (Wrapper → ℕ) → Option Wrapper → ℕ
entry_for address none = 0
entry_for address (some w) = make_idt_entry (address w) 0x08 0xE 0

abbrev InTable : List (ℕ × Wrapper) → Type 0
InTable [] = Unit
InTable ((i, w) ∷ rest) = (i < 256) × InTable rest

put_gates-find :
    (address : Wrapper → ℕ) (gs : List (ℕ × Wrapper)) (idt : List ℕ) (i : ℕ)
    (before : Option Wrapper)
    → InTable gs
    → length idt ≡ 256
    → get_or idt i 0 ≡ entry_for address before
    → get_or (put_gates address gs idt) i 0 ≡ entry_for address (find i gs before)
unfolding put_gates
put_gates-find address [] idt i before t l e = e
put_gates-find address ((j, w) ∷ rest) idt i before (t, ts) l e =
    let x = make_idt_entry (address w) 0x08 0xE 0 in
    put_gates-find address rest (set idt j x) i (if i == j then some w else before) ts
      (length-set idt j x ∙ l)
      (get_or-set idt j i x 0 (omega (arith, l))
        ∙ elim (Bool-cases (i == j)) [ inl h ↦ rw h refl | inr h ↦ rw h e ])

tag : Option Wrapper → ℕ
tag none = 0
tag (some write_to_buffer_wrapper) = 1
tag (some update_time_wrapper) = 2
tag (some pit_timer_wrapper) = 3
tag (some syscall_handler_wrapper) = 4
tag (some (exception_wrapper n)) = 5

vector : Option Wrapper → ℕ
vector (some (exception_wrapper n)) = n
vector _ = 0

untag : ℕ → ℕ → Option Wrapper
untag t n =
    if t == 0
    then none
    else if t == 1
    then some write_to_buffer_wrapper
    else if t == 2
    then some update_time_wrapper
    else if t == 3
    then some pit_timer_wrapper
    else if t == 4
    then some syscall_handler_wrapper
    else some (exception_wrapper n)

untag-tag : (w : Option Wrapper) → untag (tag w) (vector w) ≡ w
unfolding tag vector untag
untag-tag none = refl
untag-tag (some write_to_buffer_wrapper) = refl
untag-tag (some update_time_wrapper) = refl
untag-tag (some pit_timer_wrapper) = refl
untag-tag (some syscall_handler_wrapper) = refl
untag-tag (some (exception_wrapper n)) = refl

tag_test : ℕ → Bool
tag_test i = tag (find i gates none) == tag (handler i)

vector_test : ℕ → Bool
vector_test i = vector (find i gates none) == vector (handler i)

all_tags : each_below tag_test 256 ≡ true
unfolding each_below tag_test tag
all_tags = refl

all_vectors : each_below vector_test 256 ≡ true
unfolding each_below vector_test vector
all_vectors = refl

same_number : (a b : ℕ) → (a == b) ≡ true → a ≡ b
same_number a b h = ground arith

get_or-zeros : (n i : ℕ) → get_or {A = ℕ} (replicate n 0) i 0 ≡ 0
get_or-zeros zero i = refl
get_or-zeros (suc n) zero = refl
get_or-zeros (suc n) (suc i) = get_or-zeros n i

gates-InTable : InTable gates
gates-InTable = ground arith

find-handler : (i : ℕ) → i < 256 → find i gates none ≡ handler i
unfolding tag_test vector_test
find-handler i h =
    let same_tag =
      same_number (tag (find i gates none)) (tag (handler i))
        (each_below→at tag_test 256 i all_tags h) in
    let same_vector =
      same_number (vector (find i gates none)) (vector (handler i))
        (each_below→at vector_test 256 i all_vectors h) in
    sym (untag-tag (find i gates none))
    ∙ ap (λ t. untag t (vector (find i gates none))) same_tag
    ∙ ap (λ n. untag (tag (handler i)) n) same_vector
    ∙ untag-tag (handler i)

decode-entry_for :
    (address : Wrapper → ℕ) (w : Option Wrapper)
    → ((v : Wrapper) → address v < 2 ^ 32)
    → decode_gate (entry_for address w) ≡ gate_to address w
decode-entry_for address none h = refl
decode-entry_for address (some w) h =
    decode-make_idt_entry (address w) 0x08 0xE 0 (h w) (omega arith) (omega arith) (omega arith)

-- With every routine at an address of 32 bits and the table zero before, the processor finds
-- behind each number below 256 a present ring 0 gate of the kernel's code segment to the routine
-- of that interrupt: those of the exceptions 0 to 21 but 15, of the timer at 32, the keyboard at
-- 33, the clock at 40 and the system call at 80. At every other number no gate is present.
pub init_idt-gates :
    (address : Wrapper → ℕ) (i : ℕ)
    → ((w : Wrapper) → address w < 2 ^ 32)
    → i < 256
    → decode_gate (get_or (init_idt address (replicate 256 0)) i 0) ≡ gate_to address (handler i)
unfolding init_idt
init_idt-gates address i h below =
    ap decode_gate (
      put_gates-find address gates (replicate 256 0) i none gates-InTable
        (length-replicate {A = ℕ} 256 0) (get_or-zeros 256 i))
    ∙ decode-entry_for address (find i gates none) h
    ∙ ap (gate_to address) (find-handler i below)
