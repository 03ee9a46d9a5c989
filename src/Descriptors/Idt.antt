-- ===== src/Descriptors/Idt.antt =====
-- `makeIDTEntry` of src/idt.c, against the layout of a gate descriptor.
use pygmali_os.Base.{
  ℕ, ◌+◌, ◌*◌, ◌/◌, ◌%◌, ◌^◌, ◌<◌, ◌≡◌, arith, shl, shr, bit_and, bit_or, ap, sym, refl,
}
use native.Mathlib.Nat.{add-zero}
use pygmali_os.Base.Bits.{bit_and_mask, bit_or_fields, bit_or_above, bit_or_split, bit_or-zero}

-- The entry written through `*entry`.
pub make_idt_entry : ℕ → ℕ → ℕ → ℕ → ℕ
make_idt_entry offset selector gate dpl =
    let result = bit_and offset 0xFFFF in
    let result = bit_or result (shl (shr offset 16) 48) in
    let result = bit_or result (shl selector 16) in
    let weird_bytes = bit_or (bit_or (shl gate 40) (shl dpl 45)) (shl 1 47) in
    bit_or result weird_bytes

pub record Gate : Type 0 where
  pub offset : ℕ
  pub selector : ℕ
  pub kind : ℕ
  pub dpl : ℕ
  pub present : ℕ

-- How the processor reads a gate.
abbrev pub decode_gate : ℕ → Gate
decode_gate e = record {
  offset = e / 2 ^ 48 * 2 ^ 16 + e % 2 ^ 16;
  selector = e / 2 ^ 16 % 2 ^ 16;
  kind = e / 2 ^ 40 % 2 ^ 5;
  dpl = e / 2 ^ 45 % 2 ^ 2;
  present = e / 2 ^ 47 % 2;
}

module _ (offset selector gate dpl : ℕ) (ho : offset < 2 ^ 32) (hs : selector < 2 ^ 16)
    (hg : gate < 2 ^ 4) (hd : dpl < 2 ^ 2) where
  abbrev low_word : ℕ
  low_word = selector * 2 ^ 16 + offset % 2 ^ 16

  abbrev attributes : ℕ
  attributes = 2 ^ 15 + (dpl * 2 ^ 13 + gate * 2 ^ 8)

  weird_sum : bit_or (bit_or (gate * 2 ^ 40) (dpl * 2 ^ 45)) (1 * 2 ^ 47) ≡ attributes * 2 ^ 32
  weird_sum =
      rw
        (
          bit_or_above 45 dpl (gate * 2 ^ 40) (omega arith),
          bit_or_above 47 1 (dpl * 2 ^ 45 + gate * 2 ^ 40) (omega arith),
        )
        (omega arith)

  offset_sum :
      bit_or (bit_and offset 0xFFFF) (offset / 2 ^ 16 * 2 ^ 48)
      ≡ (offset / 2 ^ 16 * 2 ^ 32) * 2 ^ 16 + offset % 2 ^ 16
  offset_sum =
      rw (bit_and_mask 16 offset, bit_or_above 48 (offset / 2 ^ 16) (offset % 2 ^ 16) (omega arith))
        (omega arith)

  with_selector :
      bit_or ((offset / 2 ^ 16 * 2 ^ 32) * 2 ^ 16 + offset % 2 ^ 16) (selector * 2 ^ 16)
      ≡ (offset / 2 ^ 16 * 2 ^ 16) * 2 ^ 32 + low_word
  with_selector = omega (
    arith,
    bit_or_split 16 (offset / 2 ^ 16 * 2 ^ 32) selector (offset % 2 ^ 16) 0,
    bit_or_fields 32 (offset / 2 ^ 16) selector,
    bit_or-zero (offset % 2 ^ 16),
    ap (λ (t : ℕ). bit_or ((offset / 2 ^ 16 * 2 ^ 32) * 2 ^ 16 + offset % 2 ^ 16) t)
        (sym (add-zero (selector * 2 ^ 16))),
  )

  with_attributes :
      bit_or ((offset / 2 ^ 16 * 2 ^ 16) * 2 ^ 32 + low_word) (attributes * 2 ^ 32)
      ≡ offset / 2 ^ 16 * 2 ^ 48 + attributes * 2 ^ 32 + low_word
  with_attributes = omega (
    arith,
    bit_or_split 32 (offset / 2 ^ 16 * 2 ^ 16) attributes low_word 0,
    bit_or_fields 16 (offset / 2 ^ 16) attributes,
    bit_or-zero low_word,
    ap (λ (t : ℕ). bit_or ((offset / 2 ^ 16 * 2 ^ 16) * 2 ^ 32 + low_word) t)
        (sym (add-zero (attributes * 2 ^ 32))),
  )

  make_idt_entry_sum :
      make_idt_entry offset selector gate dpl
      ≡ offset / 2 ^ 16 * 2 ^ 48 + attributes * 2 ^ 32 + low_word
  unfolding make_idt_entry
  make_idt_entry_sum = rw (offset_sum, with_selector, weird_sum, with_attributes) refl

  -- The processor reads back the handler's address, its segment, the kind of gate and its
  -- privilege level, and finds the gate present.
  pub decode-make_idt_entry :
      decode_gate (make_idt_entry offset selector gate dpl)
      ≡ record { offset = offset; selector = selector; kind = gate; dpl = dpl; present = 1 }
  decode-make_idt_entry = rw make_idt_entry_sum (ground arith)
