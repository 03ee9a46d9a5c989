-- ===== src/Descriptors/Gdt.antt =====
-- `encodeGdtEntry` and `initGdt` of src/gdt.c, against the layout of a segment descriptor.
use pygmali_os.Base.{
  ℕ, ◌+◌, ◌-◌, ◌*◌, ◌/◌, ◌%◌, ◌^◌, ◌<◌, ◌≡◌, refl, arith, List, [], ◌∷◌, ◌++◌, length, get_or, set,
  take, drop, replicate, u8, shl, shr, bit_and, bit_or,
}
use pygmali_os.Base.Bits.{bit_and_mask, bit_or_above}

-- `struct GDT`
pub record Segment : Type 0 where
  pub base : ℕ
  pub limit : ℕ
  pub access_byte : ℕ
  pub flags : ℕ

-- `encodeGdtEntry`: the eight bytes at `target` are `t`; the assignments are in the source's order.
unfoldable pub encode_gdt_entry : List ℕ → Segment → List ℕ
encode_gdt_entry t s =
    let t = set t 0 (bit_and s.limit 0xFF) in
    let t = set t 1 (bit_and (shr s.limit 8) 0xFF) in
    let t = set t 6 (bit_and (shr s.limit 16) 0x0F) in
    let t = set t 2 (bit_and s.base 0xFF) in
    let t = set t 3 (bit_and (shr s.base 8) 0xFF) in
    let t = set t 4 (bit_and (shr s.base 16) 0xFF) in
    let t = set t 7 (bit_and (shr s.base 24) 0xFF) in
    let t = set t 5 s.access_byte in set t 6 (u8 (bit_or (get_or t 6 0) (shl s.flags 4)))

-- The entry `&gdt[at]` of the table is replaced.
abbrev pub put_entry : ℕ → Segment → List ℕ → List ℕ
put_entry at s gdt = take at gdt ++ (encode_gdt_entry (take 8 (drop at gdt)) s ++ drop (at + 8) gdt)

abbrev pub segment : ℕ → ℕ → ℕ → ℕ → Segment
segment b l a f = record { base = b; limit = l; access_byte = a; flags = f }

-- The table that `initGdt` loads: 48 bytes, given the address of the task state segment, whose
-- size is 108 bytes.
unfoldable pub init_gdt : ℕ → List ℕ → List ℕ
unfolding encode_gdt_entry
init_gdt tss gdt =
    let gdt = put_entry 0 (segment 0 0 0 0) gdt in
    let gdt = put_entry 8 (segment 0 0xFFFFF 0x9A 0xC) gdt in
    let gdt = put_entry 16 (segment 0 0xFFFFF 0x92 0xC) gdt in
    let gdt = put_entry 24 (segment 0 0xFFFFF 0xFA 0xC) gdt in
    let gdt = put_entry 32 (segment 0 0xFFFFF 0xF2 0xC) gdt in
    put_entry 40 (segment tss (108 - 1) 0x89 0) gdt

-- How the processor reads a descriptor.
abbrev pub decode_gdt_entry : List ℕ → Segment
decode_gdt_entry t =
    segment (get_or t 2 0 + get_or t 3 0 * 2 ^ 8 + get_or t 4 0 * 2 ^ 16 + get_or t 7 0 * 2 ^ 24)
      (get_or t 0 0 + get_or t 1 0 * 2 ^ 8 + get_or t 6 0 % 16 * 2 ^ 16) (get_or t 5 0)
      (get_or t 6 0 / 16)

pub record IsSegment (s : Segment) : Type 0 where
  pub base_in : s.base < 2 ^ 32
  pub limit_in : s.limit < 2 ^ 20
  pub access_in : s.access_byte < 2 ^ 8
  pub flags_in : s.flags < 2 ^ 4

-- The processor reads back the segment that was encoded, whatever the eight bytes held before.
pub decode-encode_gdt_entry :
    (s : Segment) (a b c d e f g h : ℕ)
    → IsSegment s
    → decode_gdt_entry (encode_gdt_entry (a ∷ b ∷ c ∷ d ∷ e ∷ f ∷ g ∷ h ∷ []) s) ≡ s
unfolding encode_gdt_entry
decode-encode_gdt_entry s a b c d e f g h v = ground (
  arith,
  bit_and_mask 8 s.limit,
  bit_and_mask 8 (s.limit / 2 ^ 8),
  bit_and_mask 4 (s.limit / 2 ^ 16),
  bit_and_mask 8 s.base,
  bit_and_mask 8 (s.base / 2 ^ 8),
  bit_and_mask 8 (s.base / 2 ^ 16),
  bit_and_mask 8 (s.base / 2 ^ 24),
  bit_or_above 4 s.flags (bit_and (s.limit / 2 ^ 16) 0x0F),
)

-- The descriptor that starts at a byte of the table.
abbrev pub descriptor : ℕ → List ℕ → Segment
descriptor at gdt = decode_gdt_entry (drop at gdt)

-- The task state segment's descriptor in the table, which is all of it that depends on `tss`.
init_gdt-tss :
    (tss : ℕ)
    → tss < 2 ^ 32
    → descriptor 40 (init_gdt tss (replicate 48 0)) ≡ segment tss 107 0x89 0
unfolding init_gdt
init_gdt-tss tss h = ground (
  arith,
  bit_and_mask 8 tss,
  bit_and_mask 8 (tss / 2 ^ 8),
  bit_and_mask 8 (tss / 2 ^ 16),
  bit_and_mask 8 (tss / 2 ^ 24),
)

-- The table that is loaded holds the null descriptor, flat code and data segments of 4 GiB for the
-- kernel and for the user, and the task state segment.
pub descriptor-init_gdt :
    (tss : ℕ)
    → tss < 2 ^ 32
    → let gdt = init_gdt tss (replicate 48 0) in
      (length gdt ≡ 48)
      × (descriptor 0 gdt ≡ segment 0 0 0 0)
      × (descriptor 8 gdt ≡ segment 0 0xFFFFF 0x9A 0xC)
      × (descriptor 16 gdt ≡ segment 0 0xFFFFF 0x92 0xC)
      × (descriptor 24 gdt ≡ segment 0 0xFFFFF 0xFA 0xC)
      × (descriptor 32 gdt ≡ segment 0 0xFFFFF 0xF2 0xC)
      × (descriptor 40 gdt ≡ segment tss 107 0x89 0)
unfolding init_gdt
descriptor-init_gdt tss h = (refl, refl, refl, refl, refl, refl, init_gdt-tss tss h)
