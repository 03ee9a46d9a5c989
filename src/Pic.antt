-- ===== src/Pic.antt =====
-- src/pic.c: the masks of the two interrupt controllers. A mask register has a bit for each of its
-- eight lines, which is set while the line is off.
use pygmali_os.Base.{
  ℕ, ◌-◌, ◌<◌, ◌≡◌, inl, inr, refl, arith, true, false, List, [], ◌∷◌, ◌==◌, ltb, if◌then◌else◌, u8,
  u16, shl, bit_and, bit_or, Bool-cases,
}
use pygmali_os.Io.{IoEvent, outb, inb, io_wait}
use pygmali_os.Paging.Bytes.{bit, bit-set, bit-clear}

-- The port and the bit of a line.
abbrev pub mask_port : ℕ → ℕ
mask_port line = if ltb line 8 then 0x21 else 0xA1

abbrev pub mask_bit : ℕ → ℕ
mask_bit line = if ltb line 8 then line else line - 8

-- `read` gives the byte that each port answers with.
unfoldable pub irq_set_mask : ℕ → (ℕ → ℕ) → List IoEvent
irq_set_mask line read =
    let port = mask_port line in
    inb port ∷ outb port (u8 (bit_or (read port) (shl 1 (mask_bit line)))) ∷ []

unfoldable pub irq_clear_mask : ℕ → (ℕ → ℕ) → List IoEvent
irq_clear_mask line read =
    let port = mask_port line in
    inb port ∷ outb port (u8 (bit_and (read port) (0xFFFFFFFF - shl 1 (mask_bit line)))) ∷ []

-- The two controllers are set up, with a wait behind each step, and their masks are written.
unfoldable pub pic_remap : ℕ → ℕ → List IoEvent
pic_remap offset1 offset2 =
    outb 0x20 0x11
    ∷ io_wait
    ∷ outb 0xA0 0x11
    ∷ io_wait
    ∷ outb 0x21 (u8 offset1)
    ∷ io_wait
    ∷ outb 0xA1 (u8 offset2)
    ∷ io_wait
    ∷ outb 0x21 (shl 1 2)
    ∷ io_wait
    ∷ outb 0xA1 2
    ∷ io_wait
    ∷ outb 0x21 1
    ∷ io_wait
    ∷ outb 0xA1 1
    ∷ io_wait
    ∷ outb 0x21 0xF9
    ∷ outb 0xA1 0xFE
    ∷ []

-- The mask that the driver keeps, and the write of it.
unfoldable pub unmask_timer : ℕ → ℕ × List IoEvent
unmask_timer masked_io1 = let mask = bit_and masked_io1 0xFE in (mask, outb 0x21 mask ∷ [])

unfoldable pub pic_disable : List IoEvent
pic_disable = outb 0x21 0xFF ∷ outb 0xA1 0xFF ∷ []

-- A register of both controllers, the second one's in the high byte. The two reads, whose order C
-- leaves open, stand in the order in which they are written.
unfoldable pub pic_get_irq_reg : ℕ → (ℕ → ℕ) → ℕ × List IoEvent
pic_get_irq_reg ocw3 read = (
  u16 (bit_or (shl (read 0xA0) 8) (read 0x20)),
  outb 0x20 ocw3 ∷ outb 0xA0 ocw3 ∷ inb 0xA0 ∷ inb 0x20 ∷ [],
)

unfoldable pub pic_get_irr : (ℕ → ℕ) → ℕ × List IoEvent
pic_get_irr read = pic_get_irq_reg 0x0A read

unfoldable pub pic_get_isr : (ℕ → ℕ) → ℕ × List IoEvent
pic_get_isr read = pic_get_irq_reg 0x0B read

-- Turning a line off or on reads one mask register and writes it back, with the bit of that line
-- set or cleared and the seven other bits as they were; the first eight lines are the first
-- controller's, the others the second one's.
pub irq_set_mask-bits :
    (line : ℕ) (read : ℕ → ℕ)
    → line < 16
    → ((p : ℕ) → read p < 256)
    → let p : ℕ = (if ltb line 8 then 0x21 else 0xA1) in
      let k : ℕ = (if ltb line 8 then line else line - 8) in
      (on : ℕ) × (off : ℕ) × (irq_set_mask line read ≡ inb p ∷ outb p off ∷ [])
      × (irq_clear_mask line read ≡ inb p ∷ outb p on ∷ [])
      × ((j : ℕ)
          → j < 8
          → (bit off j ≡ (if j == k then true else bit (read p) j))
            × (bit on j ≡ (if j == k then false else bit (read p) j)))
unfolding irq_set_mask irq_clear_mask
irq_set_mask-bits line read l h = elim (Bool-cases (ltb line 8)) [
  | inl e ↦
      let low : line < 8 = ground arith in
      rw e (
        _,
        _,
        refl,
        refl,
        λ j m. (
          bit-set line j (read 0x21) low m (h 0x21),
          bit-clear line j (read 0x21) low m (h 0x21),
        ),
      )
  | inr e ↦
      let low : line - 8 < 8 = ground arith in
      rw e (
        _,
        _,
        refl,
        refl,
        λ j m. (
          bit-set (line - 8) j (read 0xA1) low m (h 0xA1),
          bit-clear (line - 8) j (read 0xA1) low m (h 0xA1),
        ),
      )
]
