-- ===== src/Drivers/Pic/Lines.antt =====
-- The masks of drivers/pic.c, one line at a time.
use mira_os.Base.{
  ℕ, ◌-◌, ◌<◌, ◌≡◌, true, false, Bool, some, ltb, ◌==◌, if◌then◌else◌, has_bit, set_bit, clear_bit,
  has_bit-set_bit, has_bit-clear_bit, arith, Bool-cases, inl, inr,
}
use mira_os.Drivers.Pic.{Masks, or_bit, and_not_bit, change_mask, pic_mask_irq, pic_unmask_irq}

-- The line is masked.
abbrev pub is_masked : Masks → ℕ → Bool
is_masked s irq = if ltb irq 8 then has_bit s.first irq else has_bit s.second (irq - 8)

-- Both masks are bytes.
pub record AreBytes (s : Masks) : Type 0 where
  pub first_byte : s.first < 256
  pub second_byte : s.second < 256

-- `pic_mask_irq` masks its line, of the sixteen, and `pic_unmask_irq` unmasks it; the fifteen others stay as
-- they were.
pub pic_mask_irq-masked :
    (s : Masks) (irq : ℕ)
    → AreBytes s
    → irq < 16
    → (masked unmasked : Masks) × (pic_mask_irq irq s ≡ some masked)
      × (pic_unmask_irq irq s ≡ some unmasked)
      × ((j : ℕ) → j < 16 → is_masked masked j ≡ (if irq == j then true else is_masked s j))
      × ((j : ℕ) → j < 16 → is_masked unmasked j ≡ (if irq == j then false else is_masked s j))
unfolding pic_mask_irq pic_unmask_irq change_mask or_bit and_not_bit
pic_mask_irq-masked s irq bytes lt = elim (Bool-cases (ltb irq 8)) [
  | inl low ↦ (
    record s { first = set_bit s.first irq },
    record s { first = clear_bit s.first irq },
    ground (arith, low),
    ground (arith, low),
    λ j lt'.
        ground (arith, low, has_bit-set_bit s.first irq bytes.first_byte (ground (arith, low)) j),
    λ j lt'.
        ground (arith, low, has_bit-clear_bit s.first irq bytes.first_byte (ground (arith, low)) j),
  )
  | inr high ↦ (
    record s { second = set_bit s.second (irq - 8) },
    record s { second = clear_bit s.second (irq - 8) },
    ground (arith, high, lt),
    ground (arith, high, lt),
    λ j lt'. ground (
      arith,
      high,
      has_bit-set_bit s.second (irq - 8) bytes.second_byte (omega (arith, lt)) (j - 8),
    ),
    λ j lt'. ground (
      arith,
      high,
      has_bit-clear_bit s.second (irq - 8) bytes.second_byte (omega (arith, lt)) (j - 8),
    ),
  )
]
