-- ===== src/Drivers/Pic.antt =====
-- drivers/pic.c, and the part of drivers/timer.c that drives the machine: the bytes written to ports, in their
-- order, and the masks of the two controllers, which are what their data ports hold.
pub mod Lines
use mira_os.Base.{
  ℕ, ◌+◌, ◌-◌, ◌/◌, ◌%◌, ◌^◌, List, [], ◌∷◌, ◌++◌, Option, none, some, ltb, leb, set_bit, clear_bit,
  if◌then◌else◌,
}

abbrev pub pic1_cmd : ℕ
pic1_cmd = 0x20

abbrev pub pic1_data : ℕ
pic1_data = 0x21

abbrev pub pic2_cmd : ℕ
pic2_cmd = 0xA0

abbrev pub pic2_data : ℕ
pic2_data = 0xA1

-- The calls `outb(port, value)`
abbrev pub Writes : Type 0
Writes = List (ℕ × ℕ)

unfoldable pub pic_init : Writes
pic_init =
    (pic1_cmd, 0x11)
    ∷ (pic2_cmd, 0x11)
    ∷ (pic1_data, 0x20)
    ∷ (pic2_data, 0x28)
    ∷ (pic1_data, 0x04)
    ∷ (pic2_data, 0x02)
    ∷ (pic1_data, 0x01)
    ∷ (pic2_data, 0x01)
    ∷ (pic1_data, 0xFF)
    ∷ (pic2_data, 0xFF)
    ∷ []

-- `pic_remap` of arch/x86_64/isr.c
unfoldable pub pic_remap : Writes
pic_remap =
    (0x20, 0x11)
    ∷ (0xA0, 0x11)
    ∷ (0x21, 0x20)
    ∷ (0xA1, 0x28)
    ∷ (0x21, 0x04)
    ∷ (0xA1, 0x02)
    ∷ (0x21, 0x01)
    ∷ (0xA1, 0x01)
    ∷ (0x21, 0x0)
    ∷ (0xA1, 0x0)
    ∷ []

unfoldable pub drivers_pic_send_eoi : ℕ → Writes
drivers_pic_send_eoi irq =
    if leb 8 irq then (pic2_cmd, 0x20) ∷ (pic1_cmd, 0x20) ∷ [] else (pic1_cmd, 0x20) ∷ []

unfoldable pub pic_send_eoi : ℕ → Writes
unfolding drivers_pic_send_eoi
pic_send_eoi irq = drivers_pic_send_eoi irq

-- What the data ports of the two controllers hold
pub record Masks : Type 0 where
  pub first : ℕ
  pub second : ℕ

-- `(uint8_t)(value | (1 << k))` and `(uint8_t)(value & ~(1 << k))` of a byte: a bit past the eighth leaves
-- no trace, and a shift past the sign of `int` is undefined.
unfoldable pub or_bit : ℕ → ℕ → Option ℕ
or_bit value k = if leb 31 k then none else some (if ltb k 8 then set_bit value k else value)

unfoldable pub and_not_bit : ℕ → ℕ → Option ℕ
and_not_bit value k = if leb 31 k then none else some (if ltb k 8 then clear_bit value k else value)

-- The value for the port that `irq` chooses
unfoldable pub change_mask : (ℕ → ℕ → Option ℕ) → ℕ → Masks → Option Masks
change_mask change irq s =
    if ltb irq 8
    then elim (change (s.first) irq) [
      | none ↦ none
      | some value ↦ some (record s { first = value })
    ]
    else elim (change (s.second) (irq - 8)) [
      | none ↦ none
      | some value ↦ some (record s { second = value })
    ]

unfoldable pub pic_mask_irq : ℕ → Masks → Option Masks
unfolding change_mask or_bit
pic_mask_irq irq s = change_mask or_bit irq s

unfoldable pub pic_unmask_irq : ℕ → Masks → Option Masks
unfolding change_mask and_not_bit
pic_unmask_irq irq s = change_mask and_not_bit irq s

-- `timer_init`: the counter and the writes of the divisor for 100 ticks in a second
unfoldable pub timer_init : ℕ × Writes
timer_init =
    let divisor = 1193182 / 100 in
    (0, (0x43, 0x36) ∷ (0x40, divisor % 2 ^ 8) ∷ (0x40, divisor / 2 ^ 8 % 2 ^ 8) ∷ [])
