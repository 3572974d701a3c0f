-- ===== src/Drivers/Mouse/Packets.antt =====
-- Packets as the mouse sends them.
use mira_os.Base.{
  ℕ, ◌<◌, ◌≡◌, refl, true, false, ℤ, pos, negsuc, ◌+ℤ◌, ◌-ℤ◌, has_bit, arith, neg_part, List, [],
  ◌∷◌, ◌++◌, ap, ◌∙◌,
}
use Prim.Native.Nat.{bit_and}
use mira_os.Drivers.Mouse.{Mouse, clamp, delta, finish_packet, mouse_irq_handler}

-- The handler's state between two interrupts: a position that is not negative, and a place in a packet.
pub record IsValid (m : Mouse) : Type 0 where
  pub x_in : neg_part m.mouse_x ≡ 0
  pub y_in : neg_part m.mouse_y ≡ 0
  pub cycle_in : m.mouse_cycle < 3

clamp_lem : (a : ℤ) → neg_part (clamp a) ≡ 0
unfolding clamp
clamp_lem (pos n) = refl
clamp_lem (negsuc n) = refl

-- Whatever bytes arrive, the position stays non-negative and the handler inside a packet of three.
mouse_irq_handler-IsValid : (m : Mouse) (byte : ℕ) → IsValid m → IsValid (mouse_irq_handler m byte)
unfolding mouse_irq_handler finish_packet
mouse_irq_handler-IsValid m byte v = ground (
  arith,
  clamp_lem (m.mouse_x +ℤ delta m.packet1 (has_bit m.packet0 4)),
  clamp_lem (m.mouse_y -ℤ delta byte (has_bit m.packet0 5)),
)

handle : Mouse → List ℕ → Mouse
handle m [] = m
handle m (b ∷ bytes) = handle (mouse_irq_handler m b) bytes

-- No byte of the list has bit 3.
abbrev pub OutOfStep : List ℕ → Type 0
OutOfStep [] = Unit
OutOfStep (b ∷ bytes) = (has_bit b 3 ≡ false) × OutOfStep bytes

-- From the start of a packet, bytes without bit 3 are skipped, and the first byte that has it begins a
-- packet: with the next two bytes the position moves right by the second and up by the third, both
-- signed, the buttons are the low three bits of the first, and the handler is back at the start.
handle-packet :
    (m : Mouse) (skipped : List ℕ) (b0 b1 b2 : ℕ) (rest : List ℕ)
    → m.mouse_cycle ≡ 0
    → OutOfStep skipped
    → has_bit b0 3 ≡ true
    → (m' : Mouse) × (handle m (skipped ++ (b0 ∷ b1 ∷ b2 ∷ rest)) ≡ handle m' rest)
      × (m'.mouse_cycle ≡ 0)
      × (m'.mouse_x ≡ clamp (m.mouse_x +ℤ delta b1 (has_bit b0 4)))
      × (m'.mouse_y ≡ clamp (m.mouse_y -ℤ delta b2 (has_bit b0 5)))
      × (m'.mouse_buttons ≡ bit_and b0 7)
      × (m'.mouse_moved ≡ true)
unfolding handle mouse_irq_handler finish_packet
handle-packet m [] b0 b1 b2 rest at skip start =
    let one : Mouse = record m { packet0 = b0; mouse_cycle = 1 } in
    let two : Mouse = record one { packet1 = b1; mouse_cycle = 2 } in
    let first : mouse_irq_handler m b0 ≡ one = ground arith in
    (
      finish_packet two b2,
      ap (λ t. handle (mouse_irq_handler (mouse_irq_handler t b1) b2) rest) first,
      refl,
      refl,
      refl,
      refl,
      refl,
    )
handle-packet m (s ∷ skipped) b0 b1 b2 rest at (no_start, skip) start =
    let (m', runs, cycle, x, y, buttons, moved) =
      handle-packet (record m { packet0 = s }) skipped b0 b1 b2 rest at skip start in
    let first : mouse_irq_handler m s ≡ record m { packet0 = s } = ground arith in
    (
      m',
      ap (λ t. handle t (skipped ++ (b0 ∷ b1 ∷ b2 ∷ rest))) first ∙ runs,
      cycle,
      x,
      y,
      buttons,
      moved,
    )
