-- ===== src/Drivers/Mouse.antt =====
-- drivers/ps2/mouse.c: packets of three bytes, one byte for each interrupt. The byte read from port 0x60
-- is an argument. The position is an integer without the bounds of `int32_t`: the code adds at most 127
-- at a time and never checks for overflow.
pub mod Packets
use mira_os.Base.{
  ℕ, zero, suc, ◌+◌, Bool, true, false, ◌==◌, if◌then◌else◌, ℤ, pos, negsuc, ◌+ℤ◌, ◌-ℤ◌, has_bit,
  not,
}
use Prim.Native.Nat.{bit_and, bit_or}
use mira_os.Common.CString.{to_char}

pub record Mouse : Type 0 where
  pub mouse_x : ℤ
  pub mouse_y : ℤ
  pub mouse_buttons : ℕ
  pub mouse_moved : Bool
  pub mouse_cycle : ℕ
  pub packet0 : ℕ
  pub packet1 : ℕ
  pub packet2 : ℕ

-- `if (x < 0) x = 0;`
unfoldable pub clamp : ℤ → ℤ
clamp (pos n) = pos n
clamp (negsuc n) = pos 0

-- `int8_t d = byte; if (flag) d |= 0xF0;`
unfoldable pub delta : ℕ → Bool → ℤ
delta byte flag = to_char (if flag then bit_or byte 0xF0 else byte)

-- The last byte of a packet
unfoldable pub finish_packet : Mouse → ℕ → Mouse
finish_packet m byte =
    let dx = delta m.packet1 (has_bit m.packet0 4) in
    let dy = delta byte (has_bit m.packet0 5) in
    record m {
      packet2 = byte;
      mouse_cycle = 0;
      mouse_x = clamp (m.mouse_x +ℤ dx);
      mouse_y = clamp (m.mouse_y -ℤ dy);
      mouse_buttons = bit_and m.packet0 7;
      mouse_moved = true;
    }

unfoldable pub mouse_irq_handler : Mouse → ℕ → Mouse
mouse_irq_handler m byte =
    if m.mouse_cycle == 0
    then record m {
      packet0 = byte;
      mouse_cycle = if has_bit byte 3 then m.mouse_cycle + 1 else m.mouse_cycle;
    }
    else if m.mouse_cycle == 1
    then record m { packet1 = byte; mouse_cycle = m.mouse_cycle + 1 }
    else if m.mouse_cycle == 2
    then finish_packet m byte
    else m

-- `mouse_init_driver`, less its commands to the controller
unfoldable pub mouse_init_driver : Mouse → Mouse
mouse_init_driver m = record m {
  mouse_x = pos 0;
  mouse_y = pos 0;
  mouse_buttons = 0;
  mouse_moved = false;
  mouse_cycle = 0;
}

-- For a button below 8
unfoldable pub mouse_get_button : Mouse → ℕ → Bool
mouse_get_button m button = has_bit m.mouse_buttons button

unfoldable pub mouse_has_moved : Mouse → Bool
mouse_has_moved m = m.mouse_moved

unfoldable pub mouse_clear_moved : Mouse → Mouse
mouse_clear_moved m = record m { mouse_moved = false }
