-- ===== src/Tests/DriversTests.antt =====
-- drivers/ at concrete inputs.
use mira_os.Base.{
  ℕ, ◌+◌, ◌≡◌, ◌⊎◌, inr, ◌<◌, refl, true, false, some, [], ◌∷◌, replicate, arith, pos, negsuc,
  has_bit,
}
use mathlib.Core.Bool.{xor}
use mira_os.Common.Memory.{poke}
use mira_os.Drivers.Framebuffer.{
  Framebuffer, fb_ready, pixel_at, fb_write_pixel, fb_put_pixel, fill_line, fill_rows, fb_fill_rect,
  fb_draw_rect, outline, fb_draw_rect_outline, fb_clear,
}
use mira_os.Drivers.Framebuffer.Copies.{blit_line, blit_rows, fb_blit, fb_shutdown}
use mira_os.Drivers.Framebuffer.Copies.Inside.{fb_blit-outside}
use mira_os.Drivers.Framebuffer.Bounds.{fb_fill_rect-outside}
use mira_os.Drivers.Keyboard.{
  Keyboard, normal, shifted, adjust_caps, scancode_map, kbd_push, keyboard_init, keyboard_on_irq,
  keyboard_poll, keyboard_scancode_to_ascii,
}
use mira_os.Drivers.Keyboard.Queue.{Holds, kbd_push-Holds}
use mira_os.Drivers.Keyboard.Caps.{is_letter, keyboard_scancode_to_ascii-caps}
use mira_os.Drivers.Mouse.{
  Mouse, clamp, delta, finish_packet, mouse_irq_handler, mouse_init_driver, mouse_get_button,
  mouse_has_moved, mouse_clear_moved,
}
use mira_os.Drivers.Registry.{
  Driver, driver_register, register_all, init_all, driver_subsystem_init, driver_find,
  driver_dispatch_irq,
}

-- The code 30 waits.
abbrev typed : Keyboard
typed = record {
  kbd_buffer = 30 ∷ replicate 127 0;
  kbd_head = 1;
  kbd_tail = 0;
  shift_pressed = false;
  caps_lock = false;
}

typed-Holds : Holds typed (30 ∷ [])
typed-Holds = record {
  size = refl;
  tail_in = omega arith;
  room = omega arith;
  head_at = refl;
  codes = λ i lt. let z : i ≡ 0 = omega arith in rw z refl;
}

kbd_push-Holds_example :
    ((1 < 127) × ((kbd_push typed 31).0 ≡ pos 0) × Holds (kbd_push typed 31).1 (30 ∷ 31 ∷ []))
    ⊎ ((◌≡◌ {A = ℕ} 1 127) × (kbd_push typed 31 ≡ (negsuc 0, typed)))
kbd_push-Holds_example = kbd_push-Holds typed (30 ∷ []) 31 typed-Holds

letter_a : is_letter 30 ≡ true
unfolding normal
letter_a = refl

keyboard_scancode_to_ascii-caps_example :
    keyboard_scancode_to_ascii (record typed { caps_lock = true }) 30
    ≡ keyboard_scancode_to_ascii (record typed { caps_lock = false }) 30
keyboard_scancode_to_ascii-caps_example =
    keyboard_scancode_to_ascii-caps typed 30 (omega arith) letter_a

abbrev still : Mouse
still = record {
  mouse_x = pos 5;
  mouse_y = pos 5;
  mouse_buttons = 0;
  mouse_moved = false;
  mouse_cycle = 0;
  packet0 = 0;
  packet1 = 0;
  packet2 = 0;
}

start_bits : (has_bit 0 3 ≡ false) × (has_bit 9 3 ≡ true)
unfolding has_bit
start_bits = (refl, refl)

abbrev counter : Driver ℕ
counter = record { id = 1; init = some (λ n. n + 1); irq = some (λ irq n. n + irq) }

-- An interrupt reaches each driver; a key with shift gives the upper character.
interrupts :
    (driver_dispatch_irq (counter ∷ counter ∷ []) 3 0 ≡ 6)
    × (driver_find (counter ∷ []) 1 ≡ some counter)
    × (keyboard_scancode_to_ascii (keyboard_on_irq (keyboard_init typed) 42) 30 ≡ 65)
    × (mouse_has_moved (mouse_clear_moved (mouse_init_driver still)) ≡ false)
unfolding driver_dispatch_irq driver_find keyboard_scancode_to_ascii scancode_map adjust_caps normal
    shifted keyboard_on_irq keyboard_init kbd_push keyboard_poll mouse_has_moved mouse_clear_moved
    mouse_init_driver mouse_get_button clamp delta finish_packet mouse_irq_handler driver_register
    register_all init_all driver_subsystem_init xor
interrupts = (refl, refl, refl, refl)

-- A screen of 4 by 3 pixels, drawn directly.
abbrev screen : Framebuffer
screen = record {
  addr = 1000;
  pitch = 16;
  width = 4;
  height = 3;
  bpp = 32;
  back_buffer = 0;
  use_double_buffer = false;
  pixels = λ a. 0;
}

fb_fill_rect-outside_example : (fb_fill_rect 2 1 9 9 7 screen).pixels 1048 ≡ 0
fb_fill_rect-outside_example =
    fb_fill_rect-outside 2 1 9 9 7 1048 screen (omega arith) (omega arith) (omega arith)
      (omega arith) (omega arith) (omega arith) (inr (omega arith))

-- A rectangle that is clipped, and the other ways to draw.
run_fill_rect :
    ((fb_fill_rect 2 1 9 9 7 screen).pixels 1044 ≡ 7)
    × ((fb_clear 5 screen).pixels 1000 ≡ 5)
    × ((fb_put_pixel 1 1 6 screen).pixels 1020 ≡ 6)
    × ((fb_draw_rect 0 0 1 1 4 screen).pixels 1000 ≡ 4)
    × ((fb_draw_rect_outline 0 0 3 3 8 1 screen).pixels 1040 ≡ 8)
unfolding fb_ready pixel_at fb_write_pixel fb_put_pixel fill_line fill_rows fb_fill_rect
    fb_draw_rect outline fb_draw_rect_outline fb_clear poke
run_fill_rect = (refl, refl, refl, refl, refl)

-- An image of three by two pixels at the right border of the screen shows its first column.
blits :
    ((fb_blit 3 1 3 2 (some (λ i. i + 1)) 12 screen).pixels 1028 ≡ 1)
    × ((fb_blit 3 1 3 2 (some (λ i. i + 1)) 12 screen).pixels 1044 ≡ 13)
    × ((fb_blit 3 1 3 2 (some (λ i. i + 1)) 12 screen).pixels 1032 ≡ 0)
    × (fb_ready (fb_shutdown screen) ≡ false)
unfolding fb_blit blit_rows blit_line pixel_at fb_ready fb_shutdown poke
blits = (refl, refl, refl, refl)

fb_blit-outside_example : (fb_blit 3 1 3 2 (some (λ i. i + 1)) 12 screen).pixels 1048 ≡ 0
fb_blit-outside_example =
    fb_blit-outside 3 1 3 2 12 1048 (λ i. i + 1) screen (omega arith) (omega arith) (omega arith)
      (omega arith) (omega arith) (omega arith) (inr (omega arith))
