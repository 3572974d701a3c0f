-- ===== src/Drivers/Keyboard/Caps.antt =====
-- Caps lock cancels itself: `keyboard_scancode_to_ascii` picks the table by shift and caps lock, and
-- `scancode_map` then adjusts the letter once more.
use mira_os.Base.{
  ℕ, ◌<◌, ◌≡◌, refl, Bool, true, false, ◌&&◌, not, ◌||◌, ◌==◌, leb, arith, all_below, all_below_lem,
  get_or,
}
use mathlib.Core.Bool.{xor}
use mira_os.Drivers.Keyboard.{
  Keyboard, keyboard_scancode_to_ascii, scancode_map, adjust_caps, normal, shifted,
}

-- A letter, as the table for unshifted keys gives it.
abbrev pub is_letter : ℕ → Bool
is_letter sc = leb b'a' (get_or normal sc 0) && leb (get_or normal sc 0) b'z'

-- What a key gives with caps lock on and off, for the two states of shift.
abbrev caps_row : Bool → ℕ → Bool
caps_row shift sc =
    not (is_letter sc)
    || (scancode_map true sc (xor shift true) == scancode_map false sc (xor shift false))

caps_table : (shift : Bool) → all_below 58 (caps_row shift) ≡ true
unfolding all_below scancode_map adjust_caps normal shifted xor
caps_table true = refl
caps_table false = refl

-- With caps lock on, a letter key gives the character that it gives with caps lock off, whether shift is
-- pressed or not: caps lock has no effect on letters.
pub keyboard_scancode_to_ascii-caps :
    (k : Keyboard) (sc : ℕ)
    → sc < 58
    → is_letter sc ≡ true
    → keyboard_scancode_to_ascii (record k { caps_lock = true }) sc
      ≡ keyboard_scancode_to_ascii (record k { caps_lock = false }) sc
unfolding keyboard_scancode_to_ascii
keyboard_scancode_to_ascii-caps k sc lt letter =
    let row = all_below_lem 58 (caps_row k.shift_pressed) sc (caps_table k.shift_pressed) lt in
    ground arith
