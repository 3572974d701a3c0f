-- ===== src/Drivers/Keyboard.antt =====
-- drivers/ps2/keyboard.c: the scan code queue, a ring of 128 bytes, and the translation to characters.
-- The byte read from port 0x60 is an argument of `keyboard_on_irq`; what `keyboard_init` reads from the
-- ports to drain the controller leaves no trace in the state.
pub mod Queue
pub mod Caps
use mira_os.Base.{
  ℕ, zero, suc, ◌+◌, ◌-◌, ◌%◌, Bool, true, false, ◌&&◌, not, ◌||◌, ◌==◌, ltb, leb, if◌then◌else◌,
  Option, none, some, List, [], ◌∷◌, get_or, set, ℤ, pos, negsuc,
}
use mathlib.Core.Bool.{xor}

abbrev pub kbd_buf_size : ℕ
kbd_buf_size = 128

pub record Keyboard : Type 0 where
  pub kbd_buffer : List ℕ
  pub kbd_head : ℕ
  pub kbd_tail : ℕ
  pub shift_pressed : Bool
  pub caps_lock : Bool

-- The table `normal`
unfoldable pub normal : List ℕ
normal =
    0 ∷ 27 ∷ b'1' ∷ b'2' ∷ b'3' ∷ b'4' ∷ b'5' ∷ b'6' ∷ b'7' ∷ b'8' ∷ b'9' ∷ b'0' ∷ b'-' ∷ b'=' ∷ 8
    ∷ 9 ∷ b'q' ∷ b'w' ∷ b'e' ∷ b'r' ∷ b't' ∷ b'y' ∷ b'u' ∷ b'i' ∷ b'o' ∷ b'p' ∷ b'[' ∷ b']' ∷ 10 ∷ 0
    ∷ b'a' ∷ b's' ∷ b'd' ∷ b'f' ∷ b'g' ∷ b'h' ∷ b'j' ∷ b'k' ∷ b'l' ∷ b';' ∷ 39 ∷ b'`' ∷ 0 ∷ 92
    ∷ b'z' ∷ b'x' ∷ b'c' ∷ b'v' ∷ b'b' ∷ b'n' ∷ b'm' ∷ b',' ∷ b'.' ∷ b'/' ∷ 0 ∷ b'*' ∷ 0 ∷ 32 ∷ []

-- The table `shifted`
unfoldable pub shifted : List ℕ
shifted =
    0 ∷ 27 ∷ b'!' ∷ b'@' ∷ b'#' ∷ b'$' ∷ b'%' ∷ b'^' ∷ b'&' ∷ b'*' ∷ b'(' ∷ b')' ∷ b'_' ∷ b'+' ∷ 8
    ∷ 9 ∷ b'Q' ∷ b'W' ∷ b'E' ∷ b'R' ∷ b'T' ∷ b'Y' ∷ b'U' ∷ b'I' ∷ b'O' ∷ b'P' ∷ b'{' ∷ b'}' ∷ 10 ∷ 0
    ∷ b'A' ∷ b'S' ∷ b'D' ∷ b'F' ∷ b'G' ∷ b'H' ∷ b'J' ∷ b'K' ∷ b'L' ∷ b':' ∷ 34 ∷ b'~' ∷ 0 ∷ 124
    ∷ b'Z' ∷ b'X' ∷ b'C' ∷ b'V' ∷ b'B' ∷ b'N' ∷ b'M' ∷ b'<' ∷ b'>' ∷ b'?' ∷ 0 ∷ b'*' ∷ 0 ∷ 32 ∷ []

-- The first adjustment for caps lock, and then the second.
unfoldable pub adjust_caps : Bool → Bool → ℕ → ℕ
adjust_caps shift caps c =
    let d = if not shift && caps && leb b'a' c && leb c b'z' then c - b'a' + b'A' else c in
    if shift && caps && leb b'A' d && leb d b'Z' then d - b'A' + b'a' else d

unfoldable pub scancode_map : Bool → ℕ → Bool → ℕ
scancode_map caps sc shift =
    if leb 58 sc
    then 0
    else adjust_caps shift caps (if shift then get_or shifted sc 0 else get_or normal sc 0)

-- -1 if the queue is full.
unfoldable pub kbd_push : Keyboard → ℕ → ℤ × Keyboard
kbd_push k sc =
    let next = (k.kbd_head + 1) % kbd_buf_size in
    if next == k.kbd_tail
    then (negsuc 0, k)
    else (pos 0, record k { kbd_buffer = set k.kbd_buffer k.kbd_head sc; kbd_head = next })

unfoldable pub keyboard_init : Keyboard → Keyboard
keyboard_init k = record k { kbd_head = 0; kbd_tail = 0; shift_pressed = false; caps_lock = false }

unfoldable pub keyboard_on_irq : Keyboard → ℕ → Keyboard
keyboard_on_irq k sc =
    if sc == 0x2A || sc == 0x36
    then record k { shift_pressed = true }
    else if sc == 0xAA || sc == 0xB6
    then record k { shift_pressed = false }
    else if sc == 0x3A
    then record k { caps_lock = not k.caps_lock }
    else if ltb sc 0x80
    then (kbd_push k sc).1
    else k

-- `none` is the result false.
unfoldable pub keyboard_poll : Keyboard → Option ℕ × Keyboard
keyboard_poll k = if k.kbd_head == k.kbd_tail then (none, k) else (
  some (get_or k.kbd_buffer k.kbd_tail 0),
  record k { kbd_tail = (k.kbd_tail + 1) % kbd_buf_size },
)

unfoldable pub keyboard_scancode_to_ascii : Keyboard → ℕ → ℕ
keyboard_scancode_to_ascii k scancode =
    if leb 0x80 scancode
    then 0
    else scancode_map k.caps_lock scancode (xor k.shift_pressed k.caps_lock)
