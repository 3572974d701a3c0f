-- ===== src/Ui/Input.antt =====
-- ui/input.c: the line that the keyboard edits. The buffer is the list of its 256 characters.
pub mod Line
use mira_os.Base.{
  ℕ, zero, suc, ◌+◌, ◌-◌, Bool, true, false, ◌&&◌, List, [], ◌∷◌, Option, none, some, leb, ltb,
  length, set, ◌==◌, if◌then◌else◌,
}
use mira_os.Drivers.Keyboard.{Keyboard, keyboard_poll, keyboard_scancode_to_ascii}

abbrev pub input_max : ℕ
input_max = 256

pub record Input : Type 0 where
  pub input_buf : List ℕ
  pub input_len : ℕ
  pub input_changed : Bool

unfoldable pub input_init : Input → Input
input_init s = record { input_buf = set s.input_buf 0 0; input_len = 0; input_changed = false }

-- The branches of the loop's body, for an ASCII character
unfoldable pub input_char : Input → ℕ → Input
input_char s c =
    if c == 8
    then if ltb 0 (s.input_len)
      then record {
        input_buf = set s.input_buf (s.input_len - 1) 0;
        input_len = s.input_len - 1;
        input_changed = true;
      }
      else s
    else if c == 10
    then record {
      input_buf = set (set s.input_buf s.input_len 0) 0 0;
      input_len = 0;
      input_changed = true;
    }
    else if leb 32 c && ltb (s.input_len) (input_max - 1)
    then record {
      input_buf = set (set s.input_buf s.input_len c) (s.input_len + 1) 0;
      input_len = s.input_len + 1;
      input_changed = true;
    }
    else s

-- `while (keyboard_poll(&sc))`, on fuel: the queue of the keyboard holds 127 codes.
unfoldable pub poll_loop : ℕ → Keyboard → Input → Keyboard × Input
unfolding input_char
poll_loop zero k s = (k, s)
poll_loop (suc f) k s =
    let (code, k') = keyboard_poll k in
    elim code [
      | none ↦ (k', s)
      | some sc ↦ poll_loop f k' (input_char s (keyboard_scancode_to_ascii k' sc))
    ]

unfoldable pub input_poll : Keyboard → Input → Keyboard × Input
unfolding poll_loop
input_poll k s = poll_loop 128 k s

unfoldable pub input_buffer : Input → List ℕ
input_buffer s = s.input_buf

unfoldable pub input_length : Input → ℕ
input_length s = s.input_len

unfoldable pub input_clear : Input → Input
input_clear s = record { input_buf = set s.input_buf 0 0; input_len = 0; input_changed = true }

unfoldable pub input_dirty : Input → Bool
input_dirty s = s.input_changed

unfoldable pub input_clear_dirty : Input → Input
input_clear_dirty s = record s { input_changed = false }
