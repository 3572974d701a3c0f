-- ===== src/Tests/UiTests.antt =====
-- ui/input.c and ui/widgets/window.c at concrete inputs.
use mira_os.Base.{
  suc, List, length, get_elem?, some, ℕ, ◌≡◌, refl, true, false, [], ◌∷◌, replicate, arith, negsuc,
}
use mira_os.Drivers.Keyboard.{Keyboard}
use mira_os.Drivers.Keyboard.Queue.{Holds}
use mira_os.Ui.Windows.{
  Window, Windows, ui_rect_contains, window_init, clear_focus, copy_window, shift_up, shift_down,
  window_bring_to_front, window_create, window_close, hit, start_drag, window_handle_click,
  window_handle_drag, window_set_focused, window_count, new_window,
}
use mira_os.Ui.Windows.Order.{remove, window_bring_to_front_lem}
use mira_os.Ui.Input.{
  Input, input_init, input_char, poll_loop, input_poll, input_buffer, input_length, input_clear,
  input_dirty, input_clear_dirty,
}
use mira_os.Ui.Input.Line.{IsLine, input_poll_lem}

abbrev blank : Input
blank = record { input_buf = replicate 256 0; input_len = 0; input_changed = false }

blank-IsLine : IsLine blank
blank-IsLine = record {
  size = refl;
  room = omega arith;
  end = refl;
  text = λ i lt. absurd (omega arith);
}

abbrev typed : Keyboard
typed = record {
  kbd_buffer = 30 ∷ replicate 127 0;
  kbd_head = 1;
  kbd_tail = 0;
  shift_pressed = false;
  caps_lock = false;
}

typed-Holds : Holds typed (30 ∷ [])
typed-Holds = record {
  size = refl;
  tail_in = omega arith;
  room = omega arith;
  head_at = refl;
  codes = λ i lt. let z : i ≡ 0 = omega arith in rw z refl;
}

input_poll_lem_example : Holds (input_poll typed blank).0 [] × IsLine (input_poll typed blank).1
input_poll_lem_example = input_poll_lem typed (30 ∷ []) blank typed-Holds blank-IsLine

abbrev window_at : ℕ → Window
window_at x = new_window [] x 0 10 10

abbrev three : Windows
three = record {
  windows = window_at 1 ∷ window_at 2 ∷ window_at 3 ∷ [];
  focused_window = 2;
  drag_window_idx = negsuc 0;
}

window_bring_to_front_lem_example :
    (others : List Window) × (window_bring_to_front 2 three ≡ record three {
      windows = record (window_at 3) { focused = true } ∷ others;
      focused_window = 0;
    })
    × (suc (length others) ≡ length (three.windows))
    × ((i : ℕ) (y : Window)
        → get_elem? (remove 2 (three.windows)) i ≡ some y
        → get_elem? others i ≡ some (record y { focused = false }))
window_bring_to_front_lem_example =
    window_bring_to_front_lem 2 three (window_at 3) refl (omega arith)

-- A click where two windows overlap brings the one with the higher index to index 0.
click :
    (window_count (window_create [] 5 5 10 10 three) ≡ 4)
    × ((window_handle_click 4 30 three).0 ≡ false)
unfolding window_count window_create window_handle_click window_bring_to_front clear_focus shift_up
    copy_window shift_down window_close hit start_drag ui_rect_contains window_handle_drag
    window_set_focused window_init input_init input_char poll_loop input_poll input_buffer
    input_length input_clear input_dirty input_clear_dirty
click = (refl, refl)
