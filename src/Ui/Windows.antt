-- ===== src/Ui/Windows.antt =====
-- ui/widgets/window.c and `ui_rect_contains` of ui/widgets/widget.c. `windows` is the list of the windows in
-- use, the first `num_windows` of the array; the colours, which are constants, are left out.
pub mod Order
use mira_os.Base.{
  ℕ, zero, suc, ◌+◌, ◌-◌, Bool, true, false, ◌&&◌, ◌||◌, not, List, [], ◌∷◌, ◌++◌, Option, none,
  some, leb, ltb, length, take, get_elem?, set, ◌==◌, if◌then◌else◌, ℤ, pos, negsuc, sub_ℕ,
}
use mira_os.Kernel.Words.{add32, sub32}

-- `ui_rect_t`
pub record Rect : Type 0 where
  pub x : ℕ
  pub y : ℕ
  pub w : ℕ
  pub h : ℕ

-- The sums wrap round as `uint32_t`.
unfoldable pub ui_rect_contains : Rect → ℕ → ℕ → Bool
ui_rect_contains r px py =
    leb (r.x) px && (ltb px (add32 (r.x) (r.w)) && (leb (r.y) py && ltb py (add32 (r.y) (r.h))))

-- `ui_window_t`; the offsets are kept as `uint32_t`, which is how `window_handle_drag` subtracts them.
pub record Window : Type 0 where
  pub bounds : Rect
  pub title : List ℕ
  pub visible : Bool
  pub focused : Bool
  pub dragging : Bool
  pub drag_offset_x : ℕ
  pub drag_offset_y : ℕ

pub record Windows : Type 0 where
  pub windows : List Window
  pub focused_window : ℕ
  pub drag_window_idx : ℤ

abbrev pub max_windows : ℕ
max_windows = 8

unfoldable pub window_init : Windows
window_init = record { windows = []; focused_window = 0; drag_window_idx = negsuc 0 }

-- `for (…) windows[i].focused = false;`
unfoldable pub clear_focus : List Window → List Window
clear_focus [] = []
clear_focus (x ∷ ws) = record x { focused = false } ∷ clear_focus ws

-- `windows[to] = windows[from];`
unfoldable pub copy_window : ℕ → ℕ → List Window → List Window
copy_window to from ws = elim (get_elem? ws from) [ none ↦ ws | some x ↦ set ws to x ]

-- `for (i = index; i > 0; i--) windows[i] = windows[i - 1];`
unfoldable pub shift_up : ℕ → List Window → List Window
unfolding copy_window
shift_up zero ws = ws
shift_up (suc i) ws = shift_up i (copy_window (suc i) i ws)

-- `for (i = index; i < num_windows - 1; i++) windows[i] = windows[i + 1];`, so many rounds of it
unfoldable pub shift_down : ℕ → ℕ → List Window → List Window
unfolding copy_window
shift_down zero i ws = ws
shift_down (suc n) i ws = shift_down n (suc i) (copy_window i (suc i) ws)

unfoldable pub window_bring_to_front : ℕ → Windows → Windows
unfolding clear_focus shift_up
window_bring_to_front index s = elim (get_elem? (clear_focus (s.windows)) index) [
  | none ↦ s
  | some temp ↦ record s {
    windows = set (shift_up index (clear_focus (s.windows))) 0 (record temp { focused = true });
    focused_window = 0;
  }
]

abbrev pub new_window : List ℕ → ℕ → ℕ → ℕ → ℕ → Window
new_window title x y w h = record {
  bounds = record { x = x; y = y; w = w; h = h };
  title = title;
  visible = true;
  focused = false;
  dragging = false;
  drag_offset_x = 0;
  drag_offset_y = 0;
}

unfoldable pub window_create : List ℕ → ℕ → ℕ → ℕ → ℕ → Windows → Windows
unfolding window_bring_to_front
window_create title x y w h s =
    if leb max_windows (length (s.windows))
    then s
    else window_bring_to_front (length (s.windows))
        (record s { windows = s.windows ++ (new_window title x y w h ∷ []) })

unfoldable pub window_close : ℕ → Windows → Windows
unfolding shift_down
window_close index s =
    let num = length (s.windows) in
    if leb num index then s else record s {
      windows = take (num - 1) (shift_down (num - 1 - index) index (s.windows));
      focused_window = if leb (num - 1) (s.focused_window) then num - 1 - 1 else s.focused_window;
    }

-- The loop of `window_handle_click` from the last window down: the first hit
unfoldable pub hit : ℕ → List Window → ℕ → ℕ → Option ℕ
unfolding ui_rect_contains
hit zero ws x y = none
hit (suc i) ws x y =
    let rest = hit i ws x y in
    elim (get_elem? ws i) [
      | none ↦ rest
      | some win ↦ if win.visible && ui_rect_contains (win.bounds) x y then some i else rest
    ]

-- A click above the 26th line of a window starts to drag it.
unfoldable pub start_drag : ℕ → ℕ → Windows → Windows
start_drag x y s = elim (s.windows) [
  | [] ↦ s
  | win ∷ ws ↦
      if ltb y (add32 (win.bounds.y) 26)
      then record s {
        windows =
            record win {
              dragging = true;
              drag_offset_x = sub32 x (win.bounds.x);
              drag_offset_y = sub32 y (win.bounds.y);
            }
            ∷ ws;
        drag_window_idx = pos 0;
      }
      else s
]

unfoldable pub window_handle_click : ℕ → ℕ → Windows → Bool × Windows
unfolding hit window_bring_to_front start_drag
window_handle_click x y s = elim (hit (length (s.windows)) (s.windows) x y) [
  | none ↦ (false, s)
  | some i ↦ (true, start_drag x y (window_bring_to_front i s))
]

abbrev pub dragged : Windows → Option (ℕ × Window)
dragged s = elim (s.drag_window_idx) [
  | negsuc n ↦ none
  | pos i ↦ elim (get_elem? (s.windows) i) [ none ↦ none | some win ↦ some (i, win) ]
]

unfoldable pub window_handle_drag : ℕ → ℕ → Windows → Bool × Windows
window_handle_drag x y s = elim (dragged s) [
  | none ↦ (false, s)
  | some (i, win) ↦
      let moved = record (win.bounds) {
        x = sub32 x (win.drag_offset_x);
        y = sub32 y (win.drag_offset_y);
      } in
      if win.dragging
      then (true, record s { windows = set (s.windows) i (record win { bounds = moved }) })
      else (false, s)
]

unfoldable pub window_set_focused : ℕ → Windows → Windows
unfolding window_bring_to_front
window_set_focused index s =
    if ltb index (length (s.windows)) then window_bring_to_front index s else s

unfoldable pub window_count : Windows → ℕ
window_count s = length (s.windows)
