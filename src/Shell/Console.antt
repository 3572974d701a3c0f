-- ===== src/Shell/Console.antt =====
-- `shell_draw_char` of ui/shell.c: where the characters that the shell draws stand on the screen. The
-- characters themselves are drawn by `text_draw_char`, whose calls are kept with their cells.
pub mod Bounds
use mira_os.Base.{
  ℕ, ◌+◌, ◌-◌, ◌*◌, ◌/◌, Bool, true, false, List, [], ◌∷◌, ◌++◌, Option, none, some, ◌>>=◌, leb,
  ltb, ◌==◌, if◌then◌else◌, ℤ, pos, negsuc, ◌+ℤ◌, ltb_int,
}
use mira_os.Shell.Numbers.{int_max}

-- The static variables of `shell_draw_char`, and the calls of `text_draw_char`: column, row and character.
-- Only `cursor_y` can be negative, on a screen of no rows.
pub record Console : Type 0 where
  pub cursor_x : ℕ
  pub cursor_y : ℤ
  pub max_x : ℕ
  pub max_y : ℕ
  pub needs_layout : Bool
  pub cells : List (ℕ × ℤ × ℕ)

-- `if (needs_layout)`, for the width and the height of the screen if there is one
unfoldable pub lay_out : Option (ℕ × ℕ) → Console → Console
lay_out none s = record s { needs_layout = false }
lay_out (some (width, height)) s =
    if s.needs_layout
    then record s { max_x = width / 8; max_y = height / 16; needs_layout = false }
    else s

-- `max_y - 1`
abbrev pub last_row : ℕ → ℤ
last_row rows = if rows == 0 then negsuc 0 else pos (rows - 1)

-- `cursor_x = 0; cursor_y++; if (cursor_y >= max_y) cursor_y = max_y - 1;`
unfoldable pub new_line : Console → Console
unfolding ◌+ℤ◌
new_line s =
    let y = s.cursor_y +ℤ pos 1 in
    record s { cursor_x = 0; cursor_y = if ltb_int y (pos s.max_y) then y else last_row s.max_y }

unfoldable pub put_char : ℕ → Console → Console
unfolding new_line
put_char c s =
    let moved = record s {
      cursor_x = s.cursor_x + 1;
      cells = s.cells ++ ((s.cursor_x, s.cursor_y, c) ∷ []);
    } in
    if leb s.max_x (s.cursor_x + 1) then new_line moved else moved

-- What follows the layout; `none` is the overflow of the column by tabs.
unfoldable pub draw_at : ℕ → Console → Option Console
unfolding new_line put_char
draw_at c s =
    if c == b'\n'
    then some (new_line s)
    else if c == b'\r'
    then some (record s { cursor_x = 0 })
    else if c == b'\t'
    then (if leb (s.cursor_x + 8) int_max
        then some (record s { cursor_x = (s.cursor_x + 8) / 8 * 8 })
        else none)
    else some (put_char c s)

unfoldable pub shell_draw_char : Option (ℕ × ℕ) → ℕ → Console → Option Console
unfolding lay_out draw_at
shell_draw_char screen c s = draw_at c (lay_out screen s)

-- The characters of a text, one after the other
unfoldable pub draw_all : Option (ℕ × ℕ) → List ℕ → Console → Option Console
unfolding shell_draw_char
draw_all screen [] s = some s
draw_all screen (c ∷ str) s = do s' ← shell_draw_char screen c s; draw_all screen str s'
