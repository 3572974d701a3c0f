-- ===== src/Shell/Console/Bounds.antt =====
-- Where `shell_draw_char` of ui/shell.c draws.
use mira_os.Base.{
  ℕ, ◌+◌, ◌-◌, ◌/◌, ◌<◌, ◌≤◌, ap, sym, ◌∙◌, ◌≡◌, ◌≢◌, refl, false, true, List, [], ◌∷◌, ◌++◌,
  Option, some, ◌==◌, leb, arith, ℤ, pos, negsuc, ◌+ℤ◌, ltb_int, ltb, if◌then◌else◌, none,
  Bool-cases, inl, inr,
}
use mira_os.Shell.Console.{
  Console, lay_out, last_row, new_line, put_char, draw_at, shell_draw_char, draw_all,
}

-- The column and the row of a cell
abbrev pub InRange : ℕ → ℕ → ℕ × ℤ × ℕ → Type 0
InRange columns rows (x, pos y, c) = (x < columns) × (y < rows)
InRange columns rows (x, negsuc y, c) = 0 < 0

abbrev pub AllInRange : ℕ → ℕ → List (ℕ × ℤ × ℕ) → Type 0
AllInRange columns rows [] = Unit
AllInRange columns rows (cell ∷ cells) = InRange columns rows cell × AllInRange columns rows cells

AllInRange-append :
    (columns rows : ℕ) (cells : List (ℕ × ℤ × ℕ)) (cell : ℕ × ℤ × ℕ)
    → AllInRange columns rows cells
    → InRange columns rows cell
    → AllInRange columns rows (cells ++ (cell ∷ []))
AllInRange-append columns rows [] cell h k = (k, tt)
AllInRange-append columns rows (x ∷ cells) cell h k =
    (h.0, AllInRange-append columns rows cells cell h.1 k)

-- The layout is done, and the cursor and every cell drawn are on the screen.
pub record IsInside (s : Console) : Type 0 where
  pub laid_out : s.needs_layout ≡ false
  pub row : ℕ
  pub at : s.cursor_y ≡ pos row
  pub column : s.cursor_x < s.max_x
  pub below : row < s.max_y
  pub drawn : AllInRange s.max_x s.max_y s.cells

next_row :
    (row rows : ℕ)
    → row < rows
    → (if ltb_int (pos row +ℤ pos 1) (pos rows) then pos row +ℤ pos 1 else last_row rows)
      ≡ pos (if ltb (row + 1) rows then row + 1 else rows - 1)
unfolding ◌+ℤ◌
next_row row rows h = ground arith

new_line-IsInside :
    (s : Console) (row : ℕ)
    → s.needs_layout ≡ false
    → s.cursor_y ≡ pos row
    → row < s.max_y
    → 0 < s.max_x
    → AllInRange s.max_x s.max_y s.cells
    → IsInside (new_line s)
unfolding new_line
new_line-IsInside s row laid at below wide drawn = record {
  laid_out = laid;
  row = if ltb (row + 1) s.max_y then row + 1 else s.max_y - 1;
  at = rw at (next_row row s.max_y below);
  column = wide;
  below = ground (arith, below);
  drawn = drawn;
}

cell_at :
    (columns rows x row c : ℕ) (y : ℤ)
    → y ≡ pos row
    → x < columns
    → row < rows
    → InRange columns rows (x, y, c)
cell_at columns rows x row c y at column below = rw at (column, below)

put_char-IsInside : (c : ℕ) (s : Console) → IsInside s → IsInside (put_char c s)
unfolding put_char
put_char-IsInside c s h =
    let cells =
      AllInRange-append s.max_x s.max_y s.cells (s.cursor_x, s.cursor_y, c) h.drawn
        (cell_at s.max_x s.max_y s.cursor_x h.row c s.cursor_y h.at h.column h.below) in
    let moved : Console = record s {
      cursor_x = s.cursor_x + 1;
      cells = s.cells ++ ((s.cursor_x, s.cursor_y, c) ∷ []);
    } in
    elim (Bool-cases (leb s.max_x (s.cursor_x + 1))) [
      | inl full ↦
          rw (full, put_char)
            (new_line-IsInside moved h.row h.laid_out h.at h.below (omega (arith, h.column)) cells)
      | inr room ↦
          rw (room, put_char)
            (record {
              laid_out = h.laid_out;
              row = h.row;
              at = h.at;
              column = ground (arith, room);
              below = h.below;
              drawn = cells;
            })
    ]

-- No tab in the text
abbrev pub NoTabs : List ℕ → Type 0
NoTabs [] = Unit
NoTabs (c ∷ str) = (c ≢ 9) × NoTabs str

lay_out-same :
    (screen : Option (ℕ × ℕ)) (s : Console) → s.needs_layout ≡ false → lay_out screen s ≡ s
unfolding lay_out
lay_out-same none s h = ap (λ b. record s { needs_layout = b }) (sym h)
lay_out-same (some (width, height)) s h = rw (h, lay_out) refl

put_char-size :
    (c : ℕ) (s : Console) → ((put_char c s).max_x ≡ s.max_x) × ((put_char c s).max_y ≡ s.max_y)
unfolding put_char new_line
put_char-size c s = elim (Bool-cases (leb s.max_x (s.cursor_x + 1))) [
  | inl full ↦ rw (full, put_char) (refl, refl)
  | inr room ↦ rw (room, put_char) (refl, refl)
]

draw_at-IsInside :
    (c : ℕ) (s : Console)
    → c ≢ 9
    → IsInside s
    → (s' : Console) × (draw_at c s ≡ some s')
      × IsInside s'
      × (s'.max_x ≡ s.max_x)
      × (s'.max_y ≡ s.max_y)
unfolding draw_at
draw_at-IsInside c s tab h =
    let next =
      new_line-IsInside s h.row h.laid_out h.at h.below (omega (arith, h.column)) h.drawn in
    elim (Bool-cases (c == 10)) [
      | inl newline ↦ (new_line s, rw newline refl, next, refl, refl)
      | inr e ↦ elim (Bool-cases (c == 13)) [
        | inl return ↦ (
          record s { cursor_x = 0 },
          rw (e, draw_at) (rw return refl),
          record {
            laid_out = h.laid_out;
            row = h.row;
            at = h.at;
            column = omega (arith, h.column);
            below = h.below;
            drawn = h.drawn;
          },
          refl,
          refl,
        )
        | inr e' ↦
            let e'' : (c == 9) ≡ false = ground (arith, tab) in
            (
              put_char c s,
              rw (e, draw_at) (rw e' (rw e'' refl)),
              put_char-IsInside c s h,
              (put_char-size c s).0,
              (put_char-size c s).1,
            )
      ]
    ]

draw_all-IsInside :
    (screen : Option (ℕ × ℕ)) (str : List ℕ) (s : Console)
    → NoTabs str
    → IsInside s
    → (s' : Console) × (draw_all screen str s ≡ some s')
      × IsInside s'
      × (s'.max_x ≡ s.max_x)
      × (s'.max_y ≡ s.max_y)
unfolding draw_all shell_draw_char
draw_all-IsInside screen [] s tabs h = (s, refl, h, refl, refl)
draw_all-IsInside screen (c ∷ str) s tabs h =
    let (one, runs, inside, columns, rows) = draw_at-IsInside c s tabs.0 h in
    let (last, rest, inside', columns', rows') = draw_all-IsInside screen str one tabs.1 inside in
    (
      last,
      rw (lay_out-same screen s h.laid_out) (rw runs rest),
      inside',
      columns' ∙ columns,
      rows' ∙ rows,
    )

-- The static variables at the start
abbrev pub fresh : Console
fresh = record {
  cursor_x = 0;
  cursor_y = pos 0;
  max_x = 0;
  max_y = 0;
  needs_layout = true;
  cells = [];
}

-- On a screen of at least one column and one row, a text without tabs is drawn, and each of its characters
-- stands in a cell of the screen.
pub draw_all-AllInRange :
    (width height : ℕ) (str : List ℕ)
    → 8 ≤ width
    → 16 ≤ height
    → NoTabs str
    → (s : Console) × (draw_all (some (width, height)) str fresh ≡ some s)
      × AllInRange (width / 8) (height / 16) s.cells
unfolding draw_all shell_draw_char lay_out
draw_all-AllInRange width height [] wide high tabs = (fresh, refl, tt)
draw_all-AllInRange width height (c ∷ str) wide high tabs =
    let laid : Console = record fresh {
      max_x = width / 8;
      max_y = height / 16;
      needs_layout = false;
    } in
    let inside : IsInside laid = record {
      laid_out = refl;
      row = 0;
      at = refl;
      column = omega (arith, wide);
      below = omega (arith, high);
      drawn = tt;
    } in
    let (s, runs, last, columns, rows) =
      draw_all-IsInside (some (width, height)) (c ∷ str) laid tabs inside in
    (s, runs, rw (columns, rows) at last.drawn)
