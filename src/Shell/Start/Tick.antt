-- ===== src/Shell/Start/Tick.antt =====
-- A tick of ui/shell.c at the key that empties the line, from the keyboard's queue to the handler of the
-- builtin command.
use mira_os.Base.{ℕ, ◌≡◌, ◌⊎◌, Bool, List, take}
use mira_os.Drivers.Keyboard.{Keyboard}
use mira_os.Ui.Input.{Input}
use mira_os.Shell.Env.{Env}

-- The text of the line
abbrev pub line_text : Input → List ℕ
line_text line = take line.input_len line.input_buf

-- Enter, or Backspace on a line of one character
abbrev pub Empties : Input → ℕ → Type 0
Empties line sc = (sc ≡ 28) ⊎ ((sc ≡ 14) × (line.input_len ≡ 1))
