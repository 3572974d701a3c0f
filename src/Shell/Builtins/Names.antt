-- ===== src/Shell/Builtins/Names.antt =====
-- The builtins on the table of the commands: help, type and which; and uname.
use mira_os.Base.{
  ℕ, Bool, true, false, List, [], ◌∷◌, ◌++◌, Option, none, some, ◌>>=◌, ltb, length, if◌then◌else◌,
  pos, codes,
}
use mira_os.Shell.Tables.{same_text}
use mira_os.Shell.Exec.{Handler}
use mira_os.Shell.Env.{Env, white, draw_char, shell_print_error}
use mira_os.Shell.Builtins.{operands, draw}

-- The names and descriptions of `builtins`
abbrev pub Entries : Type 0
Entries = List (List ℕ × List ℕ)

-- A text that `buf` holds with its 128 characters
unfoldable pub fit_line : List ℕ → Option (List ℕ)
fit_line line = if ltb (length line) 128 then some line else none

unfoldable pub help_lines : Entries → Env → Option Env
unfolding fit_line
help_lines [] env = some env
help_lines ((name, description) ∷ entries) env = do
  line ← fit_line (codes "  " ++ name ++ codes " - " ++ description ++ codes "\n")
  help_lines entries (draw line env)

unfoldable pub builtin_help : Entries → Handler
unfolding help_lines
builtin_help entries env cmd = do
  env' ← help_lines entries (
      draw (codes "===========================================\n")
        (draw (codes "MiraOS Shell (msh.mex) - Built-in Commands:\n") env))
  some (pos 0, env')

-- The loop over `builtins`
unfoldable pub is_builtin : Entries → List ℕ → Bool
unfolding same_text
is_builtin [] cmd = false
is_builtin ((name, description) ∷ entries) cmd =
    let rest = is_builtin entries cmd in if same_text name cmd then true else rest

unfoldable pub type_all : Entries → List (List ℕ) → Env → Option Env
unfolding is_builtin fit_line
type_all entries [] env = some env
type_all entries (cmd ∷ args) env = elim (is_builtin entries cmd) [
  | true ↦ type_all entries args (draw (codes " is a shell builtin\n") (draw cmd env))
  | false ↦ do
    line ← fit_line (cmd ++ codes " is not a builtin\n")
    type_all entries args (draw line env)
]

unfoldable pub builtin_type : Entries → Handler
unfolding type_all
builtin_type entries env cmd = do env' ← type_all entries (operands cmd) env; some (pos 0, env')

unfoldable pub builtin_which : Entries → Handler
unfolding is_builtin shell_print_error draw_char
builtin_which entries env cmd = elim (operands cmd) [
  | [] ↦ some (pos 1, env)
  | name ∷ args ↦
      if is_builtin entries name
      then some (pos 0, draw_char b'\n' white (draw name (draw (codes "/usr/bin/") env)))
      else some (pos 1, shell_print_error (codes "which: not found") env)
]

-- The loop that looks for `-a`
unfoldable pub asks_all : List (List ℕ) → Bool
unfolding same_text
asks_all [] = false
asks_all (arg ∷ args) =
    let rest = asks_all args in if same_text arg (codes "-a") then true else rest

unfoldable pub builtin_uname : Handler
unfolding asks_all
builtin_uname env cmd = some (
  pos 0,
  (if asks_all (operands cmd)
      then draw (codes "MiraOS msh.mex 1.0.0 x86_64 GNU/MiraOS\n") env
      else draw (codes "MiraOS\n") env),
)
