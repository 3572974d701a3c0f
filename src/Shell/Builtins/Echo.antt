-- ===== src/Shell/Builtins/Echo.antt =====
-- The builtins that draw their arguments: echo and printf; and cd and pwd.
use mira_os.Base.{
  ℕ, ◌%◌, Bool, true, false, ◌||◌, List, [], ◌∷◌, Option, none, some, ◌>>=◌, ltb, length, ◌==◌,
  if◌then◌else◌, pos, codes,
}
use mira_os.Shell.Numbers.{atoi_simple, int_to_str}
use mira_os.Shell.Tables.{same_text, shell_get_variable}
use mira_os.Shell.Exec.{Handler, shell_resolve_variables}
use mira_os.Shell.Env.{Env, white, draw_char}
use mira_os.Shell.Builtins.{operands, draw, to_uint32}
use mira_os.Shell.Builtins.Variables.{assign}

-- The character that an escape draws
unfoldable pub escaped : ℕ → ℕ
escaped c = if c == b'n' then b'\n' else if c == b't' then b'\t' else c

-- The loop over the characters of a resolved argument
unfoldable pub unescape : List ℕ → List ℕ
unfolding escaped
unescape [] = []
unescape (c ∷ []) = c ∷ []
unescape (c ∷ d ∷ str) =
    let after = unescape str in
    let rest = unescape (d ∷ str) in if c == b'\\' then escaped d ∷ after else c ∷ rest

-- The loop over the arguments, with a space between two
unfoldable pub echo_all : List (List ℕ) → Env → Option Env
unfolding unescape shell_resolve_variables draw_char
echo_all [] env = some env
echo_all (arg ∷ []) env = do
  resolved ← shell_resolve_variables (env.vars) arg
  some (draw (unescape resolved) env)
echo_all (arg ∷ next ∷ args) env = do
  resolved ← shell_resolve_variables (env.vars) arg
  echo_all (next ∷ args) (draw_char b' ' white (draw (unescape resolved) env))

-- The arguments from `start` on, and `newline`
unfoldable pub echo_options : List (List ℕ) → Bool × List (List ℕ)
unfolding same_text
echo_options [] = (true, [])
echo_options (arg ∷ args) = if same_text arg (codes "-n") then (false, args) else (true, arg ∷ args)

unfoldable pub builtin_echo : Handler
unfolding echo_options echo_all draw_char
builtin_echo env cmd = do
  let (newline, args) = echo_options (operands cmd)
  env' ← echo_all args env
  some (pos 0, if newline then draw_char b'\n' white env' else env')

-- The body of the loop of `builtin_printf`: only a format that is one conversion draws something.
unfoldable pub printf_one : List ℕ → List ℕ → Env → Option Env
unfolding same_text atoi_simple int_to_str draw_char
printf_one fmt arg env =
    if same_text fmt (codes "%s")
    then some (draw arg env)
    else if same_text fmt (codes "%d") || same_text fmt (codes "%i")
    then (do n ← atoi_simple arg; buf ← int_to_str n; some (draw buf env))
    else if same_text fmt (codes "%c")
    then (do n ← atoi_simple arg; some (draw_char (to_uint32 n % 0x100) white env))
    else some env

unfoldable pub printf_all : List ℕ → List (List ℕ) → Env → Option Env
unfolding printf_one
printf_all fmt [] env = some env
printf_all fmt (arg ∷ args) env = do env' ← printf_one fmt arg env; printf_all fmt args env'

unfoldable pub builtin_printf : Handler
unfolding printf_all draw_char
builtin_printf env cmd = elim (operands cmd) [
  | [] ↦ some (pos 0, env)
  | fmt ∷ args ↦ do env' ← printf_all fmt args env; some (pos 0, draw_char b'\n' white env')
]

-- The copy to `current_dir`, which holds 256 characters
unfoldable pub fit_directory : List ℕ → Option (List ℕ)
fit_directory resolved = if ltb (length resolved) 256 then some resolved else none

unfoldable pub builtin_cd : Handler
unfolding fit_directory shell_resolve_variables shell_get_variable assign
builtin_cd env cmd = do
  let path : List ℕ = elim (operands cmd) [
    | [] ↦ shell_get_variable (env.vars) (codes "HOME")
    | arg ∷ args ↦ arg
  ]
  resolved ← shell_resolve_variables (env.vars) path
  dir ← fit_directory resolved
  env' ← assign (codes "PWD") dir (record env { current_dir = dir })
  some (pos 0, env')

unfoldable pub builtin_pwd : Handler
unfolding draw_char
builtin_pwd env cmd = some (pos 0, draw_char b'\n' white (draw (env.current_dir) env))
