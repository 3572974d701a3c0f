-- ===== src/Shell/Builtins/Aliases.antt =====
-- The builtins alias, unalias and history.
pub mod Laws
use mira_os.Base.{
  ℕ, ◌+◌, ◌-◌, List, [], ◌∷◌, ◌++◌, Option, none, some, ◌>>=◌, leb, ltb, length, drop,
  if◌then◌else◌, ℤ, pos, negsuc, codes,
}
use mira_os.Shell.Numbers.{int_max, atoi_simple, int_to_str}
use mira_os.Shell.Tables.{same_text, Alias, shell_add_alias}
use mira_os.Shell.Exec.{Handler}
use mira_os.Shell.Env.{Env, white, draw_char}
use mira_os.Shell.Builtins.{operands, draw}
use mira_os.Shell.Builtins.Variables.{split_equals}

-- The loop of `builtin_alias` that shows the aliases
unfoldable pub draw_aliases : List Alias → Env → Env
unfolding draw_char
draw_aliases [] env = env
draw_aliases (x ∷ aliases) env = draw_aliases aliases (
    draw_char b'\n' white
      (draw (x.value) (draw_char b'=' white (draw (x.name) (draw (codes "alias ") env)))))

-- The body of the loop that defines aliases, which is that of `shell_add_alias`
unfoldable pub alias_one : List Alias → List ℕ → Option (List Alias)
unfolding split_equals shell_add_alias
alias_one aliases arg = elim (split_equals arg) [
  | none ↦ some aliases
  | some (name, value) ↦ shell_add_alias aliases name value
]

unfoldable pub alias_all : List (List ℕ) → List Alias → Option (List Alias)
unfolding alias_one
alias_all [] aliases = some aliases
alias_all (arg ∷ args) aliases = do aliases' ← alias_one aliases arg; alias_all args aliases'

unfoldable pub builtin_alias : Handler
unfolding draw_aliases alias_all
builtin_alias env cmd = elim (operands cmd) [
  | [] ↦ some (pos 0, draw_aliases (env.aliases) env)
  | arg ∷ args ↦ do
    aliases ← alias_all (arg ∷ args) (env.aliases)
    some (pos 0, record env { aliases = aliases })
]

-- The inner loop of `builtin_unalias`
unfoldable pub remove_alias : List Alias → List ℕ → List Alias
unfolding same_text
remove_alias [] name = []
remove_alias (x ∷ aliases) name =
    let rest = remove_alias aliases name in if same_text (x.name) name then aliases else x ∷ rest

unfoldable pub remove_aliases : List (List ℕ) → List Alias → List Alias
unfolding remove_alias
remove_aliases [] aliases = aliases
remove_aliases (arg ∷ args) aliases = remove_aliases args (remove_alias aliases arg)

unfoldable pub builtin_unalias : Handler
unfolding remove_aliases
builtin_unalias env cmd =
    some (pos 0, record env { aliases = remove_aliases (operands cmd) (env.aliases) })

-- The loop of `builtin_history`, from the entry of index `i` on
unfoldable pub draw_entries : ℕ → List (List ℕ) → Env → Option Env
unfolding draw_char int_to_str
draw_entries i [] env = some env
draw_entries i (entry ∷ history) env = do
  number ← int_to_str (pos (i + 1))
  draw_entries (i + 1) history
      (draw_char b'\n' white (draw entry (draw (number ++ codes "  ") env)))

-- The index at which it starts, of `total` entries: a negative count starts past the last.
unfoldable pub history_start : ℕ → ℤ → Option ℕ
history_start total (pos count) = some (if ltb total count then 0 else total - count)
history_start total (negsuc n) = if leb (total + n + 1) int_max then some (total + n + 1) else none

unfoldable pub builtin_history : Handler
unfolding draw_entries history_start atoi_simple
builtin_history env cmd = do
  count ← elim (operands cmd) [
    | [] ↦ some (pos (length (env.history)))
    | arg ∷ args ↦ atoi_simple arg
  ]
  start ← history_start (length (env.history)) count
  env' ← draw_entries start (drop start (env.history)) env
  some (pos 0, env')
