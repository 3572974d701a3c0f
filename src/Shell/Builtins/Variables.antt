-- ===== src/Shell/Builtins/Variables.antt =====
-- The builtins on variables: export, set, unset, env, read, umask, hostname, shift and let.
pub mod Laws
use mira_os.Base.{
  ℕ, zero, suc, ◌+◌, ◌%◌, ◌^◌, Bool, true, false, ◌||◌, List, [], ◌∷◌, Option, none, some, ◌>>=◌,
  leb, take, ◌==◌, if◌then◌else◌, ℤ, pos, negsuc, ◌+ℤ◌, ◌-ℤ◌, ◌*ℤ◌, quotient, codes,
}
use mira_os.Shell.Numbers.{int_max, atoi_simple, int_to_str}
use mira_os.Shell.Tables.{
  Variable, shell_set_variable, shell_get_variable, shell_export_variable, unset_all,
}
use mira_os.Shell.Exec.{Handler, is_zero_status}
use mira_os.Shell.Env.{Env, white, draw_char, shell_print_error}
use mira_os.Shell.Builtins.{operands, draw, to_int}

-- `strchr(arg, '=')`: what stands before it and after it, if it is found
unfoldable pub split_equals : List ℕ → Option (List ℕ × List ℕ)
split_equals [] = none
split_equals (c ∷ arg) =
    let rest = split_equals arg in
    if c == b'='
    then some ([], arg)
    else elim rest [ none ↦ none | some (name, value) ↦ some (c ∷ name, value) ]

-- The body of the loop of `builtin_export`
unfoldable pub export_one : List Variable → List ℕ → Option (List Variable)
unfolding split_equals shell_set_variable shell_export_variable
export_one vars arg = elim (split_equals arg) [
  | none ↦ some (shell_export_variable vars arg)
  | some (name, value) ↦ do
    vars' ← shell_set_variable vars name value
    some (shell_export_variable vars' name)
]

unfoldable pub export_all : List (List ℕ) → List Variable → Option (List Variable)
unfolding export_one
export_all [] vars = some vars
export_all (arg ∷ args) vars = do vars' ← export_one vars arg; export_all args vars'

unfoldable pub builtin_export : Handler
unfolding export_all
builtin_export env cmd = do
  vars ← export_all (operands cmd) (env.vars)
  some (pos 0, record env { vars = vars })

-- The body of the loop of `builtin_set`
unfoldable pub set_one : List Variable → List ℕ → Option (List Variable)
unfolding split_equals shell_set_variable
set_one vars arg = elim (split_equals arg) [
  | none ↦ some vars
  | some (name, value) ↦ shell_set_variable vars name value
]

unfoldable pub set_all : List (List ℕ) → List Variable → Option (List Variable)
unfolding set_one
set_all [] vars = some vars
set_all (arg ∷ args) vars = do vars' ← set_one vars arg; set_all args vars'

unfoldable pub builtin_set : Handler
unfolding set_all
builtin_set env cmd = do
  vars ← set_all (operands cmd) (env.vars)
  some (pos 0, record env { vars = vars })

unfoldable pub builtin_unset : Handler
unfolding unset_all
builtin_unset env cmd = some (pos 0, record env { vars = unset_all (operands cmd) (env.vars) })

-- The loop of `builtin_env`
unfoldable pub draw_exported : List Variable → Env → Env
unfolding draw_char
draw_exported [] env = env
draw_exported (x ∷ vars) env =
    let line = draw_char b'\n' white (draw (x.value) (draw_char b'=' white (draw (x.name) env))) in
    draw_exported vars (if x.exported then line else env)

unfoldable pub builtin_env : Handler
unfolding draw_exported
builtin_env env cmd = some (pos 0, draw_exported (env.vars) env)

-- `shell_set_variable` on the table of the shell
unfoldable pub assign : List ℕ → List ℕ → Env → Option Env
unfolding shell_set_variable
assign name value env = do
  vars ← shell_set_variable (env.vars) name value
  some (record env { vars = vars })

unfoldable pub builtin_read : Handler
unfolding assign shell_print_error
builtin_read env cmd = elim (operands cmd) [
  | [] ↦ some (pos 1, shell_print_error (codes "read: missing variable name") env)
  | name ∷ args ↦ do env' ← assign name (take 255 (env.input)) env; some (pos 0, env')
]

-- What `builtin_umask` and `builtin_hostname` do with the variable of that name
unfoldable pub set_or_show : List ℕ → Handler
unfolding assign shell_get_variable draw_char
set_or_show name env cmd = elim (operands cmd) [
  | [] ↦ some (pos 0, draw_char b'\n' white (draw (shell_get_variable (env.vars) name) env))
  | value ∷ args ↦ do env' ← assign name value env; some (pos 0, env')
]

unfoldable pub builtin_umask : Handler
unfolding set_or_show
builtin_umask env cmd = set_or_show (codes "UMASK") env cmd

unfoldable pub builtin_hostname : Handler
unfolding set_or_show
builtin_hostname env cmd = set_or_show (codes "HOSTNAME") env cmd

unfoldable pub shell_set_variable_int : List ℕ → ℤ → Env → Option Env
unfolding assign int_to_str
shell_set_variable_int name value env = do buf ← int_to_str value; assign name buf env

-- The inner loop of `builtin_shift`, from the parameter `j` on, of which `left` are left; `j + n` is unsigned.
unfoldable pub shift_names : ℕ → ℕ → ℕ → Env → Option Env
unfolding shell_set_variable_int
shift_names zero j n env = some env
shift_names (suc left) j n env = do
  env' ← shell_set_variable_int ((48 + j) ∷ []) (to_int ((j + n) % 2 ^ 32)) env
  shift_names left (j + 1) n env'

-- The outer loop, with `left` rounds to go
unfoldable pub shift_rounds : ℕ → ℕ → Env → Option Env
unfolding shift_names
shift_rounds zero n env = some env
shift_rounds (suc left) n env = do env' ← shift_names 9 1 n env; shift_rounds left n env'

unfoldable pub shift_by : ℤ → Env → Option Env
unfolding shift_rounds
shift_by (pos n) env = shift_rounds n n env
shift_by (negsuc n) env = some env

unfoldable pub builtin_shift : Handler
unfolding shift_by atoi_simple
builtin_shift env cmd = do
  n ← elim (operands cmd) [ [] ↦ some (pos 1) | arg ∷ args ↦ atoi_simple arg ]
  env' ← shift_by n env
  some (pos 0, env')

-- The result of an operation on `int`, if it has no overflow
unfoldable pub in_int : ℤ → Option ℤ
in_int (pos n) = if leb n int_max then some (pos n) else none
in_int (negsuc n) = if leb n int_max then some (negsuc n) else none

-- `result op= n`; a division by 0 is a fault.
unfoldable pub let_step : ℕ → ℤ → ℤ → Option ℤ
unfolding in_int ◌+ℤ◌ ◌-ℤ◌ ◌*ℤ◌ quotient
let_step c result (pos zero) =
    if c == b'+'
    then some result
    else if c == b'-'
    then some result
    else if c == b'*'
    then some (pos 0)
    else none
let_step c result n =
    if c == b'+'
    then in_int (result +ℤ n)
    else if c == b'-'
    then in_int (result -ℤ n)
    else if c == b'*'
    then in_int (result *ℤ n)
    else in_int (quotient result n)

abbrev pub is_operator : ℕ → Bool
is_operator c = (c == b'+') || (c == b'-') || (c == b'*') || (c == b'/')

-- The loop of `builtin_let`
unfoldable pub let_loop : List ℕ → ℤ → Option ℤ
unfolding let_step atoi_simple
let_loop [] result = some result
let_loop (c ∷ expr) result = elim (is_operator c) [
  | false ↦ let_loop expr result
  | true ↦ do n ← atoi_simple expr; result' ← let_step c result n; let_loop expr result'
]

unfoldable pub builtin_let : Handler
unfolding let_loop int_to_str assign
builtin_let env cmd = elim (operands cmd) [
  | [] ↦ some (pos 1, env)
  | expr ∷ args ↦ do
    result ← let_loop expr (pos 0)
    buf ← int_to_str result
    env' ← assign (codes "?") buf env
    some (if is_zero_status result then pos 0 else pos 1, env')
]
