-- ===== src/Shell/Exec.antt =====
-- The executor of ui/shell.c and the expansion of variables. A builtin command is a parameter, a function of
-- the shell's tables and the node; `none` is a write outside an array.
pub mod Lines
pub mod Quoted
use mira_os.Base.{
  ℕ, zero, suc, ◌+◌, ◌-◌, Bool, true, false, ◌&&◌, ◌||◌, List, [], ◌∷◌, ◌++◌, Option, none, some,
  leb, ltb, length, drop, take, ◌==◌, if◌then◌else◌, ℤ, pos, negsuc, codes,
}
use mira_os.Shell.Env.{Env, shell_print_error}
use mira_os.Shell.Tables.{Variable, Alias, same_text, shell_get_variable, shell_resolve_alias}
use mira_os.Shell.Tokens.{span, is_name, skip_char, head_or_zero}
use mira_os.Shell.Parser.{NodeType, Node, Nodes, node, nil, cons}

-- `while (*p && *p != '}' && vi < 255) var_name[vi++] = *p++;`
unfoldable pub span_name : ℕ → List ℕ → List ℕ × List ℕ
span_name zero s = ([], s)
span_name (suc room) [] = ([], [])
span_name (suc room) (c ∷ s) =
    let (found, rest) = span_name room s in if c == 125 then ([], c ∷ s) else (c ∷ found, rest)

-- The name after `$` and the input after it; `var_name` holds 256 characters.
unfoldable pub variable_name : List ℕ → Option (List ℕ × List ℕ)
unfolding span_name span is_name skip_char
variable_name s =
    let (braces, t) = skip_char 123 s in
    let (inside, after) = span_name 255 t in
    let (closed, left) = skip_char 125 after in
    let (name, rest) = span is_name s in
    if braces == 1
    then some (inside, left)
    else if ltb (length name) 256
    then some (name, rest)
    else none

-- One round of the loop of `shell_resolve_variables`: what it writes and the input after it
unfoldable pub resolve_one : List Variable → ℕ → List ℕ → Option (List ℕ × List ℕ)
unfolding variable_name shell_get_variable
resolve_one vars c s =
    if c == 36
    then elim (variable_name s) [
      | none ↦ none
      | some (name, rest) ↦ some (shell_get_variable vars name, rest)
    ]
    else if (c == 126) && ((head_or_zero s == 47) || (head_or_zero s == 0))
    then some (shell_get_variable vars (72 ∷ 79 ∷ 77 ∷ 69 ∷ []), s)
    else some (c ∷ [], s)

unfoldable pub written : List ℕ → Option (List ℕ) → Option (List ℕ)
written text none = none
written text (some rest) = some (text ++ rest)

-- The loop, on fuel; `room` is what is left of the 8191 characters of `resolved`.
unfoldable pub resolve_loop : ℕ → List Variable → ℕ → List ℕ → Option (List ℕ)
unfolding resolve_one written
resolve_loop f vars zero s = some []
resolve_loop f vars (suc room) [] = some []
resolve_loop zero vars (suc room) (c ∷ s) = none
resolve_loop (suc f) vars (suc room) (c ∷ s) = elim (resolve_one vars c s) [
  | none ↦ none
  | some (text, rest) ↦
      written (take (suc room) text) (resolve_loop f vars (suc room - length text) rest)
]

unfoldable pub shell_resolve_variables : List Variable → List ℕ → Option (List ℕ)
unfolding resolve_loop
shell_resolve_variables vars input = resolve_loop (length input) vars 8191 input

abbrev pub Handler : Type 0
Handler = Env → Node → Option (ℤ × Env)

-- `builtin_cmd_t`; the shell sets `flags` to 0 and reads it nowhere.
pub record Builtin : Type 0 where
  pub name : List ℕ
  pub handler : Handler
  pub description : List ℕ

abbrev pub Done : Type 0
Done = Option (ℤ × Env)

-- The loop over `builtins`
unfoldable pub find_builtin : List Builtin → List ℕ → Option Handler
unfolding same_text
find_builtin [] name = none
find_builtin (b ∷ builtins) name =
    let rest = find_builtin builtins name in
    if same_text name (b.name) then some (b.handler) else rest

abbrev pub not_found : List ℕ
not_found = codes ": command not found"

-- The command of the name in `resolved`
unfoldable pub run_command : List Builtin → List ℕ → Node → Env → Done
unfolding find_builtin shell_resolve_alias shell_print_error
run_command builtins resolved cmd env =
    elim (find_builtin builtins (shell_resolve_alias (env.aliases) resolved)) [
      | some handler ↦ handler env cmd
      | none ↦ some (pos 127, shell_print_error not_found (shell_print_error resolved env))
    ]

-- NODE_COMMAND
unfoldable pub execute_command : List Builtin → List (List ℕ) → Node → Env → Done
unfolding shell_resolve_variables run_command
execute_command builtins [] cmd env = some (pos 0, env)
execute_command builtins (name ∷ args) cmd env = elim (shell_resolve_variables (env.vars) name) [
  | none ↦ none
  | some resolved ↦ run_command builtins resolved cmd env
]

abbrev pub is_zero_status : ℤ → Bool
is_zero_status (pos n) = n == 0
is_zero_status (negsuc n) = false

-- The node is never NULL here.
unfoldable mutual
  unfolding execute_command

  pub shell_execute_ast : List Builtin → Node → Env → Done
  shell_execute_ast builtins (node NodeType.node_sequence children args bg) env =
      execute_sequence builtins children (pos 0) env
  shell_execute_ast builtins (node NodeType.node_and children args bg) env =
      execute_and builtins children env
  shell_execute_ast builtins (node NodeType.node_or children args bg) env =
      execute_or builtins children env
  shell_execute_ast builtins (node NodeType.node_pipeline children args bg) env =
      execute_pipeline builtins children (pos 0) env
  shell_execute_ast builtins (node NodeType.node_command children args bg) env =
      execute_command builtins args (node NodeType.node_command children args bg) env
  shell_execute_ast builtins (node NodeType.node_subshell children args bg) env =
      execute_first builtins children env

  -- The loop of NODE_SEQUENCE
  execute_sequence : List Builtin → Nodes → ℤ → Env → Done
  execute_sequence builtins nil status env = some (status, env)
  execute_sequence builtins (cons child children) status env =
      elim (shell_execute_ast builtins child env) [
        | none ↦ none
        | some (status', env') ↦
            execute_sequence builtins children status' (record env' { last_exit_status = status' })
      ]

  -- The loop of NODE_PIPELINE
  execute_pipeline : List Builtin → Nodes → ℤ → Env → Done
  execute_pipeline builtins nil status env = some (status, env)
  execute_pipeline builtins (cons child children) status env =
      elim (shell_execute_ast builtins child env) [
        | none ↦ none
        | some (status', env') ↦ execute_pipeline builtins children status' env'
      ]

  execute_and : List Builtin → Nodes → Env → Done
  execute_and builtins nil env = some (pos 1, env)
  execute_and builtins (cons left nil) env = some (pos 1, env)
  execute_and builtins (cons left (cons right children)) env =
      elim (shell_execute_ast builtins left env) [
        | none ↦ none
        | some (status, env') ↦ elim (is_zero_status status) [
          | true ↦ shell_execute_ast builtins right env'
          | false ↦ some (status, env')
        ]
      ]

  execute_or : List Builtin → Nodes → Env → Done
  execute_or builtins nil env = some (pos 0, env)
  execute_or builtins (cons left nil) env = some (pos 0, env)
  execute_or builtins (cons left (cons right children)) env =
      elim (shell_execute_ast builtins left env) [
        | none ↦ none
        | some (status, env') ↦ elim (is_zero_status status) [
          | true ↦ some (status, env')
          | false ↦ shell_execute_ast builtins right env'
        ]
      ]

  execute_first : List Builtin → Nodes → Env → Done
  execute_first builtins nil env = some (pos 0, env)
  execute_first builtins (cons child children) env = shell_execute_ast builtins child env
