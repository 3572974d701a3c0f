-- ===== src/Shell/Builtins/Run.antt =====
-- Running a line or a script, and the builtins that run a command: eval, ., source, exec, nohup and trap.
pub mod Lines
-- A builtin of these takes what it calls as an argument, which Shell/Builtins/Table.antt supplies.
use mira_os.Base.{
  ℕ, suc, true, List, [], ◌∷◌, ◌++◌, Option, none, some, ◌>>=◌, length, take, ℤ, pos, negsuc, codes,
}
use mira_os.Fs.Files.{vfs_open, vfs_close, vfs_read}
use mira_os.Shell.Numbers.{atoi_simple}
use mira_os.Shell.Tokens.{Token, tokenize}
use mira_os.Shell.Parser.{NodeType, Node, Nodes, node, nil, cons, parse_tokens}
use mira_os.Shell.Exec.{Handler, Done, Builtin, shell_resolve_variables, shell_execute_ast}
use mira_os.Shell.Env.{Env, shell_print_error}
use mira_os.Shell.Builtins.{operands}
use mira_os.Shell.Builtins.Variables.{assign}
use mira_os.Shell.Builtins.Files.{until_zero}

-- The texts that `ast_free` gives to `kfree`, in its order: the arguments of the commands. The nodes and the
-- arrays are freed too, and are not recorded.
unfoldable mutual
  pub ast_free : Node → List (List ℕ)
  ast_free (node NodeType.node_command children args bg) = free_children children ++ args
  ast_free (node type children args bg) = free_children children

  pub free_children : Nodes → List (List ℕ)
  free_children nil = []
  free_children (cons child children) = ast_free child ++ free_children children

-- The texts that `tokenizer_free_tokens` gives to `kfree`. An argument is the text of its token.
unfoldable pub tokenizer_free_tokens : List Token → List (List ℕ)
tokenizer_free_tokens [] = []
tokenizer_free_tokens (t ∷ tokens) = t.value ∷ tokenizer_free_tokens tokens

-- What is done with the tree that `parse_tokens` returns. What `kfree` writes is not in `Env`: its calls are
-- recorded in `freed`.
unfoldable pub execute_tree : List Builtin → Option Node → Env → Option Env
unfolding shell_execute_ast ast_free
execute_tree builtins none env = some env
execute_tree builtins (some ast) env = do
  (status, env') ← shell_execute_ast builtins ast env
  some (record env' { freed = env'.freed ++ ast_free ast })

unfoldable pub shell_execute_command : List Builtin → List ℕ → Env → Option Env
unfolding execute_tree shell_resolve_variables tokenize parse_tokens tokenizer_free_tokens
shell_execute_command builtins [] env = some env
shell_execute_command builtins (c ∷ cmd) env = do
  resolved ← shell_resolve_variables (env.vars) (c ∷ cmd)
  tokens ← tokenize resolved
  (ast, rest) ← parse_tokens tokens
  env' ← execute_tree builtins ast env
  some (record env' { freed = env'.freed ++ tokenizer_free_tokens tokens })

-- `shell_run_script`; `f` is the fuel for each chain of siblings, and `run` is `shell_execute_command`.
unfoldable pub shell_run_script : ℕ → (List ℕ → Env → Option Env) → List ℕ → Env → Option Env
unfolding vfs_open vfs_read vfs_close until_zero shell_print_error
shell_run_script f run path env = do
  (fd, files) ← vfs_open f (env.files) path 0
  let found : Option Env = (do
    (n, buf, files') ← vfs_read files fd 4095
    let read = record env { files = files' }
    env' ← elim n [ pos (suc k) ↦ run (until_zero buf) read | _ ↦ some read ]
    some (record env' { files = (vfs_close (env'.files) fd).1 }))
  elim fd [
    | pos n ↦ found
    | negsuc n ↦ some (shell_print_error (codes "script not found") (record env { files = files }))
  ]

-- `buf[bi++] = …` while there is room, for the arguments with a space between two
unfoldable pub join_args : List (List ℕ) → List ℕ
join_args [] = []
join_args (arg ∷ []) = arg
join_args (arg ∷ next ∷ args) = arg ++ (b' ' ∷ join_args (next ∷ args))

-- `run` is `shell_execute_command`.
unfoldable pub builtin_eval : (List ℕ → Env → Option Env) → Handler
unfolding join_args
builtin_eval run env cmd = elim (operands cmd) [
  | [] ↦ some (pos 0, env)
  | arg ∷ args ↦ do env' ← run (take 4095 (join_args (arg ∷ args))) env; some (pos 0, env')
]

-- `run` is `shell_run_script`.
unfoldable pub builtin_dot : (List ℕ → Env → Option Env) → Handler
unfolding shell_print_error
builtin_dot run env cmd = elim (operands cmd) [
  | [] ↦ some (pos 1, shell_print_error (codes ". : filename argument required") env)
  | path ∷ args ↦ do env' ← run path env; some (pos 0, env')
]

unfoldable pub builtin_source : (List ℕ → Env → Option Env) → Handler
unfolding builtin_dot
builtin_source run env cmd = builtin_dot run env cmd

-- `shell_execute_ast(ctx, node->children[0])`: a command without children has no such array.
unfoldable pub execute_child : (Node → Env → Done) → Node → Env → Done
execute_child execute (node type nil args background) env = none
execute_child execute (node type (cons child children) args background) env = execute child env

-- `execute` is `shell_execute_ast`.
unfoldable pub builtin_exec : (Node → Env → Done) → Handler
unfolding execute_child
builtin_exec execute env cmd = elim (operands cmd) [
  | [] ↦ some (pos 0, env)
  | arg ∷ args ↦ execute_child execute cmd env
]

unfoldable pub builtin_nohup : (Node → Env → Done) → Handler
unfolding execute_child assign
builtin_nohup execute env cmd = elim (operands cmd) [
  | [] ↦ some (pos 1, env)
  | arg ∷ args ↦ do
    env' ← assign (codes "HUP_IGNORED") (codes "1") env
    execute_child execute cmd env'
]

unfoldable pub builtin_exit : Handler
builtin_exit env cmd = elim (operands cmd) [
  | [] ↦ some (env.last_exit_status, record env { exit_requested = true })
  | arg ∷ args ↦ do status ← atoi_simple arg; some (status, record env { exit_requested = true })
]

-- What `builtin_clear` paints lies over the texts and is not in the state.
unfoldable pub builtin_clear : Handler
builtin_clear env cmd = some (pos 0, env)
