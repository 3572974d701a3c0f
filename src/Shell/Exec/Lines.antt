-- ===== src/Shell/Exec/Lines.antt =====
-- A line of words from the tokenizer to the builtin command, and the connectives `&&`, `||` and `;`.
use mira_os.Base.{
  ℕ, zero, suc, ◌-◌, ◌≤◌, ◌≡◌, ◌≢◌, refl, ap, ◌∙◌, true, false, List, [], ◌∷◌, none, some, length,
  if◌then◌else◌, arith, Bool-cases, ℤ, inl, inr, pos, take,
}
use mira_os.Shell.Tables.{shell_resolve_alias}
use mira_os.Shell.Tokens.{tokenize, Token, is_word, is_name, is_letter, is_word_start}
use mira_os.Shell.Numbers.{is_digit}
use mira_os.Shell.Tokens.Words.{AreWords, IsWord, AllWord, unwords}
use mira_os.Shell.Parser.{parse_tokens}
use mira_os.Shell.Parser.Words.{command, line_of, parse_tokens-tokenize}
use mira_os.Shell.Parser.{NodeType, Node, node, nil, cons}
use mira_os.Shell.Env.{Env, shell_print_error}
use mira_os.Shell.Exec.{
  Builtin, Handler, find_builtin, run_command, execute_command, shell_execute_ast, not_found,
  resolve_one, resolve_loop, shell_resolve_variables, written, is_zero_status,
}

pub other_char : (c : ℕ) → is_word c ≡ true → (c ≢ 36) × (c ≢ 126)
unfolding is_word is_name is_letter is_digit
other_char c h = ground arith

resolve_one-word :
    (env : Env) (c : ℕ) (s : List ℕ)
    → is_word c ≡ true
    → resolve_one (env.vars) c s ≡ some (c ∷ [], s)
unfolding resolve_one
resolve_one-word env c s h = let k = other_char c h in ground arith

pub take_room : (s : List ℕ) (n : ℕ) → length s ≤ n → take n s ≡ s
take_room [] zero h = refl
take_room [] (suc n) h = refl
take_room (c ∷ s) zero h = absurd (omega arith)
take_room (c ∷ s) (suc n) h = ap (λ t. c ∷ t) (take_room s n (omega arith))

pub take_nil : (n : ℕ) → take {A = ℕ} n [] ≡ []
take_nil zero = refl
take_nil (suc n) = refl

-- A word names itself: nothing in it is expanded.
resolve_loop-word :
    (f room : ℕ) (s : List ℕ) (env : Env)
    → AllWord s
    → length s ≤ f
    → resolve_loop f (env.vars) room s ≡ some (take room s)
unfolding resolve_loop written
resolve_loop-word f zero s env h k = refl
resolve_loop-word zero (suc room) [] env h k = refl
resolve_loop-word (suc f) (suc room) [] env h k = refl
resolve_loop-word zero (suc room) (c ∷ s) env h k = absurd (omega arith)
resolve_loop-word (suc f) (suc room) (c ∷ s) env h k =
    let one = resolve_one-word env c s h.0 in
    let rest = resolve_loop-word f room s env h.1 (omega arith) in
    let same : suc room - 1 ≡ room = omega arith in
    rw (one, resolve_loop) (rw same (rw rest (rw (take_nil room) refl)))

pub is_word_of_start : (c : ℕ) → is_word_start c ≡ true → is_word c ≡ true
unfolding is_word_start is_word is_name is_letter is_digit
is_word_of_start c h = ground arith

shell_resolve_variables-word :
    (w : List ℕ) (env : Env) → IsWord w → shell_resolve_variables (env.vars) w ≡ some w
unfolding shell_resolve_variables
shell_resolve_variables-word [] env h = absurd (omega (arith, h))
shell_resolve_variables-word (c ∷ s) env h =
    resolve_loop-word (suc (length s)) 8191 (c ∷ s) env (is_word_of_start c h.0, h.1) (omega arith)
    ∙ ap some (take_room (c ∷ s) 8191 (omega (arith, h.2)))

pub execute_command-word :
    (builtins : List Builtin) (w : List ℕ) (ws : List (List ℕ)) (cmd : Node) (env : Env)
    → IsWord w
    → execute_command builtins (w ∷ ws) cmd env ≡ run_command builtins w cmd env
unfolding execute_command
execute_command-word builtins w ws cmd env h =
    rw (shell_resolve_variables-word w env h, execute_command) refl

pipeline_one :
    (builtins : List Builtin) (child : Node) (env env' : Env) (status : ℤ)
    → shell_execute_ast builtins child env ≡ some (status, env')
    → shell_execute_ast builtins (node NodeType.node_pipeline (cons child nil) [] false) env
      ≡ some (status, env')
unfolding shell_execute_ast
pipeline_one builtins child env env' status h = rw h refl

sequence_one :
    (builtins : List Builtin) (child : Node) (env env' : Env) (status : ℤ)
    → shell_execute_ast builtins child env ≡ some (status, env')
    → shell_execute_ast builtins (node NodeType.node_sequence (cons child nil) [] false) env
      ≡ some (status, record env' { last_exit_status = status })
unfolding shell_execute_ast
sequence_one builtins child env env' status h = rw h refl

pub shell_execute_ast-line_of :
    (builtins : List Builtin) (args : List (List ℕ)) (env env' : Env) (status : ℤ)
    → execute_command builtins args (command args) env ≡ some (status, env')
    → shell_execute_ast builtins (line_of args) env
      ≡ some (status, record env' { last_exit_status = status })
unfolding shell_execute_ast
shell_execute_ast-line_of builtins args env env' status h =
    sequence_one builtins (node NodeType.node_pipeline (cons (command args) nil) [] false) env env'
      status (pipeline_one builtins (command args) env env' status h)

-- A line of words, from its characters to the builtin command: the line is read and parsed as one command,
-- and executing it calls the handler of the builtin that the first word names, through the aliases, on all
-- the words; the status that the handler returns is kept in `last_exit_status`.
pub shell_execute_ast-line :
    (builtins : List Builtin) (w : List ℕ) (ws : List (List ℕ)) (handler : Handler) (env env' : Env)
    (status : ℤ)
    → AreWords (w ∷ ws)
    → find_builtin builtins (shell_resolve_alias (env.aliases) w) ≡ some handler
    → handler env (command (w ∷ ws)) ≡ some (status, env')
    → (tokens rest : List Token) × (tree : Node) × (tokenize (unwords (w ∷ ws)) ≡ some tokens)
      × (parse_tokens tokens ≡ some (some tree, rest))
      × (tree ≡ line_of (w ∷ ws))
      × (shell_execute_ast builtins tree env
          ≡ some (status, record env' { last_exit_status = status }))
unfolding run_command
shell_execute_ast-line builtins w ws handler env env' status h found runs =
    let (tokens, last, read, parsed, end) = parse_tokens-tokenize w ws h in
    let runs_command = execute_command-word builtins w ws (command (w ∷ ws)) env h.0 in
    (
      tokens,
      last ∷ [],
      line_of (w ∷ ws),
      read,
      parsed,
      refl,
      shell_execute_ast-line_of builtins (w ∷ ws) env env' status
          (runs_command ∙ rw (found, run_command) runs),
    )

-- A line of words whose first word no builtin has for its name prints the error and has the status 127.
shell_execute_ast-not_found :
    (builtins : List Builtin) (w : List ℕ) (ws : List (List ℕ)) (env : Env)
    → AreWords (w ∷ ws)
    → find_builtin builtins (shell_resolve_alias (env.aliases) w) ≡ none
    → shell_execute_ast builtins (line_of (w ∷ ws)) env
      ≡ some (
        pos 127,
        record (shell_print_error not_found (shell_print_error w env)) {
          last_exit_status = pos 127;
        },
      )
unfolding run_command
shell_execute_ast-not_found builtins w ws env h found =
    shell_execute_ast-line_of builtins (w ∷ ws) env
      (shell_print_error not_found (shell_print_error w env)) (pos 127)
      (execute_command-word builtins w ws (command (w ∷ ws)) env h.0 ∙ rw (found, run_command) refl)

abbrev pub pair : NodeType → Node → Node → Node
pair type left right = node type (cons left (cons right nil)) [] false

-- `&&` runs its right side only after the status 0, `||` only after another, and `;` always; each returns the
-- status of what ran last.
shell_execute_ast-pair :
    (builtins : List Builtin) (left right : Node) (env one : Env) (status : ℤ)
    → shell_execute_ast builtins left env ≡ some (status, one)
    → (shell_execute_ast builtins (pair NodeType.node_and left right) env ≡ (
        if is_zero_status status then shell_execute_ast builtins right one else some (status, one)))
      × (shell_execute_ast builtins (pair NodeType.node_or left right) env ≡ (
          if is_zero_status status
          then some (status, one)
          else shell_execute_ast builtins right one))
      × ((two : Env) (last : ℤ)
          → shell_execute_ast builtins right (record one { last_exit_status = status })
            ≡ some (last, two)
          → shell_execute_ast builtins (pair NodeType.node_sequence left right) env
            ≡ some (last, record two { last_exit_status = last }))
unfolding shell_execute_ast
shell_execute_ast-pair builtins left right env one status h =
    elim (Bool-cases (is_zero_status status)) [
      | inl e ↦ (rw h (rw e refl), rw h (rw e refl), λ two last k. rw h (rw k refl))
      | inr e ↦ (rw h (rw e refl), rw h (rw e refl), λ two last k. rw h (rw k refl))
    ]
