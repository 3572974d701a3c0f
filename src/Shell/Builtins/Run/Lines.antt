-- ===== src/Shell/Builtins/Run/Lines.antt =====
-- `shell_execute_command` of ui/shell.c on a line of words.
use mira_os.Base.{
  sym, Option, none, ℕ, zero, suc, ◌-◌, ◌≤◌, ◌≡◌, ◌≢◌, refl, ap, ◌∙◌, List, [], ◌∷◌, ◌++◌, some,
  length, take, arith, ℤ,
}
use mathlib.Core.List.{append-nil}
use mira_os.Kernel.Words.{add32}
use mira_os.Shell.Tables.{Variable, shell_resolve_alias}
use mira_os.Shell.Tokens.{Token, tokenize}
use mira_os.Shell.Tokens.Words.{AreWords, AllWord, unwords, word_tokens, tokenize-unwords}
use mira_os.Shell.Parser.{Node, parse_tokens}
use mira_os.Shell.Parser.Words.{command, line_of}
use mira_os.Shell.Env.{Env}
use mira_os.Shell.Exec.{
  Builtin, Handler, find_builtin, resolve_one, resolve_loop, written, shell_resolve_variables,
  shell_execute_ast,
}
use mira_os.Shell.Exec.Lines.{
  shell_execute_ast-line, take_room, take_nil, other_char, is_word_of_start,
}
use mira_os.Shell.Builtins.Run.{
  ast_free, free_children, tokenizer_free_tokens, execute_tree, shell_execute_command,
}

-- No character that the expansion of variables changes
abbrev pub AllPlain : List ℕ → Type 0
AllPlain [] = Unit
AllPlain (c ∷ s) = (c ≢ 36) × (c ≢ 126) × AllPlain s

resolve_one-plain :
    (vars : List Variable) (c : ℕ) (s : List ℕ)
    → c ≢ 36
    → c ≢ 126
    → resolve_one vars c s ≡ some (c ∷ [], s)
unfolding resolve_one
resolve_one-plain vars c s h k = ground arith

resolve_loop-plain :
    (f room : ℕ) (s : List ℕ) (vars : List Variable)
    → AllPlain s
    → length s ≤ f
    → resolve_loop f vars room s ≡ some (take room s)
unfolding resolve_loop written
resolve_loop-plain f zero s vars h k = refl
resolve_loop-plain f (suc room) [] vars h k = refl
resolve_loop-plain zero (suc room) (c ∷ s) vars h k = absurd (omega arith)
resolve_loop-plain (suc f) (suc room) (c ∷ s) vars h k =
    let one = resolve_one-plain vars c s h.0 h.1 in
    let rest = resolve_loop-plain f room s vars h.2 (omega arith) in
    let same : suc room - 1 ≡ room = omega arith in
    rw (one, resolve_loop) (rw same (rw rest (rw (take_nil room) refl)))

shell_resolve_variables-plain :
    (s : List ℕ) (vars : List Variable)
    → AllPlain s
    → length s ≤ 8191
    → shell_resolve_variables vars s ≡ some s
unfolding shell_resolve_variables
shell_resolve_variables-plain s vars h fit =
    resolve_loop-plain (length s) 8191 s vars h (omega arith) ∙ ap some (take_room s 8191 fit)

word-AllPlain : (w rest : List ℕ) → AllWord w → AllPlain rest → AllPlain (w ++ rest)
word-AllPlain [] rest h k = k
word-AllPlain (c ∷ w) rest h k =
    let other = other_char c h.0 in (other.0, other.1, word-AllPlain w rest h.1 k)

unwords-AllPlain : (ws : List (List ℕ)) → AreWords ws → AllPlain (unwords ws)
unwords-AllPlain [] h = tt
unwords-AllPlain ([] ∷ ws) h = absurd (omega (arith, h.0))
unwords-AllPlain ((c ∷ w) ∷ ws) h =
    let after : AllPlain (32 ∷ unwords ws) = (omega arith, omega arith, unwords-AllPlain ws h.1) in
    let first = other_char c (is_word_of_start c h.0.0) in
    (first.0, first.1, word-AllPlain w (32 ∷ unwords ws) h.0.1 after)

execute_command-tree :
    (builtins : List Builtin) (c : ℕ) (s : List ℕ) (env env' : Env) (status : ℤ)
    (tokens rest : List Token) (tree : Node)
    → shell_resolve_variables (env.vars) (c ∷ s) ≡ some (c ∷ s)
    → tokenize (c ∷ s) ≡ some tokens
    → parse_tokens tokens ≡ some (some tree, rest)
    → shell_execute_ast builtins tree env ≡ some (status, env')
    → shell_execute_command builtins (c ∷ s) env
      ≡ some (record env' { freed = (env'.freed ++ ast_free tree) ++ tokenizer_free_tokens tokens })
unfolding shell_execute_command execute_tree
execute_command-tree builtins c s env env' status tokens rest tree plain read parsed runs =
    rw plain (rw read (rw parsed (rw runs refl)))

free_line : (args : List (List ℕ)) → ast_free (line_of args) ≡ args
unfolding ast_free free_children
free_line args = append-nil (args ++ []) ∙ append-nil args

free_words :
    (ws : List (List ℕ)) (line column : ℕ)
    → tokenizer_free_tokens (word_tokens ws line column) ≡ ws ++ ([] ∷ [])
unfolding tokenizer_free_tokens word_tokens
free_words [] line column = refl
free_words (w ∷ ws) line column =
    ap (λ t. w ∷ t) (free_words ws line (add32 (add32 column (length w)) 1))

freed_tokens :
    (ws : List (List ℕ)) (tokens : List Token)
    → AreWords ws
    → tokenize (unwords ws) ≡ some tokens
    → tokenizer_free_tokens tokens ≡ ws ++ ([] ∷ [])
freed_tokens ws tokens h read =
    let same : some tokens ≡ some (word_tokens ws 1 1) = sym read ∙ tokenize-unwords ws h in
    ap (λ (o : Option (List Token)). free_or_none o) same ∙ free_words ws 1 1
  where
    free_or_none : Option (List Token) → List (List ℕ)
    free_or_none none = []
    free_or_none (some ts) = tokenizer_free_tokens ts

-- After a line of words: the status is kept, and each word has been given to `kfree` twice.
abbrev pub after_line : List (List ℕ) → ℤ → Env → Env
after_line words status env = record env {
  last_exit_status = status;
  freed = (env.freed ++ words) ++ (words ++ ([] ∷ []));
}

-- `shell_execute_command` on a line of words of at most 8191 characters, each with a blank after it: it calls
-- the handler that the first word names, through the aliases, on all the words, and the status that the
-- handler returns is kept in `last_exit_status`; each word is then given to `kfree` twice.
pub shell_execute_command-line :
    (builtins : List Builtin) (w : List ℕ) (ws : List (List ℕ)) (handler : Handler) (env env' : Env)
    (status : ℤ)
    → AreWords (w ∷ ws)
    → length (unwords (w ∷ ws)) ≤ 8191
    → find_builtin builtins (shell_resolve_alias (env.aliases) w) ≡ some handler
    → handler env (command (w ∷ ws)) ≡ some (status, env')
    → shell_execute_command builtins (unwords (w ∷ ws)) env ≡ some (after_line (w ∷ ws) status env')
shell_execute_command-line builtins [] ws handler env env' status h fit found runs =
    absurd (omega (arith, h.0))
shell_execute_command-line builtins (c ∷ w) ws handler env env' status h fit found runs =
    let plain =
      shell_resolve_variables-plain (unwords ((c ∷ w) ∷ ws)) (env.vars)
        (unwords-AllPlain ((c ∷ w) ∷ ws) h) fit in
    let (tokens, rest, tree, read, parsed, shape, result) =
      shell_execute_ast-line builtins (c ∷ w) ws handler env env' status h found runs in
    let first : ast_free tree ≡ (c ∷ w) ∷ ws = ap ast_free shape ∙ free_line ((c ∷ w) ∷ ws) in
    let second = freed_tokens ((c ∷ w) ∷ ws) tokens h read in
    execute_command-tree builtins c (w ++ (32 ∷ unwords ws)) env
      (record env' { last_exit_status = status }) status tokens rest tree plain read parsed result
    ∙ rw (first, second) refl
