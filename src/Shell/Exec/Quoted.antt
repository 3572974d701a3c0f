-- ===== src/Shell/Exec/Quoted.antt =====
-- A command of ui/shell.c with one argument, from its tokens to the handler of the builtin. An argument with `=` in
-- it is one token only in quotes: outside of them the tokenizer makes `=` an operator, at which `parse_command`
-- stops.
use mira_os.Base.{ℕ, ◌≡◌, refl, ◌∙◌, List, [], ◌∷◌, some, ℤ}
use mira_os.Shell.Tables.{shell_resolve_alias}
use mira_os.Shell.Tokens.{TokenType, Token}
use mira_os.Shell.Tokens.Words.{IsWord}
use mira_os.Shell.Parser.{
  Node, parse_tokens, parse_sequence, sequence_from, sequence_loop, set_background,
  parse_expression, parse_pipeline, pipeline_loop, parse_command, parse_args, ast_create_node,
  ast_add_child,
}
use mira_os.Shell.Parser.Words.{command, line_of}
use mira_os.Shell.Env.{Env}
use mira_os.Shell.Exec.{Builtin, Handler, find_builtin, run_command, shell_execute_ast}
use mira_os.Shell.Exec.Lines.{execute_command-word, shell_execute_ast-line_of}

-- A token of that type and text, at some place
abbrev pub token : TokenType → List ℕ → ℕ → Token
token type value column = record { type = type; value = value; line = 1; column = column }

-- The tokens of `WORD "ARG"` and of `WORD NAME=…`, at any columns
abbrev pub quoted : List ℕ → List ℕ → ℕ → ℕ → ℕ → List Token
quoted word arg c1 c2 c3 =
    token TokenType.word word c1 ∷ token TokenType.string arg c2 ∷ token TokenType.eof [] c3 ∷ []

abbrev pub unquoted : List ℕ → List ℕ → List Token → ℕ → ℕ → ℕ → List Token
unquoted word name more c1 c2 c3 =
    token TokenType.word word c1
    ∷ token TokenType.word name c2
    ∷ token TokenType.operator (b'=' ∷ []) c3
    ∷ more

parse_tokens-quoted :
    (word arg : List ℕ) (c1 c2 c3 : ℕ)
    → parse_tokens (quoted word arg c1 c2 c3)
      ≡ some (some (line_of (word ∷ arg ∷ [])), token TokenType.eof [] c3 ∷ [])
unfolding parse_tokens parse_sequence sequence_from sequence_loop set_background parse_expression
    parse_pipeline pipeline_loop parse_command parse_args ast_create_node ast_add_child
parse_tokens-quoted word arg c1 c2 c3 = refl

-- The tokens are parsed as one command, and executing it calls the handler of its builtin.
abbrev pub Runs : List Builtin → List Token → Env → ℤ → Env → Type 0
Runs builtins tokens env status env' =
    (tree : Node) × (rest : List Token) × (parse_tokens tokens ≡ some (some tree, rest))
    × (shell_execute_ast builtins tree env
        ≡ some (status, record env' { last_exit_status = status }))

command_runs :
    (builtins : List Builtin) (word arg : List ℕ) (handler : Handler) (env env' : Env) (status : ℤ)
    → IsWord word
    → find_builtin builtins (shell_resolve_alias (env.aliases) word) ≡ some handler
    → handler env (command (word ∷ arg ∷ [])) ≡ some (status, env')
    → shell_execute_ast builtins (line_of (word ∷ arg ∷ [])) env
      ≡ some (status, record env' { last_exit_status = status })
unfolding run_command
command_runs builtins word arg handler env env' status h found runs =
    shell_execute_ast-line_of builtins (word ∷ arg ∷ []) env env' status (
      execute_command-word builtins word (arg ∷ []) (command (word ∷ arg ∷ [])) env h
      ∙ rw (found, run_command) runs)

pub quoted-Runs :
    (builtins : List Builtin) (word arg : List ℕ) (handler : Handler) (env env' : Env) (status : ℤ)
    (c1 c2 c3 : ℕ)
    → IsWord word
    → find_builtin builtins (shell_resolve_alias (env.aliases) word) ≡ some handler
    → handler env (command (word ∷ arg ∷ [])) ≡ some (status, env')
    → Runs builtins (quoted word arg c1 c2 c3) env status env'
quoted-Runs builtins word arg handler env env' status c1 c2 c3 h found runs = (
  line_of (word ∷ arg ∷ []),
  token TokenType.eof [] c3 ∷ [],
  parse_tokens-quoted word arg c1 c2 c3,
  command_runs builtins word arg handler env env' status h found runs,
)
