-- ===== src/Tests/ShellTests.antt =====
-- ui/shell.c at concrete inputs.
use mira_os.Base.{ℕ, ◌≡◌, refl, true, false, none, some, List, [], ◌∷◌, ◌++◌, length, arith, pos}
use mira_os.Shell.Numbers.{
  is_digit, skip_blanks, atoi_loop, negated, signed_result, atoi_signed, atoi_simple, digits,
  int_to_str, uint64_to_str,
}
use mira_os.Shell.Tables.{
  same_text, Variable, Job, replace_value, append_variable, shell_set_variable, shell_get_variable,
  shell_export_variable, unset_variable, unset_all, shell_add_alias, shell_resolve_alias,
  shell_add_history, shell_get_history, shell_job_add, shell_job_remove, shell_job_get, modify_job,
  shell_job_foreground, shell_job_background, shell_job_kill,
}
use mira_os.Shell.Tokens.{
  TokenType, Token, is_letter, is_name, is_word_start, is_word, span, span_brace, span_quoted,
  skip_char, symbol, operator_length, buffered, fixed, scan_variable, scan_string, scan_span,
  scan_operator, scan_token, scan_one, link, tokenize_loop, tokenize,
}
use mira_os.Shell.Tokens.Words.{AreWords, unwords}
use mira_os.Shell.Parser.{
  Node, ast_create_node, ast_add_child, parse_args, parse_command, pipeline_loop, parse_pipeline,
  parse_subshell, parse_expression, join, join_found, sequence_loop, set_background, sequence_from,
  parse_sequence, parse_tokens,
}
use mathlib.Core.Option.{Option}
use mira_os.Shell.Parser.Fuel.{parse_tokens-some}
use mira_os.Shell.Parser.Words.{command, line_of, parse_tokens-tokenize}
use mira_os.Fs.Vfs.{Vfs}
use mira_os.Shell.Env.{Env, shell_print_error}
use mira_os.Shell.Exec.{
  Builtin, Handler, span_name, variable_name, resolve_one, written, resolve_loop,
  shell_resolve_variables, find_builtin, run_command, execute_command, shell_execute_ast,
}

abbrev home : Variable
home = record { name = b'A' ∷ []; value = b'/' ∷ []; exported = false; readonly = false }

-- "ls" and "a.c"
abbrev ls : List ℕ
ls = b'l' ∷ b's' ∷ []

abbrev file : List ℕ
file = b'a' ∷ b'.' ∷ b'c' ∷ []

two_words : AreWords (ls ∷ file ∷ [])
unfolding is_word_start is_word is_name is_letter is_digit
two_words = ((refl, (refl, tt), omega arith), ((refl, (refl, (refl, tt)), omega arith), tt))

parse_tokens-tokenize_example :
    (tokens : List Token) × (last : Token) × (tokenize (unwords (ls ∷ file ∷ [])) ≡ some tokens)
    × (parse_tokens tokens ≡ some (some (line_of (ls ∷ file ∷ [])), last ∷ []))
    × (last.type ≡ TokenType.eof)
parse_tokens-tokenize_example = parse_tokens-tokenize ls (file ∷ []) two_words

abbrev three_tokens : List Token
three_tokens =
    record { type = TokenType.lparen; value = []; line = 1; column = 1 }
    ∷ record { type = TokenType.word; value = ls; line = 1; column = 2 }
    ∷ record { type = TokenType.eof; value = []; line = 1; column = 4 }
    ∷ []

parse_tokens-some_example : (p : Option Node × List Token) × (parse_tokens three_tokens ≡ some p)
parse_tokens-some_example = parse_tokens-some three_tokens

abbrev no_files : Vfs
no_files = record { nodes = λ a. none; root_node = 0; open_table = []; supply = [] }

abbrev pub env : Env
env = record {
  vars = home ∷ [];
  aliases = [];
  jobs = [];
  history = [];
  current_dir = b'/' ∷ [];
  exit_requested = false;
  last_exit_status = pos 0;
  output = [];
  files = no_files;
  clock = [];
  input = [];
  freed = [];
}

-- A command that fails, and one that does nothing
abbrev fails : Handler
fails e n = some (pos 3, e)

abbrev succeeds : Handler
succeeds e n = some (pos 0, e)

abbrev known : List Builtin
known =
    record { name = ls; handler = fails; description = [] }
    ∷ record { name = file; handler = succeeds; description = [] }
    ∷ []

ls_found : find_builtin known (shell_resolve_alias [] ls) ≡ some fails
unfolding find_builtin shell_resolve_alias same_text
ls_found = refl

none_known : find_builtin [] (shell_resolve_alias [] ls) ≡ none
unfolding find_builtin shell_resolve_alias
none_known = refl

left_fails : shell_execute_ast known (command (ls ∷ [])) env ≡ some (pos 3, env)
unfolding shell_execute_ast execute_command shell_resolve_variables resolve_loop resolve_one written
    variable_name run_command find_builtin shell_resolve_alias same_text
left_fails = refl

abbrev job : Job
job = record {
  job_id = 0;
  command = [];
  pid = 9;
  running = true;
  stopped = false;
  exit_status = pos 0;
}

-- Two jobs get the ids 1 and 2. After the first is removed, the next job gets the id 2 again.
job_ids :
    (shell_job_get
        (shell_job_add
          (shell_job_remove (shell_job_add (shell_job_add [] job) job) 1)
          (record job { pid = 8 }))
        2
      ≡ some (record job { job_id = 2 }))
unfolding shell_job_get shell_job_add shell_job_remove modify_job shell_job_foreground
    shell_job_background shell_job_kill shell_export_variable unset_variable unset_all
    shell_add_alias uint64_to_str shell_set_variable replace_value append_variable shell_get_history
    shell_add_history int_to_str digits atoi_simple atoi_signed atoi_loop skip_blanks negated
    signed_result shell_get_variable
job_ids = refl

-- "ls&&(a.c|ls)>" is nine tokens with the end.
parsed :
    (tokens : List Token) × (tokenize
        (ls ++ (38 ∷ 38 ∷ 40 ∷ (file ++ (124 ∷ (ls ++ (41 ∷ 62 ∷ []))))))
      ≡ some tokens)
    × (length tokens ≡ 9)
unfolding tokenize tokenize_loop scan_one link scan_token scan_operator scan_span scan_string
    scan_variable fixed buffered operator_length symbol skip_char span_quoted span_brace span
    is_word is_word_start is_name is_letter is_digit parse_tokens parse_sequence sequence_from
    set_background sequence_loop join_found join parse_expression parse_subshell parse_pipeline
    pipeline_loop parse_command parse_args ast_add_child ast_create_node shell_print_error span_name
parsed = (_, refl, refl)
