-- ===== src/Tests/BuiltinTests.antt =====
-- The builtin commands and the main loop of ui/shell.c at concrete inputs.
use mira_os.Base.{
  ℕ, ◌≡◌, refl, true, false, none, some, List, [], ◌∷◌, ◌++◌, replicate, arith, pos, codes, ◌/◌,
}
use mira_os.Drivers.Keyboard.{Keyboard}
use mira_os.Ui.Input.{Input}
use mira_os.Shell.Tables.{Alias, Job, same_text, shell_job_get, shell_job_foreground}
use mira_os.Shell.Parser.Words.{command}
use mira_os.Shell.Builtins.Compare.{builtin_test, test_status, compare_numbers}
use mira_os.Shell.Env.{Env}
use mira_os.Shell.Exec.{Builtin, not_found}
use mira_os.Shell.Builtins.Variables.{builtin_set}
use mira_os.Shell.Builtins.Aliases.{builtin_alias, builtin_unalias}
use mira_os.Shell.Builtins.Jobs.{builtin_fg, builtin_bg}
use mira_os.Shell.Builtins.Jobs.Laws.{job_result, builtin_fg-foreground}
use mira_os.Shell.Numbers.{
  atoi_simple, atoi_signed, atoi_loop, skip_blanks, signed_result, negated, is_digit,
}
use mira_os.Shell.Builtins.Table.{Calls}
use mira_os.Shell.Builtins.Table.First.{first_entries}
use mira_os.Shell.Builtins.Table.Second.{second_entries}
use mira_os.Shell.Builtins.Table.Late.{late_entries}
use mira_os.Shell.Builtins.Register.{shell_register_builtins}
use mira_os.Shell.Builtins.Register.Bound.{AllMissing, shell_register_builtins_lem}
use mira_os.Shell.Console.{Console, draw_all}
use mira_os.Shell.Console.Bounds.{AllInRange, fresh, draw_all-AllInRange}
use mira_os.Shell.Start.{Session}
use mira_os.Shell.Env.{white, shell_print_error}
use mira_os.Tests.ShellTests.{env}

abbrev name : List ℕ
name = codes "N_1"

abbrev some_builtins : List Builtin
some_builtins =
    record { name = codes "set"; handler = builtin_set; description = [] }
    ∷ record { name = codes "alias"; handler = builtin_alias; description = [] }
    ∷ record { name = codes "unalias"; handler = builtin_unalias; description = [] }
    ∷ []

abbrev listing : Alias
listing = record { name = name; value = codes "ls" }

abbrev aliased : Env
aliased = record env { aliases = listing ∷ [] }

same_name : same_text name name ≡ true
unfolding same_text
same_name = refl

abbrev stopped_job : Job
stopped_job = record {
  job_id = 1;
  command = [];
  pid = 9;
  running = false;
  stopped = true;
  exit_status = pos 0;
}

abbrev with_job : Env
with_job = record env { jobs = stopped_job ∷ [] }

one : atoi_simple (codes "1") ≡ some (pos 1)
unfolding atoi_simple atoi_signed atoi_loop skip_blanks signed_result negated is_digit
one = refl

builtin_fg-foreground_example :
    (builtin_fg with_job (command (codes "fg" ∷ codes "1" ∷ []))
      ≡ job_result
          (shell_job_get (stopped_job ∷ []) 1)
          (shell_job_foreground (stopped_job ∷ []) 1)
          (codes "fg: job not found")
          with_job)
    × (builtin_bg with_job (command (codes "fg" ∷ codes "1" ∷ []))
        ≡ job_result
            (shell_job_get (stopped_job ∷ []) 1)
            (shell_job_foreground (stopped_job ∷ []) 1)
            (codes "bg: job not found")
            with_job)
builtin_fg-foreground_example =
    builtin_fg-foreground with_job (codes "fg") (codes "1") 1 one (omega arith, tt)

abbrev no_calls : Calls
no_calls = record {
  fuel = 8;
  rounds = 8;
  entries = [];
  run = λ cmd e. none;
  script = λ path e. none;
  execute = λ cmd e. none;
}

shell_register_builtins_lem_example :
    (shell_register_builtins no_calls ≡ first_entries no_calls ++ second_entries no_calls)
    × AllMissing (shell_register_builtins no_calls) (late_entries no_calls)
shell_register_builtins_lem_example = shell_register_builtins_lem no_calls

draw_all-AllInRange_example :
    (s : Console) × (draw_all (some (80, 32)) (codes "Error: a\n") fresh ≡ some s)
    × AllInRange (80 / 8) (32 / 16) (s.cells)
draw_all-AllInRange_example =
    draw_all-AllInRange 80 32 (codes "Error: a\n") (omega arith) (omega arith) (ground arith)

-- A keyboard with one key in its queue, and a line
abbrev pressed : ℕ → Keyboard
pressed sc = record {
  kbd_buffer = sc ∷ replicate 127 0;
  kbd_head = 1;
  kbd_tail = 0;
  shift_pressed = false;
  caps_lock = false;
}

abbrev pwd_line : Input
pwd_line = record {
  input_buf = codes "pwd " ++ replicate 252 0;
  input_len = 4;
  input_changed = true;
}

abbrev session : ℕ → Input → Session
session sc line = record {
  env = env;
  keyboard = pressed sc;
  line = line;
  cmd_buf = replicate 256 0;
  cmd_len = 0;
  dirty = false;
}

abbrev shown : Env
shown = record env { output = (b'/', white) ∷ (10, white) ∷ [] }

abbrev x_line : Input
x_line = record { input_buf = b'x' ∷ replicate 255 0; input_len = 1; input_changed = true }

-- The state after the command `x`, which is not found
abbrev after_x : Env
after_x = record (shell_print_error not_found (shell_print_error (codes "x") env)) {
  last_exit_status = pos 127;
  freed = codes "x" ∷ codes "x" ∷ [] ∷ [];
}

-- The operator of an infix test stands in the place where the first operand is looked for.
infix_test :
    builtin_test env (command (codes "test" ∷ codes "a" ∷ codes "=" ∷ codes "a" ∷ []))
    ≡ some (pos 1, env)
unfolding builtin_test test_status compare_numbers same_text
infix_test = refl
