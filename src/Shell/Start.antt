-- ===== src/Shell/Start.antt =====
-- The start and the main loop of ui/shell.c: the variables of a new shell, and a tick, which polls the input
pub mod Typed
pub mod Tick
-- and runs the line that Enter ends.
use mira_os.Base.{
  ℕ, zero, suc, ◌+◌, ◌-◌, Bool, true, false, ◌&&◌, ◌||◌, List, [], ◌∷◌, ◌++◌, Option, none, some,
  ◌>>=◌, ltb, take, drop, length, ◌==◌, if◌then◌else◌, pos, codes,
}
use mira_os.Drivers.Keyboard.{Keyboard}
use mira_os.Ui.Input.{
  Input, input_max, input_init, input_poll, input_buffer, input_length, input_dirty,
  input_clear_dirty,
}
use mira_os.Shell.Tables.{Variable, shell_set_variable, shell_export_variable, shell_add_history}
use mira_os.Shell.Exec.{Builtin}
use mira_os.Shell.Env.{Env, timer_ticks}
use mira_os.Shell.Builtins.Files.{until_zero}
use mira_os.Shell.Builtins.Run.{shell_execute_command}

-- The names and values that `shell_init_context` sets, in its order
unfoldable pub initial_values : List (List ℕ × List ℕ)
initial_values =
    (codes "HOME", codes "/home/root")
    ∷ (codes "PATH", codes "/bin:/usr/bin:/usr/local/bin")
    ∷ (codes "PWD", codes "/")
    ∷ (codes "SHELL", codes "/bin/msh.mex")
    ∷ (codes "USER", codes "root")
    ∷ (codes "LOGNAME", codes "root")
    ∷ (codes "HOSTNAME", codes "miraos")
    ∷ (codes "TERM", codes "xterm-256color")
    ∷ (codes "LANG", codes "en_US.UTF-8")
    ∷ (codes "LC_ALL", codes "en_US.UTF-8")
    ∷ (codes "EDITOR", codes "vi")
    ∷ (codes "VISUAL", codes "vi")
    ∷ (codes "PAGER", codes "less")
    ∷ (codes "UMASK", codes "0022")
    ∷ (codes "PS1", codes "root@miraos:/# ")
    ∷ (codes "PS2", codes "> ")
    ∷ (codes "PS4", codes "+ ")
    ∷ (codes "IFS", codes " \t\n")
    ∷ (codes "0", codes "msh.mex")
    ∷ (codes "?", codes "0")
    ∷ (codes "$", codes "1")
    ∷ (codes "!", codes "0")
    ∷ (codes "HUP_IGNORED", codes "0")
    ∷ []

unfoldable pub initial_exports : List (List ℕ)
initial_exports =
    codes "HOME"
    ∷ codes "PATH"
    ∷ codes "PWD"
    ∷ codes "SHELL"
    ∷ codes "USER"
    ∷ codes "LOGNAME"
    ∷ codes "HOSTNAME"
    ∷ codes "TERM"
    ∷ codes "LANG"
    ∷ codes "LC_ALL"
    ∷ []

unfoldable pub set_values : List (List ℕ × List ℕ) → List Variable → Option (List Variable)
unfolding shell_set_variable
set_values [] vars = some vars
set_values ((name, value) ∷ values) vars = do
  vars' ← shell_set_variable vars name value
  set_values values vars'

unfoldable pub export_names : List (List ℕ) → List Variable → List Variable
unfolding shell_export_variable
export_names [] vars = vars
export_names (name ∷ names) vars = export_names names (shell_export_variable vars name)

-- `start_time`, which is read nowhere, takes a value of the clock.
unfoldable pub shell_init_context : Env → Option Env
unfolding set_values export_names initial_values initial_exports timer_ticks
shell_init_context env = do
  (now, env') ← timer_ticks env
  vars ← set_values initial_values (env'.vars)
  some (record env' {
    vars = export_names initial_exports vars;
    current_dir = codes "/";
    exit_requested = false;
    last_exit_status = pos 0;
  })

-- The shell with its keyboard and its input line: `cmd_buf` holds 256 characters, and `cmd_len` is the
-- length in `cmd_field`.
pub record Session : Type 0 where
  pub env : Env
  pub keyboard : Keyboard
  pub line : Input
  pub cmd_buf : List ℕ
  pub cmd_len : ℕ
  pub dirty : Bool

-- `shell_init`, less the layout
unfoldable pub shell_init : Session → Option Session
unfolding shell_init_context input_init
shell_init s = do
  env ← shell_init_context (s.env)
  some (record s {
    env = env;
    line = input_init (s.line);
    cmd_buf = 0 ∷ drop 1 (s.cmd_buf);
    cmd_len = 0;
    dirty = true;
  })

-- `snapshot`: the text before the poll
unfoldable pub snapshot_of : Input → List ℕ
unfolding input_length input_buffer until_zero
snapshot_of line = until_zero (
    take (if ltb (input_length line) input_max then input_length line else input_max - 1)
      (input_buffer line))

-- The copy of the text after the poll to `cmd_buf`
unfoldable pub mirror : Session → Keyboard → Input → Session
unfolding input_length input_buffer
mirror s keyboard line =
    let len = if ltb (input_length line) input_max then input_length line else input_max - 1 in
    record s {
      keyboard = keyboard;
      line = line;
      cmd_buf = take len (input_buffer line) ++ (0 ∷ drop (len + 1) (s.cmd_buf));
      cmd_len = len;
      dirty = true;
      env = record (s.env) { input = until_zero (input_buffer line) };
    }

-- `if (snapshot[0]) { shell_execute_command(snapshot); shell_add_history(snapshot); }`
unfoldable pub run_line : List Builtin → List ℕ → Env → Option Env
unfolding shell_execute_command shell_add_history
run_line builtins [] env = some env
run_line builtins (c ∷ line) env = do
  env' ← shell_execute_command builtins (c ∷ line) env
  some (record env' { history = shell_add_history (env'.history) (c ∷ line) })

-- What follows the poll; `prev` is the length before it.
unfoldable pub after_poll : List Builtin → ℕ → List ℕ → Session → Option Session
unfolding run_line
after_poll builtins prev snapshot s =
    let entered : Option Session = (do
      env ← run_line builtins snapshot (s.env)
      some (record s { env = env; cmd_buf = 0 ∷ drop 1 (s.cmd_buf); cmd_len = 0 })) in
    if ltb 0 prev && (s.cmd_len == 0) then entered else some s

unfoldable pub shell_tick : List Builtin → Session → Option Session
unfolding snapshot_of mirror after_poll input_poll
shell_tick builtins s =
    let (keyboard, line) = input_poll (s.keyboard) (s.line) in
    after_poll builtins (input_length (s.line)) (snapshot_of (s.line)) (mirror s keyboard line)

unfoldable pub shell_dirty : Session → Bool
unfolding input_dirty
shell_dirty s = s.dirty || input_dirty (s.line)

unfoldable pub shell_clear_dirty : Session → Session
unfolding input_clear_dirty
shell_clear_dirty s = record s { dirty = false; line = input_clear_dirty (s.line) }
