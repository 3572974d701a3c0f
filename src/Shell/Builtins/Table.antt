-- ===== src/Shell/Builtins/Table.antt =====
-- The entries of the table of builtin commands, as `shell_register_builtins` gives them.
pub mod First
pub mod Second
pub mod Late
use mira_os.Base.{ℕ, List, Option}
use mira_os.Shell.Parser.{Node}
use mira_os.Shell.Exec.{Handler, Done, Builtin}
use mira_os.Shell.Env.{Env}
use mira_os.Shell.Builtins.Names.{Entries}

-- What the handlers call: the fuel for chains of siblings and for the reads of a file, the names in
-- `builtins`, `shell_execute_command`, `shell_run_script` and `shell_execute_ast`
pub record Calls : Type 0 where
  pub fuel : ℕ
  pub rounds : ℕ
  pub entries : Entries
  pub run : List ℕ → Env → Option Env
  pub script : List ℕ → Env → Option Env
  pub execute : Node → Env → Done

abbrev pub builtin : List ℕ → Handler → List ℕ → Builtin
builtin name handler description = record {
  name = name;
  handler = handler;
  description = description;
}
