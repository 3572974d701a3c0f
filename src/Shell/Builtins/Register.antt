-- ===== src/Shell/Builtins/Register.antt =====
-- The registration of the builtin commands of ui/shell.c, and the table that results.
pub mod Bound
use mira_os.Base.{ℕ, zero, suc, List, [], ◌∷◌, ◌++◌, Option, none, length, ltb, if◌then◌else◌}
use mira_os.Shell.Exec.{Builtin, shell_execute_ast}
use mira_os.Shell.Builtins.Names.{Entries}
use mira_os.Shell.Builtins.Run.{shell_execute_command, shell_run_script}
use mira_os.Shell.Builtins.Table.{Calls}
use mira_os.Shell.Builtins.Table.First.{first_entries}
use mira_os.Shell.Builtins.Table.Second.{second_entries}
use mira_os.Shell.Builtins.Table.Late.{late_entries}

abbrev pub max_builtins : ℕ
max_builtins = 128

unfoldable pub shell_register_builtin : List Builtin → Builtin → List Builtin
shell_register_builtin builtins b =
    if ltb (length builtins) max_builtins then builtins ++ (b ∷ []) else builtins

unfoldable pub register_all : List Builtin → List Builtin → List Builtin
unfolding shell_register_builtin
register_all builtins [] = builtins
register_all builtins (b ∷ entries) = register_all (shell_register_builtin builtins b) entries

-- The arguments of the calls, in their order
unfoldable pub all_entries : Calls → List Builtin
unfolding first_entries second_entries late_entries
all_entries c = first_entries c ++ (second_entries c ++ late_entries c)

unfoldable pub shell_register_builtins : Calls → List Builtin
unfolding register_all all_entries
shell_register_builtins c = register_all [] (all_entries c)

unfoldable pub names_of : List Builtin → Entries
names_of [] = []
names_of (b ∷ builtins) = (b.name, b.description) ∷ names_of builtins

-- What the handlers call where a line runs a line at most `depth` deep; `f` is the fuel for chains of
-- siblings and `rounds` for the reads of a file.
unfoldable pub table : ℕ → ℕ → Entries → ℕ → List Builtin
unfolding shell_register_builtins shell_execute_command shell_run_script shell_execute_ast
table f rounds entries zero = shell_register_builtins (record {
  fuel = f;
  rounds = rounds;
  entries = entries;
  run = λ cmd env. none;
  script = λ path env. none;
  execute = λ cmd env. none;
})
table f rounds entries (suc depth) =
    let builtins = table f rounds entries depth in
    shell_register_builtins (record {
      fuel = f;
      rounds = rounds;
      entries = entries;
      run = shell_execute_command builtins;
      script = shell_run_script f (shell_execute_command builtins);
      execute = shell_execute_ast builtins;
    })

-- `builtins` after `shell_init`, with its own names for help, type and which
unfoldable pub builtins : ℕ → ℕ → ℕ → List Builtin
unfolding table names_of
builtins f rounds depth = table f rounds (names_of (table f rounds [] zero)) depth
