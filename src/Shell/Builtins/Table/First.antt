-- ===== src/Shell/Builtins/Table/First.antt =====
-- The first 64 calls of `shell_register_builtins`.
use mira_os.Base.{List, [], ◌∷◌, codes}
use mira_os.Shell.Exec.{Builtin}
use mira_os.Shell.Builtins.Table.{Calls, builtin}
use mira_os.Shell.Builtins.Echo.{builtin_cd, builtin_echo, builtin_printf, builtin_pwd}
use mira_os.Shell.Builtins.Variables.{
  builtin_env, builtin_export, builtin_hostname, builtin_let, builtin_read, builtin_set,
  builtin_shift, builtin_umask, builtin_unset,
}
use mira_os.Shell.Builtins.Aliases.{builtin_alias, builtin_history, builtin_unalias}
use mira_os.Shell.Builtins.Jobs.{builtin_bg, builtin_fg, builtin_jobs, builtin_kill, builtin_wait}
use mira_os.Shell.Builtins.Run.{
  builtin_clear, builtin_dot, builtin_eval, builtin_exec, builtin_exit, builtin_nohup,
  builtin_source,
}
use mira_os.Shell.Builtins.Names.{builtin_help, builtin_type, builtin_uname, builtin_which}
use mira_os.Shell.Builtins.Compare.{builtin_bracket, builtin_test}
use mira_os.Shell.Builtins.Fixed.System.{
  builtin_false, builtin_id, builtin_ps, builtin_trap, builtin_true, builtin_ulimit, builtin_whoami,
}
use mira_os.Shell.Builtins.Time.{builtin_date, builtin_sleep, builtin_uptime, builtin_yes}
use mira_os.Shell.Builtins.Fixed.Disks.{builtin_df, builtin_mount, builtin_umount}
use mira_os.Shell.Builtins.Fixed.Texts.{
  builtin_awk, builtin_chmod, builtin_chown, builtin_cp, builtin_grep, builtin_head, builtin_mv,
  builtin_rm, builtin_rmdir, builtin_sed, builtin_tail, builtin_wc,
}
use mira_os.Shell.Builtins.Files.{builtin_cat, builtin_ls, builtin_mkdir, builtin_touch}

unfoldable pub first_entries : Calls → List Builtin
first_entries c =
    builtin (codes "echo") builtin_echo (codes "Display a line of text")
    ∷ builtin (codes "cd") builtin_cd (codes "Change the shell working directory")
    ∷ builtin (codes "pwd") builtin_pwd (codes "Print name of current/working directory")
    ∷ builtin (codes "export") builtin_export (codes "Set export attribute for variables")
    ∷ builtin (codes "set") builtin_set (codes "Set or unset values of shell attributes")
    ∷ builtin (codes "unset") builtin_unset (codes "Unset values and attributes of variables")
    ∷ builtin (codes "env") builtin_env (codes "Display environment variables")
    ∷ builtin (codes "history") builtin_history (codes "Display or manipulate the history list")
    ∷ builtin (codes "alias") builtin_alias (codes "Define or display aliases")
    ∷ builtin (codes "unalias") builtin_unalias
        (codes "Remove each NAME from the list of defined aliases")
    ∷ builtin (codes "jobs") builtin_jobs (codes "List active jobs")
    ∷ builtin (codes "fg") builtin_fg (codes "Put job in foreground")
    ∷ builtin (codes "bg") builtin_bg (codes "Put job in background")
    ∷ builtin (codes "clear") builtin_clear (codes "Clear the terminal screen")
    ∷ builtin (codes "exit") builtin_exit (codes "Exit the shell")
    ∷ builtin (codes "help") (builtin_help c.entries) (codes "Display help for builtin commands")
    ∷ builtin (codes "type") (builtin_type c.entries)
        (codes "Display information about command type")
    ∷ builtin (codes "read") builtin_read (codes "Read a line from standard input")
    ∷ builtin (codes "test") builtin_test (codes "Check file types and compare values")
    ∷ builtin (codes "[") builtin_bracket (codes "Evaluate conditional expression")
    ∷ builtin (codes "printf") builtin_printf (codes "Format and print data")
    ∷ builtin (codes "true") builtin_true (codes "Return a successful result")
    ∷ builtin (codes "false") builtin_false (codes "Return an unsuccessful result")
    ∷ builtin (codes "sleep") builtin_sleep (codes "Delay for a specified time")
    ∷ builtin (codes "date") builtin_date (codes "Display or set date and time")
    ∷ builtin (codes "umask") builtin_umask (codes "Get or set the file creation mask")
    ∷ builtin (codes "ulimit") builtin_ulimit (codes "Control resources available to the shell")
    ∷ builtin (codes "shift") builtin_shift (codes "Shift positional parameters")
    ∷ builtin (codes "trap") builtin_trap (codes "Trap signals and other events")
    ∷ builtin (codes "umount") builtin_umount (codes "Unmount file systems")
    ∷ builtin (codes "mount") builtin_mount (codes "Mount a file system")
    ∷ builtin (codes "df") builtin_df (codes "Report file system disk space usage")
    ∷ builtin (codes "ps") builtin_ps (codes "Report process status")
    ∷ builtin (codes "kill") builtin_kill (codes "Send a signal to a process")
    ∷ builtin (codes "nohup") (builtin_nohup c.execute) (codes "Run a command immune to hangups")
    ∷ builtin (codes "wait") builtin_wait (codes "Wait for process completion")
    ∷ builtin (codes "exec") (builtin_exec c.execute) (codes "Execute a command")
    ∷ builtin (codes ".") (builtin_dot c.script) (codes "Execute commands from a file")
    ∷ builtin (codes "source") (builtin_source c.script) (codes "Execute commands from a file")
    ∷ builtin (codes "eval") (builtin_eval c.run) (codes "Evaluate several commands/arguments")
    ∷ builtin (codes "let") builtin_let (codes "Evaluate arithmetic expressions")
    ∷ builtin (codes "yes") builtin_yes (codes "Output a string repeatedly")
    ∷ builtin (codes "head") builtin_head (codes "Output the first part of files")
    ∷ builtin (codes "tail") builtin_tail (codes "Output the last part of files")
    ∷ builtin (codes "wc") builtin_wc (codes "Print newline, word, and byte counts")
    ∷ builtin (codes "grep") builtin_grep (codes "Print lines matching a pattern")
    ∷ builtin (codes "sed") builtin_sed (codes "Stream editor for filtering text")
    ∷ builtin (codes "awk") builtin_awk (codes "Pattern scanning and processing language")
    ∷ builtin (codes "cat") (builtin_cat c.fuel c.rounds) (codes "Concatenate files and print")
    ∷ builtin (codes "ls") (builtin_ls c.fuel) (codes "List directory contents")
    ∷ builtin (codes "mkdir") (builtin_mkdir c.fuel) (codes "Make directories")
    ∷ builtin (codes "rmdir") builtin_rmdir (codes "Remove empty directories")
    ∷ builtin (codes "rm") builtin_rm (codes "Remove files or directories")
    ∷ builtin (codes "touch") (builtin_touch c.fuel) (codes "Change file timestamps")
    ∷ builtin (codes "cp") builtin_cp (codes "Copy files and directories")
    ∷ builtin (codes "mv") builtin_mv (codes "Move or rename files")
    ∷ builtin (codes "chmod") builtin_chmod (codes "Change file mode bits")
    ∷ builtin (codes "chown") builtin_chown (codes "Change file owner and group")
    ∷ builtin (codes "whoami") builtin_whoami (codes "Print effective user name")
    ∷ builtin (codes "id") builtin_id (codes "Print user and group information")
    ∷ builtin (codes "uptime") builtin_uptime (codes "Show how long the system has been running")
    ∷ builtin (codes "uname") builtin_uname (codes "Print system information")
    ∷ builtin (codes "hostname") builtin_hostname (codes "Show or set the system host name")
    ∷ builtin (codes "which") (builtin_which c.entries) (codes "Locate a command")
    ∷ []
