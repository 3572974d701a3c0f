-- ===== src/Shell/Start/Typed.antt =====
-- From the keyboard to the handler of a builtin command of ui/shell.c: a typed line of words.
use mira_os.Shell.Env.{Env}
