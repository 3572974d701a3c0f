-- ===== src/Shell/Builtins/Fixed.antt =====
-- The builtin commands of ui/shell.c that draw a fixed text or print a fixed error, and return a fixed status.
pub mod Texts
pub mod Tools
pub mod Network
pub mod Disks
pub mod System
use mira_os.Base.{ℕ, List, Option, some, pos}
use mira_os.Shell.Exec.{Handler}
use mira_os.Shell.Env.{shell_print_error}

-- `shell_print_error(msg); return 1;`
unfoldable pub refuse : List ℕ → Handler
unfolding shell_print_error
refuse msg env cmd = some (pos 1, shell_print_error msg env)
