-- ===== src/Shell/Builtins.antt =====
-- The builtin commands of ui/shell.c: what their handlers share. A handler takes the shell's state and the
-- node of the command; `none` is a fault, a write outside an array, the overflow of an `int`, a loop
-- without an end, or the end of the given clock.
pub mod Variables
pub mod Table
pub mod Register
pub mod Fixed
pub mod Run
pub mod Files
pub mod Time
pub mod Names
pub mod Compare
pub mod Echo
pub mod Jobs
pub mod Aliases
use mira_os.Base.{
  ℕ, ◌+◌, ◌-◌, ◌%◌, ◌^◌, List, [], ◌∷◌, Option, none, some, ltb, drop, if◌then◌else◌, ℤ, pos,
  negsuc,
}
use mira_os.Shell.Parser.{Node, node}
use mira_os.Shell.Env.{Env, white, shell_draw_string}

-- `node->data.cmd.args` and what follows the command's name
abbrev pub args_of : Node → List (List ℕ)
args_of (node type children args background) = args

abbrev pub operands : Node → List (List ℕ)
operands cmd = drop 1 (args_of cmd)

-- `shell_draw_string(str, 0xFFFFFF, 0x000000)`
abbrev pub draw : List ℕ → Env → Env
draw str env = shell_draw_string str white env

-- `(int)x` of a `uint32_t`, and back
abbrev pub to_int : ℕ → ℤ
to_int x = if ltb x (2 ^ 31) then pos x else negsuc (2 ^ 32 - 1 - x)

abbrev pub to_uint32 : ℤ → ℕ
to_uint32 (pos n) = n % 2 ^ 32
to_uint32 (negsuc n) = 2 ^ 32 - 1 - n % 2 ^ 32
