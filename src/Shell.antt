-- ===== src/Shell.antt =====
-- ui/shell.c: the command shell: its tables, its language, its builtin commands, its cursor, its start and its tick.
pub mod Numbers
pub mod Tables
pub mod Tokens
pub mod Parser
pub mod Env
pub mod Exec
pub mod Builtins
pub mod Start
pub mod Console
