-- ===== src/Shell/Env.antt =====
-- The state of ui/shell.c that commands read and write, and the texts that it draws. A text is the list of
-- its characters; what is drawn is kept as the sequence of the characters with their foreground colours,
-- all on the background 0.
use mira_os.Base.{ℕ, Bool, List, [], ◌∷◌, ◌++◌, Option, none, some, ℤ, codes}
use mira_os.Fs.Vfs.{Vfs}
use mira_os.Shell.Tables.{Variable, Alias, Job}

-- The static tables, the fields of `shell_ctx` that commands use, the characters given to
-- `shell_draw_char`, the file system, what the next calls of `timer_ticks` return, and the text of
-- `input_buffer()`.
pub record Env : Type 0 where
  pub vars : List Variable
  pub aliases : List Alias
  pub jobs : List Job
  pub history : List (List ℕ)
  pub current_dir : List ℕ
  pub exit_requested : Bool
  pub last_exit_status : ℤ
  pub output : List (ℕ × ℕ)
  pub files : Vfs
  pub clock : List ℕ
  pub input : List ℕ
  pub freed : List (List ℕ)

abbrev pub white : ℕ
white = 0xFFFFFF

abbrev pub red : ℕ
red = 0xE94560

-- The call of `shell_draw_char` with the character `c`
unfoldable pub draw_char : ℕ → ℕ → Env → Env
draw_char c fg env = record env { output = env.output ++ ((c, fg) ∷ []) }

unfoldable pub colored : ℕ → List ℕ → List (ℕ × ℕ)
colored fg [] = []
colored fg (c ∷ str) = (c, fg) ∷ colored fg str

unfoldable pub shell_draw_string : List ℕ → ℕ → Env → Env
unfolding colored
shell_draw_string str fg env = record env { output = env.output ++ colored fg str }

unfoldable pub shell_print_error : List ℕ → Env → Env
unfolding shell_draw_string draw_char
shell_print_error msg env =
    draw_char b'\n' red (shell_draw_string msg red (shell_draw_string (codes "Error: ") red env))

unfoldable pub shell_print_warning : List ℕ → Env → Env
unfolding shell_draw_string draw_char
shell_print_warning msg env =
    draw_char b'\n' 0xFFFF00
      (shell_draw_string msg 0xFFFF00 (shell_draw_string (codes "Warning: ") 0xFFFF00 env))

-- `timer_ticks()`; `none` is the end of the given values.
unfoldable pub timer_ticks : Env → Option (ℕ × Env)
timer_ticks env = elim (env.clock) [
  | [] ↦ none
  | ticks ∷ clock ↦ some (ticks, record env { clock = clock })
]
