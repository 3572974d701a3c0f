-- ===== src/Shell/Builtins/Jobs.antt =====
-- The builtins on jobs: jobs, fg, bg, kill, killall and wait.
pub mod Laws
use mira_os.Base.{
  ℕ, ◌+◌, Bool, true, false, ◌||◌, List, [], ◌∷◌, ◌++◌, Option, none, some, ◌>>=◌, ltb, length,
  ◌==◌, if◌then◌else◌, ℤ, pos, negsuc, codes, eqb_int,
}
use mira_os.Shell.Numbers.{atoi_simple, int_to_str}
use mira_os.Shell.Tables.{Job}
use mira_os.Shell.Exec.{Handler, Done}
use mira_os.Shell.Env.{Env, shell_print_error}
use mira_os.Shell.Builtins.{operands, draw, to_int, to_uint32}

-- The line for a job, which `buf` holds with its 256 characters
unfoldable pub job_line : Job → Option (List ℕ)
unfolding int_to_str
job_line x = do
  number ← int_to_str (to_int (x.job_id))
  let line =
      number
      ++ codes " "
      ++ (if x.running then codes "Running" else codes "Stopped")
      ++ codes " "
      ++ x.command
      ++ codes "\n"
  if ltb (length line) 256 then some line else none

unfoldable pub draw_jobs : List Job → Env → Option Env
unfolding job_line
draw_jobs [] env = some env
draw_jobs (x ∷ jobs) env = do line ← job_line x; draw_jobs jobs (draw line env)

unfoldable pub builtin_jobs : Handler
unfolding draw_jobs
builtin_jobs env cmd = do env' ← draw_jobs (env.jobs) env; some (pos 0, env')

-- The loops of `builtin_fg` and `builtin_bg`: the first job of that number runs again.
unfoldable pub resume_job : ℤ → List Job → Option (List Job)
resume_job id [] = none
resume_job id (x ∷ jobs) =
    let rest = resume_job id jobs in
    if eqb_int (to_int (x.job_id)) id
    then some (record x { running = true; stopped = false } ∷ jobs)
    else elim rest [ none ↦ none | some jobs' ↦ some (x ∷ jobs') ]

-- The result when the loop over the jobs ends: the changed jobs, or the error `missing`
unfoldable pub changed_jobs : Option (List Job) → List ℕ → Env → Done
unfolding shell_print_error
changed_jobs none missing env = some (pos 1, shell_print_error missing env)
changed_jobs (some jobs) missing env = some (pos 0, record env { jobs = jobs })

unfoldable pub builtin_fg : Handler
unfolding resume_job changed_jobs
builtin_fg env cmd = elim (operands cmd) [
  | [] ↦ some (pos 1, shell_print_error (codes "fg: missing job spec") env)
  | arg ∷ args ↦ do
    id ← atoi_simple arg
    changed_jobs (resume_job id (env.jobs)) (codes "fg: job not found") env
]

unfoldable pub builtin_bg : Handler
unfolding resume_job changed_jobs
builtin_bg env cmd = elim (operands cmd) [
  | [] ↦ some (pos 1, shell_print_error (codes "bg: missing job spec") env)
  | arg ∷ args ↦ do
    id ← atoi_simple arg
    changed_jobs (resume_job id (env.jobs)) (codes "bg: job not found") env
]

-- The loop of `builtin_kill`
unfoldable pub kill_job : ℕ → List Job → Option (List Job)
kill_job pid [] = none
kill_job pid (x ∷ jobs) =
    let rest = kill_job pid jobs in
    if x.pid == pid
    then some (record x { running = false } ∷ jobs)
    else elim rest [ none ↦ none | some jobs' ↦ some (x ∷ jobs') ]

unfoldable pub builtin_kill : Handler
unfolding kill_job changed_jobs
builtin_kill env cmd = elim (operands cmd) [
  | [] ↦ some (pos 1, shell_print_error (codes "kill: missing operand") env)
  | arg ∷ args ↦ do
    pid ← atoi_simple arg
    changed_jobs (kill_job (to_uint32 pid) (env.jobs)) (codes "kill: no such process") env
]

abbrev is_prefix : List ℕ → List ℕ → Bool
is_prefix [] str = true
is_prefix (c ∷ needle) [] = false
is_prefix (c ∷ needle) (d ∷ str) = let rest = is_prefix needle str in if c == d then rest else false

-- `strstr(str, needle)` is not NULL.
unfoldable pub contains : List ℕ → List ℕ → Bool
contains [] needle = is_prefix needle []
contains (c ∷ str) needle = is_prefix needle (c ∷ str) || contains str needle

unfoldable pub kill_named : List ℕ → List Job → List Job
unfolding contains
kill_named name [] = []
kill_named name (x ∷ jobs) =
    (if contains (x.command) name then record x { running = false } else x) ∷ kill_named name jobs

unfoldable pub builtin_killall : Handler
unfolding kill_named
builtin_killall env cmd = elim (operands cmd) [
  | [] ↦ some (pos 1, env)
  | name ∷ args ↦ some (pos 0, record env { jobs = kill_named name (env.jobs) })
]

unfoldable pub any_running : List Job → Bool
any_running [] = false
any_running (x ∷ jobs) = x.running || any_running jobs

-- The loop `while (global_jobs[i].running)` changes no job: at a job that runs it has no end.
unfoldable pub builtin_wait : Handler
unfolding any_running
builtin_wait env cmd = if any_running (env.jobs) then none else some (pos 0, env)
