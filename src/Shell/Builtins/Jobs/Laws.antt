-- ===== src/Shell/Builtins/Jobs/Laws.antt =====
-- The builtins on jobs of ui/shell.c against the functions of its job table.
use mira_os.Base.{
  ℕ, ◌<◌, ◌^◌, ◌≡◌, refl, List, [], ◌∷◌, Option, some, none, arith, pos, codes, ◌==◌, Bool-cases,
  Option-cases, inl, inr, eqb_int,
}
use mira_os.Shell.Numbers.{atoi_simple}
use mira_os.Shell.Tables.{Job, modify_job, shell_job_get, shell_job_foreground}
use mira_os.Shell.Parser.Words.{command}
use mira_os.Shell.Exec.{Done}
use mira_os.Shell.Env.{Env, shell_print_error}
use mira_os.Shell.Builtins.{to_int}
use mira_os.Shell.Builtins.Jobs.{resume_job, changed_jobs, builtin_fg, builtin_bg}

-- The numbers of the jobs are within `int`.
abbrev pub AllSmall : List Job → Type 0
AllSmall [] = Unit
AllSmall (x ∷ jobs) = (x.job_id < 2 ^ 31) × AllSmall jobs

-- The jobs when the job of that number runs again, if there is one
abbrev pub resumed : Option Job → List Job → Option (List Job)
resumed none jobs = none
resumed (some x) jobs = some jobs

same_number : (x id : ℕ) → x < 2 ^ 31 → eqb_int (to_int x) (pos id) ≡ (x == id)
same_number x id h = ground arith

resume_job-get :
    (id : ℕ) (jobs : List Job)
    → AllSmall jobs
    → resume_job (pos id) jobs ≡ resumed (shell_job_get jobs id) (shell_job_foreground jobs id)
unfolding resume_job shell_job_get shell_job_foreground modify_job
resume_job-get id [] h = refl
resume_job-get id (x ∷ jobs) h = elim (Bool-cases (x.job_id == id)) [
  | inl e ↦ ground (arith, h.0, e)
  | inr e ↦
      let rest = resume_job-get id jobs h.1 in
      elim (Option-cases (shell_job_get jobs id)) [
        | inl k ↦ ground (arith, h.0, e, k, rest)
        | inr (y, k) ↦ ground (arith, h.0, e, k, rest)
      ]
]

-- The result of fg or bg for the found job
abbrev pub job_result : Option Job → List Job → List ℕ → Env → Done
job_result none jobs missing env = some (pos 1, shell_print_error missing env)
job_result (some x) jobs missing env = some (pos 0, record env { jobs = jobs })

changed_jobs-resumed :
    (found : Option Job) (jobs : List Job) (missing : List ℕ) (env : Env)
    → changed_jobs (resumed found jobs) missing env ≡ job_result found jobs missing env
unfolding changed_jobs
changed_jobs-resumed none jobs missing env = refl
changed_jobs-resumed (some x) jobs missing env = refl

-- `fg N` and `bg N` do what `shell_job_foreground` does for the job of number N, with the status 0, and with no
-- such job print their error and have the status 1; the numbers of the jobs are within `int`.
pub builtin_fg-foreground :
    (env : Env) (word arg : List ℕ) (id : ℕ)
    → atoi_simple arg ≡ some (pos id)
    → AllSmall (env.jobs)
    → (builtin_fg env (command (word ∷ arg ∷ []))
        ≡ job_result
            (shell_job_get (env.jobs) id)
            (shell_job_foreground (env.jobs) id)
            (codes "fg: job not found")
            env)
      × (builtin_bg env (command (word ∷ arg ∷ []))
          ≡ job_result
              (shell_job_get (env.jobs) id)
              (shell_job_foreground (env.jobs) id)
              (codes "bg: job not found")
              env)
unfolding builtin_fg builtin_bg
builtin_fg-foreground env word arg id h small =
    let same = resume_job-get id (env.jobs) small in
    let found = shell_job_get (env.jobs) id in
    let jobs = shell_job_foreground (env.jobs) id in
    (
      rw h (rw same (changed_jobs-resumed found jobs (codes "fg: job not found") env)),
      rw h (rw same (changed_jobs-resumed found jobs (codes "bg: job not found") env)),
    )
