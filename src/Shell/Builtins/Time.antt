-- ===== src/Shell/Builtins/Time.antt =====
-- The builtins that read the clock: sleep, date, uptime and timeout; and yes, whose loop has no end.
use mira_os.Base.{
  ℕ, zero, suc, false, ◌/◌, ◌%◌, ◌^◌, ◌-◌, List, [], ◌∷◌, ◌++◌, Option, none, some, ◌>>=◌, ltb,
  length, if◌then◌else◌, ℤ, pos, negsuc, codes,
}
use mira_os.Kernel.Words.{add64, mul64}
use mira_os.Shell.Numbers.{atoi_simple, uint64_to_str}
use mira_os.Shell.Parser.{NodeType, Node, node, nil}
use mira_os.Shell.Exec.{Handler, Done}
use mira_os.Shell.Env.{Env, timer_ticks}
use mira_os.Shell.Builtins.{operands, draw}

-- `(uint64_t)n`
abbrev pub to_uint64 : ℤ → ℕ
to_uint64 (pos n) = n % 2 ^ 64
to_uint64 (negsuc n) = 2 ^ 64 - 1 - n % 2 ^ 64

-- `timer_ticks() + (uint64_t)atoi_simple(arg) * 100`
unfoldable pub deadline : List ℕ → Env → Option (ℕ × Env)
unfolding timer_ticks atoi_simple
deadline arg env = do
  (now, env') ← timer_ticks env
  n ← atoi_simple arg
  some (add64 now (mul64 (to_uint64 n) 100), env')

-- `while (timer_ticks() < ticks)`, on fuel: a round takes a value of the clock.
unfoldable pub sleep_until : ℕ → ℕ → Env → Option Env
unfolding timer_ticks
sleep_until zero ticks env = none
sleep_until (suc f) ticks env = do
  (now, env') ← timer_ticks env
  let rest = sleep_until f ticks env'
  if ltb now ticks then rest else some env'

unfoldable pub builtin_sleep : Handler
unfolding deadline sleep_until
builtin_sleep env cmd = elim (operands cmd) [
  | [] ↦ some (pos 0, env)
  | arg ∷ args ↦ do
    (ticks, env') ← deadline arg env
    env'' ← sleep_until (length (env'.clock)) ticks env'
    some (pos 0, env'')
]

unfoldable pub builtin_date : Handler
unfolding timer_ticks uint64_to_str
builtin_date env cmd = do
  (now, env') ← timer_ticks env
  some (pos 0, draw (codes "Uptime: " ++ uint64_to_str now ++ codes " ticks\n") env')

unfoldable pub builtin_uptime : Handler
unfolding timer_ticks uint64_to_str
builtin_uptime env cmd = do
  (now, env') ← timer_ticks env
  some (pos 0, draw (codes " " ++ uint64_to_str (now / 100) ++ codes "\n") env')

-- The loop of `builtin_timeout`, which runs the command again until the time is over; on fuel, as above.
unfoldable pub repeat_until : (Node → Env → Done) → ℕ → ℕ → Node → Env → Option Env
unfolding timer_ticks
repeat_until execute zero end cmd env = none
repeat_until execute (suc f) end cmd env = do
  (now, env') ← timer_ticks env
  let again : Option Env = (do
    (status, env'') ← execute cmd env'
    repeat_until execute f end cmd env'')
  if ltb now end then again else some env'

-- `execute` is `shell_execute_ast`.
unfoldable pub builtin_timeout : (Node → Env → Done) → Handler
unfolding deadline repeat_until
builtin_timeout execute env cmd = elim (operands cmd) [
  | arg ∷ name ∷ args ↦ do
    (end, env') ← deadline arg env
    env'' ←
        repeat_until execute (length (env'.clock)) end
          (node NodeType.node_command nil (name ∷ args) false) env'
    some (pos 0, env'')
  | _ ↦ some (pos 1, env)
]

unfoldable pub builtin_yes : Handler
builtin_yes env cmd = none
