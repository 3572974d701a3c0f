-- ===== src/Kernel/Scheduler/Rounds.antt =====
-- The timer ticks: one, and a round of them.
use mira_os.Base.{
  ◌>>=◌, ℕ, ◌≡◌, ◌⊎◌, inl, inr, refl, Option, some, List, [], ◌∷◌, ◌++◌, arith, length, sym, ◌∙◌,
  ap,
}
use mathlib.Core.List.{append-nil, append_assoc}
use mira_os.Kernel.Process.{System}
use mira_os.Kernel.Scheduler.{scheduler_tick}
use mira_os.Kernel.Scheduler.Queue.{Queue}
use mira_os.Kernel.Scheduler.Chain.{first}
use mira_os.Kernel.Scheduler.Rotation.{Running, run_head-Queue, rotate-Queue}

-- One timer tick moves the head of the ready queue behind its tail and gives the processor to the new
-- head; a process that is alone goes on.
scheduler_tick-Queue :
    (label : ℕ) (s : System) (x : ℕ) (xs : List ℕ)
    → Queue s (x ∷ xs)
    → Running s
    → (s' : System) × (scheduler_tick label s ≡ some s')
      × Queue s' (xs ++ (x ∷ []))
      × (s'.current_process ≡ first (xs ++ (x ∷ [])))
      × Running s'
unfolding scheduler_tick
scheduler_tick-Queue label s x [] q r =
    let (one, turned, q1, r1) = rotate-Queue s x [] q r in
    let (two, runs, q2, at, r2) = run_head-Queue label one x [] q1 r1 in
    (two, ground (arith, q.head_at, q.links.5, turned, runs), q2, at, r2)
scheduler_tick-Queue label s x (y ∷ xs) q r =
    let (one, turned, q1, r1) = rotate-Queue s x (y ∷ xs) q r in
    let (two, runs, q2, at, r2) = run_head-Queue label one y (xs ++ (x ∷ [])) q1 r1 in
    (two, ground (arith, q.head_at, q.links.5, turned, runs), q2, at, r2)

-- The ticks of the timer one after the other
pub ticks : List ℕ → System → Option System
ticks [] s = some s
ticks (label ∷ labels) s = scheduler_tick label s >>= ticks labels

round_first :
    (one two : System) (x : ℕ) (front back : List ℕ)
    → one.current_process ≡ first (front ++ (back ++ (x ∷ [])))
    → (back ++ (x ∷ [])) ++ front ≡ back ++ (x ∷ front)
    → ((two ≡ one) × (front ≡ [])) ⊎ (two.current_process ≡ first ((back ++ (x ∷ [])) ++ front))
    → two.current_process ≡ first (back ++ (x ∷ front))
round_first one two x front back at whole (inl (same, empty)) = rw same (
    at
    ∙ ap first
        (ap (λ xs. xs ++ (back ++ (x ∷ []))) empty ∙ ap (λ xs. back ++ (x ∷ xs)) (sym empty)))
round_first one two x front back at whole (inr run) = rw whole at run

-- Round robin: after as many ticks as processes stand before it, each process of the ready queue is at the
-- head and, if there was a tick, has the processor; those that were before it wait behind the others in
-- the same order. So a full round leaves the queue as it was, and without a tick the system is unchanged.
pub ticks-Queue :
    (labels : List ℕ) (s : System) (front back : List ℕ)
    → length labels ≡ length front
    → Queue s (front ++ back)
    → Running s
    → (s' : System) × (ticks labels s ≡ some s')
      × Queue s' (back ++ front)
      × (((s' ≡ s) × (front ≡ [])) ⊎ (s'.current_process ≡ first (back ++ front)))
      × Running s'
unfolding ticks
ticks-Queue [] s [] back e q r = (s, refl, rw (append-nil back) q, inl (refl, refl), r)
ticks-Queue [] s (x ∷ front) back e q r = absurd (omega arith)
ticks-Queue (l ∷ labels) s [] back e q r = absurd (omega arith)
ticks-Queue (l ∷ labels) s (x ∷ front) back e q r =
    let (one, runs, q1, runs_first, r1) = scheduler_tick-Queue l s x (front ++ back) q r in
    let regroup = append_assoc front back (x ∷ []) in
    let (two, runs', q2, at', r2) =
      ticks-Queue labels one front (back ++ (x ∷ [])) (omega arith) (rw regroup at q1) r1 in
    let whole = append_assoc back (x ∷ []) front in
    (
      two,
      rw runs runs',
      rw whole at q2,
      inr (round_first one two x front back (rw regroup at runs_first) whole at'),
      r2,
    )
