-- ===== src/Kernel/Scheduler/Queue.antt =====
-- The ready queue as a list of process addresses: what `scheduler_add` and `scheduler_tick` make of it.
use mira_os.Base.{ℕ, ◌≡◌, ◌≢◌, refl, false, ◌==◌, some, List, [], ◌∷◌, ◌++◌, arith}
use mira_os.Kernel.Process.{System, Process, Procs, State, put, modify}
use mira_os.Kernel.Scheduler.{add_first, add_behind, scheduler_add}
use mira_os.Kernel.Scheduler.Chain.{
  first, last_of, NotIn, Links, Links-snoc, last_of-some, NotIn-last_of,
}

abbrev pub last : List ℕ → ℕ
last [] = 0
last (x ∷ xs) = last_of x xs

-- The ready queue is the list, head first.
pub record Queue (s : System) (xs : List ℕ) : Type 0 where
  pub head_at : s.ready_queue ≡ first xs
  pub tail_at : s.ready_queue_tail ≡ last xs
  pub links : Links s.procs 0 xs

-- `scheduler_add` of a process that is not in the queue puts it at the end; the processes that were in
-- the queue keep their order.
pub scheduler_add-Queue :
    (s : System) (p : ℕ) (proc : Process) (xs : List ℕ)
    → Queue s xs
    → NotIn p xs
    → p ≢ 0
    → s.procs p ≡ some proc
    → (s' : System) × (scheduler_add s p ≡ some s') × Queue s' (xs ++ (p ∷ []))
unfolding scheduler_add add_first add_behind modify
scheduler_add-Queue s p proc [] q out pz at =
    let new : Process = record proc { state = State.ready; next = 0; prev = 0 } in
    (
      record s { procs = put s.procs p (some new); ready_queue = p; ready_queue_tail = p },
      ground (arith, q.head_at),
      record {
        head_at = refl;
        tail_at = refl;
        links = (new, (unfold put in ground arith), refl, refl, tt, pz, tt);
      },
    )
scheduler_add-Queue s p proc (x ∷ xs) q out pz at =
    let t = last_of x xs in
    let (old, at_t, end) = last_of-some s.procs 0 x xs q.links in
    let apart : p ≢ t = NotIn-last_of p x xs out in
    let marked : Process = record proc { state = State.ready } in
    let tail : Process = record old { next = p } in
    let new : Process = record marked { prev = t; next = 0 } in
    let one : Procs = put s.procs p (some marked) in
    let two : Procs = put one t (some tail) in
    let three : Procs = put two p (some new) in
    let nz : (first (x ∷ xs) == 0) ≡ false = ground (arith, q.links.5) in
    let at_t1 : one t ≡ some old = unfold put in ground arith in
    let at_p2 : two p ≡ some marked = unfold put in ground arith in
    (
      record s { procs = three; ready_queue_tail = p },
      ground (arith, q.head_at, q.tail_at),
      record {
        head_at = q.head_at;
        tail_at = snoc_last x xs p;
        links =
            Links-snoc s.procs three 0 p x xs old new out pz at_t (unfold put in ground arith)
              (unfold put in ground arith) refl refl (λ a ne np. unfold put in ground arith)
              q.links;
      },
    )
  where
    snoc_last : (x : ℕ) (xs : List ℕ) (p : ℕ) → p ≡ last_of x (xs ++ (p ∷ []))
    snoc_last x [] p = refl
    snoc_last x (y ∷ xs) p = snoc_last y xs p
