-- ===== src/Kernel/Scheduler.antt =====
-- The scheduler of kernel/process.c: a doubly linked queue through the fields `next` and `prev` of the
-- process structures, the fields that the list of processes uses too.
pub mod Chain
pub mod Queue
pub mod Rotation
pub mod Rounds
use mira_os.Base.{
  ℕ, suc, ◌+◌, Bool, true, false, not, ◌&&◌, ◌==◌, if◌then◌else◌, Option, none, some, ◌>>=◌,
}
use mira_os.Kernel.Process.{
  System, Process, Procs, State, put, modify, modify_unless_null, process_switch,
}

unfoldable pub scheduler_init : System → System
scheduler_init s = record s { ready_queue = 0; ready_queue_tail = 0 }

unfoldable pub scheduler_next : System → ℕ
scheduler_next s = s.ready_queue

-- `head` is moved behind the tail, and `second` becomes the head.
unfoldable pub rotate_to : System → ℕ → Option System
rotate_to s second = do
  one ← modify s.procs second (λ x. record x { prev = 0 })
  two ← modify one s.ready_queue (λ x. record x { next = 0; prev = s.ready_queue_tail })
  three ← modify two s.ready_queue_tail (λ x. record x { next = s.ready_queue })
  some (record s { procs = three; ready_queue = second; ready_queue_tail = s.ready_queue })

-- The head of the queue is moved to the tail, if something stands behind it.
unfoldable pub rotate : System → Option System
rotate s = elim (s.procs s.ready_queue) [
  | none ↦ none
  | some head ↦ if head.next == 0 then some s else rotate_to s head.next
]

-- The switch to the head of the queue, unless it is running.
unfoldable pub run_head : ℕ → System → Option System
run_head label s =
    if not (s.ready_queue == 0) && not (s.current_process == s.ready_queue)
    then process_switch label s s.ready_queue
    else some s

-- `label` is the place in the code where a process that is switched away from goes on.
unfoldable pub scheduler_tick : ℕ → System → Option System
scheduler_tick label s = if s.ready_queue == 0 then some s else (rotate s >>= run_head label)

-- `scheduler_add` to an empty queue
unfoldable pub add_first : System → ℕ → Option System
add_first s p = do
  procs ← modify s.procs p (λ x. record x { state = State.ready; next = 0; prev = 0 })
  some (record s { procs = procs; ready_queue = p; ready_queue_tail = p })

-- `scheduler_add` behind the tail
unfoldable pub add_behind : System → ℕ → Option System
add_behind s p = do
  one ← modify s.procs p (λ x. record x { state = State.ready })
  two ← modify one s.ready_queue_tail (λ x. record x { next = p })
  three ← modify two p (λ x. record x { prev = s.ready_queue_tail; next = 0 })
  some (record s { procs = three; ready_queue_tail = p })

unfoldable pub scheduler_add : System → ℕ → Option System
scheduler_add s p =
    if p == 0 then some s else if s.ready_queue == 0 then add_first s p else add_behind s p

unfoldable pub scheduler_remove : System → ℕ → Option System
scheduler_remove s p = if p == 0 then some s else elim (s.procs p) [
  | none ↦ none
  | some proc ↦ do
    one ← modify_unless_null s.procs proc.prev (λ x. record x { next = proc.next })
    two ← modify_unless_null one proc.next (λ x. record x { prev = proc.prev })
    three ← modify two p (λ x. record x { next = 0; prev = 0 })
    some (record s {
      procs = three;
      ready_queue = if proc.prev == 0 then proc.next else s.ready_queue;
      ready_queue_tail = if proc.next == 0 then proc.prev else s.ready_queue_tail;
    })
]
