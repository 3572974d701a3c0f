-- ===== src/Kernel/Scheduler/Rotation.antt =====
-- What one timer tick is made of: the rotation of the ready queue and the switch to its head.
use mira_os.Base.{
  ℕ, ◌≡◌, ◌≢◌, ◌⊎◌, inl, inr, refl, ◌==◌, if◌then◌else◌, some, List, [], ◌∷◌, ◌++◌, arith,
  Bool-cases, ◌∙◌,
}
use native.Mathlib.Decide.{dec_lt}
use mira_os.Kernel.Process.{System, Process, Procs, put, modify, modify_unless_null, process_switch}
use mira_os.Kernel.Scheduler.{rotate_to, rotate, run_head}
use mira_os.Kernel.Scheduler.Queue.{Queue}
use mira_os.Kernel.Scheduler.Chain.{
  Links-context, put_self, put_ne, last_of, Links-put, Links-head, Links-snoc, last_of-some,
  NotIn-last_of,
}

-- The running process, if there is one, has a structure.
abbrev pub Running : System → Type 0
Running s = (s.current_process ≡ 0) ⊎ ((p : Process) × (s.procs s.current_process ≡ some p))

put-some :
    (f : Procs) (a c : ℕ) (v p : Process)
    → f c ≡ some p
    → (r : Process) × (put f a (some v) c ≡ some r)
unfolding put
put-some f a c v p h = elim (Bool-cases (c == a)) [
  | inl e ↦ (v, ground arith)
  | inr e ↦ (p, ground arith)
]

-- The state after the processor has been given to the process at `x`.
abbrev given : System → Procs → ℕ → Process → System
given s procs x px = record s {
  procs = procs;
  current_process = x;
  cpu = px.context;
  cpu_cr3 = if px.cr3 == 0 then s.cpu_cr3 else px.cr3;
}

module _ (label : ℕ) (s : System) (x : ℕ) (px : Process) (nz : x ≢ 0)
    (at : s.procs x ≡ some px) where
  process_switch-null :
      s.current_process ≡ 0 → process_switch label s x ≡ some (given s s.procs x px)
  unfolding process_switch modify_unless_null
  process_switch-null z = ground arith

  process_switch-some :
      (p : Process)
      → s.current_process ≢ 0
      → s.current_process ≢ x
      → s.procs s.current_process ≡ some p
      → process_switch label s x
        ≡ some (
            given s
              (put s.procs s.current_process
                (some (record p { context = record (s.cpu) { rip = label } })))
              x
              px)
  unfolding process_switch modify_unless_null modify put
  process_switch-some p c other at_c = ground arith

-- A switch to another process that has a structure.
switch-Queue :
    (label : ℕ) (s : System) (x : ℕ) (xs : List ℕ)
    → Queue s (x ∷ xs)
    → s.current_process ≢ x
    → Running s
    → (s' : System) × (process_switch label s x ≡ some s')
      × Queue s' (x ∷ xs)
      × (s'.current_process ≡ x)
      × Running s'
switch-Queue label s x xs q other run = from run
  where
    px : Process
    px = q.links.0

    at : s.procs x ≡ some px
    at = q.links.1

    nz : x ≢ 0
    nz = q.links.5

    none_runs :
        s.current_process ≡ 0
        → (s' : System) × (process_switch label s x ≡ some s')
          × Queue s' (x ∷ xs)
          × (s'.current_process ≡ x)
          × Running s'
    none_runs z = (
      given s s.procs x px,
      process_switch-null label s x px nz at z,
      record { head_at = q.head_at; tail_at = q.tail_at; links = q.links },
      refl,
      inr (px, at),
    )

    from :
        Running s
        → (s' : System) × (process_switch label s x ≡ some s')
          × Queue s' (x ∷ xs)
          × (s'.current_process ≡ x)
          × Running s'
    from (inl z) = none_runs z
    from (inr (p, at_c)) = elim (dec_lt 0 s.current_process) [
      | no z ↦ none_runs (omega arith)
      | yes c ↦
          let saved : Process = record p { context = record (s.cpu) { rip = label } } in
          (
            given s (put s.procs s.current_process (some saved)) x px,
            process_switch-some label s x px nz at p (omega arith) other at_c,
            record {
              head_at = q.head_at;
              tail_at = q.tail_at;
              links =
                  Links-context s.procs s.current_process 0 p saved (x ∷ xs) at_c refl refl q.links;
            },
            refl,
            inr (put-some s.procs s.current_process x saved px at),
          )
    ]

-- The head runs after `run_head`.
pub run_head-Queue :
    (label : ℕ) (s : System) (x : ℕ) (xs : List ℕ)
    → Queue s (x ∷ xs)
    → Running s
    → (s' : System) × (run_head label s ≡ some s')
      × Queue s' (x ∷ xs)
      × (s'.current_process ≡ x)
      × Running s'
unfolding run_head
run_head-Queue label s x xs q r = elim (Bool-cases (s.current_process == x)) [
  | inl e ↦ (s, ground (arith, q.head_at, q.links.5), q, ground arith, r)
  | inr e ↦
      let (s', runs, queue, at, r') = switch-Queue label s x xs q (ground arith) r in
      (s', ground (arith, q.head_at, q.links.5, runs), queue, at, r')
]

-- The store after `rotate_to`.
abbrev turned_procs : Procs → ℕ → ℕ → ℕ → Process → Process → Process → Procs
turned_procs procs x y t px py pt =
    put
      (put (put procs y (some (record py { prev = 0 }))) x
        (some (record px { next = 0; prev = t })))
      t (some (record pt { next = x }))

module _ (s : System) (x y t : ℕ) (px py pt : Process) (hx : s.ready_queue ≡ x)
    (ht : s.ready_queue_tail ≡ t) where
  rotate_to-some :
      s.procs y ≡ some py
      → put s.procs y (some (record py { prev = 0 })) x ≡ some px
      → put
          (put s.procs y (some (record py { prev = 0 })))
          x
          (some (record px { next = 0; prev = t }))
          t
        ≡ some pt
      → rotate_to s y
        ≡ some (record s {
          procs = turned_procs s.procs x y t px py pt;
          ready_queue = y;
          ready_queue_tail = x;
        })
  unfolding rotate_to modify
  rotate_to-some a b c = ground (arith, hx, ht, a, b, c)

rotate-some :
    (s : System) (x y : ℕ) (px : Process)
    → s.ready_queue ≡ x
    → s.procs x ≡ some px
    → px.next ≡ y
    → y ≢ 0
    → rotate s ≡ rotate_to s y
unfolding rotate
rotate-some s x y px hx at next nz = ground arith

put-Running :
    (s : System) (a : ℕ) (v : Process) (procs : Procs)
    → Running (record s { procs = procs })
    → Running (record s { procs = put procs a (some v) })
put-Running s a v procs (inl z) = inl z
put-Running s a v procs (inr (p, at)) = inr (put-some procs a s.current_process v p at)

snoc_last : (x : ℕ) (xs : List ℕ) (p : ℕ) → p ≡ last_of x (xs ++ (p ∷ []))
snoc_last x [] p = refl
snoc_last x (y ∷ xs) p = snoc_last y xs p

pub rotate-Queue :
    (s : System) (x : ℕ) (xs : List ℕ)
    → Queue s (x ∷ xs)
    → Running s
    → (s' : System) × (rotate s ≡ some s') × Queue s' (xs ++ (x ∷ [])) × Running s'
unfolding rotate
rotate-Queue s x [] q r = (s, ground (arith, q.head_at, q.links.1, q.links.3), q, r)
rotate-Queue s x (y ∷ xs) q r =
    let (px, at_x, prev_x, next_x, apart, nz, links_y) = q.links in
    let (py, at_y, prev_y, next_y, apart_y, nz_y, links) = links_y in
    let t = last_of y xs in
    let one : Procs = put s.procs y (some (record py { prev = 0 })) in
    let new : Process = record px { next = 0; prev = t } in
    let two : Procs = put one x (some new) in
    let links_one = Links-head s.procs x 0 y xs py at_y links_y in
    let links_two = Links-put one x 0 (some new) (y ∷ xs) apart links_one in
    let (pt, at_t, end) = last_of-some two 0 y xs links_two in
    let tail : Process = record pt { next = x } in
    let three : Procs = put two t (some tail) in
    let ne : x ≢ t = NotIn-last_of x y xs apart in
    let at_one : one x ≡ some px = put_ne s.procs y x _ apart.0 ∙ at_x in
    let at_three : three x ≡ some new = put_ne two t x _ ne ∙ put_self one x (some new) in
    let s' : System = record s { procs = three; ready_queue = y; ready_queue_tail = x } in
    let turned : rotate_to s y ≡ some s' =
      rotate_to-some s x y t px py pt q.head_at q.tail_at at_y at_one at_t in
    (
      s',
      rotate-some s x y px q.head_at at_x next_x nz_y ∙ turned,
      record {
        head_at = refl;
        tail_at = snoc_last y xs x;
        links =
            Links-snoc two three 0 x y xs pt new apart nz at_t (put_self two t (some tail)) at_three
              refl refl (λ a na nx. put_ne two t a _ na) links_two;
      },
      put-Running s t tail two
          (put-Running s x new one (put-Running s y (record py { prev = 0 }) s.procs r)),
    )
