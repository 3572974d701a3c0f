-- ===== src/Kernel/Syscall/Exit.antt =====
-- SYSCALL_EXIT of kernel/syscall.c: what the tick after the end of the process does.
use mira_os.Base.{
  ℕ, ◌≡◌, ◌≢◌, refl, ap, sym, ◌∙◌, false, Option, none, some, ◌>>=◌, ◌==◌, if◌then◌else◌, arith,
  Bool-cases, Option-cases, >>=-eq-some, inl, inr, ℤ,
}
use mira_os.Kernel.Process.{
  State, Process, Procs, System, put, modify, modify_unless_null, process_get_current,
  process_switch, process_destroy, free_pages, stack_pages,
}
use mira_os.Kernel.Scheduler.{rotate_to, rotate, run_head, scheduler_remove, scheduler_tick}
use mira_os.Kernel.Syscall.{
  Machine, end_process, exit_call, exit_dispatch, syscall_dispatch, int_of,
}

-- The current process has no structure any more.
abbrev pub IsGone : System → Type 0
IsGone s = s.procs s.current_process ≡ none

modify-none :
    (procs procs' : Procs) (p a : ℕ) (f : Process → Process)
    → procs a ≡ none
    → modify procs p f ≡ some procs'
    → (procs' a ≡ none) × (p ≢ a)
unfolding modify put
modify-none procs procs' p a f h k = elim (Option-cases (procs p)) [
  | inl e ↦ absurd (ground (arith, e, k))
  | inr (x, e) ↦
      let ne : p ≢ a = λ q. ground (arith, ap procs q, e, h) in
      let same : put procs p (some (f x)) ≡ procs' = ground (arith, e, k) in
      let old : put procs p (some (f x)) a ≡ none = ground (arith, ne, h) in
      (sym (ap (λ (g : Procs). g a) same) ∙ old, ne)
]

process_switch-IsGone :
    (label : ℕ) (s : System) (p : ℕ)
    → IsGone s
    → s.current_process ≢ 0
    → p ≢ 0
    → p ≢ s.current_process
    → process_switch label s p ≡ none
unfolding process_switch modify_unless_null modify
process_switch-IsGone label s p h run ne other =
    let e : (p == 0) ≡ false = ground (arith, ne) in
    let e' : (s.current_process == p) ≡ false = ground (arith, other) in
    let e'' : (s.current_process == 0) ≡ false = ground (arith, run) in
    rw (e, process_switch) (rw e' (rw (e'', modify_unless_null) (rw (h, modify) refl)))

rotate_to-IsGone :
    (s s' : System) (second : ℕ)
    → IsGone s
    → rotate_to s second ≡ some s'
    → IsGone s' × (s'.current_process ≡ s.current_process) × (s'.ready_queue ≢ s.current_process)
unfolding rotate_to
rotate_to-IsGone s s' second h k =
    let (one, k1, rest1) = >>=-eq-some _ _ _ k in
    let (two, k2, rest2) = >>=-eq-some _ _ _ rest1 in
    let (three, k3, rest3) = >>=-eq-some _ _ _ rest2 in
    let gone1 = modify-none s.procs one second s.current_process _ h k1 in
    let gone2 = modify-none one two s.ready_queue s.current_process _ gone1.0 k2 in
    let gone3 = modify-none two three s.ready_queue_tail s.current_process _ gone2.0 k3 in
    let same : record s { procs = three; ready_queue = second; ready_queue_tail = s.ready_queue }
        ≡ s' =
      ground (arith, rest3) in
    rw (sym same) (gone3.0, refl, gone1.1)

rotate-IsGone :
    (s s' : System)
    → IsGone s
    → rotate s ≡ some s'
    → IsGone s' × (s'.current_process ≡ s.current_process) × (s'.ready_queue ≢ s.current_process)
unfolding rotate
rotate-IsGone s s' h k = elim (Option-cases (s.procs s.ready_queue)) [
  | inl e ↦ absurd (ground (arith, e, k))
  | inr (head, e) ↦ elim (Bool-cases (head.next == 0)) [
    | inl alone ↦
        let same : s ≡ s' = ground (arith, e, k, alone) in
        let ne : s.ready_queue ≢ s.current_process = λ q. ground (arith, ap (s.procs) q, e, h) in
        rw (sym same) (h, refl, ne)
    | inr more ↦
        let turned : rotate_to s head.next ≡ some s' = ground (arith, e, k, more) in
        rotate_to-IsGone s s' head.next h turned
  ]
]

run_head-IsGone :
    (label : ℕ) (s s' : System) {current : ℕ}
    → IsGone s × (s.current_process ≡ current) × (s.ready_queue ≢ current)
    → current ≢ 0
    → run_head label s ≡ some s'
    → s'.ready_queue ≡ 0
unfolding run_head
run_head-IsGone label s s' (h, same, ne) run k = elim (Bool-cases (s.ready_queue == 0)) [
  | inl e ↦
      let kept : s ≡ s' = ground (arith, e, k) in
      sym (ap (λ (x : System). x.ready_queue) kept) ∙ ground (arith, e)
  | inr e ↦
      let running : s.current_process ≢ 0 = ground (arith, same, run) in
      let other : s.ready_queue ≢ s.current_process = ground (arith, same, ne) in
      let fault = process_switch-IsGone label s s.ready_queue h running (ground (arith, e)) other in
      absurd (ground (arith, e, k, fault, other))
]

scheduler_tick-IsGone :
    (label : ℕ) (s s' : System)
    → IsGone s
    → s.current_process ≢ 0
    → scheduler_tick label s ≡ some s'
    → s'.ready_queue ≡ 0
unfolding scheduler_tick
scheduler_tick-IsGone label s s' h run k = elim (Bool-cases (s.ready_queue == 0)) [
  | inl e ↦
      let same : s ≡ s' = ground (arith, e, k) in
      sym (ap (λ (x : System). x.ready_queue) same) ∙ ground (arith, e)
  | inr e ↦
      let chain : (rotate s >>= run_head label) ≡ some s' = ground (arith, e, k) in
      let (turned, k1, k2) = >>=-eq-some (rotate s) (run_head label) s' chain in
      run_head-IsGone label turned s' (rotate-IsGone s turned h k1) run k2
]

chain-current :
    (m : Option Procs) (g h : Procs → Option Procs) (build : Procs → System) (s' : System) (c : ℕ)
    → ((procs : Procs) → (build procs).current_process ≡ c)
    → (m >>= λ one. g one >>= λ two. h two >>= λ three. some (build three)) ≡ some s'
    → s'.current_process ≡ c
chain-current none g h build s' c kept k = cc
chain-current (some one) g h build s' c kept k =
    let (two, k1, rest) = >>=-eq-some (g one) (λ two. h two >>= λ three. some (build three)) s' k in
    let (three, k2, built) = >>=-eq-some (h two) (λ three. some (build three)) s' rest in
    let same : build three ≡ s' = ground (arith, built) in
    sym (ap (λ (x : System). x.current_process) same) ∙ kept three

chain-both :
    (m : Option Procs) (g : Procs → Option Procs) (build : Procs → System) (s' : System) (p c : ℕ)
    → ((procs : Procs) → ((build procs).procs p ≡ none) × ((build procs).current_process ≡ c))
    → (m >>= λ one. g one >>= λ two. some (build two)) ≡ some s'
    → (s'.procs p ≡ none) × (s'.current_process ≡ c)
chain-both none g build s' p c kept k = cc
chain-both (some one) g build s' p c kept k =
    let (two, k1, built) = >>=-eq-some (g one) (λ two. some (build two)) s' k in
    let same : build two ≡ s' = ground (arith, built) in
    (
      sym (ap (λ (x : System). x.procs p) same) ∙ (kept two).0,
      sym (ap (λ (x : System). x.current_process) same) ∙ (kept two).1,
    )

scheduler_remove-current :
    (s s' : System) (p : ℕ)
    → scheduler_remove s p ≡ some s'
    → s'.current_process ≡ s.current_process
unfolding scheduler_remove
scheduler_remove-current s s' p k = elim (Bool-cases (p == 0)) [
  | inl e ↦
      let same : s ≡ s' = ground (arith, e, k) in sym (ap (λ (x : System). x.current_process) same)
  | inr e ↦ elim (Option-cases (s.procs p)) [
    | inl e' ↦ absurd (ground (arith, e, e', k))
    | inr (proc, e') ↦
        chain-current (modify_unless_null s.procs proc.prev (λ x. record x { next = proc.next }))
          (λ one. modify_unless_null one proc.next (λ x. record x { prev = proc.prev }))
          (λ two. modify two p (λ x. record x { next = 0; prev = 0 }))
          (λ three. record s {
            procs = three;
            ready_queue = if proc.prev == 0 then proc.next else s.ready_queue;
            ready_queue_tail = if proc.next == 0 then proc.prev else s.ready_queue_tail;
          })
          s' s.current_process (λ procs. refl) (ground (arith, e, e', k))
  ]
]

process_destroy-IsGone :
    (s s' : System) (p : ℕ)
    → p ≢ 0
    → process_destroy s p ≡ some s'
    → (s'.procs p ≡ none) × (s'.current_process ≡ s.current_process)
unfolding process_destroy put
process_destroy-IsGone s s' p ne k =
    let e : (p == 0) ≡ false = ground (arith, ne) in
    elim (Option-cases (s.procs p)) [
      | inl e' ↦ absurd (ground (arith, e, e', k))
      | inr (proc, e') ↦
          chain-both (modify_unless_null s.procs proc.prev (λ x. record x { next = proc.next }))
            (λ procs. modify_unless_null procs proc.next (λ x. record x { prev = proc.prev }))
            (λ procs. record s {
              pmm =
                  if proc.stack_bottom == 0
                  then s.pmm
                  else free_pages stack_pages 0 proc.stack_bottom s.pmm;
              process_list = if s.process_list == p then proc.next else s.process_list;
              procs = put procs p none;
            })
            s' p s.current_process (λ procs. (ground arith, refl)) (ground (arith, e, e', k))
    ]

end_process-IsGone :
    (s s' : System) (p status : ℕ)
    → p ≢ 0
    → end_process s p status ≡ some s'
    → (s'.procs p ≡ none) × (s'.current_process ≡ s.current_process)
unfolding end_process
end_process-IsGone s s' p status ne k =
    let zombie = λ (x : Process). record x { exit_status = int_of status; state = State.zombie } in
    let remove = λ (procs : Procs). scheduler_remove (record s { procs = procs }) p in
    let destroy = λ (removed : System). process_destroy removed p in
    let (procs, k1, rest) =
      >>=-eq-some (modify s.procs p zombie) (λ procs. remove procs >>= destroy) s' k in
    let (removed, k2, destroyed) = >>=-eq-some (remove procs) destroy s' rest in
    let (none_left, same) = process_destroy-IsGone removed s' p ne destroyed in
    (none_left, same ∙ scheduler_remove-current (record s { procs = procs }) removed p k2)

exit_call-ready :
    (label : ℕ) (s s' : System) (status : ℕ)
    → s.current_process ≢ 0
    → exit_call label s status ≡ some s'
    → s'.ready_queue ≡ 0
unfolding exit_call process_get_current
exit_call-ready label s s' status run k =
    let chain : (end_process s s.current_process status >>= scheduler_tick label) ≡ some s' =
      ground (arith, run, k) in
    let (gone, ended, tick) = >>=-eq-some _ (scheduler_tick label) s' chain in
    let (none_left, same) = end_process-IsGone s gone s.current_process status run ended in
    scheduler_tick-IsGone label gone s' (rw same none_left) (rw same run) tick

-- SYSCALL_EXIT of a running process returns only if no process is ready afterwards: with a process to switch
-- to, the tick saves the registers in the structure that was just freed.
pub syscall_exit-ready :
    (f label : ℕ) (m m' : Machine) (a1 a2 a3 a4 a5 : ℕ) (r : ℤ)
    → m.system.current_process ≢ 0
    → syscall_dispatch f label m 0 a1 a2 a3 a4 a5 ≡ some (r, m')
    → m'.system.ready_queue ≡ 0
unfolding syscall_dispatch exit_dispatch
syscall_exit-ready f label m m' a1 a2 a3 a4 a5 r run k =
    let (system, ended, result) = >>=-eq-some (exit_call label (m.system) a1) _ _ k in
    let same : system ≡ m'.system = ground (arith, result) in
    sym (ap (λ (x : System). x.ready_queue) same)
    ∙ exit_call-ready label (m.system) system a1 run ended
