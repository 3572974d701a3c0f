-- ===== src/Kernel/Process.antt =====
-- kernel/process.h and the first part of kernel/process.c: the list of processes and their stacks, and
-- the switch from one to another. Process structures stand in a store from their addresses, and 0 is
-- NULL; `none` as a result is a fault, an access through NULL or to no process. Of a structure the
-- fields that the code sets to 0 once and never reads again are left out: `time_slice`, `total_time`,
-- `fd_table`, `parent`, `children`, `next_sibling`.
use mira_os.Base.{
  ℕ, zero, suc, ◌+◌, ◌*◌, ◌==◌, if◌then◌else◌, Option, none, some, List, [], ◌∷◌, ℤ, pos, ◌>>=◌,
}
use mira_os.Kernel.Words.{add32, add64}
use mira_os.Kernel.Pmm.{Pmm, pmm_alloc_page, pmm_free_page}

pub data State : Type 0 where
  ready running blocked zombie : State

-- `context`: the general registers, and the three that a new process sets.
pub record Context : Type 0 where
  pub registers : List ℕ
  pub rip : ℕ
  pub rflags : ℕ
  pub rsp : ℕ

pub record Process : Type 0 where
  pub pid : ℕ
  pub name : List ℕ
  pub state : State
  pub cr3 : ℕ
  pub stack_top : ℕ
  pub stack_bottom : ℕ
  pub entry_point : ℕ
  pub context : Context
  pub next : ℕ
  pub prev : ℕ
  pub exit_status : ℤ

abbrev pub Procs : Type 0
Procs = ℕ → Option Process

-- The static variables of process.c, with the physical pages, the results of `kmalloc` to come, and the
-- processor's registers.
pub record System : Type 0 where
  pub procs : Procs
  pub current_process : ℕ
  pub process_list : ℕ
  pub next_pid : ℕ
  pub ready_queue : ℕ
  pub ready_queue_tail : ℕ
  pub pmm : Pmm
  pub supply : List ℕ
  pub cpu : Context
  pub cpu_cr3 : ℕ

unfoldable pub put : Procs → ℕ → Option Process → Procs
put procs p v a = if a == p then v else procs a

-- A write to the structure at `p`; a fault if there is none.
unfoldable pub modify : Procs → ℕ → (Process → Process) → Option Procs
unfolding put
modify procs p f = elim (procs p) [ none ↦ none | some x ↦ some (put procs p (some (f x))) ]

-- `if (p) *p = …`
unfoldable pub modify_unless_null : Procs → ℕ → (Process → Process) → Option Procs
unfolding modify
modify_unless_null procs p f = if p == 0 then some procs else modify procs p f

abbrev pub stack_size : ℕ
stack_size = 0x10_0000

abbrev pub stack_pages : ℕ
stack_pages = 256

unfoldable pub process_alloc_pid : System → ℕ × System
process_alloc_pid s = (s.next_pid, record s { next_pid = add32 s.next_pid 1 })

-- `for (j = 0; j < n; j++) pmm_free_page(base + j * 4096);`, from `j`, with the rounds left.
unfoldable pub free_pages : ℕ → ℕ → ℕ → Pmm → Pmm
free_pages zero j base pmm = pmm
free_pages (suc n) j base pmm =
    free_pages n (j + 1) base (pmm_free_page (add64 base (j * 4096)) pmm)

-- The loop over the further stack pages from the `i`th on, with the rounds left: `some i` if no page was
-- left at the `i`th.
unfoldable pub alloc_stack : ℕ → ℕ → Pmm → Option ℕ × Pmm
alloc_stack zero i pmm = (none, pmm)
alloc_stack (suc n) i pmm =
    let rest = alloc_stack n (i + 1) (pmm_alloc_page pmm).1 in
    elim ((pmm_alloc_page pmm).0) [ none ↦ (some i, (pmm_alloc_page pmm).1) | some a ↦ rest ]

-- All registers 0
unfoldable pub zero_context : Context
zero_context = record { registers = []; rip = 0; rflags = 0; rsp = 0 }

-- The structure before it is put into the list.
unfoldable pub new_process : ℕ → List ℕ → ℕ → ℕ → Process
new_process pid name entry_point stack_bottom =
    let top = add64 stack_bottom stack_size in
    record {
      pid = pid;
      name = name;
      state = State.ready;
      cr3 = 0;
      stack_top = top;
      stack_bottom = stack_bottom;
      entry_point = entry_point;
      context = record zero_context { rsp = top; rip = entry_point; rflags = 0x202 };
      next = 0;
      prev = 0;
      exit_status = pos 0;
    }

-- The end of `process_create`: the structure becomes the first of the list.
unfoldable pub link_process : System → ℕ → Process → Option (ℕ × System)
link_process s p proc = do
  procs ←
      modify_unless_null (put s.procs p (some (record proc { next = s.process_list })))
        s.process_list (λ x. record x { prev = p })
  some (p, record s { procs = procs; process_list = p })

-- `some (0, …)` is NULL.
unfoldable pub process_create : System → List ℕ → ℕ → Option (ℕ × System)
process_create s name entry_point = elim (s.supply) [
  | [] ↦ some (0, s)
  | p ∷ left ↦
      let taken = record s { supply = left } in
      if p == 0
      then some (0, taken)
      else let numbered = (process_alloc_pid taken).1 in
        let first = pmm_alloc_page s.pmm in
        elim (first.0) [
          | none ↦ some (0, record numbered { pmm = first.1 })
          | some base ↦
              let more = alloc_stack 255 1 first.1 in
              elim (more.0) [
                | some i ↦ some (0, record numbered { pmm = free_pages i 0 base more.1 })
                | none ↦
                    link_process (record numbered { pmm = more.1 }) p
                      (new_process (process_alloc_pid taken).0 name entry_point base)
              ]
        ]
]

-- `if (proc->prev) …; if (proc->next) …; if (process_list == proc) …; kfree(proc);`
unfoldable pub process_destroy : System → ℕ → Option System
process_destroy s p = if p == 0 then some s else elim (s.procs p) [
  | none ↦ none
  | some proc ↦ do
    procs ← modify_unless_null s.procs proc.prev (λ x. record x { next = proc.next })
    procs' ← modify_unless_null procs proc.next (λ x. record x { prev = proc.prev })
    some (record s {
      pmm =
          if proc.stack_bottom == 0
          then s.pmm
          else free_pages stack_pages 0 proc.stack_bottom s.pmm;
      process_list = if s.process_list == p then proc.next else s.process_list;
      procs = put procs' p none;
    })
]

unfoldable pub process_get_current : System → ℕ
process_get_current s = s.current_process

unfoldable pub process_set_current : System → ℕ → System
process_set_current s p = record s { current_process = p }

-- The registers go to the structure of the current process, with `label` as the place to go on, and come
-- from that of the next one, whose address space is taken if it has one.
unfoldable pub process_switch : ℕ → System → ℕ → Option System
process_switch label s p = if p == 0 then some s else if s.current_process == p then some s else do
  procs ←
      modify_unless_null s.procs s.current_process
        (λ x. record x { context = record (s.cpu) { rip = label } })
  elim (procs p) [
    | none ↦ none
    | some x ↦ some (record s {
      procs = procs;
      current_process = p;
      cpu = x.context;
      cpu_cr3 = if x.cr3 == 0 then s.cpu_cr3 else x.cr3;
    })
  ]

unfoldable pub process_init : System → System
process_init s = record s { current_process = 0; process_list = 0; next_pid = 1 }

-- Along the list, on fuel. `some 0` is NULL.
unfoldable pub find_by_pid : ℕ → Procs → ℕ → ℕ → Option ℕ
find_by_pid zero procs p pid = none
find_by_pid (suc f) procs p pid =
    let after = λ (x : Process). find_by_pid f procs x.next pid in
    if p == 0 then some 0 else elim (procs p) [
      | none ↦ none
      | some x ↦ let rest = after x in if x.pid == pid then some p else rest
    ]

unfoldable pub process_find_by_pid : ℕ → System → ℕ → Option ℕ
process_find_by_pid f s pid = find_by_pid f s.procs s.process_list pid
