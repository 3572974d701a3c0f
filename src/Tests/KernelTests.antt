-- ===== src/Tests/KernelTests.antt =====
-- kernel/ at concrete inputs.
use mira_os.Base.{
  ℕ, ◌/◌, ◌≡◌, ◌⊎◌, ◌<◌, inl, refl, ◌==◌, if◌then◌else◌, none, some, List, [], ◌∷◌, arith, pos,
  has_bit, set_bit,
}
use mira_os.Common.Memory.{poke}
use mira_os.Kernel.Pmm.{
  Pmm, mbi_next, bitmap_set, bitmap_clear, bitmap_test, set_pages, free_region, add_entry,
  add_entries, read_tags, pmm_init, first_free, pmm_alloc_page, pmm_total_pages,
}
use mira_os.Kernel.Pmm.Owners.{Owned, Step, Reach, Apart, pmm_alloc_page-Apart}
use mira_os.Kernel.Process.{
  State, Context, Process, System, Procs, process_alloc_pid, free_pages, alloc_stack, zero_context,
  new_process, link_process, process_create, process_destroy, process_get_current,
  process_set_current, process_init, find_by_pid, process_find_by_pid,
}
use mira_os.Kernel.Scheduler.{scheduler_init, scheduler_next, scheduler_add, scheduler_remove}
use mira_os.Kernel.Scheduler.Queue.{Queue, scheduler_add-Queue}
use mira_os.Kernel.Scheduler.Rotation.{Running}
use mira_os.Kernel.Scheduler.Rounds.{ticks, ticks-Queue}

-- Three pages, of which the first is in use
abbrev small : Pmm
small = record {
  page_bitmap = λ a. if a == 0 then 1 else 0;
  total_pages = 3;
  free_pages = 2;
  mem_start = 0;
  mem_end = 12288;
}

small_bytes : (i : ℕ) → small.page_bitmap i < 256
small_bytes i = ground arith

-- Three pages in use
abbrev full : Pmm
full = record small { page_bitmap = λ a. if a == 0 then 7 else 0; free_pages = 0 }

small_alloc : (pmm_alloc_page small).0 ≡ some 4096
unfolding pmm_alloc_page first_free bitmap_test has_bit
small_alloc = refl

full_alloc : (pmm_alloc_page full).0 ≡ none
unfolding pmm_alloc_page first_free bitmap_test has_bit
full_alloc = refl

abbrev started : Owned
started = record { pmm = small; held = [] }

abbrev one_held : Owned
one_held = record { pmm = (pmm_alloc_page small).1; held = 4096 ∷ [] }

second_alloc : (pmm_alloc_page (pmm_alloc_page small).1).0 ≡ some 8192
unfolding pmm_alloc_page first_free bitmap_test bitmap_set has_bit set_bit poke
second_alloc = refl

pmm_alloc_page-Apart_example : Apart (8192 / 4096) (4096 ∷ [])
pmm_alloc_page-Apart_example =
    pmm_alloc_page-Apart {s = started} {t = one_held} 8192
      (record { bytes = small_bytes; holds = tt })
      (Reach.next Reach.here (Step.alloc started 4096 small_alloc)) second_alloc

-- Two processes, at 16 and 32
abbrev blank : Context
blank = record { registers = []; rip = 0; rflags = 0; rsp = 0 }

abbrev process_at : ℕ → ℕ → ℕ → Process
process_at pid next prev = record {
  pid = pid;
  name = [];
  state = State.ready;
  cr3 = 0;
  stack_top = 0;
  stack_bottom = 0;
  entry_point = 0;
  context = blank;
  next = next;
  prev = prev;
  exit_status = pos 0;
}

abbrev two_procs : Procs
two_procs a =
    if a == 16
    then some (process_at 1 32 0)
    else if a == 32
    then some (process_at 2 0 16)
    else if a == 48
    then some (process_at 3 0 0)
    else none

abbrev two : System
two = record {
  procs = two_procs;
  current_process = 0;
  process_list = 0;
  next_pid = 4;
  ready_queue = 16;
  ready_queue_tail = 32;
  pmm = small;
  supply = [];
  cpu = blank;
  cpu_cr3 = 0;
}

two-Queue : Queue two (16 ∷ 32 ∷ [])
two-Queue = record {
  head_at = refl;
  tail_at = refl;
  links = (
    process_at 1 32 0,
    refl,
    refl,
    refl,
    (omega arith, tt),
    omega arith,
    (process_at 2 0 16, refl, refl, refl, tt, omega arith, tt),
  );
}

scheduler_add-Queue_example :
    (s' : System) × (scheduler_add two 48 ≡ some s') × Queue s' (16 ∷ 32 ∷ 48 ∷ [])
scheduler_add-Queue_example =
    scheduler_add-Queue two 48 (process_at 3 0 0) (16 ∷ 32 ∷ []) two-Queue
      (omega arith, (omega arith, tt)) (omega arith) refl

ticks-Queue_example :
    (s' : System) × (ticks (7 ∷ 7 ∷ []) two ≡ some s')
    × Queue s' (16 ∷ 32 ∷ [])
    × (((s' ≡ two) × (◌≡◌ {A = List ℕ} (16 ∷ 32 ∷ []) [])) ⊎ (s'.current_process ≡ 16))
    × Running s'
ticks-Queue_example = ticks-Queue (7 ∷ 7 ∷ []) two (16 ∷ 32 ∷ []) [] refl two-Queue (inl refl)

-- Process ids, the search for one, and the accessors
life :
    (process_find_by_pid 9 two 5 ≡ some 0)
    × (process_alloc_pid two ≡ (4, record two { next_pid = 5 }))
    × (scheduler_next (scheduler_init two) ≡ 0)
    × (process_get_current (process_set_current two 32) ≡ 32)
unfolding process_find_by_pid find_by_pid process_alloc_pid scheduler_next scheduler_init
    process_get_current process_set_current mbi_next free_region add_entry add_entries read_tags
    pmm_init pmm_total_pages free_pages alloc_stack zero_context new_process link_process
    process_create process_destroy process_init scheduler_remove bitmap_clear set_pages
life = (refl, refl, refl, refl)
