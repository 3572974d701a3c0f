-- ===== src/Tests/MachineTests.antt =====
-- kernel/syscall.c, the tables and interrupts of arch/x86_64, and the interrupt controllers at concrete inputs.
use mira_os.Base.{
  ℕ, ◌+◌, ◌*◌, ◌^◌, ◌<◌, ◌≤◌, ◌≡◌, ◌≢◌, refl, true, false, ◌==◌, if◌then◌else◌, Option, none, some,
  List, [], ◌∷◌, arith, ℤ, pos, negsuc, replicate, length, get_elem?, clear_bit, has_bit,
}
use mira_os.Common.Memory.{poke}
use mira_os.Kernel.Pmm.{pmm_free_page, bitmap_test, bitmap_clear}
use mira_os.Kernel.Process.{
  State, Context, System, put, modify, modify_unless_null, free_pages, process_get_current,
  process_destroy,
}
use mira_os.Kernel.Scheduler.{scheduler_tick, scheduler_remove, run_head, rotate, rotate_to}
use mira_os.Kernel.Syscall.{
  Drawing, Machine, text_at, bytes_at, store_bytes, end_process, exit_call, read_call, write_call,
  open_null, open_path, open_call, close_call, draw_text_call, exit_dispatch, syscall_dispatch,
}
use mira_os.Kernel.Syscall.Exit.{syscall_exit-ready}
use mira_os.Kernel.Syscall.Calls.{syscall_close-use}
use mira_os.Fs.Node.{read_block, vfs_default_read}
use mira_os.Fs.Vfs.{Vfs, zero_node}
use mira_os.Fs.Files.{entry, vfs_close, vfs_read}
use mira_os.Fs.Ramfs.{root_dir}
use mira_os.Arch.Descriptors.{
  GdtEntry, gdt_set_entry, gdt_set_tss, gdt_init, gdt_user_code_selector, gdt_user_data_selector,
  gdt_tss_selector, IdtEntry, gate, idt_set_gate, set_gates, idt_init, isr_init, gdt_entries,
}
use mira_os.Arch.Descriptors.Decode.{
  base_of, limit_of, offset_of, gdt_set_tss-decode, isr_init-gates,
}
use mira_os.Drivers.Pic.{
  Masks, pic_mask_irq, pic_unmask_irq, Masks, pic_init, pic_remap, drivers_pic_send_eoi,
  pic_send_eoi, timer_init, change_mask, or_bit, and_not_bit,
}
use mira_os.Drivers.Pic.Lines.{is_masked, pic_mask_irq-masked}
use mira_os.Drivers.Registry.{Driver, driver_dispatch_irq}
use mira_os.Arch.Interrupts.{
  Clock, isr_register_handler, call_handler, isr_handler, timer_on_irq, timer_driver_irq,
  timer_driver_init, timer_driver, here, comes_back, ticked,
}
use mira_os.Shell.Tokens.{TokenType, Token}
use mira_os.Shell.Parser.{
  Node, NodeType, node, nil, ast_create_node, ast_add_child, parse_tokens, parse_sequence,
  sequence_from, sequence_loop, parse_expression, parse_subshell, parse_pipeline, pipeline_loop,
  parse_command, parse_args, set_background, join_found, join,
}
use mira_os.Shell.Parser.Typing.{IsParent, parse_tokens-IsParent}

abbrev blank : Context
blank = record { registers = []; rip = 0; rflags = 0; rsp = 0 }

-- One process, at 16, which runs and is the only one in the queue
abbrev alone : System
alone = record {
  procs = λ a.
      if a == 16
      then some (record {
        pid = 1;
        name = [];
        state = State.running;
        cr3 = 0;
        stack_top = 0;
        stack_bottom = 0;
        entry_point = 0;
        context = blank;
        next = 0;
        prev = 0;
        exit_status = pos 0;
      })
      else none;
  current_process = 16;
  process_list = 0;
  next_pid = 2;
  ready_queue = 16;
  ready_queue_tail = 16;
  pmm = record {
    page_bitmap = λ a. 0;
    total_pages = 3;
    free_pages = 2;
    mem_start = 0;
    mem_end = 12288;
  };
  supply = [];
  cpu = blank;
  cpu_cr3 = 0;
}

-- A file of three bytes, open on the descriptor 0
abbrev three_bytes : Vfs
three_bytes = record {
  nodes = λ a.
      if a == 1
      then some root_dir
      else if a == 2
      then some (record zero_node {
        name = b'a' ∷ [];
        type = 1;
        content = some (5 ∷ 6 ∷ 7 ∷ []);
        size = 3;
      })
      else none;
  root_node = 1;
  open_table =
      record { node = 2; offset = 0; flags = 2; used = true }
      ∷ replicate 15 (record { node = 0; offset = 0; flags = 0; used = false });
  supply = 3 ∷ 4 ∷ [];
}

abbrev machine : Machine
machine = record { system = alone; files = three_bytes; ticks = 41; memory = λ a. 0; drawings = [] }

abbrev machine_of : Option (ℤ × Machine) → Machine
machine_of none = machine
machine_of (some (r, m)) = m

abbrev exited : Machine
exited = machine_of (syscall_dispatch 4 7 machine 0 3 0 0 0 0)

exits : syscall_dispatch 4 7 machine 0 3 0 0 0 0 ≡ some (pos 0, exited)
unfolding syscall_dispatch exit_dispatch exit_call end_process process_get_current modify put
    scheduler_remove process_destroy scheduler_tick run_head rotate rotate_to modify_unless_null
    free_pages pmm_free_page bitmap_test bitmap_clear has_bit clear_bit poke
exits = refl

syscall_exit-ready_example : exited.system.ready_queue ≡ 0
syscall_exit-ready_example =
    syscall_exit-ready 4 7 machine exited 3 0 0 0 0 (pos 0) (omega arith) exits

abbrev loaded : Machine
loaded = machine_of (syscall_dispatch 4 7 machine 1 0 100 2 0 0)

reads : syscall_dispatch 4 7 machine 1 0 100 2 0 0 ≡ some (pos 2, loaded)
unfolding syscall_dispatch read_call vfs_read entry vfs_default_read read_block store_bytes poke
reads = refl

abbrev shut : Machine
shut = machine_of (syscall_dispatch 4 7 machine 4 0 0 0 0 0)

shuts : syscall_dispatch 4 7 machine 4 0 0 0 0 0 ≡ some (pos 0, shut)
unfolding syscall_dispatch close_call vfs_close entry
shuts = refl

syscall_close-use_example :
    (syscall_dispatch 4 7 shut 1 0 100 2 0 0 ≡ some (negsuc 0, shut))
    × (syscall_dispatch 4 7 shut 2 0 100 2 0 0 ≡ some (negsuc 0, shut))
    × (syscall_dispatch 4 7 shut 4 0 100 2 0 0 ≡ some (negsuc 0, shut))
syscall_close-use_example = syscall_close-use 4 7 machine shut 0 0 0 0 0 shuts 100 2 0 0

-- The ticks, a rectangle, a text, a path that is not there and is NULL, and a number that is no call
other_calls :
    (syscall_dispatch 4 7 machine 7 0 0 0 0 0 ≡ some (pos 41, machine))
    × (syscall_dispatch 4 7 machine 5 1 2 3 4 5
        ≡ some (pos 0, record machine { drawings = Drawing.draw_rect 1 2 3 4 5 ∷ [] }))
    × (syscall_dispatch 4 7 machine 6 1 2 100 4 5
        ≡ some (pos 0, record machine { drawings = Drawing.draw_text 1 2 [] 4 5 ∷ [] }))
    × (syscall_dispatch 4 7 machine 3 0 0 0 0 0 ≡ some (negsuc 0, machine))
    × (syscall_dispatch 4 7 machine 8 0 0 0 0 0 ≡ some (negsuc 0, machine))
unfolding syscall_dispatch draw_text_call text_at open_call open_null open_path write_call bytes_at
other_calls = (refl, refl, refl, refl, refl)

abbrev empty_entry : GdtEntry
empty_entry = record {
  limit_low = 0;
  base_low = 0;
  base_mid = 0;
  access = 0;
  granularity = 0;
  base_high = 0;
}

abbrev segments : List GdtEntry
segments = replicate gdt_entries empty_entry

gdt_set_tss-decode_example :
    (low high : GdtEntry) × (get_elem? (gdt_set_tss segments 5 0x12_3456_789A 103) 5 ≡ some low)
    × (get_elem? (gdt_set_tss segments 5 0x12_3456_789A 103) (5 + 1) ≡ some high)
    × (base_of low + (high.limit_low + high.base_low * 2 ^ 16) * 2 ^ 32 ≡ 0x12_3456_789A)
    × (limit_of low ≡ 103)
    × ((j : ℕ)
        → 5 ≢ j
        → 5 + 1 ≢ j
        → get_elem? (gdt_set_tss segments 5 0x12_3456_789A 103) j ≡ get_elem? segments j)
gdt_set_tss-decode_example =
    gdt_set_tss-decode segments 5 0x12_3456_789A 103 refl refl (omega arith) (omega arith)

-- The access bytes of the table that `gdt_init` builds, and the selectors
selectors :
    (gdt_user_code_selector ≡ 27)
    × (gdt_user_data_selector ≡ 35)
    × (gdt_tss_selector ≡ 40)
    × (length (gdt_init segments 4096) ≡ 7)
unfolding gdt_user_code_selector gdt_user_data_selector gdt_tss_selector gdt_init gdt_set_entry
    gdt_set_tss
selectors = (refl, refl, refl, refl)

abbrev gates : List IdtEntry
gates = replicate 4 (record {
  offset_low = 0;
  selector = 0;
  ist = 0;
  type_attr = 0;
  offset_mid = 0;
  offset_high = 0;
  reserved = 0;
})

isr_init-gates_example :
    ((k stub : ℕ)
      → get_elem? (7 ∷ 8 ∷ []) k ≡ some stub
      → stub < 2 ^ 64
      → (e : IdtEntry) × (get_elem? (isr_init (7 ∷ 8 ∷ []) gates) k ≡ some e)
        × (offset_of e ≡ stub)
        × (e.selector ≡ 0x08)
        × (e.type_attr ≡ 0x8E))
    × ((j : ℕ) → 2 ≤ j → get_elem? (isr_init (7 ∷ 8 ∷ []) gates) j ≡ get_elem? gates j)
isr_init-gates_example = isr_init-gates (7 ∷ 8 ∷ []) gates (omega arith)

cleared : length (idt_init gates) ≡ 4
unfolding idt_init set_gates idt_set_gate gate isr_init
cleared = refl

-- Every line is masked but the first.
abbrev masks : Masks
masks = record { first = 254; second = 255 }

pic_mask_irq-masked_example :
    (masked unmasked : Masks) × (pic_mask_irq 9 masks ≡ some masked)
    × (pic_unmask_irq 9 masks ≡ some unmasked)
    × ((j : ℕ) → j < 16 → is_masked masked j ≡ (if 9 == j then true else is_masked masks j))
    × ((j : ℕ) → j < 16 → is_masked unmasked j ≡ (if 9 == j then false else is_masked masks j))
pic_mask_irq-masked_example =
    pic_mask_irq-masked masks 9 (record { first_byte = omega arith; second_byte = omega arith })
      (omega arith)

-- The two set-ups write the same ten ports, and acknowledge the lines alike.
set_ups :
    (length pic_init ≡ length pic_remap)
    × (pic_send_eoi 9 ≡ (160, 32) ∷ (32, 32) ∷ [])
    × (timer_init.0 ≡ 0)
unfolding pic_init pic_remap pic_send_eoi drivers_pic_send_eoi timer_init change_mask or_bit
    and_not_bit timer_on_irq timer_driver_irq timer_driver_init timer_driver call_handler
    isr_register_handler
set_ups = (refl, refl, refl)

abbrev no_handlers : List (Option (Clock → Clock))
no_handlers = replicate 48 none

-- No process runs yet, and one is ready: the tick switches to it.
abbrev idle : System
idle = record alone { current_process = 0 }

abbrev system_of : Option System → System
system_of none = idle
system_of (some system) = system

abbrev switched : System
switched = system_of (scheduler_tick 7 idle)

abbrev quiet : List (Driver Clock)
quiet = record { id = 2; init = none; irq = some (λ irq s. s) } ∷ []

abbrev applied : Option (ℕ → Clock → Clock) → ℕ → Clock → Clock
applied none irq s = s
applied (some f) irq s = f irq s

-- Without a process that is ready the interrupt is acknowledged.
stays :
    isr_handler comes_back no_handlers
      (timer_driver 7 ∷ quiet)
      33
      (here 41 (record idle { ready_queue = 0; ready_queue_tail = 0 }))
    ≡ some (here 42 (record idle { ready_queue = 0; ready_queue_tail = 0 }), (32, 32) ∷ [])
unfolding isr_handler comes_back call_handler driver_dispatch_irq timer_driver timer_driver_irq
    ticked timer_on_irq scheduler_tick rotate run_head drivers_pic_send_eoi
stays = refl

-- `(ls` and the end of the line
abbrev open_paren : List Token
open_paren =
    record { type = TokenType.lparen; value = []; line = 1; column = 1 }
    ∷ record { type = TokenType.word; value = 108 ∷ 115 ∷ []; line = 1; column = 2 }
    ∷ record { type = TokenType.eof; value = []; line = 1; column = 4 }
    ∷ []

abbrev tree_of : Option (Option Node × List Token) → Node × List Token
tree_of (some (some tree, rest)) = (tree, rest)
tree_of _ = (node NodeType.node_command nil [] false, [])

abbrev parsed : Node × List Token
parsed = tree_of (parse_tokens open_paren)

parses : parse_tokens open_paren ≡ some (some (parsed.0), parsed.1)
unfolding parse_tokens parse_sequence sequence_from sequence_loop parse_expression parse_subshell
    parse_pipeline pipeline_loop parse_command parse_args ast_create_node ast_add_child
    set_background join_found join
parses = refl

parse_tokens-IsParent_example : IsParent (parsed.0)
parse_tokens-IsParent_example = parse_tokens-IsParent open_paren (parsed.1) (parsed.0) parses
