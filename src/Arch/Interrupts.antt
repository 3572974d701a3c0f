-- ===== src/Arch/Interrupts.antt =====
-- arch/x86_64/isr.c and the timer's part of an interrupt (drivers/timer.c): the handlers act on a state `S`, and
-- the writes to ports are given in their order; `none` is a panic, or a read past the table of handlers.
pub mod Timer
use mira_os.Base.{
  ℕ, ◌+◌, ◌-◌, Bool, true, false, ◌&&◌, List, [], ◌∷◌, Option, none, some, ◌==◌, leb, ltb, set,
  get_elem?, if◌then◌else◌, replicate,
}
use mira_os.Kernel.Words.{add64}
use mira_os.Kernel.Process.{System}
use mira_os.Kernel.Scheduler.{scheduler_tick}
use mira_os.Drivers.Registry.{Driver, driver_dispatch_irq}
use mira_os.Drivers.Pic.{Writes, drivers_pic_send_eoi, timer_init}

-- One of the sixteen vectors of the interrupt controllers
abbrev pub is_line : ℕ → Bool
is_line int_no = leb 32 int_no && ltb int_no 48

module _ {S : Type 0} where
  -- `handlers`: NULL is `none`.
  unfoldable pub isr_register_handler : List (Option (S → S)) → ℕ → (S → S) → List (Option (S → S))
  isr_register_handler handlers num handler = set handlers num (some handler)

  -- `if (handlers[…]) … else if …`
  unfoldable pub call_handler : Option (S → S) → List (Driver S) → ℕ → S → S
  unfolding driver_dispatch_irq
  call_handler none table int_no s =
      if is_line int_no then driver_dispatch_irq table (int_no - 32) s else s
  call_handler (some handler) table int_no s = handler s

  -- `comes_back`: the dispatch has returned, and no switch to another process has left it.
  unfoldable pub isr_handler :
      (S → Bool) → List (Option (S → S)) → List (Driver S) → ℕ → S → Option (S × Writes)
  unfolding call_handler drivers_pic_send_eoi
  isr_handler comes_back handlers table int_no s =
      if ltb int_no 32 then none else elim (get_elem? handlers int_no) [
        | none ↦ none
        | some handler ↦
            let s' = call_handler handler table int_no s in
            some (
              s',
              (if is_line int_no && comes_back s' then drivers_pic_send_eoi (int_no - 32) else []),
            )
      ]

-- `tick_count` and what the scheduler acts on: in the function that the interrupt has called, or in another
-- process, to which `process_switch` has jumped and from which it does not come back before that process is
-- left. `fault` is the result `none` of the scheduler.
pub data Clock : Type 0 where
  here : ℕ → System → Clock
  away : ℕ → System → Clock
  fault : Clock

unfoldable pub comes_back : Clock → Bool
comes_back (here tick_count system) = true
comes_back (away tick_count system) = false
comes_back fault = false

unfoldable pub timer_on_irq : ℕ → ℕ
timer_on_irq tick_count = add64 tick_count 1

-- After the tick, `old` being the process before it: `process_switch` jumps where the process changes.
unfoldable pub ticked : ℕ → ℕ → Option System → Clock
ticked tick_count old none = fault
ticked tick_count old (some system) =
    if system.current_process == old then here tick_count system else away tick_count system

-- `timer_driver_irq`: its argument is not read. What is away does not get here.
unfoldable pub timer_driver_irq : ℕ → ℕ → Clock → Clock
unfolding timer_on_irq scheduler_tick ticked
timer_driver_irq label irq (here tick_count system) =
    ticked (timer_on_irq tick_count) (system.current_process) (scheduler_tick label system)
timer_driver_irq label irq clock = clock

-- The counter after `timer_init`
unfoldable pub timer_driver_init : Clock → Clock
unfolding timer_init
timer_driver_init (here tick_count system) = here (timer_init.0) system
timer_driver_init clock = clock

-- `timer_driver`, with the identifier of drivers/driver.h
unfoldable pub timer_driver : ℕ → Driver Clock
unfolding timer_driver_init timer_driver_irq
timer_driver label = record {
  id = 1;
  init = some timer_driver_init;
  irq = some (timer_driver_irq label);
}
