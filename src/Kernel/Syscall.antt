-- ===== src/Kernel/Syscall.antt =====
-- kernel/syscall.c: the dispatch of system calls to the file system, the scheduler, the timer and the drawing
-- functions. The arguments are 64-bit words. What `gfx_draw_rect` and `text_draw` draw is kept as their
-- calls; `none` is a fault, or a chain of siblings or a text longer than the fuel.
pub mod Calls
pub mod Exit
use mira_os.Base.{
  ℕ, zero, suc, ◌+◌, ◌-◌, ◌%◌, ◌^◌, List, [], ◌∷◌, ◌++◌, Option, none, some, ◌>>=◌, ltb, ◌==◌,
  if◌then◌else◌, ℤ, pos, negsuc,
}
use mira_os.Common.Memory.{Memory, poke}
use mira_os.Kernel.Words.{add64}
use mira_os.Kernel.Process.{State, System, modify, process_get_current, process_destroy}
use mira_os.Kernel.Scheduler.{scheduler_remove, scheduler_tick}
use mira_os.Fs.Vfs.{Vfs, vfs_create_file}
use mira_os.Fs.Files.{creates, vfs_open, vfs_close, vfs_read, vfs_write}

pub data Drawing : Type 0 where
  draw_rect : ℕ → ℕ → ℕ → ℕ → ℕ → Drawing
  draw_text : ℕ → ℕ → List ℕ → ℕ → ℕ → Drawing

-- What the calls act on: processes, files, `tick_count`, the memory and the drawings
pub record Machine : Type 0 where
  pub system : System
  pub files : Vfs
  pub ticks : ℕ
  pub memory : Memory
  pub drawings : List Drawing

-- `(int)a`, `(uint32_t)a` and `(int64_t)a`
abbrev pub int_of : ℕ → ℤ
int_of a = if ltb (a % 2 ^ 32) (2 ^ 31) then pos (a % 2 ^ 32) else negsuc (2 ^ 32 - 1 - a % 2 ^ 32)

abbrev pub uint32_of : ℕ → ℕ
uint32_of a = a % 2 ^ 32

abbrev pub int64_of : ℕ → ℤ
int64_of a = if ltb a (2 ^ 63) then pos a else negsuc (2 ^ 64 - 1 - a)

-- The text at an address, up to its 0, on fuel
unfoldable pub text_at : ℕ → Memory → ℕ → Option (List ℕ)
text_at zero m a = none
text_at (suc f) m a = do
  let rest = text_at f m (a + 1)
  if m a == 0 then some [] else (rest >>= λ str. some (m a ∷ str))

-- `count` bytes from an address on
unfoldable pub bytes_at : ℕ → Memory → ℕ → List ℕ
bytes_at zero m a = []
bytes_at (suc count) m a = m a ∷ bytes_at count m (a + 1)

unfoldable pub store_bytes : List ℕ → ℕ → Memory → Memory
store_bytes [] a m = m
store_bytes (c ∷ bytes) a m = store_bytes bytes (a + 1) (poke m a c)

-- `if (cur) …` for a process that is not NULL
unfoldable pub end_process : System → ℕ → ℕ → Option System
unfolding modify scheduler_remove process_destroy
end_process s cur status = do
  procs ← modify (s.procs) cur (λ x. record x { exit_status = int_of status; state = State.zombie })
  removed ← scheduler_remove (record s { procs = procs }) cur
  process_destroy removed cur

-- SYSCALL_EXIT; `label` is the place where a process that is switched away from goes on.
unfoldable pub exit_call : ℕ → System → ℕ → Option System
unfolding process_get_current end_process scheduler_tick
exit_call label s status =
    let cur = process_get_current s in
    if cur == 0 then scheduler_tick label s else (end_process s cur status >>= scheduler_tick label)

-- `vfs_read` with the caller's pointer, which is not checked: here the buffer lies in a memory apart from the
-- kernel's own structures.
unfoldable pub read_call : Machine → ℕ → ℕ → ℕ → Option (ℤ × Machine)
unfolding vfs_read store_bytes
read_call m fd buf count = do
  (n, bytes, files) ← vfs_read (m.files) (int_of fd) count
  some (n, record m { files = files; memory = store_bytes bytes buf (m.memory) })

unfoldable pub write_call : Machine → ℕ → ℕ → ℕ → Option (ℤ × Machine)
unfolding vfs_write bytes_at
write_call m fd buf count = do
  (n, files) ← vfs_write (m.files) (int_of fd) (bytes_at count (m.memory) buf) count
  some (n, record m { files = files })

-- `vfs_open` of a path that is NULL: `vfs_lookup` finds nothing, and `vfs_create_file` reads the text.
unfoldable pub open_null : ℕ → Machine → ℕ → Option (ℤ × Machine)
unfolding text_at vfs_create_file
open_null f m flags =
    if creates flags
    then (do
      str ← text_at f (m.memory) 0
      (made, files) ← vfs_create_file f (m.files) str [] 0
      some (negsuc 0, record m { files = files }))
    else some (negsuc 0, m)

unfoldable pub open_path : ℕ → Machine → ℕ → ℕ → Option (ℤ × Machine)
unfolding text_at vfs_open
open_path f m path flags = do
  str ← text_at f (m.memory) path
  (fd, files) ← vfs_open f (m.files) str flags
  some (fd, record m { files = files })

-- `f` is the fuel for chains of siblings and for texts.
unfoldable pub open_call : ℕ → Machine → ℕ → ℕ → Option (ℤ × Machine)
unfolding open_null open_path
open_call f m path flags =
    if path == 0 then open_null f m (uint32_of flags) else open_path f m path (uint32_of flags)

unfoldable pub close_call : Machine → ℕ → Option (ℤ × Machine)
unfolding vfs_close
close_call m fd =
    let (status, files) = vfs_close (m.files) (int_of fd) in
    some (status, record m { files = files })

unfoldable pub draw_text_call : ℕ → Machine → ℕ → ℕ → ℕ → ℕ → ℕ → Option (ℤ × Machine)
unfolding text_at
draw_text_call f m a1 a2 a3 a4 a5 = do
  str ← text_at f (m.memory) a3
  some (
    pos 0,
    record m {
      drawings =
          m.drawings
          ++ (draw_text (uint32_of a1) (uint32_of a2) str (uint32_of a4) (uint32_of a5) ∷ []);
    },
  )

unfoldable pub exit_dispatch : ℕ → Machine → ℕ → Option (ℤ × Machine)
unfolding exit_call
exit_dispatch label m a1 = do
  system ← exit_call label (m.system) a1
  some (pos 0, record m { system = system })

unfoldable pub syscall_dispatch : ℕ → ℕ → Machine → ℕ → ℕ → ℕ → ℕ → ℕ → ℕ → Option (ℤ × Machine)
unfolding exit_dispatch read_call write_call open_call close_call draw_text_call
syscall_dispatch f label m num a1 a2 a3 a4 a5 =
    if num == 0
    then exit_dispatch label m a1
    else if num == 1
    then read_call m a1 a2 a3
    else if num == 2
    then write_call m a1 a2 a3
    else if num == 3
    then open_call f m a1 a2
    else if num == 4
    then close_call m a1
    else if num == 5
    then some (
      pos 0,
      record m {
        drawings =
            m.drawings
            ++ (draw_rect (uint32_of a1) (uint32_of a2) (uint32_of a3) (uint32_of a4) (uint32_of a5)
                ∷ []);
      },
    )
    else if num == 6
    then draw_text_call f m a1 a2 a3 a4 a5
    else if num == 7
    then some (int64_of (m.ticks), m)
    else some (negsuc 0, m)
