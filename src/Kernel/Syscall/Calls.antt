-- ===== src/Kernel/Syscall/Calls.antt =====
-- The system calls on files of kernel/syscall.c against the operations of the file system.
use mira_os.Base.{ℕ, ◌≡◌, inl, inr, refl, none, some, arith, ℤ, pos, negsuc, Option-cases}
use mira_os.Fs.Vfs.{Vfs}
use mira_os.Fs.Files.{entry, vfs_close}
use mira_os.Fs.Files.Table.{vfs_close_lem, entry-none}
use mira_os.Kernel.Syscall.{
  Machine, int_of, store_bytes, bytes_at, read_call, write_call, close_call, syscall_dispatch,
}

refused : (s : Vfs) (fd : ℤ) → vfs_close s fd ≡ (negsuc 0, s) → entry s fd ≡ none
unfolding vfs_close
refused s fd h = elim (Option-cases (entry s fd)) [
  | inl e ↦ e
  | inr ((i, o), e) ↦ absurd (ground (arith, e, h))
]

-- After SYSCALL_CLOSE of a descriptor has returned 0, the calls that read, write and close it return -1 and
-- change nothing.
pub syscall_close-use :
    (f label : ℕ) (m m' : Machine) (fd a2 a3 a4 a5 : ℕ)
    → syscall_dispatch f label m 4 fd a2 a3 a4 a5 ≡ some (pos 0, m')
    → (buf count b4 b5 : ℕ)
    → (syscall_dispatch f label m' 1 fd buf count b4 b5 ≡ some (negsuc 0, m'))
      × (syscall_dispatch f label m' 2 fd buf count b4 b5 ≡ some (negsuc 0, m'))
      × (syscall_dispatch f label m' 4 fd buf count b4 b5 ≡ some (negsuc 0, m'))
unfolding syscall_dispatch read_call write_call close_call store_bytes
syscall_close-use f label m m' fd a2 a3 a4 a5 k buf count b4 b5 =
    let closed : vfs_close (m.files) (int_of fd) ≡ (pos 0, m'.files) = ground (arith, k) in
    let (again, nodes, others) = vfs_close_lem (m.files) (m'.files) (int_of fd) closed in
    let refuses =
      entry-none (m'.files) (int_of fd) (bytes_at count (m'.memory) buf) count 0 (pos 0)
        (refused (m'.files) (int_of fd) again) in
    (rw refuses.1 refl, rw refuses.2 refl, rw again refl)
