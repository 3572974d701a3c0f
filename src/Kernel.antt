-- ===== src/Kernel.antt =====
-- kernel/: physical pages, the heap, processes and the scheduler, executables, system calls.
pub mod Words
pub mod Loader
pub mod Heap
pub mod Pmm
pub mod Process
pub mod Scheduler
pub mod Syscall
