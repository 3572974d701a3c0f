-- ===== src/Lib.antt =====
-- MiraOS: a verification library for the kernel, the file system, the drivers, the common library and the
-- shell of MiraOS.
--
-- The parts and the files that model them:
--
--   Arch              Arch.Paging is arch/x86_64/paging.c: `Paging` holds the root, the words of the tables and
--                     the page allocator's state. Arch.Descriptors is gdt.c, idt.c and the gates of isr.c;
--                     Arch.Interrupts is the dispatch of isr.c and the timer of drivers/timer.c as a driver.
--   Base              shared types and lemmas: tests on numbers, lists, integers, bits.
--   Common            lib/common. Common.Memory is mem.c over a byte memory, Common.CString is string.c and
--                     the string functions of ds.c, Common.Containers the array, the list and the map of ds.c.
--   Kernel            Kernel.Words is machine words. Kernel.Pmm is kernel/mem.c: `Pmm` holds its static
--                     variables, and each function keeps its name. Kernel.Process and Kernel.Scheduler are
--                     kernel/process.c: `System` holds its static variables, the structures by address, the
--                     physical pages and the processor's registers. Kernel.Heap is kernel/heap.c, whose
--                     `Heap` holds its static variables and the words of its memory. Kernel.Loader is
--                     kernel/bin, with Kernel.Loader.Elf for kernel/elf.c; its `Machine` is the page tables
--                     and the memory by physical addresses. Kernel.Syscall is kernel/syscall.c, whose `Machine`
--                     joins `System`, the open files, the ticks and the memory.
--   Fs                Fs.Node is fs/vfs.h and the default operations of fs/vfs.c, Fs.Vfs its paths and files
--                     by name, Fs.Files its open files, and Fs.Ramfs fs/backend/ramfs.c.
--   Drivers           Drivers.Keyboard is drivers/ps2/keyboard.c, Drivers.Mouse drivers/ps2/mouse.c, and
--                     Drivers.Registry drivers/driver.c. Drivers.Framebuffer is the pixels, rectangles
--                     and image copies of drivers/framebuffer.c. Drivers.Pic is drivers/pic.c, `pic_remap`
--                     of isr.c and the writes of drivers/timer.c.
--   Shell             ui/shell.c: Shell.Numbers its conversions, Shell.Tables its variables, aliases, history
--                     and jobs, Shell.Tokens the tokenizer, Shell.Parser the parser, Shell.Exec the expansion
--                     of variables and the executor. `Env` of Shell.Env is what the commands act on: the
--                     tables, the output, the files, and the values of the clock and the keys to come.
--                     Shell.Builtins has a module for each group of builtin commands and Register for their
--                     table, Shell.Console the cursor of `shell_draw_char`, Shell.Start the start and the tick.
--   Ui                Ui.Windows is ui/widgets/window.c, Ui.Input ui/input.c, which reads the keyboard's queue.
--   Tests             concrete runs, and each result at a concrete input.
--
-- How the parts interact: paging, the heap, the loaders, the scheduler and the processes use the page
-- allocator; the heap and the loaders map pages through paging; the files use the nodes,
-- and their memory comes from `kmalloc`, whose results to come are a list of addresses in the state, with 0
-- for NULL. An interrupt goes to its handler or to every driver of the registry; the timer's part counts and
-- runs the scheduler. The system calls act on files and processes. The tick of the shell polls the input line,
-- which polls the keyboard; a line that Enter ends is tokenized, parsed and executed, and the executor finds
-- the builtin commands in a table that is its parameter and that Shell.Builtins.Register fills. The functions
-- of a driver are a parameter of the registry.
--
-- Conventions: a pointer is a number, and 0 is NULL. Unsigned words keep their wrap-around, signed ones are
-- integers. A state is passed on explicitly. A result `none` is a fault, an access outside an object or
-- through NULL, a panic, or a loop that runs out of fuel; each file says which. The heap is a model of its own:
-- what `kfree` writes into memory that another part uses is in no other part's state, and the shell records
-- the texts that it gives to `kfree` in `freed`. So is the buffer of a system call memory apart from the kernel's
-- structures. The loaders reach a page or a file at its address only where it is mapped to itself.
--
-- Fuel: the loops over strings, chains of siblings, tokens and the keyboard's queue run on fuel. The length
-- of a string plus one is enough for the functions on strings; `vfs_lookup` needs the fuel of the siblings
-- and one for each character of the path; `tokenize` and `shell_resolve_variables` take the length of their
-- input, `parse_tokens` the number of tokens, and `input_poll` 128, one more than the keyboard's queue holds.
-- `table_alloc` and `paging_map_page` call each other on fuel, of which none is used where the tables stand;
-- `map_pages` needs one more than the pages of the section; `kmalloc` takes one fuel for its calls to itself
-- and its walks over the blocks. `builtins` takes a fuel for the loops of its commands, one for their rounds
-- and one for the depth to which commands run commands; a wait ends with the values of the clock.
-- `syscall_dispatch` takes one fuel for texts and siblings.
--
-- Not modelled: port I/O but the interrupt controllers and the timer, pixels of text and lines (ui/layout, ui/ui.c,
-- lines, circles, the buffers' swap and scrolling of the framebuffer), the layout of the shell's window, the disk,
-- the network stub, the loads of machine registers (cpu.h, syscall_init, parts of gdt.c and idt.c), boot code and
-- assembly, and kernel/main.c, kernel/panic.c and kernel/safemode.c, which are output and the order of the start.
pub mod Arch
pub mod Base
pub mod Common
pub mod Kernel
pub mod Fs
pub mod Drivers
pub mod Shell
pub mod Ui
pub mod Tests
