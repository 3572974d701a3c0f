-- ===== src/Tests.antt =====
-- Concrete runs of the modelled code, and each theorem at a concrete input.
mod ArchTests
mod CommonTests
mod HeapTests
mod LoaderTests
mod KernelTests
mod MachineTests
mod FsTests
mod DriversTests
mod ShellTests
mod BuiltinTests
mod UiTests
