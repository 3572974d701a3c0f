-- ===== src/Arch.antt =====
-- arch/x86_64: the tables of pages, segments and gates, and the interrupts.
pub mod Paging
pub mod Interrupts
pub mod Descriptors
