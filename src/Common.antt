-- ===== src/Common.antt =====
-- lib/common: byte memory, C strings, containers.
pub mod Memory
pub mod CString
pub mod Containers
