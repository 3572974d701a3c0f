-- ===== src/Fs.antt =====
-- fs/: the file tree, its paths, and the table of open files.
pub mod Node
pub mod Vfs
pub mod Files
pub mod Ramfs
