-- ===== src/Ui.antt =====
-- ui/: the window list and the input line, less what draws them.
pub mod Windows
pub mod Input
