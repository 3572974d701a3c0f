-- ===== src/Drivers.antt =====
-- drivers/: the registry of drivers, the framebuffer, the keyboard, the mouse, the interrupt controllers.
pub mod Framebuffer
pub mod Registry
pub mod Keyboard
pub mod Mouse
pub mod Pic
