-- ===== src/Drivers.antt =====
-- drivers/: the keyboard, from scancode to the buffer that the shell reads, and the PCI bus.
pub mod KeyboardBuffer
pub mod Keyboard
pub mod Pci
