-- ===== src/Libk.antt =====
-- libk/: the routines on memory, strings and numbers that the rest of the kernel calls.
pub mod Memory
pub mod Text
pub mod Itoa
mod Tests
