-- ===== src/Hle.antt =====
-- The functions of the C library that the emulator runs on the host (src/hle). A handler takes the
-- argument registers and returns what it leaves in X0.
pub mod Vma
pub mod Brk
pub mod Alloc
mod Tests
