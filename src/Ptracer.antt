-- ===== src/Ptracer.antt =====
-- ptracer: the ptrace loop, the registers of a stopped process and the texts in its memory.
pub mod Regs
pub mod Arm
pub mod Signals
pub mod Events
pub mod Trace
pub mod Strings
