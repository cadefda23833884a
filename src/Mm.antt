-- ===== src/Mm.antt =====
-- linux-0.11/mm/memory.c: physical page frames, Sv32 page tables and copy-on-write.
pub mod State
pub mod Frames
pub mod Tables
pub mod Cow
pub mod Area
pub mod Malloc
