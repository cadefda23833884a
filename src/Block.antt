-- ===== src/Block.antt =====
-- The buffer cache and the requests to the block devices.
pub mod Buffers
pub mod Cache
pub mod Requests
pub mod Ramdisk
