-- ===== src/Fs.antt =====
-- linux-0.11/fs: pipes, the zone bitmap, the descriptors, and the reading and writing of files.
pub mod Pipe
pub mod Bitmap
pub mod Files
pub mod Inode
pub mod FileDev
pub mod Seek
pub mod Open
pub mod DiskInode
pub mod Namei
pub mod Vfs
pub mod Table
pub mod Walk
pub mod Links
pub mod Mount
pub mod Exec
