-- ===== src/Fs.antt =====
-- fs/: the mount table and path resolution, the file system in memory, and FAT32.
pub mod Vfs
pub mod Ramfs
pub mod Fat32
