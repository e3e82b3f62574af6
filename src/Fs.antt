-- ===== src/Fs.antt =====
-- fs/: the zone bitmap, the blocks of a file, open files, pipes.
pub mod Bitmap
pub mod Dirs
pub mod Files
pub mod Names
pub mod Pipe
pub mod ZoneMap
pub mod Zones
