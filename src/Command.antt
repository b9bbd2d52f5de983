-- ===== src/Command.antt =====
-- src/main.rs: the command line. `Paths` has the names of files, `World` the files and streams.
pub mod Paths
pub mod Copy
pub mod World
pub mod Compress
pub mod Decompress
pub mod Inspect
pub mod Run
pub mod Laws
pub mod Limits
pub mod Files
pub mod Restored
