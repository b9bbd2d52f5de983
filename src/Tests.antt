-- ===== src/Tests.antt =====
-- The theorems at concrete inputs, one module for each part.
pub mod Cache
pub mod Formats
pub mod Writing
pub mod Reading
pub mod Indexing
pub mod Commands
pub mod Restoring
