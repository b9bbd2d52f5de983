-- ===== src/Reader.antt =====
-- src/reader.rs and src/decompress.rs: reading, with a cache, readahead and seeking. `State` has the
-- reader, `Raw` reads a block, `Fill` fills the readahead, `Read` has the calls of the user, and
-- `Sequential` is src/decompress.rs.
pub mod State
pub mod Raw
pub mod Moves
pub mod Ranges
pub mod Fill
pub mod Read
pub mod Sequential
pub mod RoundTrip
pub mod RawRead
pub mod Members
pub mod Bounded
pub mod Skip
pub mod Items
pub mod Groups
pub mod Places
pub mod Offsets
pub mod Decoded
pub mod Access
pub mod Opened
pub mod Lookup
pub mod Batch
pub mod Stream
pub mod Reads
pub mod Seeks
pub mod Copies
pub mod Restored
pub mod Ends
pub mod Total
pub mod Blocks
pub mod Loops
pub mod Termination
pub mod Checks
pub mod Written
