-- ===== src/Lib.antt =====
-- A model of pgzf, a library for blocked gzip files (PGZF) in Rust: blocks are compressed on their
-- own and collected in groups, each with an index, so that they can be written and read in parallel
-- and sought in.
--
-- Parts and files:
--   Prelude        shared names, Boolean tests, lists over the native numbers, and `Outcome`: a
--                  result, an error, a panic, or `stuck` for a loop without fuel. `Exec S E A` is a
--                  method on `&mut self`: it gives the outcome and the state.
--   Error          src/error.rs: `PgzfError` and `std::io::Error`.
--   Cursor         the stream (`Read + Seek`, `Write + Seek`): a byte list and a position.
--   Constants      src/constants.rs.
--   Format         src/format.rs. Bytes: little-endian numbers. Header: validate_gzip_header to
--                  build_idx_header. Extra: parse_extra_field. Config: PgzfConfig and its builder,
--                  with Settings. Layout and RoundTrip: what the builders write, and parsing it.
--   External       interfaces of the crates lru, flate2, crc32fast and rayon, with their laws as
--                  records, and small concrete models of them.
--   BlockCache     src/block_cache.rs. View, Evict, Refine, Reads, Fresh and Runs have its theorems.
--   Index          src/index.rs. Build: PgzfIndex::build. Search: theorems on the seeks.
--                  Counts: the counts in an index that is built. Groups, Exact, Places, Sums, Whole
--                  and Written: the index of a file of the writer. Offsets: seeks in it. Wraps: sums of
--                  `build` that wrap.
--   Codec          src/compress.rs.
--   Writer         src/writer.rs. Layout: the bytes a group should be. Plan: the groups of some
--                  data. Blocks, GcField, Group, Finish and Stuck: theorems on a group. Holds, Writing,
--                  File and Pieces: the file that writes and `finish` make.
--   Reader         src/reader.rs and src/decompress.rs. State: PgzfReader. Raw: read_one_raw_block.
--                  Ranges: group_contiguous. Fill: fill_readahead. Read: seeks, read and read_blocks.
--                  Sequential: src/decompress.rs. RoundTrip, RawRead and Members: reading what the
--                  writer writes. Bounded: how much `read` gives. Skip, Items, Groups, Places, Offsets,
--                  Decoded, Access, Opened and Written: a file of the writer under `read_blocks`.
--                  Lookup, Batch, Stream, Reads, Seeks, Copies and Restored: such a file under
--                  `read`. Checks: the check of the CRC. Moves, Ends, Total, Blocks, Loops
--                  and Termination: where its loops end.
--   Command        src/main.rs, from the parsed arguments on. Paths: names. World: files and streams.
--                  Copy: the loops. Compress, Decompress, Inspect and Run: the functions of the same
--                  names, `encode` being the writer's part of `compress_file`. Laws, Limits, Files
--                  and Restored: theorems.
--   Tests          the theorems at concrete inputs.
--
-- The writer calls Codec for each block and Format for the headers; the reader opens a file by
-- Index, reads blocks, decompresses them by Codec and keeps them in BlockCache. The command line calls
-- the writer, the reader and Index.
--
-- Numbers are natural numbers; a `u64` or `u32` sum that the code computes wraps as in a release
-- build, and so do the `usize` sums of a number of a block with a count that the caller chooses. A
-- `Vec::with_capacity` of a wrapped difference panics. A slice out of bounds panics. Loops have
-- fuel: the binary search and the loops over tags take the length of their list, eviction the
-- number of entries, `write` the length of its input (a round takes a byte at least if the block
-- size is not 0), and the loops that read members the length of the file plus one (a round reads
-- ten bytes at least or ends; a round of `build` goes forward unless a sum wraps).
--
-- The command line takes a file for its bytes under a path; `io::copy` reads in pieces of 8192
-- bytes, and its loop in decompression has a number of rounds as a parameter, since the size of the
-- data has no bound in the size of the file. `encode` is written with the steps of `finish`, since what
-- a failed `finish` has written stays in the file.
--
-- Not modelled: the parsing of the arguments (clap), the number of threads, the text of the errors and
-- of `-i`, benches and fuzz targets, the warning in `Drop` of the writer, and I/O errors other than the
-- end of the file and a missing file.
pub mod Prelude
pub mod Error
pub mod Cursor
pub mod Constants
pub mod Format
pub mod External
pub mod BlockCache
pub mod Index
pub mod Codec
pub mod Command
pub mod Writer
pub mod Reader
pub mod Tests
