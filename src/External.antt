-- ===== src/External.antt =====
-- The interfaces of the crates that the code calls and that are not part of the repository: lru,
-- flate2, rayon and crc32fast. Each is a record of operations; its laws stand apart, as a record that
-- a lemma takes where it needs them. `Models` has values for which the laws hold.
pub mod Lru
pub mod Flate
pub mod Rayon
pub mod Models
