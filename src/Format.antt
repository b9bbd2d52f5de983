-- ===== src/Format.antt =====
-- src/format.rs: the bytes of headers. `Bytes` has the little-endian words, `Header` builds and
-- validates headers, `Extra` parses the extra field, `Config` has the configuration; the other
-- children prove what these do.
pub mod Bytes
pub mod Header
pub mod Extra
pub mod Config
pub mod Layout
pub mod RoundTrip
pub mod Settings
