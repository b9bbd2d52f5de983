-- ===== src/Error.antt =====
-- src/error.rs: the errors. A message built by `format!` is a constructor with the numbers that it
-- shows; a text that comes from flate2 is not kept.
use pgzf_rs.Prelude.{ℕ}

-- std::io::ErrorKind, as far as the crate names it.
pub data IoKind : Type 0 where
  unexpected_eof invalid_input invalid_data unsupported other_kind : IoKind

pub data FormatMessage : Type 0 where
  header_too_short extra_too_short not_pgzf idx_not_pgzf invalid_idx_xlen zc_too_small :
      FormatMessage
  unsupported_cm : ℕ → FormatMessage
  extra_truncated : ℕ → ℕ → FormatMessage
  block_too_large : ℕ → FormatMessage

pub data CodecMessage : Type 0 where
  codec_error buffer_error : CodecMessage

pub data IoMessage : Type 0 where
  not_a_pgzf_file block_not_found seek_from_end : IoMessage
  crc_mismatch_message : ℕ → ℕ → IoMessage

-- An `std::io::Error` may hold a `PgzfError`, and the other way round.
mutual
  pub data IoError : Type 0 where
    simple : IoKind → IoError
    message : IoKind → IoMessage → IoError
    wrapping : IoKind → PgzfError → IoError

  pub data PgzfError : Type 0 where
    io : IoError → PgzfError
    deflate : CodecMessage → PgzfError
    inflate : PgzfError
    invalid_format : FormatMessage → PgzfError
    invalid_gzip_magic : ℕ → ℕ → PgzfError
    crc_mismatch : ℕ → ℕ → PgzfError
    index_not_available : PgzfError
    seek_beyond_end : ℕ → ℕ → PgzfError

-- `impl From<PgzfError> for std::io::Error`
unfoldable pub into_io : PgzfError → IoError
into_io (io e) = e
into_io other = wrapping other_kind other
