-- ===== src/External/Flate.antt =====
-- flate2's raw `Compress` and `Decompress`, and `crc32fast::hash`.
use pgzf_rs.Prelude.{ℕ, Option, List}

pub data Status : Type 0 where
  status_ok stream_end buf_error : Status

-- One call of `compress` with `FlushCompress::Finish` on an output buffer of the given length: the
-- status, or `none` for an error, the state and the buffer afterwards. `decompress` is the same.
pub record Flate : Type 1 where
  pub Compress : Type 0
  pub compress_new : ℕ → Compress
  pub compress_reset : Compress → Compress
  pub compress_run : Compress → List ℕ → ℕ → Option Status × Compress × List ℕ
  pub compress_total_out : Compress → ℕ
  pub Decompress : Type 0
  pub decompress_new : Decompress
  pub decompress_reset : Decompress → Decompress
  pub decompress_run : Decompress → List ℕ → ℕ → Option Status × Decompress × List ℕ
  pub decompress_total_out : Decompress → ℕ
  -- crc32fast
  pub crc32 : List ℕ → ℕ
