-- ===== src/Codec.antt =====
-- src/compress.rs: compression and decompression that keep their state and buffer between calls.
pub mod Laws
use pgzf_rs.Prelude.{ℕ, ◌+◌, ◌/◌, Option, none, some, List, []}
use pgzf_rs.Prelude.Tests.{leb, if◌then◌else◌}
use pgzf_rs.Prelude.Lists.{length, take}
use pgzf_rs.Prelude.Outcome.{Outcome, ok, err, panic, Exec}
use pgzf_rs.Error.{PgzfError, deflate, inflate, codec_error, buffer_error}
use pgzf_rs.External.Flate.{Flate, Status, status_ok, stream_end, buf_error}

-- The bytes that `compress` offers for the output of `n` bytes.
abbrev pub upper_bound : ℕ → ℕ
upper_bound n = n + n / 1000 + 64

module _ (fl : Flate) where
  pub record ReusableCompressor : Type 0 where
    pub inner : fl.Compress
    pub output_buf : List ℕ

  abbrev pub new_compressor : ℕ → ReusableCompressor
  new_compressor level = record { inner = fl.compress_new level; output_buf = [] }

  -- `self.output_buf[..compressed_len].to_vec()`
  abbrev pub compressed_part : ℕ → List ℕ → Outcome PgzfError (List ℕ)
  compressed_part n buf = if leb n (length buf) then ok (take n buf) else panic

  -- `map_err` and `match status`
  abbrev pub by_status : Option Status → ℕ → List ℕ → Outcome PgzfError (List ℕ)
  by_status none n buf = err (deflate codec_error)
  by_status (some status_ok) n buf = compressed_part n buf
  by_status (some stream_end) n buf = compressed_part n buf
  by_status (some buf_error) n buf = err (deflate buffer_error)

  abbrev pub after_run :
      Option Status × fl.Compress × List ℕ → Outcome PgzfError (List ℕ) × ReusableCompressor
  after_run (run, inner, buf) =
      (by_status run (fl.compress_total_out inner) buf, record { inner = inner; output_buf = buf })

  unfoldable pub compress : List ℕ → Exec ReusableCompressor PgzfError (List ℕ)
  compress bytes s =
      let bound = upper_bound (length bytes) in
      let inner = fl.compress_reset s.inner in after_run (fl.compress_run inner bytes bound)

  -- `compress_block`: one call on a new state.
  abbrev pub compress_block : ℕ → List ℕ → Outcome PgzfError (List ℕ)
  compress_block level bytes = (compress bytes (new_compressor level)).0

  pub record ReusableDecompressor : Type 0 where
    pub inner : fl.Decompress

  abbrev pub new_decompressor : ReusableDecompressor
  new_decompressor = record { inner = fl.decompress_new }

  -- `map_err`; any status is taken.
  abbrev pub by_result : Option Status → ℕ → List ℕ → Outcome PgzfError (ℕ × List ℕ)
  by_result none n output = err inflate
  by_result (some s) n output = ok (n, output)

  abbrev pub after_inflate :
      Option Status × fl.Decompress × List ℕ → Outcome PgzfError (ℕ × List ℕ) × ReusableDecompressor
  after_inflate (run, inner, output) =
      (by_result run (fl.decompress_total_out inner) output, record { inner = inner })

  -- The size that `decompress` returns, and the output buffer afterwards.
  unfoldable pub decompress : List ℕ → ℕ → Exec ReusableDecompressor PgzfError (ℕ × List ℕ)
  decompress compressed output_len s =
      let inner = fl.decompress_reset s.inner in
      after_inflate (fl.decompress_run inner compressed output_len)

  abbrev pub decompress_block : List ℕ → ℕ → Outcome PgzfError (ℕ × List ℕ)
  decompress_block compressed output_len = (decompress compressed output_len new_decompressor).0
