-- ===== src/Codec/Laws.antt =====
-- What is relied on of flate2, and what `compress` and `decompress` do then.
use pgzf_rs.Prelude.{ℕ, ◌+◌, ◌*◌, ◌/◌, ◌≤◌, ◌<◌, ◌^◌, ◌≡◌, ◌≢◌, refl, some, List, ◌++◌, arith}
use pgzf_rs.Prelude.Tests.{le→leb}
use pgzf_rs.Prelude.Lists.{length, take, length-append, take-append}
use pgzf_rs.Prelude.Outcome.{ok}
use pgzf_rs.External.Flate.{Flate, Status, status_ok, stream_end, buf_error}
use pgzf_rs.Codec.{
  ReusableCompressor, ReusableDecompressor, upper_bound, compressed_part, by_status, compress,
  decompress,
}

-- The bytes that are always enough for a raw deflate stream: zlib's documentation states an overhead
-- of at most five bytes for each block of 16 KB and six bytes once.
abbrev pub deflate_bound : ℕ → ℕ
deflate_bound n = n + 5 * (n / 16384 + 1) + 6

-- flate2 at one level. `Used` holds of the states that a compressor can reach. A reset state is as
-- good as new; a buffer of the documented bound takes the whole stream, at its front, and the status
-- is not `BufError`; and inflating the stream into a buffer that is large enough gives the data back.
pub record FlateLaws (fl : Flate) (level : ℕ) : Type 1 where
  pub Used : fl.Compress → Type 0
  pub Used-new : Used (fl.compress_new level)
  pub reset_new : (c : fl.Compress) → Used c → fl.compress_reset c ≡ fl.compress_new level
  pub stream : List ℕ → List ℕ
  pub ended : List ℕ → ℕ → fl.Compress
  pub status : List ℕ → ℕ → Status
  pub unused : List ℕ → ℕ → List ℕ
  pub run_lem :
      (bytes : List ℕ) (room : ℕ)
      → deflate_bound (length bytes) ≤ room
      → fl.compress_run (fl.compress_new level) bytes room
        ≡ (some (status bytes room), ended bytes room, stream bytes ++ unused bytes room)
  pub status-ne :
      (bytes : List ℕ) (room : ℕ)
      → deflate_bound (length bytes) ≤ room
      → status bytes room ≢ buf_error
  pub Used-ended : (bytes : List ℕ) (room : ℕ) → Used (ended bytes room)
  pub total_out-ended :
      (bytes : List ℕ) (room : ℕ)
      → deflate_bound (length bytes) ≤ room
      → fl.compress_total_out (ended bytes room) ≡ length (stream bytes)
  pub UsedD : fl.Decompress → Type 0
  pub UsedD-new : UsedD fl.decompress_new
  pub reset_d_new : (d : fl.Decompress) → UsedD d → fl.decompress_reset d ≡ fl.decompress_new
  pub inflated : List ℕ → ℕ → fl.Decompress
  pub inflate_status : List ℕ → ℕ → Status
  pub output : List ℕ → ℕ → List ℕ
  pub inflate_lem :
      (bytes : List ℕ) (n : ℕ)
      → length bytes ≤ n
      → fl.decompress_run fl.decompress_new (stream bytes) n
        ≡ (some (inflate_status bytes n), inflated bytes n, output bytes n)
  pub UsedD-inflated : (bytes : List ℕ) (n : ℕ) → UsedD (inflated bytes n)
  pub total_out-inflated :
      (bytes : List ℕ) (n : ℕ)
      → length bytes ≤ n
      → fl.decompress_total_out (inflated bytes n) ≡ length bytes
  pub output_front :
      (bytes : List ℕ) (n : ℕ) → length bytes ≤ n → take (length bytes) (output bytes n) ≡ bytes
  pub crc32-lt : (bytes : List ℕ) → fl.crc32 bytes < 2 ^ 32

module _ (fl : Flate) (level : ℕ) (laws : FlateLaws fl level) where
  -- The deflate stream of some data.
  abbrev pub deflated : List ℕ → List ℕ
  deflated bytes = laws.stream bytes

  abbrev pub Ready : ReusableCompressor fl → Type 0
  Ready s = laws.Used s.inner

  abbrev pub ReadyD : ReusableDecompressor fl → Type 0
  ReadyD s = laws.UsedD s.inner

  -- The buffer that the crate offers is large enough.
  upper_bound-le : (n : ℕ) → deflate_bound n ≤ upper_bound n
  upper_bound-le n = omega arith

  by_status_lem :
      (status : Status) (n : ℕ) (buf : List ℕ)
      → status ≢ buf_error
      → by_status fl (some status) n buf ≡ compressed_part fl n buf
  by_status_lem status_ok n buf h = refl
  by_status_lem stream_end n buf h = refl
  by_status_lem buf_error n buf h = absurd (h refl)

  -- Whatever was compressed before, the result depends on the data alone.
  pub compress_lem :
      (bytes : List ℕ) (s : ReusableCompressor fl)
      → Ready s
      → ((compress fl bytes s).0 ≡ ok (deflated bytes)) × Ready (compress fl bytes s).1
  unfolding compress
  compress_lem bytes s h =
      let room = upper_bound (length bytes) in
      let enough = upper_bound-le (length bytes) in
      let out = laws.stream bytes in
      let rest = laws.unused bytes room in
      let inside : length out ≤ length (out ++ rest) = omega (arith, length-append out rest) in
      rw
        (
          laws.reset_new s.inner h,
          laws.run_lem bytes room enough,
          by_status_lem (laws.status bytes room) (fl.compress_total_out (laws.ended bytes room))
              (out ++ rest) (laws.status-ne bytes room enough),
          laws.total_out-ended bytes room enough,
          le→leb _ _ inside,
          take-append (length out) out rest refl,
        )
        (refl, laws.Used-ended bytes room)

  pub decompress_lem :
      (bytes : List ℕ) (n : ℕ) (s : ReusableDecompressor fl)
      → ReadyD s
      → length bytes ≤ n
      → ((decompress fl (deflated bytes) n s).0 ≡ ok (length bytes, laws.output bytes n))
        × ReadyD (decompress fl (deflated bytes) n s).1
  unfolding decompress
  decompress_lem bytes n s h le =
      rw
        (
          laws.reset_d_new s.inner h,
          laws.inflate_lem bytes n le,
          laws.total_out-inflated bytes n le,
        )
        (refl, laws.UsedD-inflated bytes n)
