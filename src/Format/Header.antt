-- ===== src/Format/Header.antt =====
-- Validation and building of member headers (`validate_gzip_header` to `build_idx_header` of
-- src/format.rs). A builder starts from zeros and patches fields, as the source does.
use Prim.Native.Nat.{bit_and}
use pgzf_rs.Prelude.{ℕ, ◌+◌, ◌*◌, Bool, ◌&&◌, ◌||◌, not, List, [], ◌∷◌}
use pgzf_rs.Prelude.Tests.{ltb, ◌==◌, if◌then◌else◌}
use pgzf_rs.Prelude.Lists.{length, replicate}
use pgzf_rs.Prelude.Outcome.{Outcome, ok, err}
use pgzf_rs.Error.{PgzfError, invalid_format, invalid_gzip_magic, header_too_short, unsupported_cm}
use pgzf_rs.Constants.{
  gzip_id1, gzip_id2, gzip_cm_deflate, gzip_flg_fextra, gzip_os_unix, pgzf_xfl_marker,
  gzip_fixed_header_size, beg_header_size, dat_header_size, idx_header_base_size, tag_z, tag_g,
  tag_c, tag_i, tag_x,
}
use pgzf_rs.Format.Bytes.{as_u16, byte_at, patch, write_u16_le, write_u32_le, write_u64_le}

-- `enum BlockType` of src/lib.rs.
pub data BlockType : Type 0 where
  beg dat idx : BlockType

pub record IndexEntry : Type 0 where
  pub compressed_size : ℕ
  pub uncompressed_size : ℕ

unfoldable pub validate_gzip_header : List ℕ → Outcome PgzfError (ℕ × ℕ)
validate_gzip_header buf =
    if ltb (length buf) gzip_fixed_header_size
    then err (invalid_format header_too_short)
    else if not (byte_at buf 0 == gzip_id1) || not (byte_at buf 1 == gzip_id2)
    then err (invalid_gzip_magic (byte_at buf 0) (byte_at buf 1))
    else if not (byte_at buf 2 == gzip_cm_deflate)
    then err (invalid_format (unsupported_cm (byte_at buf 2)))
    else ok (byte_at buf 3, byte_at buf 8)

unfoldable pub is_pgzf_member : ℕ → ℕ → Bool
is_pgzf_member flg xfl = not (bit_and flg gzip_flg_fextra == 0) && xfl == pgzf_xfl_marker

unfoldable pub build_gzip_base : List ℕ → List ℕ
build_gzip_base buf =
    let b1 = patch buf 0 (gzip_id1 ∷ []) in
    let b2 = patch b1 1 (gzip_id2 ∷ []) in
    let b3 = patch b2 2 (gzip_cm_deflate ∷ []) in
    let b4 = patch b3 3 (gzip_flg_fextra ∷ []) in
    let b5 = patch b4 4 (0 ∷ 0 ∷ 0 ∷ 0 ∷ []) in
    let b6 = patch b5 8 (pgzf_xfl_marker ∷ []) in patch b6 9 (gzip_os_unix ∷ [])

-- The ZC tag, which all three headers carry at the same offset.
abbrev zc_tag : List ℕ → ℕ → List ℕ
zc_tag buf zc =
    write_u32_le (write_u16_le (patch (patch buf 12 (tag_z ∷ [])) 13 (tag_c ∷ [])) 14 4) 16 zc

unfoldable pub build_beg_header : ℕ → List ℕ
unfolding build_gzip_base write_u16_le write_u32_le write_u64_le
build_beg_header zc =
    let buf = write_u16_le (build_gzip_base (replicate beg_header_size 0)) 10 20 in
    let buf' = patch (patch (zc_tag buf zc) 20 (tag_g ∷ [])) 21 (tag_c ∷ []) in
    write_u64_le (write_u16_le buf' 22 8) 24 0

unfoldable pub build_dat_header : ℕ → List ℕ
unfolding build_gzip_base write_u16_le write_u32_le
build_dat_header zc = zc_tag (write_u16_le (build_gzip_base (replicate dat_header_size 0)) 10 8) zc

-- The loop over `entries`, from offset `off` on.
unfoldable pub write_entries : List ℕ → ℕ → List IndexEntry → List ℕ
unfolding write_u32_le
write_entries buf off [] = buf
write_entries buf off (e ∷ es) =
    write_entries
      (write_u32_le (write_u32_le buf off e.compressed_size) (off + 4) e.uncompressed_size)
      (off + 8) es

unfoldable pub build_idx_header : ℕ → List IndexEntry → List ℕ
unfolding build_gzip_base write_u16_le write_u32_le write_entries
build_idx_header zc entries =
    let ix_data_size = length entries * 8 in
    let xlen = 8 + 4 + ix_data_size in
    let buf = build_gzip_base (replicate (idx_header_base_size + ix_data_size) 0) in
    let buf' = zc_tag (write_u16_le buf 10 (as_u16 xlen)) zc in
    let buf'' = patch (patch buf' 20 (tag_i ∷ [])) 21 (tag_x ∷ []) in
    write_entries (write_u16_le buf'' 22 (as_u16 ix_data_size)) 24 entries
