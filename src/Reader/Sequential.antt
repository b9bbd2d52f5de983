-- ===== src/Reader/Sequential.antt =====
-- src/decompress.rs, and `advance_to_next_block_sequential` of src/reader.rs.
use pgzf_rs.Prelude.{ℕ, zero, suc, ◌+◌, ◌-◌, ◌*◌, max, Option, none, some, List, [], ◌++◌}
use pgzf_rs.Prelude.Tests.{ltb, ◌==◌, if◌then◌else◌}
use pgzf_rs.Prelude.Lists.{length, take, drop}
use pgzf_rs.Prelude.Outcome.{Outcome, ok, err, stuck, Exec, ◌>>=◌, pure, lift, convert}
use pgzf_rs.Error.{PgzfError, io, invalid_format, zc_too_small, crc_mismatch}
use pgzf_rs.Cursor.{Cursor, read_exact, read_or_eof}
use pgzf_rs.Constants.{
  gzip_fixed_header_size, beg_header_size, dat_header_size, idx_header_base_size, pgzf_tail_size,
}
use pgzf_rs.Format.Bytes.{read_u16_le, read_u32_le}
use pgzf_rs.Format.Header.{
  BlockType, beg, dat, idx, IndexEntry, validate_gzip_header, is_pgzf_member,
}
use pgzf_rs.Format.Extra.{parse_extra_field, determine_block_type}
use pgzf_rs.External.Flate.{Flate}
use pgzf_rs.Codec.{decompress_block}

-- `ix.as_ref().map_or(0, |e| e.len() * 8)`
abbrev pub entries_size : Option (List IndexEntry) → ℕ
entries_size none = 0
entries_size (some entries) = length entries * 8

abbrev pub member_header_size : BlockType → Option (List IndexEntry) → ℕ
member_header_size beg ix = beg_header_size
member_header_size dat ix = dat_header_size
member_header_size idx ix = idx_header_base_size + entries_size ix

-- `checked_sub`
abbrev pub deflate_size : ℕ → ℕ → Outcome PgzfError ℕ
deflate_size zc header_size =
    if ltb zc (header_size + pgzf_tail_size)
    then err (invalid_format zc_too_small)
    else ok (zc - (header_size + pgzf_tail_size))

-- The data of a block, its type, and ZC.
abbrev pub ReadBlock : Type 0
ReadBlock = List ℕ × BlockType × ℕ

module _ (fl : Flate) where
  abbrev pub checked : List ℕ → ℕ → Outcome PgzfError (List ℕ)
  checked output expected =
      if fl.crc32 output == expected
      then ok output
      else err (crc_mismatch expected (fl.crc32 output))

  -- An IDX block has no data of the user.
  abbrev pub block_data : BlockType → List ℕ → List ℕ → Exec Cursor PgzfError (List ℕ)
  block_data idx deflate_data trailer = pure []
  block_data _ deflate_data trailer = do
    (actual_size, output) ←
        lift (decompress_block fl deflate_data (max (read_u32_le (drop 4 trailer)) 1))
    lift (checked (take actual_size output) (read_u32_le trailer))

  unfoldable pub read_after_header : Option (List ℕ) → Exec Cursor PgzfError (Option ReadBlock)
  read_after_header none = pure none
  read_after_header (some header_buf) = do
    (flg, xfl) ← lift (validate_gzip_header header_buf)
    xlen_buf ← convert io (read_exact 2)
    extra ← convert io (read_exact (read_u16_le xlen_buf))
    tags ← lift (parse_extra_field (xlen_buf ++ extra) (is_pgzf_member flg xfl))
    let block_type = determine_block_type tags.gc tags.ix
    n ← lift (deflate_size tags.zc (member_header_size block_type tags.ix))
    deflate_data ← convert io (read_exact n)
    trailer ← convert io (read_exact pgzf_tail_size)
    bytes ← block_data block_type deflate_data trailer
    pure (some (bytes, block_type, tags.zc))

  unfoldable pub read_pgzf_block : Exec Cursor PgzfError (Option ReadBlock)
  read_pgzf_block = do header ← read_or_eof gzip_fixed_header_size; read_after_header header

  -- The loop of `advance_to_next_block_sequential`: the data of the next block that is no IDX block,
  -- `none` at the end. Each round reads twelve bytes at least or ends.
  unfoldable pub next_block : ℕ → Exec Cursor PgzfError (Option (List ℕ))
  next_block zero = lift stuck
  next_block (suc fuel) = read_pgzf_block >>= elim [
    | none ↦ pure none
    | some b ↦ elim b.1 [ idx ↦ next_block fuel | beg ↦ pure (some b.0) | dat ↦ pure (some b.0) ]
  ]
