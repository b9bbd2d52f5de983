-- ===== src/Reader/Raw.antt =====
-- `read_one_raw_block` and `decompress_raw_block_with` of src/reader.rs.
use pgzf_rs.Prelude.{
  ℕ, zero, suc, ◌+◌, ◌-◌, ◌^◌, Bool, true, false, ◌&&◌, Option, none, some, List, [], ◌++◌,
}
use pgzf_rs.Prelude.Tests.{ltb, leb, ◌==◌, if◌then◌else◌}
use pgzf_rs.Prelude.Lists.{length, take, drop}
use pgzf_rs.Prelude.Outcome.{Outcome, ok, err, panic, Exec, ◌>>=◌, pure, lift, fail, convert}
use pgzf_rs.Error.{
  IoError, message, wrapping, invalid_data, crc_mismatch_message, PgzfError, io, invalid_format,
  block_too_large,
}
use pgzf_rs.Cursor.{Cursor, read_exact, read_or_eof}
use pgzf_rs.Constants.{gzip_fixed_header_size, pgzf_tail_size, tag_z, tag_g, tag_c, tag_i, tag_x}
use pgzf_rs.Format.Bytes.{read_u16_le, read_u32_le}
use pgzf_rs.Format.Header.{BlockType, beg, dat, idx}
use pgzf_rs.Format.Extra.{is_tag}
use pgzf_rs.External.Lru.{LruCache}
use pgzf_rs.External.Flate.{Flate}
use pgzf_rs.BlockCache.{CacheEntry}
use pgzf_rs.Codec.{ReusableDecompressor, decompress}
use pgzf_rs.Reader.State.{PgzfReader}

pub record RawBlock : Type 0 where
  pub raw : List ℕ
  pub header_size : ℕ
  pub block_type : BlockType
  pub block_index : ℕ

-- The variables of the loop over the tags.
pub record RawTags : Type 0 where
  pub zc : ℕ
  pub has_gc : Bool
  pub has_ix : Bool

abbrev pub no_raw_tags : RawTags
no_raw_tags = record { zc = 0; has_gc = false; has_ix = false }

unfoldable pub note_tag : RawTags → List ℕ → ℕ → List ℕ → RawTags
note_tag t head slen payload =
    if is_tag tag_z tag_c head && leb 4 slen
    then record t { zc = read_u32_le payload }
    else if is_tag tag_g tag_c head
    then record t { has_gc = true }
    else if is_tag tag_i tag_x head
    then record t { has_ix = true }
    else t

-- `while eoff + 4 <= extra.len()`; a round takes four bytes at least, so the length is fuel enough.
unfoldable pub scan_tags : ℕ → List ℕ → RawTags → RawTags
scan_tags zero extra t = t
scan_tags (suc fuel) extra t =
    let slen = read_u16_le (drop 2 extra) in
    let body = drop 4 extra in
    let rest = scan_tags fuel (drop slen body) (note_tag t extra slen (take slen body)) in
    if ltb (length extra) 4 then t else if ltb (length body) slen then t else rest

abbrev pub raw_type : RawTags → BlockType
raw_type t = if t.has_ix then idx else if t.has_gc then beg else dat

module _ (lru : LruCache CacheEntry) where
  -- A call on `self.inner`.
  abbrev pub on_inner : {E A : Type 0} → Exec Cursor E A → Exec (PgzfReader lru) E A
  on_inner m r = let p = m r.inner in (p.0, record r { inner = p.1 })

  -- An IDX block takes no number.
  abbrev pub number_block : BlockType → Exec (PgzfReader lru) PgzfError ℕ
  number_block idx r = (ok r.next_block_index, r)
  number_block _ r = (ok r.next_block_index, record r { next_block_index = r.next_block_index + 1 })

  -- What follows the extra field. The copies into `raw` panic if it is shorter than the header.
  unfoldable pub read_rest :
      List ℕ → List ℕ → List ℕ → RawTags → ℕ → Exec (PgzfReader lru) PgzfError (Option RawBlock)
  read_rest header_buf xlen_buf extra tags block_index =
      let header_size = gzip_fixed_header_size + 2 + length extra in
      if tags.zc == 0
      then pure none
      else if ltb (2 ^ 30) tags.zc
      then fail (invalid_format (block_too_large tags.zc))
      else if ltb tags.zc header_size
      then lift panic
      else do
        rest ← on_inner (convert io (read_exact (tags.zc - header_size)))
        pure (
            some (record {
              raw = header_buf ++ (xlen_buf ++ (extra ++ rest));
              header_size = header_size;
              block_type = raw_type tags;
              block_index = block_index;
            }))

  -- From the length of the extra field on; `none` is the end of the file.
  unfoldable pub read_member : Option (List ℕ) → Exec (PgzfReader lru) PgzfError (Option RawBlock)
  read_member none = pure none
  read_member (some header_buf) = do
    xlen_buf ← on_inner (convert io (read_exact 2))
    extra ← on_inner (convert io (read_exact (read_u16_le xlen_buf)))
    let tags = scan_tags (length extra) extra no_raw_tags
    block_index ← number_block (raw_type tags)
    read_rest header_buf xlen_buf extra tags block_index

  unfoldable pub read_one_raw_block : Exec (PgzfReader lru) PgzfError (Option RawBlock)
  read_one_raw_block = do header ← on_inner (read_or_eof gzip_fixed_header_size); read_member header

module _ (fl : Flate) where
  abbrev pub check_crc : List ℕ → ℕ → Outcome IoError (List ℕ)
  check_crc output expected_crc =
      if fl.crc32 output == expected_crc
      then ok output
      else err (message invalid_data (crc_mismatch_message expected_crc (fl.crc32 output)))

  unfoldable pub decompress_raw_block_with :
      List ℕ → ℕ → Exec (ReusableDecompressor fl) IoError (List ℕ)
  decompress_raw_block_with raw header_size =
      let zc = length raw in
      let trailer_off = zc - pgzf_tail_size in
      let expected_size = read_u32_le (drop (trailer_off + 4) raw) in
      let deflate_data = take (trailer_off - header_size) (drop header_size raw) in
      if ltb zc (pgzf_tail_size + header_size)
      then pure []
      else if expected_size == 0
      then pure []
      else do
        (actual_size, output) ←
            convert (wrapping invalid_data) (decompress fl deflate_data expected_size)
        lift (check_crc (take actual_size output) (read_u32_le (drop trailer_off raw)))
