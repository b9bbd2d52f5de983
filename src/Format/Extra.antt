-- ===== src/Format/Extra.antt =====
-- `parse_extra_field` and `determine_block_type` of src/format.rs. The list that a loop runs over is
-- what the source's slice holds from the offset on.
use pgzf_rs.Prelude.{
  ℕ, zero, suc, ◌+◌, ◌/◌, ◌%◌, Bool, ◌&&◌, not, Option, none, some, List, [], ◌∷◌,
}
use pgzf_rs.Prelude.Tests.{ltb, leb, ◌==◌, if◌then◌else◌}
use pgzf_rs.Prelude.Lists.{length, take, drop}
use pgzf_rs.Prelude.Outcome.{Outcome, ok, err}
use pgzf_rs.Error.{PgzfError, invalid_format, extra_too_short, extra_truncated}
use pgzf_rs.Constants.{tag_z, tag_g, tag_c, tag_i, tag_x}
use pgzf_rs.Format.Bytes.{byte_at, read_u16_le, read_u32_le, read_u64_le}
use pgzf_rs.Format.Header.{BlockType, beg, dat, idx, IndexEntry}

-- The three values that the loop over the tags collects.
pub record Tags : Type 0 where
  pub zc : ℕ
  pub gc : Option ℕ
  pub ix : Option (List IndexEntry)

abbrev pub no_tags : Tags
no_tags = record { zc = 0; gc = none; ix = none }

-- `while i + 8 <= slen` over the data of an IX tag; one round of fuel for each entry.
unfoldable pub read_entries : ℕ → List ℕ → List IndexEntry
read_entries zero bytes = []
read_entries (suc n) bytes =
    record { compressed_size = read_u32_le bytes; uncompressed_size = read_u32_le (drop 4 bytes) }
    ∷ read_entries n (drop 8 bytes)

abbrev pub is_tag : ℕ → ℕ → List ℕ → Bool
is_tag first second bytes = byte_at bytes 0 == first && byte_at bytes 1 == second

-- The three branches on one tag; `payload` has `slen` bytes.
unfoldable pub read_tag : Tags → List ℕ → ℕ → List ℕ → Tags
read_tag t head slen payload =
    if is_tag tag_z tag_c head && leb 4 slen
    then record t { zc = read_u32_le payload }
    else if is_tag tag_g tag_c head && leb 8 slen
    then record t { gc = some (read_u64_le payload) }
    else if is_tag tag_i tag_x head && (leb 8 slen && slen % 8 == 0)
    then record t { ix = some (read_entries (slen / 8) payload) }
    else t

-- `while off + 4 <= extra.len()`; a round takes four bytes at least, so the length is fuel enough.
unfoldable pub parse_tags : ℕ → List ℕ → Tags → Tags
parse_tags zero extra t = t
parse_tags (suc fuel) extra t =
    let slen = read_u16_le (drop 2 extra) in
    let body = drop 4 extra in
    let rest = parse_tags fuel (drop slen body) (read_tag t extra slen (take slen body)) in
    if ltb (length extra) 4 then t else if ltb (length body) slen then t else rest

unfoldable pub parse_extra_field : List ℕ → Bool → Outcome PgzfError Tags
parse_extra_field buf is_pgzf =
    let xlen = read_u16_le buf in
    let extra = take xlen (drop 2 buf) in
    if ltb (length buf) 2
    then err (invalid_format extra_too_short)
    else if ltb (length buf) (2 + xlen)
    then err (invalid_format (extra_truncated (2 + xlen) (length buf)))
    else if not is_pgzf
    then ok no_tags
    else ok (parse_tags (length extra) extra no_tags)

unfoldable pub determine_block_type : Option ℕ → Option (List IndexEntry) → BlockType
determine_block_type gc (some entries) = idx
determine_block_type (some n) none = beg
determine_block_type none none = dat
