-- ===== src/Writer/Layout.antt =====
-- The bytes that a group of blocks should become: the members in order with the size of the group in
-- the first, and the IDX block behind them.
use pgzf_rs.Prelude.{ℕ, ◌+◌, ◌*◌, List, [], ◌∷◌, ◌++◌}
use pgzf_rs.Prelude.Lists.{length, replicate}
use pgzf_rs.Constants.{idx_header_base_size, pgzf_tail_size}
use pgzf_rs.Format.Bytes.{as_u32, u16_bytes, u32_bytes}
use pgzf_rs.Format.Header.{IndexEntry, build_idx_header}
use pgzf_rs.Format.Layout.{fixed_header, zc_field, gc_field}
use pgzf_rs.External.Flate.{Flate}
use pgzf_rs.Codec.Laws.{FlateLaws, deflated}
use pgzf_rs.Writer.{PendingBlock, CompressedBlock, header_size, build_header}

-- The header of the first block of a group, with the compressed size of the group in it.
abbrev pub beg_header : ℕ → ℕ → List ℕ
beg_header zc gc = fixed_header ++ (u16_bytes 20 ++ (zc_field zc ++ gc_field gc))

abbrev pub gc_of : List IndexEntry → ℕ
gc_of [] = 0
gc_of (e ∷ es) = e.compressed_size + gc_of es

module _ (fl : Flate) (level : ℕ) (laws : FlateLaws fl level) where
  abbrev pub zc_of : PendingBlock → ℕ
  zc_of b =
      as_u32 (header_size b.block_type + length (deflated fl level laws b.bytes) + pgzf_tail_size)

  abbrev pub trailer_of : List ℕ → List ℕ
  trailer_of bytes = u32_bytes (fl.crc32 bytes) ++ u32_bytes (as_u32 (length bytes))

  abbrev pub compressed_of : PendingBlock → CompressedBlock
  compressed_of b = record {
    header = build_header b.block_type (zc_of b);
    compressed = deflated fl level laws b.bytes;
    trailer = trailer_of b.bytes;
    zc = zc_of b;
    uncompressed_size = as_u32 (length b.bytes);
  }

  abbrev pub member : CompressedBlock → List ℕ
  member cb = cb.header ++ (cb.compressed ++ cb.trailer)

  abbrev pub members : List PendingBlock → List ℕ
  members [] = []
  members (b ∷ bs) = member (compressed_of b) ++ members bs

  abbrev pub entries : List PendingBlock → List IndexEntry
  entries [] = []
  entries (b ∷ bs) =
      record { compressed_size = zc_of b; uncompressed_size = as_u32 (length b.bytes) } ∷ entries bs

  abbrev pub idx_zc_of : List IndexEntry → ℕ
  idx_zc_of es =
      as_u32
        (idx_header_base_size + length es * 8 + length (deflated fl level laws []) + pgzf_tail_size)

  abbrev pub idx_member : List IndexEntry → List ℕ
  idx_member es =
      build_idx_header (idx_zc_of es) es
      ++ (deflated fl level laws [] ++ replicate pgzf_tail_size 0)

  abbrev pub after_header : PendingBlock → List ℕ
  after_header b = deflated fl level laws b.bytes ++ trailer_of b.bytes

  abbrev pub group_bytes : PendingBlock → List PendingBlock → List ℕ
  group_bytes b bs =
      beg_header (zc_of b) (gc_of (entries (b ∷ bs)))
      ++ (after_header b ++ (members bs ++ idx_member (entries (b ∷ bs))))
