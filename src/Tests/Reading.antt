-- ===== src/Tests/Reading.antt =====
-- The reader at concrete inputs.
use pgzf_rs.Prelude.{
  ℕ, ◌-◌, ◌≡◌, ◌≢◌, refl, ap, true, false, none, some, List, [], ◌∷◌, ◌++◌, map, arith,
}
use pgzf_rs.Prelude.Lists.{length, drop, flatten}
use pgzf_rs.Prelude.Outcome.{ok, stuck}
use pgzf_rs.Format.Bytes.{read_u32_le}
use pgzf_rs.Format.Header.{dat, build_dat_header}
use pgzf_rs.Writer.{PendingBlock}
use pgzf_rs.Reader.State.{PgzfReader, opened}
use pgzf_rs.Reader.RawRead.{advanced}
use pgzf_rs.Reader.Members.{final_member, read_one_raw_block-final_member}
use pgzf_rs.External.Models.{listed, listed_laws, stored, stored_laws, sequential, sequential_ends}
use pgzf_rs.Codec.{new_decompressor}
use pgzf_rs.Codec.Laws.{deflated}
use pgzf_rs.Writer.Layout.{trailer_of}
use pgzf_rs.Reader.Raw.{RawBlock, read_one_raw_block, decompress_raw_block_with}
use pgzf_rs.Reader.Ranges.{group_contiguous, members, IsApart, group_contiguous_lem}
use pgzf_rs.Reader.Read.{read}
use pgzf_rs.Reader.Loops.{LoopsEnd}
use pgzf_rs.Reader.Termination.{read_ends, copied_ends}
use pgzf_rs.Command.Decompress.{copied}
use pgzf_rs.Reader.Checks.{decompress_raw_block_with-crc32}
use pgzf_rs.Reader.RoundTrip.{decompress_raw_block_with-deflated}

abbrev missing : List ℕ
missing = 0 ∷ 1 ∷ 2 ∷ 5 ∷ 6 ∷ 9 ∷ []

group_contiguous_lem_example :
    (flatten (map members (group_contiguous missing)) ≡ missing)
    × IsApart (group_contiguous missing)
group_contiguous_lem_example = group_contiguous_lem missing

abbrev block : List ℕ
block = 7 ∷ 0 ∷ 255 ∷ []

decompress_raw_block_with-deflated_example :
    (decompress_raw_block_with stored
      (build_dat_header 31
        ++ (deflated stored 6 (stored_laws 6) block ++ trailer_of stored 6 (stored_laws 6) block))
      (length (build_dat_header 31))
      (new_decompressor stored)).0
    ≡ ok block
decompress_raw_block_with-deflated_example =
    decompress_raw_block_with-deflated stored 6 (stored_laws 6) (build_dat_header 31) block
      (new_decompressor stored) tt (omega arith)

abbrev raw_block : List ℕ
raw_block =
    build_dat_header 31
    ++ (deflated stored 6 (stored_laws 6) block ++ trailer_of stored 6 (stored_laws 6) block)

block-nonempty : block ≢ []
block-nonempty e = omega (arith, ap length e)

decompress_raw_block_with-crc32_example :
    stored.crc32 block ≡ read_u32_le (drop (length raw_block - 8) raw_block)
decompress_raw_block_with-crc32_example =
    decompress_raw_block_with-crc32 stored raw_block block (length (build_dat_header 31))
      (new_decompressor stored) decompress_raw_block_with-deflated_example block-nonempty

abbrev second_block : PendingBlock
second_block = record { bytes = block; block_type = dat }

-- A reader in front of a block and of one byte more.
abbrev reader : PgzfReader listed
reader =
    opened listed
      (record {
        bytes = final_member listed stored 6 (stored_laws 6) second_block 0 ++ (31 ∷ []);
        pos = 0;
      })
      true none

read_one_raw_block-final_member_example :
    (raw : RawBlock) × (read_one_raw_block listed reader ≡ (
      ok (some raw),
      advanced listed reader
          (length (final_member listed stored 6 (stored_laws 6) second_block 0))
          1,
    ))
    × (raw.block_type ≡ dat)
    × (raw.block_index ≡ 0)
    × ((decompress_raw_block_with stored raw.raw raw.header_size (new_decompressor stored)).0
        ≡ ok block)
read_one_raw_block-final_member_example =
    read_one_raw_block-final_member listed stored 6 (stored_laws 6) reader second_block 0 (31 ∷ [])
      (new_decompressor stored) (λ e. ground (arith, e)) (omega arith) (omega arith) refl tt

-- The same file read from front to end; what is behind the block is no block.
abbrev plain_reader : PgzfReader listed
plain_reader = opened listed reader.inner false none

read_ends_example : ((read listed stored sequential 2 plain_reader).0 ≢ stuck) × LoopsEnd listed
read_ends_example = read_ends listed stored sequential sequential_ends listed_laws 2 plain_reader

copied_ends_example :
    ((copied listed stored sequential 0 (some 9) plain_reader).0 ≢ stuck) × LoopsEnd listed
copied_ends_example =
    copied_ends listed stored sequential sequential_ends listed_laws 0 9 plain_reader
