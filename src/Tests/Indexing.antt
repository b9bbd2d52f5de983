-- ===== src/Tests/Indexing.antt =====
-- The file of one group with one block, and its index.
use pgzf_rs.Prelude.{◌-◌, ◌^◌, ◌++◌, ◌≡◌, refl, [], ◌∷◌, arith}
use pgzf_rs.Prelude.Int.{negsuc}
use pgzf_rs.Prelude.Outcome.{ok, stuck}
use pgzf_rs.Cursor.{Cursor, read_exact}
use pgzf_rs.Format.Bytes.{u16_bytes, u32_bytes, u64_bytes, read_u16_le, read_u32_le, read_u64_le}
use pgzf_rs.Format.Header.{validate_gzip_header, is_pgzf_member, build_idx_header}
use pgzf_rs.Format.Extra.{read_entries}
use pgzf_rs.Index.{block_count, seek_block}
use pgzf_rs.Index.Types.{PgzfIndex}
use pgzf_rs.Writer.Layout.{beg_header}
use pgzf_rs.Index.Wraps.{IsLoop, build_loop-stuck}
use pgzf_rs.Index.Build.{
  scan_start, build, build_loop, read_group, read_beg, check_beg, read_idx, read_entries_at,
  scan_group, push_entries,
}
use pgzf_rs.Index.Search.{resolve, IsFound}
use pgzf_rs.Index.Counts.{IsIndex, build-IsIndex, seek_block-build}

abbrev file : Cursor
file = record {
  bytes =
      31 ∷ 139 ∷ 8 ∷ 4 ∷ 0 ∷ 0 ∷ 0 ∷ 0 ∷ 170 ∷ 3 ∷ 20 ∷ 0 ∷ 90 ∷ 67 ∷ 4 ∷ 0 ∷ 40 ∷ 0 ∷ 0 ∷ 0 ∷ 71
      ∷ 67 ∷ 8 ∷ 0 ∷ 40 ∷ 0 ∷ 0 ∷ 0 ∷ 0 ∷ 0 ∷ 0 ∷ 0 ∷ 0 ∷ 0 ∷ 0 ∷ 0 ∷ 0 ∷ 0 ∷ 0 ∷ 0 ∷ 31 ∷ 139 ∷ 8
      ∷ 4 ∷ 0 ∷ 0 ∷ 0 ∷ 0 ∷ 170 ∷ 3 ∷ 20 ∷ 0 ∷ 90 ∷ 67 ∷ 4 ∷ 0 ∷ 40 ∷ 0 ∷ 0 ∷ 0 ∷ 73 ∷ 88 ∷ 8 ∷ 0
      ∷ 40 ∷ 0 ∷ 0 ∷ 0 ∷ 7 ∷ 0 ∷ 0 ∷ 0 ∷ 0 ∷ 0 ∷ 0 ∷ 0 ∷ 0 ∷ 0 ∷ 0 ∷ 0 ∷ [];
  pos = 0;
}

abbrev one_block : PgzfIndex
one_block = record {
  blocks =
      record { group_index = 0; block_in_group = 0; compressed_size = 40; uncompressed_size = 7 }
      ∷ [];
  compressed_offsets = 0 ∷ 80 ∷ [];
  uncompressed_offsets = 0 ∷ 7 ∷ [];
  group_count = 1;
}

file-build : (build file).0 ≡ ok one_block
unfolding build build_loop read_group read_beg check_beg read_idx read_entries_at scan_group
    push_entries read_exact validate_gzip_header is_pgzf_member read_u16_le read_u32_le read_u64_le
    read_entries
file-build = refl

build-IsIndex_example : IsIndex one_block
build-IsIndex_example = build-IsIndex file one_block file-build

seek_block-build_example :
    IsFound one_block (resolve (block_count one_block) (negsuc 0)) (seek_block one_block (negsuc 0))
seek_block-build_example = seek_block-build file one_block (negsuc 0) file-build

-- A group without blocks, and a BEG header whose GC value leads back to the index of that group.
abbrev looping : Cursor
looping = record {
  bytes = beg_header 0 32 ++ (build_idx_header 24 [] ++ beg_header 0 (2 ^ 64 - 24));
  pos = 56;
}

looping-IsLoop : IsLoop looping 0 (2 ^ 64 - 24) 24 32 [] [] (beg_header 0 (2 ^ 64 - 24))
unfolding u16_bytes u32_bytes u64_bytes build_idx_header
looping-IsLoop = record {
  beg = refl;
  gc_fits = omega arith;
  gc_set = λ e. omega (arith, e);
  wraps = refl;
  idx = refl;
  zc_fits = omega arith;
  es_fit = omega arith;
  entries = tt;
  back = refl;
}

build_loop-stuck_example : build_loop 1000 scan_start looping ≡ (stuck, looping)
build_loop-stuck_example =
    build_loop-stuck 1000 scan_start looping 0 (2 ^ 64 - 24) 24 32 [] []
      (beg_header 0 (2 ^ 64 - 24)) looping-IsLoop

-- `build` gets there from the beginning of the file.
looping-build : (build looping).0 ≡ stuck
unfolding build build_loop read_group read_beg check_beg read_idx read_entries_at scan_group
    push_entries read_exact validate_gzip_header is_pgzf_member read_u16_le read_u32_le read_u64_le
    read_entries u16_bytes u32_bytes u64_bytes build_idx_header
looping-build = refl
