-- ===== src/Index/Build.antt =====
-- `PgzfIndex::build` of src/index.rs. Each round reads one group: its BEG header, and the IDX block at
-- the distance that the BEG header gives. `u64` sums wrap, as in a release build.
use pgzf_rs.Prelude.{ℕ, zero, suc, ◌+◌, ◌-◌, ◌/◌, not, Option, none, some, List, [], ◌∷◌, ◌++◌}
use pgzf_rs.Prelude.Tests.{ltb, ◌==◌, if◌then◌else◌}
use pgzf_rs.Prelude.Lists.{length, drop}
use pgzf_rs.Prelude.Outcome.{Outcome, ok, err, stuck, Exec, ◌>>=◌, ◌>>◌, pure, lift, convert}
use pgzf_rs.Error.{PgzfError, io, invalid_format, not_pgzf, idx_not_pgzf, invalid_idx_xlen}
use pgzf_rs.Cursor.{Cursor, read_exact, read_or_eof, seek_start, stream_position}
use pgzf_rs.Constants.{
  beg_header_size, idx_header_base_size, pgzf_xfl_marker, zc_value_offset, gc_value_offset,
}
use pgzf_rs.Format.Bytes.{add_u64, as_u32, read_u16_le, read_u32_le, read_u64_le}
use pgzf_rs.Format.Header.{IndexEntry, validate_gzip_header, is_pgzf_member}
use pgzf_rs.Format.Extra.{read_entries}
use pgzf_rs.Index.Types.{BlockMeta, PgzfIndex}

-- The local variables of `build`.
pub record Scan : Type 0 where
  pub blocks : List BlockMeta
  pub compressed_offsets : List ℕ
  pub uncompressed_offsets : List ℕ
  pub cum_c : ℕ
  pub cum_u : ℕ
  pub group_count : ℕ

abbrev pub scan_start : Scan
scan_start = record {
  blocks = [];
  compressed_offsets = [];
  uncompressed_offsets = [];
  cum_c = 0;
  cum_u = 0;
  group_count = 0;
}

-- The body of `for i in 0..num_entries`.
abbrev pub push_entry : Scan → ℕ → IndexEntry → Scan
push_entry s i e = record s {
  blocks =
      s.blocks
      ++ (record {
        group_index = as_u32 s.group_count;
        block_in_group = as_u32 i;
        compressed_size = e.compressed_size;
        uncompressed_size = e.uncompressed_size;
      }
          ∷ []);
  compressed_offsets = s.compressed_offsets ++ (s.cum_c ∷ []);
  uncompressed_offsets = s.uncompressed_offsets ++ (s.cum_u ∷ []);
  cum_c = add_u64 s.cum_c e.compressed_size;
  cum_u = add_u64 s.cum_u e.uncompressed_size;
}

unfoldable pub push_entries : Scan → ℕ → List IndexEntry → Scan
push_entries s i [] = s
push_entries s i (e ∷ es) = push_entries (push_entry s i e) (i + 1) es

-- The IDX block is counted after its entries.
unfoldable pub scan_group : Scan → List IndexEntry → ℕ → Scan
scan_group s es idx_zc =
    let s' = push_entries s 0 es in
    record s' { cum_c = add_u64 s'.cum_c idx_zc; group_count = add_u64 s'.group_count 1 }

-- `idx_xlen.checked_sub(8 + 4)`
abbrev pub ix_size : ℕ → Outcome PgzfError ℕ
ix_size xlen = if ltb xlen 12 then err (invalid_format invalid_idx_xlen) else ok (xlen - 12)

-- The entries and the ZC of the IDX block at `idx_start`; the file goes behind it.
unfoldable pub read_entries_at : ℕ → Exec Cursor PgzfError (List IndexEntry × ℕ)
read_entries_at idx_start = do
  seek_start idx_start
  idx_fixed ← convert io (read_exact idx_header_base_size)
  (flg, idx_xfl) ← lift (validate_gzip_header idx_fixed)
  lift (if not (idx_xfl == pgzf_xfl_marker) then err (invalid_format idx_not_pgzf) else ok tt)
  ix_data_size ← lift (ix_size (read_u16_le (drop 10 idx_fixed)))
  ix_data ← convert io (read_exact ix_data_size)
  let idx_zc = read_u32_le (drop zc_value_offset idx_fixed)
  seek_start (add_u64 idx_start idx_zc)
  pure (read_entries (ix_data_size / 8) ix_data, idx_zc)

unfoldable pub read_idx : Scan → ℕ → Exec Cursor PgzfError (Option Scan)
read_idx s idx_start =
    read_entries_at idx_start >>= λ found. pure (some (scan_group s found.0 found.1))

-- The GC value of a BEG header.
unfoldable pub check_beg : List ℕ → Exec Cursor PgzfError ℕ
check_beg beg_buf = do
  (flg, xfl) ← lift (validate_gzip_header beg_buf)
  lift (if is_pgzf_member flg xfl then ok tt else err (invalid_format not_pgzf))
  pure (read_u64_le (drop gc_value_offset beg_buf))

-- The rest of a round, once the BEG header has been read; `none` is the `break`.
unfoldable pub read_beg : Scan → ℕ → List ℕ → Exec Cursor PgzfError (Option Scan)
read_beg s group_start beg_buf =
    check_beg beg_buf >>= λ gc. if gc == 0 then pure none else read_idx s (add_u64 group_start gc)

abbrev pub group_from : Scan → ℕ → Option (List ℕ) → Exec Cursor PgzfError (Option Scan)
group_from s group_start none = pure none
group_from s group_start (some beg_buf) = read_beg s group_start beg_buf

-- One round of the `while`.
unfoldable pub read_group : Scan → Exec Cursor PgzfError (Option Scan)
read_group s = do
  group_start ← stream_position
  beg_buf ← read_or_eof beg_header_size
  group_from s group_start beg_buf

unfoldable pub build_loop : ℕ → Scan → Exec Cursor PgzfError Scan
build_loop zero s c = (stuck, c)
build_loop (suc fuel) s c =
    (read_group s >>= elim [ none ↦ pure s | some s' ↦ build_loop fuel s' ]) c

-- The final entry, at the end of the file.
abbrev pub index_of : Scan → PgzfIndex
index_of s = record {
  blocks = s.blocks;
  compressed_offsets = s.compressed_offsets ++ (s.cum_c ∷ []);
  uncompressed_offsets = s.uncompressed_offsets ++ (s.cum_u ∷ []);
  group_count = s.group_count;
}

-- A round that goes on has read 32 bytes from where it began, and the next begins further on unless
-- a sum wraps.
unfoldable pub build : Exec Cursor PgzfError PgzfIndex
build c = (do seek_start 0; s ← build_loop (length c.bytes + 1) scan_start; pure (index_of s)) c
