-- ===== src/Writer.antt =====
-- src/writer.rs: the writer collects blocks, and writes a group when it is full.
pub mod Layout
pub mod Blocks
pub mod Group
pub mod GcField
pub mod Stuck
pub mod Finish
pub mod Plan
pub mod Holds
pub mod Writing
pub mod File
pub mod Pieces
use pgzf_rs.Prelude.{ℕ, zero, suc, ◌+◌, ◌-◌, ◌*◌, Bool, true, false, List, [], ◌∷◌, ◌++◌, map}
use pgzf_rs.Prelude.Tests.{ltb, leb, ◌==◌, if◌then◌else◌}
use pgzf_rs.Prelude.Lists.{length, take, drop, replicate, sum}
use pgzf_rs.Prelude.Outcome.{
  Outcome, ok, err, panic, stuck, Exec, and_then, ◌>>=◌, ◌>>◌, pure, lift,
}
use pgzf_rs.Error.{PgzfError}
use pgzf_rs.Cursor.{Cursor, write_all}
use pgzf_rs.Constants.{
  beg_header_size, dat_header_size, idx_header_base_size, pgzf_tail_size, gc_value_offset,
}
use pgzf_rs.Format.Bytes.{as_u32, patch, add_u64, write_u32_le, write_u64_le}
use pgzf_rs.Format.Header.{
  BlockType, beg, dat, idx, IndexEntry, build_beg_header, build_dat_header, build_idx_header,
}
use pgzf_rs.Format.Config.{PgzfConfig}
use pgzf_rs.External.Flate.{Flate}
use pgzf_rs.External.Rayon.{Rayon}
use pgzf_rs.Codec.{ReusableCompressor, new_compressor, compress, compress_block}

pub record PendingBlock : Type 0 where
  pub bytes : List ℕ
  pub block_type : BlockType

pub record CompressedBlock : Type 0 where
  pub header : List ℕ
  pub compressed : List ℕ
  pub trailer : List ℕ
  pub zc : ℕ
  pub uncompressed_size : ℕ

-- `inner` is an `Option` only for `finish`, which takes it out.
pub record PgzfWriter : Type 0 where
  pub inner : Cursor
  pub config : PgzfConfig
  pub buffer : List ℕ
  pub buffer_len : ℕ
  pub pending_blocks : List PendingBlock
  pub blocks_in_group : ℕ
  pub group_start_offset : ℕ
  pub total_uncompressed : ℕ
  pub total_compressed : ℕ
  pub total_blocks : ℕ
  pub gc_pending : Bool

unfoldable pub with_config : Cursor → PgzfConfig → PgzfWriter
with_config inner config = record {
  inner = inner;
  config = config;
  buffer = replicate config.block_size 0;
  buffer_len = 0;
  pending_blocks = [];
  blocks_in_group = 0;
  group_start_offset = inner.pos;
  total_uncompressed = 0;
  total_compressed = 0;
  total_blocks = 0;
  gc_pending = false;
}

abbrev pub header_size : BlockType → ℕ
header_size beg = beg_header_size
header_size _ = dat_header_size

abbrev pub build_header : BlockType → ℕ → List ℕ
build_header beg zc = build_beg_header zc
build_header _ zc = build_dat_header zc

-- `slice::chunks(n)` for n > 0; each chunk has an element at least, so the length is fuel enough.
unfoldable pub chunks : {A : Type 0} → ℕ → ℕ → List A → List (List A)
chunks zero n xs = []
chunks (suc fuel) n [] = []
chunks (suc fuel) n (x ∷ xs) = take n (x ∷ xs) ∷ chunks fuel n (drop n (x ∷ xs))

-- The body of `for cb in &compressed`; the entry goes to `block_entries`.
unfoldable pub write_block : PgzfWriter → CompressedBlock → PgzfWriter
write_block w cb = record w {
  inner = write_all cb.trailer (write_all cb.compressed (write_all cb.header w.inner));
  total_compressed = add_u64 w.total_compressed cb.zc;
  total_uncompressed = add_u64 w.total_uncompressed cb.uncompressed_size;
  total_blocks = add_u64 w.total_blocks 1;
}

abbrev pub entry_of : CompressedBlock → IndexEntry
entry_of cb = record { compressed_size = cb.zc; uncompressed_size = cb.uncompressed_size }

unfoldable pub write_blocks : PgzfWriter → List CompressedBlock → PgzfWriter
write_blocks w [] = w
write_blocks w (cb ∷ cbs) = write_blocks (write_block w cb) cbs

-- The sum of a `u64` iterator.
abbrev pub gc_sum : List IndexEntry → ℕ
gc_sum [] = 0
gc_sum (e ∷ es) = add_u64 e.compressed_size (gc_sum es)

-- The GC value goes into the BEG header of the group, and the position is restored.
unfoldable pub backpatch : List IndexEntry → PgzfWriter → PgzfWriter
backpatch entries w =
    let gc_file_offset = add_u64 w.group_start_offset gc_value_offset in
    let written =
      write_all (write_u64_le (replicate 8 0) 0 (gc_sum entries))
        (record w.inner { pos = gc_file_offset }) in
    if w.gc_pending
    then record w { inner = record written { pos = w.inner.pos }; gc_pending = false }
    else w

unfoldable pub reset_group : PgzfWriter → PgzfWriter
reset_group w = record w {
  blocks_in_group = 0;
  pending_blocks = [];
  group_start_offset = w.inner.pos;
}

-- `chunks(0)` panics.
abbrev pub batches_of : PgzfWriter → Outcome PgzfError (List (List PendingBlock))
batches_of w =
    if w.config.compression_batch_size == 0
    then panic
    else ok (chunks (length w.pending_blocks) w.config.compression_batch_size w.pending_blocks)

-- `expect` makes a panic of an error.
abbrev pub expect_ok : Outcome PgzfError (Unit {0}) → Outcome PgzfError (Unit {0})
expect_ok (ok a) = ok a
expect_ok (err e) = panic
expect_ok panic = panic
expect_ok stuck = stuck

abbrev pub next_type : PgzfWriter → BlockType
next_type w = if w.blocks_in_group == 0 then beg else dat

-- The buffer goes to the pending blocks.
unfoldable pub push_block : PgzfWriter → PgzfWriter
push_block w = record w {
  buffer = replicate w.config.block_size 0;
  buffer_len = 0;
  pending_blocks =
      w.pending_blocks
      ++ (record { bytes = take w.buffer_len w.buffer; block_type = next_type w } ∷ []);
  blocks_in_group = w.blocks_in_group + 1;
  gc_pending = if w.blocks_in_group == 0 then true else w.gc_pending;
}

-- What one round of `write` takes from the input.
abbrev pub room : PgzfWriter → ℕ
room w = w.config.block_size - w.buffer_len

abbrev pub fill_buffer : PgzfWriter → List ℕ → PgzfWriter
fill_buffer w piece = record w {
  buffer = patch w.buffer w.buffer_len piece;
  buffer_len = w.buffer_len + length piece;
}

module _ (fl : Flate) (ray : Rayon) where
  unfoldable pub compress_single_block :
      List ℕ → BlockType → Exec (ReusableCompressor fl) PgzfError CompressedBlock
  compress_single_block bytes block_type = do
    compressed ← compress fl bytes
    let crc = fl.crc32 bytes
    let zc = as_u32 (header_size block_type + length compressed + pgzf_tail_size)
    let trailer =
        write_u32_le (write_u32_le (replicate pgzf_tail_size 0) 0 crc) 4 (as_u32 (length bytes))
    pure (record {
      header = build_header block_type zc;
      compressed = compressed;
      trailer = trailer;
      zc = zc;
      uncompressed_size = as_u32 (length bytes);
    })

  -- One batch: compressed in parallel, written in order.
  unfoldable pub write_batch : List PendingBlock → Exec PgzfWriter PgzfError (List IndexEntry)
  write_batch batch = do
    level ← λ w. (ok w.config.compression_level, w)
    compressed ← lift (
        ray.map_init (new_compressor fl level)
          (λ (b : PendingBlock). compress_single_block b.bytes b.block_type) batch)
    λ w. (ok (map entry_of compressed), write_blocks w compressed)

  unfoldable pub write_batches :
      List (List PendingBlock) → Exec PgzfWriter PgzfError (List IndexEntry)
  write_batches [] = pure []
  write_batches (batch ∷ batches) = do
    es ← write_batch batch
    more ← write_batches batches
    pure (es ++ more)

  -- The IDX block behind the data blocks of a group.
  unfoldable pub write_idx : List IndexEntry → Exec PgzfWriter PgzfError (Unit {0})
  write_idx entries w =
      (do
        empty_compressed ← lift (compress_block fl w.config.compression_level [])
        let idx_zc =
            as_u32
              (idx_header_base_size + length entries * 8 + length empty_compressed + pgzf_tail_size)
        λ w. (
          ok tt,
          record w {
            inner =
                write_all (replicate pgzf_tail_size 0) (
                  write_all empty_compressed (write_all (build_idx_header idx_zc entries) w.inner));
            total_compressed = add_u64 w.total_compressed idx_zc;
          },
        ))
        w

  unfoldable pub flush_pending : Exec PgzfWriter PgzfError (Unit {0})
  flush_pending w =
      (do
        batches ← lift (batches_of w)
        entries ← write_batches batches
        write_idx entries
        λ w'. (ok tt, reset_group (backpatch entries w')))
        w

  -- `if self.pending_blocks.is_empty()`
  abbrev pub flush_some : List PendingBlock → Exec PgzfWriter PgzfError (Unit {0})
  flush_some [] w = (ok tt, w)
  flush_some (b ∷ bs) w = flush_pending w

  unfoldable pub flush_group : Exec PgzfWriter PgzfError (Unit {0})
  flush_group w = flush_some w.pending_blocks w

  unfoldable pub buffer_block : Exec PgzfWriter PgzfError (Unit {0})
  buffer_block w =
      let w' = push_block w in
      let flushed = flush_group w' in
      if w.buffer_len == 0
      then (ok tt, w)
      else if leb w'.config.group_blocks w'.blocks_in_group
      then (expect_ok flushed.0, flushed.1)
      else (ok tt, w')

  abbrev pub block_when_full : Exec PgzfWriter PgzfError (Unit {0})
  block_when_full w = if w.buffer_len == w.config.block_size then buffer_block w else (ok tt, w)

  -- The `while` of `write`, on the input that is not consumed yet.
  unfoldable pub write_loop : ℕ → List ℕ → Exec PgzfWriter PgzfError (Unit {0})
  write_loop fuel [] w = (ok tt, w)
  write_loop zero (b ∷ bs) w = (stuck, w)
  write_loop (suc fuel) (b ∷ bs) w =
      (block_when_full >>= λ _. write_loop fuel (drop (room w) (b ∷ bs)))
        (fill_buffer w (take (room w) (b ∷ bs)))

  -- `write` returns the length of its input.
  unfoldable pub write : List ℕ → Exec PgzfWriter PgzfError ℕ
  write buf = do write_loop (length buf) buf; pure (length buf)

  unfoldable pub finish : PgzfWriter → Outcome PgzfError Cursor
  finish w = let r = (do buffer_block; flush_group) w in and_then r.0 (λ _. ok r.1.inner)
