-- ===== src/Command/Restored.antt =====
-- Decompression of a file that the writer has made, from a byte on and up to a limit.
use pgzf_rs.Prelude.{
  ℕ, ◌≤◌, ◌<◌, ◌+◌, ◌^◌, ◌≡◌, ◌≢◌, refl, sym, ap, subst, ◌∙◌, max, Option, none, some, List, [],
  arith,
}
use pgzf_rs.Prelude.Lists.{length, take, flatten, length-drop, All}
use pgzf_rs.Prelude.Outcome.{Outcome, ok}
use pgzf_rs.Error.{IoError}
use pgzf_rs.Format.Config.{PgzfConfig}
use pgzf_rs.External.Flate.{Flate}
use pgzf_rs.External.Lru.{LruCache, LruLaws}
use pgzf_rs.External.Rayon.{Rayon, RayonLaws}
use pgzf_rs.BlockCache.{CacheEntry}
use pgzf_rs.Codec.Laws.{FlateLaws}
use pgzf_rs.Writer.Blocks.{flatten-chunks}
use pgzf_rs.Writer.Plan.{chunks_of}
use pgzf_rs.Writer.Holds.{IsWritable}
use pgzf_rs.Writer.Pieces.{data_file}
use pgzf_rs.Index.Types.{PgzfIndex}
use pgzf_rs.Reader.State.{PgzfReader, set_readahead_size}
use pgzf_rs.Reader.Stream.{IsNonempty, IsAhead}
use pgzf_rs.Reader.Copies.{copy_all-Ready, copy_limited-Ready}
use pgzf_rs.Reader.Restored.{
  from_byte, IsWithin, chunks-IsNonempty, new_reader, held_full, held_offsets, new_reader-IsReadyOn,
  sought-new_reader,
}
use pgzf_rs.Reader.Opened.{HoldsBlocks, IsReadBack, few_blocks, open_reader-data_file}
use pgzf_rs.Command.Paths.{PathBuf}
use pgzf_rs.Command.World.{World, bytes_or_empty, set_file, open_file, create_file, write_file}
use pgzf_rs.Command.Compress.{compress_file}
use pgzf_rs.Command.Decompress.{refreshed, copied, decompress_stream, decompress_file}
use pgzf_rs.Command.Files.{compress_file-data_file}
use pgzf_rs.Command.Laws.{set_file-same, set_file-other}

-- As much of the data as the limit allows.
abbrev pub up_to : Option ℕ → List ℕ → List ℕ
up_to none bytes = bytes
up_to (some limit) bytes = take limit bytes

length-from_byte : (seek : Option ℕ) (bytes : List ℕ) → length (from_byte seek bytes) ≤ length bytes
length-from_byte none bytes = omega arith
length-from_byte (some offset) bytes = omega (arith, length-drop offset bytes)

module _ (lru : LruCache CacheEntry) (llaws : LruLaws lru) (fl : Flate) (ray : Rayon) (level : ℕ)
    (laws : FlateLaws fl level) (rlaws : RayonLaws ray) where
  -- What a command has written, and that it has ended.
  abbrev Copies : List ℕ → Outcome IoError (Unit {0}) × (PgzfReader lru × List ℕ) → Type 0
  Copies out q = (q.0 ≡ ok tt) × (q.1.1 ≡ out)

  copied-new_reader :
      (rounds size : ℕ) (limit seek : Option ℕ) (file : List ℕ) (index : PgzfIndex)
      (blocks : List (List ℕ))
      → HoldsBlocks lru fl level laws file index blocks
      → All IsNonempty blocks
      → IsAhead size blocks
      → IsWithin seek (flatten blocks)
      → length (flatten blocks) < rounds
      → Copies
          (up_to limit (from_byte seek (flatten blocks)))
          (copied lru fl ray rounds limit (new_reader lru file index size seek))
  unfolding copied
  copied-new_reader rounds size none seek file index blocks h full pos within enough =
      copy_all-Ready lru llaws fl ray level laws rlaws file index h.items h.file
        (held_full lru llaws fl ray level laws rlaws file index blocks h full)
        (held_offsets lru llaws fl ray level laws rlaws file index blocks h full) rounds
        (new_reader lru file index size seek) (from_byte seek (flatten blocks)) []
        (new_reader-IsReadyOn lru llaws fl ray level laws rlaws file index blocks h full size seek
          pos within)
        (omega (arith, enough, length-from_byte seek (flatten blocks)))
  copied-new_reader rounds size (some limit) seek file index blocks h full pos within enough =
      copy_limited-Ready lru llaws fl ray level laws rlaws file index h.items h.file
        (held_full lru llaws fl ray level laws rlaws file index blocks h full)
        (held_offsets lru llaws fl ray level laws rlaws file index blocks h full) limit limit
        (new_reader lru file index size seek) (from_byte seek (flatten blocks)) []
        (new_reader-IsReadyOn lru llaws fl ray level laws rlaws file index blocks h full size seek
          pos within)
        (omega arith)

  -- The layout of some data is decompressed to another path.
  decompress_file-data_file :
      (rounds threads : ℕ) (input output : PathBuf) (seek limit : Option ℕ) (cfg : PgzfConfig)
      (bytes : List ℕ) (w : World)
      → IsWritable level cfg
      → IsReadBack lru fl level laws cfg bytes
      → IsWithin seek bytes
      → length bytes < rounds
      → length (chunks_of cfg.block_size bytes) + threads < 2 ^ 64
      → w.files input ≡ some (data_file fl level laws cfg bytes)
      → output ≢ input
      → ((decompress_file lru fl ray rounds input (some output) seek limit threads w).0 ≡ ok tt)
        × ((decompress_file lru fl ray rounds input (some output) seek limit threads w).1.files
              output
            ≡ some (up_to limit (from_byte seek bytes)))
  unfolding decompress_file decompress_stream open_file create_file write_file set_readahead_size
  decompress_file-data_file rounds threads input output seek limit cfg bytes w good h within enough
        room has apart =
      let file = data_file fl level laws cfg bytes in
      let blocks = chunks_of cfg.block_size bytes in
      let whole : flatten blocks ≡ bytes =
        flatten-chunks ℕ (length bytes) cfg.block_size bytes good.block (omega arith) in
      let (index, opens, holds) = open_reader-data_file lru fl level laws cfg bytes 0 good h in
      let size = max threads 1 in
      let w1 = set_file output (some []) w in
      let r = new_reader lru file index size seek in
      let unchanged : refreshed lru fl ray (some input) w1 r ≡ r =
        ap (λ (b : List ℕ). record r { inner = record r.inner { bytes = b } }) {y = file}
          (ap bytes_or_empty (set_file-other output input (some []) w apart ∙ has)) in
      let (ends, out) =
        copied-new_reader rounds size limit seek file index blocks holds
          (chunks-IsNonempty cfg.block_size bytes good.block)
          (omega arith, omega (arith, few_blocks lru fl level laws cfg bytes good h))
          (subst (IsWithin seek) (sym whole) within) (omega (arith, enough, ap length whole)) in
      rw (has, opens, sought-new_reader lru llaws fl ray level laws rlaws file index size seek)
        (rw (unchanged, ends)
          (
            refl,
            set_file-same output _ w1
                ∙ ap some (out ∙ ap (λ (l : List ℕ). up_to limit (from_byte seek l)) whole),
          ))

  -- Under the laws of the lru crate, of rayon and of flate2 at the writer's level, with a block
  -- size, a group size of at most 8190 and a batch size that are not 0, data that is not empty,
  -- whose blocks are shorter than 2^32 with deflate streams of at most 2^30 - 40 bytes, an empty
  -- deflate stream shorter than 2^29, and data and a file shorter than 2^64, and with more rounds
  -- for the copy than the data has bytes: if a file with the data is compressed to another path and
  -- that file is decompressed to a path apart from it, with a count of threads whose sum with the
  -- number of blocks stays below 2^64, from an offset up to the data's length or from the
  -- beginning, and up to a limit or to the end, then both commands succeed and the last path names
  -- a file with exactly the data from the offset on, cut at the limit.
  pub decompress_file-compress_file :
      (rounds threads : ℕ) (input packed restored : PathBuf) (seek limit : Option ℕ)
      (config : PgzfConfig) (bytes : List ℕ) (w : World)
      → IsWritable level config
      → IsReadBack lru fl level laws config bytes
      → IsWithin seek bytes
      → length bytes < rounds
      → length (chunks_of config.block_size bytes) + threads < 2 ^ 64
      → w.files input ≡ some bytes
      → packed ≢ input
      → restored ≢ packed
      → ((compress_file fl ray input packed config w).0 ≡ ok tt)
        × ((decompress_file lru fl ray rounds packed
              (some restored)
              seek
              limit
              threads
              (compress_file fl ray input packed config w).1).0
            ≡ ok tt)
        × ((decompress_file lru fl ray rounds packed
                (some restored)
                seek
                limit
                threads
                (compress_file fl ray input packed config w).1).1.files
              restored
            ≡ some (up_to limit (from_byte seek bytes)))
  decompress_file-compress_file rounds threads input packed restored seek limit config bytes w good
        h within enough room has apart apart' =
      let w1 = (compress_file fl ray input packed config w).1 in
      let (packs, there, kept) =
        compress_file-data_file fl ray level laws rlaws input packed input config bytes w good
          h.file has apart apart in
      let (ends, out) =
        decompress_file-data_file rounds threads packed restored seek limit config bytes w1 good h
          within enough room there apart' in
      (packs, ends, out)
