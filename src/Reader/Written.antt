-- ===== src/Reader/Written.antt =====
-- Data is written, the file is opened, and its blocks are read with `read_blocks`.
use pgzf_rs.Prelude.{
  ℕ, true, some, refl, ◌∷◌, ◌+◌, ◌*◌, ◌^◌, ◌<◌, ◌≤◌, ◌≡◌, sym, ap, ◌∙◌, List, [], arith,
}
use pgzf_rs.Prelude.Lists.{length, take, drop, flatten, take_of_length-le, All}
use pgzf_rs.Prelude.Outcome.{ok}
use pgzf_rs.Cursor.{Cursor}
use pgzf_rs.Format.Config.{PgzfConfig}
use pgzf_rs.External.Flate.{Flate}
use pgzf_rs.External.Lru.{LruCache}
use pgzf_rs.External.Rayon.{Rayon, RayonLaws}
use pgzf_rs.BlockCache.{CacheEntry}
use pgzf_rs.Codec.Laws.{FlateLaws}
use pgzf_rs.Writer.{with_config, finish}
use pgzf_rs.Writer.Blocks.{flatten-chunks}
use pgzf_rs.Writer.Plan.{chunks_of}
use pgzf_rs.Writer.Holds.{IsWritable}
use pgzf_rs.Writer.File.{file_of}
use pgzf_rs.Writer.Pieces.{write_each, data_file}
use pgzf_rs.Index.Exact.{EmptyIsSmall}
use pgzf_rs.Reader.State.{PgzfReader, opened, open_reader}
use pgzf_rs.Reader.Read.{read_blocks}
use pgzf_rs.Reader.Groups.{IsReadableData, bytes_in-take, bytes_in-drop}
use pgzf_rs.Reader.Groups.{length-bytes_in}
use pgzf_rs.Reader.Items.{blocks_in}
use pgzf_rs.Reader.Access.{read_blocks-run}
use pgzf_rs.Reader.Opened.{IsReadBack, open_reader-finish}

module _ (lru : LruCache CacheEntry) (fl : Flate) (ray : Rayon) (level : ℕ)
    (laws : FlateLaws fl level) (rlaws : RayonLaws ray) where
  -- Under the laws of rayon and of flate2 at the writer's level, with a block size, a group size of
  -- at most 8190 and a batch size that are not 0, data that is not empty, whose blocks are shorter
  -- than 2^32 with deflate streams of at most 2^30 - 40 bytes, an empty deflate stream shorter than
  -- 2^29, and data and a file shorter than 2^64: writing the data to an empty file in any pieces
  -- and `finish` give a file, a reader opens on it, and `read_blocks` from any block of the file,
  -- with a count whose sum with the number of that block stays below 2^64, gives exactly the data
  -- of as many blocks from that one on, fewer where the file ends before.
  pub read_blocks-take-drop :
      (cfg : PgzfConfig) (bufs : List (List ℕ)) (start count : ℕ)
      → IsWritable level cfg
      → IsReadBack lru fl level laws cfg (flatten bufs)
      → start < length (chunks_of cfg.block_size (flatten bufs))
      → start + count < 2 ^ 64
      → (file : Cursor) × (r : PgzfReader lru) × (finish fl ray
            (write_each fl ray bufs (with_config (file_of []) cfg)).1
          ≡ ok file)
        × (open_reader lru file ≡ ok r)
        × ((read_blocks lru fl ray start count r).0
            ≡ ok (flatten (take count (drop start (chunks_of cfg.block_size (flatten bufs))))))
  read_blocks-take-drop cfg bufs start count good h inside bound =
      let (c, index, ends, opens, holds) =
        open_reader-finish lru fl level laws ray rlaws cfg bufs good h in
      let all = blocks_in holds.items in
      let same : length all ≡ length (chunks_of cfg.block_size (flatten bufs)) =
        sym (length-bytes_in all) ∙ ap length holds.plain in
      (
        c,
        opened lru (record c { pos = 0 }) true (some index),
        ends,
        opens,
        read_blocks-run lru fl ray level laws rlaws
              (opened lru (record c { pos = 0 }) true (some index)) index holds.items start count
              holds.file refl refl (omega (arith, same)) bound
            ∙ ap (λ (l : List (List ℕ)). ok (flatten l))
                (bytes_in-take count (drop start all)
                  ∙ ap (take count) (bytes_in-drop start all ∙ ap (drop start) holds.plain)),
      )

  -- Under the laws of rayon and of flate2 at the writer's level, with a block size, a group size of
  -- at most 8190 and a batch size that are not 0, blocks of the data whose deflate streams take at
  -- most 2^30 - 40 bytes and whose data is shorter than 2^32, an empty deflate stream shorter than
  -- 2^29, data that is not empty, and data and a file shorter than 2^64: writing the data to an
  -- empty file in any pieces and `finish` give a file, a reader opens on it, and `read_blocks` from
  -- block 0 with a count below 2^64 that covers all blocks gives back exactly the data.
  pub read_blocks-finish :
      (cfg : PgzfConfig) (bufs : List (List ℕ)) (count : ℕ)
      → IsWritable level cfg
      → 12 + cfg.group_blocks * 8 < 2 ^ 16
      → EmptyIsSmall fl level laws
      → All (IsReadableData lru fl level laws) (chunks_of cfg.block_size (flatten bufs))
      → length (flatten bufs) < 2 ^ 64
      → length (data_file fl level laws cfg (flatten bufs)) < 2 ^ 64
      → 0 < length (flatten bufs)
      → length (chunks_of cfg.block_size (flatten bufs)) ≤ count
      → count < 2 ^ 64
      → (file : Cursor) × (r : PgzfReader lru) × (finish fl ray
            (write_each fl ray bufs (with_config (file_of []) cfg)).1
          ≡ ok file)
        × (open_reader lru file ≡ ok r)
        × ((read_blocks lru fl ray 0 count r).0 ≡ ok (flatten bufs))
  read_blocks-finish cfg bufs count good narrow e readable plain file any all bound =
      let blocks = chunks_of cfg.block_size (flatten bufs) in
      let whole : flatten blocks ≡ flatten bufs =
        flatten-chunks ℕ (length (flatten bufs)) cfg.block_size (flatten bufs) good.block
          (omega arith) in
      let (c, r, ends, opens, reads) =
        read_blocks-take-drop cfg bufs 0 count good
          (record {
            narrow = narrow;
            empty = e;
            readable = readable;
            plain = plain;
            file = file;
            any = any;
          })
          (some_block blocks (omega (arith, ap length whole, any))) (omega arith) in
      (
        c,
        r,
        ends,
        opens,
        reads
            ∙ ap (λ (l : List (List ℕ)). ok (flatten l)) (take_of_length-le count blocks all)
            ∙ ap ok whole,
      )
    where
      some_block : (l : List (List ℕ)) → 0 < length (flatten l) → 0 < length l
      some_block [] h = h
      some_block (b ∷ l) h = omega arith
