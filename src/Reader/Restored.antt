-- ===== src/Reader/Restored.antt =====
-- Data is written, the file is opened, and the data is read with `Read::read`, from its beginning or
-- from a byte on.
use pgzf_rs.Prelude.{
  ℕ, ◌≤◌, ◌<◌, ◌≡◌, refl, sym, ap, subst, ◌∙◌, false, Option, none, some, List, [], map, arith,
  ◌++◌, ◌∷◌,
}
use pgzf_rs.Prelude.Lists.{length, drop, flatten, All}
use pgzf_rs.Prelude.Outcome.{ok}
use pgzf_rs.Cursor.{Cursor}
use pgzf_rs.Format.Config.{PgzfConfig}
use pgzf_rs.External.Flate.{Flate}
use pgzf_rs.External.Lru.{LruCache, LruLaws}
use pgzf_rs.External.Rayon.{Rayon, RayonLaws}
use pgzf_rs.BlockCache.{CacheEntry, new}
use pgzf_rs.BlockCache.Reads.{new-IsValid}
use pgzf_rs.BlockCache.Fresh.{Misses-new}
use pgzf_rs.Codec.Laws.{FlateLaws}
use pgzf_rs.Writer.{with_config, finish}
use pgzf_rs.Writer.Blocks.{flatten-chunks}
use pgzf_rs.Writer.Plan.{chunks_of}
use pgzf_rs.Writer.Holds.{IsWritable}
use pgzf_rs.Writer.File.{file_of}
use pgzf_rs.Writer.Pieces.{write_each}
use pgzf_rs.Index.Places.{starts}
use pgzf_rs.Index.Types.{PgzfIndex}
use pgzf_rs.Index.Written.{All-implied, IsChunk, chunks-IsChunk}
use pgzf_rs.Reader.State.{PgzfReader, open_reader, default_readahead, default_block_cache_capacity}
use pgzf_rs.Reader.Read.{seek_to_byte}
use pgzf_rs.Reader.Items.{blocks_in}
use pgzf_rs.Reader.Groups.{bytes_in}
use pgzf_rs.Reader.Stream.{Progress, reader_of, IsNonempty, IsAhead}
use pgzf_rs.Reader.Seeks.{IsReady-of, IsReady-pending}
use pgzf_rs.Reader.Copies.{read_each, read_each-Ready, IsStream, Ready}
use pgzf_rs.Command.Decompress.{sought}
use pgzf_rs.Reader.Opened.{HoldsBlocks, IsReadBack, few_blocks, open_reader-finish}

-- The data from an offset on, if there is one, and that it is not past the end.
abbrev pub from_byte : Option ℕ → List ℕ → List ℕ
from_byte none bytes = bytes
from_byte (some offset) bytes = drop offset bytes

abbrev pub IsWithin : Option ℕ → List ℕ → Type 0
IsWithin none bytes = Unit
IsWithin (some offset) bytes = offset ≤ length bytes

pub chunks-IsNonempty : (n : ℕ) (bytes : List ℕ) → 0 < n → All IsNonempty (chunks_of n bytes)
chunks-IsNonempty n bytes pos =
    All-implied (IsChunk (λ x. Unit {0}) n) IsNonempty (chunks_of n bytes) (λ b c. c.nonempty)
      (chunks-IsChunk (λ x. Unit {0}) (length bytes) n bytes pos (all_unit bytes))
  where
    all_unit : (l : List ℕ) → All (λ x. Unit {0}) l
    all_unit [] = tt
    all_unit (x ∷ l) = (tt, all_unit l)

module _ (lru : LruCache CacheEntry) where
  -- A new reader with a size of its readahead, and a seek that is pending, if any.
  abbrev at_first : ℕ → Progress lru
  at_first size = record {
    pos = 0;
    current = [];
    current_pos = 0;
    eof = false;
    readahead = [];
    readahead_size = size;
    next = 0;
    cache = new lru default_block_cache_capacity;
  }

  abbrev pub new_reader : List ℕ → PgzfIndex → ℕ → Option ℕ → PgzfReader lru
  new_reader bytes index size seek = record (reader_of lru bytes index (at_first size)) {
    pending_seek = seek;
  }

module _ (lru : LruCache CacheEntry) (llaws : LruLaws lru) (fl : Flate) (ray : Rayon) (level : ℕ)
    (laws : FlateLaws fl level) (rlaws : RayonLaws ray) where
  module _ (bytes : List ℕ) (index : PgzfIndex) (blocks : List (List ℕ))
      (h : HoldsBlocks lru fl level laws bytes index blocks) (full : All IsNonempty blocks) where
    abbrev held : List (List ℕ)
    held = bytes_in (blocks_in h.items)

    pub held_full : All IsNonempty held
    held_full = subst (All IsNonempty) (sym h.plain) full

    pub held_offsets :
        index.uncompressed_offsets ≡ starts 0 (map length held) ++ (length (flatten held) ∷ [])
    held_offsets =
        h.u_offsets
        ∙ ap (λ (l : List (List ℕ)). starts 0 (map length l) ++ (length (flatten l) ∷ []))
            (sym h.plain)

    abbrev pub IsReadyOn : PgzfReader lru → List ℕ → Type 0
    IsReadyOn =
        Ready lru llaws fl ray level laws rlaws bytes index h.items h.file held_full held_offsets

    pub new_reader-IsReadyOn :
        (size : ℕ) (seek : Option ℕ)
        → IsAhead size blocks
        → IsWithin seek (flatten blocks)
        → IsReadyOn (new_reader lru bytes index size seek) (from_byte seek (flatten blocks))
    new_reader-IsReadyOn size none pos w =
        subst (λ (l : List (List ℕ)). IsReadyOn (new_reader lru bytes index size none) (flatten l))
          h.plain
          (IsReady-of lru llaws fl ray level laws rlaws bytes index h.items h.file held_full
            held_offsets (at_first lru size) (flatten held)
            (record {
              ahead = subst (IsAhead size) (sym h.plain) pos;
              fresh = record {
                valid = new-IsValid lru llaws default_block_cache_capacity;
                misses = Misses-new lru llaws default_block_cache_capacity;
              };
              full = tt;
              left = refl;
              over = λ e. absurd (cc e);
            }))
    new_reader-IsReadyOn size (some offset) pos w =
        subst
          (λ (l : List (List ℕ)).
            IsReadyOn (new_reader lru bytes index size (some offset)) (drop offset (flatten l)))
          h.plain
          (IsReady-pending lru llaws fl ray level laws rlaws bytes index h.items h.file held_full
            held_offsets (at_first lru size) offset (subst (IsAhead size) (sym h.plain) pos)
            (record {
              valid = new-IsValid lru llaws default_block_cache_capacity;
              misses = Misses-new lru llaws default_block_cache_capacity;
            })
            (subst (λ (l : List (List ℕ)). offset ≤ length (flatten l)) (sym h.plain) w))

  -- A seek of a new reader only notes the offset.
  pub sought-new_reader :
      (bytes : List ℕ) (index : PgzfIndex) (size : ℕ) (seek : Option ℕ)
      → sought lru fl ray seek (new_reader lru bytes index size none)
        ≡ (ok tt, new_reader lru bytes index size seek)
  unfolding seek_to_byte
  sought-new_reader bytes index size none = refl
  sought-new_reader bytes index size (some offset) = refl

  -- Under the laws of the lru crate, of rayon and of flate2 at the writer's level, with a block
  -- size, a group size of at most 8190 and a batch size that are not 0, data that is not empty,
  -- whose blocks are shorter than 2^32 with deflate streams of at most 2^30 - 40 bytes, an empty
  -- deflate stream shorter than 2^29, and data and a file shorter than 2^64: writing the data to an
  -- empty file in any pieces and `finish` give a file, a reader opens on it, `seek_to_byte` to an
  -- offset up to the data's length, if there is one, succeeds, and then reads into buffers of any
  -- sizes but 0 all succeed and give the data from the offset on in its order, each piece at most
  -- as long as its buffer and empty only at the end of the data.
  pub read_each-finish :
      (cfg : PgzfConfig) (bufs : List (List ℕ)) (seek : Option ℕ) (ns : List ℕ)
      → IsWritable level cfg
      → IsReadBack lru fl level laws cfg (flatten bufs)
      → IsWithin seek (flatten bufs)
      → All (λ n. 0 < n) ns
      → (file : Cursor) × (r r1 : PgzfReader lru) × (pieces : List (List ℕ)) × (finish fl ray
            (write_each fl ray bufs (with_config (file_of []) cfg)).1
          ≡ ok file)
        × (open_reader lru file ≡ ok r)
        × (sought lru fl ray seek r ≡ (ok tt, r1))
        × ((read_each lru fl ray ns r1).0 ≡ ok pieces)
        × IsStream ns (from_byte seek (flatten bufs)) pieces
  read_each-finish cfg bufs seek ns good h within pos =
      let blocks = chunks_of cfg.block_size (flatten bufs) in
      let full = chunks-IsNonempty cfg.block_size (flatten bufs) good.block in
      let whole : flatten blocks ≡ flatten bufs =
        flatten-chunks ℕ (length (flatten bufs)) cfg.block_size (flatten bufs) good.block
          (omega arith) in
      let (c, index, ends, opens, holds) =
        open_reader-finish lru fl level laws ray rlaws cfg bufs good h in
      let r1 = new_reader lru c.bytes index default_readahead seek in
      let ready =
        new_reader-IsReadyOn c.bytes index blocks holds full default_readahead seek
          (omega arith, omega (arith, few_blocks lru fl level laws cfg (flatten bufs) good h))
          (subst (IsWithin seek) (sym whole) within) in
      let (pieces, reads, stream) =
        read_each-Ready lru llaws fl ray level laws rlaws c.bytes index holds.items holds.file
          (held_full c.bytes index blocks holds full) (held_offsets c.bytes index blocks holds full)
          ns r1 (from_byte seek (flatten blocks)) ready pos in
      (
        c,
        new_reader lru c.bytes index default_readahead none,
        r1,
        pieces,
        ends,
        opens,
        sought-new_reader c.bytes index default_readahead seek,
        reads,
        subst (λ (l : List ℕ). IsStream ns (from_byte seek l) pieces) whole stream,
      )
