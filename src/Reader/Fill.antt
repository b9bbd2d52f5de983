-- ===== src/Reader/Fill.antt =====
-- `fill_readahead` of src/reader.rs.
use pgzf_rs.Prelude.{
  ℕ, zero, suc, ◌+◌, ◌-◌, ◌%◌, ◌^◌, Bool, true, false, ◌&&◌, ◌||◌, not, min, Option, none, some,
  List, [], ◌∷◌, ◌++◌, map,
}
use pgzf_rs.Prelude.Tests.{ltb, leb, ◌==◌, if◌then◌else◌}
use pgzf_rs.Prelude.Lists.{length, set}
use pgzf_rs.Prelude.Outcome.{
  Outcome, ok, panic, stuck, Exec, ◌>>=◌, ◌>>◌, pure, lift, convert, modify, with_state,
}
use pgzf_rs.Error.{IoError, PgzfError, into_io}
use pgzf_rs.Cursor.{seek_start}
use pgzf_rs.Format.Header.{beg, dat, idx}
use pgzf_rs.External.Lru.{LruCache}
use pgzf_rs.External.Flate.{Flate}
use pgzf_rs.External.Rayon.{Rayon}
use pgzf_rs.BlockCache.{CacheEntry, BlockCache, get, insert}
use pgzf_rs.Codec.{ReusableDecompressor, new_decompressor}
use pgzf_rs.Index.{block_count, compressed_offset, total_compressed}
use pgzf_rs.Index.Types.{PgzfIndex}
use pgzf_rs.Reader.State.{PgzfReader, total_memory_usage}
use pgzf_rs.Reader.Raw.{RawBlock, on_inner, read_one_raw_block, decompress_raw_block_with}
use pgzf_rs.Reader.Ranges.{BlockRange, group_contiguous, last_end}

-- `unwrap_or`
abbrev pub offset_or : Option ℕ → ℕ → ℕ
offset_or none other = other
offset_or (some offset) other = offset

abbrev keep_missing : Option (List ℕ) → ℕ → List ℕ → List ℕ
keep_missing none i rest = i ∷ rest
keep_missing (some b) i rest = rest

-- `results.into_iter().flatten()`
abbrev pub present : List (Option (List ℕ)) → List (List ℕ)
present [] = []
present (none ∷ rest) = present rest
present (some b ∷ rest) = b ∷ present rest

-- The number of a block, its bytes, and the size of its header.
abbrev pub NumberedBlock : Type 0
NumberedBlock = ℕ × List ℕ × ℕ

module _ (lru : LruCache CacheEntry) where
  -- Phase 1: the numbers among `count` from `i` on that the cache does not have.
  unfoldable pub non_cached : ℕ → ℕ → BlockCache lru → List ℕ × BlockCache lru
  non_cached zero i c = ([], c)
  non_cached (suc count) i c =
      let (hit, c1) = get lru c i in
      let (rest, c2) = non_cached count (i + 1) c1 in (keep_missing hit i rest, c2)

  -- `results`: what the cache has of these blocks.
  unfoldable pub cached_blocks : ℕ → ℕ → BlockCache lru → List (Option (List ℕ)) × BlockCache lru
  cached_blocks zero i c = ([], c)
  cached_blocks (suc count) i c =
      let (hit, c1) = get lru c i in
      let (rest, c2) = cached_blocks count (i + 1) c1 in (hit ∷ rest, c2)

  abbrev pub set_next : ℕ → PgzfReader lru → PgzfReader lru
  set_next i r = record r { next_block_index = i }

  abbrev pub numbered : RawBlock → ℕ → NumberedBlock
  numbered b next = (next - 1, b.raw, b.header_size)

  -- `while blocks_read < range_len`, with what is still to read; each round reads twelve bytes at
  -- least or ends. The flag is `eof`.
  unfoldable pub read_range : ℕ → ℕ → Exec (PgzfReader lru) PgzfError (List NumberedBlock × Bool)
  read_range fuel zero = pure ([], false)
  read_range zero (suc n) = lift stuck
  read_range (suc fuel) (suc n) = read_one_raw_block lru >>= elim [
    | none ↦ pure ([], true)
    | some b ↦ elim b.block_type [
      | idx ↦ read_range fuel (suc n)
      | beg ↦ λ r.
          (read_range fuel n >>= λ more. pure (numbered b r.next_block_index ∷ more.0, more.1)) r
      | dat ↦ λ r.
          (read_range fuel n >>= λ more. pure (numbered b r.next_block_index ∷ more.0, more.1)) r
    ]
  ]

  -- The `for` over the ranges, each with its offset.
  unfoldable pub read_ranges :
      ℕ → List (BlockRange × ℕ) → Exec (PgzfReader lru) PgzfError (List NumberedBlock × Bool)
  read_ranges fuel [] = pure ([], false)
  read_ranges fuel ((range, offset) ∷ ranges) = do
    on_inner lru (seek_start offset)
    modify (set_next range.start)
    (blocks, eof) ← read_range fuel (range.end - range.start)
    elim eof [
      | true ↦ pure (blocks, true)
      | false ↦ do (more, eof') ← read_ranges fuel ranges; pure (blocks ++ more, eof')
    ]

  -- `block_cache.insert` and `results[block_idx - start] = …` for each block.
  unfoldable pub store :
      ℕ
      → List (ℕ × List ℕ)
      → List (Option (List ℕ))
      → Exec (PgzfReader lru) IoError (List (Option (List ℕ)))
  store start [] results = pure results
  store start ((i, bytes) ∷ blocks) results = do
    modify (λ r. record r { block_cache = insert lru r.block_cache i bytes })
    lift (if leb start i && ltb (i - start) (length results) then ok tt else panic)
    store start blocks (set results (i - start) (some bytes))

module _ (lru : LruCache CacheEntry) (fl : Flate) (ray : Rayon) where
  abbrev decompress_numbered : NumberedBlock → Exec (ReusableDecompressor fl) IoError (ℕ × List ℕ)
  decompress_numbered (i, raw, header_size) = do
    bytes ← decompress_raw_block_with fl raw header_size
    pure (i, bytes)

  abbrev pub decompress_all : List NumberedBlock → Outcome IoError (List (ℕ × List ℕ))
  decompress_all [] = ok []
  decompress_all (b ∷ blocks) = ray.map_init (new_decompressor fl) decompress_numbered (b ∷ blocks)

  -- Phase 2, where some block is missing.
  unfoldable pub read_missing :
      ℕ
      → List (BlockRange × ℕ)
      → ℕ
      → ℕ
      → List (Option (List ℕ))
      → Exec (PgzfReader lru) IoError (List (Option (List ℕ)) × Bool)
  read_missing start ranges next next_offset results = do
    fuel ← with_state (λ r. pure (length r.inner.bytes + 1))
    (blocks, eof) ← convert into_io (read_ranges lru fuel ranges)
    decompressed ← lift (decompress_all blocks)
    results' ← store lru start decompressed results
    on_inner lru (seek_start next_offset)
    modify (set_next lru next)
    pure (results', eof)

  -- Phase 3.
  abbrev pub finish_fill : ℕ → ℕ → List (Option (List ℕ)) × Bool → PgzfReader lru → PgzfReader lru
  finish_fill end total (results, hit_eof) r = record r {
    readahead = present results;
    eof = if length (present results) == 0 && (hit_eof || leb total end) then true else r.eof;
  }

  -- The blocks from `next_block_index` up to `end`.
  unfoldable pub fill_batch : PgzfIndex → ℕ → Exec (PgzfReader lru) IoError (Unit {0})
  fill_batch index end r =
      let start = r.next_block_index in
      let (missing, c1) = non_cached lru (end - start) start r.block_cache in
      let ranges = group_contiguous missing in
      let next = last_end start ranges in
      let next_offset = offset_or (compressed_offset index next) (total_compressed index) in
      let (results, c2) = cached_blocks lru (end - start) start c1 in
      let with_offsets : List (BlockRange × ℕ) =
        map (λ (range : BlockRange). (range, offset_or (compressed_offset index range.start) 0))
          ranges in
      let phase2 : Exec (PgzfReader lru) IoError (List (Option (List ℕ)) × Bool) = elim ranges [
        | [] ↦ do modify (set_next lru end); pure (results, false)
        | b ∷ bs ↦ read_missing start with_offsets next next_offset results
      ] in
      (do found ← phase2; modify (finish_fill end (block_count index) found))
        (record r { block_cache = c2 })

  abbrev pub is_over : Option ℕ → ℕ → Bool
  is_over none used = false
  is_over (some limit) used = leb limit used

  -- `start + batch_limit` wraps. If `end` is below `start` then, no block is looked up, `end - start`
  -- wraps as well, and `Vec::with_capacity` panics.
  abbrev pub fill_from_index : Option PgzfIndex → Exec (PgzfReader lru) IoError (Unit {0})
  fill_from_index none r = (ok tt, r)
  fill_from_index (some index) r =
      let start = r.next_block_index in
      let end = min (block_count index) ((start + r.readahead_size) % 2 ^ 64) in
      let filled = fill_batch index end r in
      if leb (block_count index) start
      then (ok tt, record r { eof = true })
      else if ltb end start
      then (panic, r)
      else filled

  unfoldable pub fill_readahead : Exec (PgzfReader lru) IoError (Unit {0})
  fill_readahead r =
      let filled = fill_from_index r.index r in
      if not r.is_pgzf
      then (ok tt, r)
      else if ltb 0 (length r.readahead)
      then (ok tt, r)
      else if is_over r.readahead_memory_limit (total_memory_usage lru r)
      then (ok tt, r)
      else filled
