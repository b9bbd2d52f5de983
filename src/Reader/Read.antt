-- ===== src/Reader/Read.antt =====
-- The calls of the user on `PgzfReader` in src/reader.rs: `seek_to_byte`, `seek_to_block`,
-- `read_blocks`, and the traits `Read` and `Seek`.
use pgzf_rs.Prelude.{
  ℕ, ◌+◌, ◌-◌, ◌%◌, ◌^◌, ◌||◌, true, false, not, min, Option, none, some, List, [], ◌∷◌,
}
use pgzf_rs.Prelude.Int.{ℤ, pos, negsuc}
use pgzf_rs.Prelude.Tests.{ltb, leb, ◌==◌, if◌then◌else◌}
use pgzf_rs.Prelude.Lists.{length, take, drop, flatten}
use pgzf_rs.Prelude.Outcome.{
  Outcome, ok, err, panic, map_err, Exec, ◌>>=◌, ◌>>◌, pure, lift, fail, convert, modify,
  with_state,
}
use pgzf_rs.Error.{
  IoError, message, wrapping, unsupported, invalid_input, not_a_pgzf_file, block_not_found,
  seek_from_end, PgzfError, io, index_not_available, seek_beyond_end, into_io,
}
use pgzf_rs.Cursor.{seek_start}
use pgzf_rs.External.Lru.{LruCache}
use pgzf_rs.External.Flate.{Flate}
use pgzf_rs.External.Rayon.{Rayon}
use pgzf_rs.BlockCache.{CacheEntry, get}
use pgzf_rs.Codec.{ReusableDecompressor, new_decompressor}
use pgzf_rs.Index.{
  block_count, compressed_offset, total_compressed, total_uncompressed, seek_byte, seek_block,
}
use pgzf_rs.Index.Types.{PgzfIndex}
use pgzf_rs.Reader.State.{PgzfReader}
use pgzf_rs.Reader.Raw.{on_inner, decompress_raw_block_with}
use pgzf_rs.Reader.Fill.{NumberedBlock, offset_or, set_next, read_range, fill_readahead}
use pgzf_rs.Reader.Sequential.{next_block}

pub data SeekFrom : Type 0 where
  start : ℕ → SeekFrom
  end : ℤ → SeekFrom
  current : ℤ → SeekFrom

-- `(base as i64 + n) as u64`, which wraps in a release build.
abbrev pub add_i64 : ℕ → ℤ → ℕ
add_i64 base (pos n) = (base + n) % 2 ^ 64
add_i64 base (negsuc n) = (base + (2 ^ 64 - (n + 1))) % 2 ^ 64

-- `ok_or_else`, and the `unwrap` of an index.
abbrev pub some_or_err : {E A : Type 0} → E → Option A → Outcome E A
some_or_err e none = err e
some_or_err e (some a) = ok a

abbrev unwrap : {E A : Type 0} → Option A → Outcome E A
unwrap none = panic
unwrap (some a) = ok a

module _ (lru : LruCache CacheEntry) where
  -- What both seeks and `read_blocks` reset.
  abbrev pub drop_buffers : PgzfReader lru → PgzfReader lru
  drop_buffers r = record r { current_block = []; current_pos = 0; readahead = [] }

  abbrev pub require_pgzf : Exec (PgzfReader lru) PgzfError (Unit {0})
  require_pgzf r = (if r.is_pgzf then ok tt else err index_not_available, r)

  unfoldable pub seek_to_byte : ℕ → Exec (PgzfReader lru) PgzfError (Unit {0})
  seek_to_byte offset = do
    require_pgzf
    modify (λ r. drop_buffers (record r { pending_seek = some offset; next_block_index = 0 }))

  unfoldable pub seek_to_block : ℤ → Exec (PgzfReader lru) PgzfError (Unit {0})
  seek_to_block block_index = do
    require_pgzf
    index ← with_state (λ r. lift (unwrap r.index))
    offset ← lift (seek_block index block_index)
    on_inner lru (seek_start offset)
    modify (λ r. drop_buffers (record r { next_block_index = 0; eof = false; pending_seek = none }))

  -- `Seek::seek`; the error of `SeekFrom::End` comes before any change.
  abbrev pub seek_target : SeekFrom → PgzfReader lru → Outcome IoError ℕ
  seek_target (start n) r = ok n
  seek_target (end n) r =
      let total : Option PgzfIndex → ℕ = elim [
        | none ↦ 0
        | some index ↦ total_uncompressed index
      ] in
      if not r.is_pgzf
      then err (message unsupported seek_from_end)
      else ok (add_i64 (total r.index) n)
  seek_target (current n) r = ok (add_i64 r.current_pos n)

  unfoldable pub seek : SeekFrom → Exec (PgzfReader lru) IoError ℕ
  seek from = do
    target ← with_state (λ r. lift (seek_target from r))
    modify (λ r. drop_buffers (record r { pending_seek = some target; next_block_index = 0 }))
    pure target

  -- The next bytes of the current block, `n` at most.
  unfoldable pub take_current : ℕ → Exec (PgzfReader lru) IoError (List ℕ)
  take_current n r =
      let piece = take n (drop r.current_pos r.current_block) in
      (ok piece, record r { current_pos = r.current_pos + length piece })

  -- The state of `execute_pending_seek` before it looks for the block.
  abbrev pub clear_for_seek : PgzfReader lru → PgzfReader lru
  clear_for_seek r = drop_buffers (record r { eof = false })

module _ (lru : LruCache CacheEntry) (fl : Flate) (ray : Rayon) where
  -- The block is in the cache: the file goes to the block behind it.
  unfoldable pub seek_cached : PgzfIndex → ℕ → ℕ → List ℕ → Exec (PgzfReader lru) IoError (Unit {0})
  seek_cached index block_idx skip bytes = do
    modify (λ r. record r { current_block = bytes; current_pos = skip })
    on_inner lru
        (seek_start (offset_or (compressed_offset index (block_idx + 1)) (total_compressed index)))
    modify (set_next lru (block_idx + 1))

  -- It is not: the readahead is filled from it on.
  unfoldable pub seek_missing : PgzfIndex → ℕ → ℕ → Exec (PgzfReader lru) IoError (Unit {0})
  seek_missing index block_idx skip = do
    offset ←
        lift
          (some_or_err (message invalid_input block_not_found) (compressed_offset index block_idx))
    on_inner lru (seek_start offset)
    modify (set_next lru block_idx)
    fill_readahead lru fl ray
    modify (λ r. elim r.readahead [
      | [] ↦ record r { eof = true }
      | block ∷ blocks ↦ record r { current_block = block; current_pos = skip; readahead = blocks }
    ])

  abbrev pub seek_found :
      PgzfIndex → ℕ → ℕ → Option (List ℕ) → Exec (PgzfReader lru) IoError (Unit {0})
  seek_found index block_idx skip none = seek_missing index block_idx skip
  seek_found index block_idx skip (some bytes) = seek_cached index block_idx skip bytes

  unfoldable pub seek_within : PgzfIndex → ℕ → Exec (PgzfReader lru) IoError (Unit {0})
  seek_within index target = do
    (block_idx, skip) ← lift (map_err (wrapping invalid_input) (seek_byte index target))
    modify (clear_for_seek lru)
    hit ← λ r. let p = get lru r.block_cache block_idx in (ok p.0, record r { block_cache = p.1 })
    seek_found index block_idx skip hit

  abbrev pub pending_target : Option ℕ → Exec (PgzfReader lru) IoError (Unit {0})
  pending_target none = pure tt
  pending_target (some target) = do
    modify (λ r. record r { pending_seek = none })
    index ← with_state (λ r. lift (some_or_err (message unsupported not_a_pgzf_file) r.index))
    seek_within index target

  unfoldable pub execute_pending_seek : Exec (PgzfReader lru) IoError (Unit {0})
  execute_pending_seek = with_state (λ r. pending_target r.pending_seek)

  -- The next block of the readahead becomes the current one; `empty` is done where there is none.
  abbrev pub from_first :
      Exec (PgzfReader lru) IoError (List ℕ)
      → ℕ
      → List (List ℕ)
      → Exec (PgzfReader lru) IoError (List ℕ)
  from_first empty n [] = empty
  from_first empty n (block ∷ blocks) = do
    modify (λ s. record s { current_block = block; current_pos = 0; readahead = blocks })
    take_current lru n

  abbrev pub at_end : Exec (PgzfReader lru) IoError (List ℕ)
  at_end = do modify (λ s. record s { eof = true }); pure []

  -- `for attempt in 0..2`: the readahead as it is, and then once more after a refill.
  unfoldable pub from_readahead : ℕ → Exec (PgzfReader lru) IoError (List ℕ)
  from_readahead n = with_state (λ r.
      from_first (fill_readahead lru fl ray >> with_state (λ r'. from_first at_end n r'.readahead))
        n r.readahead)

  abbrev pub set_block : Option (List ℕ) → PgzfReader lru → PgzfReader lru
  set_block none r = record r { eof = true }
  set_block (some bytes) r =
      if length bytes == 0
      then record r { eof = true }
      else record r { current_block = bytes; current_pos = 0 }

  -- `advance_to_next_block_sequential`
  unfoldable pub advance_to_next_block_sequential : Exec (PgzfReader lru) IoError (Unit {0})
  advance_to_next_block_sequential = do
    fuel ← with_state (λ r. pure (length r.inner.bytes + 1))
    found ← convert into_io (on_inner lru (next_block fl fuel))
    modify (set_block found)

  -- The branch for a file that is not of the format. `current_pos` is set, not added to.
  unfoldable pub from_stream : ℕ → Exec (PgzfReader lru) IoError (List ℕ)
  from_stream n = do
    advance_to_next_block_sequential
    with_state (λ r. if length r.current_block == 0 || r.eof then pure [] else λ s.
        (ok (take n s.current_block), record s { current_pos = min (length s.current_block) n }))

  -- `Read::read` into a buffer of `n` bytes: the bytes that it puts there.
  unfoldable pub read : ℕ → Exec (PgzfReader lru) IoError (List ℕ)
  read n = if n == 0 then pure [] else do
    execute_pending_seek
    with_state (λ r.
        if ltb r.current_pos (length r.current_block)
        then take_current lru n
        else if r.eof
        then pure []
        else if r.is_pgzf
        then from_readahead n
        else from_stream n)

  abbrev pub decompress_numbered : NumberedBlock → Exec (ReusableDecompressor fl) PgzfError (List ℕ)
  decompress_numbered (i, raw, header_size) =
      convert io (decompress_raw_block_with fl raw header_size)

  -- `read_blocks`, where there is a block to read. If `end_block` is below `start_block`,
  -- `end_block - start_block` wraps, and `Vec::with_capacity` panics.
  unfoldable pub read_from : ℕ → ℕ → ℕ → Exec (PgzfReader lru) PgzfError (List ℕ)
  read_from start_block offset end_block = do
    let actual_count = end_block - start_block
    on_inner lru (seek_start offset)
    modify (set_next lru start_block)
    lift (if ltb end_block start_block then panic else ok tt)
    fuel ← with_state (λ r. pure (length r.inner.bytes + 1))
    (blocks, eof) ← read_range lru fuel actual_count
    decompressed ← lift (ray.map_init (new_decompressor fl) decompress_numbered blocks)
    modify (λ r. drop_buffers lru (record r { eof = false; pending_seek = none }))
    pure (flatten decompressed)

  -- `start_block + count` wraps.
  abbrev read_checked : PgzfIndex → ℕ → ℕ → Exec (PgzfReader lru) PgzfError (List ℕ)
  read_checked index start_block count =
      let total = block_count index in
      let end_block = min total ((start_block + count) % 2 ^ 64) in
      if leb total start_block
      then fail (seek_beyond_end start_block total)
      else if end_block == start_block
      then pure []
      else lift (unwrap (compressed_offset index start_block)) >>= λ offset.
          read_from start_block offset end_block

  unfoldable pub read_blocks : ℕ → ℕ → Exec (PgzfReader lru) PgzfError (List ℕ)
  read_blocks start_block count = do
    require_pgzf lru
    index ← with_state (λ r. lift (unwrap r.index))
    read_checked index start_block count
