-- ===== src/Reader/Termination.antt =====
-- Whether `read` and the copy up to a limit come to an end.
use pgzf_rs.Prelude.{ℕ, ◌+◌, ◌≢◌, ◌||◌, true, Option, none, some, List, [], ◌∷◌, arith}
use pgzf_rs.Prelude.Tests.{ltb, ◌==◌}
use pgzf_rs.Prelude.Lists.{length, get_elem?}
use pgzf_rs.Prelude.Outcome.{ok, stuck, map_err, Exec, ◌>>◌, pure, lift, modify, with_state}
use pgzf_rs.Prelude.Ends.{
  Ended, Ended-ne, Ended-map_err, Relation, Ends, EndsAt-here, EndsAt-continue, Ends-bind,
  Ends-lift, Ends-if, Ends-modify,
}
use pgzf_rs.Error.{
  IoError, message, wrapping, unsupported, invalid_input, not_a_pgzf_file, block_not_found, into_io,
}
use pgzf_rs.Cursor.{seek_start}
use pgzf_rs.External.Flate.{Flate}
use pgzf_rs.External.Lru.{LruCache, LruLaws}
use pgzf_rs.External.Rayon.{Rayon, RayonEnds}
use pgzf_rs.BlockCache.{CacheEntry, get}
use pgzf_rs.Index.{block_of, binary_search, skip_from, compressed_offset, seek_byte}
use pgzf_rs.Index.Types.{PgzfIndex}
use pgzf_rs.Reader.State.{PgzfReader}
use pgzf_rs.Reader.Raw.{on_inner}
use pgzf_rs.Reader.Fill.{fill_readahead, set_next}
use pgzf_rs.Reader.Read.{
  some_or_err, take_current, seek_cached, seek_missing, seek_found, seek_within, pending_target,
  execute_pending_seek, from_first, at_end, from_readahead, advance_to_next_block_sequential,
  from_stream, read, clear_for_seek,
}
use pgzf_rs.Reader.Total.{fill_readahead-SameFile}
use pgzf_rs.Reader.Loops.{LoopsEnd, loops_end}
use pgzf_rs.Reader.Bounded.{read-le}
use pgzf_rs.Reader.Blocks.{next_block-Ended}
use pgzf_rs.Command.Copy.{copy_limited-Copied}
use pgzf_rs.Command.Decompress.{copied}

skip_from-Ended : (i : ℕ) (o : Option ℕ) (n : ℕ) → Ended (skip_from i o n)
skip_from-Ended i none n = tt
skip_from-Ended i (some start) n = tt

seek_byte-Ended : (index : PgzfIndex) (n : ℕ) → Ended (seek_byte index n)
unfolding seek_byte
seek_byte-Ended index n = ground (
  arith,
  skip_from-Ended (block_of (binary_search index.uncompressed_offsets n))
      (get_elem? index.uncompressed_offsets (block_of (binary_search index.uncompressed_offsets n)))
      n,
)

some_or_err-Ended : {E A : Type 0} (e : E) (o : Option A) → Ended (some_or_err e o)
some_or_err-Ended e none = tt
some_or_err-Ended e (some a) = tt

module _ (lru : LruCache CacheEntry) (fl : Flate) (ray : Rayon) (rends : RayonEnds ray) where
  abbrev any_reader : Relation (PgzfReader lru)
  any_reader = record { Holds = λ r s. Unit; here = λ r. tt; chain = λ r s t h k. tt }

  abbrev Finishes : {E A : Type 0} → Exec (PgzfReader lru) E A → Type 0
  Finishes = Ends any_reader

  modify-Finishes : {E : Type 0} (f : PgzfReader lru → PgzfReader lru) → Finishes (modify {E = E} f)
  modify-Finishes f = Ends-modify any_reader f (λ r. tt)

  seek_start-Finishes : (n : ℕ) → Finishes (on_inner lru (seek_start {E = IoError} n))
  seek_start-Finishes n r = record { ends = tt; holds = tt }

  fill-Finishes : Finishes (fill_readahead lru fl ray)
  fill-Finishes r = record { ends = (fill_readahead-SameFile lru fl ray rends r).ends; holds = tt }

  seek_cached-Finishes :
      (index : PgzfIndex) (i skip : ℕ) (bytes : List ℕ)
      → Finishes (seek_cached lru fl ray index i skip bytes)
  unfolding seek_cached
  seek_cached-Finishes index i skip bytes r = record { ends = tt; holds = tt }

  seek_missing-Finishes :
      (index : PgzfIndex) (i skip : ℕ) → Finishes (seek_missing lru fl ray index i skip)
  unfolding seek_missing
  seek_missing-Finishes index i skip =
      let found = some_or_err (message invalid_input block_not_found) (compressed_offset index i) in
      let first : PgzfReader lru → PgzfReader lru = λ r. elim r.readahead [
        | [] ↦ record r { eof = true }
        | block ∷ blocks ↦ record r {
          current_block = block;
          current_pos = skip;
          readahead = blocks;
        }
      ] in
      Ends-bind any_reader (lift found) _ (Ends-lift any_reader found (some_or_err-Ended _ _))
        (λ offset. Ends-bind any_reader _ _ (seek_start-Finishes offset) (λ n.
          Ends-bind any_reader (modify (set_next lru i)) _ (modify-Finishes (set_next lru i)) (λ u.
            Ends-bind any_reader (fill_readahead lru fl ray) (λ v. modify first) fill-Finishes
              (λ v. modify-Finishes first))))

  seek_found-Finishes :
      (index : PgzfIndex) (i skip : ℕ) (hit : Option (List ℕ))
      → Finishes (seek_found lru fl ray index i skip hit)
  seek_found-Finishes index i skip none = seek_missing-Finishes index i skip
  seek_found-Finishes index i skip (some bytes) = seek_cached-Finishes index i skip bytes

  seek_within-Finishes :
      (index : PgzfIndex) (target : ℕ) → Finishes (seek_within lru fl ray index target)
  unfolding seek_within
  seek_within-Finishes index target =
      let found = map_err (wrapping invalid_input) (seek_byte index target) in
      Ends-bind any_reader (lift found) _
        (Ends-lift any_reader found (
          Ended-map_err (wrapping invalid_input) (seek_byte index target)
            (seek_byte-Ended index target)))
        (λ place.
          Ends-bind any_reader (modify (clear_for_seek lru)) _
            (modify-Finishes (clear_for_seek lru))
            (λ u r.
              EndsAt-continue any_reader r
                (
                  ok (get lru r.block_cache place.0).0,
                  record r { block_cache = (get lru r.block_cache place.0).1 },
                )
                (λ hit. seek_found lru fl ray index place.0 place.1 hit)
                (record { ends = tt; holds = tt })
                (λ hit e. seek_found-Finishes index place.0 place.1 hit _)))

  pending_target-Finishes : (o : Option ℕ) → Finishes (pending_target lru fl ray o)
  pending_target-Finishes none = λ r. EndsAt-here any_reader (ok tt) r tt
  pending_target-Finishes (some target) =
      Ends-bind any_reader (modify (λ r. record r { pending_seek = none })) _
        (modify-Finishes (λ r. record r { pending_seek = none }))
        (λ u r.
          let found = some_or_err (message unsupported not_a_pgzf_file) r.index in
          EndsAt-continue any_reader r (found, r) (λ index. seek_within lru fl ray index target)
            (EndsAt-here any_reader found r (some_or_err-Ended _ r.index))
            (λ index e. seek_within-Finishes index target r))

  execute_pending_seek-Finishes : Finishes (execute_pending_seek lru fl ray)
  unfolding execute_pending_seek
  execute_pending_seek-Finishes r = pending_target-Finishes r.pending_seek r

  take_current-Finishes : (n : ℕ) → Finishes (take_current lru n)
  unfolding take_current
  take_current-Finishes n r = record { ends = tt; holds = tt }

  from_first-Finishes :
      (empty : Exec (PgzfReader lru) IoError (List ℕ)) (n : ℕ) (l : List (List ℕ))
      → Finishes empty
      → Finishes (from_first lru fl ray empty n l)
  from_first-Finishes empty n [] h = h
  from_first-Finishes empty n (block ∷ rest) h = λ r.
      let next : PgzfReader lru = record r {
        current_block = block;
        current_pos = 0;
        readahead = rest;
      } in
      record { ends = (take_current-Finishes n next).ends; holds = tt }

  from_readahead-Finishes : (n : ℕ) → Finishes (from_readahead lru fl ray n)
  unfolding from_readahead
  from_readahead-Finishes n r =
      let again : Exec (PgzfReader lru) IoError (List ℕ) =
        fill_readahead lru fl ray
        >> with_state (λ s. from_first lru fl ray (at_end lru fl ray) n s.readahead) in
      from_first-Finishes again n r.readahead
        (Ends-bind any_reader (fill_readahead lru fl ray) _ fill-Finishes (λ u s.
          from_first-Finishes (at_end lru fl ray) n s.readahead
            (λ t. record { ends = tt; holds = tt }) s))
        r

  advance-Finishes : Finishes (advance_to_next_block_sequential lru fl ray)
  unfolding advance_to_next_block_sequential
  advance-Finishes r =
      let found = next_block-Ended fl (length r.inner.bytes + 1) r.inner (omega arith) in
      EndsAt-continue any_reader r _ _ (record { ends = Ended-map_err into_io _ found; holds = tt })
        (λ block e. record { ends = tt; holds = tt })

  from_stream-Finishes : (n : ℕ) → Finishes (from_stream lru fl ray n)
  unfolding from_stream
  from_stream-Finishes n =
      Ends-bind any_reader (advance_to_next_block_sequential lru fl ray) _ advance-Finishes (λ u r.
        Ends-if any_reader (length r.current_block == 0 || r.eof) (pure []) _
          (λ s. EndsAt-here any_reader (ok []) s tt) (λ s. record { ends = tt; holds = tt }) r)

  read-Finishes : (n : ℕ) → Finishes (read lru fl ray n)
  unfolding read
  read-Finishes n =
      let nothing = λ (s : PgzfReader lru). EndsAt-here any_reader (ok []) s tt in
      Ends-if any_reader (n == 0) (pure []) _ nothing (
        Ends-bind any_reader (execute_pending_seek lru fl ray) _ execute_pending_seek-Finishes
          (λ u r.
            Ends-if any_reader (ltb r.current_pos (length r.current_block)) (take_current lru n) _
              (take_current-Finishes n)
              (Ends-if any_reader r.eof (pure []) _ nothing (
                Ends-if any_reader r.is_pgzf (from_readahead lru fl ray n)
                  (from_stream lru fl ray n) (from_readahead-Finishes n) (from_stream-Finishes n)))
              r))

  module _ (llaws : LruLaws lru) where
    -- Under the laws of the lru crate, and if rayon's `map_init` ends whenever the calls of its
    -- function do: `read` into a buffer of any size ends, with bytes, an error or a panic, on every
    -- file, of the format or not, and in every state of the reader, a seek that is pending
    -- included. The loops inside that have no outcome of their own end as well, whatever they run
    -- over: each result is that of whole rounds up to the exit of the loop, for the loops over the
    -- tags of a header, the binary search and both evictions of `insert`.
    pub read_ends : (n : ℕ) (r : PgzfReader lru) → ((read lru fl ray n r).0 ≢ stuck) × LoopsEnd lru
    read_ends n r = (Ended-ne _ (read-Finishes n r).ends, loops_end lru llaws)

    -- Under the laws of the lru crate, and if rayon's `map_init` ends whenever the calls of its
    -- function do: the loop that decompresses up to a limit ends, with success, an error or a
    -- panic, on every file and from every state of the reader. The loops inside that have no
    -- outcome of their own end as well, whatever they run over: each result is that of whole rounds
    -- up to the exit of the loop, for the loops over the tags of a header, the binary search and
    -- both evictions of `insert`.
    pub copied_ends :
        (rounds limit : ℕ) (r : PgzfReader lru)
        → ((copied lru fl ray rounds (some limit) r).0 ≢ stuck) × LoopsEnd lru
    unfolding copied
    copied_ends rounds limit r = (
      (copy_limited-Copied (read lru fl ray) limit limit (r, [])
            (λ n s buf e. read-le lru fl ray n s buf e) (omega arith)).ends
          (λ n s. (read_ends n s).0),
      loops_end lru llaws,
    )
