-- ===== src/Reader/Total.antt =====
-- Every `read` ends, on any file and in any state of the reader.
use pgzf_rs.Prelude.{
  ℕ, ◌+◌, ◌-◌, ◌%◌, ◌^◌, ◌≢◌, inl, inr, refl, ◌&&◌, not, Bool, true, false, Option, none, some,
  List, [], ◌∷◌, map, min, arith,
}
use pgzf_rs.Prelude.Tests.{ltb, leb, ◌==◌, Bool-cases, if◌then◌else◌}
use pgzf_rs.Prelude.Lists.{length, set, drop, take}
use pgzf_rs.Prelude.Outcome.{Outcome, ok, err, panic, stuck, Exec, modify, convert, pure, ◌>>◌}
use pgzf_rs.Prelude.Ends.{
  Ended, Ended-ne, Ended-map_err, Relation, Ends, EndsAt, EndsAt-here, EndsAt-continue,
  EndsAt-change, EndsAt-if, Ends-bind, Ends-lift, Ends-if, Ends-convert, Ends-modify,
}
use pgzf_rs.Error.{IoError, into_io, wrapping, invalid_data}
use pgzf_rs.Cursor.{seek_start}
use pgzf_rs.Constants.{pgzf_tail_size}
use pgzf_rs.Format.Bytes.{read_u32_le}
use pgzf_rs.External.Flate.{Flate, Status}
use pgzf_rs.External.Lru.{LruCache}
use pgzf_rs.External.Rayon.{Rayon, RayonEnds}
use pgzf_rs.BlockCache.{CacheEntry}
use pgzf_rs.Codec.{ReusableDecompressor, after_inflate, decompress, new_decompressor}
use pgzf_rs.Index.{block_count, compressed_offset, total_compressed}
use pgzf_rs.Index.Types.{PgzfIndex}
use pgzf_rs.Reader.State.{PgzfReader, total_memory_usage}
use pgzf_rs.Reader.Raw.{on_inner, check_crc, decompress_raw_block_with}
use pgzf_rs.Reader.Ranges.{BlockRange, group_contiguous, last_end}
use pgzf_rs.Reader.Fill.{
  NumberedBlock, set_next, offset_or, non_cached, cached_blocks, finish_fill, fill_from_index,
  is_over, store, decompress_all, read_missing, fill_batch, fill_readahead,
}
use pgzf_rs.Reader.Ends.{same_file, read_ranges-Ends}

ne-Ended : {E A : Type 0} (o : Outcome E A) → o ≢ stuck → Ended o
ne-Ended (ok a) h = tt
ne-Ended (err e) h = tt
ne-Ended panic h = tt
ne-Ended stuck h = absurd (h refl)

module _ (fl : Flate) where
  -- A relation without content.
  abbrev pub any_state : Relation (ReusableDecompressor fl)
  any_state = record { Holds = λ s t. Unit; here = λ s. tt; chain = λ s t u h k. tt }

  pub decompress-Ends : (bytes : List ℕ) (n : ℕ) → Ends any_state (decompress fl bytes n)
  unfolding decompress
  decompress-Ends bytes n s = by_run (fl.decompress_run (fl.decompress_reset s.inner) bytes n)
    where
      by_run :
          (q : Option Status × fl.Decompress × List ℕ) → EndsAt any_state s (after_inflate fl q)
      by_run (none, inner, output) = record { ends = tt; holds = tt }
      by_run (some s, inner, output) = record { ends = tt; holds = tt }

  check_crc-Ended : (output : List ℕ) (crc : ℕ) → Ended (check_crc fl output crc)
  check_crc-Ended output crc = elim (Bool-cases (fl.crc32 output == crc)) [
    | inl same ↦ rw same tt
    | inr other ↦ rw other tt
  ]

  pub decompress_raw_block_with-Ends :
      (raw : List ℕ) (header_size : ℕ)
      → Ends any_state (decompress_raw_block_with fl raw header_size)
  unfolding decompress_raw_block_with
  decompress_raw_block_with-Ends raw header_size =
      let trailer_off = length raw - pgzf_tail_size in
      let size = read_u32_le (drop (trailer_off + 4) raw) in
      let crc = read_u32_le (drop trailer_off raw) in
      let bytes = take (trailer_off - header_size) (drop header_size raw) in
      Ends-if any_state (ltb (length raw) (pgzf_tail_size + header_size)) _ _
        (λ s. EndsAt-here any_state (ok []) s tt)
        (Ends-if any_state (size == 0) _ _ (λ s. EndsAt-here any_state (ok []) s tt)
          (Ends-bind any_state (convert (wrapping invalid_data) (decompress fl bytes size)) _
            (Ends-convert any_state (wrapping invalid_data) (decompress fl bytes size)
              (decompress-Ends bytes size))
            (λ a.
              Ends-lift any_state (check_crc fl (take a.0 a.1) crc)
                (check_crc-Ended (take a.0 a.1) crc))))

module _ (lru : LruCache CacheEntry) (fl : Flate) (ray : Rayon) (rends : RayonEnds ray) where
  abbrev SameFile : {E A : Type 0} → Exec (PgzfReader lru) E A → Type 0
  SameFile = Ends (same_file lru)

  decompress_all-Ended : (blocks : List NumberedBlock) → Ended (decompress_all lru fl ray blocks)
  decompress_all-Ended [] = tt
  decompress_all-Ended (b ∷ blocks) = ne-Ended _ (
      rends.map_init-ends (new_decompressor fl) _ (b ∷ blocks) (λ a s.
        Ended-ne _
          (EndsAt-continue (any_state fl) s _ _ (decompress_raw_block_with-Ends fl a.1 a.2 s)
            (λ bytes e. EndsAt-here (any_state fl) _ _ tt)).ends))

  store-SameFile :
      (start : ℕ) (blocks : List (ℕ × List ℕ)) (results : List (Option (List ℕ)))
      → SameFile (store lru start blocks results)
  unfolding store
  store-SameFile start [] results = λ r. EndsAt-here (same_file lru) _ r tt
  store-SameFile start ((i, bytes) ∷ blocks) results =
      Ends-bind (same_file lru) _ _ (Ends-modify (same_file lru) _ (λ r. refl)) (λ u.
        Ends-bind (same_file lru) _ _
          (Ends-lift (same_file lru) _ (in_range (leb start i && ltb (i - start) (length results))))
          (λ v. store-SameFile start blocks (set results (i - start) (some bytes))))
    where
      in_range : (b : Bool) → Ended {E = IoError} (if b then ok (tt {0}) else panic)
      in_range true = tt
      in_range false = tt

  seek_start-SameFile : {E : Type 0} (n : ℕ) → SameFile (on_inner lru (seek_start {E = E} n))
  seek_start-SameFile n r = record { ends = tt; holds = refl }

  set_next-SameFile : {E : Type 0} (n : ℕ) → SameFile (modify {E = E} (set_next lru n))
  set_next-SameFile n r = record { ends = tt; holds = refl }

  read_missing-SameFile :
      (start : ℕ) (ranges : List (BlockRange × ℕ)) (next next_offset : ℕ)
      (results : List (Option (List ℕ)))
      → SameFile (read_missing lru fl ray start ranges next next_offset results)
  unfolding read_missing
  read_missing-SameFile start ranges next next_offset results r =
      let read_all = read_ranges-Ends lru (length r.inner.bytes + 1) ranges r (omega arith) in
      EndsAt-continue (same_file lru) r _ _
        (record { ends = Ended-map_err into_io _ read_all.ends; holds = read_all.holds })
        (λ a e.
          Ends-bind (same_file lru) _ _ (Ends-lift (same_file lru) _ (decompress_all-Ended a.0))
            (λ decompressed.
              Ends-bind (same_file lru) _ _ (store-SameFile start decompressed results) (λ found.
                Ends-bind (same_file lru) _ _ (seek_start-SameFile next_offset) (λ n.
                  Ends-bind (same_file lru) _ _ (set_next-SameFile next)
                    (λ u s. EndsAt-here (same_file lru) (ok (found, a.1)) s tt))))
            _)

  by_ranges :
      {A : Type 0} (ranges : List BlockRange) (m k : Exec (PgzfReader lru) IoError A)
      → SameFile m
      → SameFile k
      → SameFile (elim ranges as (λ l. Exec (PgzfReader lru) IoError A) [ [] ↦ m | b ∷ bs ↦ k ])
  by_ranges [] m k h g = h
  by_ranges (b ∷ bs) m k h g = g

  fill_batch-SameFile : (index : PgzfIndex) (end : ℕ) → SameFile (fill_batch lru fl ray index end)
  unfolding fill_batch
  fill_batch-SameFile index end r =
      let start = r.next_block_index in
      let (missing, c1) = non_cached lru (end - start) start r.block_cache in
      let ranges = group_contiguous missing in
      let next = last_end start ranges in
      let next_offset = offset_or (compressed_offset index next) (total_compressed index) in
      let (results, c2) = cached_blocks lru (end - start) start c1 in
      let with_offsets : List (BlockRange × ℕ) =
        map (λ (range : BlockRange). (range, offset_or (compressed_offset index range.start) 0))
          ranges in
      let whole : Exec (PgzfReader lru) IoError (List (Option (List ℕ)) × Bool) =
        modify (set_next lru end) >> pure (results, false) in
      let some_missing : Exec (PgzfReader lru) IoError (List (Option (List ℕ)) × Bool) =
        read_missing lru fl ray start with_offsets next next_offset results in
      let phase2 =
        by_ranges ranges whole some_missing
          (Ends-bind (same_file lru) (modify (set_next lru end)) (λ u. pure (results, false))
            (set_next-SameFile end) (λ u s. EndsAt-here (same_file lru) (ok (results, false)) s tt))
          (read_missing-SameFile start with_offsets next next_offset results) in
      EndsAt-change (same_file lru) r (record r { block_cache = c2 }) _ refl
        (EndsAt-continue (same_file lru) (record r { block_cache = c2 }) _
          (λ found. modify (finish_fill lru fl ray end (block_count index) found))
          (phase2 (record r { block_cache = c2 })) (λ found e. record { ends = tt; holds = refl }))

  fill_from_index-EndsAt :
      (o : Option PgzfIndex) (r : PgzfReader lru)
      → EndsAt (same_file lru) r (fill_from_index lru fl ray o r)
  fill_from_index-EndsAt none r = EndsAt-here (same_file lru) (ok tt) r tt
  fill_from_index-EndsAt (some index) r =
      let end = min (block_count index) ((r.next_block_index + r.readahead_size) % 2 ^ 64) in
      EndsAt-if (same_file lru) (leb (block_count index) r.next_block_index) r _ _
        (record { ends = tt; holds = refl })
        (EndsAt-if (same_file lru) (ltb end r.next_block_index) r _ _
          (record { ends = tt; holds = refl }) (fill_batch-SameFile index end r))

  pub fill_readahead-SameFile : SameFile (fill_readahead lru fl ray)
  unfolding fill_readahead
  fill_readahead-SameFile r =
      let here = EndsAt-here (same_file lru) (ok tt) r tt in
      EndsAt-if (same_file lru) (not r.is_pgzf) r _ _ here (
        EndsAt-if (same_file lru) (ltb 0 (length r.readahead)) r _ _ here (
          EndsAt-if (same_file lru)
            (is_over lru fl ray r.readahead_memory_limit (total_memory_usage lru r)) r _ _ here
            (fill_from_index-EndsAt r.index r)))
