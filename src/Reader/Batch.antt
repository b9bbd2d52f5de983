-- ===== src/Reader/Batch.antt =====
-- `fill_batch` where the cache has none of the blocks: the readahead is the blocks of the batch.
use pgzf_rs.Prelude.{
  ℕ, suc, ◌+◌, ◌-◌, ◌≤◌, ◌<◌, ◌≡◌, ◌≢◌, refl, sym, ap, ◌∙◌, false, Option, none, some, List, [],
  ◌∷◌, ◌++◌, map, arith, append-nil, append_assoc,
}
use pgzf_rs.Prelude.Tests.{le→leb, lt→ltb, ne→==_false}
use pgzf_rs.Prelude.Lists.{length, set, drop, replicate, length-append, length-drop, length-take}
use pgzf_rs.Prelude.Outcome.{ok}
use pgzf_rs.External.Flate.{Flate}
use pgzf_rs.External.Lru.{LruCache, LruLaws}
use pgzf_rs.External.Rayon.{Rayon, RayonLaws}
use pgzf_rs.BlockCache.{CacheEntry, BlockCache, insert}
use pgzf_rs.BlockCache.Refine.{insert-IsValid}
use pgzf_rs.BlockCache.Fresh.{Misses-insert}
use pgzf_rs.Codec.Laws.{FlateLaws}
use pgzf_rs.Writer.{PendingBlock}
use pgzf_rs.Index.{compressed_offset, total_compressed}
use pgzf_rs.Index.Types.{PgzfIndex}
use pgzf_rs.Reader.State.{PgzfReader}
use pgzf_rs.Reader.Ranges.{upto}
use pgzf_rs.Reader.Fill.{
  offset_or, non_cached, cached_blocks, present, read_ranges, store, read_missing, fill_batch,
}
use pgzf_rs.Reader.Items.{Item, blocks_in, numbered_from, placed}
use pgzf_rs.Reader.Groups.{bytes_in, length-bytes_in}
use pgzf_rs.Reader.Decoded.{numbered_bytes, decompress_all-numbered_bytes}
use pgzf_rs.Reader.Access.{IsFile, run, run-IsReadable, Located, Located_lem}
use pgzf_rs.Reader.Lookup.{IsFresh, non_cached-upto, cached_blocks-none, group_contiguous-upto}

set-append :
    {A : Type 0} (front : List A) (x v : A) (rest : List A)
    → set (front ++ (x ∷ rest)) (length front) v ≡ (front ++ (v ∷ [])) ++ rest
set-append [] x v rest = refl
set-append (y ∷ front) x v rest = ap (◌∷◌ y) (set-append front x v rest)

present-map : (l : List (List ℕ)) → present (map some l) ≡ l
present-map [] = refl
present-map (b ∷ l) = ap (◌∷◌ b) (present-map l)

module _ (lru : LruCache CacheEntry) (laws : LruLaws lru) where
  abbrev pub with_cache : PgzfReader lru → BlockCache lru → PgzfReader lru
  with_cache r c = record r { block_cache = c }

  -- Each block of the batch takes its place among the results.
  store-numbered_bytes :
      (start end i : ℕ) (blocks : List (PendingBlock × ℕ)) (front : List (Option (List ℕ)))
      (r : PgzfReader lru)
      → i ≡ start + length front
      → i + length blocks ≤ end
      → IsFresh lru laws r.block_cache end
      → (c : BlockCache lru) × (store lru start
            (numbered_bytes i blocks)
            (front ++ replicate (length blocks) none)
            r
          ≡ (ok (front ++ map some (bytes_in blocks)), with_cache r c))
        × IsFresh lru laws c end
  unfolding store
  store-numbered_bytes start end i [] front r e le f = (r.block_cache, refl, f)
  store-numbered_bytes start end i ((b, gc) ∷ blocks) front r e le f =
      let c1 = insert lru r.block_cache i b.bytes in
      let fresh : IsFresh lru laws c1 end = record {
        valid = insert-IsValid lru laws r.block_cache i b.bytes f.valid;
        misses = Misses-insert lru laws r.block_cache i end b.bytes f.valid (omega arith) f.misses;
      } in
      let rest : List (Option (List ℕ)) = replicate (length blocks) none in
      let at : i - start ≡ length front = omega arith in
      let inside : i - start < length (front ++ (none ∷ rest)) =
        omega (arith, length-append front (none ∷ rest)) in
      let placed_there : set (front ++ (none ∷ rest)) (i - start) (some b.bytes)
          ≡ (front ++ (some b.bytes ∷ [])) ++ rest =
        ap (λ (k : ℕ). set (front ++ (none ∷ rest)) k (some b.bytes)) at
        ∙ set-append front none (some b.bytes) rest in
      let (c, more, g) =
        store-numbered_bytes start end (i + 1) blocks (front ++ (some b.bytes ∷ []))
          (with_cache r c1) (omega (arith, length-append front (some b.bytes ∷ []))) (omega arith)
          fresh in
      (
        c,
        rw
            (
              le→leb start i (omega arith),
              lt→ltb (i - start) (length (front ++ (none ∷ rest))) inside,
              placed_there,
            )
            (more
              ∙ ap (λ (l : List (Option (List ℕ))). (ok l, with_cache r c))
                  (append_assoc front (some b.bytes ∷ []) (map some (bytes_in blocks)))),
        g,
      )

module _ (lru : LruCache CacheEntry) (llaws : LruLaws lru) (fl : Flate) (ray : Rayon) (level : ℕ)
    (laws : FlateLaws fl level) (rlaws : RayonLaws ray) where
  -- A range that begins at a block is read.
  read_ranges-run :
      (r : PgzfReader lru) (index : PgzfIndex) (items : List Item) (i n : ℕ)
      → (l : Located lru fl level laws r.inner.bytes index items i)
      → i + n ≤ length (blocks_in items)
      → (p : ℕ) × (next : ℕ) × (read_ranges lru
            (length r.inner.bytes + 1)
            ((record { start = i; end = i + n }, l.offset) ∷ [])
            r
          ≡ (
            ok (numbered_from lru fl level laws i (run lru fl level laws items i n), false),
            placed lru r p next,
          ))
  unfolding read_ranges
  read_ranges-run r index items i n l few =
      let (p, next, reads) = l.reads (placed lru r l.offset i) n refl refl few in
      let many : i + n - i ≡ n = omega arith in
      (p, next, rw (many, reads) (ap (λ l. (ok (l, false), placed lru r p next)) (append-nil _)))

  read_missing-run :
      (r : PgzfReader lru) (index : PgzfIndex) (items : List Item) (i n next_offset : ℕ)
      → IsFile lru fl level laws r.inner.bytes index items
      → (l : Located lru fl level laws r.inner.bytes index items i)
      → i + n ≤ length (blocks_in items)
      → IsFresh lru llaws r.block_cache (i + n)
      → (c : BlockCache lru) × (read_missing lru fl ray i
            ((record { start = i; end = i + n }, l.offset) ∷ [])
            (i + n)
            next_offset
            (replicate n none)
            r
          ≡ (
            ok (map some (bytes_in (run lru fl level laws items i n)), false),
            with_cache lru llaws (placed lru r next_offset (i + n)) c,
          ))
        × IsFresh lru llaws c (i + n)
  unfolding read_missing
  read_missing-run r index items i n next_offset f l few fresh =
      let blocks = run lru fl level laws items i n in
      let many : length blocks ≡ n =
        omega (arith, length-take n (drop i (blocks_in items)), length-drop i (blocks_in items)) in
      let (p, next, reads) = read_ranges-run r index items i n l few in
      let (c, stores, g) =
        store-numbered_bytes lru llaws i (i + n) i blocks [] (placed lru r p next) (omega arith)
          (omega (arith, many)) fresh in
      let r1 = placed lru r p next in
      let filled : store lru i (numbered_bytes i blocks) (replicate n none) r1
          ≡ (ok (map some (bytes_in blocks)), with_cache lru llaws r1 c) =
        ap (λ (k : ℕ). store lru i (numbered_bytes i blocks) (replicate k none) r1) (sym many)
        ∙ stores in
      (
        c,
        rw
            (
              reads,
              decompress_all-numbered_bytes lru fl ray level laws rlaws i blocks
                  (run-IsReadable lru fl level laws items i n f.readable),
              filled,
            )
            refl,
        g,
      )

  -- The reader behind a batch of `n` blocks.
  abbrev pub behind_batch : PgzfReader lru → ℕ → BlockCache lru → List (List ℕ) → ℕ → PgzfReader lru
  behind_batch r p c blocks next = record r {
    inner = record r.inner { pos = p };
    next_block_index = next;
    block_cache = c;
    readahead = blocks;
  }

  abbrev offset_behind : PgzfIndex → ℕ → ℕ
  offset_behind index next = offset_or (compressed_offset index next) (total_compressed index)

  -- One range of missing blocks.
  fill_batch-range :
      (r : PgzfReader lru) (index : PgzfIndex) (n offset : ℕ) (c1 c2 c : BlockCache lru)
      (blocks : List (List ℕ))
      → non_cached lru (suc n) r.next_block_index r.block_cache
        ≡ (upto r.next_block_index (suc n), c1)
      → cached_blocks lru (suc n) r.next_block_index c1 ≡ (replicate (suc n) none, c2)
      → compressed_offset index r.next_block_index ≡ some offset
      → read_missing lru fl ray r.next_block_index
          ((record { start = r.next_block_index; end = r.next_block_index + suc n }, offset) ∷ [])
          (r.next_block_index + suc n)
          (offset_behind index (r.next_block_index + suc n))
          (replicate (suc n) none)
          (with_cache lru llaws r c2)
        ≡ (
          ok (map some blocks, false),
          with_cache lru llaws
              (placed lru r
                (offset_behind index (r.next_block_index + suc n))
                (r.next_block_index + suc n))
              c,
        )
      → 0 < length blocks
      → fill_batch lru fl ray index (r.next_block_index + suc n) r ≡ (
        ok tt,
        behind_batch r
            (offset_behind index (r.next_block_index + suc n))
            c
            blocks
            (r.next_block_index + suc n),
      )
  unfolding fill_batch
  fill_batch-range r index n offset c1 c2 c blocks missing cached listed reads any =
      let i = r.next_block_index in
      let many : i + suc n - i ≡ suc n = omega arith in
      let some_read : length blocks ≢ 0 = λ e. absurd (omega (arith, e, any)) in
      rw (many, missing, group_contiguous-upto i n)
        (rw (many, missing, group_contiguous-upto i n, cached, listed)
          (rw (reads, present-map blocks, ne→==_false (length blocks) 0 some_read) refl))

  pub fill_batch-run :
      (r : PgzfReader lru) (index : PgzfIndex) (items : List Item) (n : ℕ)
      → IsFile lru fl level laws r.inner.bytes index items
      → r.next_block_index + suc n ≤ length (blocks_in items)
      → IsFresh lru llaws r.block_cache r.next_block_index
      → (p : ℕ) × (c : BlockCache lru) × (fill_batch lru fl ray index (r.next_block_index + suc n) r
          ≡ (
            ok tt,
            behind_batch r p c
                (bytes_in (run lru fl level laws items r.next_block_index (suc n)))
                (r.next_block_index + suc n),
          ))
        × IsFresh lru llaws c (r.next_block_index + suc n)
  fill_batch-run r index items n f few fresh =
      let i = r.next_block_index in
      let blocks = run lru fl level laws items i (suc n) in
      let l = Located_lem lru fl level laws r.inner.bytes index items i f (omega arith) in
      let (c1, missing, fresh1) =
        non_cached-upto lru llaws (suc n) i i r.block_cache fresh (omega arith) in
      let (c2, cached, fresh2) = cached_blocks-none lru llaws (suc n) i i c1 fresh1 (omega arith) in
      let (c, reads, fresh3) =
        read_missing-run (with_cache lru llaws r c2) index items i (suc n)
          (offset_behind index (i + suc n)) f l few
          (record { valid = fresh2.valid; misses = λ k le. fresh2.misses k (omega arith) }) in
      (
        offset_behind index (i + suc n),
        c,
        fill_batch-range r index n l.offset c1 c2 c (bytes_in blocks) missing cached l.listed reads
            (omega (
              arith,
              length-bytes_in blocks,
              length-take (suc n) (drop i (blocks_in items)),
              length-drop i (blocks_in items),
            )),
        fresh3,
      )
