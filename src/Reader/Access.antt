-- ===== src/Reader/Access.antt =====
-- Reading from any block of a file with its index: `read_range` behind a seek, and `read_blocks`.
use pgzf_rs.Prelude.{
  ℕ, ◌+◌, ◌-◌, ◌%◌, ◌^◌, ◌<◌, ◌≤◌, ◌≡◌, inl, inr, refl, sym, ap, ◌∙◌, true, false, min, some, List,
  [], arith,
}
use pgzf_rs.Prelude.Tests.{lt→leb_false, le→ltb_false, ◌==◌, Bool-cases, ==→eq}
use pgzf_rs.Prelude.Lists.{
  length, take, drop, drop-append, flatten, length-drop, take-min, All, All-take, All-drop,
}
use pgzf_rs.Prelude.Outcome.{ok}
use pgzf_rs.External.Flate.{Flate}
use pgzf_rs.External.Lru.{LruCache}
use pgzf_rs.External.Rayon.{Rayon, RayonLaws}
use pgzf_rs.BlockCache.{CacheEntry}
use pgzf_rs.Codec.Laws.{FlateLaws, deflated}
use pgzf_rs.Writer.{PendingBlock}
use pgzf_rs.Index.{block_count, compressed_offset}
use pgzf_rs.Index.Types.{PgzfIndex}
use pgzf_rs.Reader.State.{PgzfReader}
use pgzf_rs.Reader.Fill.{read_range}
use pgzf_rs.Reader.Read.{read_from, read_blocks}
use pgzf_rs.Reader.Items.{
  Item, blocks_in, items_bytes, numbered_from, IsReadable, IsReadableEntry, blocks_in-IsReadable,
  placed, read_range-take,
}
use pgzf_rs.Reader.Decoded.{map_init-bytes_in}
use pgzf_rs.Reader.Groups.{bytes_in, items_bytes-long}
use pgzf_rs.Reader.Places.{
  items_from, blocks_in-items_from, items_from-All, length-items_from, item_places, Place_lem,
}

module _ (lru : LruCache CacheEntry) (fl : Flate) (level : ℕ) (laws : FlateLaws fl level) where
  -- A file of blocks of the writer, and its index.
  pub record IsFile (bytes : List ℕ) (index : PgzfIndex) (items : List Item) : Type 0 where
    pub whole : bytes ≡ items_bytes lru fl level laws items
    pub empty : length (deflated fl level laws []) < 2 ^ 29
    pub readable : All (IsReadable fl level laws) items
    pub offsets : index.compressed_offsets ≡ item_places lru fl level laws 0 items
    pub count : block_count index ≡ length (blocks_in items)

  -- The data blocks of a run.
  abbrev pub run : List Item → ℕ → ℕ → List (PendingBlock × ℕ)
  run items i n = take n (drop i (blocks_in items))

  pub run-IsReadable :
      (items : List Item) (i n : ℕ)
      → All (IsReadable fl level laws) items
      → All (IsReadableEntry fl level laws) (run items i n)
  run-IsReadable items i n h =
      All-take (IsReadableEntry fl level laws) n (drop i (blocks_in items)) (
        All-drop (IsReadableEntry fl level laws) i (blocks_in items)
          (blocks_in-IsReadable fl level laws items h))

  -- The index has an offset for a block, from which the blocks from this one on are read.
  pub record Located (bytes : List ℕ) (index : PgzfIndex) (items : List Item) (i : ℕ) : Type 0 where
    pub offset : ℕ
    pub listed : compressed_offset index i ≡ some offset
    pub reads :
        (r : PgzfReader lru) (n : ℕ)
        → r.inner.bytes ≡ bytes
        → r.inner.pos ≡ offset
        → i + n ≤ length (blocks_in items)
        → (p : ℕ) × (next : ℕ) × (read_range lru (length bytes + 1) n r ≡ (
          ok (numbered_from lru fl level laws r.next_block_index (run items i n), false),
          placed lru r p next,
        ))

  pub Located_lem :
      (bytes : List ℕ) (index : PgzfIndex) (items : List Item) (i : ℕ)
      → IsFile bytes index items
      → i ≤ length (blocks_in items)
      → Located bytes index items i
  Located_lem bytes index items i f h =
      let p = Place_lem lru fl level laws 0 i items h in
      let rest = items_from i items in
      let same = blocks_in-items_from i items in
      record {
        offset = 0 + length p.front;
        listed =
            ap (λ (l : List ℕ). compressed_offset (record index { compressed_offsets = l }) i)
              f.offsets
            ∙ p.listed;
        reads = λ r n b at few.
            let there =
              ap (λ (k : ℕ). drop k r.inner.bytes) (at ∙ omega arith)
              ∙ ap (drop (length p.front)) (b ∙ f.whole ∙ p.parts)
              ∙ drop-append (length p.front) p.front (items_bytes lru fl level laws rest) refl in
            let enough : length rest ≤ length bytes + 1 = omega (
              arith,
              length-items_from i items,
              items_bytes-long lru fl level laws items f.readable,
              ap length f.whole,
            ) in
            let (q, next, reads) =
              read_range-take lru fl level laws (length bytes + 1) n rest r f.empty
                (items_from-All (IsReadable fl level laws) i items f.readable) enough
                (omega (arith, ap length same, length-drop i (blocks_in items))) there in
            (q, next, rw same at reads);
      }

module _ (lru : LruCache CacheEntry) (fl : Flate) (ray : Rayon) (level : ℕ)
    (laws : FlateLaws fl level) (rlaws : RayonLaws ray) where
  read_from-run :
      (r : PgzfReader lru) (index : PgzfIndex) (items : List Item) (i n : ℕ)
      → IsFile lru fl level laws r.inner.bytes index items
      → (l : Located lru fl level laws r.inner.bytes index items i)
      → i + n ≤ length (blocks_in items)
      → (read_from lru fl ray i l.offset (i + n) r).0
        ≡ ok (flatten (bytes_in (run lru fl level laws items i n)))
  unfolding read_from
  read_from-run r index items i n f l few =
      let far : i + n - i ≡ n = omega arith in
      let (p, next, reads) = l.reads (placed lru r l.offset i) n refl refl few in
      rw
        (
          le→ltb_false (i + n) i (omega arith),
          far,
          reads,
          map_init-bytes_in lru fl ray level laws rlaws i (run lru fl level laws items i n)
              (run-IsReadable lru fl level laws items i n f.readable),
        )
        refl

  pub read_blocks-run :
      (r : PgzfReader lru) (index : PgzfIndex) (items : List Item) (start count : ℕ)
      → IsFile lru fl level laws r.inner.bytes index items
      → r.is_pgzf ≡ true
      → r.index ≡ some index
      → start < length (blocks_in items)
      → start + count < 2 ^ 64
      → (read_blocks lru fl ray start count r).0
        ≡ ok (flatten (bytes_in (run lru fl level laws items start count)))
  unfolding read_blocks
  read_blocks-run r index items start count f p i inside bound =
      let rest = drop start (blocks_in items) in
      let end = min (block_count index) ((start + count) % 2 ^ 64) in
      let n = end - start in
      let many : n ≡ min count (length rest) =
        omega (arith, f.count, length-drop start (blocks_in items)) in
      let l = Located_lem lru fl level laws r.inner.bytes index items start f (omega arith) in
      let same : take n rest ≡ take count rest =
        ap (λ (k : ℕ). take k rest) many ∙ take-min count rest in
      elim (Bool-cases (end == start)) [
        | inl none_asked ↦
            let empty : n ≡ 0 = omega (arith, ==→eq end start none_asked) in
            let nothing : [] ≡ take count rest = sym (ap (λ (k : ℕ). take k rest) empty) ∙ same in
            rw (p, i, lt→leb_false (block_count index) start (omega (arith, f.count)), none_asked)
              (ap (λ (bs : List (PendingBlock × ℕ)). ok (flatten (bytes_in bs))) nothing)
        | inr some_asked ↦
            let r' : PgzfReader lru = record r { is_pgzf = true; index = some index } in
            let far : end ≡ start + n = omega (arith, f.count) in
            rw
              (
                p,
                i,
                lt→leb_false (block_count index) start (omega (arith, f.count)),
                some_asked,
                l.listed,
              )
              (ap (λ (e : ℕ). (read_from lru fl ray start l.offset e r').0) far
                ∙ read_from-run r' index items start n f l (omega (arith, f.count))
                ∙ ap (λ (bs : List (PendingBlock × ℕ)). ok (flatten (bytes_in bs))) same)
      ]
