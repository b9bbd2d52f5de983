-- ===== src/Reader/Items.antt =====
-- `read_range` over a run of blocks of the writer, data and IDX blocks in any order.
use pgzf_rs.Prelude.{
  Bool, ℕ, zero, suc, ◌+◌, ◌-◌, ◌*◌, ◌^◌, ◌<◌, ◌≤◌, ◌≡◌, ◌≢◌, refl, sym, ap, ◌∙◌, false, some, List,
  [], ◌∷◌, ◌++◌, arith,
}
use pgzf_rs.Prelude.Lists.{length, take, drop, drop-append, drop-drop, All}
use pgzf_rs.Prelude.Outcome.{ok, Exec, continue, pure}
use pgzf_rs.Error.{PgzfError}
use pgzf_rs.Cursor.{remaining}
use pgzf_rs.Format.Bytes.{IsU16, IsU32}
use pgzf_rs.Format.Header.{BlockType, beg, dat, idx, IndexEntry}
use pgzf_rs.External.Flate.{Flate}
use pgzf_rs.External.Lru.{LruCache}
use pgzf_rs.BlockCache.{CacheEntry}
use pgzf_rs.Codec.Laws.{FlateLaws, deflated}
use pgzf_rs.Writer.{PendingBlock, header_size}
use pgzf_rs.Writer.Layout.{idx_member}
use pgzf_rs.Reader.State.{PgzfReader}
use pgzf_rs.Reader.Raw.{RawBlock, read_one_raw_block}
use pgzf_rs.Reader.RawRead.{advanced}
use pgzf_rs.Reader.Fill.{NumberedBlock, numbered, read_range}
use pgzf_rs.Reader.Members.{final_member, read_final_member}
use pgzf_rs.Reader.Skip.{read_one_raw_block-idx_member}

-- A block of a file: of data, with the GC value in its header, or an index.
pub data Item : Type 0 where
  block_item : PendingBlock → ℕ → Item
  index_item : List IndexEntry → Item

-- The data blocks among some items.
abbrev pub blocks_in : List Item → List (PendingBlock × ℕ)
blocks_in [] = []
blocks_in (block_item b gc ∷ items) = (b, gc) ∷ blocks_in items
blocks_in (index_item es ∷ items) = blocks_in items

module _ (fl : Flate) (level : ℕ) (laws : FlateLaws fl level) where
  pub record IsReadableBlock (b : PendingBlock) : Type 0 where
    pub data_block : b.block_type ≢ idx
    pub small : header_size b.block_type + length (deflated fl level laws b.bytes) + 8 ≤ 2 ^ 30
    pub plain : IsU32 (length b.bytes)

  abbrev pub IsReadable : Item → Type 0
  IsReadable (block_item b gc) = IsReadableBlock b
  IsReadable (index_item es) = IsU16 (12 + length es * 8)

  -- A data block with its GC value.
  abbrev pub IsReadableEntry : PendingBlock × ℕ → Type 0
  IsReadableEntry (b, gc) = IsReadableBlock b

  pub blocks_in-IsReadable :
      (items : List Item) → All IsReadable items → All IsReadableEntry (blocks_in items)
  blocks_in-IsReadable [] h = tt
  blocks_in-IsReadable (block_item b gc ∷ items) h = (h.0, blocks_in-IsReadable items h.1)
  blocks_in-IsReadable (index_item es ∷ items) h = blocks_in-IsReadable items h.1

module _ (lru : LruCache CacheEntry) where
  -- The reader at another place of its file and at another number.
  abbrev pub placed : PgzfReader lru → ℕ → ℕ → PgzfReader lru
  placed r p next = record r { inner = record r.inner { pos = p }; next_block_index = next }

module _ (lru : LruCache CacheEntry) (fl : Flate) (level : ℕ) (laws : FlateLaws fl level) where
  abbrev pub items_bytes : List Item → List ℕ
  items_bytes [] = []
  items_bytes (block_item b gc ∷ items) = final_member lru fl level laws b gc ++ items_bytes items
  items_bytes (index_item es ∷ items) = idx_member fl level laws es ++ items_bytes items

  -- The blocks with their numbers.
  abbrev pub numbered_from : ℕ → List (PendingBlock × ℕ) → List NumberedBlock
  numbered_from i [] = []
  numbered_from i ((b, gc) ∷ blocks) =
      (i, final_member lru fl level laws b gc, header_size b.block_type)
      ∷ numbered_from (i + 1) blocks

  behind :
      (r : PgzfReader lru) (front rest : List ℕ)
      → remaining r.inner ≡ front ++ rest
      → drop (r.inner.pos + length front) r.inner.bytes ≡ rest
  behind r front rest h =
      sym (drop-drop (length front) r.inner.pos r.inner.bytes)
      ∙ ap (drop (length front)) h
      ∙ drop-append (length front) front rest refl

  -- The rest of a round that has read a data block.
  abbrev round :
      RawBlock
      → ℕ
      → Exec (PgzfReader lru) PgzfError (List NumberedBlock × Bool)
      → Exec (PgzfReader lru) PgzfError (List NumberedBlock × Bool)
  round b next rest r = continue (rest r) (λ more. pure (numbered lru b next ∷ more.0, more.1))

  read_range-data :
      (fuel n : ℕ) (r r1 : PgzfReader lru) (b : RawBlock) (t : BlockType)
      → read_one_raw_block lru r ≡ (ok (some b), r1)
      → b.block_type ≡ t
      → t ≢ idx
      → read_range lru (suc fuel) (suc n) r ≡ round b r1.next_block_index (read_range lru fuel n) r1
  unfolding read_range
  read_range-data fuel n r r1 b beg e k ne = rw (e, k) refl
  read_range-data fuel n r r1 b dat e k ne = rw (e, k) refl
  read_range-data fuel n r r1 b idx e k ne = absurd (ne refl)

  read_range-index :
      (fuel n : ℕ) (r r1 : PgzfReader lru) (b : RawBlock)
      → read_one_raw_block lru r ≡ (ok (some b), r1)
      → b.block_type ≡ idx
      → read_range lru (suc fuel) (suc n) r ≡ read_range lru fuel (suc n) r1
  unfolding read_range
  read_range-index fuel n r r1 b e k = rw (e, k) refl

  read_range-zero : (fuel : ℕ) (r : PgzfReader lru) → read_range lru fuel 0 r ≡ (ok ([], false), r)
  unfolding read_range
  read_range-zero zero r = refl
  read_range-zero (suc fuel) r = refl

  -- As many data blocks as are asked for are read, where there are as many.
  pub read_range-take :
      (fuel n : ℕ) (items : List Item) (r : PgzfReader lru)
      → length (deflated fl level laws []) < 2 ^ 29
      → All (IsReadable fl level laws) items
      → length items ≤ fuel
      → n ≤ length (blocks_in items)
      → remaining r.inner ≡ items_bytes items
      → (p : ℕ) × (next : ℕ) × (read_range lru fuel n r ≡ (
        ok (numbered_from r.next_block_index (take n (blocks_in items)), false),
        placed lru r p next,
      ))
  read_range-take fuel zero items r e good h few at =
      (r.inner.pos, r.next_block_index, read_range-zero fuel r)
  read_range-take fuel (suc n) [] r e good h few at = absurd (omega arith)
  read_range-take zero (suc n) (i ∷ items) r e good h few at = absurd (omega arith)
  read_range-take (suc fuel) (suc n) (block_item b gc ∷ items) r e good h few at =
      let g = good.0 in
      let front = final_member lru fl level laws b gc in
      let r1 = advanced lru r (length front) (r.next_block_index + 1) in
      let raw : RawBlock = record {
        raw = front;
        header_size = header_size b.block_type;
        block_type = b.block_type;
        block_index = r.next_block_index;
      } in
      let one =
        read_final_member lru fl level laws r b gc (items_bytes items) g.data_block g.small at in
      let (p, next, rest) =
        read_range-take fuel n items r1 e good.1 (omega arith) (omega arith)
          (behind r front (items_bytes items) at) in
      let same : r.next_block_index + 1 - 1 ≡ r.next_block_index = omega arith in
      let more = numbered_from (r.next_block_index + 1) (take n (blocks_in items)) in
      (
        p,
        next,
        read_range-data fuel n r r1 raw b.block_type one refl g.data_block
            ∙ rw rest refl
            ∙ ap
                (λ (i : ℕ).
                  (ok ((i, front, header_size b.block_type) ∷ more, false), placed lru r p next))
                same,
      )
  read_range-take (suc fuel) (suc n) (index_item es ∷ items) r e good h few at =
      let front = idx_member fl level laws es in
      let (raw, one, kind) =
        read_one_raw_block-idx_member lru fl level laws r es (items_bytes items) good.0 e at in
      let r1 = advanced lru r (length front) r.next_block_index in
      let (p, next, rest) =
        read_range-take fuel (suc n) items r1 e good.1 (omega arith) few
          (behind r front (items_bytes items) at) in
      (p, next, read_range-index fuel n r r1 raw one kind ∙ rest)
