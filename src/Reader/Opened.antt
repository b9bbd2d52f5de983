-- ===== src/Reader/Opened.antt =====
-- Opening a file of the writer.
use pgzf_rs.Prelude.{
  ℕ, ◌+◌, ◌*◌, ◌^◌, ◌<◌, ◌≡◌, refl, sym, ap, subst, ◌∙◌, true, some, List, [], ◌∷◌, ◌++◌, arith,
  map,
}
use pgzf_rs.Prelude.Lists.{length, drop, flatten, All}
use pgzf_rs.Prelude.Outcome.{ok}
use pgzf_rs.Cursor.{Cursor}
use pgzf_rs.Cursor.Laws.{read_exact_front}
use pgzf_rs.Constants.{gzip_flg_fextra, pgzf_xfl_marker}
use pgzf_rs.Format.Header.{validate_gzip_header, is_pgzf_member}
use pgzf_rs.Format.Layout.{fixed_header}
use pgzf_rs.Format.Config.{PgzfConfig}
use pgzf_rs.External.Flate.{Flate}
use pgzf_rs.External.Lru.{LruCache}
use pgzf_rs.External.Rayon.{Rayon, RayonLaws}
use pgzf_rs.BlockCache.{CacheEntry}
use pgzf_rs.Codec.Laws.{FlateLaws}
use pgzf_rs.Writer.{with_config, finish}
use pgzf_rs.Writer.Blocks.{flatten-chunks}
use pgzf_rs.Writer.Plan.{groups_bytes, chunks_of}
use pgzf_rs.Writer.Holds.{IsWritable}
use pgzf_rs.Writer.File.{file_of}
use pgzf_rs.Writer.Pieces.{write_each, data_file, write_each-finish}
use pgzf_rs.Index.Build.{build}
use pgzf_rs.Index.Exact.{IsSmall, IsIndexable, EmptyIsSmall}
use pgzf_rs.Index.Places.{starts}
use pgzf_rs.Index.Whole.{build-groups}
use pgzf_rs.Index.Written.{All-implied, IsChunk, chunks-IsChunk, chunks-IsIndexable, groups_of}
use pgzf_rs.Index.Types.{PgzfIndex}
use pgzf_rs.Reader.State.{opened, inspect, open_reader}
use pgzf_rs.Reader.Items.{Item, blocks_in}
use pgzf_rs.Reader.Groups.{
  IsReadableData, IsReadableGroup, items_of, items_of-groups_bytes, items_of-IsReadable,
  bytes_in-items_of, bytes_in, length-bytes_in, items_bytes-long,
}
use pgzf_rs.Reader.Places.{length-blocks_in}
use pgzf_rs.Reader.Offsets.{item_places-places}
use pgzf_rs.Reader.Access.{IsFile}

fixed_front :
    (fl : Flate) (level : ℕ) (laws : FlateLaws fl level) (b : List ℕ) (bs : List (List ℕ))
    (gs : List (List (List ℕ)))
    → (rest : List ℕ) × (groups_bytes fl level laws ((b ∷ bs) ∷ gs) ≡ fixed_header ++ rest)
fixed_front fl level laws b bs gs = (drop 10 (groups_bytes fl level laws ((b ∷ bs) ∷ gs)), refl)

module _ (lru : LruCache CacheEntry) where
  -- A file that begins as a member of the crate, and has an index.
  open_reader_lem :
      (c : Cursor) (rest : List ℕ) (index : PgzfIndex)
      → c.bytes ≡ fixed_header ++ rest
      → build (record c { pos = 0 }) ≡ (ok index, record c { pos = length c.bytes })
      → open_reader lru c ≡ ok (opened lru (record c { pos = 0 }) true (some index))
  unfolding open_reader inspect is_pgzf_member
  open_reader_lem c rest index h e =
      let (front, behind) = read_exact_front (record c { pos = 0 }) 10 fixed_header rest h refl in
      let valid : validate_gzip_header fixed_header ≡ ok (gzip_flg_fextra, pgzf_xfl_marker) =
        unfold validate_gzip_header in refl in
      rw (front, valid, e) refl

module _ (lru : LruCache CacheEntry) (fl : Flate) (level : ℕ) (laws : FlateLaws fl level) where
  -- The file and the index hold these blocks of data.
  pub record HoldsBlocks (bytes : List ℕ) (index : PgzfIndex) (blocks : List (List ℕ))
      : Type 0 where
    pub items : List Item
    pub file : IsFile lru fl level laws bytes index items
    pub plain : bytes_in (blocks_in items) ≡ blocks
    pub u_offsets :
        index.uncompressed_offsets ≡ starts 0 (map length blocks) ++ (length (flatten blocks) ∷ [])

  -- A file of groups is opened.
  open_reader-groups :
      (gs : List (List (List ℕ)))
      → EmptyIsSmall fl level laws
      → All (IsIndexable fl level laws) gs
      → All (IsReadableGroup lru fl level laws) gs
      → length (groups_bytes fl level laws gs) < 2 ^ 64
      → length (flatten (flatten gs)) < 2 ^ 64
      → 0 < length (flatten (flatten gs))
      → (index : PgzfIndex) × (open_reader lru (file_of (groups_bytes fl level laws gs))
          ≡ ok (
              opened lru
                (record { bytes = groups_bytes fl level laws gs; pos = 0 })
                true
                (some index)))
        × HoldsBlocks (groups_bytes fl level laws gs) index (flatten gs)
  open_reader-groups [] e good readable file plain any = absurd (omega (arith, any))
  open_reader-groups ([] ∷ gs) e good readable file plain any =
      absurd (omega (arith, good.0.nonempty))
  open_reader-groups ((b ∷ bs) ∷ gs) e good readable file plain any =
      let groups = (b ∷ bs) ∷ gs in
      let items = items_of lru fl level laws groups in
      let c : Cursor = record { bytes = groups_bytes fl level laws groups; pos = 0 } in
      let (index, built, is) = build-groups fl level laws c groups e good refl file plain in
      let (rest, front) = fixed_front fl level laws b bs gs in
      let blocks = bytes_in-items_of lru fl level laws groups in
      let size : length (flatten groups) ≡ length (blocks_in items) =
        sym (ap length blocks) ∙ length-bytes_in (blocks_in items) in
      (
        index,
        open_reader_lem lru (file_of (groups_bytes fl level laws groups)) rest index front built,
        record {
          items = items;
          file = record {
            whole = sym (items_of-groups_bytes lru fl level laws groups);
            empty = e;
            readable = items_of-IsReadable lru fl level laws groups readable;
            offsets = is.c_offsets ∙ sym (item_places-places lru fl level laws 0 groups);
            count = is.count ∙ size;
          };
          plain = blocks;
          u_offsets = is.u_offsets;
        },
      )

  -- What the configuration and the data have to keep for the data to be read back.
  pub record IsReadBack (cfg : PgzfConfig) (bytes : List ℕ) : Type 0 where
    pub narrow : 12 + cfg.group_blocks * 8 < 2 ^ 16
    pub empty : EmptyIsSmall fl level laws
    pub readable : All (IsReadableData lru fl level laws) (chunks_of cfg.block_size bytes)
    pub plain : length bytes < 2 ^ 64
    pub file : length (data_file fl level laws cfg bytes) < 2 ^ 64
    pub any : 0 < length bytes

  -- The layout of the data is opened, wherever the file stands.
  pub open_reader-data_file :
      (cfg : PgzfConfig) (bytes : List ℕ) (n : ℕ)
      → IsWritable level cfg
      → IsReadBack cfg bytes
      → (index : PgzfIndex) × (open_reader lru
            (record { bytes = data_file fl level laws cfg bytes; pos = n })
          ≡ ok (
              opened lru
                (record { bytes = data_file fl level laws cfg bytes; pos = 0 })
                true
                (some index)))
        × HoldsBlocks (data_file fl level laws cfg bytes) index (chunks_of cfg.block_size bytes)
  unfolding open_reader inspect
  open_reader-data_file cfg bytes n good h =
      let blocks = chunks_of cfg.block_size bytes in
      let gs = groups_of fl level laws cfg bytes in
      let P = IsReadableData lru fl level laws in
      let joined : flatten gs ≡ blocks =
        flatten-chunks (List ℕ) (length blocks) cfg.group_blocks blocks good.group (omega arith) in
      let whole : flatten (flatten gs) ≡ bytes =
        ap flatten joined
        ∙ flatten-chunks ℕ (length bytes) cfg.block_size bytes good.block (omega arith) in
      let small =
        All-implied P (IsSmall fl level laws) blocks
          (λ x p. record { compressed = omega (arith, p.compressed); plain = p.plain })
          h.readable in
      let groups =
        All-implied (IsChunk P cfg.group_blocks) (IsReadableGroup lru fl level laws) gs
          (λ g c. record { narrow = omega (arith, c.short, h.narrow); blocks = c.elements })
          (chunks-IsChunk P (length blocks) cfg.group_blocks blocks good.group h.readable) in
      let (index, opens, holds) =
        open_reader-groups gs h.empty
          (chunks-IsIndexable fl level laws (length blocks) cfg.group_blocks blocks good.group
            h.narrow small)
          groups h.file (omega (arith, ap length whole, h.plain))
          (omega (arith, ap length whole, h.any)) in
      (index, opens, subst (HoldsBlocks (groups_bytes fl level laws gs) index) joined holds)

  -- A file shorter than 2^64 has fewer than 2^61 blocks.
  pub few_blocks :
      (cfg : PgzfConfig) (bytes : List ℕ)
      → IsWritable level cfg
      → IsReadBack cfg bytes
      → length (chunks_of cfg.block_size bytes) * 8 < 2 ^ 64
  few_blocks cfg bytes good h =
      let (index, opens, holds) = open_reader-data_file cfg bytes 0 good h in
      omega (
        arith,
        h.file,
        ap length holds.file.whole,
        items_bytes-long lru fl level laws holds.items holds.file.readable,
        length-blocks_in holds.items,
        length-bytes_in (blocks_in holds.items),
        ap length holds.plain,
      )

  module _ (ray : Rayon) (rlaws : RayonLaws ray) where
    -- A file of the writer is opened.
    pub open_reader-finish :
        (cfg : PgzfConfig) (bufs : List (List ℕ))
        → IsWritable level cfg
        → IsReadBack cfg (flatten bufs)
        → (c : Cursor) × (index : PgzfIndex) × (finish fl ray
              (write_each fl ray bufs (with_config (file_of []) cfg)).1
            ≡ ok c)
          × (open_reader lru c ≡ ok (opened lru (record c { pos = 0 }) true (some index)))
          × HoldsBlocks c.bytes index (chunks_of cfg.block_size (flatten bufs))
    open_reader-finish cfg bufs good h =
        let c = file_of (data_file fl level laws cfg (flatten bufs)) in
        let (index, opens, holds) = open_reader-data_file cfg (flatten bufs) c.pos good h in
        (
          c,
          index,
          (write_each-finish fl ray level laws rlaws (file_of []) cfg bufs good refl h.file).1,
          opens,
          holds,
        )
