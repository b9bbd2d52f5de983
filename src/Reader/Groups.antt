-- ===== src/Reader/Groups.antt =====
-- The groups of the writer as runs of blocks.
use pgzf_rs.Prelude.{
  ℕ, zero, suc, ◌+◌, ◌*◌, ◌^◌, ◌<◌, ◌≤◌, ◌≡◌, ◌≢◌, refl, sym, ap, ◌∙◌, List, [], ◌∷◌, ◌++◌, arith,
  append_assoc, append-nil,
}
use pgzf_rs.Prelude.Lists.{
  length, take, drop, flatten, replicate, length-append, length-replicate, All, All-append,
}
use pgzf_rs.Format.Header.{beg, dat, idx, build_idx_header}
use pgzf_rs.External.Flate.{Flate}
use pgzf_rs.External.Lru.{LruCache}
use pgzf_rs.BlockCache.{CacheEntry}
use pgzf_rs.Codec.Laws.{FlateLaws, deflated}
use pgzf_rs.Writer.{PendingBlock}
use pgzf_rs.Writer.Layout.{
  gc_of, members, idx_member, idx_zc_of, after_header, beg_header, zc_of, trailer_of,
}
use pgzf_rs.Writer.Plan.{dat_blocks, first_block, group_of, groups_bytes, length-trailer_of}
use pgzf_rs.Index.Exact.{entries_of, length-entries_of}
use pgzf_rs.Reader.Members.{final_header, final_member}
use pgzf_rs.Reader.Items.{Item, block_item, index_item, blocks_in, items_bytes, IsReadable}

blocks_in-append : (is js : List Item) → blocks_in (is ++ js) ≡ blocks_in is ++ blocks_in js
blocks_in-append [] js = refl
blocks_in-append (block_item b gc ∷ is) js = ap (◌∷◌ (b, gc)) (blocks_in-append is js)
blocks_in-append (index_item es ∷ is) js = blocks_in-append is js

-- The data of blocks.
abbrev pub bytes_in : List (PendingBlock × ℕ) → List (List ℕ)
bytes_in [] = []
bytes_in ((b, gc) ∷ blocks) = b.bytes ∷ bytes_in blocks

bytes_in-append :
    (xs ys : List (PendingBlock × ℕ)) → bytes_in (xs ++ ys) ≡ bytes_in xs ++ bytes_in ys
bytes_in-append [] ys = refl
bytes_in-append ((b, gc) ∷ xs) ys = ap (◌∷◌ b.bytes) (bytes_in-append xs ys)

pub length-bytes_in : (l : List (PendingBlock × ℕ)) → length (bytes_in l) ≡ length l
length-bytes_in [] = refl
length-bytes_in ((b, gc) ∷ l) = ap suc (length-bytes_in l)

pub bytes_in-take :
    (n : ℕ) (l : List (PendingBlock × ℕ)) → bytes_in (take n l) ≡ take n (bytes_in l)
bytes_in-take zero l = refl
bytes_in-take (suc n) [] = refl
bytes_in-take (suc n) ((b, gc) ∷ l) = ap (◌∷◌ b.bytes) (bytes_in-take n l)

pub bytes_in-drop :
    (n : ℕ) (l : List (PendingBlock × ℕ)) → bytes_in (drop n l) ≡ drop n (bytes_in l)
bytes_in-drop zero l = refl
bytes_in-drop (suc n) [] = refl
bytes_in-drop (suc n) ((b, gc) ∷ l) = bytes_in-drop n l

abbrev pub data_items : List (List ℕ) → List Item
data_items [] = []
data_items (b ∷ bs) = block_item (record { bytes = b; block_type = dat }) 0 ∷ data_items bs

bytes_in-data_items : (bs : List (List ℕ)) → bytes_in (blocks_in (data_items bs)) ≡ bs
bytes_in-data_items [] = refl
bytes_in-data_items (b ∷ bs) = ap (◌∷◌ b) (bytes_in-data_items bs)

module _ (lru : LruCache CacheEntry) (fl : Flate) (level : ℕ) (laws : FlateLaws fl level) where
  -- A block that the reader accepts, whatever its type.
  pub record IsReadableData (bytes : List ℕ) : Type 0 where
    pub compressed : 40 + length (deflated fl level laws bytes) ≤ 2 ^ 30
    pub plain : length bytes < 2 ^ 32

  abbrev pub items_of_group : List (List ℕ) → List Item
  items_of_group [] = []
  items_of_group (b ∷ bs) =
      block_item (first_block b) (gc_of (entries_of fl level laws (b ∷ bs)))
      ∷ (data_items bs ++ (index_item (entries_of fl level laws (b ∷ bs)) ∷ []))

  abbrev pub items_of : List (List (List ℕ)) → List Item
  items_of [] = []
  items_of (g ∷ gs) = items_of_group g ++ items_of gs

  pub items_bytes-append :
      (is js : List Item)
      → items_bytes lru fl level laws (is ++ js)
        ≡ items_bytes lru fl level laws is ++ items_bytes lru fl level laws js
  items_bytes-append [] js = refl
  items_bytes-append (block_item b gc ∷ is) js =
      ap (◌++◌ (final_member lru fl level laws b gc)) (items_bytes-append is js)
      ∙ sym (append_assoc (final_member lru fl level laws b gc) _ _)
  items_bytes-append (index_item es ∷ is) js =
      ap (◌++◌ (idx_member fl level laws es)) (items_bytes-append is js)
      ∙ sym (append_assoc (idx_member fl level laws es) _ _)

  data_items-members :
      (bs : List (List ℕ))
      → items_bytes lru fl level laws (data_items bs) ≡ members fl level laws (dat_blocks bs)
  data_items-members [] = refl
  data_items-members (b ∷ bs) =
      ap (◌++◌ (final_member lru fl level laws (record { bytes = b; block_type = dat }) 0))
        (data_items-members bs)

  pub items_of_group-group_of :
      (g : List (List ℕ))
      → items_bytes lru fl level laws (items_of_group g) ≡ group_of fl level laws g
  items_of_group-group_of [] = refl
  items_of_group-group_of (b ∷ bs) =
      let es = entries_of fl level laws (b ∷ bs) in
      let header = beg_header (zc_of fl level laws (first_block b)) (gc_of es) in
      let last = idx_member fl level laws es in
      ap (◌++◌ (final_member lru fl level laws (first_block b) (gc_of es))) (
        items_bytes-append (data_items bs) (index_item es ∷ [])
        ∙ ap (λ (l : List ℕ). l ++ (last ++ [])) (data_items-members bs)
        ∙ ap (◌++◌ (members fl level laws (dat_blocks bs))) (append-nil last))
      ∙ append_assoc header (after_header fl level laws (first_block b)) _

  pub items_of-groups_bytes :
      (gs : List (List (List ℕ)))
      → items_bytes lru fl level laws (items_of gs) ≡ groups_bytes fl level laws gs
  items_of-groups_bytes [] = refl
  items_of-groups_bytes (g ∷ gs) =
      items_bytes-append (items_of_group g) (items_of gs)
      ∙ rw (items_of_group-group_of g, items_of-groups_bytes gs) refl

  bytes_in-group : (g : List (List ℕ)) → bytes_in (blocks_in (items_of_group g)) ≡ g
  bytes_in-group [] = refl
  bytes_in-group (b ∷ bs) = ap (◌∷◌ b) (
      ap bytes_in (blocks_in-append (data_items bs) _ ∙ append-nil (blocks_in (data_items bs)))
      ∙ bytes_in-data_items bs)

  pub bytes_in-items_of :
      (gs : List (List (List ℕ))) → bytes_in (blocks_in (items_of gs)) ≡ flatten gs
  bytes_in-items_of [] = refl
  bytes_in-items_of (g ∷ gs) =
      ap bytes_in (blocks_in-append (items_of_group g) (items_of gs))
      ∙ bytes_in-append (blocks_in (items_of_group g)) (blocks_in (items_of gs))
      ∙ rw (bytes_in-group g, bytes_in-items_of gs) refl

  data_items-IsReadable :
      (bs : List (List ℕ)) → All IsReadableData bs → All (IsReadable fl level laws) (data_items bs)
  data_items-IsReadable [] h = tt
  data_items-IsReadable (b ∷ bs) h = (
    record { data_block = λ e. dat-ne e; small = omega (arith, h.0.compressed); plain = h.0.plain },
    data_items-IsReadable bs h.1,
  )
    where
      dat-ne : dat ≢ idx
      dat-ne e = absurd (cc e)

  items_of_group-IsReadable :
      (g : List (List ℕ))
      → 12 + length g * 8 < 2 ^ 16
      → All IsReadableData g
      → All (IsReadable fl level laws) (items_of_group g)
  items_of_group-IsReadable [] n h = tt
  items_of_group-IsReadable (b ∷ bs) n h =
      let ne : beg ≢ idx = λ e. absurd (cc e) in
      (
        record { data_block = ne; small = omega (arith, h.0.compressed); plain = h.0.plain },
        All-append (IsReadable fl level laws) (data_items bs)
            (index_item (entries_of fl level laws (b ∷ bs)) ∷ []) (data_items-IsReadable bs h.1)
            (omega (arith, n, length-entries_of fl level laws bs), tt),
      )

  -- What the groups have to keep for the reader.
  pub record IsReadableGroup (g : List (List ℕ)) : Type 0 where
    pub narrow : 12 + length g * 8 < 2 ^ 16
    pub blocks : All IsReadableData g

  pub items_of-IsReadable :
      (gs : List (List (List ℕ)))
      → All IsReadableGroup gs
      → All (IsReadable fl level laws) (items_of gs)
  items_of-IsReadable [] h = tt
  items_of-IsReadable (g ∷ gs) h =
      All-append (IsReadable fl level laws) (items_of_group g) (items_of gs)
        (items_of_group-IsReadable g h.0.narrow h.0.blocks) (items_of-IsReadable gs h.1)

  -- Every block takes eight bytes at least.
  pub items_bytes-long :
      (items : List Item)
      → All (IsReadable fl level laws) items
      → length items * 8 ≤ length (items_bytes lru fl level laws items)
  items_bytes-long [] h = omega arith
  items_bytes-long (block_item b gc ∷ items) h =
      let front = final_header b.block_type (zc_of fl level laws b) gc in
      let after = after_header fl level laws b in
      omega (
        arith,
        items_bytes-long items h.1,
        length-append (final_member lru fl level laws b gc) (items_bytes lru fl level laws items),
        length-append front after,
        length-append (deflated fl level laws b.bytes) (trailer_of fl level laws b.bytes),
        length-trailer_of fl level laws b.bytes,
      )
  items_bytes-long (index_item es ∷ items) h =
      let tail = deflated fl level laws [] ++ replicate 8 0 in
      omega (
        arith,
        items_bytes-long items h.1,
        length-append (idx_member fl level laws es) (items_bytes lru fl level laws items),
        length-append (build_idx_header (idx_zc_of fl level laws es) es) tail,
        length-append (deflated fl level laws []) (replicate 8 0),
        length-replicate {A = ℕ} 8 0,
      )
