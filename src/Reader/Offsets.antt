-- ===== src/Reader/Offsets.antt =====
-- The offsets of a file's index are the places of its items.
use pgzf_rs.Prelude.{ℕ, ◌+◌, ◌≡◌, refl, ap, ◌∙◌, List, [], ◌∷◌, ◌++◌, arith, append_assoc}
use pgzf_rs.Prelude.Lists.{length, length-append}
use pgzf_rs.External.Flate.{Flate}
use pgzf_rs.External.Lru.{LruCache}
use pgzf_rs.BlockCache.{CacheEntry}
use pgzf_rs.Codec.Laws.{FlateLaws, deflated}
use pgzf_rs.Format.Bytes.{u16_bytes, u32_bytes}
use pgzf_rs.Format.Header.{dat, build_dat_header}
use pgzf_rs.Writer.Layout.{gc_of, idx_member, zc_of, after_header, trailer_of, beg_header}
use pgzf_rs.Writer.Plan.{group_of, first_block, length-trailer_of, length-beg_header}
use pgzf_rs.Index.Exact.{entries_of}
use pgzf_rs.Index.Places.{starts}
use pgzf_rs.Index.Sums.{places, dat_sizes, sizes_of}
use pgzf_rs.Reader.Members.{final_member}
use pgzf_rs.Reader.Items.{Item, index_item, items_bytes}
use pgzf_rs.Reader.Groups.{
  items_of, items_of_group, data_items, items_of_group-group_of, items_bytes-append,
}
use pgzf_rs.Reader.Places.{item_places}

length-build_dat_header : (zc : ℕ) → length (build_dat_header zc) ≡ 20
unfolding build_dat_header u16_bytes u32_bytes
length-build_dat_header zc = refl

module _ (lru : LruCache CacheEntry) (fl : Flate) (level : ℕ) (laws : FlateLaws fl level) where
  length-after_header :
      (b : List ℕ)
      → length (after_header fl level laws (first_block b)) ≡ length (deflated fl level laws b) + 8
  length-after_header b = omega (
    arith,
    length-append (deflated fl level laws b) (trailer_of fl level laws b),
    length-trailer_of fl level laws b,
  )

  length-dat_member :
      (b : List ℕ)
      → length (final_member lru fl level laws (record { bytes = b; block_type = dat }) 0)
        ≡ 20 + length (deflated fl level laws b) + 8
  length-dat_member b =
      let header =
        build_dat_header (zc_of fl level laws (record { bytes = b; block_type = dat })) in
      omega (
        arith,
        length-append header (after_header fl level laws (first_block b)),
        length-build_dat_header (zc_of fl level laws (record { bytes = b; block_type = dat })),
        length-after_header b,
      )

  length-beg_member :
      (b : List ℕ) (gc : ℕ)
      → length (final_member lru fl level laws (first_block b) gc)
        ≡ 32 + length (deflated fl level laws b) + 8
  length-beg_member b gc =
      let header = beg_header (zc_of fl level laws (first_block b)) gc in
      omega (
        arith,
        length-append header (after_header fl level laws (first_block b)),
        length-beg_header (zc_of fl level laws (first_block b)) gc,
        length-after_header b,
      )

  data_places :
      (n : ℕ) (bs : List (List ℕ)) (items : List Item)
      → item_places lru fl level laws n (data_items bs ++ items)
        ≡ starts n (dat_sizes fl level laws bs)
          ++ item_places lru fl level laws
              (n + length (items_bytes lru fl level laws (data_items bs)))
              items
  data_places n [] items = ap (λ (m : ℕ). item_places lru fl level laws m items) (omega arith)
  data_places n (b ∷ bs) items =
      let front = final_member lru fl level laws (record { bytes = b; block_type = dat }) 0 in
      let more = items_bytes lru fl level laws (data_items bs) in
      ap (◌∷◌ n) (
        data_places (n + length front) bs items ∙ (λ i.
          starts (n + length-dat_member b i) (dat_sizes fl level laws bs)
          ++ item_places lru fl level laws
              (sums (length front) (length more) n (length-append front more) i) items))
    where
      sums : (x y n : ℕ) {z : ℕ} → z ≡ x + y → n + x + y ≡ n + z
      sums x y n e = omega (arith, e)

  group_places :
      (n : ℕ) (g : List (List ℕ)) (items : List Item)
      → item_places lru fl level laws n (items_of_group lru fl level laws g ++ items)
        ≡ starts n (sizes_of fl level laws g)
          ++ item_places lru fl level laws (n + length (group_of fl level laws g)) items
  group_places n [] items = ap (λ (m : ℕ). item_places lru fl level laws m items) (omega arith)
  group_places n (b ∷ bs) items =
      let es = entries_of fl level laws (b ∷ bs) in
      let first = final_member lru fl level laws (first_block b) (gc_of es) in
      let last = idx_member fl level laws es in
      let middle = items_bytes lru fl level laws (data_items bs) in
      let total : n + length first + length middle + length last
          ≡ n + length (group_of fl level laws (b ∷ bs)) =
        omega (
          arith,
          ap length (items_of_group-group_of lru fl level laws (b ∷ bs)),
          length-append first
              (items_bytes lru fl level laws (data_items bs ++ (index_item es ∷ []))),
          ap length (items_bytes-append lru fl level laws (data_items bs) (index_item es ∷ [])),
          length-append middle (last ++ []),
          length-append {A = ℕ} last [],
        ) in
      ap (◌∷◌ n) (
        ap (item_places lru fl level laws (n + length first))
          (append_assoc (data_items bs) (index_item es ∷ []) items)
        ∙ data_places (n + length first) bs (index_item es ∷ items)
        ∙ (λ i.
            starts (n + length-beg_member b (gc_of es) i) (dat_sizes fl level laws bs)
            ++ item_places lru fl level laws (total i) items))

  -- The offsets that the index has for the blocks of some groups.
  pub item_places-places :
      (n : ℕ) (gs : List (List (List ℕ)))
      → item_places lru fl level laws n (items_of lru fl level laws gs) ≡ places fl level laws n gs
  item_places-places n [] = refl
  item_places-places n (g ∷ gs) =
      group_places n g (items_of lru fl level laws gs)
      ∙ ap (◌++◌ (starts n (sizes_of fl level laws g)))
          (item_places-places (n + length (group_of fl level laws g)) gs)
