-- ===== src/Index/Exact.antt =====
-- A group of the writer under `PgzfIndex::build`, where no number wraps.
use pgzf_rs.Prelude.{
  ℕ, suc, ◌+◌, ◌*◌, ◌^◌, ◌<◌, ◌≤◌, ◌≡◌, refl, sym, ap, ◌∙◌, some, List, [], ◌∷◌, ◌++◌, arith,
  append_assoc,
}
use pgzf_rs.Prelude.Lists.{
  length, drop, drop-append, drop-drop, length-append, length-replicate, replicate, All,
}
use pgzf_rs.Prelude.Outcome.{ok}
use pgzf_rs.Cursor.{Cursor, remaining}
use pgzf_rs.Format.Bytes.{IsU32, u16_bytes, u32_bytes}
use pgzf_rs.Format.Header.{IndexEntry, BlockType, build_idx_header, beg, dat, idx}
use pgzf_rs.Format.Layout.{build_idx_header_lem}
use pgzf_rs.Format.RoundTrip.{IsEntry, length-entry_bytes}
use pgzf_rs.External.Flate.{Flate}
use pgzf_rs.Codec.Laws.{FlateLaws, deflated}
use pgzf_rs.Writer.{PendingBlock, header_size}
use pgzf_rs.Writer.Layout.{
  beg_header, gc_of, zc_of, after_header, member, compressed_of, members, entries, idx_zc_of,
  idx_member, trailer_of,
}
use pgzf_rs.Writer.Plan.{
  dat_blocks, first_block, typed, group_of, length-beg_header, length-trailer_of, length-member,
}
use pgzf_rs.Index.Build.{Scan, scan_group, read_group}
use pgzf_rs.Index.Groups.{read_group_lem}

length-build_idx_header :
    (zc : ℕ) (es : List IndexEntry) → length (build_idx_header zc es) ≡ 24 + length es * 8
unfolding u16_bytes u32_bytes
length-build_idx_header zc es =
    omega (arith, ap length (build_idx_header_lem zc es), length-entry_bytes es)

module _ (fl : Flate) (level : ℕ) (laws : FlateLaws fl level) where
  -- The sizes of a block fit in 32 bits.
  pub record IsSmall (bytes : List ℕ) : Type 0 where
    pub compressed : 40 + length (deflated fl level laws bytes) < 2 ^ 32
    pub plain : length bytes < 2 ^ 32

  -- A group whose index fits in the extra field of its IDX block.
  pub record IsIndexable (g : List (List ℕ)) : Type 0 where
    pub nonempty : 0 < length g
    pub narrow : 12 + length g * 8 < 2 ^ 16
    pub small : All IsSmall g

  abbrev pub entries_of : List (List ℕ) → List IndexEntry
  entries_of g = entries fl level laws (typed g)

  abbrev pub idx_size : List (List ℕ) → ℕ
  idx_size g = idx_zc_of fl level laws (entries_of g)

  header_size-le : (t : BlockType) → header_size t ≤ 32
  header_size-le beg = omega arith
  header_size-le dat = omega arith
  header_size-le idx = omega arith

  zc_exact :
      (b : PendingBlock)
      → IsSmall b.bytes
      → zc_of fl level laws b ≡ length (member fl level laws (compressed_of fl level laws b))
  zc_exact b h =
      omega (arith, length-member fl level laws b, h.compressed, header_size-le b.block_type)

  gc_exact :
      (bs : List (List ℕ))
      → All IsSmall bs
      → gc_of (entries fl level laws (dat_blocks bs))
        ≡ length (members fl level laws (dat_blocks bs))
  gc_exact [] h = refl
  gc_exact (b ∷ bs) h =
      let block : PendingBlock = record { bytes = b; block_type = dat } in
      omega (
        arith,
        zc_exact block h.0,
        gc_exact bs h.1,
        length-append (member fl level laws (compressed_of fl level laws block))
            (members fl level laws (dat_blocks bs)),
      )

  entries-IsEntry : (bs : List PendingBlock) → All IsEntry (entries fl level laws bs)
  entries-IsEntry [] = tt
  entries-IsEntry (b ∷ bs) = (
    record { compressed_fits = omega arith; uncompressed_fits = omega arith },
    entries-IsEntry bs,
  )

  pub length-entries_of :
      (bs : List (List ℕ)) → length (entries fl level laws (dat_blocks bs)) ≡ length bs
  length-entries_of [] = refl
  length-entries_of (b ∷ bs) = ap suc (length-entries_of bs)

  -- The group before its IDX block.
  abbrev front_of : List ℕ → List (List ℕ) → List ℕ
  front_of b bs =
      beg_header (zc_of fl level laws (first_block b)) (gc_of (entries_of (b ∷ bs)))
      ++ (after_header fl level laws (first_block b) ++ members fl level laws (dat_blocks bs))

  length-front_of :
      (b : List ℕ) (bs : List (List ℕ))
      → All IsSmall (b ∷ bs)
      → length (front_of b bs) ≡ gc_of (entries_of (b ∷ bs))
  length-front_of b bs h =
      let first = first_block b in
      let header = beg_header (zc_of fl level laws first) (gc_of (entries_of (b ∷ bs))) in
      omega (
        arith,
        length-append header
            (after_header fl level laws first ++ members fl level laws (dat_blocks bs)),
        length-append (after_header fl level laws first) (members fl level laws (dat_blocks bs)),
        length-append (deflated fl level laws b) (trailer_of fl level laws b),
        length-trailer_of fl level laws b,
        length-beg_header (zc_of fl level laws first) (gc_of (entries_of (b ∷ bs))),
        zc_exact first h.0,
        length-member fl level laws first,
        gc_exact bs h.1,
      )

  group_of-front :
      (b : List ℕ) (bs : List (List ℕ))
      → group_of fl level laws (b ∷ bs)
        ≡ front_of b bs ++ idx_member fl level laws (entries_of (b ∷ bs))
  group_of-front b bs =
      let first = first_block b in
      let header = beg_header (zc_of fl level laws first) (gc_of (entries_of (b ∷ bs))) in
      let last = idx_member fl level laws (entries_of (b ∷ bs)) in
      sym (
        append_assoc header
          (after_header fl level laws first ++ members fl level laws (dat_blocks bs)) last
        ∙ ap (◌++◌ header) (
            append_assoc (after_header fl level laws first) (members fl level laws (dat_blocks bs))
              last))

  abbrev pub EmptyIsSmall : Type 0
  EmptyIsSmall = length (deflated fl level laws []) < 2 ^ 29

  length-idx_member :
      (g : List (List ℕ))
      → EmptyIsSmall
      → 12 + length g * 8 < 2 ^ 16
      → length (entries_of g) ≡ length g
      → (length (idx_member fl level laws (entries_of g)) ≡ idx_size g) × IsU32 (idx_size g)
  length-idx_member g e n same =
      let es = entries_of g in
      let tail = deflated fl level laws [] ++ replicate 8 0 in
      let whole = length-append (build_idx_header (idx_size g) es) tail in
      let behind = length-append (deflated fl level laws []) (replicate 8 0) in
      (
        omega (
          arith,
          whole,
          behind,
          length-build_idx_header (idx_size g) es,
          length-replicate {A = ℕ} 8 0,
        ),
        omega arith,
      )

  -- The size of a group is what `build` adds up for it.
  pub length-group_of :
      (b : List ℕ) (bs : List (List ℕ))
      → EmptyIsSmall
      → IsIndexable (b ∷ bs)
      → length (group_of fl level laws (b ∷ bs)) ≡ gc_of (entries_of (b ∷ bs)) + idx_size (b ∷ bs)
  length-group_of b bs e h = omega (
    arith,
    ap length (group_of-front b bs),
    length-append (front_of b bs) (idx_member fl level laws (entries_of (b ∷ bs))),
    length-front_of b bs h.small,
    (length-idx_member (b ∷ bs) e h.narrow (ap suc (length-entries_of bs))).0,
  )

  pub read_group-group_of :
      (s : Scan) (c : Cursor) (b : List ℕ) (bs : List (List ℕ)) (rest : List ℕ)
      → EmptyIsSmall
      → IsIndexable (b ∷ bs)
      → remaining c ≡ group_of fl level laws (b ∷ bs) ++ rest
      → c.pos + length (group_of fl level laws (b ∷ bs)) < 2 ^ 64
      → read_group s c ≡ (
        ok (some (scan_group s (entries_of (b ∷ bs)) (idx_size (b ∷ bs)))),
        record c { pos = c.pos + length (group_of fl level laws (b ∷ bs)) },
      )
  read_group-group_of s c b bs rest e g h fits =
      let es = entries_of (b ∷ bs) in
      let first = first_block b in
      let header = beg_header (zc_of fl level laws first) (gc_of es) in
      let same : length es ≡ length (b ∷ bs) = ap suc (length-entries_of bs) in
      let (exact, small) = length-idx_member (b ∷ bs) e g.narrow same in
      let tail = deflated fl level laws [] ++ replicate 8 0 in
      let size = length-group_of b bs e g in
      let some_bytes : 0 < gc_of es =
        omega (arith, zc_exact first g.small.0, length-member fl level laws first) in
      let there : drop (c.pos + gc_of es) c.bytes
          ≡ build_idx_header (idx_size (b ∷ bs)) es ++ (tail ++ rest) =
        sym (drop-drop (gc_of es) c.pos c.bytes)
        ∙ ap (drop (gc_of es)) (
            h
            ∙ ap (λ (l : List ℕ). l ++ rest) (group_of-front b bs)
            ∙ append_assoc (front_of b bs) (idx_member fl level laws es) rest)
        ∙ drop-append (gc_of es) (front_of b bs) (idx_member fl level laws es ++ rest)
            (length-front_of b bs g.small)
        ∙ append_assoc (build_idx_header (idx_size (b ∷ bs)) es) tail rest in
      read_group_lem s c (zc_of fl level laws first) (gc_of es) (idx_size (b ∷ bs))
        (c.pos + gc_of es) (c.pos + gc_of es + idx_size (b ∷ bs)) es _ (tail ++ rest)
        (h ∙ append_assoc header _ rest) (omega (arith, size, fits)) (omega (arith, some_bytes))
        (omega (arith, size, fits)) there small (omega (arith, same, g.narrow))
        (entries-IsEntry (typed (b ∷ bs))) (omega (arith, size, fits))
      ∙ ap (λ (n : ℕ). (ok (some (scan_group s es (idx_size (b ∷ bs)))), record c { pos = n }))
          (omega (arith, size))
