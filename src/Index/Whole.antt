-- ===== src/Index/Whole.antt =====
-- `PgzfIndex::build` on a whole file of the writer.
use pgzf_rs.Prelude.{
  ℕ, zero, suc, ◌+◌, ◌^◌, ◌<◌, ◌≤◌, ◌≡◌, refl, sym, ap, ◌∙◌, none, List, [], ◌∷◌, ◌++◌, arith, map,
}
use pgzf_rs.Prelude.Lists.{length, sum, drop, drop-append, drop-drop, flatten, length-append, All}
use pgzf_rs.Prelude.Outcome.{ok}
use pgzf_rs.Cursor.{Cursor, remaining}
use pgzf_rs.Cursor.Laws.{read_exact_short}
use pgzf_rs.External.Flate.{Flate}
use pgzf_rs.Codec.Laws.{FlateLaws}
use pgzf_rs.Writer.Plan.{group_of, groups_bytes, group_of-bounds}
use pgzf_rs.Index.{block_count}
use pgzf_rs.Index.Types.{PgzfIndex}
use pgzf_rs.Index.Build.{Scan, scan_start, read_group, build_loop, index_of, build}
use pgzf_rs.Index.Exact.{IsIndexable, EmptyIsSmall, read_group-group_of}
use pgzf_rs.Index.Places.{starts}
use pgzf_rs.Index.Sums.{
  places, AddsAll, AddsAll-nil, AddsAll-cons, Room, Room-cons, group_lem, length-sizes_of,
}

-- At the end of the file there is no further group.
read_group_end :
    (s : Scan) (c : Cursor)
    → remaining c ≡ []
    → read_group s c ≡ (ok none, record c { pos = length c.bytes })
unfolding read_group
read_group_end s c h = rw (read_exact_short c 32 (omega (arith, ap length h))) refl

module _ (fl : Flate) (level : ℕ) (laws : FlateLaws fl level) where
  build_loop-groups :
      (fuel : ℕ) (s : Scan) (c : Cursor) (gs : List (List (List ℕ)))
      → EmptyIsSmall fl level laws
      → All (IsIndexable fl level laws) gs
      → length gs < fuel
      → remaining c ≡ groups_bytes fl level laws gs
      → Room fl level laws s c gs
      → (s' : Scan) × (build_loop fuel s c ≡ (ok s', record c { pos = length c.bytes }))
        × AddsAll fl level laws s s' gs
  unfolding build_loop
  build_loop-groups zero s c gs e good enough h room = absurd (omega arith)
  build_loop-groups (suc fuel) s c [] e good enough h room =
      (s, rw (read_group_end s c h) refl, AddsAll-nil fl level laws s)
  build_loop-groups (suc fuel) s c ([] ∷ gs) e good enough h room =
      absurd (omega (arith, good.0.nonempty))
  build_loop-groups (suc fuel) s c ((b ∷ bs) ∷ gs) e good enough h room =
      let g = group_of fl level laws (b ∷ bs) in
      let (s1, same, a, sum) = group_lem fl level laws s c b bs gs e good.0 room in
      let c1 : Cursor = record c { pos = c.pos + length g } in
      let front =
        read_group-group_of fl level laws s c b bs (groups_bytes fl level laws gs) e good.0 h
          (omega (arith, room.file, length-append g (groups_bytes fl level laws gs))) in
      let behind : remaining c1 ≡ groups_bytes fl level laws gs =
        sym (drop-drop (length g) c.pos c.bytes)
        ∙ ap (drop (length g)) h
        ∙ drop-append (length g) g _ refl in
      let (s', r, all) =
        build_loop-groups fuel s1 c1 gs e good.1 (omega arith) behind
          (Room-cons fl level laws s s1 c b bs gs room a sum) in
      (
        s',
        rw (front, sym same) r,
        AddsAll-cons fl level laws s s1 s' b bs gs a sum (length-sizes_of fl level laws b bs) all,
      )

  groups_bytes-long :
      (gs : List (List (List ℕ)))
      → All (IsIndexable fl level laws) gs
      → length gs ≤ length (groups_bytes fl level laws gs)
  groups_bytes-long [] h = omega arith
  groups_bytes-long ([] ∷ gs) h = absurd (omega (arith, h.0.nonempty))
  groups_bytes-long ((b ∷ bs) ∷ gs) h = omega (
    arith,
    groups_bytes-long gs h.1,
    (group_of-bounds fl level laws b bs).1,
    length-append (group_of fl level laws (b ∷ bs)) (groups_bytes fl level laws gs),
  )

  -- The index that a file of these groups should have.
  pub record IsIndexOf (index : PgzfIndex) (gs : List (List (List ℕ))) : Type 0 where
    pub c_offsets : index.compressed_offsets ≡ places fl level laws 0 gs
    pub u_offsets :
        index.uncompressed_offsets
        ≡ starts 0 (map length (flatten gs)) ++ (length (flatten (flatten gs)) ∷ [])
    pub groups : index.group_count ≡ length gs
    pub count : block_count index ≡ length (flatten gs)

  -- Under the laws of flate2 at the level of the deflate streams: on a file that is the layout of
  -- some groups, each of them not empty, of at most 8190 blocks whose sizes fit in 32 bits, where
  -- an empty deflate stream is shorter than 2^29 and the file and its data are shorter than 2^64:
  -- `build`, wherever the file stands, ends and succeeds with the file at its end; the index has
  -- the place of each block in the file and the end of the file, the place of each block in the
  -- data and the length of the data, and as many groups and blocks as there are.
  pub build-groups :
      (c : Cursor) (gs : List (List (List ℕ)))
      → EmptyIsSmall fl level laws
      → All (IsIndexable fl level laws) gs
      → c.bytes ≡ groups_bytes fl level laws gs
      → length c.bytes < 2 ^ 64
      → length (flatten (flatten gs)) < 2 ^ 64
      → (index : PgzfIndex) × (build c ≡ (ok index, record c { pos = length c.bytes }))
        × IsIndexOf index gs
  unfolding build
  build-groups c gs e good h file plain =
      let c0 : Cursor = record c { pos = 0 } in
      let size = ap length h in
      let many = groups_bytes-long gs good in
      let room : Room fl level laws scan_start c0 gs = record {
        file = omega (arith, size, file);
        compressed = omega (arith, size, file);
        plain = omega (arith, plain);
        groups = omega (arith, size, many, file);
      } in
      let (s', r, a) =
        build_loop-groups (length c.bytes + 1) scan_start c0 gs e good (omega (arith, size, many)) h
          room in
      (
        index_of s',
        rw r refl,
        record {
          c_offsets = a.c_offsets;
          u_offsets =
              a.u_offsets
              ∙ ap (λ (n : ℕ). starts 0 (map length (flatten gs)) ++ (n ∷ [])) (omega arith);
          groups = omega (arith, a.groups);
          count = omega (arith, a.count);
        },
      )
