-- ===== src/Index/Sums.antt =====
-- What `PgzfIndex::build` has collected behind some groups of the writer.
use pgzf_rs.Prelude.{
  ℕ, suc, ◌+◌, ◌^◌, ◌<◌, ◌≡◌, refl, sym, ap, subst, ◌∙◌, List, [], ◌∷◌, ◌++◌, arith, map,
  append_assoc,
}
use pgzf_rs.Prelude.Lists.{length, sum, flatten, flatten-append, length-append, All}
use pgzf_rs.Cursor.{Cursor}
use pgzf_rs.Format.Bytes.{as_u32}
use pgzf_rs.Format.Header.{IndexEntry}
use pgzf_rs.External.Flate.{Flate}
use pgzf_rs.Codec.Laws.{FlateLaws, deflated}
use pgzf_rs.Writer.Layout.{entries, gc_of}
use pgzf_rs.Writer.Plan.{dat_blocks, group_of, groups_bytes}
use pgzf_rs.Index.Build.{Scan, scan_group}
use pgzf_rs.Index.Exact.{IsSmall, IsIndexable, EmptyIsSmall, entries_of, idx_size, length-group_of}
use pgzf_rs.Index.Places.{
  starts, starts-append, compressed_sizes, plain_sizes, AddsGroup, scan_group-AddsGroup,
}

sum-lengths : (xss : List (List ℕ)) → sum (map length xss) ≡ length (flatten xss)
sum-lengths [] = refl
sum-lengths (xs ∷ xss) = omega (arith, sum-lengths xss, length-append xs (flatten xss))

lengths-append :
    (xss yss : List (List ℕ)) → map length (xss ++ yss) ≡ map length xss ++ map length yss
lengths-append [] yss = refl
lengths-append (xs ∷ xss) yss = ap (◌∷◌ (length xs)) (lengths-append xss yss)

module _ (fl : Flate) (level : ℕ) (laws : FlateLaws fl level) where
  -- What the blocks of a group take in the file.
  abbrev pub dat_sizes : List (List ℕ) → List ℕ
  dat_sizes [] = []
  dat_sizes (b ∷ bs) = (20 + length (deflated fl level laws b) + 8) ∷ dat_sizes bs

  abbrev pub sizes_of : List (List ℕ) → List ℕ
  sizes_of [] = []
  sizes_of (b ∷ bs) = (32 + length (deflated fl level laws b) + 8) ∷ dat_sizes bs

  -- Where the blocks of these groups begin in the file, and at last where the groups end.
  abbrev pub places : ℕ → List (List (List ℕ)) → List ℕ
  places n [] = n ∷ []
  places n (g ∷ gs) = starts n (sizes_of g) ++ places (n + length (group_of fl level laws g)) gs

  dat_sizes_lem :
      (bs : List (List ℕ))
      → All (IsSmall fl level laws) bs
      → (compressed_sizes (entries fl level laws (dat_blocks bs)) ≡ dat_sizes bs)
        × (plain_sizes (entries fl level laws (dat_blocks bs)) ≡ map length bs)
  dat_sizes_lem [] h = (refl, refl)
  dat_sizes_lem (b ∷ bs) h =
      let (c, p) = dat_sizes_lem bs h.1 in
      let zc : as_u32 (20 + length (deflated fl level laws b) + 8)
          ≡ 20 + length (deflated fl level laws b) + 8 =
        omega (arith, h.0.compressed) in
      let size : as_u32 (length b) ≡ length b = omega (arith, h.0.plain) in
      (rw (zc, c), rw (size, p))

  sizes_lem :
      (b : List ℕ) (bs : List (List ℕ))
      → All (IsSmall fl level laws) (b ∷ bs)
      → (compressed_sizes (entries_of fl level laws (b ∷ bs)) ≡ sizes_of (b ∷ bs))
        × (plain_sizes (entries_of fl level laws (b ∷ bs)) ≡ map length (b ∷ bs))
  sizes_lem b bs h =
      let (c, p) = dat_sizes_lem bs h.1 in
      let zc : as_u32 (32 + length (deflated fl level laws b) + 8)
          ≡ 32 + length (deflated fl level laws b) + 8 =
        omega (arith, h.0.compressed) in
      let size : as_u32 (length b) ≡ length b = omega (arith, h.0.plain) in
      (rw (zc, c), rw (size, p))

  -- The local variables of `build` behind these groups.
  pub record AddsAll (s s' : Scan) (gs : List (List (List ℕ))) : Type 0 where
    pub c_offsets :
        s'.compressed_offsets ++ (s'.cum_c ∷ []) ≡ s.compressed_offsets ++ places s.cum_c gs
    pub u_offsets :
        s'.uncompressed_offsets ++ (s'.cum_u ∷ [])
        ≡ s.uncompressed_offsets
          ++ (starts s.cum_u (map length (flatten gs))
              ++ ((s.cum_u + length (flatten (flatten gs))) ∷ []))
    pub groups : s'.group_count ≡ s.group_count + length gs
    pub count : length s'.blocks ≡ length s.blocks + length (flatten gs)

  pub AddsAll-nil : (s : Scan) → AddsAll s s []
  AddsAll-nil s = record {
    c_offsets = refl;
    u_offsets = ap (λ (n : ℕ). s.uncompressed_offsets ++ (n ∷ [])) (omega arith);
    groups = omega arith;
    count = omega arith;
  }

  sum-compressed_sizes : (es : List IndexEntry) → sum (compressed_sizes es) ≡ gc_of es
  sum-compressed_sizes [] = refl
  sum-compressed_sizes (e ∷ es) = ap (◌+◌ e.compressed_size) (sum-compressed_sizes es)

  -- One group in front of others.
  pub AddsAll-cons :
      (s s1 s' : Scan) (b : List ℕ) (bs : List (List ℕ)) (gs : List (List (List ℕ)))
      → AddsGroup s s1 (sizes_of (b ∷ bs)) (map length (b ∷ bs)) (idx_size fl level laws (b ∷ bs))
      → s1.cum_c ≡ s.cum_c + length (group_of fl level laws (b ∷ bs))
      → length (sizes_of (b ∷ bs)) ≡ length (b ∷ bs)
      → AddsAll s1 s' gs
      → AddsAll s s' ((b ∷ bs) ∷ gs)
  AddsAll-cons s s1 s' b bs gs a c n h =
      let g = b ∷ bs in
      let lens = map length (flatten gs) in
      let u : starts s.cum_u (map length (g ++ flatten gs))
          ≡ starts s.cum_u (map length g) ++ starts s1.cum_u lens =
        ap (starts s.cum_u) (lengths-append g (flatten gs))
        ∙ starts-append s.cum_u (map length g) lens
        ∙ ap (λ (m : ℕ). starts s.cum_u (map length g) ++ starts m lens) (sym a.u_sum) in
      let total : s1.cum_u + length (flatten (flatten gs))
          ≡ s.cum_u + length (flatten (g ++ flatten gs)) =
        omega (
          arith,
          a.u_sum,
          sum-lengths g,
          ap length (flatten-append g (flatten gs)),
          length-append (flatten g) (flatten (flatten gs)),
        ) in
      record {
        c_offsets =
            h.c_offsets
            ∙ rw (a.c_offsets, c)
                (append_assoc s.compressed_offsets (starts s.cum_c (sizes_of g)) _);
        u_offsets =
            h.u_offsets
            ∙ rw (a.u_offsets, total)
                (append_assoc s.uncompressed_offsets (starts s.cum_u (map length g)) _
                  ∙ ap (◌++◌ s.uncompressed_offsets) (
                      sym (append_assoc (starts s.cum_u (map length g)) (starts s1.cum_u lens) _)
                      ∙ ap
                          (λ (l : List ℕ).
                            l ++ ((s.cum_u + length (flatten (g ++ flatten gs))) ∷ []))
                          (sym u)));
        groups = omega (arith, h.groups, a.groups);
        count = omega (arith, h.count, a.count, n, length-append g (flatten gs));
      }

  pub length-sizes_of :
      (b : List ℕ) (bs : List (List ℕ)) → length (sizes_of (b ∷ bs)) ≡ length (b ∷ bs)
  length-sizes_of b bs = ap suc (dat_lem bs)
    where
      dat_lem : (bs : List (List ℕ)) → length (dat_sizes bs) ≡ length bs
      dat_lem [] = refl
      dat_lem (b ∷ bs) = ap suc (dat_lem bs)

  -- No sum of `build` wraps.
  pub record Room (s : Scan) (c : Cursor) (gs : List (List (List ℕ))) : Type 0 where
    pub file : c.pos + length (groups_bytes fl level laws gs) < 2 ^ 64
    pub compressed : s.cum_c + length (groups_bytes fl level laws gs) < 2 ^ 64
    pub plain : s.cum_u + length (flatten (flatten gs)) < 2 ^ 64
    pub groups : s.group_count + length gs < 2 ^ 64

  pub Room-cons :
      (s s1 : Scan) (c : Cursor) (b : List ℕ) (bs : List (List ℕ)) (gs : List (List (List ℕ)))
      → Room s c ((b ∷ bs) ∷ gs)
      → AddsGroup s s1 (sizes_of (b ∷ bs)) (map length (b ∷ bs)) (idx_size fl level laws (b ∷ bs))
      → s1.cum_c ≡ s.cum_c + length (group_of fl level laws (b ∷ bs))
      → Room s1 (record c { pos = c.pos + length (group_of fl level laws (b ∷ bs)) }) gs
  Room-cons s s1 c b bs gs h a e =
      let g = group_of fl level laws (b ∷ bs) in
      let size = length-append g (groups_bytes fl level laws gs) in
      record {
        file = omega (arith, h.file, size);
        compressed = omega (arith, h.compressed, size, e);
        plain = omega (
          arith,
          h.plain,
          a.u_sum,
          sum-lengths (b ∷ bs),
          ap length (flatten-append (b ∷ bs) (flatten gs)),
          length-append (flatten (b ∷ bs)) (flatten (flatten gs)),
        );
        groups = omega (arith, h.groups, a.groups);
      }

  pub group_lem :
      (s : Scan) (c : Cursor) (b : List ℕ) (bs : List (List ℕ)) (gs : List (List (List ℕ)))
      → EmptyIsSmall fl level laws
      → IsIndexable fl level laws (b ∷ bs)
      → Room s c ((b ∷ bs) ∷ gs)
      → (s1 : Scan) × (s1
          ≡ scan_group s (entries_of fl level laws (b ∷ bs)) (idx_size fl level laws (b ∷ bs)))
        × AddsGroup s s1 (sizes_of (b ∷ bs)) (map length (b ∷ bs)) (idx_size fl level laws (b ∷ bs))
        × (s1.cum_c ≡ s.cum_c + length (group_of fl level laws (b ∷ bs)))
  group_lem s c b bs gs e g h =
      let es = entries_of fl level laws (b ∷ bs) in
      let n = idx_size fl level laws (b ∷ bs) in
      let (cs, ps) = sizes_lem b bs g.small in
      let size = length-group_of fl level laws b bs e g in
      let whole = length-append (group_of fl level laws (b ∷ bs)) (groups_bytes fl level laws gs) in
      let a =
        scan_group-AddsGroup s es n
          (omega (arith, size, sum-compressed_sizes es, h.compressed, whole))
          (omega (
            arith,
            ap sum ps,
            sum-lengths (b ∷ bs),
            h.plain,
            ap length (flatten-append (b ∷ bs) (flatten gs)),
            length-append (flatten (b ∷ bs)) (flatten (flatten gs)),
          ))
          (omega (arith, h.groups)) in
      let a' =
        subst (λ (l : List ℕ). AddsGroup s (scan_group s es n) l (map length (b ∷ bs)) n) cs
          (subst (λ (l : List ℕ). AddsGroup s (scan_group s es n) (compressed_sizes es) l n) ps
            a) in
      (scan_group s es n, refl, a', omega (arith, a.c_sum, size, sum-compressed_sizes es))
