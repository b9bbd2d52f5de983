-- ===== src/Reader/Skip.antt =====
-- An IDX block of the writer under `read_one_raw_block`.
use pgzf_rs.Prelude.{
  ℕ, zero, suc, ◌+◌, ◌*◌, ◌^◌, ◌<◌, ◌≡◌, refl, ap, ◌∙◌, true, false, some, List, [], ◌∷◌, ◌++◌,
  arith, append-nil, append_assoc,
}
use pgzf_rs.Prelude.Lists.{
  length, replicate, take-append, drop-append, length-append, length-replicate,
}
use pgzf_rs.Prelude.Outcome.{ok}
use pgzf_rs.Cursor.{remaining}
use pgzf_rs.Constants.{tag_z, tag_c, tag_i, tag_x}
use pgzf_rs.Format.Bytes.{
  IsU16, IsU32, as_u16, u16_bytes, u32_bytes, length-u16_bytes, length-u32_bytes,
  read_u16_le-u16_bytes, read_u32_le-u32_bytes,
}
use pgzf_rs.Format.Header.{IndexEntry, idx, build_idx_header}
use pgzf_rs.Format.Layout.{fixed_header, zc_field, ix_field, entry_bytes, build_idx_header_lem}
use pgzf_rs.Format.RoundTrip.{length-entry_bytes, length-idx_extra}
use pgzf_rs.External.Flate.{Flate}
use pgzf_rs.External.Lru.{LruCache}
use pgzf_rs.BlockCache.{CacheEntry}
use pgzf_rs.Codec.Laws.{FlateLaws, deflated}
use pgzf_rs.Writer.Layout.{idx_zc_of, idx_member}
use pgzf_rs.Reader.State.{PgzfReader}
use pgzf_rs.Reader.Raw.{
  RawBlock, RawTags, no_raw_tags, note_tag, scan_tags, raw_type, read_one_raw_block,
}
use pgzf_rs.Reader.RawRead.{MemberAt, advanced, read_front}

-- One round of the loop over the tags, over a whole sub-field.
scan_tags_field :
    (fuel a b slen : ℕ) (payload rest : List ℕ) (t : RawTags)
    → IsU16 slen
    → length payload ≡ slen
    → scan_tags (suc fuel) (a ∷ b ∷ (u16_bytes slen ++ (payload ++ rest))) t
      ≡ scan_tags fuel rest
          (note_tag t (a ∷ b ∷ (u16_bytes slen ++ (payload ++ rest))) slen payload)
unfolding scan_tags
scan_tags_field fuel a b slen payload rest t narrow size =
    let whole = length-append (u16_bytes slen) (payload ++ rest) in
    rw
      (
        read_u16_le-u16_bytes slen (payload ++ rest) narrow,
        drop-append 2 (u16_bytes slen) (payload ++ rest) (length-u16_bytes slen),
        take-append slen payload rest size,
        drop-append slen payload rest size,
      )
      (ground (arith, whole, length-u16_bytes slen, length-append payload rest))

scan_tags-nil : (fuel : ℕ) (t : RawTags) → scan_tags fuel [] t ≡ t
unfolding scan_tags
scan_tags-nil zero t = refl
scan_tags-nil (suc fuel) t = refl

scan_tags-idx :
    (zc f : ℕ) (es : List IndexEntry)
    → IsU32 zc
    → IsU16 (length es * 8)
    → scan_tags (suc (suc f)) (zc_field zc ++ ix_field es) no_raw_tags
      ≡ record { zc = zc; has_gc = false; has_ix = true }
unfolding note_tag scan_tags u16_bytes
scan_tags-idx zc f es h narrow =
    let fits : as_u16 (length es * 8) ≡ length es * 8 = omega arith in
    let seen : RawTags = record { zc = zc; has_gc = false; has_ix = false } in
    scan_tags_field (suc f) tag_z tag_c 4 (u32_bytes zc) (ix_field es) no_raw_tags (omega arith)
      (length-u32_bytes zc)
    ∙ ap (λ (n : ℕ). scan_tags (suc f) (ix_field es) (record seen { zc = n }))
        (rw append-nil at (read_u32_le-u32_bytes zc [] h))
    ∙ rw fits (
        (rw append-nil at (
          scan_tags_field f tag_i tag_x (length es * 8) (entry_bytes es) [] seen narrow
            (length-entry_bytes es)))
        ∙ scan_tags-nil f _)

module _ (lru : LruCache CacheEntry) (fl : Flate) (level : ℕ) (laws : FlateLaws fl level) where
  pub read_one_raw_block-idx_member :
      (r : PgzfReader lru) (es : List IndexEntry) (rest : List ℕ)
      → IsU16 (12 + length es * 8)
      → length (deflated fl level laws []) < 2 ^ 29
      → remaining r.inner ≡ idx_member fl level laws es ++ rest
      → (raw : RawBlock) × (read_one_raw_block lru r ≡ (
        ok (some raw),
        advanced lru r (length (idx_member fl level laws es)) r.next_block_index,
      ))
        × (raw.block_type ≡ idx)
  read_one_raw_block-idx_member r es rest narrow small h =
      let zc = idx_zc_of fl level laws es in
      let extra = zc_field zc ++ ix_field es in
      let body = deflated fl level laws [] ++ replicate 8 0 in
      let long = length-idx_extra zc es in
      let size = length-append (deflated fl level laws []) (replicate 8 0) in
      let fits : as_u16 (12 + length es * 8) ≡ length extra = omega (arith, long) in
      let shape : build_idx_header zc es ≡ fixed_header ++ (u16_bytes (length extra) ++ extra) =
        build_idx_header_lem zc es ∙ ap (λ (n : ℕ). fixed_header ++ (u16_bytes n ++ extra)) fits in
      let whole : idx_member fl level laws es ++ rest
          ≡ fixed_header ++ (u16_bytes (length extra) ++ (extra ++ (body ++ rest))) =
        append_assoc (build_idx_header zc es) body rest
        ∙ ap (λ (l : List ℕ). l ++ (body ++ rest)) shape
        ∙ rw
            (
              append_assoc fixed_header (u16_bytes (length extra) ++ extra) (body ++ rest),
              append_assoc (u16_bytes (length extra)) extra (body ++ rest),
            )
            refl in
      let front : MemberAt r.inner fixed_header extra body rest = record {
        bytes = h ∙ whole;
        ten = refl;
        fits = omega (arith, long, narrow);
      } in
      let two : length extra ≡ suc (suc (10 + length es * 8)) = omega (arith, long) in
      let tags : scan_tags (length extra) extra no_raw_tags
          ≡ record { zc = zc; has_gc = false; has_ix = true } =
        ap (λ (n : ℕ). scan_tags n extra no_raw_tags) two
        ∙ scan_tags-idx zc (10 + length es * 8) es (omega arith) (omega (arith, narrow)) in
      let value : zc ≡ 12 + length extra + length body =
        omega (arith, long, size, small, narrow, length-replicate {A = ℕ} 8 0) in
      let kind : raw_type (scan_tags (length extra) extra no_raw_tags) ≡ idx = ap raw_type tags in
      let total : 12 + length extra + length body ≡ length (idx_member fl level laws es) = omega (
        arith,
        ap length shape,
        length-append (build_idx_header zc es) body,
        length-u16_bytes (length extra),
        length-append (u16_bytes (length extra)) extra,
      ) in
      (
        record {
          raw = fixed_header ++ (u16_bytes (length extra) ++ (extra ++ body));
          header_size = 12 + length extra;
          block_type = raw_type (scan_tags (length extra) extra no_raw_tags);
          block_index = r.next_block_index;
        },
        read_front lru r fixed_header extra body rest front
              (ap (λ (t : RawTags). t.zc) tags ∙ value)
              (omega (arith, long, size, small, narrow, length-replicate {A = ℕ} 8 0))
            ∙ rw (kind, total) refl,
        kind,
      )
