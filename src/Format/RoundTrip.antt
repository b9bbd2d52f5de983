-- ===== src/Format/RoundTrip.antt =====
-- `parse_extra_field` reads back what the builders wrote, and where it cannot.
use pgzf_rs.Prelude.{
  ℕ, zero, suc, ◌+◌, ◌*◌, ◌/◌, ◌<◌, ◌≡◌, refl, sym, ap, ◌∙◌, true, none, some, List, [], ◌∷◌, ◌++◌,
  arith, append-nil,
}
use pgzf_rs.Prelude.Lists.{
  length, drop, take-append, drop-append, drop-drop, take_of_length-le, length-append, All,
}
use pgzf_rs.Prelude.Outcome.{ok}
use pgzf_rs.Constants.{tag_z, tag_g, tag_c, tag_i, tag_x, gc_value_offset}
use pgzf_rs.Format.Bytes.{
  patch, IsU16, IsU32, IsU64, as_u16, u16_bytes, u32_bytes, u64_bytes, length-u16_bytes,
  length-u32_bytes, length-u64_bytes, read_u16_le-u16_bytes, read_u32_le-u32_bytes,
  read_u64_le-u64_bytes,
}
use pgzf_rs.Format.Header.{IndexEntry, build_beg_header, build_dat_header, build_idx_header}
use pgzf_rs.Format.Extra.{Tags, no_tags, read_entries, read_tag, parse_tags, parse_extra_field}
use pgzf_rs.Format.Layout.{
  zc_field, gc_field, ix_field, entry_bytes, build_beg_header_patched, build_dat_header_lem,
  build_idx_header_lem,
}

pub record IsEntry (e : IndexEntry) : Type 0 where
  pub compressed_fits : IsU32 e.compressed_size
  pub uncompressed_fits : IsU32 e.uncompressed_size

-- One round of the loop over a whole sub-field.
parse_tags_field :
    (fuel a b slen : ℕ) (payload rest : List ℕ) (t : Tags)
    → IsU16 slen
    → length payload ≡ slen
    → parse_tags (suc fuel) (a ∷ b ∷ (u16_bytes slen ++ (payload ++ rest))) t
      ≡ parse_tags fuel rest
          (read_tag t (a ∷ b ∷ (u16_bytes slen ++ (payload ++ rest))) slen payload)
unfolding parse_tags
parse_tags_field fuel a b slen payload rest t h k =
    rw
      (
        read_u16_le-u16_bytes slen (payload ++ rest) h,
        drop-append 2 (u16_bytes slen) (payload ++ rest) (length-u16_bytes slen),
        take-append slen payload rest k,
        drop-append slen payload rest k,
      )
      (ground (
        arith,
        length-append (u16_bytes slen) (payload ++ rest),
        length-u16_bytes slen,
        length-append payload rest,
      ))

parse_tags-nil : (fuel : ℕ) (t : Tags) → parse_tags fuel [] t ≡ t
unfolding parse_tags
parse_tags-nil zero t = refl
parse_tags-nil (suc fuel) t = refl

pub length-entry_bytes : (es : List IndexEntry) → length (entry_bytes es) ≡ length es * 8
unfolding u32_bytes
length-entry_bytes [] = refl
length-entry_bytes (e ∷ es) = omega (arith, length-entry_bytes es)

pub read_entries-entry_bytes :
    (es : List IndexEntry) → All IsEntry es → read_entries (length es) (entry_bytes es) ≡ es
unfolding read_entries
read_entries-entry_bytes [] h = refl
read_entries-entry_bytes (e ∷ es) h =
    let c = u32_bytes e.compressed_size in
    let u = u32_bytes e.uncompressed_size in
    rw (
      read_u32_le-u32_bytes e.compressed_size (u ++ entry_bytes es) h.0.compressed_fits,
      sym (drop-drop 4 4 (c ++ (u ++ entry_bytes es))),
      drop-append 4 c (u ++ entry_bytes es) (length-u32_bytes e.compressed_size),
      read_u32_le-u32_bytes e.uncompressed_size (entry_bytes es) h.0.uncompressed_fits,
      drop-append 4 u (entry_bytes es) (length-u32_bytes e.uncompressed_size),
      read_entries-entry_bytes es h.1,
    )

-- An extra field of known length.
parse_extra_field_lem :
    (xlen : ℕ) (extra : List ℕ)
    → IsU16 xlen
    → length extra ≡ xlen
    → parse_extra_field (u16_bytes xlen ++ extra) true ≡ ok (parse_tags xlen extra no_tags)
unfolding parse_extra_field
parse_extra_field_lem xlen extra h k =
    rw
      (
        read_u16_le-u16_bytes xlen extra h,
        drop-append 2 (u16_bytes xlen) extra (length-u16_bytes xlen),
        take_of_length-le xlen extra (omega arith),
      )
      (ground (arith, length-append (u16_bytes xlen) extra, length-u16_bytes xlen))

-- A sub-field that ends the extra field.
parse_tags_last :
    (fuel a b slen : ℕ) (payload : List ℕ) (t : Tags)
    → IsU16 slen
    → length payload ≡ slen
    → parse_tags (suc fuel) (a ∷ b ∷ (u16_bytes slen ++ payload)) t
      ≡ read_tag t (a ∷ b ∷ (u16_bytes slen ++ payload)) slen payload
parse_tags_last fuel a b slen payload t h k =
    (rw append-nil at (parse_tags_field fuel a b slen payload [] t h k)) ∙ parse_tags-nil fuel _

-- One round on each of the three tags of the crate.
read_tag_zc :
    (zc fuel : ℕ) (rest : List ℕ) (t : Tags)
    → IsU32 zc
    → parse_tags (suc fuel) (zc_field zc ++ rest) t ≡ parse_tags fuel rest (record t { zc = zc })
unfolding read_tag u16_bytes
read_tag_zc zc fuel rest t h =
    parse_tags_field fuel tag_z tag_c 4 (u32_bytes zc) rest t (omega arith) (length-u32_bytes zc)
    ∙ ap (λ (n : ℕ). parse_tags fuel rest (record t { zc = n }))
        (rw append-nil at (read_u32_le-u32_bytes zc [] h))

read_tag_gc :
    (gc fuel : ℕ) (t : Tags)
    → IsU64 gc
    → parse_tags (suc fuel) (gc_field gc) t ≡ record t { gc = some gc }
unfolding read_tag u16_bytes
read_tag_gc gc fuel t h =
    parse_tags_last fuel tag_g tag_c 8 (u64_bytes gc) t (omega arith) (length-u64_bytes gc)
    ∙ ap (λ (n : ℕ). record t { gc = some n }) (rw append-nil at (read_u64_le-u64_bytes gc [] h))

read_tag_ix :
    (es : List IndexEntry) (fuel : ℕ) (t : Tags)
    → 0 < length es
    → IsU16 (length es * 8)
    → All IsEntry es
    → parse_tags (suc fuel) (ix_field es) t ≡ record t { ix = some es }
read_tag_ix es fuel t nonempty h entries =
    let eight : length es * 8 / 8 ≡ length es = omega arith in
    let fits : as_u16 (length es * 8) ≡ length es * 8 = omega arith in
    rw fits (
      parse_tags_last fuel tag_i tag_x (length es * 8) (entry_bytes es) t h (length-entry_bytes es)
      ∙ unfold read_tag in (rw eight (rw (read_entries-entry_bytes es entries) (ground arith))))

-- The extra field of a DAT header is parsed to its ZC of 32 bits, to no GC and to no index.
pub parse_extra_field-build_dat_header :
    (zc : ℕ)
    → IsU32 zc
    → parse_extra_field (drop 10 (build_dat_header zc)) true
      ≡ ok (record { zc = zc; gc = none; ix = none })
parse_extra_field-build_dat_header zc h = rw (build_dat_header_lem zc) (
    parse_extra_field_lem 8 (zc_field zc) (omega arith) (unfold u32_bytes u16_bytes in refl)
    ∙ ap ok ((rw append-nil at (read_tag_zc zc 7 [] no_tags h)) ∙ parse_tags-nil 7 _))

-- The extra field of a BEG header in which a GC value of 64 bits has been written at its offset is
-- parsed to its ZC of 32 bits and that GC, and to no index.
pub parse_extra_field-build_beg_header :
    (zc gc : ℕ)
    → IsU32 zc
    → IsU64 gc
    → parse_extra_field (drop 10 (patch (build_beg_header zc) gc_value_offset (u64_bytes gc))) true
      ≡ ok (record { zc = zc; gc = some gc; ix = none })
parse_extra_field-build_beg_header zc gc h k = rw (build_beg_header_patched zc gc) (
    parse_extra_field_lem 20 (zc_field zc ++ gc_field gc) (omega arith)
      (unfold u32_bytes u16_bytes u64_bytes in refl)
    ∙ ap ok (read_tag_zc zc 19 (gc_field gc) no_tags h ∙ read_tag_gc gc 18 _ k))

pub length-idx_extra :
    (zc : ℕ) (es : List IndexEntry) → length (zc_field zc ++ ix_field es) ≡ 12 + length es * 8
unfolding u16_bytes u32_bytes
length-idx_extra zc es = omega (arith, length-entry_bytes es)

-- The extra field of an IDX header with at least one entry, whose length fits in 16 bits and whose
-- numbers fit in 32 bits, is parsed to its ZC and to the same entries, and to no GC.
pub parse_extra_field-build_idx_header :
    (zc : ℕ) (es : List IndexEntry)
    → IsU32 zc
    → 0 < length es
    → IsU16 (12 + length es * 8)
    → All IsEntry es
    → parse_extra_field (drop 10 (build_idx_header zc es)) true
      ≡ ok (record { zc = zc; gc = none; ix = some es })
parse_extra_field-build_idx_header zc es h nonempty fits entries =
    let f : ℕ = 10 + length es * 8 in
    let two : 12 + length es * 8 ≡ suc (suc f) = omega arith in
    let e : as_u16 (12 + length es * 8) ≡ 12 + length es * 8 = omega arith in
    rw (build_idx_header_lem zc es, e)
      (parse_extra_field_lem (12 + length es * 8) (zc_field zc ++ ix_field es) fits
          (length-idx_extra zc es)
        ∙ ap ok (
            rw two (
              read_tag_zc zc (suc f) (ix_field es) no_tags h
              ∙ read_tag_ix es f _ nonempty (omega arith) entries)))
