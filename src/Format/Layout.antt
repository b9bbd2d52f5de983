-- ===== src/Format/Layout.antt =====
-- What the builders write, as a concatenation of fields.
use pgzf_rs.Prelude.{
  ℕ, zero, suc, ◌+◌, ◌*◌, ◌≡◌, refl, sym, ap, ◌∙◌, List, [], ◌∷◌, ◌++◌, arith, append_assoc,
}
use pgzf_rs.Prelude.Lists.{length, drop-append, replicate, replicate-add, length-append}
use pgzf_rs.Constants.{
  tag_z, tag_g, tag_c, tag_i, tag_x, gzip_id1, gzip_id2, gzip_cm_deflate, gzip_flg_fextra,
  gzip_os_unix, pgzf_xfl_marker,
}
use pgzf_rs.Format.Bytes.{as_u16, patch, u16_bytes, u32_bytes, u64_bytes}
use pgzf_rs.Format.Header.{
  IndexEntry, build_beg_header, build_dat_header, build_idx_header, write_entries,
}

-- The ten bytes that every member of the crate begins with.
abbrev pub fixed_header : List ℕ
fixed_header =
    gzip_id1 ∷ gzip_id2 ∷ gzip_cm_deflate ∷ gzip_flg_fextra ∷ 0 ∷ 0 ∷ 0 ∷ 0 ∷ pgzf_xfl_marker
    ∷ gzip_os_unix ∷ []

-- A sub-field of the extra field.
abbrev pub subfield : ℕ → ℕ → List ℕ → List ℕ → List ℕ
subfield first second slen payload = first ∷ second ∷ (slen ++ payload)

abbrev pub zc_field : ℕ → List ℕ
zc_field zc = subfield tag_z tag_c (u16_bytes 4) (u32_bytes zc)

abbrev pub gc_field : ℕ → List ℕ
gc_field gc = subfield tag_g tag_c (u16_bytes 8) (u64_bytes gc)

abbrev pub entry_bytes : List IndexEntry → List ℕ
entry_bytes [] = []
entry_bytes (e ∷ es) =
    u32_bytes e.compressed_size ++ (u32_bytes e.uncompressed_size ++ entry_bytes es)

abbrev pub ix_field : List IndexEntry → List ℕ
ix_field es = subfield tag_i tag_x (u16_bytes (as_u16 (length es * 8))) (entry_bytes es)

pub build_beg_header_lem :
    (zc : ℕ) → build_beg_header zc ≡ fixed_header ++ (u16_bytes 20 ++ (zc_field zc ++ gc_field 0))
unfolding build_beg_header u16_bytes u64_bytes
build_beg_header_lem zc = refl

-- The GC value is written as 0 and patched later.
pub build_beg_header_patched :
    (zc gc : ℕ)
    → patch (build_beg_header zc) 24 (u64_bytes gc)
      ≡ fixed_header ++ (u16_bytes 20 ++ (zc_field zc ++ gc_field gc))
unfolding build_beg_header u16_bytes u64_bytes
build_beg_header_patched zc gc = refl

pub build_dat_header_lem :
    (zc : ℕ) → build_dat_header zc ≡ fixed_header ++ (u16_bytes 8 ++ zc_field zc)
unfolding build_dat_header u16_bytes
build_dat_header_lem zc = refl

patch_after :
    (front buf : List ℕ) (n : ℕ) (new : List ℕ)
    → length front ≡ n
    → patch (front ++ buf) n new ≡ front ++ patch buf 0 new
patch_after [] buf n new h = let e : n ≡ 0 = omega arith in rw e refl
patch_after (b ∷ front) buf zero new h = absurd (omega arith)
patch_after (b ∷ front) buf (suc n) new h = ap (◌∷◌ b) (patch_after front buf n new (omega arith))

pub patch_over :
    (front old rest new : List ℕ) (n : ℕ)
    → length front ≡ n
    → length old ≡ length new
    → patch (front ++ (old ++ rest)) n new ≡ (front ++ new) ++ rest
patch_over front old rest new n h k =
    patch_after front (old ++ rest) n new h
    ∙ rw (drop-append (length new) old rest k) (sym (append_assoc front new rest))

abbrev zeros : ℕ → List ℕ
zeros n = replicate n 0

zeros-suc : (n : ℕ) → zeros (suc n * 8) ≡ zeros 4 ++ (zeros 4 ++ zeros (n * 8))
zeros-suc n = ap zeros {y = 8 + n * 8} (omega arith) ∙ replicate-add {A = ℕ} 8 (n * 8) 0

-- Eight zeros at a time give way to an entry.
write_entries_lem :
    (es : List IndexEntry) (front : List ℕ) (off : ℕ)
    → length front ≡ off
    → write_entries (front ++ replicate (length es * 8) 0) off es ≡ front ++ entry_bytes es
unfolding write_entries
write_entries_lem [] front off h = refl
write_entries_lem (e ∷ es) front off h =
    rw
      (
        zeros-suc (length es),
        patch_over front (zeros 4) _ c off h refl,
        patch_over (front ++ c) (zeros 4) _ u (off + 4) (omega (arith, length-append front c)) refl,
      )
      (write_entries_lem es ((front ++ c) ++ u) (off + 8)
          (omega (arith, length-append front c, length-append (front ++ c) u))
        ∙ append_assoc (front ++ c) u (entry_bytes es)
        ∙ append_assoc front c (u ++ entry_bytes es))
  where
    c : List ℕ
    c = u32_bytes e.compressed_size

    u : List ℕ
    u = u32_bytes e.uncompressed_size

pub build_idx_header_lem :
    (zc : ℕ) (es : List IndexEntry)
    → build_idx_header zc es
      ≡ fixed_header ++ (u16_bytes (as_u16 (12 + length es * 8)) ++ (zc_field zc ++ ix_field es))
unfolding build_idx_header
build_idx_header_lem zc es = rw (replicate-add {A = ℕ} 24 (length es * 8) 0) (
    write_entries_lem es
      (fixed_header
        ++ (u16_bytes (as_u16 (8 + 4 + length es * 8))
            ++ (zc_field zc ++ (tag_i ∷ tag_x ∷ u16_bytes (as_u16 (length es * 8))))))
      24 refl)
