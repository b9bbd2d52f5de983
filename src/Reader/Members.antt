-- ===== src/Reader/Members.antt =====
-- The data blocks of the writer, as they stand in a finished file, under `read_one_raw_block`.
use pgzf_rs.Prelude.{
  ℕ, ◌+◌, ◌≤◌, ◌^◌, ◌≡◌, ◌≢◌, refl, sym, ap, subst, ◌∙◌, true, false, Option, some, List, [], ◌++◌,
  arith, append_assoc,
}
use pgzf_rs.Prelude.Lists.{length, length-append}
use pgzf_rs.Prelude.Outcome.{Outcome, ok}
use pgzf_rs.Error.{PgzfError}
use pgzf_rs.Cursor.{remaining}
use pgzf_rs.Format.Bytes.{
  IsU32, u16_bytes, u32_bytes, read_u16_le, u64_bytes, read_u32_le-u32_bytes,
}
use pgzf_rs.Format.Header.{BlockType, beg, dat, idx, build_dat_header}
use pgzf_rs.Format.Layout.{fixed_header, zc_field, gc_field, build_dat_header_lem}
use pgzf_rs.Writer.{PendingBlock, header_size}
use pgzf_rs.Writer.Layout.{beg_header, zc_of, after_header, trailer_of}
use pgzf_rs.External.Flate.{Flate}
use pgzf_rs.Codec.{ReusableDecompressor}
use pgzf_rs.Reader.RoundTrip.{decompress_raw_block_with-ReadyD}
use pgzf_rs.Codec.Laws.{FlateLaws, deflated, ReadyD}
use pgzf_rs.External.Lru.{LruCache}
use pgzf_rs.BlockCache.{CacheEntry}
use pgzf_rs.Reader.State.{PgzfReader}
use pgzf_rs.Reader.Raw.{
  RawBlock, RawTags, no_raw_tags, scan_tags, note_tag, raw_type, read_one_raw_block,
  decompress_raw_block_with,
}
use pgzf_rs.Reader.RawRead.{MemberAt, next_number, advanced, read_front}

scan_tags-dat :
    (zc : ℕ)
    → IsU32 zc
    → scan_tags 8 (zc_field zc) no_raw_tags ≡ record { zc = zc; has_gc = false; has_ix = false }
unfolding scan_tags note_tag u16_bytes u32_bytes read_u16_le
scan_tags-dat zc h =
    ap (λ (n : ℕ). record { zc = n; has_gc = false; has_ix = false })
      (read_u32_le-u32_bytes zc [] h)

scan_tags-beg :
    (zc gc : ℕ)
    → IsU32 zc
    → scan_tags 20 (zc_field zc ++ gc_field gc) no_raw_tags
      ≡ record { zc = zc; has_gc = true; has_ix = false }
unfolding scan_tags note_tag u16_bytes u32_bytes u64_bytes read_u16_le
scan_tags-beg zc gc h =
    ap (λ (n : ℕ). record { zc = n; has_gc = true; has_ix = false }) (read_u32_le-u32_bytes zc [] h)

-- The header of a data block in a finished file, where the GC value is set.
abbrev pub final_header : BlockType → ℕ → ℕ → List ℕ
final_header beg zc gc = beg_header zc gc
final_header _ zc gc = build_dat_header zc

-- The extra field of such a header.
abbrev extra_of : BlockType → ℕ → ℕ → List ℕ
extra_of beg zc gc = zc_field zc ++ gc_field gc
extra_of _ zc gc = zc_field zc

-- What the two headers have in common under the loop over the tags.
record Scanned (t : BlockType) (zc gc : ℕ) : Type 0 where
  pub long : 12 + length (extra_of t zc gc) ≡ header_size t
  pub narrow : length (extra_of t zc gc) ≤ 20
  pub size : length (final_header t zc gc) ≡ header_size t
  pub shape :
      final_header t zc gc
      ≡ fixed_header ++ (u16_bytes (length (extra_of t zc gc)) ++ extra_of t zc gc)
  pub value : (scan_tags (length (extra_of t zc gc)) (extra_of t zc gc) no_raw_tags).zc ≡ zc
  pub kind : raw_type (scan_tags (length (extra_of t zc gc)) (extra_of t zc gc) no_raw_tags) ≡ t
  pub counts : (n : ℕ) → next_number t n ≡ n + 1

Scanned-data : (t : BlockType) (zc gc : ℕ) → t ≢ idx → IsU32 zc → Scanned t zc gc
unfolding u16_bytes u32_bytes u64_bytes
Scanned-data beg zc gc d h = record {
  long = refl;
  narrow = omega arith;
  size = refl;
  shape = refl;
  value = ap (λ (t : RawTags). t.zc) (scan_tags-beg zc gc h);
  kind = ap raw_type (scan_tags-beg zc gc h);
  counts = λ n. refl;
}
Scanned-data dat zc gc d h = record {
  long = refl;
  narrow = omega arith;
  size = ap length (build_dat_header_lem zc);
  shape = build_dat_header_lem zc;
  value = ap (λ (t : RawTags). t.zc) (scan_tags-dat zc h);
  kind = ap raw_type (scan_tags-dat zc h);
  counts = λ n. refl;
}
Scanned-data idx zc gc d h = absurd (d refl)

length-trailer_of :
    (fl : Flate) (level : ℕ) (laws : FlateLaws fl level) (bytes : List ℕ)
    → length (trailer_of fl level laws bytes) ≡ 8
unfolding u32_bytes
length-trailer_of fl level laws bytes = refl

module _ (lru : LruCache CacheEntry) where
  abbrev result :
      PgzfReader lru → RawBlock → ℕ → ℕ → Outcome PgzfError (Option RawBlock) × PgzfReader lru
  result r b n next = (ok (some b), advanced lru r n next)

  result_same :
      (r : PgzfReader lru) (a b : RawBlock) (m n i j : ℕ)
      → a.raw ≡ b.raw
      → a.header_size ≡ b.header_size
      → a.block_type ≡ b.block_type
      → a.block_index ≡ b.block_index
      → m ≡ n
      → i ≡ j
      → result r a m i ≡ result r b n j
  result_same r a b m n i j raw size kind index e k = rw (raw, size, kind, index, e, k) refl

module _ (lru : LruCache CacheEntry) (fl : Flate) (level : ℕ) (laws : FlateLaws fl level) where
  -- A data block of the writer in a finished file.
  abbrev pub final_member : PendingBlock → ℕ → List ℕ
  final_member b gc =
      final_header b.block_type (zc_of fl level laws b) gc ++ after_header fl level laws b

  pub read_final_member :
      (r : PgzfReader lru) (b : PendingBlock) (gc : ℕ) (rest : List ℕ)
      → b.block_type ≢ idx
      → header_size b.block_type + length (deflated fl level laws b.bytes) + 8 ≤ 2 ^ 30
      → remaining r.inner ≡ final_member b gc ++ rest
      → read_one_raw_block lru r ≡ (
        ok (
            some (record {
              raw = final_member b gc;
              header_size = header_size b.block_type;
              block_type = b.block_type;
              block_index = r.next_block_index;
            })),
        advanced lru r (length (final_member b gc)) (r.next_block_index + 1),
      )
  read_final_member r b gc rest d small h =
      let t = b.block_type in
      let zc = zc_of fl level laws b in
      let after = after_header fl level laws b in
      let s = Scanned-data t zc gc d (omega arith) in
      let extra = extra_of t zc gc in
      let long : length after ≡ length (deflated fl level laws b.bytes) + 8 =
        length-append (deflated fl level laws b.bytes) (trailer_of fl level laws b.bytes)
        ∙ ap (◌+◌ (length (deflated fl level laws b.bytes)))
            (length-trailer_of fl level laws b.bytes) in
      let shape : (tail : List ℕ)
          → final_header t zc gc ++ tail
            ≡ fixed_header ++ (u16_bytes (length extra) ++ (extra ++ tail)) =
        λ tail.
          ap (λ (l : List ℕ). l ++ tail) s.shape
          ∙ rw
              (
                append_assoc fixed_header (u16_bytes (length extra) ++ extra) tail,
                append_assoc (u16_bytes (length extra)) extra tail,
              )
              refl in
      let front : MemberAt r.inner fixed_header extra after rest = record {
        bytes = h ∙ append_assoc (final_header t zc gc) after rest ∙ shape (after ++ rest);
        ten = refl;
        fits = omega (arith, s.narrow);
      } in
      let value : zc ≡ 12 + length extra + length after = omega (arith, s.long, long) in
      read_front lru r fixed_header extra after rest front (s.value ∙ value) (omega arith)
      ∙ result_same lru r _ _ _ _ _ _ (sym (shape after)) s.long s.kind refl
          (omega (arith, s.long, s.size, length-append (final_header t zc gc) after))
          (ap (λ (k : BlockType). next_number k r.next_block_index) s.kind
            ∙ s.counts r.next_block_index)

  -- What the reader keeps of a block is decompressed to the block's data.
  pub decompress-final_member :
      (b : PendingBlock) (gc : ℕ) (d : ReusableDecompressor fl)
      → b.block_type ≢ idx
      → header_size b.block_type + length (deflated fl level laws b.bytes) + 8 ≤ 2 ^ 30
      → IsU32 (length b.bytes)
      → ReadyD fl level laws d
      → ((decompress_raw_block_with fl (final_member b gc) (header_size b.block_type) d).0
          ≡ ok b.bytes)
        × ReadyD fl level laws
            (decompress_raw_block_with fl (final_member b gc) (header_size b.block_type) d).1
  decompress-final_member b gc d ne small fits ready =
      let header = final_header b.block_type (zc_of fl level laws b) gc in
      let s = Scanned-data b.block_type (zc_of fl level laws b) gc ne (omega arith) in
      subst
        (λ (n : ℕ).
          ((decompress_raw_block_with fl (final_member b gc) n d).0 ≡ ok b.bytes)
          × ReadyD fl level laws (decompress_raw_block_with fl (final_member b gc) n d).1)
        s.size (decompress_raw_block_with-ReadyD fl level laws header b.bytes d ready fits)

  -- Under the laws of flate2: with the reader in front of a data block of the writer (typed BEG or
  -- DAT, at most 2^30 bytes long, of less than 2^32 bytes of data, any GC value in a BEG header):
  -- `read_one_raw_block` succeeds, moves exactly behind the block and counts it, gives the block
  -- its type and number, and decompressing what it gives, in any state a decompressor can reach, is
  -- the block's data.
  pub read_one_raw_block-final_member :
      (r : PgzfReader lru) (b : PendingBlock) (gc : ℕ) (rest : List ℕ) (d : ReusableDecompressor fl)
      → b.block_type ≢ idx
      → header_size b.block_type + length (deflated fl level laws b.bytes) + 8 ≤ 2 ^ 30
      → IsU32 (length b.bytes)
      → remaining r.inner ≡ final_member b gc ++ rest
      → ReadyD fl level laws d
      → (raw : RawBlock) × (read_one_raw_block lru r
          ≡ (ok (some raw), advanced lru r (length (final_member b gc)) (r.next_block_index + 1)))
        × (raw.block_type ≡ b.block_type)
        × (raw.block_index ≡ r.next_block_index)
        × ((decompress_raw_block_with fl raw.raw raw.header_size d).0 ≡ ok b.bytes)
  read_one_raw_block-final_member r b gc rest d ne small fits h ready = (
    record {
      raw = final_member b gc;
      header_size = header_size b.block_type;
      block_type = b.block_type;
      block_index = r.next_block_index;
    },
    read_final_member r b gc rest ne small h,
    refl,
    refl,
    (decompress-final_member b gc d ne small fits ready).0,
  )
