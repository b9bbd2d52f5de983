-- ===== src/Index/Groups.antt =====
-- One round of `PgzfIndex::build`, in front of a group of the writer.
use pgzf_rs.Prelude.{
  ℕ, ◌+◌, ◌*◌, ◌/◌, ◌≡◌, ◌≢◌, refl, ap, ◌∙◌, some, List, [], ◌∷◌, ◌++◌, arith, append_assoc,
  append-nil,
}
use pgzf_rs.Prelude.Tests.{ne→==_false, le→ltb_false}
use pgzf_rs.Prelude.Lists.{length, drop, All}
use pgzf_rs.Prelude.Outcome.{ok}
use pgzf_rs.Cursor.{Cursor, remaining}
use pgzf_rs.Cursor.Laws.{read_exact_front}
use pgzf_rs.Constants.{gzip_flg_fextra, pgzf_xfl_marker, tag_i, tag_x}
use pgzf_rs.Format.Bytes.{
  IsU16, IsU32, IsU64, as_u16, add_u64, u16_bytes, u32_bytes, u64_bytes, read_u16_le, read_u32_le,
  read_u64_le, read_u16_le-u16_bytes, read_u32_le-u32_bytes, read_u64_le-u64_bytes,
}
use pgzf_rs.Format.Header.{IndexEntry, validate_gzip_header, is_pgzf_member, build_idx_header}
use pgzf_rs.Format.Layout.{fixed_header, zc_field, entry_bytes, build_idx_header_lem}
use pgzf_rs.Format.RoundTrip.{IsEntry, read_entries-entry_bytes, length-entry_bytes}
use pgzf_rs.Writer.Layout.{beg_header}
use pgzf_rs.Index.Build.{
  Scan, scan_group, ix_size, read_entries_at, read_idx, check_beg, read_beg, read_group,
}

-- What `build` needs of the first 24 bytes of an IDX block.
pub record IdxFront (front : List ℕ) (zc n : ℕ) : Type 0 where
  pub long : length front ≡ 24
  pub valid : validate_gzip_header front ≡ ok (gzip_flg_fextra, pgzf_xfl_marker)
  pub xlen : read_u16_le (drop 10 front) ≡ 12 + n * 8
  pub value : read_u32_le (drop 16 front) ≡ zc

abbrev idx_front : ℕ → ℕ → List ℕ
idx_front zc n =
    fixed_header
    ++ (u16_bytes (as_u16 (12 + n * 8))
        ++ (zc_field zc ++ (tag_i ∷ tag_x ∷ u16_bytes (as_u16 (n * 8)))))

idx_front-IdxFront : (zc n : ℕ) → IsU32 zc → IsU16 (12 + n * 8) → IdxFront (idx_front zc n) zc n
unfolding u16_bytes u32_bytes validate_gzip_header
idx_front-IdxFront zc n h k = record {
  long = refl;
  valid = refl;
  xlen =
      ap (λ (m : ℕ). read_u16_le (u16_bytes m ++ drop 12 (idx_front zc n)))
        {x = as_u16 (12 + n * 8)} (omega arith)
      ∙ read_u16_le-u16_bytes (12 + n * 8) _ k;
  value = read_u32_le-u32_bytes zc _ h;
}

build_idx_header-front :
    (zc : ℕ) (es : List IndexEntry)
    → build_idx_header zc es ≡ idx_front zc (length es) ++ entry_bytes es
unfolding u16_bytes u32_bytes
build_idx_header-front zc es = build_idx_header_lem zc es

ix_size_lem : (n : ℕ) → ix_size (12 + n * 8) ≡ ok (n * 8)
ix_size_lem n = rw (le→ltb_false (12 + n * 8) 12 (omega arith)) (ap ok (omega arith))

read_entries_at_front :
    (c : Cursor) (at zc next : ℕ) (front : List ℕ) (es : List IndexEntry) (rest : List ℕ)
    → drop at c.bytes ≡ front ++ (entry_bytes es ++ rest)
    → IdxFront front zc (length es)
    → All IsEntry es
    → add_u64 at zc ≡ next
    → read_entries_at at c ≡ (ok (es, zc), record c { pos = next })
unfolding read_entries_at
read_entries_at_front c at zc next front es rest h f entries goes =
    let c0 : Cursor = record c { pos = at } in
    let (e1, b1) = read_exact_front c0 24 front (entry_bytes es ++ rest) h f.long in
    let c1 : Cursor = record c0 { pos = at + 24 } in
    let (e2, b2) =
      read_exact_front c1 (length es * 8) (entry_bytes es) rest b1 (length-entry_bytes es) in
    let eight : length es * 8 / 8 ≡ length es = omega arith in
    rw
      (
        e1,
        f.valid,
        f.xlen,
        ix_size_lem (length es),
        e2,
        f.value,
        goes,
        eight,
        read_entries-entry_bytes es entries,
      )
      refl

pub record BegFront (front : List ℕ) (gc : ℕ) : Type 0 where
  pub long : length front ≡ 32
  pub valid : validate_gzip_header front ≡ ok (gzip_flg_fextra, pgzf_xfl_marker)
  pub value : read_u64_le (drop 24 front) ≡ gc

beg_header-BegFront : (zc gc : ℕ) → IsU64 gc → BegFront (beg_header zc gc) gc
unfolding u16_bytes u32_bytes validate_gzip_header
beg_header-BegFront zc gc h = record {
  long = unfold u64_bytes in refl;
  valid = unfold u64_bytes in refl;
  value = rw append-nil at (read_u64_le-u64_bytes gc [] h);
}

check_beg_lem :
    (front : List ℕ) (gc : ℕ) (c : Cursor) → BegFront front gc → check_beg front c ≡ (ok gc, c)
unfolding check_beg is_pgzf_member
check_beg_lem front gc c f = rw (f.valid, f.value) refl

read_beg_lem :
    (s : Scan) (c : Cursor) (start zc gc idx_zc at next : ℕ) (es : List IndexEntry) (rest : List ℕ)
    → IsU64 gc
    → gc ≢ 0
    → add_u64 start gc ≡ at
    → drop at c.bytes ≡ build_idx_header idx_zc es ++ rest
    → IsU32 idx_zc
    → IsU16 (12 + length es * 8)
    → All IsEntry es
    → add_u64 at idx_zc ≡ next
    → read_beg s start (beg_header zc gc) c
      ≡ (ok (some (scan_group s es idx_zc)), record c { pos = next })
unfolding read_beg read_idx
read_beg_lem s c start zc gc idx_zc at next es rest k ne sum h h32 h16 entries goes =
    let there =
      h
      ∙ ap (λ (l : List ℕ). l ++ rest) (build_idx_header-front idx_zc es)
      ∙ append_assoc (idx_front idx_zc (length es)) (entry_bytes es) rest in
    let e =
      read_entries_at_front c at idx_zc next (idx_front idx_zc (length es)) es rest there
        (idx_front-IdxFront idx_zc (length es) h32 h16) entries goes in
    rw
      (
        check_beg_lem (beg_header zc gc) gc c (beg_header-BegFront zc gc k),
        ne→==_false gc 0 ne,
        sum,
        e,
      )
      refl

-- Sums may wrap.
pub read_group_lem :
    (s : Scan) (c : Cursor) (zc gc idx_zc at next : ℕ) (es : List IndexEntry) (tail rest : List ℕ)
    → remaining c ≡ beg_header zc gc ++ tail
    → IsU64 gc
    → gc ≢ 0
    → add_u64 c.pos gc ≡ at
    → drop at c.bytes ≡ build_idx_header idx_zc es ++ rest
    → IsU32 idx_zc
    → IsU16 (12 + length es * 8)
    → All IsEntry es
    → add_u64 at idx_zc ≡ next
    → read_group s c ≡ (ok (some (scan_group s es idx_zc)), record c { pos = next })
unfolding read_group
read_group_lem s c zc gc idx_zc at next es tail rest h k ne sum there h32 h16 entries goes =
    let (e1, b1) =
      read_exact_front c 32 (beg_header zc gc) tail h ((beg_header-BegFront zc gc k).long) in
    let c1 : Cursor = record c { pos = c.pos + 32 } in
    rw (e1)
      (read_beg_lem s c1 c.pos zc gc idx_zc at next es rest k ne sum there h32 h16 entries goes)
