-- ===== src/Reader/RawRead.antt =====
-- `read_one_raw_block` at the front of a member.
use pgzf_rs.Prelude.{ℕ, ◌+◌, ◌-◌, ◌≤◌, ◌^◌, ◌≡◌, refl, ap, some, List, [], ◌++◌, arith, append-nil}
use pgzf_rs.Prelude.Tests.{ne→==_false, le→ltb_false}
use pgzf_rs.Prelude.Lists.{length}
use pgzf_rs.Prelude.Outcome.{ok}
use pgzf_rs.Cursor.{Cursor, remaining, read_exact}
use pgzf_rs.Cursor.Laws.{read_exact_front}
use pgzf_rs.Format.Bytes.{IsU16, u16_bytes, read_u16_le, length-u16_bytes, read_u16_le-u16_bytes}
use pgzf_rs.Format.Header.{BlockType, beg, dat, idx}
use pgzf_rs.External.Lru.{LruCache}
use pgzf_rs.BlockCache.{CacheEntry}
use pgzf_rs.Reader.State.{PgzfReader}
use pgzf_rs.Reader.Raw.{
  RawTags, no_raw_tags, scan_tags, raw_type, number_block, read_rest, read_member,
  read_one_raw_block,
}

-- A member: ten bytes, the length of the extra field, the extra field, and what ZC counts behind it.
pub record MemberAt (c : Cursor) (fixed extra body rest : List ℕ) : Type 0 where
  pub bytes : remaining c ≡ fixed ++ (u16_bytes (length extra) ++ (extra ++ (body ++ rest)))
  pub ten : length fixed ≡ 10
  pub fits : IsU16 (length extra)

abbrev pub next_number : BlockType → ℕ → ℕ
next_number idx n = n
next_number beg n = n + 1
next_number dat n = n + 1

module _ (lru : LruCache CacheEntry) where
  -- The reader behind `n` more bytes, with the number of the next block.
  abbrev pub advanced : PgzfReader lru → ℕ → ℕ → PgzfReader lru
  advanced r n next = record r {
    inner = record r.inner { pos = r.inner.pos + n };
    next_block_index = next;
  }

  number_lem :
      (t : BlockType) (r : PgzfReader lru)
      → number_block lru t r
        ≡ (ok r.next_block_index, record r { next_block_index = next_number t r.next_block_index })
  number_lem idx r = refl
  number_lem beg r = refl
  number_lem dat r = refl

  rest_lem :
      (r : PgzfReader lru) (fixed xlen extra body : List ℕ) (t : RawTags) (i : ℕ)
      → t.zc ≡ 12 + length extra + length body
      → 12 + length extra + length body ≤ 2 ^ 30
      → read_exact (length body) r.inner
        ≡ (ok body, record r.inner { pos = r.inner.pos + length body })
      → read_rest lru fixed xlen extra t i r ≡ (
        ok (
            some (record {
              raw = fixed ++ (xlen ++ (extra ++ body));
              header_size = 12 + length extra;
              block_type = raw_type t;
              block_index = i;
            })),
        record r { inner = record r.inner { pos = r.inner.pos + length body } },
      )
  unfolding read_rest
  rest_lem r fixed xlen extra body t i zc small e =
      let n = 12 + length extra + length body in
      let left : n - (12 + length extra) ≡ length body = omega arith in
      rw (
        zc,
        ne→==_false n 0 (omega arith),
        le→ltb_false (2 ^ 30) n small,
        le→ltb_false n (12 + length extra) (omega arith),
        left,
        e,
      )

  pub read_front :
      (r : PgzfReader lru) (fixed extra body rest : List ℕ)
      → MemberAt r.inner fixed extra body rest
      → (scan_tags (length extra) extra no_raw_tags).zc ≡ 12 + length extra + length body
      → 12 + length extra + length body ≤ 2 ^ 30
      → read_one_raw_block lru r ≡ (
        ok (
            some (record {
              raw = fixed ++ (u16_bytes (length extra) ++ (extra ++ body));
              header_size = 12 + length extra;
              block_type = raw_type (scan_tags (length extra) extra no_raw_tags);
              block_index = r.next_block_index;
            })),
        advanced r (12 + length extra + length body) (
            next_number (raw_type (scan_tags (length extra) extra no_raw_tags)) r.next_block_index),
      )
  unfolding read_one_raw_block read_member
  read_front r fixed extra body rest f zc small =
      let c0 = r.inner in
      let (e1, b1) = read_exact_front c0 10 fixed _ f.bytes f.ten in
      let c1 : Cursor = record c0 { pos = c0.pos + 10 } in
      let (e2, b2) = read_exact_front c1 2 (u16_bytes (length extra)) _ b1 (length-u16_bytes _) in
      let c2 : Cursor = record c1 { pos = c1.pos + 2 } in
      let (e3, b3) = read_exact_front c2 (length extra) extra (body ++ rest) b2 refl in
      let c3 : Cursor = record c2 { pos = c2.pos + length extra } in
      let (e4, b4) = read_exact_front c3 (length body) body rest b3 refl in
      let xlen : read_u16_le (u16_bytes (length extra)) ≡ length extra =
        rw append-nil at (read_u16_le-u16_bytes (length extra) [] f.fits) in
      let t = scan_tags (length extra) extra no_raw_tags in
      let next = next_number (raw_type t) r.next_block_index in
      let r3 : PgzfReader lru = record r { inner = c3; next_block_index = next } in
      let there : c3.pos + length body ≡ c0.pos + (12 + length extra + length body) = omega arith in
      rw
        (
          e1,
          e2,
          xlen,
          e3,
          number_lem (raw_type t) (record r { inner = c3 }),
          rest_lem r3 fixed (u16_bytes (length extra)) extra body t r.next_block_index zc small e4,
        )
        (ap
          (λ (pos : ℕ). (
            ok (
                some (record {
                  raw = fixed ++ (u16_bytes (length extra) ++ (extra ++ body));
                  header_size = 12 + length extra;
                  block_type = raw_type t;
                  block_index = r.next_block_index;
                })),
            record r { inner = record c0 { pos = pos }; next_block_index = next },
          ))
          there)
