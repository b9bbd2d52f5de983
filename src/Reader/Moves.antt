-- ===== src/Reader/Moves.antt =====
-- Reading a block goes forward in the file, or ends, whatever the file holds.
use pgzf_rs.Prelude.{
  ℕ, ◌+◌, ◌-◌, ◌≤◌, ◌<◌, ◌≡◌, ◌^◌, ◌⊎◌, refl, ap, subst, sym, ◌∙◌, inl, inr, min, Option, none,
  some, List, arith,
}
use pgzf_rs.Prelude.Tests.{leb, ltb, ◌==◌, Bool-cases, leb→le}
use pgzf_rs.Prelude.Lists.{length, take, length-drop}
use pgzf_rs.Prelude.Outcome.{Outcome, ok, Exec, convert, continue-ok}
use pgzf_rs.Prelude.Ends.{Ended, Relation, Ends, EndsAt-here, Ends-bind, Ends-if, Ends-convert}
use pgzf_rs.Error.{PgzfError, io}
use pgzf_rs.Cursor.{Cursor, remaining, read_exact, read_or_eof}
use pgzf_rs.Constants.{gzip_fixed_header_size}
use pgzf_rs.Format.Bytes.{read_u16_le}
use pgzf_rs.Format.Header.{BlockType, beg, dat, idx}
use pgzf_rs.External.Lru.{LruCache}
use pgzf_rs.BlockCache.{CacheEntry}
use pgzf_rs.Reader.State.{PgzfReader}
use pgzf_rs.Reader.Raw.{
  RawBlock, RawTags, no_raw_tags, scan_tags, raw_type, on_inner, number_block, read_rest,
  read_member, read_one_raw_block,
}

-- The same bytes, and no earlier a place unless it was past the end.
abbrev pub onward : Relation Cursor
onward = record {
  Holds = λ c d. (d.bytes ≡ c.bytes) × (min c.pos (length c.bytes) ≤ d.pos);
  here = λ c. (refl, omega arith);
  chain = λ c d e h k. (k.0 ∙ h.0, omega (arith, h.1, k.1, ap length h.0));
}

pub read_exact-Ends : (n : ℕ) → Ends onward (read_exact n)
unfolding read_exact
read_exact-Ends n c = elim (Bool-cases (leb n (length (remaining c)))) [
  | inl enough ↦ rw enough (record { ends = tt; holds = (refl, omega arith) })
  | inr short ↦ rw short (record { ends = tt; holds = (refl, omega arith) })
]

pub read_or_eof-Ends : (n : ℕ) → Ends onward (read_or_eof n)
unfolding read_exact
read_or_eof-Ends n c = elim (Bool-cases (leb n (length (remaining c)))) [
  | inl enough ↦ rw enough (record { ends = tt; holds = (refl, omega arith) })
  | inr short ↦ rw short (record { ends = tt; holds = (refl, omega arith) })
]

-- A read that came to its end, or as many bytes as were asked for.
pub read_or_eof-cases :
    (n : ℕ) (c : Cursor)
    → 0 < n
    → ((read_or_eof n c).0 ≡ ok none)
      ⊎ ((buf : List ℕ) × (read_exact n c ≡ (ok buf, record c { pos = c.pos + n }))
          × (c.pos + n ≤ length c.bytes))
unfolding read_exact
read_or_eof-cases n c pos = elim (Bool-cases (leb n (length (remaining c)))) [
  | inl enough ↦ inr (
    take n (remaining c),
    rw enough refl,
    omega (arith, leb→le n (length (remaining c)) enough, length-drop c.pos c.bytes),
  )
  | inr short ↦ inl (rw short refl)
]

-- The second place lies behind the first, which is in the file.
pub record Further (c d : Cursor) : Type 0 where
  pub same : d.bytes ≡ c.bytes
  pub inside : c.pos < length c.bytes
  pub further : c.pos < d.pos

pub Further-onward :
    (c d : Cursor) (n : ℕ)
    → 0 < n
    → c.pos + n ≤ length c.bytes
    → onward.Holds (record c { pos = c.pos + n }) d
    → Further c d
Further-onward c d n pos fits h = record {
  same = h.0;
  inside = omega arith;
  further = omega (arith, h.1);
}

module _ (lru : LruCache CacheEntry) where
  abbrev pub reads_onward : Relation (PgzfReader lru)
  reads_onward = record {
    Holds = λ r s. onward.Holds r.inner s.inner;
    here = λ r. onward.here r.inner;
    chain = λ r s t. onward.chain r.inner s.inner t.inner;
  }

  abbrev Onward : {E A : Type 0} → Exec (PgzfReader lru) E A → Type 0
  Onward = Ends reads_onward

  on_inner-Onward : {E A : Type 0} (m : Exec Cursor E A) → Ends onward m → Onward (on_inner lru m)
  on_inner-Onward m h r = record { ends = (h r.inner).ends; holds = (h r.inner).holds }

  read_io-Onward : (n : ℕ) → Onward (on_inner lru (convert io (read_exact n)))
  read_io-Onward n =
      on_inner-Onward (convert io (read_exact n))
        (Ends-convert onward io (read_exact n) (read_exact-Ends n))

  read_rest-Onward :
      (header_buf xlen_buf extra : List ℕ) (tags : RawTags) (i : ℕ)
      → Onward (read_rest lru header_buf xlen_buf extra tags i)
  unfolding read_rest
  read_rest-Onward header_buf xlen_buf extra tags i =
      Ends-if reads_onward (tags.zc == 0) _ _ (λ r. EndsAt-here reads_onward _ r tt)
        (Ends-if reads_onward (ltb (2 ^ 30) tags.zc) _ _ (λ r. EndsAt-here reads_onward _ r tt)
          (Ends-if reads_onward (ltb tags.zc (gzip_fixed_header_size + 2 + length extra)) _ _
            (λ r. EndsAt-here reads_onward _ r tt)
            (Ends-bind reads_onward _ _
              (read_io-Onward (tags.zc - (gzip_fixed_header_size + 2 + length extra)))
              (λ rest r. EndsAt-here reads_onward _ r tt))))

  number_block-Onward : (t : BlockType) → Onward (number_block lru t)
  number_block-Onward beg r = record { ends = tt; holds = onward.here r.inner }
  number_block-Onward dat r = record { ends = tt; holds = onward.here r.inner }
  number_block-Onward idx r = record { ends = tt; holds = onward.here r.inner }

  read_member-Onward : (h : Option (List ℕ)) → Onward (read_member lru h)
  unfolding read_member
  read_member-Onward none = λ r. EndsAt-here reads_onward _ r tt
  read_member-Onward (some header_buf) = Ends-bind reads_onward _ _ (read_io-Onward 2) (λ xlen_buf.
      Ends-bind reads_onward _ _ (read_io-Onward (read_u16_le xlen_buf)) (λ extra.
        let tags = scan_tags (length extra) extra no_raw_tags in
        Ends-bind reads_onward (number_block lru (raw_type tags))
          (read_rest lru header_buf xlen_buf extra tags) (number_block-Onward (raw_type tags))
          (read_rest-Onward header_buf xlen_buf extra tags)))

  -- A raw block is read to its end or not at all.
  pub record Advance (r : PgzfReader lru) (q : Outcome PgzfError (Option RawBlock) × PgzfReader lru)
      : Type 0 where
    pub ends : Ended q.0
    pub same : q.1.inner.bytes ≡ r.inner.bytes
    pub goes : (b : RawBlock) → q.0 ≡ ok (some b) → Further r.inner q.1.inner

  read_one_raw_block-Onward : Onward (read_one_raw_block lru)
  unfolding read_one_raw_block
  read_one_raw_block-Onward =
      Ends-bind reads_onward (on_inner lru (read_or_eof gzip_fixed_header_size)) (read_member lru)
        (on_inner-Onward (read_or_eof gzip_fixed_header_size)
          (read_or_eof-Ends gzip_fixed_header_size))
        read_member-Onward

  read_one_raw_block-Further :
      (r : PgzfReader lru) (b : RawBlock)
      → (read_one_raw_block lru r).0 ≡ ok (some b)
      → Further r.inner (read_one_raw_block lru r).1.inner
  unfolding read_one_raw_block read_member
  read_one_raw_block-Further r b e =
      elim (read_or_eof-cases gzip_fixed_header_size r.inner (omega arith)) [
        | inl over ↦
            let header = on_inner lru (read_or_eof gzip_fixed_header_size) r in
            let nothing =
              ap (λ (q : Outcome PgzfError (Option RawBlock) × PgzfReader lru). q.0)
                (continue-ok header none (read_member lru) over) in
            absurd (cc (sym nothing ∙ e))
        | inr (buf, front, fits) ↦
            let r1 : PgzfReader lru = record r {
              inner = record r.inner { pos = r.inner.pos + gzip_fixed_header_size };
            } in
            let same : read_one_raw_block lru r ≡ read_member lru (some buf) r1 = rw front refl in
            subst
              (λ (q : Outcome PgzfError (Option RawBlock) × PgzfReader lru).
                Further r.inner q.1.inner)
              (sym same)
              (Further-onward r.inner (read_member lru (some buf) r1).1.inner gzip_fixed_header_size
                (omega arith) fits (read_member-Onward (some buf) r1).holds)
      ]

  pub read_one_raw_block-Advance : (r : PgzfReader lru) → Advance r (read_one_raw_block lru r)
  read_one_raw_block-Advance r =
      let all = read_one_raw_block-Onward r in
      record { ends = all.ends; same = all.holds.0; goes = read_one_raw_block-Further r }
