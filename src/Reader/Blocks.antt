-- ===== src/Reader/Blocks.antt =====
-- The sequential reading of blocks ends, whatever the file holds.
use pgzf_rs.Prelude.{
  ℕ, zero, suc, ◌+◌, ◌-◌, ◌<◌, ◌≡◌, refl, ap, sym, subst, ◌∙◌, inl, inr, Bool, max, Option, none,
  some, List, [], ◌++◌, arith,
}
use pgzf_rs.Prelude.Lists.{length, take, drop}
use pgzf_rs.Prelude.Outcome.{
  Outcome, ok, err, panic, stuck, Exec, ◌>>=◌, lift, convert, continue-ok,
}
use pgzf_rs.Prelude.Ends.{Ended, Ends, EndsAt-here, Ends-bind, Ends-lift, Ends-convert}
use pgzf_rs.Error.{PgzfError, io}
use pgzf_rs.Cursor.{Cursor, read_exact, read_or_eof}
use pgzf_rs.Constants.{gzip_fixed_header_size, pgzf_tail_size}
use pgzf_rs.Format.Bytes.{read_u16_le, read_u32_le}
use pgzf_rs.Format.Header.{BlockType, beg, dat, idx, validate_gzip_header, is_pgzf_member}
use pgzf_rs.Format.Extra.{parse_extra_field, determine_block_type}
use pgzf_rs.External.Flate.{Flate}
use pgzf_rs.Codec.{decompress_block, new_decompressor}
use pgzf_rs.Reader.Sequential.{
  ReadBlock, member_header_size, deflate_size, checked, block_data, read_after_header,
  read_pgzf_block, next_block,
}
use pgzf_rs.Reader.Moves.{
  onward, read_exact-Ends, read_or_eof-Ends, read_or_eof-cases, Further, Further-onward,
}
use pgzf_rs.Reader.Total.{decompress-Ends}

validate_gzip_header-Ended : (buf : List ℕ) → Ended (validate_gzip_header buf)
unfolding validate_gzip_header
validate_gzip_header-Ended buf = ground arith

parse_extra_field-Ended : (buf : List ℕ) (is_pgzf : Bool) → Ended (parse_extra_field buf is_pgzf)
unfolding parse_extra_field
parse_extra_field-Ended buf is_pgzf = ground arith

deflate_size-Ended : (zc n : ℕ) → Ended (deflate_size zc n)
deflate_size-Ended zc n = ground arith

module _ (fl : Flate) where
  checked-Ended : (output : List ℕ) (crc : ℕ) → Ended (checked fl output crc)
  checked-Ended output crc = ground arith

  read_io-Ends : (n : ℕ) → Ends onward (convert io (read_exact n))
  read_io-Ends n = Ends-convert onward io (read_exact n) (read_exact-Ends n)

  abbrev inflate_and_check : List ℕ → List ℕ → Exec Cursor PgzfError (List ℕ)
  inflate_and_check deflate_data trailer =
      lift (decompress_block fl deflate_data (max (read_u32_le (drop 4 trailer)) 1)) >>= λ found.
      lift (checked fl (take found.0 found.1) (read_u32_le trailer))

  inflate_and_check-Ends :
      (deflate_data trailer : List ℕ) → Ends onward (inflate_and_check deflate_data trailer)
  inflate_and_check-Ends deflate_data trailer =
      let size = max (read_u32_le (drop 4 trailer)) 1 in
      Ends-bind onward (lift (decompress_block fl deflate_data size)) _
        (Ends-lift onward (decompress_block fl deflate_data size)
          (decompress-Ends fl deflate_data size (new_decompressor fl)).ends)
        (λ found.
          Ends-lift onward (checked fl (take found.0 found.1) (read_u32_le trailer))
            (checked-Ended (take found.0 found.1) (read_u32_le trailer)))

  block_data-Ends :
      (t : BlockType) (deflate_data trailer : List ℕ)
      → Ends onward (block_data fl t deflate_data trailer)
  block_data-Ends idx deflate_data trailer = λ c. EndsAt-here onward (ok []) c tt
  block_data-Ends beg deflate_data trailer = inflate_and_check-Ends deflate_data trailer
  block_data-Ends dat deflate_data trailer = inflate_and_check-Ends deflate_data trailer

  read_after_header-Ends : (h : Option (List ℕ)) → Ends onward (read_after_header fl h)
  unfolding read_after_header
  read_after_header-Ends none = λ c. EndsAt-here onward (ok none) c tt
  read_after_header-Ends (some header_buf) =
      Ends-bind onward (lift (validate_gzip_header header_buf)) _
        (Ends-lift onward (validate_gzip_header header_buf) (validate_gzip_header-Ended header_buf))
        (λ flags. Ends-bind onward (convert io (read_exact 2)) _ (read_io-Ends 2) (λ xlen_buf.
          Ends-bind onward (convert io (read_exact (read_u16_le xlen_buf))) _
            (read_io-Ends (read_u16_le xlen_buf))
            (λ extra.
              let parsed = parse_extra_field (xlen_buf ++ extra) (is_pgzf_member flags.0 flags.1) in
              Ends-bind onward (lift parsed) _
                (Ends-lift onward parsed (parse_extra_field-Ended _ _))
                (λ tags.
                  let t = determine_block_type tags.gc tags.ix in
                  let size = deflate_size tags.zc (member_header_size t tags.ix) in
                  Ends-bind onward (lift size) _
                    (Ends-lift onward size
                      (deflate_size-Ended tags.zc (member_header_size t tags.ix)))
                    (λ n. Ends-bind onward (convert io (read_exact n)) _ (read_io-Ends n) (λ bytes.
                      Ends-bind onward (convert io (read_exact pgzf_tail_size)) _
                        (read_io-Ends pgzf_tail_size)
                        (λ trailer.
                          Ends-bind onward (block_data fl t bytes trailer) _
                            (block_data-Ends t bytes trailer)
                            (λ found c.
                              EndsAt-here onward (ok (some (found, t, tags.zc))) c tt))))))))

  read_pgzf_block-Ends : Ends onward (read_pgzf_block fl)
  unfolding read_pgzf_block
  read_pgzf_block-Ends =
      Ends-bind onward (read_or_eof gzip_fixed_header_size) (read_after_header fl)
        (read_or_eof-Ends gzip_fixed_header_size) read_after_header-Ends

  read_pgzf_block-Further :
      (c : Cursor) (b : ReadBlock)
      → (read_pgzf_block fl c).0 ≡ ok (some b)
      → Further c (read_pgzf_block fl c).1
  unfolding read_pgzf_block read_after_header
  read_pgzf_block-Further c b e = elim (read_or_eof-cases gzip_fixed_header_size c (omega arith)) [
    | inl over ↦
        let nothing =
          ap (λ (q : Outcome PgzfError (Option ReadBlock) × Cursor). q.0)
            (continue-ok (read_or_eof gzip_fixed_header_size c) none (read_after_header fl) over) in
        absurd (cc (sym nothing ∙ e))
    | inr (buf, front, fits) ↦
        let c1 : Cursor = record c { pos = c.pos + gzip_fixed_header_size } in
        let same : read_pgzf_block fl c ≡ read_after_header fl (some buf) c1 = rw front refl in
        subst (λ (q : Outcome PgzfError (Option ReadBlock) × Cursor). Further c q.1) (sym same)
          (Further-onward c (read_after_header fl (some buf) c1).1 gzip_fixed_header_size
            (omega arith) fits (read_after_header-Ends (some buf) c1).holds)
  ]

  -- A round, by what it has read.
  next_block-round :
      (fuel : ℕ) (c c1 : Cursor) (b : ReadBlock) (t : BlockType)
      → read_pgzf_block fl c ≡ (ok (some b), c1)
      → b.1 ≡ t
      → Ended (next_block fl fuel c1).0
      → Ended (next_block fl (suc fuel) c).0
  unfolding next_block
  next_block-round fuel c c1 b beg e k more = rw (e, k) tt
  next_block-round fuel c c1 b dat e k more = rw (e, k) tt
  next_block-round fuel c c1 b idx e k more = rw (e, k) more

  next_block-over :
      (fuel : ℕ) (c c1 : Cursor) (o : Outcome PgzfError (Option ReadBlock))
      → read_pgzf_block fl c ≡ (o, c1)
      → Ended o
      → ((b : ReadBlock) → o ≡ ok (some b) → Ended (next_block fl (suc fuel) c).0)
      → Ended (next_block fl (suc fuel) c).0
  unfolding next_block
  next_block-over fuel c c1 (ok none) e h more = rw e tt
  next_block-over fuel c c1 (ok (some b)) e h more = more b refl
  next_block-over fuel c c1 (err x) e h more = rw e tt
  next_block-over fuel c c1 panic e h more = rw e tt
  next_block-over fuel c c1 stuck e h more = absurd h

  -- The length of the file, less what lies before, is fuel enough.
  pub next_block-Ended :
      (fuel : ℕ) (c : Cursor) → length c.bytes - c.pos < fuel → Ended (next_block fl fuel c).0
  next_block-Ended zero c h = absurd (omega arith)
  next_block-Ended (suc fuel) c h =
      let q = read_pgzf_block fl c in
      next_block-over fuel c q.1 q.0 refl (read_pgzf_block-Ends c).ends (λ b e.
        let g = read_pgzf_block-Further c b e in
        next_block-round fuel c q.1 b b.1 (λ i. (e i, q.1)) refl
          (next_block-Ended fuel q.1 (omega (arith, ap length g.same, g.inside, g.further))))
