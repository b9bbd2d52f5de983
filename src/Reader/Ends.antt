-- ===== src/Reader/Ends.antt =====
-- Every `read` ends, on any file and in any state of the reader.
use pgzf_rs.Prelude.{
  ℕ, zero, suc, ◌-◌, ◌<◌, ◌≡◌, refl, ap, ◌∙◌, Bool, true, false, Option, none, some, List, [], ◌∷◌,
  arith,
}
use pgzf_rs.Prelude.Lists.{length}
use pgzf_rs.Prelude.Outcome.{Outcome, ok, err, panic, stuck, Exec}
use pgzf_rs.Prelude.Ends.{Ended, Relation, EndsAt, EndsAt-here, EndsAt-continue, EndsAt-change}
use pgzf_rs.Error.{PgzfError}
use pgzf_rs.Format.Header.{BlockType, beg, dat, idx}
use pgzf_rs.External.Lru.{LruCache}
use pgzf_rs.BlockCache.{CacheEntry}
use pgzf_rs.Reader.State.{PgzfReader}
use pgzf_rs.Reader.Raw.{RawBlock, read_one_raw_block}
use pgzf_rs.Reader.Ranges.{BlockRange}
use pgzf_rs.Reader.Fill.{read_range, read_ranges}
use pgzf_rs.Reader.Moves.{read_one_raw_block-Advance}

module _ (lru : LruCache CacheEntry) where
  -- The file has the same bytes.
  abbrev pub same_file : Relation (PgzfReader lru)
  same_file = record {
    Holds = λ r s. s.inner.bytes ≡ r.inner.bytes;
    here = λ r. refl;
    chain = λ r s t h k. k ∙ h;
  }

  -- What a call leads to from a reader.
  abbrev EndsOn : {E A : Type 0} → PgzfReader lru → Outcome E A × PgzfReader lru → Type 0
  EndsOn = EndsAt same_file

  -- A round with a block, by the type of the block.
  read_range-round :
      (fuel n : ℕ) (r r1 : PgzfReader lru) (b : RawBlock) (t : BlockType)
      → read_one_raw_block lru r ≡ (ok (some b), r1)
      → b.block_type ≡ t
      → EndsOn r1 (read_range lru fuel n r1)
      → EndsOn r1 (read_range lru fuel (suc n) r1)
      → EndsOn r1 (read_range lru (suc fuel) (suc n) r)
  unfolding read_range
  read_range-round fuel n r r1 b beg e k less more =
      rw (e, k)
        (EndsAt-continue same_file r1 (read_range lru fuel n r1) _ less
          (λ a h. EndsAt-here same_file _ _ tt))
  read_range-round fuel n r r1 b dat e k less more =
      rw (e, k)
        (EndsAt-continue same_file r1 (read_range lru fuel n r1) _ less
          (λ a h. EndsAt-here same_file _ _ tt))
  read_range-round fuel n r r1 b idx e k less more = rw (e, k) more

  -- A round without one.
  read_range-over :
      (fuel n : ℕ) (r r1 : PgzfReader lru) (o : Outcome PgzfError (Option RawBlock))
      → read_one_raw_block lru r ≡ (o, r1)
      → Ended o
      → r1.inner.bytes ≡ r.inner.bytes
      → ((b : RawBlock) → o ≡ ok (some b) → EndsOn r (read_range lru (suc fuel) (suc n) r))
      → EndsOn r (read_range lru (suc fuel) (suc n) r)
  unfolding read_range
  read_range-over fuel n r r1 (ok none) e h same more = rw e (record { ends = tt; holds = same })
  read_range-over fuel n r r1 (ok (some b)) e h same more = more b refl
  read_range-over fuel n r r1 (err x) e h same more = rw e (record { ends = tt; holds = same })
  read_range-over fuel n r r1 panic e h same more = rw e (record { ends = tt; holds = same })
  read_range-over fuel n r r1 stuck e h same more = absurd h

  read_range-none : (fuel : ℕ) (r : PgzfReader lru) → EndsOn r (read_range lru fuel 0 r)
  unfolding read_range
  read_range-none zero r = EndsAt-here same_file _ r tt
  read_range-none (suc fuel) r = EndsAt-here same_file _ r tt

  -- The length of the file, less what lies before, is fuel enough.
  pub read_range-Ends :
      (fuel n : ℕ) (r : PgzfReader lru)
      → length r.inner.bytes - r.inner.pos < fuel
      → EndsOn r (read_range lru fuel n r)
  read_range-Ends fuel zero r h = read_range-none fuel r
  read_range-Ends zero (suc n) r h = absurd (omega arith)
  read_range-Ends (suc fuel) (suc n) r h =
      let q = read_one_raw_block lru r in
      let a = read_one_raw_block-Advance lru r in
      read_range-over fuel n r q.1 q.0 refl a.ends a.same (λ b e.
        let g = a.goes b e in
        let left : length q.1.inner.bytes - q.1.inner.pos < fuel =
          omega (arith, ap length g.same, g.inside, g.further) in
        EndsAt-change same_file r q.1 _ a.same (
          read_range-round fuel n r q.1 b b.block_type (λ i. (e i, q.1)) refl
            (read_range-Ends fuel n q.1 left) (read_range-Ends fuel (suc n) q.1 left)))

  pub by_flag :
      {E A : Type 0} (b : Bool) (r : PgzfReader lru) (m k : Exec (PgzfReader lru) E A)
      → EndsOn r (m r)
      → EndsOn r (k r)
      → EndsOn r ((elim b as (λ x. Exec (PgzfReader lru) E A) [ true ↦ m | false ↦ k ]) r)
  by_flag true r m k h g = h
  by_flag false r m k h g = g

  pub read_ranges-Ends :
      (fuel : ℕ) (ranges : List (BlockRange × ℕ)) (r : PgzfReader lru)
      → length r.inner.bytes < fuel
      → EndsOn r (read_ranges lru fuel ranges r)
  unfolding read_ranges
  read_ranges-Ends fuel [] r h = EndsAt-here same_file _ r tt
  read_ranges-Ends fuel ((range, offset) ∷ ranges) r h =
      let r1 : PgzfReader lru = record r {
        inner = record r.inner { pos = offset };
        next_block_index = range.start;
      } in
      let q = read_range lru fuel (range.end - range.start) r1 in
      let first = read_range-Ends fuel (range.end - range.start) r1 (omega arith) in
      EndsAt-change same_file r r1 _ refl (
        EndsAt-continue same_file r1 q _ first (λ a e.
          let rest = read_ranges-Ends fuel ranges q.1 (omega (arith, ap length first.holds)) in
          by_flag a.1 q.1 _ _ (EndsAt-here same_file _ _ tt) (
            EndsAt-continue same_file q.1 (read_ranges lru fuel ranges q.1) _ rest
              (λ b e'. EndsAt-here same_file _ _ tt))))
