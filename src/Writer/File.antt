-- ===== src/Writer/File.antt =====
-- `finish`: the buffer becomes the last block, and what waits the last group.
use pgzf_rs.Prelude.{
  ℕ, ◌<◌, ◌≡◌, inl, inr, refl, sym, ap, subst, ◌∙◌, true, List, [], ◌∷◌, ◌++◌, arith, append-nil,
}
use pgzf_rs.Prelude.Tests.{eq→==}
use pgzf_rs.Prelude.Lists.{length, length-append}
use pgzf_rs.Prelude.Outcome.{Outcome, ok, and_then, continue-ok}
use pgzf_rs.Error.{PgzfError}
use pgzf_rs.Cursor.{Cursor}
use pgzf_rs.Format.Config.{PgzfConfig}
use pgzf_rs.External.Flate.{Flate}
use pgzf_rs.External.Rayon.{Rayon, RayonLaws}
use pgzf_rs.Codec.Laws.{FlateLaws}
use pgzf_rs.Writer.{PgzfWriter, flush_group, buffer_block, finish}
use pgzf_rs.Writer.Group.{IsGroup, flush_pending-Flushed}
use pgzf_rs.Writer.Finish.{flush_group_some, flush_group_none}
use pgzf_rs.Writer.Plan.{
  dat_blocks, first_block, chunks_of, chunks_of-nil, chunks_of-last, groups_bytes, group_of,
  group_of-bounds,
}
use pgzf_rs.Writer.Holds.{
  IsWritable, Holds, Fits, completed, completed_bytes, buffer_block-Buffered,
}
use pgzf_rs.Writer.Writing.{plan, Writes}

-- A file whose position is at its end.
abbrev pub file_of : List ℕ → Cursor
file_of bytes = record { bytes = bytes; pos = length bytes }

cursor-eq :
    (c : Cursor) (bytes : List ℕ) → c.bytes ≡ bytes → c.pos ≡ length c.bytes → c ≡ file_of bytes
cursor-eq c bytes e p = λ i. record { bytes = e i; pos = (p ∙ ap length e) i }

module _ (fl : Flate) (ray : Rayon) (level : ℕ) (laws : FlateLaws fl level) (rlaws : RayonLaws ray)
    (cfg : PgzfConfig) (good : IsWritable level cfg) (base : List ℕ) where
  abbrev State : PgzfWriter → List (List (List ℕ)) → List (List ℕ) → List ℕ → Type 0
  State = Holds fl ray level laws rlaws cfg good base

  abbrev FitsIn : List (List (List ℕ)) → Type 0
  FitsIn = Fits fl ray level laws rlaws cfg good base

  -- The file has these groups, and the position is at its end.
  abbrev InFile : PgzfWriter → List (List (List ℕ)) → Type 0
  InFile w gs =
      (w.inner.bytes ≡ base ++ groups_bytes fl level laws gs) × (w.inner.pos ≡ length w.inner.bytes)

  started :
      (w : PgzfWriter) (groups : List (List (List ℕ))) (pend : List (List ℕ))
      → State w groups pend []
      → 0 < length pend
      → w.gc_pending ≡ true
  started w groups pend h pos = elim h.gc [
    | inl e ↦ absurd (omega (arith, e, h.in_group, pos))
    | inr e ↦ e
  ]

  last_group :
      (w : PgzfWriter) (groups : List (List (List ℕ))) (x : List ℕ) (xs : List (List ℕ))
      → State w groups (x ∷ xs) []
      → FitsIn (groups ++ ((x ∷ xs) ∷ []))
      → ((flush_group fl ray w).0 ≡ ok tt)
        × InFile (flush_group fl ray w).1 (groups ++ ((x ∷ xs) ∷ []))
  last_group w groups x xs h fits =
      let whole = completed_bytes fl ray level laws rlaws cfg good base groups (x ∷ xs) in
      let size =
        ap length whole
        ∙ length-append (base ++ groups_bytes fl level laws groups)
            (group_of fl level laws (x ∷ xs)) in
      let (small, inside) = group_of-bounds fl level laws x xs in
      let group : IsGroup w (first_block x) (dat_blocks xs) = record {
        pending = h.pending;
        first = refl;
        at_end = h.at_end;
        start = h.start;
        gc = started w groups (x ∷ xs) h (omega arith);
        batch =
            omega (arith, good.batch, ap (λ (c : PgzfConfig). c.compression_batch_size) h.config);
      } in
      let (r, f) =
        flush_pending-Flushed fl ray level laws rlaws w (first_block x) (dat_blocks xs) group
          (ap (λ (c : PgzfConfig). c.compression_level) h.config ∙ good.at_level)
          (omega (arith, size, inside, fits, ap length h.bytes))
          (omega (arith, size, small, fits)) in
      subst
        (λ (q : Outcome PgzfError (Unit {0}) × PgzfWriter).
          (q.0 ≡ ok tt) × InFile q.1 (groups ++ ((x ∷ xs) ∷ [])))
        (sym (flush_group_some fl ray w (first_block x) (dat_blocks xs) h.pending))
        (
          r,
          (
            f.bytes ∙ ap (λ (l : List ℕ). l ++ group_of fl level laws (x ∷ xs)) h.bytes ∙ sym whole,
            f.at_end,
          ),
        )

  no_group :
      (w : PgzfWriter) (groups : List (List (List ℕ)))
      → State w groups [] []
      → ((flush_group fl ray w).0 ≡ ok tt) × InFile (flush_group fl ray w).1 groups
  no_group w groups h = rw (flush_group_none fl ray w h.pending) (refl, (h.bytes, h.at_end))

  -- What waits is written as one group, if there is any.
  flush_end :
      (w : PgzfWriter) (groups : List (List (List ℕ))) (pend : List (List ℕ))
      → State w groups pend []
      → FitsIn (groups ++ chunks_of cfg.group_blocks pend)
      → ((flush_group fl ray w).0 ≡ ok tt)
        × InFile (flush_group fl ray w).1 (groups ++ chunks_of cfg.group_blocks pend)
  flush_end w groups [] h fits =
      subst
        (λ (gs : List (List (List ℕ))).
          ((flush_group fl ray w).0 ≡ ok tt) × InFile (flush_group fl ray w).1 gs)
        (sym (ap (◌++◌ groups) (chunks_of-nil cfg.group_blocks) ∙ append-nil groups))
        (no_group w groups h)
  flush_end w groups (x ∷ xs) h fits =
      let one : chunks_of cfg.group_blocks (x ∷ xs) ≡ (x ∷ xs) ∷ [] =
        chunks_of-last cfg.group_blocks (x ∷ xs) (omega arith) (omega (arith, h.open_group)) in
      subst
        (λ (gs : List (List (List ℕ))).
          FitsIn (groups ++ gs)
          → ((flush_group fl ray w).0 ≡ ok tt) × InFile (flush_group fl ray w).1 (groups ++ gs))
        (sym one) (last_group w groups x xs h) fits

  -- `finish` writes the buffer as the last block, and what waits as the last group.
  finish_all :
      (w : PgzfWriter) (all : List (List (List ℕ)))
      → ((buffer_block fl ray w).0 ≡ ok tt)
      → ((flush_group fl ray (buffer_block fl ray w).1).0 ≡ ok tt)
        × InFile (flush_group fl ray (buffer_block fl ray w).1).1 all
      → finish fl ray w ≡ ok (file_of (base ++ groups_bytes fl level laws all))
  unfolding finish
  finish_all w all r (r', (e, p)) =
      let c = (flush_group fl ray (buffer_block fl ray w).1).1.inner in
      let next = λ (u : Unit {0}). flush_group fl ray in
      subst
        (λ (q : Outcome PgzfError (Unit {0}) × PgzfWriter).
          and_then q.0 (λ (u : Unit {0}). ok q.1.inner)
          ≡ ok (file_of (base ++ groups_bytes fl level laws all)))
        (sym (continue-ok (buffer_block fl ray w) tt next r))
        (rw r' (ap ok (cursor-eq c (base ++ groups_bytes fl level laws all) e p)))

  -- An empty buffer is no block.
  buffer_block_empty : (w : PgzfWriter) → w.buffer_len ≡ 0 → buffer_block fl ray w ≡ (ok tt, w)
  unfolding buffer_block
  buffer_block_empty w e = rw (eq→== w.buffer_len 0 e)

  abbrev Ends : PgzfWriter → List (List (List ℕ)) → Type 0
  Ends w all = ((flush_group fl ray w).0 ≡ ok tt) × InFile (flush_group fl ray w).1 all

  plan_one_group :
      (groups : List (List (List ℕ))) (pend : List (List ℕ)) (tail : List ℕ)
      → 0 < length tail
      → length tail < cfg.block_size
      → length pend < cfg.group_blocks
      → plan cfg groups pend tail []
        ≡ completed fl ray level laws rlaws cfg good base groups pend tail
  plan_one_group groups pend tail nonempty short room =
      ap (λ (bs : List (List ℕ)). groups ++ chunks_of cfg.group_blocks (pend ++ bs))
        (ap (chunks_of cfg.block_size) (append-nil tail)
          ∙ chunks_of-last cfg.block_size tail nonempty (omega arith))
      ∙ ap (◌++◌ groups) (
          chunks_of-last cfg.group_blocks (pend ++ (tail ∷ []))
            (omega (arith, length-append pend (tail ∷ [])))
            (omega (arith, room, length-append pend (tail ∷ []))))

  plan_no_block :
      (groups : List (List (List ℕ))) (pend : List (List ℕ))
      → plan cfg groups pend [] [] ≡ groups ++ chunks_of cfg.group_blocks pend
  plan_no_block groups pend =
      ap (λ (bs : List (List ℕ)). groups ++ chunks_of cfg.group_blocks bs)
        (ap (◌++◌ pend) (chunks_of-nil cfg.block_size) ∙ append-nil pend)

  finish_lem :
      (w : PgzfWriter) (groups : List (List (List ℕ))) (pend : List (List ℕ)) (tail : List ℕ)
      → State w groups pend tail
      → length tail < cfg.block_size
      → FitsIn (plan cfg groups pend tail [])
      → finish fl ray w
        ≡ ok (file_of (base ++ groups_bytes fl level laws (plan cfg groups pend tail [])))
  finish_lem w groups pend [] h short fits =
      let e = buffer_block_empty w (sym h.used) in
      finish_all w (plan cfg groups pend [] []) (ap (λ q. q.0) e) (
        subst
          (λ (q : Outcome PgzfError (Unit {0}) × PgzfWriter). Ends q.1 (plan cfg groups pend [] []))
          (sym e)
          (subst (Ends w) (sym (plan_no_block groups pend))
            (flush_end w groups pend h (subst FitsIn (plan_no_block groups pend) fits))))
  finish_lem w groups pend (x ∷ xs) h short fits =
      let tail = x ∷ xs in
      let whole = plan_one_group groups pend tail (omega arith) short h.open_group in
      let fits' = subst FitsIn whole fits in
      let (r, after) =
        buffer_block-Buffered fl ray level laws rlaws cfg good base w groups pend tail h
          (omega arith) (λ e. fits') in
      let one =
        chunks_of-last cfg.group_blocks (pend ++ (tail ∷ []))
          (omega (arith, length-append pend (tail ∷ [])))
          (omega (arith, h.open_group, length-append pend (tail ∷ []))) in
      let one' = ap (◌++◌ groups) one in
      finish_all w (plan cfg groups pend tail []) r (
        subst (Ends (buffer_block fl ray w).1) (sym whole) (elim after [
          | inl (e, h') ↦ no_group (buffer_block fl ray w).1 _ h'
          | inr (e, h') ↦ subst (Ends (buffer_block fl ray w).1) one' (
              flush_end (buffer_block fl ray w).1 groups (pend ++ (tail ∷ [])) h'
                (subst FitsIn (sym one') fits'))
        ]))

  pub finish-Writes :
      (w : PgzfWriter) (all : List (List (List ℕ)))
      → Writes fl ray level laws rlaws cfg good base w all []
      → FitsIn all
      → finish fl ray w ≡ ok (file_of (base ++ groups_bytes fl level laws all))
  finish-Writes w all s fits =
      subst
        (λ (gs : List (List (List ℕ))).
          FitsIn gs → finish fl ray w ≡ ok (file_of (base ++ groups_bytes fl level laws gs)))
        s.planned (finish_lem w s.groups s.pend s.tail s.holds s.short) fits
