-- ===== src/Writer/Holds.antt =====
-- What the writer has done with the data that it was given: full groups are in the file, full blocks
-- wait for their group, and the buffer has the rest.
use native.Mathlib.Decide.{dec_lt}
use pgzf_rs.Prelude.{
  ℕ, zero, suc, ◌+◌, ◌^◌, ◌≤◌, ◌<◌, ◌≡◌, ◌⊎◌, inl, inr, refl, sym, ap, ◌∙◌, true, false, List, [],
  ◌∷◌, ◌++◌, arith, append-nil, append_assoc,
}
use pgzf_rs.Prelude.Tests.{leb, le→leb, lt→leb_false, eq→==, ne→==_false}
use pgzf_rs.Prelude.Lists.{
  length, take, drop, length-append, length-drop, take-append, length-replicate,
}
use pgzf_rs.Prelude.Outcome.{ok}
use pgzf_rs.Format.Bytes.{patch}
use pgzf_rs.Format.Config.{PgzfConfig}
use pgzf_rs.External.Flate.{Flate}
use pgzf_rs.External.Rayon.{Rayon, RayonLaws}
use pgzf_rs.Codec.Laws.{FlateLaws}
use pgzf_rs.Writer.{PgzfWriter, push_block, fill_buffer, next_type, flush_pending, buffer_block}
use pgzf_rs.Writer.Group.{IsGroup, flush_pending-Flushed}
use pgzf_rs.Writer.Finish.{flush_group_some}
use pgzf_rs.Writer.Plan.{
  dat_blocks, first_block, typed, type_behind, typed-snoc, group_of, groups_bytes,
  groups_bytes-append, group_of-bounds,
}

length-patch :
    (buf : List ℕ) (k : ℕ) (new : List ℕ)
    → k + length new ≤ length buf
    → length (patch buf k new) ≡ length buf
length-patch buf zero new h =
    omega (arith, length-append new (drop (length new) buf), length-drop (length new) buf)
length-patch [] (suc k) new h = refl
length-patch (b ∷ buf) (suc k) new h = omega (arith, length-patch buf k new (omega arith))

take-patch :
    (buf : List ℕ) (k : ℕ) (new : List ℕ)
    → k + length new ≤ length buf
    → take (k + length new) (patch buf k new) ≡ take k buf ++ new
take-patch buf zero new h = take-append (0 + length new) new (drop (length new) buf) (omega arith)
take-patch [] (suc k) new h = absurd (omega arith)
take-patch (b ∷ buf) (suc k) new h =
    ap (λ (n : ℕ). take n (b ∷ patch buf k new)) {y = suc (k + length new)} (omega arith)
    ∙ ap (◌∷◌ b) (take-patch buf k new (omega arith))

-- The bounds that the configuration has to keep.
pub record IsWritable (level : ℕ) (c : PgzfConfig) : Type 0 where
  pub at_level : c.compression_level ≡ level
  pub block : 0 < c.block_size
  pub group : 0 < c.group_blocks
  pub batch : 0 < c.compression_batch_size

module _ (fl : Flate) (ray : Rayon) (level : ℕ) (laws : FlateLaws fl level) (rlaws : RayonLaws ray)
    (cfg : PgzfConfig) (good : IsWritable level cfg) (base : List ℕ) where
  abbrev pub bytes_of : List (List (List ℕ)) → List ℕ
  bytes_of gs = base ++ groups_bytes fl level laws gs

  pub record Holds (w : PgzfWriter) (groups : List (List (List ℕ))) (pend : List (List ℕ))
      (tail : List ℕ) : Type 0 where
    pub bytes : w.inner.bytes ≡ bytes_of groups
    pub at_end : w.inner.pos ≡ length w.inner.bytes
    pub start : w.group_start_offset ≡ length w.inner.bytes
    pub pending : w.pending_blocks ≡ typed pend
    pub in_group : w.blocks_in_group ≡ length pend
    pub gc : (w.blocks_in_group ≡ 0) ⊎ (w.gc_pending ≡ true)
    pub open_group : length pend < cfg.group_blocks
    pub buffer : length w.buffer ≡ cfg.block_size
    pub filled : take w.buffer_len w.buffer ≡ tail
    pub used : length tail ≡ w.buffer_len
    pub config : w.config ≡ cfg

  next_type-behind :
      (w : PgzfWriter) (pend : List (List ℕ))
      → w.blocks_in_group ≡ length pend
      → next_type w ≡ type_behind pend
  next_type-behind w [] e = rw (eq→== w.blocks_in_group 0 e)
  next_type-behind w (b ∷ pend) e = rw (ne→==_false w.blocks_in_group 0 (omega arith))

  -- The pending blocks once the buffer has become one.
  pushed :
      (w : PgzfWriter) (groups : List (List (List ℕ))) (pend : List (List ℕ)) (tail : List ℕ)
      → Holds w groups pend tail
      → (push_block w).pending_blocks ≡ typed (pend ++ (tail ∷ []))
  unfolding push_block
  pushed w groups pend tail h =
      rw (h.pending, h.filled, next_type-behind w pend h.in_group) (sym (typed-snoc pend tail))

  pushed_gc :
      (w : PgzfWriter)
      → (w.blocks_in_group ≡ 0) ⊎ (w.gc_pending ≡ true)
      → (push_block w).gc_pending ≡ true
  unfolding push_block
  pushed_gc w h = ground (arith, h)

  -- The group that the buffer completes.
  abbrev pub completed : List (List (List ℕ)) → List (List ℕ) → List ℕ → List (List (List ℕ))
  completed groups pend tail = groups ++ ((pend ++ (tail ∷ [])) ∷ [])

  abbrev pub Fits : List (List (List ℕ)) → Type 0
  Fits gs = length (bytes_of gs) < 2 ^ 64

  snoc-cons :
      (pend : List (List ℕ)) (tail : List ℕ)
      → (x : List ℕ) × (xs : List (List ℕ)) × (pend ++ (tail ∷ []) ≡ x ∷ xs)
  snoc-cons [] tail = (tail, [], refl)
  snoc-cons (x ∷ xs) tail = (x, xs ++ (tail ∷ []), refl)

  pushed-IsGroup :
      (w : PgzfWriter) (groups : List (List (List ℕ))) (pend : List (List ℕ)) (tail : List ℕ)
      (x : List ℕ) (xs : List (List ℕ))
      → Holds w groups pend tail
      → pend ++ (tail ∷ []) ≡ x ∷ xs
      → IsGroup (push_block w) (first_block x) (dat_blocks xs)
  unfolding push_block
  pushed-IsGroup w groups pend tail x xs h e = record {
    pending = pushed w groups pend tail h ∙ ap typed e;
    first = refl;
    at_end = h.at_end;
    start = h.start;
    gc = pushed_gc w h.gc;
    batch = omega (arith, good.batch, ap (λ (c : PgzfConfig). c.compression_batch_size) h.config);
  }

  pub completed_bytes :
      (groups : List (List (List ℕ))) (g : List (List ℕ))
      → bytes_of (groups ++ (g ∷ [])) ≡ bytes_of groups ++ group_of fl level laws g
  completed_bytes groups g = rw (
    groups_bytes-append fl level laws groups (g ∷ []),
    append-nil (group_of fl level laws g),
    append_assoc base (groups_bytes fl level laws groups) (group_of fl level laws g),
  )

  -- A group that is full is written out.
  flushed_lem :
      (w : PgzfWriter) (groups : List (List (List ℕ))) (pend : List (List ℕ)) (tail : List ℕ)
      → Holds w groups pend tail
      → Fits (completed groups pend tail)
      → ((flush_pending fl ray (push_block w)).0 ≡ ok tt)
        × Holds (flush_pending fl ray (push_block w)).1 (completed groups pend tail) [] []
  unfolding push_block
  flushed_lem w groups pend tail h fits =
      let (x, xs, e) = snoc-cons pend tail in
      let whole : bytes_of (completed groups pend tail)
          ≡ bytes_of groups ++ group_of fl level laws (x ∷ xs) =
        completed_bytes groups (pend ++ (tail ∷ []))
        ∙ ap (λ (g : List (List ℕ)). bytes_of groups ++ group_of fl level laws g) e in
      let size =
        ap length whole ∙ length-append (bytes_of groups) (group_of fl level laws (x ∷ xs)) in
      let (small, inside) = group_of-bounds fl level laws x xs in
      let (r, f) =
        flush_pending-Flushed fl ray level laws rlaws (push_block w) (first_block x) (dat_blocks xs)
          (pushed-IsGroup w groups pend tail x xs h e)
          (ap (λ (c : PgzfConfig). c.compression_level) h.config ∙ good.at_level)
          (omega (arith, size, inside, fits, ap length h.bytes))
          (omega (arith, size, small, fits)) in
      (
        r,
        record {
          bytes =
              f.bytes
              ∙ ap (λ (l : List ℕ). l ++ group_of fl level laws (x ∷ xs)) h.bytes
              ∙ sym whole;
          at_end = f.at_end;
          start = f.start;
          pending = f.pending;
          in_group = f.in_group;
          gc = inl f.in_group;
          open_group = good.group;
          buffer =
              ap length f.buffer
              ∙ length-replicate w.config.block_size 0
              ∙ ap (λ (c : PgzfConfig). c.block_size) h.config;
          filled =
              ap (λ (n : ℕ). take n (flush_pending fl ray (push_block w)).1.buffer) f.buffer_len;
          used = sym f.buffer_len;
          config = f.config ∙ h.config;
        },
      )

  -- A full block that does not complete its group waits.
  waiting_lem :
      (w : PgzfWriter) (groups : List (List (List ℕ))) (pend : List (List ℕ)) (tail : List ℕ)
      → Holds w groups pend tail
      → length pend + 1 < cfg.group_blocks
      → Holds (push_block w) groups (pend ++ (tail ∷ [])) []
  unfolding push_block
  waiting_lem w groups pend tail h more = record {
    bytes = h.bytes;
    at_end = h.at_end;
    start = h.start;
    pending = pushed w groups pend tail h;
    in_group = omega (arith, h.in_group, length-append pend (tail ∷ []));
    gc = inr (pushed_gc w h.gc);
    open_group = omega (arith, more, length-append pend (tail ∷ []));
    buffer =
        length-replicate w.config.block_size 0 ∙ ap (λ (c : PgzfConfig). c.block_size) h.config;
    filled = refl;
    used = refl;
    config = h.config;
  }

  pub filled_lem :
      (w : PgzfWriter) (groups : List (List (List ℕ))) (pend : List (List ℕ)) (tail piece : List ℕ)
      → Holds w groups pend tail
      → length tail + length piece ≤ cfg.block_size
      → Holds (fill_buffer w piece) groups pend (tail ++ piece)
  filled_lem w groups pend tail piece h fits = record {
    bytes = h.bytes;
    at_end = h.at_end;
    start = h.start;
    pending = h.pending;
    in_group = h.in_group;
    gc = h.gc;
    open_group = h.open_group;
    buffer = length-patch w.buffer w.buffer_len piece (omega (arith, h.used, h.buffer)) ∙ h.buffer;
    filled =
        take-patch w.buffer w.buffer_len piece (omega (arith, h.used, h.buffer))
        ∙ ap (λ (l : List ℕ). l ++ piece) h.filled;
    used = omega (arith, h.used, length-append tail piece);
    config = h.config;
  }

  group_full :
      (w : PgzfWriter) (pend : List (List ℕ))
      → w.config ≡ cfg
      → w.blocks_in_group ≡ length pend
      → length pend + 1 ≡ cfg.group_blocks
      → leb (push_block w).config.group_blocks (push_block w).blocks_in_group ≡ true
  unfolding push_block
  group_full w pend c e full =
      le→leb w.config.group_blocks (w.blocks_in_group + 1)
        (omega (arith, ap (λ (c : PgzfConfig). c.group_blocks) c))

  group_open :
      (w : PgzfWriter) (pend : List (List ℕ))
      → w.config ≡ cfg
      → w.blocks_in_group ≡ length pend
      → length pend + 1 < cfg.group_blocks
      → leb (push_block w).config.group_blocks (push_block w).blocks_in_group ≡ false
  unfolding push_block
  group_open w pend c e more =
      lt→leb_false w.config.group_blocks (w.blocks_in_group + 1)
        (omega (arith, ap (λ (c : PgzfConfig). c.group_blocks) c))

  -- The buffer becomes a block, which completes its group or waits.
  abbrev pub Buffered : PgzfWriter → List (List (List ℕ)) → List (List ℕ) → List ℕ → Type 0
  Buffered w groups pend tail =
      ((length pend + 1 ≡ cfg.group_blocks) × Holds w (completed groups pend tail) [] [])
      ⊎ ((length pend + 1 < cfg.group_blocks) × Holds w groups (pend ++ (tail ∷ [])) [])

  pub buffer_block-Buffered :
      (w : PgzfWriter) (groups : List (List (List ℕ))) (pend : List (List ℕ)) (tail : List ℕ)
      → Holds w groups pend tail
      → 0 < length tail
      → (length pend + 1 ≡ cfg.group_blocks → Fits (completed groups pend tail))
      → ((buffer_block fl ray w).0 ≡ ok tt) × Buffered (buffer_block fl ray w).1 groups pend tail
  unfolding buffer_block
  buffer_block-Buffered w groups pend tail h nonempty fits =
      elim (dec_lt (length pend + 1) cfg.group_blocks) [
        | yes more ↦
            rw
              (
                ne→==_false w.buffer_len 0 (omega (arith, h.used)),
                group_open w pend h.config h.in_group more,
              )
              (refl, inr (more, waiting_lem w groups pend tail h more))
        | no done ↦
            let full : length pend + 1 ≡ cfg.group_blocks = omega (arith, h.open_group) in
            let (x, xs, e) = snoc-cons pend tail in
            let (r, after) = flushed_lem w groups pend tail h (fits full) in
            rw
              (
                ne→==_false w.buffer_len 0 (omega (arith, h.used)),
                group_full w pend h.config h.in_group full,
                flush_group_some fl ray (push_block w) (first_block x) (dat_blocks xs)
                    (pushed w groups pend tail h ∙ ap typed e),
                r,
              )
              (refl, inl (full, after))
      ]
