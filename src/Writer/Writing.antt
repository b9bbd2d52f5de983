-- ===== src/Writer/Writing.antt =====
-- `write`, for any data in any pieces, on the way to a planned file.
use native.Mathlib.Decide.{dec_lt}
use pgzf_rs.Prelude.{
  ℕ, zero, suc, ◌+◌, ◌≤◌, ◌<◌, ◌≡◌, inl, inr, refl, sym, ap, subst, ◌∙◌, List, [], ◌∷◌, ◌++◌, arith,
  append_assoc,
}
use pgzf_rs.Prelude.Tests.{eq→==, ne→==_false}
use pgzf_rs.Prelude.Lists.{
  length, take, drop, take-append-drop, length-take, length-drop, length-append,
}
use pgzf_rs.Prelude.Outcome.{Outcome, ok, continue-ok}
use pgzf_rs.Error.{PgzfError}
use pgzf_rs.Format.Config.{PgzfConfig}
use pgzf_rs.External.Flate.{Flate}
use pgzf_rs.External.Rayon.{Rayon, RayonLaws}
use pgzf_rs.Codec.Laws.{FlateLaws}
use pgzf_rs.Writer.{PgzfWriter, room, fill_buffer, buffer_block, block_when_full, write_loop, write}
use pgzf_rs.Writer.Plan.{chunks_of, chunks_of-full, groups_bytes, groups_bytes-append}
use pgzf_rs.Writer.Holds.{IsWritable, Holds, Fits, completed, filled_lem, buffer_block-Buffered}

-- The groups that come of the full groups, the waiting blocks, the buffer and the data to come.
abbrev pub plan :
    PgzfConfig → List (List (List ℕ)) → List (List ℕ) → List ℕ → List ℕ → List (List (List ℕ))
plan cfg groups pend tail rest =
    groups ++ chunks_of cfg.group_blocks (pend ++ chunks_of cfg.block_size (tail ++ rest))

plan-fill :
    (cfg : PgzfConfig) (groups : List (List (List ℕ))) (pend : List (List ℕ))
    (tail piece left rest : List ℕ)
    → plan cfg groups pend tail ((piece ++ left) ++ rest)
      ≡ plan cfg groups pend (tail ++ piece) (left ++ rest)
plan-fill cfg groups pend tail piece left rest =
    ap (λ (l : List ℕ). groups ++ chunks_of cfg.group_blocks (pend ++ chunks_of cfg.block_size l))
      (rw (append_assoc piece left rest, append_assoc tail piece (left ++ rest)) refl)

plan-block :
    (cfg : PgzfConfig) (groups : List (List (List ℕ))) (pend : List (List ℕ)) (block rest : List ℕ)
    → 0 < cfg.block_size
    → length block ≡ cfg.block_size
    → plan cfg groups pend block rest ≡ plan cfg groups (pend ++ (block ∷ [])) [] rest
plan-block cfg groups pend block rest pos full =
    ap (λ (l : List (List ℕ)). groups ++ chunks_of cfg.group_blocks l)
      (ap (◌++◌ pend) (chunks_of-full cfg.block_size block rest pos full)
        ∙ sym (append_assoc pend (block ∷ []) (chunks_of cfg.block_size rest)))

plan-group :
    (cfg : PgzfConfig) (groups : List (List (List ℕ))) (pend : List (List ℕ)) (rest : List ℕ)
    → 0 < cfg.group_blocks
    → length pend ≡ cfg.group_blocks
    → plan cfg groups pend [] rest ≡ plan cfg (groups ++ (pend ∷ [])) [] [] rest
plan-group cfg groups pend rest pos full =
    ap (◌++◌ groups) (chunks_of-full cfg.group_blocks pend (chunks_of cfg.block_size rest) pos full)
    ∙ sym (
        append_assoc groups (pend ∷ [])
          (chunks_of cfg.group_blocks (chunks_of cfg.block_size rest)))

module _ (fl : Flate) (ray : Rayon) (level : ℕ) (laws : FlateLaws fl level) (rlaws : RayonLaws ray)
    (cfg : PgzfConfig) (good : IsWritable level cfg) (base : List ℕ) where
  -- The writer will have written the groups `all` once it is given the data `rest`.
  pub record Writes (w : PgzfWriter) (all : List (List (List ℕ))) (rest : List ℕ) : Type 0 where
    pub groups : List (List (List ℕ))
    pub pend : List (List ℕ)
    pub tail : List ℕ
    pub holds : Holds fl ray level laws rlaws cfg good base w groups pend tail
    pub short : length tail < cfg.block_size
    pub planned : plan cfg groups pend tail rest ≡ all

  abbrev pub FitsAll : List (List (List ℕ)) → Type 0
  FitsAll = Fits fl ray level laws rlaws cfg good base

  Fits-front : (gs hs : List (List (List ℕ))) → FitsAll (gs ++ hs) → FitsAll gs
  Fits-front gs hs fits = omega (
    arith,
    fits,
    ap length (groups_bytes-append fl level laws gs hs),
    length-append base (groups_bytes fl level laws (gs ++ hs)),
    length-append base (groups_bytes fl level laws gs),
    length-append (groups_bytes fl level laws gs) (groups_bytes fl level laws hs),
  )

  -- A full buffer.
  full_block :
      (w : PgzfWriter) (groups : List (List (List ℕ))) (pend : List (List ℕ)) (block rest : List ℕ)
      (all : List (List (List ℕ)))
      → Holds fl ray level laws rlaws cfg good base w groups pend block
      → length block ≡ cfg.block_size
      → plan cfg groups pend block rest ≡ all
      → FitsAll all
      → ((buffer_block fl ray w).0 ≡ ok tt) × Writes (buffer_block fl ray w).1 all rest
  full_block w groups pend block rest all h full planned fits =
      let one = plan-block cfg groups pend block rest good.block full in
      let two : length pend + 1 ≡ cfg.group_blocks
          → plan cfg groups (pend ++ (block ∷ [])) [] rest
            ≡ plan cfg (completed fl ray level laws rlaws cfg good base groups pend block) [] []
                rest =
        λ e.
          plan-group cfg groups (pend ++ (block ∷ [])) rest good.group
            (omega (arith, e, length-append pend (block ∷ []))) in
      let (r, after) =
        buffer_block-Buffered fl ray level laws rlaws cfg good base w groups pend block h
          (omega (arith, full, good.block))
          (λ e.
            Fits-front (completed fl ray level laws rlaws cfg good base groups pend block) _
              (subst FitsAll (sym planned ∙ one ∙ two e) fits)) in
      (
        r,
        elim after [
          | inl (e, h') ↦ record {
            groups = completed fl ray level laws rlaws cfg good base groups pend block;
            pend = [];
            tail = [];
            holds = h';
            short = good.block;
            planned = sym (one ∙ two e) ∙ planned;
          }
          | inr (e, h') ↦ record {
            groups = groups;
            pend = pend ++ (block ∷ []);
            tail = [];
            holds = h';
            short = good.block;
            planned = sym one ∙ planned;
          }
        ],
      )

  -- One round of the loop.
  round_lem :
      (w : PgzfWriter) (all : List (List (List ℕ))) (buf rest : List ℕ)
      → Writes w all (buf ++ rest)
      → FitsAll all
      → ((block_when_full fl ray (fill_buffer w (take (room w) buf))).0 ≡ ok tt)
        × Writes
            (block_when_full fl ray (fill_buffer w (take (room w) buf))).1
            all
            (drop (room w) buf ++ rest)
  round_lem w all buf rest s fits =
      let piece = take (room w) buf in
      let left = drop (room w) buf in
      let h = s.holds in
      let size : w.config.block_size ≡ cfg.block_size =
        ap (λ (c : PgzfConfig). c.block_size) h.config in
      let long = length-take (room w) buf in
      let held =
        filled_lem fl ray level laws rlaws cfg good base w s.groups s.pend s.tail piece h
          (omega (arith, long, h.used, size)) in
      let planned : plan cfg s.groups s.pend (s.tail ++ piece) (left ++ rest) ≡ all =
        sym (plan-fill cfg s.groups s.pend s.tail piece left rest)
        ∙ ap (λ (l : List ℕ). plan cfg s.groups s.pend s.tail (l ++ rest))
            (take-append-drop (room w) buf)
        ∙ s.planned in
      elim (dec_lt (length s.tail + length piece) cfg.block_size) [
        | yes short ↦
            rw
              (ne→==_false (w.buffer_len + length piece) w.config.block_size
                (λ e. omega (arith, e, short, size, h.used)))
              (
                refl,
                record {
                  groups = s.groups;
                  pend = s.pend;
                  tail = s.tail ++ piece;
                  holds = held;
                  short = omega (arith, short, length-append s.tail piece);
                  planned = planned;
                },
              )
        | no full ↦
            rw
              (eq→== (w.buffer_len + length piece) w.config.block_size
                (omega (arith, full, size, h.used, long)))
              (full_block (fill_buffer w piece) s.groups s.pend (s.tail ++ piece) (left ++ rest) all
                held (omega (arith, full, size, h.used, long, length-append s.tail piece)) planned
                fits)
      ]

  write_loop-Writes :
      (fuel : ℕ) (w : PgzfWriter) (all : List (List (List ℕ))) (buf rest : List ℕ)
      → length buf ≤ fuel
      → Writes w all (buf ++ rest)
      → FitsAll all
      → ((write_loop fl ray fuel buf w).0 ≡ ok tt)
        × Writes (write_loop fl ray fuel buf w).1 all rest
  unfolding write_loop
  write_loop-Writes fuel w all [] rest enough s fits = (refl, s)
  write_loop-Writes zero w all (b ∷ bs) rest enough s fits = absurd (omega arith)
  write_loop-Writes (suc fuel) w all (b ∷ bs) rest enough s fits =
      let (r, after) = round_lem w all (b ∷ bs) rest s fits in
      let size = ap (λ (c : PgzfConfig). c.block_size) s.holds.config in
      let less : length (drop (room w) (b ∷ bs)) ≤ fuel =
        omega (arith, length-drop (room w) (b ∷ bs), s.short, s.holds.used, size) in
      let p = block_when_full fl ray (fill_buffer w (take (room w) (b ∷ bs))) in
      let next = λ (u : Unit {0}). write_loop fl ray fuel (drop (room w) (b ∷ bs)) in
      subst (λ (q : Outcome PgzfError (Unit {0}) × PgzfWriter). (q.0 ≡ ok tt) × Writes q.1 all rest)
        (sym (continue-ok p tt next r))
        (write_loop-Writes fuel p.1 all (drop (room w) (b ∷ bs)) rest less after fits)

  pub write-Writes :
      (w : PgzfWriter) (all : List (List (List ℕ))) (buf rest : List ℕ)
      → Writes w all (buf ++ rest)
      → FitsAll all
      → ((write fl ray buf w).0 ≡ ok (length buf)) × Writes (write fl ray buf w).1 all rest
  unfolding write
  write-Writes w all buf rest s fits =
      let (r, after) = write_loop-Writes (length buf) w all buf rest (omega arith) s fits in
      rw r (refl, after)
