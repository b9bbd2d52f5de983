-- ===== src/Reader/Reads.antt =====
-- Each `read` from a file of the writer gives the next bytes.
use pgzf_rs.Prelude.{
  ℕ, suc, ◌+◌, ◌-◌, ◌%◌, ◌^◌, ◌≤◌, ◌<◌, ◌≡◌, refl, sym, ap, subst, ◌∙◌, inl, inr, min, true, false,
  List, [], ◌∷◌, ◌++◌, arith,
}
use pgzf_rs.Prelude.Tests.{
  ltb, ltb→lt, ltb_false→le, le→leb, lt→leb_false, le→ltb_false, ne→==_false, Bool-cases,
}
use pgzf_rs.Prelude.Lists.{
  length, take, drop, flatten, drop-drop, drop_of_length-le, take-append-drop, length-drop,
  length-take, flatten-append, All, All-take, All-drop,
}
use native.Mathlib.Decide.{dec_le}
use pgzf_rs.Prelude.Outcome.{Outcome, ok, Exec, ◌>>◌, with_state}
use pgzf_rs.Error.{IoError}
use pgzf_rs.External.Flate.{Flate}
use pgzf_rs.External.Lru.{LruCache, LruLaws}
use pgzf_rs.External.Rayon.{Rayon, RayonLaws}
use pgzf_rs.BlockCache.{CacheEntry}
use pgzf_rs.Codec.Laws.{FlateLaws}
use pgzf_rs.Index.{block_count}
use pgzf_rs.Index.Types.{PgzfIndex}
use pgzf_rs.Reader.State.{PgzfReader}
use pgzf_rs.Reader.Fill.{fill_batch, fill_readahead}
use pgzf_rs.Reader.Read.{from_first, at_end, from_readahead, execute_pending_seek, read}
use pgzf_rs.Reader.Items.{Item, blocks_in}
use pgzf_rs.Reader.Groups.{bytes_in, bytes_in-take, bytes_in-drop, length-bytes_in}
use pgzf_rs.Reader.Access.{IsFile, run}
use pgzf_rs.Reader.Batch.{fill_batch-run}
use pgzf_rs.Reader.Stream.{
  Progress, reader_of, IsNonempty, IsAt, IsAt-first, Reads, Reads-take_current,
}

module _ (lru : LruCache CacheEntry) (llaws : LruLaws lru) (fl : Flate) (ray : Rayon) (level : ℕ)
    (laws : FlateLaws fl level) (rlaws : RayonLaws ray) (bytes : List ℕ) (index : PgzfIndex)
    (items : List Item) (f : IsFile lru fl level laws bytes index items)
    (full : All IsNonempty (bytes_in (blocks_in items))) where
  abbrev pub blocks : List (List ℕ)
  blocks = bytes_in (blocks_in items)

  abbrev pub At : Progress lru → List ℕ → Type 0
  At = IsAt lru llaws blocks

  abbrev pub of : Progress lru → PgzfReader lru
  of = reader_of lru bytes index

  count : block_count index ≡ length blocks
  count = f.count ∙ sym (length-bytes_in (blocks_in items))

  bytes_in-run : (i n : ℕ) → bytes_in (run lru fl level laws items i n) ≡ take n (drop i blocks)
  bytes_in-run i n =
      bytes_in-take n (drop i (blocks_in items)) ∙ ap (take n) (bytes_in-drop i (blocks_in items))

  abbrev pub ahead : Progress lru → List (List ℕ) → Progress lru
  ahead v l = record v { readahead = l }

  -- There is no block any more.
  pub fill_readahead_over :
      (v : Progress lru)
      → length blocks ≤ v.next
      → fill_readahead lru fl ray (of (ahead v []))
        ≡ (ok tt, of (record (ahead v []) { eof = true }))
  unfolding fill_readahead
  fill_readahead_over v over = rw (le→leb (block_count index) v.next (omega (arith, count))) refl

  fill_readahead_batch :
      (v : Progress lru) (end : ℕ) (q : Outcome IoError (Unit {0}) × PgzfReader lru)
      → v.next < length blocks
      → v.next ≤ end
      → min (block_count index) ((v.next + v.readahead_size) % 2 ^ 64) ≡ end
      → fill_batch lru fl ray index end (of (ahead v [])) ≡ q
      → fill_readahead lru fl ray (of (ahead v [])) ≡ q
  unfolding fill_readahead
  fill_readahead_batch v end q inside le e h =
      rw
        (
          lt→leb_false (block_count index) v.next (omega (arith, count)),
          e,
          le→ltb_false end v.next le,
        )
        h

  -- The blocks that stand next fill the readahead, and what is left is left still.
  pub record Filled (v : Progress lru) (todo : List ℕ) : Type 0 where
    pub batch : List (List ℕ)
    pub size : ℕ
    pub next_blocks : batch ≡ take (suc size) (drop v.next blocks)
    pub some_blocks : 0 < length batch
    pub behind : Progress lru
    pub gives : fill_readahead lru fl ray (of (ahead v [])) ≡ (ok tt, of (ahead behind batch))
    pub at : At (ahead behind batch) todo
    pub done : length behind.current ≤ behind.current_pos

  pub fill_readahead-Filled :
      (v : Progress lru) (todo : List ℕ)
      → At (ahead v []) todo
      → length v.current ≤ v.current_pos
      → v.next < length blocks
      → Filled v todo
  fill_readahead-Filled v todo a done inside =
      let n = min (block_count index) (v.next + v.readahead_size) - v.next - 1 in
      let end : min (block_count index) ((v.next + v.readahead_size) % 2 ^ 64) ≡ v.next + suc n =
        omega (arith, count, a.ahead.0, a.ahead.1) in
      let rest = drop v.next blocks in
      let (p, c, fills, fresh) =
        fill_batch-run lru llaws fl ray level laws rlaws (of (ahead v [])) index items n f
          (omega (arith, count, f.count)) a.fresh in
      let batch = bytes_in (run lru fl level laws items v.next (suc n)) in
      let same : batch ≡ take (suc n) rest = bytes_in-run v.next (suc n) in
      let parts : flatten rest ≡ flatten batch ++ flatten (drop (v.next + suc n) blocks) =
        ap flatten (sym (take-append-drop (suc n) rest))
        ∙ flatten-append (take (suc n) rest) (drop (suc n) rest)
        ∙ (λ i. flatten (sym same i) ++ flatten (drop-drop (suc n) v.next blocks i)) in
      record {
        batch = batch;
        size = n;
        next_blocks = same;
        some_blocks =
            omega (arith, ap length same, length-take (suc n) rest, length-drop v.next blocks);
        behind = record v { pos = p; cache = c; next = v.next + suc n };
        gives = fill_readahead_batch v (v.next + suc n) _ inside (omega arith) end fills;
        at = record {
          ahead = a.ahead;
          fresh = fresh;
          full =
              subst (All IsNonempty) (sym same)
                (All-take IsNonempty (suc n) rest (All-drop IsNonempty v.next blocks full));
          left = a.left ∙ ap (◌++◌ (drop v.current_pos v.current)) parts;
          over = a.over;
        };
        done = done;
      }

  abbrev ReadsFrom : List ℕ → ℕ → Outcome IoError (List ℕ) × PgzfReader lru → Type 0
  ReadsFrom = Reads lru llaws blocks bytes index

  -- The first block of the readahead.
  from_first-Reads :
      (empty : Exec (PgzfReader lru) IoError (List ℕ)) (v : Progress lru) (l : List (List ℕ))
      (todo : List ℕ) (n : ℕ)
      → At (ahead v l) todo
      → length v.current ≤ v.current_pos
      → 0 < n
      → 0 < length l
      → ReadsFrom todo n (from_first lru fl ray empty n l (of (ahead v l)))
  from_first-Reads empty v [] todo n a done pos any = absurd (omega arith)
  from_first-Reads empty v (block ∷ rest) todo n a done pos any =
      Reads-take_current lru llaws blocks bytes index
        (record v { current = block; current_pos = 0; readahead = rest }) todo n
        (IsAt-first lru llaws blocks v todo block rest done a) pos a.full.0

  -- The second attempt.
  abbrev refill : ℕ → Exec (PgzfReader lru) IoError (List ℕ)
  refill n =
      fill_readahead lru fl ray
      >> with_state (λ r. from_first lru fl ray (at_end lru fl ray) n r.readahead)

  from_readahead-Reads :
      (v : Progress lru) (l : List (List ℕ)) (todo : List ℕ) (n : ℕ)
      → At (ahead v l) todo
      → length v.current ≤ v.current_pos
      → 0 < n
      → ReadsFrom todo n (from_readahead lru fl ray n (of (ahead v l)))
  unfolding from_readahead
  from_readahead-Reads v (block ∷ rest) todo n a done pos =
      from_first-Reads (refill n) v (block ∷ rest) todo n a done pos (omega arith)
  from_readahead-Reads v [] todo n a done pos = elim (dec_le (length blocks) v.next) [
    | yes over ↦
        let nothing : todo ≡ [] = a.left ∙ (λ i.
          drop_of_length-le v.current_pos v.current done i
          ++ flatten (drop_of_length-le v.next blocks over i)) in
        record {
          out = [];
          rest = todo;
          behind = record (ahead v []) { eof = true };
          gives = rw (fill_readahead_over v over) refl;
          at = record {
            ahead = a.ahead;
            fresh = a.fresh;
            full = a.full;
            left = a.left;
            over = λ e. nothing;
          };
          splits = refl;
          ends = λ e. nothing;
          bounded = omega arith;
        }
    | no inside ↦
        let g = fill_readahead-Filled v todo a done (omega arith) in
        rw g.gives (
          from_first-Reads (at_end lru fl ray) g.behind g.batch todo n g.at g.done pos
            g.some_blocks)
  ]

  -- Under the laws: each read.
  pub read-Reads :
      (v : Progress lru) (todo : List ℕ) (n : ℕ)
      → At v todo
      → 0 < n
      → ReadsFrom todo n (read lru fl ray n (of v))
  unfolding read execute_pending_seek
  read-Reads v todo n a pos = elim (Bool-cases (ltb v.current_pos (length v.current))) [
    | inl inside ↦
        rw (ne→==_false n 0 (omega arith), inside)
          (Reads-take_current lru llaws blocks bytes index v todo n a pos
            (ltb→lt v.current_pos (length v.current) inside))
    | inr done ↦ elim (Bool-cases v.eof) [
      | inl over ↦
          rw (ne→==_false n 0 (omega arith), done, over)
            (record {
              out = [];
              rest = todo;
              behind = record v { eof = true };
              gives = refl;
              at = record {
                ahead = a.ahead;
                fresh = a.fresh;
                full = a.full;
                left = a.left;
                over = λ e. a.over over;
              };
              splits = refl;
              ends = λ e. a.over over;
              bounded = omega arith;
            })
      | inr more ↦
          rw (ne→==_false n 0 (omega arith), done, more)
            (from_readahead-Reads (record v { eof = false }) v.readahead todo n
              (record {
                ahead = a.ahead;
                fresh = a.fresh;
                full = a.full;
                left = a.left;
                over = λ e. absurd (cc e);
              })
              (ltb_false→le v.current_pos (length v.current) done) pos)
    ]
  ]
