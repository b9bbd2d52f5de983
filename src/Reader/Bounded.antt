-- ===== src/Reader/Bounded.antt =====
-- How much `read` gives.
use pgzf_rs.Prelude.{ℕ, ◌≤◌, ◌≡◌, subst, ◌||◌, List, [], ◌∷◌, arith}
use pgzf_rs.Prelude.Tests.{ltb, ◌==◌}
use pgzf_rs.Prelude.Lists.{length, drop, length-take}
use pgzf_rs.Prelude.Outcome.{ok, Exec}
use pgzf_rs.Error.{IoError}
use pgzf_rs.Prelude.Gives.{IfOk, Gives, Gives-after, Gives-if}
use pgzf_rs.External.Lru.{LruCache}
use pgzf_rs.External.Flate.{Flate}
use pgzf_rs.External.Rayon.{Rayon}
use pgzf_rs.BlockCache.{CacheEntry}
use pgzf_rs.Reader.State.{PgzfReader}
use pgzf_rs.Reader.Fill.{fill_readahead}
use pgzf_rs.Reader.Read.{
  take_current, execute_pending_seek, from_first, at_end, from_readahead,
  advance_to_next_block_sequential, from_stream, read,
}

module _ (lru : LruCache CacheEntry) (fl : Flate) (ray : Rayon) where
  abbrev AtMost : ℕ → List ℕ → Type 0
  AtMost n buf = length buf ≤ n

  take_current-AtMost : (n : ℕ) → Gives (AtMost n) (take_current lru n)
  unfolding take_current
  take_current-AtMost n r = omega (arith, length-take n (drop r.current_pos r.current_block))

  from_first-AtMost :
      (empty : Exec (PgzfReader lru) IoError (List ℕ)) (n : ℕ) (blocks : List (List ℕ))
      → Gives (AtMost n) empty
      → Gives (AtMost n) (from_first lru fl ray empty n blocks)
  from_first-AtMost empty n [] h = h
  from_first-AtMost empty n (block ∷ blocks) h = λ r. take_current-AtMost n _

  from_readahead-AtMost : (n : ℕ) → Gives (AtMost n) (from_readahead lru fl ray n)
  unfolding from_readahead
  from_readahead-AtMost n r =
      from_first-AtMost _ n r.readahead
        (Gives-after (AtMost n) (fill_readahead lru fl ray) _
          (λ u r'. from_first-AtMost (at_end lru fl ray) n r'.readahead (λ s. omega arith) r'))
        r

  from_stream-AtMost : (n : ℕ) → Gives (AtMost n) (from_stream lru fl ray n)
  unfolding from_stream
  from_stream-AtMost n =
      Gives-after (AtMost n) (advance_to_next_block_sequential lru fl ray) _ (λ u r.
        Gives-if (AtMost n) (length r.current_block == 0 || r.eof) _ _ (λ s. omega arith)
          (λ s. omega (arith, length-take n s.current_block)) r)

  read-AtMost : (n : ℕ) → Gives (AtMost n) (read lru fl ray n)
  unfolding read
  read-AtMost n =
      Gives-if (AtMost n) (n == 0) _ _ (λ s. omega arith)
        (Gives-after (AtMost n) (execute_pending_seek lru fl ray) _ (λ u r.
          Gives-if (AtMost n) (ltb r.current_pos (length r.current_block)) _ _
            (take_current-AtMost n)
            (Gives-if (AtMost n) r.eof _ _ (λ s. omega arith)
              (Gives-if (AtMost n) r.is_pgzf _ _ (from_readahead-AtMost n) (from_stream-AtMost n)))
            r))

  pub read-le :
      (n : ℕ) (r : PgzfReader lru) (buf : List ℕ)
      → (read lru fl ray n r).0 ≡ ok buf
      → length buf ≤ n
  read-le n r buf e = subst (IfOk (AtMost n)) e (read-AtMost n r)
