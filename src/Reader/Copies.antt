-- ===== src/Reader/Copies.antt =====
-- The loops that copy from a reader, on a file of the writer.
use pgzf_rs.Prelude.{
  ℕ, zero, suc, ◌-◌, ◌≤◌, ◌<◌, ◌≡◌, inl, inr, refl, sym, ap, ◌∙◌, min, List, [], ◌∷◌, ◌++◌, map,
  arith, append_assoc, append-nil,
}
use pgzf_rs.Prelude.Tests.{◌==◌, Bool-cases, ==→eq, ==_false→ne}
use pgzf_rs.Prelude.Lists.{length, take, flatten, length-append, take-nil, All}
use pgzf_rs.Prelude.Outcome.{Outcome, ok, Exec, ◌>>=◌, pure}
use pgzf_rs.Error.{IoError}
use pgzf_rs.External.Flate.{Flate}
use pgzf_rs.External.Lru.{LruCache, LruLaws}
use pgzf_rs.External.Rayon.{Rayon, RayonLaws}
use pgzf_rs.BlockCache.{CacheEntry}
use pgzf_rs.Codec.Laws.{FlateLaws}
use pgzf_rs.Index.Types.{PgzfIndex}
use pgzf_rs.Index.Places.{starts}
use pgzf_rs.Reader.State.{PgzfReader}
use pgzf_rs.Reader.Read.{read}
use pgzf_rs.Reader.Items.{Item, blocks_in}
use pgzf_rs.Reader.Groups.{bytes_in}
use pgzf_rs.Reader.Access.{IsFile}
use pgzf_rs.Reader.Stream.{reader_of, IsNonempty, Reads}
use pgzf_rs.Reader.Seeks.{IsReady, IsReady-of, read-IsReady}
use pgzf_rs.Command.Copy.{copy_buffer, io_copy_buffer, copy_limited, copy_all}

-- A read that takes more than is behind it.
take-append_le :
    (m : ℕ) (xs ys : List ℕ) → length xs ≤ m → take m (xs ++ ys) ≡ xs ++ take (m - length xs) ys
take-append_le m [] ys h = ap (λ (k : ℕ). take k ys) (omega arith)
take-append_le zero (x ∷ xs) ys h = absurd (omega arith)
take-append_le (suc m) (x ∷ xs) ys h = ap (◌∷◌ x) (
    take-append_le m xs ys (omega arith)
    ∙ ap (λ (k : ℕ). xs ++ take k ys) {x = m - length xs} (omega arith))

-- Reads into buffers of these sizes, one after the other.
module _ (lru : LruCache CacheEntry) (fl : Flate) (ray : Rayon) where
  abbrev pub read_each : List ℕ → Exec (PgzfReader lru) IoError (List (List ℕ))
  read_each [] = pure []
  read_each (n ∷ ns) =
      read lru fl ray n >>= λ piece. read_each ns >>= λ pieces. pure (piece ∷ pieces)

-- Pieces of some data in its order, each at most as long as its buffer and empty only at the end.
abbrev pub IsStream : List ℕ → List ℕ → List (List ℕ) → Type 0
IsStream [] todo [] = Unit
IsStream [] todo (piece ∷ pieces) = ⊥
IsStream (n ∷ ns) todo [] = ⊥
IsStream (n ∷ ns) todo (piece ∷ pieces) =
    (length piece ≤ n)
    × (length piece ≡ 0 → todo ≡ [])
    × ((rest : List ℕ) × (todo ≡ piece ++ rest) × IsStream ns rest pieces)

module _ (lru : LruCache CacheEntry) (llaws : LruLaws lru) (fl : Flate) (ray : Rayon) (level : ℕ)
    (laws : FlateLaws fl level) (rlaws : RayonLaws ray) (bytes : List ℕ) (index : PgzfIndex)
    (items : List Item) (f : IsFile lru fl level laws bytes index items)
    (full : All IsNonempty (bytes_in (blocks_in items)))
    (u : index.uncompressed_offsets
      ≡ starts 0 (map length (bytes_in (blocks_in items)))
        ++ (length (flatten (bytes_in (blocks_in items))) ∷ [])) where
  abbrev pub Ready : PgzfReader lru → List ℕ → Type 0
  Ready = IsReady lru llaws fl ray level laws rlaws bytes index items f full u

  -- The reader behind a read.
  Ready-Reads :
      (todo : List ℕ) (n : ℕ) (q : Outcome IoError (List ℕ) × PgzfReader lru)
      (s : Reads lru llaws (bytes_in (blocks_in items)) bytes index todo n q)
      → Ready (reader_of lru bytes index s.behind) s.rest
  Ready-Reads todo n q s =
      IsReady-of lru llaws fl ray level laws rlaws bytes index items f full u s.behind s.rest s.at

  -- A loop over reads has written `out`.
  abbrev Writes : List ℕ → List ℕ → Outcome IoError (Unit {0}) × (PgzfReader lru × List ℕ) → Type 0
  Writes written out q = (q.0 ≡ ok tt) × (q.1.1 ≡ written ++ out)

  pub copy_all-Ready :
      (fuel : ℕ) (r : PgzfReader lru) (todo written : List ℕ)
      → Ready r todo
      → length todo < fuel
      → Writes written todo (copy_all (read lru fl ray) fuel (r, written))
  unfolding copy_all
  copy_all-Ready zero r todo written h enough = absurd (omega arith)
  copy_all-Ready (suc fuel) r todo written h enough =
      let s =
        read-IsReady lru llaws fl ray level laws rlaws bytes index items f full u r todo
          io_copy_buffer h (omega arith) in
      elim (Bool-cases (length s.out == 0)) [
        | inl over ↦
            rw (s.gives, over)
              (
                refl,
                sym (append-nil written)
                    ∙ ap (◌++◌ written) (sym (s.ends (==→eq (length s.out) 0 over))),
              )
        | inr more ↦
            let any = ==_false→ne (length s.out) 0 more in
            let rest =
              copy_all-Ready fuel (reader_of lru bytes index s.behind) s.rest (written ++ s.out)
                (Ready-Reads todo io_copy_buffer _ s)
                (omega (arith, enough, any, ap length s.splits, length-append s.out s.rest)) in
            rw (s.gives, more)
              (
                rest.0,
                rest.1 ∙ append_assoc written s.out s.rest ∙ ap (◌++◌ written) (sym s.splits),
              )
      ]

  pub copy_limited-Ready :
      (fuel m : ℕ) (r : PgzfReader lru) (todo written : List ℕ)
      → Ready r todo
      → m ≤ fuel
      → Writes written (take m todo) (copy_limited (read lru fl ray) fuel m (r, written))
  unfolding copy_limited
  copy_limited-Ready fuel zero r todo written h enough = (refl, sym (append-nil written))
  copy_limited-Ready zero (suc m) r todo written h enough = absurd (omega arith)
  copy_limited-Ready (suc fuel) (suc m) r todo written h enough =
      let n = min (suc m) copy_buffer in
      let s =
        read-IsReady lru llaws fl ray level laws rlaws bytes index items f full u r todo n h
          (omega arith) in
      elim (Bool-cases (length s.out == 0)) [
        | inl over ↦
            rw (s.gives, over)
              (
                refl,
                sym (append-nil written)
                    ∙ ap (◌++◌ written) (
                        sym (take-nil (suc m))
                        ∙ ap (take (suc m)) (sym (s.ends (==→eq (length s.out) 0 over)))),
              )
        | inr more ↦
            let any = ==_false→ne (length s.out) 0 more in
            let rest =
              copy_limited-Ready fuel (suc m - length s.out) (reader_of lru bytes index s.behind)
                s.rest (written ++ s.out) (Ready-Reads todo n _ s) (omega (arith, enough, any)) in
            rw (s.gives, more)
              (
                rest.0,
                rest.1
                    ∙ append_assoc written s.out (take (suc m - length s.out) s.rest)
                    ∙ ap (◌++◌ written) (
                        sym (take-append_le (suc m) s.out s.rest (omega (arith, s.bounded)))
                        ∙ ap (take (suc m)) (sym s.splits)),
              )
      ]

  pub read_each-Ready :
      (ns : List ℕ) (r : PgzfReader lru) (todo : List ℕ)
      → Ready r todo
      → All (λ n. 0 < n) ns
      → (pieces : List (List ℕ)) × ((read_each lru fl ray ns r).0 ≡ ok pieces)
        × IsStream ns todo pieces
  read_each-Ready [] r todo h pos = ([], refl, tt)
  read_each-Ready (n ∷ ns) r todo h pos =
      let s =
        read-IsReady lru llaws fl ray level laws rlaws bytes index items f full u r todo n h
          pos.0 in
      let (pieces, rest, more) =
        read_each-Ready ns (reader_of lru bytes index s.behind) s.rest (Ready-Reads todo n _ s)
          pos.1 in
      (s.out ∷ pieces, rw (s.gives, rest) refl, (s.bounded, s.ends, (s.rest, s.splits, more)))
