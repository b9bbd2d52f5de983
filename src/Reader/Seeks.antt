-- ===== src/Reader/Seeks.antt =====
-- A seek to a byte on a file of the writer, and the reads behind it.
use pgzf_rs.Prelude.{
  ℕ, zero, suc, ◌+◌, ◌≤◌, ◌<◌, ◌≡◌, ◌⊎◌, inl, inr, refl, sym, ap, subst, ◌∙◌, true, false, some,
  List, [], ◌∷◌, ◌++◌, map, arith, append_assoc,
}
use pgzf_rs.Prelude.Tests.{ne→==_false}
use pgzf_rs.Prelude.Lists.{
  length, take, drop, flatten, drop_of_length-le, drop-nil, length-append, length-drop, All,
}
use native.Mathlib.Decide.{dec_le}
use pgzf_rs.Prelude.Outcome.{Outcome, ok}
use pgzf_rs.Error.{IoError}
use pgzf_rs.External.Flate.{Flate}
use pgzf_rs.External.Lru.{LruCache, LruLaws}
use pgzf_rs.External.Rayon.{Rayon, RayonLaws}
use pgzf_rs.BlockCache.{CacheEntry, get}
use pgzf_rs.Codec.Laws.{FlateLaws}
use pgzf_rs.Index.Types.{PgzfIndex}
use pgzf_rs.Index.Places.{starts}
use pgzf_rs.Index.Offsets.{Sought, Sought_lem, drop-Sought}
use pgzf_rs.Reader.State.{PgzfReader}
use pgzf_rs.Reader.Read.{execute_pending_seek, seek_within, seek_missing, read}
use pgzf_rs.Reader.Items.{Item, blocks_in}
use pgzf_rs.Reader.Groups.{bytes_in, length-bytes_in}
use pgzf_rs.Reader.Access.{IsFile, Located_lem}
use pgzf_rs.Reader.Lookup.{IsFresh, IsFresh-get}
use pgzf_rs.Reader.Stream.{Progress, reader_of, IsNonempty, IsAhead, IsAt, Reads}
use pgzf_rs.Reader.Reads.{fill_readahead_over, fill_readahead-Filled, read-Reads}

-- A list is empty or not.
nil-or-cons : {A : Type 0} (l : List A) → (l ≡ []) ⊎ ((x : A) × (rest : List A) × (l ≡ x ∷ rest))
nil-or-cons [] = inl refl
nil-or-cons (x ∷ rest) = inr (x, rest, refl)

drop-append_le :
    {A : Type 0} (n : ℕ) (xs ys : List A) → n ≤ length xs → drop n (xs ++ ys) ≡ drop n xs ++ ys
drop-append_le zero xs ys h = refl
drop-append_le (suc n) [] ys h = absurd (omega arith)
drop-append_le (suc n) (x ∷ xs) ys h = drop-append_le n xs ys (omega arith)

take-suc :
    (i : ℕ) (bs : List (List ℕ)) (b : List ℕ) (rest : List (List ℕ))
    → drop i bs ≡ b ∷ rest
    → length (flatten (take (suc i) bs)) ≡ length (flatten (take i bs)) + length b
take-suc zero [] b rest h = absurd (cc h)
take-suc zero (x ∷ bs) b rest h = omega (
  arith,
  ap (λ (l : List (List ℕ)). length (flatten (take (suc zero) l))) h,
  length-append {A = ℕ} x [],
  length-append {A = ℕ} b [],
)
take-suc (suc i) [] b rest h = absurd (cc h)
take-suc (suc i) (x ∷ bs) b rest h = omega (
  arith,
  take-suc i bs b rest h,
  length-append x (flatten (take (suc i) bs)),
  length-append x (flatten (take i bs)),
)

module _ (lru : LruCache CacheEntry) (llaws : LruLaws lru) (fl : Flate) (ray : Rayon) (level : ℕ)
    (laws : FlateLaws fl level) (rlaws : RayonLaws ray) (bytes : List ℕ) (index : PgzfIndex)
    (items : List Item) (f : IsFile lru fl level laws bytes index items)
    (full : All IsNonempty (bytes_in (blocks_in items)))
    (u : index.uncompressed_offsets
      ≡ starts 0 (map length (bytes_in (blocks_in items)))
        ++ (length (flatten (bytes_in (blocks_in items))) ∷ [])) where
  abbrev all : List (List ℕ)
  all = bytes_in (blocks_in items)

  abbrev of : Progress lru → PgzfReader lru
  of = reader_of lru bytes index

  -- A reader whose pending seek, if it has one, comes to a state with this left to read.
  pub record IsReady (r : PgzfReader lru) (todo : List ℕ) : Type 0 where
    pub after : Progress lru
    pub seeks : execute_pending_seek lru fl ray r ≡ (ok tt, of after)
    pub at : IsAt lru llaws all after todo

  execute_pending_seek-of :
      (v : Progress lru) → execute_pending_seek lru fl ray (of v) ≡ (ok tt, of v)
  unfolding execute_pending_seek
  execute_pending_seek-of v = refl

  pub IsReady-of :
      (v : Progress lru) (todo : List ℕ) → IsAt lru llaws all v todo → IsReady (of v) todo
  IsReady-of v todo a = record { after = v; seeks = execute_pending_seek-of v; at = a }

  read-execute_pending_seek :
      (r : PgzfReader lru) (todo : List ℕ) (n : ℕ) (h : IsReady r todo)
      → 0 < n
      → read lru fl ray n r ≡ read lru fl ray n (of h.after)
  unfolding read
  read-execute_pending_seek r todo n h pos =
      rw (ne→==_false n 0 (omega arith), h.seeks, execute_pending_seek-of h.after) refl

  pub read-IsReady :
      (r : PgzfReader lru) (todo : List ℕ) (n : ℕ)
      → IsReady r todo
      → 0 < n
      → Reads lru llaws all bytes index todo n (read lru fl ray n r)
  read-IsReady r todo n h pos =
      subst (Reads lru llaws all bytes index todo n)
        (sym (read-execute_pending_seek r todo n h pos))
        (read-Reads lru llaws fl ray level laws rlaws bytes index items f full h.after todo n h.at
          pos)

  -- Nothing is held of the file, and the next block is this one.
  abbrev cleared : Progress lru → ℕ → ℕ → Progress lru
  cleared v p next = record v {
    pos = p;
    current = [];
    current_pos = 0;
    eof = false;
    readahead = [];
    next = next;
  }

  -- The outcome of a seek.
  record SoughtAt (todo : List ℕ) (q : Outcome IoError (Unit {0}) × PgzfReader lru) : Type 0 where
    after : Progress lru
    gives : q ≡ (ok tt, of after)
    at : IsAt lru llaws all after todo

  seek_missing-end :
      (v : Progress lru) (offset p next : ℕ) (s : Sought index all offset)
      → IsAhead v.readahead_size all
      → IsFresh lru llaws v.cache s.block
      → length all ≤ s.block
      → SoughtAt
          (drop offset (flatten all))
          (seek_missing lru fl ray index s.block s.skip (of (cleared v p next)))
  unfolding seek_missing
  seek_missing-end v offset p next s ahead fresh over =
      let l =
        Located_lem lru fl level laws bytes index items s.block f
          (omega (arith, s.inside, length-bytes_in (blocks_in items))) in
      let v1 = cleared v l.offset s.block in
      let nothing : drop offset (flatten all) ≡ [] =
        drop-Sought index all u offset s
        ∙ ap (λ (bs : List (List ℕ)). drop s.skip (flatten bs)) (drop_of_length-le s.block all over)
        ∙ drop-nil s.skip in
      record {
        after = record v1 { eof = true };
        gives =
            rw
              (
                l.listed,
                fill_readahead_over lru llaws fl ray level laws rlaws bytes index items f full v1
                    over,
              )
              refl;
        at = record {
          ahead = ahead;
          fresh = fresh;
          full = tt;
          left = nothing ∙ sym (ap flatten (drop_of_length-le s.block all over));
          over = λ e. nothing;
        };
      }

  seek_missing-inside :
      (v : Progress lru) (offset p next : ℕ) (s : Sought index all offset)
      → IsAhead v.readahead_size all
      → IsFresh lru llaws v.cache s.block
      → s.block < length all
      → SoughtAt
          (drop offset (flatten all))
          (seek_missing lru fl ray index s.block s.skip (of (cleared v p next)))
  unfolding seek_missing
  seek_missing-inside v offset p next s ahead fresh inside =
      let l =
        Located_lem lru fl level laws bytes index items s.block f
          (omega (arith, s.inside, length-bytes_in (blocks_in items))) in
      let v1 = cleared v l.offset s.block in
      let todo = flatten (drop s.block all) in
      let g =
        fill_readahead-Filled lru llaws fl ray level laws rlaws bytes index items f full v1 todo
          (record {
            ahead = ahead;
            fresh = fresh;
            full = tt;
            left = refl;
            over = λ e. absurd (cc e);
          })
          (omega arith) inside in
      elim (nil-or-cons (drop s.block all)) [
        | inl none_left ↦
            absurd (omega (arith, inside, ap length none_left, length-drop s.block all))
        | inr (b, rest, here) ↦
            let more = take g.size rest in
            let batch : g.batch ≡ b ∷ more = g.next_blocks ∙ ap (take (suc g.size)) here in
            let X = flatten (drop g.behind.next all) in
            let small : s.skip ≤ length b =
              omega (arith, s.within inside, s.sum, take-suc s.block all b rest here) in
            record {
              after = record g.behind { current = b; current_pos = s.skip; readahead = more };
              gives = rw (l.listed, g.gives, batch) refl;
              at = record {
                ahead = g.at.ahead;
                fresh = g.at.fresh;
                full = (subst (All IsNonempty) batch g.at.full).1;
                left =
                    drop-Sought index all u offset s
                    ∙ ap (drop s.skip) (
                        g.at.left
                        ∙ (λ i.
                            drop_of_length-le g.behind.current_pos g.behind.current g.done i
                            ++ (flatten (batch i) ++ X))
                        ∙ append_assoc b (flatten more) X)
                    ∙ drop-append_le s.skip b (flatten more ++ X) small;
                over = λ e.
                    drop-Sought index all u offset s
                    ∙ ap (drop s.skip) (g.at.over e)
                    ∙ drop-nil s.skip;
              };
            }
      ]

  -- A pending seek to an offset that is not past the end of the data.
  pub IsReady-pending :
      (v : Progress lru) (offset : ℕ)
      → IsAhead v.readahead_size all
      → IsFresh lru llaws v.cache 0
      → offset ≤ length (flatten all)
      → IsReady (record (of v) { pending_seek = some offset }) (drop offset (flatten all))
  unfolding execute_pending_seek seek_within
  IsReady-pending v offset ahead fresh h =
      let s = Sought_lem index all u offset h in
      let v1 = record v { cache = (get lru v.cache s.block).1 } in
      let fresh0 = IsFresh-get lru llaws v.cache s.block 0 fresh in
      let fresh1 : IsFresh lru llaws v1.cache s.block = record {
        valid = fresh0.valid;
        misses = λ k le. fresh0.misses k (omega arith);
      } in
      let found : SoughtAt (drop offset (flatten all))
          (seek_missing lru fl ray index s.block s.skip (of (cleared v1 v.pos v.next))) =
        elim (dec_le (length all) s.block) [
          | yes over ↦ seek_missing-end v1 offset v.pos v.next s ahead fresh1 over
          | no inside ↦ seek_missing-inside v1 offset v.pos v.next s ahead fresh1 (omega arith)
        ] in
      record {
        after = found.after;
        seeks = rw (s.found, fresh.misses s.block (omega arith)) found.gives;
        at = found.at;
      }
