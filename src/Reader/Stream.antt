-- ===== src/Reader/Stream.antt =====
-- `read` on a file of the writer, from block to block: what is left to read gets shorter by what is
-- read.
use pgzf_rs.Prelude.{
  ℕ, ◌+◌, ◌≤◌, ◌<◌, ◌^◌, ◌≡◌, refl, sym, ap, ◌∙◌, Bool, true, none, some, List, [], ◌∷◌, ◌++◌,
  arith, append_assoc,
}
use pgzf_rs.Prelude.Lists.{
  length, take, drop, flatten, drop-drop, drop_of_length-le, take-append-drop, drop-length-take,
  length-drop, length-take, length-append, All,
}
use pgzf_rs.Prelude.Outcome.{Outcome, ok}
use pgzf_rs.Error.{IoError}
use pgzf_rs.External.Lru.{LruCache, LruLaws}
use pgzf_rs.BlockCache.{CacheEntry, BlockCache}
use pgzf_rs.Index.Types.{PgzfIndex}
use pgzf_rs.Reader.State.{PgzfReader}
use pgzf_rs.Reader.Read.{take_current}
use pgzf_rs.Reader.Lookup.{IsFresh}

-- What changes of a reader while a file is read.
pub record Progress (lru : LruCache CacheEntry) : Type 0 where
  pub pos : ℕ
  pub current : List ℕ
  pub current_pos : ℕ
  pub eof : Bool
  pub readahead : List (List ℕ)
  pub readahead_size : ℕ
  pub next : ℕ
  pub cache : BlockCache lru

module _ (lru : LruCache CacheEntry) (bytes : List ℕ) (index : PgzfIndex) where
  abbrev pub reader_of : Progress lru → PgzfReader lru
  reader_of v = record {
    inner = record { bytes = bytes; pos = v.pos };
    is_pgzf = true;
    index = some index;
    current_block = v.current;
    current_pos = v.current_pos;
    eof = v.eof;
    pending_seek = none;
    readahead = v.readahead;
    readahead_size = v.readahead_size;
    readahead_memory_limit = none;
    next_block_index = v.next;
    block_cache = v.cache;
  }

abbrev pub IsNonempty : List ℕ → Type 0
IsNonempty b = 0 < length b

-- A size of the readahead that no sum with the number of a block makes wrap.
abbrev pub IsAhead : ℕ → List (List ℕ) → Type 0
IsAhead size blocks = (0 < size) × (length blocks + size < 2 ^ 64)

module _ (lru : LruCache CacheEntry) (llaws : LruLaws lru) (blocks : List (List ℕ)) where
  -- What is left of the blocks, and that no block from the next one on is in the cache.
  pub record IsAt (v : Progress lru) (todo : List ℕ) : Type 0 where
    pub ahead : IsAhead v.readahead_size blocks
    pub fresh : IsFresh lru llaws v.cache v.next
    pub full : All IsNonempty v.readahead
    pub left :
        todo ≡ drop v.current_pos v.current ++ (flatten v.readahead ++ flatten (drop v.next blocks))
    pub over : v.eof ≡ true → todo ≡ []

  -- The next block of the readahead.
  pub IsAt-first :
      (v : Progress lru) (todo block : List ℕ) (rest : List (List ℕ))
      → length v.current ≤ v.current_pos
      → IsAt (record v { readahead = block ∷ rest }) todo
      → IsAt (record v { current = block; current_pos = 0; readahead = rest }) todo
  IsAt-first v todo block rest done a = record {
    ahead = a.ahead;
    fresh = a.fresh;
    full = a.full.1;
    left =
        a.left
        ∙ ap (λ (l : List ℕ). l ++ (flatten (block ∷ rest) ++ flatten (drop v.next blocks)))
            (drop_of_length-le v.current_pos v.current done)
        ∙ append_assoc block (flatten rest) (flatten (drop v.next blocks));
    over = a.over;
  }

  -- A read takes `out` from what is left, nothing only where nothing is left.
  pub record Reads (bytes : List ℕ) (index : PgzfIndex) (todo : List ℕ) (n : ℕ)
      (q : Outcome IoError (List ℕ) × PgzfReader lru) : Type 0 where
    pub out : List ℕ
    pub rest : List ℕ
    pub behind : Progress lru
    pub gives : q ≡ (ok out, reader_of lru bytes index behind)
    pub at : IsAt behind rest
    pub splits : todo ≡ out ++ rest
    pub ends : length out ≡ 0 → todo ≡ []
    pub bounded : length out ≤ n

  pub Reads-take_current :
      (bytes : List ℕ) (index : PgzfIndex) (v : Progress lru) (todo : List ℕ) (n : ℕ)
      → IsAt v todo
      → 0 < n
      → v.current_pos < length v.current
      → Reads bytes index todo n (take_current lru n (reader_of lru bytes index v))
  unfolding take_current
  Reads-take_current bytes index v todo n a pos inside =
      let piece = drop v.current_pos v.current in
      let out = take n piece in
      let more = flatten v.readahead ++ flatten (drop v.next blocks) in
      let some_out : 0 < length out =
        omega (arith, length-take n piece, length-drop v.current_pos v.current) in
      let rest = drop (v.current_pos + length out) v.current ++ more in
      let splits : todo ≡ out ++ rest =
        a.left
        ∙ ap (λ (l : List ℕ). l ++ more)
            (sym (take-append-drop n piece)
              ∙ ap (◌++◌ out)
                  (sym (drop-length-take n piece) ∙ drop-drop (length out) v.current_pos v.current))
        ∙ append_assoc out (drop (v.current_pos + length out) v.current) more in
      record {
        out = out;
        rest = rest;
        behind = record v { current_pos = v.current_pos + length out };
        gives = refl;
        at = record {
          ahead = a.ahead;
          fresh = a.fresh;
          full = a.full;
          left = refl;
          over = λ e.
              absurd (
                omega (arith, some_out, ap length (sym splits ∙ a.over e), length-append out rest));
        };
        splits = splits;
        ends = λ e. absurd (omega (arith, e, some_out));
        bounded = omega (arith, length-take n piece);
      }
