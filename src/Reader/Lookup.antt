-- ===== src/Reader/Lookup.antt =====
-- The first phase of `fill_readahead` where the cache has none of the blocks.
use pgzf_rs.Prelude.{ℕ, zero, suc, ◌+◌, ◌≤◌, ◌≡◌, refl, ap, ◌∙◌, none, [], ◌∷◌, arith}
use pgzf_rs.Prelude.Tests.{eq→==}
use pgzf_rs.Prelude.Lists.{replicate}
use pgzf_rs.External.Lru.{LruCache, LruLaws}
use pgzf_rs.BlockCache.{CacheEntry, BlockCache, get}
use pgzf_rs.BlockCache.Refine.{IsValid}
use pgzf_rs.BlockCache.Reads.{get-IsValid}
use pgzf_rs.BlockCache.Fresh.{Misses, Misses-get}
use pgzf_rs.Reader.Ranges.{group_loop, group_contiguous, upto, group_loop_next}
use pgzf_rs.Reader.Fill.{non_cached, cached_blocks}

module _ (lru : LruCache CacheEntry) (laws : LruLaws lru) where
  -- A valid cache without the blocks from a number on.
  pub record IsFresh (c : BlockCache lru) (first : ℕ) : Type 0 where
    pub valid : IsValid lru laws c
    pub misses : Misses lru c first

  pub IsFresh-get :
      (c : BlockCache lru) (q first : ℕ) → IsFresh c first → IsFresh (get lru c q).1 first
  IsFresh-get c q first f = record {
    valid = get-IsValid lru laws c q f.valid;
    misses = Misses-get lru laws c q first f.misses;
  }

  pub non_cached-upto :
      (count i first : ℕ) (c : BlockCache lru)
      → IsFresh c first
      → first ≤ i
      → (c' : BlockCache lru) × (non_cached lru count i c ≡ (upto i count, c')) × IsFresh c' first
  unfolding non_cached
  non_cached-upto zero i first c f le = (c, refl, f)
  non_cached-upto (suc count) i first c f le =
      let (c', rest, g) =
        non_cached-upto count (i + 1) first (get lru c i).1 (IsFresh-get c i first f)
          (omega arith) in
      (c', rw (f.misses i le, rest) refl, g)

  pub cached_blocks-none :
      (count i first : ℕ) (c : BlockCache lru)
      → IsFresh c first
      → first ≤ i
      → (c' : BlockCache lru) × (cached_blocks lru count i c ≡ (replicate count none, c'))
        × IsFresh c' first
  unfolding cached_blocks
  cached_blocks-none zero i first c f le = (c, refl, f)
  cached_blocks-none (suc count) i first c f le =
      let (c', rest, g) =
        cached_blocks-none count (i + 1) first (get lru c i).1 (IsFresh-get c i first f)
          (omega arith) in
      (c', rw (f.misses i le, rest) refl, g)

-- Numbers in a row are one range.
group_loop-upto :
    (start prev n : ℕ)
    → group_loop start prev (upto (prev + 1) n) ≡ record { start = start; end = prev + 1 + n } ∷ []
unfolding group_loop
group_loop-upto start prev zero =
    ap (λ (e : ℕ). record { start = start; end = e } ∷ []) {x = prev + 1} (omega arith)
group_loop-upto start prev (suc n) =
    group_loop_next start prev (prev + 1) (upto (prev + 1 + 1) n) (eq→== (prev + 1) (prev + 1) refl)
    ∙ group_loop-upto start (prev + 1) n
    ∙ ap (λ (e : ℕ). record { start = start; end = e } ∷ []) {x = prev + 1 + 1 + n} (omega arith)

pub group_contiguous-upto :
    (i n : ℕ) → group_contiguous (upto i (suc n)) ≡ record { start = i; end = i + suc n } ∷ []
unfolding group_contiguous
group_contiguous-upto i n =
    group_loop-upto i i n
    ∙ ap (λ (e : ℕ). record { start = i; end = e } ∷ []) {x = i + 1 + n} (omega arith)
