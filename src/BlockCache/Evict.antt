-- ===== src/BlockCache/Evict.antt =====
-- The eviction loops of `insert`: each keeps the longest run of latest entries that passes its test.
use pgzf_rs.Prelude.{
  ℕ, zero, suc, ◌+◌, ◌-◌, ◌≤◌, ◌<◌, ◌≡◌, refl, sym, ap, ◌∙◌, ◌⊎◌, inl, inr, [], arith,
}
use pgzf_rs.Prelude.Tests.{
  ltb, leb, ◌==◌, Bool-cases, leb→le, leb_false→lt, ltb→lt, ltb_false→le, ==→eq, ==_false→ne,
}
use pgzf_rs.Prelude.Lists.{length, take, length-take, take_of_length-le, length-zero}
use native.Mathlib.Decide.{dec_lt}
use pgzf_rs.External.Lru.{LruCache, LruLaws}
use pgzf_rs.BlockCache.{CacheEntry, BlockCache, evict_one, evict_memory, evict_capacity}
use pgzf_rs.BlockCache.View.{Uses, total, total-released, take-take-le}

abbrev pub OverMemory : ℕ → ℕ → Uses → Type 0
OverMemory size limit l = limit < total l + size

abbrev pub FitsMemory : ℕ → ℕ → Uses → Type 0
FitsMemory size limit l = (l ≡ []) ⊎ (total l + size ≤ limit)

abbrev pub OverCapacity : ℕ → Uses → Type 0
OverCapacity capacity l = capacity ≤ length l

abbrev pub FitsCapacity : ℕ → Uses → Type 0
FitsCapacity capacity l = length l < capacity

module _ (lru : LruCache CacheEntry) (laws : LruLaws lru) where
  open laws use {view, cap}

  abbrev pub uses : BlockCache lru → Uses
  uses c = view c.entries

  -- `c'` is `c` with only the `n` latest entries left.
  pub record Cut (n : ℕ) (c c' : BlockCache lru) : Type 0 where
    pub kept : uses c' ≡ take n (uses c)
    pub counted : c'.current_memory_bytes ≡ total (uses c')
    pub same_bound : cap c'.entries ≡ cap c.entries
    pub same_capacity : c'.capacity ≡ c.capacity
    pub same_limit : c'.max_memory_bytes ≡ c.max_memory_bytes

  pub Cut-evict_one :
      (c : BlockCache lru)
      → c.current_memory_bytes ≡ total (uses c)
      → Cut (length (uses c) - 1) c (evict_one lru c)
  unfolding evict_one
  Cut-evict_one c h = record {
    kept = laws.view-pop_lru c.entries;
    counted =
        rw (laws.pop_lru-last c.entries, laws.view-pop_lru c.entries, h) (total-released (uses c));
    same_bound = laws.cap-pop_lru c.entries;
    same_capacity = refl;
    same_limit = refl;
  }

  pub Cut-all :
      (c : BlockCache lru) → c.current_memory_bytes ≡ total (uses c) → Cut (length (uses c)) c c
  Cut-all c h = record {
    kept = sym (take_of_length-le _ (uses c) (omega arith));
    counted = h;
    same_bound = refl;
    same_capacity = refl;
    same_limit = refl;
  }

  Cut-trans : (n m : ℕ) (a b c : BlockCache lru) → m ≤ n → Cut n a b → Cut m b c → Cut m a c
  Cut-trans n m a b c h p q = record {
    kept = q.kept ∙ ap (take m) p.kept ∙ take-take-le m n (uses a) h;
    counted = q.counted;
    same_bound = q.same_bound ∙ p.same_bound;
    same_capacity = q.same_capacity ∙ p.same_capacity;
    same_limit = q.same_limit ∙ p.same_limit;
  }

  -- The cut is where the loop had to stop: the test fails there, and passed at every longer run.
  pub record Trim (over : Uses → Type 0) (fits : Uses → Type 0) (c c' : BlockCache lru)
      : Type 0 where
    pub n : ℕ
    pub within : n ≤ length (uses c)
    pub cut : Cut n c c'
    pub ends : fits (take n (uses c))
    pub needed : (m : ℕ) → n < m → m ≤ length (uses c) → over (take m (uses c))

  Trim-stop :
      (over fits : Uses → Type 0) (c : BlockCache lru)
      → c.current_memory_bytes ≡ total (uses c)
      → fits (uses c)
      → Trim over fits c c
  Trim-stop over fits c h f = record {
    n = length (uses c);
    within = omega arith;
    cut = Cut-all c h;
    ends = rw (take_of_length-le (length (uses c)) (uses c) (omega arith)) f;
    needed = λ m p q. absurd (omega arith);
  }

  shorter :
      (c : BlockCache lru)
      → c.current_memory_bytes ≡ total (uses c)
      → length (uses (evict_one lru c)) ≡ length (uses c) - 1
  shorter c h =
      omega (arith, ap length (Cut-evict_one c h).kept, length-take (length (uses c) - 1) (uses c))

  Trim-step :
      (over fits : Uses → Type 0) (c c' : BlockCache lru)
      → c.current_memory_bytes ≡ total (uses c)
      → over (uses c)
      → 0 < length (uses c)
      → Trim over fits (evict_one lru c) c'
      → Trim over fits c c'
  Trim-step over fits c c' h o pos t = record {
    n = t.n;
    within = omega (arith, shorter c h);
    cut =
        Cut-trans (length (uses c) - 1) t.n c (evict_one lru c) c' (omega (arith, shorter c h)) one
          t.cut;
    ends =
        rw (one.kept, take-take-le t.n (length (uses c) - 1) (uses c) (omega (arith, shorter c h)))
          at t.ends;
    needed = λ m p q. elim (dec_lt m (length (uses c))) [
      | yes less ↦
          rw (one.kept, take-take-le m (length (uses c) - 1) (uses c) (omega arith)) at
            (t.needed m p (omega (arith, shorter c h)))
      | no past ↦ rw (take_of_length-le m (uses c) (omega arith)) o
    ];
  }
    where
      one : Cut (length (uses c) - 1) c (evict_one lru c)
      one = Cut-evict_one c h

  pub Trim-evict_memory :
      (fuel size limit : ℕ) (c : BlockCache lru)
      → length (uses c) ≤ fuel
      → c.current_memory_bytes ≡ total (uses c)
      → Trim (OverMemory size limit) (FitsMemory size limit) c (evict_memory lru fuel size limit c)
  unfolding evict_memory
  Trim-evict_memory zero size limit c f h =
      Trim-stop _ _ c h (inl (length-zero (uses c) (omega arith)))
  Trim-evict_memory (suc fuel) size limit c f h =
      elim (Bool-cases (ltb limit (c.current_memory_bytes + size))) [
        | inr fits ↦
            rw (fits, evict_memory) (Trim-stop _ _ c h (inr (omega (arith, ltb_false→le _ _ fits))))
        | inl over ↦ elim (Bool-cases (lru.len c.entries == 0)) [
          | inl none_left ↦
              rw (over, none_left, evict_memory)
                (Trim-stop _ _ c h (
                  inl (
                    length-zero (uses c)
                      (omega (arith, ==→eq _ _ none_left, laws.len-length c.entries)))))
          | inr some_left ↦
              rw (over, some_left, evict_memory)
                (Trim-step _ _ c _ h (omega (arith, ltb→lt _ _ over))
                  (omega (arith, ==_false→ne _ _ some_left, laws.len-length c.entries))
                  (Trim-evict_memory fuel size limit (evict_one lru c) (omega (arith, shorter c h))
                    (Cut-evict_one c h).counted))
        ]
      ]

  pub Trim-evict_capacity :
      (fuel k : ℕ) (c : BlockCache lru)
      → c.capacity ≡ k
      → 0 < k
      → length (uses c) ≤ fuel
      → c.current_memory_bytes ≡ total (uses c)
      → Trim (OverCapacity k) (FitsCapacity k) c (evict_capacity lru fuel c)
  unfolding evict_capacity
  Trim-evict_capacity zero k c e pos f h = Trim-stop _ _ c h (omega arith)
  Trim-evict_capacity (suc fuel) k c e pos f h =
      elim (Bool-cases (leb c.capacity (lru.len c.entries))) [
        | inl over ↦
            rw (over, evict_capacity)
              (Trim-step _ _ c _ h (omega (arith, leb→le _ _ over, laws.len-length c.entries))
                (omega (arith, leb→le _ _ over, laws.len-length c.entries))
                (Trim-evict_capacity fuel k (evict_one lru c)
                  ((Cut-evict_one c h).same_capacity ∙ e) pos (omega (arith, shorter c h))
                  (Cut-evict_one c h).counted))
        | inr fits ↦
            rw (fits, evict_capacity)
              (Trim-stop _ _ c h (omega (arith, leb_false→lt _ _ fits, laws.len-length c.entries)))
      ]
