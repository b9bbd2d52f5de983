-- ===== src/BlockCache/Refine.antt =====
-- `insert` and `get` against the list of entries in order of use, and the invariant.
use Prim.Native.Nat.{max}
use pgzf_rs.Prelude.{
  ℕ, ◌≤◌, ◌<◌, ◌≡◌, refl, sym, ap, ◌∙◌, ◌⊎◌, inl, inr, Option, none, some, List, ◌∷◌, arith,
}
use pgzf_rs.Prelude.Tests.{ne→==_false, eq→==}
use pgzf_rs.Prelude.Lists.{length, take, length-take, take_of_length-le, take-nil}
use native.Mathlib.Decide.{dec_le, dec_lt}
use pgzf_rs.External.Lru.{LruCache, LruLaws, remove}
use pgzf_rs.BlockCache.{CacheEntry, BlockCache, evict_limit, pop_existing, put_new, insert}
use pgzf_rs.BlockCache.View.{
  Uses, total, IsSized, IsDistinct, remove_absent, find-remove_self, find-take-none,
  remove-IsDistinct, remove-IsSized, take-IsDistinct, take-IsSized, take-take-le, total-take-le,
  total-remove-released,
}
use pgzf_rs.BlockCache.Evict.{
  uses, Trim, OverMemory, FitsMemory, OverCapacity, FitsCapacity, Trim-evict_memory,
  Trim-evict_capacity, Cut-all,
}

abbrev pub OverLimit : Option ℕ → ℕ → Uses → Type 0
OverLimit none size l = ⊥
OverLimit (some limit) size l = OverMemory size limit l

abbrev pub FitsLimit : Option ℕ → ℕ → Uses → Type 0
FitsLimit none size l = Unit
FitsLimit (some limit) size l = FitsMemory size limit l

FitsLimit-take :
    (limit : Option ℕ) (size m n : ℕ) (l : Uses)
    → m ≤ n
    → FitsLimit limit size (take n l)
    → FitsLimit limit size (take m l)
FitsLimit-take none size m n l h f = tt
FitsLimit-take (some limit) size m n l h (inl e) =
    inl (rw (sym (take-take-le m n l h), e) (take-nil m))
FitsLimit-take (some limit) size m n l h (inr f) = inr (omega (arith, total-take-le m n l h))

module _ (lru : LruCache CacheEntry) (laws : LruLaws lru) where
  open laws use {view, cap}

  abbrev entries_of : BlockCache lru → Uses
  entries_of = uses lru laws

  -- The bounds and the accounting of a cache.
  pub record IsValid (c : BlockCache lru) : Type 0 where
    pub counted : c.current_memory_bytes ≡ total (entries_of c)
    pub bounded : length (entries_of c) ≤ c.capacity
    pub sized : IsSized (entries_of c)
    pub distinct : IsDistinct (entries_of c)
    pub bound : cap c.entries ≡ max c.capacity 1

  abbrev pub entry : List ℕ → CacheEntry
  entry bytes = record { bytes = bytes; size = length bytes }

  -- The new entry stands before the `n` latest of the others, and `n` is the largest number at which
  -- the count and the bytes stay in their limits.
  pub record Inserted (c : BlockCache lru) (k : ℕ) (bytes : List ℕ) (c' : BlockCache lru)
      : Type 0 where
    pub n : ℕ
    pub shape : entries_of c' ≡ (k, entry bytes) ∷ take n (remove k (entries_of c))
    pub room : n < c.capacity
    pub fits : FitsLimit c.max_memory_bytes (length bytes) (take n (remove k (entries_of c)))
    pub largest :
        (m : ℕ)
        → n < m
        → m ≤ length (remove k (entries_of c))
        → (c.capacity ≤ m)
          ⊎ OverLimit c.max_memory_bytes (length bytes) (take m (remove k (entries_of c)))
    pub counted' : c'.current_memory_bytes ≡ total (entries_of c')
    pub same_capacity : c'.capacity ≡ c.capacity
    pub same_limit : c'.max_memory_bytes ≡ c.max_memory_bytes
    pub same_bound : cap c'.entries ≡ cap c.entries

  Trim-evict_limit :
      (limit : Option ℕ) (size : ℕ) (c : BlockCache lru)
      → c.current_memory_bytes ≡ total (entries_of c)
      → Trim lru laws (OverLimit limit size) (FitsLimit limit size) c (evict_limit lru limit size c)
  Trim-evict_limit none size c h = record {
    n = length (entries_of c);
    within = omega arith;
    cut = Cut-all lru laws c h;
    ends = tt;
    needed = λ m p q. absurd (omega arith);
  }
  Trim-evict_limit (some limit) size c h =
      Trim-evict_memory lru laws (lru.len c.entries) size limit c
        (omega (arith, laws.len-length c.entries)) h

  -- What the `pop` at the beginning leaves.
  record Popped (c : BlockCache lru) (k : ℕ) (c1 : BlockCache lru) : Type 0 where
    rest : entries_of c1 ≡ remove k (entries_of c)
    counted1 : c1.current_memory_bytes ≡ total (entries_of c1)
    bound1 : cap c1.entries ≡ cap c.entries
    capacity1 : c1.capacity ≡ c.capacity
    limit1 : c1.max_memory_bytes ≡ c.max_memory_bytes

  Popped-pop_existing : (c : BlockCache lru) (k : ℕ) → IsValid c → Popped c k (pop_existing lru c k)
  Popped-pop_existing c k v = record {
    rest = laws.view-pop c.entries k;
    counted1 =
        rw (laws.view-pop c.entries k, laws.pop-found c.entries k, v.counted)
          (total-remove-released k (entries_of c));
    bound1 = laws.cap-pop c.entries k;
    capacity1 = refl;
    limit1 = refl;
  }

  module _ (c : BlockCache lru) (k : ℕ) (bytes : List ℕ) (v : IsValid c) (pos : 0 < c.capacity)
      (c1 c2 c3 : BlockCache lru) (p : Popped c k c1)
      (t2 : Trim lru laws
        (OverLimit c.max_memory_bytes (length bytes))
        (FitsLimit c.max_memory_bytes (length bytes))
        c1
        c2)
      (t3 : Trim lru laws (OverCapacity c.capacity) (FitsCapacity c.capacity) c2 c3) where
    abbrev others : Uses
    others = remove k (entries_of c)

    within2 : t2.n ≤ length others
    within2 = omega (arith, t2.within, ap length p.rest)

    count2 : length (entries_of c2) ≡ t2.n
    count2 = omega (arith, t2.within, ap length t2.cut.kept, length-take t2.n (entries_of c1))

    shorter : t3.n ≤ t2.n
    shorter = omega (arith, t3.within, count2)

    cut3 : entries_of c3 ≡ take t3.n others
    cut3 =
        t3.cut.kept
        ∙ ap (take t3.n) (t2.cut.kept ∙ ap (take t2.n) p.rest)
        ∙ take-take-le t3.n t2.n others shorter

    count3 : length (take t3.n others) ≡ t3.n
    count3 = omega (arith, length-take t3.n others, shorter, within2)

    fits2 : FitsLimit c.max_memory_bytes (length bytes) (take t2.n others)
    fits2 = rw p.rest at t2.ends

    largest3 :
        (m : ℕ)
        → t3.n < m
        → m ≤ length others
        → (c.capacity ≤ m) ⊎ OverLimit c.max_memory_bytes (length bytes) (take m others)
    largest3 m lt le = elim (dec_le m t2.n) [
      | yes inside ↦
          inl (omega (arith, t3.needed m lt (omega (arith, count2)), length-take m (entries_of c2)))
      | no beyond ↦ inr (rw p.rest at (t2.needed m (omega arith) (omega (arith, ap length p.rest))))
    ]

    room3 : t3.n < c.capacity
    room3 = omega (arith, t3.ends, length-take t3.n (entries_of c2), count2, shorter)

    bound3 : cap c3.entries ≡ max c.capacity 1
    bound3 = t3.cut.same_bound ∙ t2.cut.same_bound ∙ p.bound1 ∙ v.bound

    absent3 : remove k (take t3.n others) ≡ take t3.n others
    absent3 =
        remove_absent k (take t3.n others)
          (find-take-none k t3.n others (find-remove_self k (entries_of c) v.distinct))

    shape3 : entries_of (put_new lru c3 k bytes) ≡ (k, entry bytes) ∷ take t3.n others
    shape3 =
        laws.view-put c3.entries k (entry bytes)
        ∙ rw (cut3, absent3)
            (take_of_length-le (cap c3.entries) ((k, entry bytes) ∷ take t3.n others)
              (omega (arith, count3, room3, bound3)))

    Inserted-put_new : Inserted c k bytes (put_new lru c3 k bytes)
    Inserted-put_new = record {
      n = t3.n;
      shape = shape3;
      room = room3;
      fits = FitsLimit-take c.max_memory_bytes (length bytes) t3.n t2.n others shorter fits2;
      largest = largest3;
      counted' = rw shape3 (omega (arith, t3.cut.counted, ap total cut3));
      same_capacity = t3.cut.same_capacity ∙ t2.cut.same_capacity ∙ p.capacity1;
      same_limit = t3.cut.same_limit ∙ t2.cut.same_limit ∙ p.limit1;
      same_bound = laws.cap-put c3.entries k _ ∙ t3.cut.same_bound ∙ t2.cut.same_bound ∙ p.bound1;
    }

  -- Under the laws of the lru crate: on a valid cache of nonzero capacity `insert` puts the new
  -- entry first and keeps, of the other entries in order of use, the longest run of latest ones
  -- with which the count stays in the capacity and, unless none is kept, the bytes in the memory
  -- limit.
  pub insert-Inserted :
      (c : BlockCache lru) (k : ℕ) (bytes : List ℕ)
      → IsValid c
      → 0 < c.capacity
      → Inserted c k bytes (insert lru c k bytes)
  unfolding insert
  insert-Inserted c k bytes v pos =
      let p = Popped-pop_existing c k v in
      let t2 =
        Trim-evict_limit c.max_memory_bytes (length bytes) (pop_existing lru c k) p.counted1 in
      let c2 = evict_limit lru c.max_memory_bytes (length bytes) (pop_existing lru c k) in
      rw (ne→==_false c.capacity 0 (omega arith)) (
        Inserted-put_new c k bytes v pos _ _ _ p t2 (
          Trim-evict_capacity lru laws (lru.len c2.entries) c.capacity c2 t2.cut.same_capacity pos
            (omega (arith, laws.len-length c2.entries)) t2.cut.counted))

  -- Under the laws of the lru crate: `insert` keeps a cache valid at every capacity and memory
  -- limit: the byte count is the sum of the entries' sizes, the entries are at most the capacity,
  -- each size is the length of its bytes, and no block has two entries.
  pub insert-IsValid :
      (c : BlockCache lru) (k : ℕ) (bytes : List ℕ) → IsValid c → IsValid (insert lru c k bytes)
  unfolding insert
  insert-IsValid c k bytes v = elim (dec_lt 0 c.capacity) [
    | no off ↦ rw (eq→== c.capacity 0 (omega arith)) v
    | yes pos ↦
        let i = insert-Inserted c k bytes v pos in
        let rest = remove k (entries_of c) in
        let kept = take i.n rest in
        record {
          counted = i.counted';
          bounded = rw (i.shape, i.same_capacity) (omega (arith, i.room, length-take i.n rest));
          sized =
              rw i.shape (refl, take-IsSized i.n rest (remove-IsSized k (entries_of c) v.sized));
          distinct = rw i.shape (
            find-take-none k i.n rest (find-remove_self k (entries_of c) v.distinct),
            take-IsDistinct i.n rest (remove-IsDistinct k (entries_of c) v.distinct),
          );
          bound = i.same_bound ∙ v.bound ∙ ap (λ (n : ℕ). max n 1) (sym i.same_capacity);
        }
  ]
