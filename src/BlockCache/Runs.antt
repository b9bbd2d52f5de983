-- ===== src/BlockCache/Runs.antt =====
-- The eviction loops of src/block_cache.rs in any cache: a run is described by its rounds, without
-- fuel.
use pgzf_rs.Prelude.{
  ℕ, zero, suc, ◌+◌, ◌-◌, ◌≤◌, ◌<◌, ◌≡◌, ◌≢◌, inl, inr, refl, ap, Option, none, some, List, arith,
}
use pgzf_rs.Prelude.Tests.{
  ltb, leb, ◌==◌, Bool-cases, ltb→lt, ltb_false→le, leb→le, leb_false→lt, ==→eq, ==_false→ne,
}
use pgzf_rs.Prelude.Lists.{length, length-take}
use pgzf_rs.External.Lru.{LruCache, LruLaws}
use pgzf_rs.BlockCache.{
  CacheEntry, BlockCache, evict_one, evict_memory, evict_capacity, evict_limit, pop_existing,
  put_new, insert,
}

module _ (lru : LruCache CacheEntry) where
  -- A run of the eviction for memory: it ends where the block fits or no entry is left.
  pub data MemoryRun (size limit : ℕ) : BlockCache lru → BlockCache lru → Type 0 where
    memory_fits :
        {c : BlockCache lru} → c.current_memory_bytes + size ≤ limit → MemoryRun size limit c c
    memory_empty : {c : BlockCache lru} → lru.len c.entries ≡ 0 → MemoryRun size limit c c
    memory_round :
        {c c' : BlockCache lru}
        → limit < c.current_memory_bytes + size
        → lru.len c.entries ≢ 0
        → MemoryRun size limit (evict_one lru c) c'
        → MemoryRun size limit c c'

  -- A run of the eviction for the count: it ends below the capacity.
  pub data CapacityRun : BlockCache lru → BlockCache lru → Type 0 where
    count_fits : {c : BlockCache lru} → lru.len c.entries < c.capacity → CapacityRun c c
    count_round :
        {c c' : BlockCache lru}
        → c.capacity ≤ lru.len c.entries
        → CapacityRun (evict_one lru c) c'
        → CapacityRun c c'

  pub data LimitRun (size : ℕ) (c : BlockCache lru) (c' : BlockCache lru) : Type 0 where
    no_limit : c.max_memory_bytes ≡ none → c' ≡ c → LimitRun size c c'
    to_limit :
        (limit : ℕ)
        → c.max_memory_bytes ≡ some limit
        → MemoryRun size limit c c'
        → LimitRun size c c'

  -- A run of `insert`: nothing where the capacity is 0, and both evictions otherwise.
  pub data InsertRun (c : BlockCache lru) (k : ℕ) (bytes : List ℕ) (c' : BlockCache lru)
      : Type 0 where
    switched_off : c.capacity ≡ 0 → c' ≡ c → InsertRun c k bytes c'
    inserted :
        (c2 c3 : BlockCache lru)
        → c.capacity ≢ 0
        → LimitRun (length bytes) (pop_existing lru c k) c2
        → CapacityRun c2 c3
        → c' ≡ put_new lru c3 k bytes
        → InsertRun c k bytes c'

module _ (lru : LruCache CacheEntry) (laws : LruLaws lru) where
  len-evict_one : (c : BlockCache lru) → lru.len (evict_one lru c).entries ≡ lru.len c.entries - 1
  unfolding evict_one
  len-evict_one c = omega (
    arith,
    laws.len-length c.entries,
    laws.len-length (lru.pop_lru c.entries).1,
    ap length (laws.view-pop_lru c.entries),
    length-take (length (laws.view c.entries) - 1) (laws.view c.entries),
  )

  capacity-evict_one : (c : BlockCache lru) → (evict_one lru c).capacity ≡ c.capacity
  unfolding evict_one
  capacity-evict_one c = refl

  evict_memory-MemoryRun :
      (fuel size limit : ℕ) (c : BlockCache lru)
      → lru.len c.entries ≤ fuel
      → MemoryRun lru size limit c (evict_memory lru fuel size limit c)
  unfolding evict_memory
  evict_memory-MemoryRun zero size limit c h = memory_empty (omega arith)
  evict_memory-MemoryRun (suc fuel) size limit c h =
      elim (Bool-cases (ltb limit (c.current_memory_bytes + size))) [
        | inr fits ↦ rw (fits, evict_memory) (memory_fits (ltb_false→le _ _ fits))
        | inl over ↦ elim (Bool-cases (lru.len c.entries == 0)) [
          | inl none_left ↦ rw (over, none_left, evict_memory) (memory_empty (==→eq _ _ none_left))
          | inr some_left ↦
              rw (over, some_left, evict_memory)
                (memory_round (ltb→lt _ _ over) (==_false→ne _ _ some_left) (
                  evict_memory-MemoryRun fuel size limit (evict_one lru c)
                    (omega (arith, len-evict_one c))))
        ]
      ]

  evict_capacity-CapacityRun :
      (fuel : ℕ) (c : BlockCache lru)
      → lru.len c.entries ≤ fuel
      → c.capacity ≢ 0
      → CapacityRun lru c (evict_capacity lru fuel c)
  unfolding evict_capacity
  evict_capacity-CapacityRun zero c h some_room = count_fits (omega arith)
  evict_capacity-CapacityRun (suc fuel) c h some_room =
      elim (Bool-cases (leb c.capacity (lru.len c.entries))) [
        | inl over ↦
            rw (over, evict_capacity)
              (count_round (leb→le _ _ over) (
                evict_capacity-CapacityRun fuel (evict_one lru c) (omega (arith, len-evict_one c))
                  (omega (arith, capacity-evict_one c))))
        | inr fits ↦ rw (fits, evict_capacity) (count_fits (leb_false→lt _ _ fits))
      ]

  capacity-evict_memory :
      (fuel size limit : ℕ) (c : BlockCache lru)
      → (evict_memory lru fuel size limit c).capacity ≡ c.capacity
  unfolding evict_memory
  capacity-evict_memory zero size limit c = refl
  capacity-evict_memory (suc fuel) size limit c =
      ground (arith, capacity-evict_memory fuel size limit (evict_one lru c), capacity-evict_one c)

  capacity-evict_limit :
      (o : Option ℕ) (size : ℕ) (c : BlockCache lru)
      → (evict_limit lru o size c).capacity ≡ c.capacity
  capacity-evict_limit none size c = refl
  capacity-evict_limit (some limit) size c = capacity-evict_memory (lru.len c.entries) size limit c

  evict_limit-LimitRun :
      (o : Option ℕ) (size : ℕ) (c : BlockCache lru)
      → c.max_memory_bytes ≡ o
      → LimitRun lru size c (evict_limit lru o size c)
  evict_limit-LimitRun none size c e = no_limit e refl
  evict_limit-LimitRun (some limit) size c e =
      to_limit limit e (evict_memory-MemoryRun (lru.len c.entries) size limit c (omega arith))

  pub insert-InsertRun :
      (c : BlockCache lru) (k : ℕ) (bytes : List ℕ) → InsertRun lru c k bytes (insert lru c k bytes)
  unfolding insert
  insert-InsertRun c k bytes =
      let c1 = pop_existing lru c k in
      let c2 = evict_limit lru c1.max_memory_bytes (length bytes) c1 in
      let c3 = evict_capacity lru (lru.len c2.entries) c2 in
      elim (Bool-cases (c.capacity == 0)) [
        | inl off ↦ rw (off, insert) (switched_off (==→eq _ _ off) refl)
        | inr on ↦
            rw (on, insert)
              (inserted c2 c3 (==_false→ne _ _ on)
                (evict_limit-LimitRun c1.max_memory_bytes (length bytes) c1 refl)
                (evict_capacity-CapacityRun (lru.len c2.entries) c2 (omega arith) (
                  omega (
                    arith,
                    ==_false→ne _ _ on,
                    capacity-evict_limit c1.max_memory_bytes (length bytes) c1,
                  )))
                refl)
      ]
