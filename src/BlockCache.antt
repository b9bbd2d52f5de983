-- ===== src/BlockCache.antt =====
-- src/block_cache.rs: the cache of decompressed blocks, over `lru::LruCache`.
pub mod View
pub mod Evict
pub mod Refine
pub mod Reads
pub mod Fresh
pub mod Runs
use pgzf_rs.Prelude.{ℕ, zero, suc, ◌+◌, ◌-◌, true, false, ◌&&◌, not, max, Option, none, some, List}
use pgzf_rs.Prelude.Tests.{ltb, leb, ◌==◌, if◌then◌else◌}
use pgzf_rs.Prelude.Lists.{length}
use pgzf_rs.External.Lru.{LruCache}

pub record CacheEntry : Type 0 where
  pub bytes : List ℕ
  pub size : ℕ

-- `map(|entry| Arc::clone(&entry.data))`
abbrev pub payload : Option CacheEntry → Option (List ℕ)
payload none = none
payload (some e) = some e.bytes

-- What `if let Some(entry) = …` subtracts.
abbrev pub released : Option CacheEntry → ℕ
released none = 0
released (some e) = e.size

abbrev pub released_pair : Option (ℕ × CacheEntry) → ℕ
released_pair none = 0
released_pair (some (k, e)) = e.size

module _ (lru : LruCache CacheEntry) where
  pub record BlockCache : Type 0 where
    pub entries : lru.Entries
    pub capacity : ℕ
    pub max_memory_bytes : Option ℕ
    pub current_memory_bytes : ℕ

  unfoldable pub new : ℕ → BlockCache
  new capacity = record {
    entries = lru.new (max capacity 1);
    capacity = capacity;
    max_memory_bytes = none;
    current_memory_bytes = 0;
  }

  unfoldable pub with_memory_limit : BlockCache → ℕ → BlockCache
  with_memory_limit c max_bytes = record c { max_memory_bytes = some max_bytes }

  unfoldable pub get : BlockCache → ℕ → Option (List ℕ) × BlockCache
  get c block_index =
      let (found, entries) = lru.get c.entries block_index in
      if c.capacity == 0 then (none, c) else (payload found, record c { entries = entries })

  unfoldable pub evict_one : BlockCache → BlockCache
  evict_one c =
      let (popped, entries) = lru.pop_lru c.entries in
      record c {
        entries = entries;
        current_memory_bytes = c.current_memory_bytes - released_pair popped;
      }

  -- `while current + size > max && !is_empty`. Each round drops an entry, so `len` rounds are enough.
  unfoldable pub evict_memory : ℕ → ℕ → ℕ → BlockCache → BlockCache
  evict_memory zero size max_bytes c = c
  evict_memory (suc fuel) size max_bytes c =
      elim (ltb max_bytes (c.current_memory_bytes + size) && not (lru.len c.entries == 0)) [
        | true ↦ evict_memory fuel size max_bytes (evict_one c)
        | false ↦ c
      ]

  -- `while len >= capacity`, which `insert` enters with a capacity above 0 only.
  unfoldable pub evict_capacity : ℕ → BlockCache → BlockCache
  evict_capacity zero c = c
  evict_capacity (suc fuel) c = elim (leb c.capacity (lru.len c.entries)) [
    | true ↦ evict_capacity fuel (evict_one c)
    | false ↦ c
  ]

  abbrev pub evict_limit : Option ℕ → ℕ → BlockCache → BlockCache
  evict_limit none size c = c
  evict_limit (some max_bytes) size c = evict_memory (lru.len c.entries) size max_bytes c

  abbrev pub pop_existing : BlockCache → ℕ → BlockCache
  pop_existing c block_index =
      let (old, entries) = lru.pop c.entries block_index in
      record c { entries = entries; current_memory_bytes = c.current_memory_bytes - released old }

  abbrev pub put_new : BlockCache → ℕ → List ℕ → BlockCache
  put_new c block_index bytes = record c {
    entries = lru.put c.entries block_index (record { bytes = bytes; size = length bytes });
    current_memory_bytes = c.current_memory_bytes + length bytes;
  }

  unfoldable pub insert : BlockCache → ℕ → List ℕ → BlockCache
  insert c block_index bytes =
      let size = length bytes in
      let c1 = pop_existing c block_index in
      let c2 = evict_limit c1.max_memory_bytes size c1 in
      let c3 = evict_capacity (lru.len c2.entries) c2 in
      if c.capacity == 0 then c else put_new c3 block_index bytes

  unfoldable pub len : BlockCache → ℕ
  len c = lru.len c.entries

  unfoldable pub memory_usage : BlockCache → ℕ
  memory_usage c = c.current_memory_bytes
