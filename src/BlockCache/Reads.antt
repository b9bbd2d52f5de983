-- ===== src/BlockCache/Reads.antt =====
-- What can be read from a cache, and that reading keeps its invariant.
use Prim.Native.Nat.{max}
use pgzf_rs.Prelude.{ℕ, ◌<◌, ◌≡◌, ◌≢◌, refl, sym, ap, ◌∙◌, Option, none, some, List, arith}
use pgzf_rs.Prelude.Tests.{ne→==_false, eq→==}
use native.Mathlib.Decide.{dec_lt}
use pgzf_rs.External.Lru.{LruCache, LruLaws, find, remove, moved}
use pgzf_rs.BlockCache.{CacheEntry, BlockCache, payload, insert, get, new}
use pgzf_rs.BlockCache.View.{
  total, find-remove_ne, find-take-some, find-moved, total-moved, length-moved, moved-IsSized,
  moved-IsDistinct,
}
use pgzf_rs.BlockCache.Evict.{uses}
use pgzf_rs.BlockCache.Refine.{IsValid, insert-Inserted}

payload-some :
    (o : Option CacheEntry) (bytes : List ℕ)
    → payload o ≡ some bytes
    → (e : CacheEntry) × (o ≡ some e) × (e.bytes ≡ bytes)
payload-some none bytes h = ground arith
payload-some (some e) bytes h = (e, refl, ground arith)

module _ (lru : LruCache CacheEntry) (laws : LruLaws lru) where
  open laws use {view, cap}

  abbrev Valid : BlockCache lru → Type 0
  Valid = IsValid lru laws

  -- The bytes cached for a block; a cache of capacity 0 shows none.
  abbrev pub cached : BlockCache lru → ℕ → Option (List ℕ)
  cached c k = payload (find k (uses lru laws c))

  -- `get` answers from the entries, and a hit moves to the front.
  pub get_lem :
      (c : BlockCache lru) (k : ℕ)
      → 0 < c.capacity
      → ((get lru c k).0 ≡ cached c k)
        × (uses lru laws (get lru c k).1 ≡ moved k (find k (uses lru laws c)) (uses lru laws c))
  unfolding get
  get_lem c k pos =
      rw (ne→==_false c.capacity 0 (omega arith))
        (ap payload (laws.get-found c.entries k), laws.view-get c.entries k)

  -- Under the laws of the lru crate: a `get` leaves the bytes that are cached for every block as
  -- they were, whatever it moves in the order of use.
  pub cached-get : (c : BlockCache lru) (k q : ℕ) → cached (get lru c k).1 q ≡ cached c q
  unfolding get
  cached-get c k q = elim (dec_lt 0 c.capacity) [
    | no off ↦ rw (eq→== c.capacity 0 (omega arith))
    | yes pos ↦ rw (
      ne→==_false c.capacity 0 (omega arith),
      laws.view-get c.entries k,
      find-moved k q (view c.entries),
    )
  ]

  -- Under the laws of the lru crate: `get` keeps a cache valid: its count of bytes, its bounds, the
  -- sizes of its entries, and one entry at most for a block.
  pub get-IsValid : (c : BlockCache lru) (k : ℕ) → Valid c → Valid (get lru c k).1
  unfolding get
  get-IsValid c k v = elim (dec_lt 0 c.capacity) [
    | no off ↦ rw (eq→== c.capacity 0 (omega arith)) v
    | yes pos ↦ rw (ne→==_false c.capacity 0 (omega arith)) (record {
      counted =
          v.counted ∙ sym (ap total (laws.view-get c.entries k) ∙ total-moved k (view c.entries));
      bounded =
          rw (laws.view-get c.entries k)
            (omega (arith, length-moved k (view c.entries), v.bounded));
      sized = rw (laws.view-get c.entries k) (moved-IsSized k (view c.entries) v.sized);
      distinct = rw (laws.view-get c.entries k) (moved-IsDistinct k (view c.entries) v.distinct);
      bound = laws.cap-get c.entries k ∙ v.bound;
    })
  ]

  pub new-IsValid : (n : ℕ) → Valid (new lru n)
  unfolding new
  new-IsValid n = record {
    counted = rw (laws.view-new (max n 1));
    bounded = rw (laws.view-new (max n 1)) (omega arith);
    sized = rw (laws.view-new (max n 1)) tt;
    distinct = rw (laws.view-new (max n 1)) tt;
    bound = laws.cap-new (max n 1);
  }

  pub get-cached : (c : BlockCache lru) (k : ℕ) → 0 < c.capacity → (get lru c k).0 ≡ cached c k
  get-cached c k pos = (get_lem c k pos).0

  pub get_off : (c : BlockCache lru) (k : ℕ) → c.capacity ≡ 0 → (get lru c k).0 ≡ none
  unfolding get
  get_off c k e = rw (eq→== c.capacity 0 e)

  pub insert_off :
      (c : BlockCache lru) (k : ℕ) (bytes : List ℕ) → c.capacity ≡ 0 → insert lru c k bytes ≡ c
  unfolding insert
  insert_off c k bytes e = rw (eq→== c.capacity 0 e)

  -- Under the laws of the lru crate: on a valid cache of nonzero capacity a `get` right after an
  -- `insert` of the same block finds the bytes that were inserted, whatever was evicted.
  pub get-insert_self :
      (c : BlockCache lru) (k : ℕ) (bytes : List ℕ)
      → Valid c
      → 0 < c.capacity
      → (get lru (insert lru c k bytes) k).0 ≡ some bytes
  get-insert_self c k bytes v pos =
      let i = insert-Inserted lru laws c k bytes v pos in
      get-cached (insert lru c k bytes) k (omega (arith, i.same_capacity))
      ∙ rw i.shape (ground arith)

  -- Under the laws of the lru crate: on a valid cache, if after an `insert` a `get` of another
  -- block finds bytes, then a `get` before the `insert` finds the same bytes: an insert never
  -- changes another block.
  pub get-insert_ne :
      (c : BlockCache lru) (k q : ℕ) (bytes found : List ℕ)
      → Valid c
      → q ≢ k
      → (get lru (insert lru c k bytes) q).0 ≡ some found
      → (get lru c q).0 ≡ some found
  get-insert_ne c k q bytes found v ne h = elim (dec_lt 0 c.capacity) [
    | no off ↦ rw (insert_off c k bytes (omega arith)) at h
    | yes pos ↦
        let i = insert-Inserted lru laws c k bytes v pos in
        let seen : payload (find q (uses lru laws (insert lru c k bytes))) ≡ some found =
          sym (get-cached (insert lru c k bytes) q (omega (arith, i.same_capacity))) ∙ h in
        let (e, among, shows) = payload-some _ found (rw i.shape at seen) in
        get-cached c q pos
        ∙ ap payload (
            sym (find-remove_ne k q (uses lru laws c) ne)
            ∙ find-take-some q i.n (remove k (uses lru laws c)) e (ground (arith, among)))
        ∙ ap some shows
  ]
