-- ===== src/BlockCache/Fresh.antt =====
-- A cache without the blocks from a number on.
use pgzf_rs.Prelude.{
  ℕ, ◌<◌, ◌≤◌, ◌≡◌, ◌⊎◌, inl, inr, refl, sym, ◌∙◌, Option, none, some, List, arith,
}
use pgzf_rs.Prelude.Tests.{ne→==_false, eq→==}
use native.Mathlib.Decide.{dec_lt}
use pgzf_rs.External.Lru.{LruCache, LruLaws}
use pgzf_rs.BlockCache.{CacheEntry, BlockCache, get, insert, new}
use pgzf_rs.BlockCache.Refine.{IsValid}
use pgzf_rs.BlockCache.Reads.{get-cached, get_off, cached-get, get-insert_ne}

none-or-some : {A : Type 0} (o : Option A) → (o ≡ none) ⊎ ((a : A) × (o ≡ some a))
none-or-some none = inl refl
none-or-some (some a) = inr (a, refl)

module _ (lru : LruCache CacheEntry) where
  abbrev pub Misses : BlockCache lru → ℕ → Type 0
  Misses c i = (k : ℕ) → i ≤ k → (get lru c k).0 ≡ none

  get-capacity : (c : BlockCache lru) (k : ℕ) → (get lru c k).1.capacity ≡ c.capacity
  unfolding get
  get-capacity c k = elim (dec_lt 0 c.capacity) [
    | no off ↦ rw (eq→== c.capacity 0 (omega arith)) refl
    | yes on ↦ rw (ne→==_false c.capacity 0 (omega arith)) refl
  ]

module _ (lru : LruCache CacheEntry) (laws : LruLaws lru) where
  pub Misses-get : (c : BlockCache lru) (q i : ℕ) → Misses lru c i → Misses lru (get lru c q).1 i
  Misses-get c q i m k le = elim (dec_lt 0 c.capacity) [
    | no off ↦ get_off lru laws (get lru c q).1 k (omega (arith, get-capacity lru c q))
    | yes on ↦
        get-cached lru laws (get lru c q).1 k (omega (arith, get-capacity lru c q))
        ∙ cached-get lru laws c q k
        ∙ sym (get-cached lru laws c k on)
        ∙ m k le
  ]

  pub Misses-insert :
      (c : BlockCache lru) (q i : ℕ) (bytes : List ℕ)
      → IsValid lru laws c
      → q < i
      → Misses lru c i
      → Misses lru (insert lru c q bytes) i
  Misses-insert c q i bytes v lt m k le = elim (none-or-some (get lru (insert lru c q bytes) k).0) [
    | inl e ↦ e
    | inr (found, e) ↦
        absurd (
          cc
            (get-insert_ne lru laws c q k bytes found v (λ p. absurd (omega (arith, p))) e, m k le))
  ]

  pub Misses-new : (n : ℕ) → Misses lru (new lru n) 0
  unfolding new
  Misses-new n k le = elim (dec_lt 0 n) [
    | no off ↦ get_off lru laws (new lru n) k (omega arith)
    | yes on ↦ get-cached lru laws (new lru n) k on ∙ rw (laws.view-new _) refl
  ]
