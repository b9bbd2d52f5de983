-- ===== src/External/Lru.antt =====
-- `lru::LruCache<usize, V>`, as documented: a map with a bound that remembers the order of use.
use pgzf_rs.Prelude.{ℕ, ◌-◌, ◌≡◌, Option, none, some, List, [], ◌∷◌}
use pgzf_rs.Prelude.Tests.{◌==◌, if◌then◌else◌}
use pgzf_rs.Prelude.Lists.{length, take}

pub record LruCache (V : Type 0) : Type 1 where
  pub Entries : Type 0
  pub new : ℕ → Entries
  -- `get` counts as a use.
  pub get : Entries → ℕ → Option V × Entries
  -- `pop` removes the entry of a key, `pop_lru` the entry that was used least recently.
  pub pop : Entries → ℕ → Option V × Entries
  pub pop_lru : Entries → Option (ℕ × V) × Entries
  pub put : Entries → ℕ → V → Entries
  pub len : Entries → ℕ

module _ {V : Type 0} where
  -- The documented behaviour, on the entries in order of use, the latest first.
  abbrev pub find : ℕ → List (ℕ × V) → Option V
  find k [] = none
  find k ((j, v) ∷ l) = if j == k then some v else find k l

  abbrev pub remove : ℕ → List (ℕ × V) → List (ℕ × V)
  remove k [] = []
  remove k ((j, v) ∷ l) = if j == k then l else (j, v) ∷ remove k l

  abbrev pub moved : ℕ → Option V → List (ℕ × V) → List (ℕ × V)
  moved k none l = l
  moved k (some v) l = (k, v) ∷ remove k l

  abbrev pub last : List (ℕ × V) → Option (ℕ × V)
  last [] = none
  last (e ∷ []) = some e
  last (e ∷ f ∷ l) = last (f ∷ l)

  pub record LruLaws (lru : LruCache V) : Type 0 where
    pub view : lru.Entries → List (ℕ × V)
    pub cap : lru.Entries → ℕ
    pub view-new : (n : ℕ) → view (lru.new n) ≡ []
    pub cap-new : (n : ℕ) → cap (lru.new n) ≡ n
    pub get-found : (c : lru.Entries) (k : ℕ) → (lru.get c k).0 ≡ find k (view c)
    pub view-get :
        (c : lru.Entries) (k : ℕ) → view (lru.get c k).1 ≡ moved k (find k (view c)) (view c)
    pub cap-get : (c : lru.Entries) (k : ℕ) → cap (lru.get c k).1 ≡ cap c
    pub pop-found : (c : lru.Entries) (k : ℕ) → (lru.pop c k).0 ≡ find k (view c)
    pub view-pop : (c : lru.Entries) (k : ℕ) → view (lru.pop c k).1 ≡ remove k (view c)
    pub cap-pop : (c : lru.Entries) (k : ℕ) → cap (lru.pop c k).1 ≡ cap c
    pub pop_lru-last : (c : lru.Entries) → (lru.pop_lru c).0 ≡ last (view c)
    pub view-pop_lru :
        (c : lru.Entries) → view (lru.pop_lru c).1 ≡ take (length (view c) - 1) (view c)
    pub cap-pop_lru : (c : lru.Entries) → cap (lru.pop_lru c).1 ≡ cap c
    -- A `put` at the bound drops the entry used least recently.
    pub view-put :
        (c : lru.Entries) (k : ℕ) (v : V)
        → view (lru.put c k v) ≡ take (cap c) ((k, v) ∷ remove k (view c))
    pub cap-put : (c : lru.Entries) (k : ℕ) (v : V) → cap (lru.put c k v) ≡ cap c
    pub len-length : (c : lru.Entries) → lru.len c ≡ length (view c)
