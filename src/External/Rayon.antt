-- ===== src/External/Rayon.antt =====
-- rayon's `par_iter().map_init(init, f).collect::<Result<Vec<_>, _>>()`. The items are split among
-- jobs in an unspecified way; each job makes one value with `init` and lends it to `f`.
use pgzf_rs.Prelude.{◌≡◌, ◌≢◌, List, map}
use pgzf_rs.Prelude.Lists.{All}
use pgzf_rs.Prelude.Outcome.{Outcome, ok, stuck, Exec}

pub record Rayon : Type 1 where
  pub map_init : {S E A B : Type 0} → S → (A → Exec S E B) → List A → Outcome E (List B)

-- If `f` succeeds on every item, whatever calls its job has made before, then so does the whole, and
-- the results come in the order of the items.
pub record RayonLaws (r : Rayon) : Type 1 where
  pub map_init-map :
      {S E A B : Type 0} (Inv : S → Type 0) (init : S) (f : A → Exec S E B) (g : A → B)
      (xs : List A)
      → Inv init
      → All (λ a. (s : S) → Inv s → ((f a s).0 ≡ ok (g a)) × Inv (f a s).1) xs
      → r.map_init init f xs ≡ ok (map g xs)

-- If every call of `f` ends, then so does the whole.
pub record RayonEnds (r : Rayon) : Type 1 where
  pub map_init-ends :
      {S E A B : Type 0} (init : S) (f : A → Exec S E B) (xs : List A)
      → ((a : A) (s : S) → (f a s).0 ≢ stuck)
      → r.map_init init f xs ≢ stuck
