-- ===== src/Prelude/Outcome.antt =====
-- What a call may end in, and calls that change a state on the way.
use mathlib.Core.Path.{◌≡◌}

-- Rust's `Result`, with a panic, and with `stuck` for a loop of the model that ran out of fuel.
pub data Outcome {ℓ} (E A : Type ℓ) : Type ℓ where
  ok : A → Outcome E A
  err : E → Outcome E A
  panic : Outcome E A
  stuck : Outcome E A

-- `?` on a `Result`.
abbrev pub and_then {ℓ} : {E A B : Type ℓ} → Outcome E A → (A → Outcome E B) → Outcome E B
and_then (ok a) f = f a
and_then (err e) f = err e
and_then panic f = panic
and_then stuck f = stuck

abbrev pub map_err {ℓ} : {E F A : Type ℓ} → (E → F) → Outcome E A → Outcome F A
map_err f (ok a) = ok a
map_err f (err e) = err (f e)
map_err f panic = panic
map_err f stuck = stuck

-- A method on `&mut self`: the state changes also where the call fails.
abbrev pub Exec {ℓ} : (S E A : Type ℓ) → Type ℓ
Exec S E A = S → Outcome E A × S

abbrev pub continue {ℓ} : {S E A B : Type ℓ} → Outcome E A × S → (A → Exec S E B) → Outcome E B × S
continue (ok a, s) f = f a s
continue (err e, s) f = (err e, s)
continue (panic, s) f = (panic, s)
continue (stuck, s) f = (stuck, s)

infixl 5 ◌>>=◌ ◌>>◌
abbrev pub ◌>>=◌ {ℓ} : {S E A B : Type ℓ} → Exec S E A → (A → Exec S E B) → Exec S E B
◌>>=◌ m f s = continue (m s) f

abbrev pub ◌>>◌ {ℓ} : {S E A B : Type ℓ} → Exec S E A → Exec S E B → Exec S E B
m >> k = m >>= λ _. k

abbrev pub pure {ℓ} : {S E A : Type ℓ} → A → Exec S E A
pure a s = (ok a, s)

abbrev pub lift {ℓ} : {S E A : Type ℓ} → Outcome E A → Exec S E A
lift r s = (r, s)

abbrev pub fail {ℓ} : {S E A : Type ℓ} → E → Exec S E A
fail e s = (err e, s)

-- `map_err`, or the `From` conversion of `?`.
abbrev pub convert {ℓ} : {S E F A : Type ℓ} → (E → F) → Exec S E A → Exec S F A
convert f m s = let p = m s in (map_err f p.0, p.1)

abbrev pub modify {ℓ} : {S E : Type ℓ} → (S → S) → Exec S E (Unit {ℓ})
modify f s = (ok tt, f s)

abbrev pub with_state {ℓ} : {S E A : Type ℓ} → (S → Exec S E A) → Exec S E A
with_state f s = f s s

-- A call that succeeds, in front of others.
pub continue-ok {ℓ} :
    {S E A B : Type ℓ} (p : Outcome E A × S) (a : A) (k : A → Exec S E B)
    → p.0 ≡ ok a
    → continue p k ≡ k a p.1
continue-ok p a k e = rw e
