-- ===== src/Prelude/Gives.antt =====
-- What holds of the results of a call.
use pgzf_rs.Prelude.{Bool, true, false}
use pgzf_rs.Prelude.Tests.{if◌then◌else◌}
use pgzf_rs.Prelude.Outcome.{Outcome, ok, err, panic, stuck, Exec, continue, ◌>>=◌, with_state}

-- `P` holds of what a call gives, where it gives something.
abbrev pub IfOk : {E A : Type 0} → (A → Type 0) → Outcome E A → Type 0
IfOk P (ok a) = P a
IfOk P (err e) = Unit
IfOk P panic = Unit
IfOk P stuck = Unit

abbrev pub Gives : {S E A : Type 0} → (A → Type 0) → Exec S E A → Type 0
Gives {S} P m = (s : S) → IfOk P (m s).0

IfOk-continue :
    {S E A B : Type 0} (Q : A → Type 0) (P : B → Type 0) (k : A → Exec S E B) (r : Outcome E A)
    (s : S)
    → IfOk Q r
    → ((a : A) → Q a → Gives P (k a))
    → IfOk P (continue (r, s) k).0
IfOk-continue Q P k (ok a) s q h = h a q s
IfOk-continue Q P k (err e) s q h = tt
IfOk-continue Q P k panic s q h = tt
IfOk-continue Q P k stuck s q h = tt

pub Gives-bind :
    {S E A B : Type 0} (Q : A → Type 0) (P : B → Type 0) (m : Exec S E A) (k : A → Exec S E B)
    → Gives Q m
    → ((a : A) → Q a → Gives P (k a))
    → Gives P (m >>= k)
Gives-bind Q P m k g h s = IfOk-continue Q P k (m s).0 (m s).1 (g s) h

IfOk-any : {E A : Type 0} (r : Outcome E A) → IfOk (λ a. Unit {0}) r
IfOk-any (ok a) = tt
IfOk-any (err e) = tt
IfOk-any panic = tt
IfOk-any stuck = tt

-- A call whose value does not matter comes first.
pub Gives-after :
    {S E A B : Type 0} (P : B → Type 0) (m : Exec S E A) (k : A → Exec S E B)
    → ((a : A) → Gives P (k a))
    → Gives P (m >>= k)
Gives-after P m k h = Gives-bind (λ a. Unit {0}) P m k (λ s. IfOk-any (m s).0) (λ a u. h a)

pub Gives-with_state :
    {S E A : Type 0} (P : A → Type 0) (f : S → Exec S E A)
    → ((s : S) → Gives P (f s))
    → Gives P (with_state f)
Gives-with_state P f h s = h s s

pub Gives-if :
    {S E A : Type 0} (P : A → Type 0) (b : Bool) (m k : Exec S E A)
    → Gives P m
    → Gives P k
    → Gives P (if b then m else k)
Gives-if P true m k g h = g
Gives-if P false m k g h = h
