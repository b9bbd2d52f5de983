-- ===== src/Prelude/Ends.antt =====
-- That a call ends, with what it does to its state.
use pgzf_rs.Prelude.{◌≡◌, ◌≢◌, refl, subst, Bool, true, false}
use pgzf_rs.Prelude.Tests.{if◌then◌else◌}
use pgzf_rs.Prelude.Outcome.{
  Outcome, ok, err, panic, stuck, map_err, Exec, continue, ◌>>=◌, lift, convert, modify, with_state,
}

-- A value, an error or a panic.
abbrev pub Ended : {E A : Type 0} → Outcome E A → Type 0
Ended (ok a) = Unit
Ended (err e) = Unit
Ended panic = Unit
Ended stuck = ⊥

pub Ended-ne : {E A : Type 0} (o : Outcome E A) → Ended o → o ≢ stuck
Ended-ne o h e = subst Ended e h

pub Ended-map_err : {E F A : Type 0} (f : E → F) (o : Outcome E A) → Ended o → Ended (map_err f o)
Ended-map_err f (ok a) h = tt
Ended-map_err f (err e) h = tt
Ended-map_err f panic h = tt
Ended-map_err f stuck h = absurd h

pub Ended-if :
    {E A : Type 0} (b : Bool) (o p : Outcome E A) → Ended o → Ended p → Ended (if b then o else p)
Ended-if true o p h g = h
Ended-if false o p h g = g

-- A relation between the state before and behind a call, which calls in a row keep.
pub record Relation (S : Type 0) : Type 1 where
  pub Holds : S → S → Type 0
  pub here : (s : S) → Holds s s
  pub chain : (s t u : S) → Holds s t → Holds t u → Holds s u

module _ {S : Type 0} (R : Relation S) where
  open R use {Holds, here, chain}

  -- A call that was made in this state has ended, and the relation holds.
  pub record EndsAt {E A : Type 0} (s : S) (q : Outcome E A × S) : Type 0 where
    pub ends : Ended q.0
    pub holds : Holds s q.1

  abbrev pub Ends : {E A : Type 0} → Exec S E A → Type 0
  Ends m = (s : S) → EndsAt s (m s)

  -- The state is as it was.
  pub EndsAt-here : {E A : Type 0} (o : Outcome E A) (s : S) → Ended o → EndsAt s (o, s)
  EndsAt-here o s h = record { ends = h; holds = here s }

  pub EndsAt-continue :
      {E A B : Type 0} (s : S) (q : Outcome E A × S) (k : A → Exec S E B)
      → EndsAt s q
      → ((a : A) → q.0 ≡ ok a → EndsAt q.1 (k a q.1))
      → EndsAt s (continue q k)
  EndsAt-continue s (ok a, t) k h more =
      let m = more a refl in record { ends = m.ends; holds = chain s t _ h.holds m.holds }
  EndsAt-continue s (err x, t) k h more = record { ends = tt; holds = h.holds }
  EndsAt-continue s (panic, t) k h more = record { ends = tt; holds = h.holds }
  EndsAt-continue s (stuck, t) k h more = absurd h.ends

  -- A change of the state in front.
  pub EndsAt-change :
      {E A : Type 0} (s t : S) (q : Outcome E A × S) → Holds s t → EndsAt t q → EndsAt s q
  EndsAt-change s t q h e = record { ends = e.ends; holds = chain s t _ h e.holds }

  pub Ends-bind :
      {E A B : Type 0} (m : Exec S E A) (k : A → Exec S E B)
      → Ends m
      → ((a : A) → Ends (k a))
      → Ends (m >>= k)
  Ends-bind m k h more s = EndsAt-continue s (m s) k (h s) (λ a e. more a (m s).1)

  pub Ends-lift : {E A : Type 0} (o : Outcome E A) → Ended o → Ends (lift o)
  Ends-lift o h s = EndsAt-here o s h

  pub Ends-if :
      {E A : Type 0} (b : Bool) (m k : Exec S E A) → Ends m → Ends k → Ends (if b then m else k)
  Ends-if true m k g h = g
  Ends-if false m k g h = h

  pub EndsAt-if :
      {E A : Type 0} (b : Bool) (s : S) (q p : Outcome E A × S)
      → EndsAt s q
      → EndsAt s p
      → EndsAt s (if b then q else p)
  EndsAt-if true s q p g h = g
  EndsAt-if false s q p g h = h

  pub Ends-convert : {E F A : Type 0} (f : E → F) (m : Exec S E A) → Ends m → Ends (convert f m)
  Ends-convert f m h s = record { ends = Ended-map_err f (m s).0 (h s).ends; holds = (h s).holds }

  pub Ends-with_state :
      {E A : Type 0} (f : S → Exec S E A) → ((s : S) → Ends (f s)) → Ends (with_state f)
  Ends-with_state f h s = h s s

  pub Ends-modify : {E : Type 0} (f : S → S) → ((s : S) → Holds s (f s)) → Ends (modify {E = E} f)
  Ends-modify f h s = record { ends = tt; holds = h s }
