-- ===== src/Command/Laws.antt =====
-- What the steps of src/main.rs do to the files.
use pgzf_rs.Prelude.{ℕ, ◌≡◌, ◌≢◌, refl, Option, List}
use pgzf_rs.Prelude.Outcome.{Outcome, ok, err, panic, stuck, Exec, continue, ◌>>=◌}
use pgzf_rs.Command.Paths.{PathBuf, same_bytes_refl, same_bytes-ne}
use pgzf_rs.Command.World.{World, CommandError, set_file}

pub set_file-same :
    (path : PathBuf) (bytes : Option (List ℕ)) (w : World)
    → (set_file path bytes w).files path ≡ bytes
unfolding set_file
set_file-same path bytes w = rw (same_bytes_refl path) refl

pub set_file-other :
    (path q : PathBuf) (bytes : Option (List ℕ)) (w : World)
    → path ≢ q
    → (set_file path bytes w).files q ≡ w.files q
unfolding set_file
set_file-other path q bytes w h = rw (same_bytes-ne path q h) refl

-- Whatever the outcome of a call, `P` holds of the world behind it if it did before.
abbrev pub Keeps : {A : Type 0} → (World → Type 0) → Exec World CommandError A → Type 0
Keeps P m = (w : World) → P w → P (m w).1

-- The outcome of the first call decides whether the second is made.
pub after_continue :
    {A B : Type 0} (P : World → Type 0) (o : Outcome CommandError A) (w : World)
    (k : A → Exec World CommandError B)
    → P w
    → ((a : A) → P (k a w).1)
    → P (continue (o, w) k).1
after_continue P (ok a) w k p h = h a
after_continue P (err e) w k p h = p
after_continue P panic w k p h = p
after_continue P stuck w k p h = p

pub Keeps-bind :
    {A B : Type 0} (P : World → Type 0) (m : Exec World CommandError A)
    (k : A → Exec World CommandError B)
    → Keeps P m
    → ((a : A) → Keeps P (k a))
    → Keeps P (m >>= k)
Keeps-bind P m k g h w p = after_continue P (m w).0 (m w).1 k (g w p) (λ a. h a (m w).1 (g w p))
