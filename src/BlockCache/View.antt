-- ===== src/BlockCache/View.antt =====
-- The entries of a cache in order of use: their sizes, and what `remove`, `take` and `find` do.
use pgzf_rs.Prelude.{
  ℕ, zero, suc, ◌+◌, ◌-◌, ◌≤◌, ◌≡◌, ◌≢◌, refl, ap, inl, inr, none, some, List, [], ◌∷◌, arith,
}
use pgzf_rs.Prelude.Tests.{Option-cases}
use pgzf_rs.Prelude.Lists.{length, take}
use pgzf_rs.External.Lru.{find, remove, moved, last}
use pgzf_rs.BlockCache.{CacheEntry, released, released_pair}

abbrev pub Uses : Type 0
Uses = List (ℕ × CacheEntry)

-- The bytes that the entries hold.
abbrev pub total : Uses → ℕ
total [] = 0
total ((k, e) ∷ l) = e.size + total l

abbrev pub IsSized : Uses → Type 0
IsSized [] = Unit
IsSized ((k, e) ∷ l) = (e.size ≡ length e.bytes) × IsSized l

-- No key stands twice.
abbrev pub IsDistinct : Uses → Type 0
IsDistinct [] = Unit
IsDistinct ((k, e) ∷ l) = (find k l ≡ none) × IsDistinct l

pub length-remove :
    (k : ℕ) (l : Uses) (e : CacheEntry) → find k l ≡ some e → length (remove k l) + 1 ≡ length l
length-remove k [] e h = ground arith
length-remove k ((j, v) ∷ l) e h = ground (arith, length-remove k l e)

pub remove_absent : (k : ℕ) (l : Uses) → find k l ≡ none → remove k l ≡ l
remove_absent k [] h = refl
remove_absent k ((j, v) ∷ l) h = ground (arith, remove_absent k l)

pub length-remove-le : (k : ℕ) (l : Uses) → length (remove k l) ≤ length l
length-remove-le k [] = omega arith
length-remove-le k ((j, v) ∷ l) = ground (arith, length-remove-le k l)

pub total-remove :
    (k : ℕ) (l : Uses) (e : CacheEntry) → find k l ≡ some e → total (remove k l) + e.size ≡ total l
total-remove k [] e h = ground arith
total-remove k ((j, v) ∷ l) e h = ground (arith, total-remove k l e)

pub find-remove_ne : (k q : ℕ) (l : Uses) → q ≢ k → find q (remove k l) ≡ find q l
find-remove_ne k q [] h = refl
find-remove_ne k q ((j, v) ∷ l) h = ground (arith, find-remove_ne k q l)

pub find-remove_self : (k : ℕ) (l : Uses) → IsDistinct l → find k (remove k l) ≡ none
find-remove_self k [] d = refl
find-remove_self k ((j, v) ∷ l) d = ground (arith, find-remove_self k l d.1)

pub remove-IsDistinct : (k : ℕ) (l : Uses) → IsDistinct l → IsDistinct (remove k l)
remove-IsDistinct k [] d = d
remove-IsDistinct k ((j, v) ∷ l) d = ground (arith, remove-IsDistinct k l d.1, find-remove_ne k j l)

pub remove-IsSized : (k : ℕ) (l : Uses) → IsSized l → IsSized (remove k l)
remove-IsSized k [] d = d
remove-IsSized k ((j, v) ∷ l) d = ground (arith, remove-IsSized k l d.1)

pub find-take-none : (q n : ℕ) (l : Uses) → find q l ≡ none → find q (take n l) ≡ none
find-take-none q zero l h = refl
find-take-none q (suc n) [] h = refl
find-take-none q (suc n) ((j, v) ∷ l) h = ground (arith, find-take-none q n l)

-- What is found in the latest entries is what was found in all of them.
pub find-take-some :
    (q n : ℕ) (l : Uses) (e : CacheEntry) → find q (take n l) ≡ some e → find q l ≡ some e
find-take-some q zero l e h = ground arith
find-take-some q (suc n) [] e h = h
find-take-some q (suc n) ((j, v) ∷ l) e h = ground (arith, find-take-some q n l e)

pub take-IsDistinct : (n : ℕ) (l : Uses) → IsDistinct l → IsDistinct (take n l)
take-IsDistinct zero l d = tt
take-IsDistinct (suc n) [] d = d
take-IsDistinct (suc n) ((j, v) ∷ l) d = (find-take-none j n l d.0, take-IsDistinct n l d.1)

pub take-IsSized : (n : ℕ) (l : Uses) → IsSized l → IsSized (take n l)
take-IsSized zero l d = tt
take-IsSized (suc n) [] d = d
take-IsSized (suc n) ((j, v) ∷ l) d = (d.0, take-IsSized n l d.1)

pub find-IsSized :
    (k : ℕ) (l : Uses) (e : CacheEntry) → IsSized l → find k l ≡ some e → e.size ≡ length e.bytes
find-IsSized k [] e d h = ground arith
find-IsSized k ((j, v) ∷ l) e d h = ground (arith, find-IsSized k l e d.1)

pub take-take-le : (m n : ℕ) (l : Uses) → m ≤ n → take m (take n l) ≡ take m l
take-take-le zero n l h = refl
take-take-le (suc m) zero l h = absurd (omega arith)
take-take-le (suc m) (suc n) [] h = refl
take-take-le (suc m) (suc n) (e ∷ l) h = ap (◌∷◌ e) (take-take-le m n l (omega arith))

-- Dropping the last entry takes its size off the total.
pub total-take-last :
    (l : Uses) (k : ℕ) (e : CacheEntry)
    → last l ≡ some (k, e)
    → total (take (length l - 1) l) + e.size ≡ total l
total-take-last [] k e h = ground arith
total-take-last ((j, v) ∷ []) k e h = ground arith
total-take-last ((j, v) ∷ f ∷ l) k e h =
    let outer : suc (suc (length l)) - 1 ≡ suc (length l) = omega arith in
    let inner : suc (length l) - 1 ≡ length l = omega arith in
    rw outer (omega (arith, rw inner at (total-take-last (f ∷ l) k e h)))

pub last-none : (l : Uses) → last l ≡ none → l ≡ []
last-none [] h = refl
last-none (e ∷ []) h = ground arith
last-none (e ∷ f ∷ l) h = cc (last-none (f ∷ l) h)

pub total-released : (l : Uses) → total l - released_pair (last l) ≡ total (take (length l - 1) l)
total-released l = elim (Option-cases (last l)) [
  | inl e ↦ rw (e, last-none l e) (omega arith)
  | inr ((k, e), h) ↦ rw h (omega (arith, total-take-last l k e h))
]

pub total-take-le : (m n : ℕ) (l : Uses) → m ≤ n → total (take m l) ≤ total (take n l)
total-take-le zero n l h = omega arith
total-take-le (suc m) zero l h = absurd (omega arith)
total-take-le (suc m) (suc n) [] h = omega arith
total-take-le (suc m) (suc n) ((k, e) ∷ l) h = omega (arith, total-take-le m n l)

-- `current_memory_bytes -= old_entry.size` where an entry is replaced.
pub total-remove-released : (k : ℕ) (l : Uses) → total l - released (find k l) ≡ total (remove k l)
total-remove-released k l = elim (Option-cases (find k l)) [
  | inl e ↦ rw (e, remove_absent k l e) (omega arith)
  | inr (v, e) ↦ rw e (omega (arith, total-remove k l v e))
]

-- A hit that moves to the front changes no more than the order.
pub find-moved : (k q : ℕ) (l : Uses) → find q (moved k (find k l) l) ≡ find q l
find-moved k q l = elim (Option-cases (find k l)) [
  | inl e ↦ rw e
  | inr (v, e) ↦ rw e (ground (arith, find-remove_ne k q l))
]

pub total-moved : (k : ℕ) (l : Uses) → total (moved k (find k l) l) ≡ total l
total-moved k l = elim (Option-cases (find k l)) [
  | inl e ↦ rw e
  | inr (v, e) ↦ rw e (omega (arith, total-remove k l v e))
]

pub length-moved : (k : ℕ) (l : Uses) → length (moved k (find k l) l) ≡ length l
length-moved k l = elim (Option-cases (find k l)) [
  | inl e ↦ rw e
  | inr (v, e) ↦ rw e (omega (arith, length-remove k l v e))
]

pub moved-IsSized : (k : ℕ) (l : Uses) → IsSized l → IsSized (moved k (find k l) l)
moved-IsSized k l d = elim (Option-cases (find k l)) [
  | inl e ↦ rw e d
  | inr (v, e) ↦ rw e (find-IsSized k l v d e, remove-IsSized k l d)
]

pub moved-IsDistinct : (k : ℕ) (l : Uses) → IsDistinct l → IsDistinct (moved k (find k l) l)
moved-IsDistinct k l d = elim (Option-cases (find k l)) [
  | inl e ↦ rw e d
  | inr (v, e) ↦ rw e (find-remove_self k l d, remove-IsDistinct k l d)
]
