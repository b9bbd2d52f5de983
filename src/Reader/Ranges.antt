-- ===== src/Reader/Ranges.antt =====
-- `group_contiguous` of src/reader.rs.
use pgzf_rs.Prelude.{
  ℕ, zero, suc, ◌+◌, ◌-◌, ◌≤◌, ◌<◌, ◌≡◌, ◌≢◌, inl, inr, refl, sym, ap, ◌∙◌, true, false, List, [],
  ◌∷◌, ◌++◌, map, arith, append_assoc,
}
use pgzf_rs.Prelude.Lists.{flatten}
use pgzf_rs.Prelude.Tests.{◌==◌, Bool-cases, ==→eq, ==_false→ne}

-- `start..end`
pub record BlockRange : Type 0 where
  pub start : ℕ
  pub end : ℕ

-- The loop over `indices[1..]`.
unfoldable pub group_loop : ℕ → ℕ → List ℕ → List BlockRange
group_loop start prev [] = record { start = start; end = prev + 1 } ∷ []
group_loop start prev (i ∷ indices) = elim (i == prev + 1) [
  | true ↦ group_loop start i indices
  | false ↦ record { start = start; end = prev + 1 } ∷ group_loop i i indices
]

unfoldable pub group_contiguous : List ℕ → List BlockRange
unfolding group_loop
group_contiguous [] = []
group_contiguous (i ∷ indices) = group_loop i i indices

-- `ranges.last().map(|r| r.end).unwrap_or(start)`
abbrev pub last_end : ℕ → List BlockRange → ℕ
last_end start [] = start
last_end start (r ∷ ranges) = last_end r.end ranges

-- The numbers in a range.
abbrev pub upto : ℕ → ℕ → List ℕ
upto start zero = []
upto start (suc n) = start ∷ upto (start + 1) n

abbrev pub members : BlockRange → List ℕ
members r = upto r.start (r.end - r.start)

-- No range is empty, and none ends where the next one begins.
abbrev pub IsApart : List BlockRange → Type 0
IsApart [] = Unit {0}
IsApart (r ∷ []) = r.start < r.end
IsApart (r ∷ s ∷ ranges) = (r.start < r.end) × (r.end ≢ s.start) × IsApart (s ∷ ranges)

upto-snoc : (start n : ℕ) → upto start (suc n) ≡ upto start n ++ ((start + n) ∷ [])
upto-snoc start zero = ground arith
upto-snoc start (suc n) =
    ap (◌∷◌ start) (upto-snoc (start + 1) n)
    ∙ ap (λ (last : ℕ). start ∷ (upto (start + 1) n ++ (last ∷ []))) (omega arith)

upto-join :
    (start n i : ℕ) (indices : List ℕ)
    → start + n ≡ i
    → upto start (suc n) ++ indices ≡ upto start n ++ (i ∷ indices)
upto-join start n i indices e =
    ap (λ (l : List ℕ). l ++ indices) (upto-snoc start n)
    ∙ append_assoc (upto start n) ((start + n) ∷ []) indices
    ∙ ap (λ (last : ℕ). upto start n ++ (last ∷ indices)) e

pub group_loop_next :
    (start prev i : ℕ) (indices : List ℕ)
    → (i == prev + 1) ≡ true
    → group_loop start prev (i ∷ indices) ≡ group_loop start i indices
unfolding group_loop
group_loop_next start prev i indices e = rw (e, group_loop)

group_loop_gap :
    (start prev i : ℕ) (indices : List ℕ)
    → (i == prev + 1) ≡ false
    → group_loop start prev (i ∷ indices)
      ≡ record { start = start; end = prev + 1 } ∷ group_loop i i indices
unfolding group_loop
group_loop_gap start prev i indices e = rw (e, group_loop)

-- The loop on the range that is open and on what is left.
group_loop_lem :
    (start prev : ℕ) (indices : List ℕ)
    → start ≤ prev
    → flatten (map members (group_loop start prev indices))
      ≡ upto start (prev + 1 - start) ++ indices
group_loop_lem start prev [] h = unfold group_loop in refl
group_loop_lem start prev (i ∷ indices) h = elim (Bool-cases (i == prev + 1)) [
  | inl e ↦
      let n = prev + 1 - start in
      let next : i ≡ prev + 1 = ==→eq i (prev + 1) e in
      let more : i + 1 - start ≡ suc n = omega arith in
      rw (group_loop_next start prev i indices e) (
        group_loop_lem start i indices (omega arith)
        ∙ ap (λ (k : ℕ). upto start k ++ indices) more
        ∙ upto-join start n i indices (omega arith))
  | inr n ↦
      let one : i + 1 - i ≡ 1 = omega arith in
      rw (group_loop_gap start prev i indices n) (
        ap (◌++◌ (upto start (prev + 1 - start)))
          (group_loop_lem i i indices (omega arith) ∙ ap (λ (k : ℕ). upto i k ++ indices) one))
]

abbrev Starts : List BlockRange → ℕ → Type 0
Starts [] i = Unit {0}
Starts (r ∷ ranges) i = r.start ≡ i

group_loop-Starts :
    (start prev : ℕ) (indices : List ℕ) → Starts (group_loop start prev indices) start
group_loop-Starts start prev [] = unfold group_loop in refl
group_loop-Starts start prev (i ∷ indices) = elim (Bool-cases (i == prev + 1)) [
  | inl e ↦ rw (group_loop_next start prev i indices e) (group_loop-Starts start i indices)
  | inr n ↦ rw (group_loop_gap start prev i indices n) refl
]

IsApart-cons :
    (r : BlockRange) (ranges : List BlockRange) (i : ℕ)
    → r.start < r.end
    → r.end ≢ i
    → Starts ranges i
    → IsApart ranges
    → IsApart (r ∷ ranges)
IsApart-cons r [] i h ne s p = h
IsApart-cons r (q ∷ ranges) i h ne s p = (h, (λ e. ne (e ∙ s)), p)

group_loop-IsApart :
    (start prev : ℕ) (indices : List ℕ) → start ≤ prev → IsApart (group_loop start prev indices)
group_loop-IsApart start prev [] h = unfold group_loop in omega arith
group_loop-IsApart start prev (i ∷ indices) h = elim (Bool-cases (i == prev + 1)) [
  | inl e ↦
      rw (group_loop_next start prev i indices e)
        (group_loop-IsApart start i indices (omega (arith, ==→eq i (prev + 1) e)))
  | inr n ↦ rw (group_loop_gap start prev i indices n) (
      IsApart-cons (record { start = start; end = prev + 1 }) (group_loop i i indices) i
        (omega arith) (λ e. ==_false→ne i (prev + 1) n (sym e)) (group_loop-Starts i i indices)
        (group_loop-IsApart i i indices (omega arith)))
]

-- The ranges of `group_contiguous` list the given numbers in the given order, none of them is
-- empty, and none ends where the next begins, so no two neighbours could be joined.
pub group_contiguous_lem :
    (indices : List ℕ)
    → (flatten (map members (group_contiguous indices)) ≡ indices)
      × IsApart (group_contiguous indices)
unfolding group_contiguous
group_contiguous_lem [] = (refl, tt)
group_contiguous_lem (i ∷ indices) =
    let one : i + 1 - i ≡ 1 = omega arith in
    (
      group_loop_lem i i indices (omega arith) ∙ ap (λ (k : ℕ). upto i k ++ indices) one,
      group_loop-IsApart i i indices (omega arith),
    )
