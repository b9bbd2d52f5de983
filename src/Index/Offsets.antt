-- ===== src/Index/Offsets.antt =====
-- Searching the offsets of blocks whose data is known.
use pgzf_rs.Prelude.{
  ℕ, zero, suc, ◌+◌, ◌≤◌, ◌<◌, ◌≡◌, refl, sym, ap, ◌∙◌, List, [], ◌∷◌, ◌++◌, map, arith,
}
use pgzf_rs.Prelude.Lists.{
  length, take, drop, flatten, length-append, drop-append, drop-drop, take-append-drop,
  flatten-append,
}
use pgzf_rs.Prelude.Outcome.{ok}
use pgzf_rs.Index.{total_uncompressed, seek_byte}
use pgzf_rs.Index.Types.{PgzfIndex}
use pgzf_rs.Index.Places.{starts}
use pgzf_rs.Index.Search.{◌!◌, IsSearchable, seek_byte-LastUpTo}
use pgzf_rs.Index.Written.{last_or_zero-snoc}

abbrev data_offsets : ℕ → List (List ℕ) → List ℕ
data_offsets n bs = starts n (map length bs) ++ ((n + length (flatten bs)) ∷ [])

length-data_offsets : (n : ℕ) (bs : List (List ℕ)) → length (data_offsets n bs) ≡ suc (length bs)
length-data_offsets n [] = refl
length-data_offsets n (b ∷ bs) = ap suc (
    ap (λ (m : ℕ). length (starts (n + length b) (map length bs) ++ (m ∷ [])))
      (omega (arith, length-append b (flatten bs)))
    ∙ length-data_offsets (n + length b) bs)

data_offsets_lem :
    (n i : ℕ) (bs : List (List ℕ))
    → i ≤ length bs
    → data_offsets n bs ! i ≡ n + length (flatten (take i bs))
data_offsets_lem n zero [] h = refl
data_offsets_lem n (suc i) [] h = absurd (omega arith)
data_offsets_lem n zero (b ∷ bs) h = omega arith
data_offsets_lem n (suc i) (b ∷ bs) h =
    ap (λ (m : ℕ). (starts (n + length b) (map length bs) ++ (m ∷ [])) ! i)
      (omega (arith, length-append b (flatten bs)))
    ∙ data_offsets_lem (n + length b) i bs (omega arith)
    ∙ omega (arith, length-append b (flatten (take i bs)))

length-take_le :
    (i j : ℕ) (bs : List (List ℕ))
    → i ≤ j
    → length (flatten (take i bs)) ≤ length (flatten (take j bs))
length-take_le zero j bs h = omega arith
length-take_le (suc i) zero bs h = absurd (omega arith)
length-take_le (suc i) (suc j) [] h = omega arith
length-take_le (suc i) (suc j) (b ∷ bs) h = omega (
  arith,
  length-take_le i j bs (omega arith),
  length-append b (flatten (take i bs)),
  length-append b (flatten (take j bs)),
)

-- The block in which an offset lies, or the end.
pub record Sought (index : PgzfIndex) (blocks : List (List ℕ)) (offset : ℕ) : Type 0 where
  pub block : ℕ
  pub skip : ℕ
  pub found : seek_byte index offset ≡ ok (block, skip)
  pub inside : block ≤ length blocks
  pub sum : length (flatten (take block blocks)) + skip ≡ offset
  pub within : block < length blocks → offset < length (flatten (take (suc block) blocks))

module _ (index : PgzfIndex) (blocks : List (List ℕ))
    (u : index.uncompressed_offsets
      ≡ starts 0 (map length blocks) ++ (length (flatten blocks) ∷ [])) where
  whole : index.uncompressed_offsets ≡ data_offsets 0 blocks
  whole =
      u
      ∙ ap (λ (n : ℕ). starts 0 (map length blocks) ++ (n ∷ [])) {y = 0 + length (flatten blocks)}
          (omega arith)

  many : length index.uncompressed_offsets ≡ suc (length blocks)
  many = ap length whole ∙ length-data_offsets 0 blocks

  offset_at :
      (i : ℕ)
      → i ≤ length blocks
      → index.uncompressed_offsets ! i ≡ length (flatten (take i blocks))
  offset_at i h = ap (λ (l : List ℕ). l ! i) whole ∙ data_offsets_lem 0 i blocks h ∙ omega arith

  offsets-IsSearchable : IsSearchable index
  offsets-IsSearchable = record {
    nonempty = omega (arith, many);
    from_zero = offset_at 0 (omega arith);
    ascending = λ i j le inside. omega (
      arith,
      offset_at i (omega (arith, many)),
      offset_at j (omega (arith, many)),
      length-take_le i j blocks le,
    );
  }

  pub total_lem : total_uncompressed index ≡ length (flatten blocks)
  total_lem =
      ap (λ (l : List ℕ). total_uncompressed (record index { uncompressed_offsets = l })) u
      ∙ last_or_zero-snoc (starts 0 (map length blocks)) (length (flatten blocks))

  pub Sought_lem : (offset : ℕ) → offset ≤ length (flatten blocks) → Sought index blocks offset
  Sought_lem offset h =
      let (i, skip, found, last, sum) =
        seek_byte-LastUpTo index offset offsets-IsSearchable (omega (arith, total_lem)) in
      record {
        block = i;
        skip = skip;
        found = found;
        inside = omega (arith, last.inside, many);
        sum = omega (arith, sum, offset_at i (omega (arith, last.inside, many)));
        within = λ more. omega (
          arith,
          last.passed (suc i) (omega arith) (omega (arith, many)),
          offset_at (suc i) (omega arith),
        );
      }

  -- What lies behind the offset.
  pub drop-Sought :
      (offset : ℕ) (s : Sought index blocks offset)
      → drop offset (flatten blocks) ≡ drop s.skip (flatten (drop s.block blocks))
  drop-Sought offset s =
      ap (drop offset) (
        ap flatten (sym (take-append-drop s.block blocks))
        ∙ flatten-append (take s.block blocks) (drop s.block blocks))
      ∙ ap (λ (n : ℕ). drop n (flatten (take s.block blocks) ++ flatten (drop s.block blocks)))
          (sym s.sum)
      ∙ sym (drop-drop s.skip (length (flatten (take s.block blocks))) _)
      ∙ ap (drop s.skip) (
          drop-append (length (flatten (take s.block blocks))) (flatten (take s.block blocks))
            (flatten (drop s.block blocks)) refl)
