-- ===== src/Index/Search.antt =====
-- `seek_byte` and `seek_block` on any index with ascending offsets.
use native.Mathlib.Decide.{dec_lt}
use pgzf_rs.Prelude.{
  ℕ, zero, suc, ◌+◌, ◌-◌, ◌/◌, ◌^◌, ◌≤◌, ◌<◌, ◌≡◌, refl, inl, inr, Option, none, some, List, [],
  ◌∷◌, arith,
}
use pgzf_rs.Prelude.Tests.{
  ltb, Bool-cases, ltb→lt, ltb_false→le, le→ltb_false, lt→ltb, le→leb, lt→leb_false, if◌then◌else◌,
}
use pgzf_rs.Prelude.Lists.{length, get_or, get_or-eq_of_get_elem?}
use pgzf_rs.Prelude.Int.{ℤ, pos, negsuc}
use pgzf_rs.Prelude.Outcome.{Outcome, ok, err}
use pgzf_rs.Error.{PgzfError, seek_beyond_end}
use pgzf_rs.Index.Types.{PgzfIndex}
use pgzf_rs.Index.{
  block_count, last_or_zero, block_of, total_uncompressed, search_loop, binary_search, seek_byte,
  seek_block,
}

infixl 90 ◌!◌
abbrev pub ◌!◌ : List ℕ → ℕ → ℕ
v ! i = get_or v i 0

abbrev pub IsAscending : List ℕ → Type 0
IsAscending v = (i j : ℕ) → i ≤ j → j < length v → v ! i ≤ v ! j

-- `i` is the last position whose value does not pass `target`.
pub record LastUpTo (v : List ℕ) (target i : ℕ) : Type 0 where
  pub inside : i < length v
  pub reached : v ! i ≤ target
  pub passed : (j : ℕ) → i < j → j < length v → target < v ! j

search_loop-LastUpTo :
    (fuel : ℕ) (v : List ℕ) (target base size : ℕ)
    → IsAscending v
    → 0 < size
    → size ≤ fuel + 1
    → base + size ≤ length v
    → v ! base ≤ target
    → ((j : ℕ) → base + size ≤ j → j < length v → target < v ! j)
    → LastUpTo v target (search_loop fuel v target base size)
unfolding search_loop
search_loop-LastUpTo zero v target base size asc p f b lo hi = record {
  inside = omega arith;
  reached = lo;
  passed = λ j q r. hi j (omega arith) r;
}
search_loop-LastUpTo (suc fuel) v target base size asc p f b lo hi =
    elim (Bool-cases (ltb 1 size)) [
      | inr one ↦
          rw (one, search_loop)
            (record {
              inside = omega arith;
              reached = lo;
              passed = λ j q r. hi j (omega (arith, ltb_false→le _ _ one)) r;
            })
      | inl many ↦ elim (Bool-cases (ltb target (v ! (base + size / 2)))) [
        | inl left ↦
            rw (many, left, search_loop)
              (search_loop-LastUpTo fuel v target base (size - size / 2) asc
                (omega (arith, ltb→lt _ _ many)) (omega (arith, ltb→lt _ _ many)) (omega arith) lo
                (λ j q r. omega (arith, ltb→lt _ _ left, asc (base + size / 2) j (omega arith) r)))
        | inr right ↦
            rw (many, right, search_loop)
              (search_loop-LastUpTo fuel v target (base + size / 2) (size - size / 2) asc
                (omega (arith, ltb→lt _ _ many)) (omega (arith, ltb→lt _ _ many)) (omega arith)
                (ltb_false→le _ _ right) (λ j q r. hi j (omega arith) r))
      ]
    ]

-- The standard library's search finds that position.
binary_search-LastUpTo :
    (x : ℕ) (l : List ℕ) (target : ℕ)
    → IsAscending (x ∷ l)
    → x ≤ target
    → LastUpTo (x ∷ l) target (block_of (binary_search (x ∷ l) target))
unfolding binary_search
binary_search-LastUpTo x l target asc h =
    let base = search_loop (length (x ∷ l)) (x ∷ l) target 0 (length (x ∷ l)) in
    let last : LastUpTo (x ∷ l) target base =
      search_loop-LastUpTo (length (x ∷ l)) (x ∷ l) target 0 (length (x ∷ l)) asc (omega arith)
        (omega arith) (omega arith) h (λ j q r. absurd (omega arith)) in
    let at_base : block_of (binary_search (x ∷ l) target) ≡ base = ground (arith, last.reached) in
    rw at_base last

last_or_zero-last : (x : ℕ) (l : List ℕ) → last_or_zero (x ∷ l) ≡ (x ∷ l) ! length l
last_or_zero-last x [] = refl
last_or_zero-last x (y ∷ l) = last_or_zero-last y l

-- An index whose offsets begin at 0 and ascend.
pub record IsSearchable (index : PgzfIndex) : Type 0 where
  pub nonempty : 0 < length index.uncompressed_offsets
  pub from_zero : index.uncompressed_offsets ! 0 ≡ 0
  pub ascending : IsAscending index.uncompressed_offsets

-- In an index whose offsets begin at 0 and ascend, for an offset that is not past the end of the
-- data, `seek_byte` gives the last position whose offset does not pass it, and how far behind that
-- one it lies.
pub seek_byte-LastUpTo :
    (index : PgzfIndex) (offset : ℕ)
    → IsSearchable index
    → offset ≤ total_uncompressed index
    → (i : ℕ) × (skip : ℕ) × (seek_byte index offset ≡ ok (i, skip))
      × LastUpTo index.uncompressed_offsets offset i
      × (index.uncompressed_offsets ! i + skip ≡ offset)
unfolding seek_byte
seek_byte-LastUpTo index offset s h =
    let v = index.uncompressed_offsets in
    let i = block_of (binary_search v offset) in
    let last : LastUpTo v offset i = first_at_zero v offset s.nonempty s.from_zero s.ascending in
    (
      i,
      offset - v ! i,
      rw (
        le→ltb_false (total_uncompressed index) offset h,
        get_or-eq_of_get_elem? v i 0 last.inside,
      ),
      last,
      omega (arith, last.reached),
    )
  where
    first_at_zero :
        (v : List ℕ) (t : ℕ)
        → 0 < length v
        → v ! 0 ≡ 0
        → IsAscending v
        → LastUpTo v t (block_of (binary_search v t))
    first_at_zero [] t p z asc = absurd (omega arith)
    first_at_zero (x ∷ l) t p z asc = binary_search-LastUpTo x l t asc (omega arith)

-- Past the end it is an error.
pub seek_byte_beyond :
    (index : PgzfIndex) (offset : ℕ)
    → total_uncompressed index < offset
    → seek_byte index offset ≡ err (seek_beyond_end offset (total_uncompressed index))
unfolding seek_byte
seek_byte_beyond index offset h = rw (lt→ltb (total_uncompressed index) offset h)

-- Which block a signed index names, if any.
abbrev pub resolve : ℕ → ℤ → Option ℕ
resolve count (pos i) = if ltb i count then some i else none
resolve count (negsuc n) = if ltb n count then some (count - (n + 1)) else none

abbrev pub IsFound : PgzfIndex → Option ℕ → Outcome PgzfError ℕ → Type 0
IsFound index none r = (target : ℕ) × (r ≡ err (seek_beyond_end target (block_count index)))
IsFound index (some i) r = (i < block_count index) × (r ≡ ok (index.compressed_offsets ! i))

-- With an offset for each block, `seek_block` succeeds exactly for the indices from minus the block
-- count up to below the block count, with the offset of the block named (counted from the end if
-- negative), and is the seek error otherwise.
pub seek_block-IsFound :
    (index : PgzfIndex) (i : ℤ)
    → block_count index ≤ length index.compressed_offsets
    → IsFound index (resolve (block_count index) i) (seek_block index i)
unfolding seek_block
seek_block-IsFound index (pos i) h = elim (dec_lt i (block_count index)) [
  | yes p ↦
      rw
        (
          lt→ltb i (block_count index) p,
          lt→leb_false (block_count index) i p,
          get_or-eq_of_get_elem? index.compressed_offsets i 0 (omega arith),
        )
        (p, refl)
  | no p ↦
      rw
        (
          le→ltb_false i (block_count index) (omega arith),
          le→leb (block_count index) i (omega arith),
        )
        (i, refl)
]
seek_block-IsFound index (negsuc n) h = elim (dec_lt n (block_count index)) [
  | yes p ↦
      let j : ℕ = block_count index - (n + 1) in
      rw
        (
          lt→ltb n (block_count index) p,
          le→ltb_false (block_count index) (n + 1) (omega arith),
          lt→leb_false (block_count index) j (omega arith),
          get_or-eq_of_get_elem? index.compressed_offsets j 0 (omega arith),
        )
        (omega arith, refl)
  | no p ↦
      rw
        (
          le→ltb_false n (block_count index) (omega arith),
          lt→ltb (block_count index) (n + 1) (omega arith),
        )
        (2 ^ 64 - (n + 1), refl)
]
