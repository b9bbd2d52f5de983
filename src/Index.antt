-- ===== src/Index.antt =====
-- src/index.rs: the index of a file, and seeking in it. `Build` reads it from the groups.
pub mod Types
pub mod Build
pub mod Search
pub mod Counts
pub mod Groups
pub mod Exact
pub mod Places
pub mod Sums
pub mod Whole
pub mod Written
pub mod Offsets
pub mod Wraps
use Prim.Native.Nat.{compare, Ordering}
use pgzf_rs.Prelude.{
  ℕ, zero, suc, ◌+◌, ◌-◌, ◌/◌, ◌^◌, true, false, Option, none, some, List, [], ◌∷◌,
}
use pgzf_rs.Prelude.Tests.{ltb, leb, if◌then◌else◌}
use pgzf_rs.Prelude.Lists.{length, get_elem?, get_or}
use pgzf_rs.Prelude.Int.{ℤ, pos, negsuc}
use pgzf_rs.Prelude.Outcome.{Outcome, ok, err, panic}
use pgzf_rs.Index.Types.{BlockMeta, PgzfIndex}
use pgzf_rs.Error.{PgzfError, seek_beyond_end}

abbrev pub block_count : PgzfIndex → ℕ
block_count index = length index.blocks

-- `*offsets.last().unwrap_or(&0)`
abbrev pub last_or_zero : List ℕ → ℕ
last_or_zero [] = 0
last_or_zero (x ∷ []) = x
last_or_zero (x ∷ y ∷ l) = last_or_zero (y ∷ l)

abbrev pub total_uncompressed : PgzfIndex → ℕ
total_uncompressed index = last_or_zero index.uncompressed_offsets

abbrev pub total_compressed : PgzfIndex → ℕ
total_compressed index = last_or_zero index.compressed_offsets

abbrev pub compressed_offset : PgzfIndex → ℕ → Option ℕ
compressed_offset index i = get_elem? index.compressed_offsets i

abbrev pub block_meta : PgzfIndex → ℕ → Option BlockMeta
block_meta index i = get_elem? index.blocks i

-- `slice::binary_search` of the standard library: the range of `size` elements from `base` on is
-- halved until one is left; `inl` is `Ok`, `inr` is `Err`.
unfoldable pub search_loop : ℕ → List ℕ → ℕ → ℕ → ℕ → ℕ
search_loop zero v target base size = base
search_loop (suc fuel) v target base size = elim (ltb 1 size) [
  | true ↦
      search_loop fuel v target
        (if ltb target (get_or v (base + size / 2) 0) then base else base + size / 2)
        (size - size / 2)
  | false ↦ base
]

pub data Found : Type 0 where
  found : ℕ → Found
  insert_at : ℕ → Found

unfoldable pub binary_search : List ℕ → ℕ → Found
unfolding search_loop
binary_search [] target = insert_at 0
binary_search (x ∷ l) target =
    let v = x ∷ l in
    let base = search_loop (length v) v target 0 (length v) in
    elim (compare (get_or v base 0) target) [
      | Ordering.eq ↦ found base
      | Ordering.lt ↦ insert_at (base + 1)
      | Ordering.gt ↦ insert_at base
    ]

abbrev pub block_of : Found → ℕ
block_of (found i) = i
block_of (insert_at i) = if ltb 0 i then i - 1 else 0

-- `offset.saturating_sub(self.uncompressed_offsets[block_idx])`, which panics out of bounds.
abbrev pub skip_from : ℕ → Option ℕ → ℕ → Outcome PgzfError (ℕ × ℕ)
skip_from block_idx none offset = panic
skip_from block_idx (some start) offset = ok (block_idx, offset - start)

unfoldable pub seek_byte : PgzfIndex → ℕ → Outcome PgzfError (ℕ × ℕ)
unfolding binary_search
seek_byte index offset =
    let block_idx = block_of (binary_search index.uncompressed_offsets offset) in
    if ltb (total_uncompressed index) offset
    then err (seek_beyond_end offset (total_uncompressed index))
    else skip_from block_idx (get_elem? index.uncompressed_offsets block_idx) offset

abbrev pub offset_or_panic : Option ℕ → Outcome PgzfError ℕ
offset_or_panic none = panic
offset_or_panic (some offset) = ok offset

abbrev pub checked_block : PgzfIndex → ℕ → Outcome PgzfError ℕ
checked_block index actual =
    if leb (block_count index) actual
    then err (seek_beyond_end actual (block_count index))
    else offset_or_panic (get_elem? index.compressed_offsets actual)

-- A negative index counts from the end; in the error it is shown `as u64`.
unfoldable pub seek_block : PgzfIndex → ℤ → Outcome PgzfError ℕ
seek_block index (pos i) = checked_block index i
seek_block index (negsuc n) =
    if ltb (block_count index) (n + 1)
    then err (seek_beyond_end (2 ^ 64 - (n + 1)) (block_count index))
    else checked_block index (block_count index - (n + 1))
