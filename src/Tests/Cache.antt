-- ===== src/Tests/Cache.antt =====
-- The cache and the index at concrete states.
use pgzf_rs.Prelude.{ℕ, zero, suc, ◌+◌, ◌*◌, ◌<◌, ◌≡◌, refl, some, [], ◌∷◌, arith}
use pgzf_rs.Prelude.Int.{negsuc}
use pgzf_rs.Prelude.Outcome.{ok}
use pgzf_rs.External.Models.{listed, listed_laws}
use pgzf_rs.BlockCache.{BlockCache, get, insert, evict_one, evict_memory, evict_capacity}
use pgzf_rs.BlockCache.Refine.{IsValid, Inserted, entry, insert-Inserted, insert-IsValid}
use pgzf_rs.BlockCache.Reads.{cached, get-insert_self, get-insert_ne, get-IsValid, cached-get}
use pgzf_rs.Index.{seek_byte, seek_block, block_count}
use pgzf_rs.Index.Types.{BlockMeta, PgzfIndex}
use pgzf_rs.Index.Search.{
  ◌!◌, LastUpTo, IsSearchable, resolve, IsFound, seek_byte-LastUpTo, seek_block-IsFound,
}

-- Two blocks of five bytes together, in a cache for three blocks and six bytes.
abbrev two_cached : BlockCache listed
two_cached = record {
  entries = (
    3,
    (4, entry listed listed_laws (1 ∷ 2 ∷ []))
        ∷ (9, entry listed listed_laws (3 ∷ 4 ∷ 5 ∷ []))
        ∷ [],
  );
  capacity = 3;
  max_memory_bytes = some 6;
  current_memory_bytes = 5;
}

two_cached-IsValid : IsValid listed listed_laws two_cached
two_cached-IsValid = record {
  counted = refl;
  bounded = omega arith;
  sized = (refl, (refl, tt));
  distinct = (refl, (refl, tt));
  bound = refl;
}

insert-Inserted_example :
    Inserted listed listed_laws two_cached 7 (8 ∷ 8 ∷ []) (insert listed two_cached 7 (8 ∷ 8 ∷ []))
insert-Inserted_example =
    insert-Inserted listed listed_laws two_cached 7 (8 ∷ 8 ∷ []) two_cached-IsValid (omega arith)

insert-IsValid_example : IsValid listed listed_laws (insert listed two_cached 7 (8 ∷ 8 ∷ []))
insert-IsValid_example =
    insert-IsValid listed listed_laws two_cached 7 (8 ∷ 8 ∷ []) two_cached-IsValid

get-insert_self_example : (get listed (insert listed two_cached 4 (6 ∷ [])) 4).0 ≡ some (6 ∷ [])
get-insert_self_example =
    get-insert_self listed listed_laws two_cached 4 (6 ∷ []) two_cached-IsValid (omega arith)

still_cached : (get listed (insert listed two_cached 7 (8 ∷ 8 ∷ [])) 4).0 ≡ some (1 ∷ 2 ∷ [])
unfolding insert get evict_capacity evict_memory evict_one
still_cached = refl

get-insert_ne_example : (get listed two_cached 4).0 ≡ some (1 ∷ 2 ∷ [])
get-insert_ne_example =
    get-insert_ne listed listed_laws two_cached 7 4 (8 ∷ 8 ∷ []) (1 ∷ 2 ∷ []) two_cached-IsValid
      (λ e. omega (arith, e)) still_cached

get-IsValid_example : IsValid listed listed_laws (get listed two_cached 9).1
get-IsValid_example = get-IsValid listed listed_laws two_cached 9 two_cached-IsValid

cached-get_example :
    cached listed listed_laws (get listed two_cached 9).1 4 ≡ cached listed listed_laws two_cached 4
cached-get_example = cached-get listed listed_laws two_cached 9 4

abbrev block : ℕ → BlockMeta
block i = record {
  group_index = 0;
  block_in_group = i;
  compressed_size = 40;
  uncompressed_size = 10;
}

abbrev three_blocks : PgzfIndex
three_blocks = record {
  blocks = block 0 ∷ block 1 ∷ block 2 ∷ [];
  compressed_offsets = 0 ∷ 40 ∷ 80 ∷ 200 ∷ [];
  uncompressed_offsets = 0 ∷ 10 ∷ 20 ∷ 30 ∷ [];
  group_count = 1;
}

ten_each : (i : ℕ) → i < 4 → three_blocks.uncompressed_offsets ! i ≡ i * 10
ten_each zero h = refl
ten_each (suc zero) h = refl
ten_each (suc (suc zero)) h = refl
ten_each (suc (suc (suc zero))) h = refl
ten_each (suc (suc (suc (suc i)))) h = absurd (omega arith)

three_blocks-IsSearchable : IsSearchable three_blocks
three_blocks-IsSearchable = record {
  nonempty = omega arith;
  from_zero = refl;
  ascending = λ i j h k. omega (arith, ten_each i (omega arith), ten_each j k);
}

seek_byte-LastUpTo_example :
    (i : ℕ) × (skip : ℕ) × (seek_byte three_blocks 17 ≡ ok (i, skip))
    × LastUpTo three_blocks.uncompressed_offsets 17 i
    × (three_blocks.uncompressed_offsets ! i + skip ≡ 17)
seek_byte-LastUpTo_example =
    seek_byte-LastUpTo three_blocks 17 three_blocks-IsSearchable (omega arith)

seek_block-IsFound_example :
    IsFound three_blocks
      (resolve (block_count three_blocks) (negsuc 0))
      (seek_block three_blocks (negsuc 0))
seek_block-IsFound_example = seek_block-IsFound three_blocks (negsuc 0) (omega arith)
