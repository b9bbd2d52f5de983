-- ===== src/Reader/State.antt =====
-- `PgzfReader` of src/reader.rs, how it is opened, and its settings.
use pgzf_rs.Prelude.{ℕ, ◌+◌, Bool, true, false, max, Option, none, some, List, [], ◌∷◌}
use pgzf_rs.Prelude.Lists.{length}
use pgzf_rs.Prelude.Outcome.{Outcome, Exec, and_then, ok, ◌>>=◌, ◌>>◌, pure, lift, convert}
use pgzf_rs.Error.{PgzfError, io}
use pgzf_rs.Cursor.{Cursor, read_exact, seek_start}
use pgzf_rs.Constants.{gzip_fixed_header_size}
use pgzf_rs.Format.Header.{validate_gzip_header, is_pgzf_member}
use pgzf_rs.External.Lru.{LruCache}
use pgzf_rs.BlockCache.{CacheEntry, BlockCache, new, with_memory_limit, memory_usage}
use pgzf_rs.Index.Types.{PgzfIndex}
use pgzf_rs.Index.Build.{build}
use pgzf_rs.Index.{total_uncompressed, total_compressed, block_count}

abbrev pub default_readahead : ℕ
default_readahead = 8

abbrev pub default_block_cache_capacity : ℕ
default_block_cache_capacity = 64

-- `Option::map`, and the sum over the readahead.
abbrev pub map_option : {A B : Type 0} → (A → B) → Option A → Option B
map_option f none = none
map_option f (some a) = some (f a)

abbrev pub total_length : List (List ℕ) → ℕ
total_length [] = 0
total_length (b ∷ bs) = length b + total_length bs

abbrev build_if : Bool → Exec Cursor PgzfError (Option PgzfIndex)
build_if true = do seek_start 0; index ← build; pure (some index)
build_if false = pure none

-- What `new` does with the file: whether its first member is one of the format, and its index.
unfoldable pub inspect : Exec Cursor PgzfError (Bool × Option PgzfIndex)
inspect = do
  seek_start 0
  header ← convert io (read_exact gzip_fixed_header_size)
  (flg, xfl) ← lift (validate_gzip_header header)
  index ← build_if (is_pgzf_member flg xfl)
  seek_start 0
  pure (is_pgzf_member flg xfl, index)

module _ (lru : LruCache CacheEntry) where
  pub record PgzfReader : Type 0 where
    pub inner : Cursor
    pub is_pgzf : Bool
    pub index : Option PgzfIndex
    pub current_block : List ℕ
    pub current_pos : ℕ
    pub eof : Bool
    pub pending_seek : Option ℕ
    pub readahead : List (List ℕ)
    pub readahead_size : ℕ
    pub readahead_memory_limit : Option ℕ
    pub next_block_index : ℕ
    pub block_cache : BlockCache lru

  abbrev pub opened : Cursor → Bool → Option PgzfIndex → PgzfReader
  opened inner is_pgzf index = record {
    inner = inner;
    is_pgzf = is_pgzf;
    index = index;
    current_block = [];
    current_pos = 0;
    eof = false;
    pending_seek = none;
    readahead = [];
    readahead_size = default_readahead;
    readahead_memory_limit = none;
    next_block_index = 0;
    block_cache = new lru default_block_cache_capacity;
  }

  -- `PgzfReader::new`
  unfoldable pub open_reader : Cursor → Outcome PgzfError PgzfReader
  unfolding inspect
  open_reader inner =
      let r = inspect inner in and_then r.0 (λ found. ok (opened r.1 found.0 found.1))

  -- `with_readahead` and `set_readahead_size`
  unfoldable pub set_readahead_size : PgzfReader → ℕ → PgzfReader
  set_readahead_size r n = record r { readahead_size = max n 1 }

  unfoldable pub with_readahead_memory_limit : PgzfReader → ℕ → PgzfReader
  with_readahead_memory_limit r max_bytes = record r { readahead_memory_limit = some max_bytes }

  -- `with_block_cache` and `set_block_cache_capacity`
  unfoldable pub set_block_cache_capacity : PgzfReader → ℕ → PgzfReader
  set_block_cache_capacity r n = record r { block_cache = new lru n }

  unfoldable pub with_block_cache_memory_limit : PgzfReader → ℕ → ℕ → PgzfReader
  with_block_cache_memory_limit r capacity max_bytes = record r {
    block_cache = with_memory_limit lru (new lru capacity) max_bytes;
  }

  abbrev pub readahead_memory_usage : PgzfReader → ℕ
  readahead_memory_usage r = total_length r.readahead

  abbrev pub total_memory_usage : PgzfReader → ℕ
  total_memory_usage r =
      memory_usage lru r.block_cache + readahead_memory_usage r + length r.current_block

  abbrev pub total_uncompressed_size : PgzfReader → Option ℕ
  total_uncompressed_size r = map_option total_uncompressed r.index

  abbrev pub total_compressed_size : PgzfReader → Option ℕ
  total_compressed_size r = map_option total_compressed r.index

  abbrev pub reader_block_count : PgzfReader → Option ℕ
  reader_block_count r = map_option block_count r.index
