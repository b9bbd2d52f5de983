-- ===== src/Format/Config.antt =====
-- `PgzfConfig` and its builder (src/format.rs).
use pgzf_rs.Prelude.{ℕ, ◌*◌, ◌%◌, ◌^◌, min, max, Option, none, some}
use pgzf_rs.Constants.{default_block_size, default_group_blocks, default_compression_level}

pub record PgzfConfig : Type 0 where
  pub block_size : ℕ
  pub group_blocks : ℕ
  pub compression_level : ℕ
  pub cache_memory_limit_bytes : Option ℕ
  pub readahead_memory_limit_bytes : Option ℕ
  pub compression_batch_size : ℕ

-- `impl Default`, and `PgzfConfig::builder()`; the builder is the configuration that it holds.
abbrev pub default_config : PgzfConfig
default_config = record {
  block_size = default_block_size;
  group_blocks = default_group_blocks;
  compression_level = default_compression_level;
  cache_memory_limit_bytes = none;
  readahead_memory_limit_bytes = none;
  compression_batch_size = 1000;
}

pub data Setting : Type 0 where
  block_size block_size_mb group_blocks compression_level cache_memory_limit_mb
        cache_memory_limit_bytes readahead_memory_limit_mb readahead_memory_limit_bytes
        compression_batch_size :
      ℕ → Setting

-- `mb * (1 << 20)`, which wraps in a release build.
abbrev megabytes : ℕ → ℕ
megabytes mb = mb * 2 ^ 20 % 2 ^ 64

-- One call of a builder method.
unfoldable pub configure : PgzfConfig → Setting → PgzfConfig
configure c (Setting.block_size n) = record c { block_size = n }
configure c (block_size_mb mb) = record c { block_size = megabytes mb }
configure c (Setting.group_blocks n) = record c { group_blocks = n }
configure c (Setting.compression_level n) = record c { compression_level = max 1 (min n 9) }
configure c (cache_memory_limit_mb mb) = record c { cache_memory_limit_bytes = some (megabytes mb) }
configure c (Setting.cache_memory_limit_bytes n) = record c { cache_memory_limit_bytes = some n }
configure c (readahead_memory_limit_mb mb) = record c {
  readahead_memory_limit_bytes = some (megabytes mb);
}
configure c (Setting.readahead_memory_limit_bytes n) = record c {
  readahead_memory_limit_bytes = some n;
}
configure c (Setting.compression_batch_size n) = record c { compression_batch_size = max n 1 }
