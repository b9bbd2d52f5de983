-- ===== src/Format/Settings.antt =====
-- What the builder of the configuration guarantees.
use pgzf_rs.Prelude.{◌≤◌, ◌≡◌, refl, List, [], ◌∷◌, arith}
use pgzf_rs.Format.Config.{
  PgzfConfig, default_config, Setting, block_size_mb, cache_memory_limit_mb,
  readahead_memory_limit_mb, configure,
}

-- `PgzfConfig::builder()`, calls of its methods in order, and `build()`.
abbrev configure_all : PgzfConfig → List Setting → PgzfConfig
configure_all c [] = c
configure_all c (s ∷ settings) = configure_all (configure c s) settings

abbrev pub built : List Setting → PgzfConfig
built settings = configure_all default_config settings

-- A level that zlib knows, and batches that have a block.
pub record IsUsable (c : PgzfConfig) : Type 0 where
  pub level_low : 1 ≤ c.compression_level
  pub level_high : c.compression_level ≤ 9
  pub batch : 1 ≤ c.compression_batch_size

kept :
    (c c' : PgzfConfig)
    → c'.compression_level ≡ c.compression_level
    → c'.compression_batch_size ≡ c.compression_batch_size
    → IsUsable c
    → IsUsable c'
kept c c' level batch u = record {
  level_low = omega (arith, level, u.level_low);
  level_high = omega (arith, level, u.level_high);
  batch = omega (arith, batch, u.batch);
}

configure-IsUsable : (c : PgzfConfig) (s : Setting) → IsUsable c → IsUsable (configure c s)
unfolding configure
configure-IsUsable c (Setting.compression_level n) u = record {
  level_low = omega arith;
  level_high = omega arith;
  batch = u.batch;
}
configure-IsUsable c (Setting.compression_batch_size n) u = record {
  level_low = u.level_low;
  level_high = u.level_high;
  batch = omega arith;
}
configure-IsUsable c (Setting.block_size n) u =
    kept c (configure c (Setting.block_size n)) refl refl u
configure-IsUsable c (block_size_mb n) u = kept c (configure c (block_size_mb n)) refl refl u
configure-IsUsable c (Setting.group_blocks n) u =
    kept c (configure c (Setting.group_blocks n)) refl refl u
configure-IsUsable c (cache_memory_limit_mb n) u =
    kept c (configure c (cache_memory_limit_mb n)) refl refl u
configure-IsUsable c (Setting.cache_memory_limit_bytes n) u =
    kept c (configure c (Setting.cache_memory_limit_bytes n)) refl refl u
configure-IsUsable c (readahead_memory_limit_mb n) u =
    kept c (configure c (readahead_memory_limit_mb n)) refl refl u
configure-IsUsable c (Setting.readahead_memory_limit_bytes n) u =
    kept c (configure c (Setting.readahead_memory_limit_bytes n)) refl refl u

configure_all-IsUsable :
    (c : PgzfConfig) (settings : List Setting) → IsUsable c → IsUsable (configure_all c settings)
configure_all-IsUsable c [] u = u
configure_all-IsUsable c (s ∷ settings) u =
    configure_all-IsUsable (configure c s) settings (configure-IsUsable c s u)

-- Whatever methods of the builder are called in whatever order, the configuration has a compression
-- level from 1 to 9 and a batch size that is not 0.
pub built-IsUsable : (settings : List Setting) → IsUsable (built settings)
built-IsUsable settings =
    configure_all-IsUsable default_config settings
      (record { level_low = omega arith; level_high = omega arith; batch = omega arith })
