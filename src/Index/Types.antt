-- ===== src/Index/Types.antt =====
-- The data of src/index.rs.
use pgzf_rs.Prelude.{ℕ, List}

pub record BlockMeta : Type 0 where
  pub group_index : ℕ
  pub block_in_group : ℕ
  pub compressed_size : ℕ
  pub uncompressed_size : ℕ

pub record PgzfIndex : Type 0 where
  pub blocks : List BlockMeta
  pub compressed_offsets : List ℕ
  pub uncompressed_offsets : List ℕ
  pub group_count : ℕ
