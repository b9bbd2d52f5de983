-- ===== src/Tests/Restoring.antt =====
-- Data written and read back, at concrete files.
use pgzf_rs.Prelude.{ℕ, ◌+◌, ◌^◌, ◌<◌, ◌≡◌, ◌≢◌, refl, ap, none, some, List, [], ◌∷◌, arith}
use pgzf_rs.Prelude.Tests.{if◌then◌else◌}
use pgzf_rs.Prelude.Lists.{length, take, drop, flatten, sum}
use pgzf_rs.Prelude.Outcome.{ok}
use pgzf_rs.Cursor.{Cursor}
use pgzf_rs.Format.Bytes.{u16_bytes, u32_bytes, u64_bytes}
use pgzf_rs.Format.Header.{build_dat_header, build_idx_header}
use pgzf_rs.Format.Config.{PgzfConfig}
use pgzf_rs.External.Models.{listed, listed_laws, stored, stored_laws, sequential, sequential_laws}
use pgzf_rs.Writer.{chunks, with_config, finish}
use pgzf_rs.Writer.Plan.{chunks_of}
use pgzf_rs.Writer.Holds.{IsWritable}
use pgzf_rs.Writer.File.{file_of}
use pgzf_rs.Writer.Pieces.{write_each}
use pgzf_rs.Reader.State.{PgzfReader, open_reader}
use pgzf_rs.Reader.Read.{read_blocks}
use pgzf_rs.Reader.Opened.{IsReadBack}
use pgzf_rs.Reader.Written.{read_blocks-take-drop}
use pgzf_rs.Reader.Copies.{read_each, IsStream}
use pgzf_rs.Reader.Restored.{from_byte, read_each-finish}
use pgzf_rs.Command.Paths.{PathBuf, same_bytes}
use pgzf_rs.Command.World.{World}
use pgzf_rs.Command.Compress.{compress_file}
use pgzf_rs.Command.Decompress.{sought, decompress_file}
use pgzf_rs.Command.Restored.{up_to, decompress_file-compress_file}

-- Five bytes in two blocks.
abbrev pieces : List (List ℕ)
pieces = (10 ∷ 20 ∷ 30 ∷ []) ∷ (40 ∷ 50 ∷ []) ∷ []

abbrev config : PgzfConfig
config = record {
  block_size = 4;
  group_blocks = 2;
  compression_level = 6;
  cache_memory_limit_bytes = none;
  readahead_memory_limit_bytes = none;
  compression_batch_size = 1;
}

config-IsWritable : IsWritable 6 config
config-IsWritable = record {
  at_level = refl;
  block = omega arith;
  group = omega arith;
  batch = omega arith;
}

config-IsReadBack : IsReadBack listed stored 6 (stored_laws 6) config (flatten pieces)
unfolding chunks u16_bytes u32_bytes u64_bytes build_dat_header build_idx_header
config-IsReadBack = record {
  narrow = omega arith;
  empty = omega arith;
  readable = (
    record { compressed = omega arith; plain = omega arith },
    (record { compressed = omega arith; plain = omega arith }, tt),
  );
  plain = omega arith;
  file = omega arith;
  any = omega arith;
}

two_blocks : 1 < length (chunks_of config.block_size (flatten pieces))
unfolding chunks
two_blocks = omega arith

blocks_and_threads : length (chunks_of config.block_size (flatten pieces)) + 4 < 2 ^ 64
unfolding chunks
blocks_and_threads = omega arith

-- The second block alone.
read_blocks-take-drop_example :
    (file : Cursor) × (r : PgzfReader listed) × (finish stored sequential
        (write_each stored sequential pieces (with_config (file_of []) config)).1
      ≡ ok file)
    × (open_reader listed file ≡ ok r)
    × ((read_blocks listed stored sequential 1 7 r).0
        ≡ ok (flatten (take 7 (drop 1 (chunks_of config.block_size (flatten pieces))))))
read_blocks-take-drop_example =
    read_blocks-take-drop listed stored sequential 6 (stored_laws 6) sequential_laws config pieces 1
      7 config-IsWritable config-IsReadBack two_blocks (omega arith)

-- From the third byte on, in buffers of two bytes.
read_each-finish_example :
    (file : Cursor) × (r r1 : PgzfReader listed) × (read_pieces : List (List ℕ)) × (finish stored
        sequential
        (write_each stored sequential pieces (with_config (file_of []) config)).1
      ≡ ok file)
    × (open_reader listed file ≡ ok r)
    × (sought listed stored sequential (some 2) r ≡ (ok tt, r1))
    × ((read_each listed stored sequential (2 ∷ 2 ∷ 2 ∷ []) r1).0 ≡ ok read_pieces)
    × IsStream (2 ∷ 2 ∷ 2 ∷ []) (from_byte (some 2) (flatten pieces)) read_pieces
read_each-finish_example =
    read_each-finish listed listed_laws stored sequential 6 (stored_laws 6) sequential_laws config
      pieces (some 2) (2 ∷ 2 ∷ 2 ∷ []) config-IsWritable config-IsReadBack (omega arith)
      (omega arith, (omega arith, (omega arith, tt)))

abbrev a_path : PathBuf
a_path = 97 ∷ []

abbrev b_path : PathBuf
b_path = 98 ∷ []

abbrev c_path : PathBuf
c_path = 99 ∷ []

abbrev one_file : World
one_file = record {
  files = λ q. if same_bytes a_path q then some (flatten pieces) else none;
  stdin = [];
  stdout = [];
  reports = [];
}

a_file : one_file.files a_path ≡ some (flatten pieces)
unfolding same_bytes
a_file = refl

b-ne-a : b_path ≢ a_path
b-ne-a e = omega (arith, ap sum e)

c-ne-b : c_path ≢ b_path
c-ne-b e = omega (arith, ap sum e)

-- "a" is compressed to "b", and three of its bytes from the second on are restored to "c".
decompress_file-compress_file_example :
    ((compress_file stored sequential a_path b_path config one_file).0 ≡ ok tt)
    × ((decompress_file listed stored sequential 100 b_path
          (some c_path)
          (some 1)
          (some 3)
          4
          (compress_file stored sequential a_path b_path config one_file).1).0
        ≡ ok tt)
    × ((decompress_file listed stored sequential 100 b_path
            (some c_path)
            (some 1)
            (some 3)
            4
            (compress_file stored sequential a_path b_path config one_file).1).1.files
          c_path
        ≡ some (up_to (some 3) (from_byte (some 1) (flatten pieces))))
decompress_file-compress_file_example =
    decompress_file-compress_file listed listed_laws stored sequential 6 (stored_laws 6)
      sequential_laws 100 4 a_path b_path c_path (some 1) (some 3) config (flatten pieces) one_file
      config-IsWritable config-IsReadBack (omega arith) (omega arith) blocks_and_threads a_file
      b-ne-a c-ne-b
