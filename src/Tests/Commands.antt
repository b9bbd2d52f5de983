-- ===== src/Tests/Commands.antt =====
-- The command line at concrete files.
use pgzf_rs.Prelude.{ℕ, ◌^◌, ◌<◌, ◌≡◌, ◌≢◌, refl, ap, true, false, none, some, List, [], ◌∷◌, arith}
use pgzf_rs.Prelude.Tests.{if◌then◌else◌}
use pgzf_rs.Prelude.Lists.{length, sum}
use pgzf_rs.Prelude.Outcome.{ok}
use pgzf_rs.Format.Bytes.{u16_bytes, u32_bytes, u64_bytes}
use pgzf_rs.Format.Header.{build_dat_header, build_idx_header}
use pgzf_rs.Format.Config.{PgzfConfig}
use pgzf_rs.External.Models.{listed, stored, stored_laws, sequential, sequential_laws}
use pgzf_rs.Writer.{chunks}
use pgzf_rs.Writer.Holds.{IsWritable}
use pgzf_rs.Writer.Pieces.{data_file}
use pgzf_rs.Command.Paths.{
  PathBuf, same_bytes, is_utf8_from, following, in_range, strip_suffix, gz_extension,
  strip_gz_extension, decompress_output, strip_gz_extension-gz_extension, decompress_output-ne,
}
use pgzf_rs.Command.World.{World}
use pgzf_rs.Command.Compress.{compress_file}
use pgzf_rs.Command.Decompress.{decompress_file}
use pgzf_rs.Command.Run.{Cli, run}
use pgzf_rs.Command.Limits.{Prints, decompress_file-Prints}
use pgzf_rs.Command.Files.{compress_file-data_file, run-Keeps}

-- Files named "a" and "b", and a name that is free.
abbrev a_path : PathBuf
a_path = 97 ∷ []

abbrev b_path : PathBuf
b_path = 98 ∷ []

abbrev c_path : PathBuf
c_path = 99 ∷ []

abbrev five_bytes : List ℕ
five_bytes = 10 ∷ 20 ∷ 30 ∷ 40 ∷ 50 ∷ []

abbrev two_files : World
two_files = record {
  files = λ q.
      if same_bytes a_path q
      then some five_bytes
      else if same_bytes b_path q
      then some (1 ∷ [])
      else none;
  stdin = [];
  stdout = [];
  reports = [];
}

abbrev small_blocks : PgzfConfig
small_blocks = record {
  block_size = 4;
  group_blocks = 2;
  compression_level = 6;
  cache_memory_limit_bytes = none;
  readahead_memory_limit_bytes = none;
  compression_batch_size = 1;
}

small_blocks-IsWritable : IsWritable 6 small_blocks
small_blocks-IsWritable = record {
  at_level = refl;
  block = omega arith;
  group = omega arith;
  batch = omega arith;
}

small_file : length (data_file stored 6 (stored_laws 6) small_blocks five_bytes) < 2 ^ 64
unfolding chunks u16_bytes u32_bytes u64_bytes build_dat_header build_idx_header
small_file = omega arith

a_file : two_files.files a_path ≡ some five_bytes
unfolding same_bytes
a_file = refl

a-ne-b : a_path ≢ b_path
a-ne-b e = omega (arith, ap sum e)

c-ne-a : c_path ≢ a_path
c-ne-a e = omega (arith, ap sum e)

c-ne-b : c_path ≢ b_path
c-ne-b e = omega (arith, ap sum e)

-- "a" is compressed to "c".
compress_file-data_file_example :
    ((compress_file stored sequential a_path c_path small_blocks two_files).0 ≡ ok tt)
    × ((compress_file stored sequential a_path c_path small_blocks two_files).1.files c_path
        ≡ some (data_file stored 6 (stored_laws 6) small_blocks five_bytes))
    × ((compress_file stored sequential a_path c_path small_blocks two_files).1.files b_path
        ≡ two_files.files b_path)
compress_file-data_file_example =
    compress_file-data_file stored sequential 6 (stored_laws 6) sequential_laws a_path c_path b_path
      small_blocks five_bytes two_files small_blocks-IsWritable small_file a_file c-ne-a c-ne-b

-- `pgzf -k a b`
abbrev keep_both : Cli
keep_both = record {
  decompress = false;
  stdout = false;
  keep = true;
  force = false;
  output = none;
  threads = 8;
  block_size_mb = 1;
  group_blocks = 8000;
  seek_byte = none;
  limit = none;
  level = 6;
  files = a_path ∷ b_path ∷ [];
  inspect = false;
}

run-Keeps_example :
    (run listed stored sequential 100 keep_both two_files).1.files a_path ≡ some five_bytes
run-Keeps_example =
    run-Keeps listed stored sequential 100 keep_both a_path (b_path ∷ []) a_path five_bytes
      two_files refl refl refl refl refl a_file

decompress_file-Prints_example :
    Prints 3 two_files
      (decompress_file listed stored sequential 100 a_path none none (some 3) 8 two_files).1
decompress_file-Prints_example =
    decompress_file-Prints listed stored sequential 100 3 8 a_path none two_files

a_path-is_utf8 : is_utf8_from [] a_path ≡ true
unfolding is_utf8_from following in_range
a_path-is_utf8 = refl

strip_gz_extension-gz_extension_example : strip_gz_extension (gz_extension a_path) ≡ some a_path
strip_gz_extension-gz_extension_example = strip_gz_extension-gz_extension a_path a_path-is_utf8

-- "a.gz"
abbrev a_gz : PathBuf
a_gz = 97 ∷ 46 ∷ 103 ∷ 122 ∷ []

a_gz_output : decompress_output none false a_gz ≡ some a_path
unfolding decompress_output strip_gz_extension strip_suffix same_bytes is_utf8_from following
    in_range
a_gz_output = refl

decompress_output-ne_example : a_path ≢ a_gz
decompress_output-ne_example = decompress_output-ne a_gz a_path false a_gz_output
