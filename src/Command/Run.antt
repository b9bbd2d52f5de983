-- ===== src/Command/Run.antt =====
-- `main` of src/main.rs, behind the parsing of the arguments. The number of threads of rayon's pool
-- has no bearing on what is computed.
use pgzf_rs.Prelude.{ℕ, Bool, true, false, not, ◌&&◌, Option, none, some, List, [], ◌∷◌}
use pgzf_rs.Prelude.Tests.{if◌then◌else◌}
use pgzf_rs.Prelude.Outcome.{panic, Exec, ◌>>◌, pure, lift, fail, with_state}
use pgzf_rs.Format.Config.{PgzfConfig, Setting, default_config, configure}
use pgzf_rs.External.Lru.{LruCache}
use pgzf_rs.External.Flate.{Flate}
use pgzf_rs.External.Rayon.{Rayon}
use pgzf_rs.BlockCache.{CacheEntry}
use pgzf_rs.Command.Paths.{PathBuf, compress_output, decompress_output}
use pgzf_rs.Command.World.{World, CommandError, file_exists, no_file, exists, remove_file}
use pgzf_rs.Command.Compress.{compress_file, compress_stdin, compress_to_stdout}
use pgzf_rs.Command.Decompress.{decompress_file, decompress_stdin}
use pgzf_rs.Command.Inspect.{inspect_file}

pub record Cli : Type 0 where
  pub decompress : Bool
  pub stdout : Bool
  pub keep : Bool
  pub force : Bool
  pub output : Option PathBuf
  pub threads : ℕ
  pub block_size_mb : ℕ
  pub group_blocks : ℕ
  pub seek_byte : Option ℕ
  pub limit : Option ℕ
  pub level : ℕ
  pub files : List PathBuf
  pub inspect : Bool

unfoldable pub cli_config : Cli → PgzfConfig
cli_config cli =
    configure
      (configure (configure default_config (Setting.block_size_mb cli.block_size_mb))
        (Setting.group_blocks cli.group_blocks))
      (Setting.compression_level cli.level)

-- `for file in &cli.files`, up to the first error.
abbrev pub for_each :
    (PathBuf → Exec World CommandError (Unit {0}))
    → List PathBuf
    → Exec World CommandError (Unit {0})
for_each f [] = pure tt
for_each f (file ∷ files) = f file >> for_each f files

abbrev is_some : Option PathBuf → Bool
is_some none = false
is_some (some o) = true

abbrev pub remove_unless : Bool → PathBuf → Exec World CommandError (Unit {0})
remove_unless b file = if b then pure tt else remove_file file

module _ (lru : LruCache CacheEntry) (fl : Flate) (ray : Rayon) (rounds : ℕ) where
  unfoldable pub decompress_one : Cli → PathBuf → Exec World CommandError (Unit {0})
  decompress_one cli file = do
    let output = decompress_output cli.output cli.stdout file
    decompress_file lru fl ray rounds file output cli.seek_byte cli.limit cli.threads
    remove_unless (not (not cli.keep && (not cli.stdout && is_some output))) file

  -- The output is there, since `-c` was not given.
  abbrev pub compress_to : Cli → PathBuf → Option PathBuf → Exec World CommandError (Unit {0})
  compress_to cli file none = lift panic
  compress_to cli file (some out) = with_state (λ w.
      if not cli.force && exists (w.files out)
      then fail (file_exists out)
      else (compress_file fl ray file out (cli_config cli) >> remove_unless cli.keep file))

  unfoldable pub compress_one : Cli → PathBuf → Exec World CommandError (Unit {0})
  compress_one cli file =
      if cli.stdout
      then compress_to_stdout fl ray file (cli_config cli)
      else compress_to cli file (compress_output cli.output cli.stdout file)

  abbrev inspect_all : List PathBuf → Exec World CommandError (Unit {0})
  inspect_all [] = fail no_file
  inspect_all (file ∷ files) = for_each inspect_file (file ∷ files)

  abbrev decompress_all : Cli → List PathBuf → Exec World CommandError (Unit {0})
  decompress_all cli [] = decompress_stdin lru fl ray rounds cli.output cli.seek_byte cli.limit
  decompress_all cli (file ∷ files) = for_each (decompress_one cli) (file ∷ files)

  abbrev compress_all : Cli → List PathBuf → Exec World CommandError (Unit {0})
  compress_all cli [] = compress_stdin fl ray cli.output (cli_config cli)
  compress_all cli (file ∷ files) = for_each (compress_one cli) (file ∷ files)

  unfoldable pub run : Cli → Exec World CommandError (Unit {0})
  run cli =
      if cli.inspect
      then inspect_all cli.files
      else if cli.decompress
      then decompress_all cli cli.files
      else compress_all cli cli.files
