-- ===== src/Command/World.antt =====
-- What src/main.rs works on: the files by their paths, the standard streams, and what is printed about
-- a file. A path names a file by its bytes; no file is a directory or a link, and each may be
-- found_file, created and removed.
use pgzf_rs.Prelude.{ℕ, ◌++◌, Bool, true, false, Option, none, some, List, [], ◌∷◌}
use pgzf_rs.Prelude.Tests.{if◌then◌else◌}
use pgzf_rs.Prelude.Outcome.{Outcome, ok, err, Exec, modify}
use pgzf_rs.Error.{IoError, PgzfError}
use pgzf_rs.Command.Paths.{PathBuf, same_bytes}

-- What `-i` prints; the compression ratio follows from the sizes.
pub data Method : Type 0 where
  store deflate unknown : Method

-- Groups, blocks, uncompressed and compressed bytes; or method, time, compressed and uncompressed bytes.
pub data Report : Type 0 where
  pgzf_report : ℕ → ℕ → ℕ → ℕ → Report
  gzip_report : Method → ℕ → ℕ → ℕ → Report

pub record World : Type 0 where
  pub files : PathBuf → Option (List ℕ)
  pub stdin : List ℕ
  pub stdout : List ℕ
  pub reports : List (PathBuf × Report)

-- `Box<dyn std::error::Error>`, and the messages of src/main.rs.
pub data CommandError : Type 0 where
  from_io : IoError → CommandError
  from_pgzf : PgzfError → CommandError
  not_found : PathBuf → CommandError
  file_exists : PathBuf → CommandError
  no_file not_a_gzip_file : CommandError

abbrev pub exists : Option (List ℕ) → Bool
exists none = false
exists (some bytes) = true

abbrev pub bytes_or_empty : Option (List ℕ) → List ℕ
bytes_or_empty none = []
bytes_or_empty (some bytes) = bytes

abbrev pub bytes_at : PathBuf → World → List ℕ
bytes_at path w = bytes_or_empty (w.files path)

unfoldable pub set_file : PathBuf → Option (List ℕ) → World → World
set_file path bytes w = record w { files = λ q. if same_bytes path q then bytes else w.files q }

-- `File::open`
abbrev pub found_file : PathBuf → Option (List ℕ) → Outcome CommandError (List ℕ)
found_file path none = err (not_found path)
found_file path (some bytes) = ok bytes

unfoldable pub open_file : PathBuf → Exec World CommandError (List ℕ)
open_file path w = (found_file path (w.files path), w)

-- `File::create`, `std::fs::remove_file` with its result dropped, and `File::write`.
unfoldable pub create_file : PathBuf → Exec World CommandError (Unit {0})
create_file path = modify (set_file path (some []))

unfoldable pub remove_file : PathBuf → Exec World CommandError (Unit {0})
remove_file path = modify (set_file path none)

unfoldable pub write_file : PathBuf → List ℕ → Exec World CommandError (Unit {0})
write_file path bytes = modify (set_file path (some bytes))

unfoldable pub print : List ℕ → Exec World CommandError (Unit {0})
print bytes = modify (λ w. record w { stdout = w.stdout ++ bytes })

unfoldable pub report : PathBuf → Report → Exec World CommandError (Unit {0})
report path r = modify (λ w. record w { reports = w.reports ++ ((path, r) ∷ []) })
