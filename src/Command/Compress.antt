-- ===== src/Command/Compress.antt =====
-- Compression in src/main.rs: `compress_file`, `compress_stdin`, and the branch for `-c`.
use pgzf_rs.Prelude.{ℕ, Option, none, some, List, []}
use pgzf_rs.Prelude.Lists.{length}
use pgzf_rs.Prelude.Outcome.{Outcome, map_err, Exec, ◌>>=◌, ◌>>◌, pure, lift, with_state}
use pgzf_rs.Error.{PgzfError}
use pgzf_rs.Cursor.{Cursor}
use pgzf_rs.Format.Config.{PgzfConfig}
use pgzf_rs.External.Flate.{Flate}
use pgzf_rs.External.Rayon.{Rayon}
use pgzf_rs.Writer.{PgzfWriter, with_config, chunks, buffer_block, flush_group}
use pgzf_rs.Writer.Pieces.{write_each}
use pgzf_rs.Command.Paths.{PathBuf}
use pgzf_rs.Command.World.{
  World, CommandError, from_pgzf, bytes_at, open_file, create_file, write_file, print,
}
use pgzf_rs.Command.Copy.{io_copy_buffer}

abbrev pub new_file : Cursor
new_file = record { bytes = []; pos = 0 }

module _ (fl : Flate) (ray : Rayon) where
  -- `PgzfWriter::with_config`, `io::copy` of these bytes into it, and `finish`, of which the writer is
  -- kept; a write takes all that it is given, so `io::copy` writes the pieces that it reads.
  unfoldable pub encode : PgzfConfig → List ℕ → Outcome PgzfError (Unit {0}) × PgzfWriter
  encode config bytes =
      (do
        write_each fl ray (chunks (length bytes) io_copy_buffer bytes)
        buffer_block fl ray
        flush_group fl ray)
        (with_config new_file config)

  abbrev pub encoded : PgzfConfig → List ℕ → List ℕ
  encoded config bytes = (encode config bytes).1.inner.bytes

  abbrev pub outcome : PgzfConfig → List ℕ → Outcome CommandError (Unit {0})
  outcome config bytes = map_err from_pgzf (encode config bytes).0

  -- The input is read once the output has been created, which may be the same file. What has been
  -- written stays there if a step fails.
  unfoldable pub compress_file : PathBuf → PathBuf → PgzfConfig → Exec World CommandError (Unit {0})
  compress_file input output config = do
    open_file input
    create_file output
    bytes ← with_state (λ w. pure (bytes_at input w))
    write_file output (encoded config bytes)
    lift (outcome config bytes)

  abbrev put_encoded : Option PathBuf → List ℕ → Exec World CommandError (Unit {0})
  put_encoded none bytes = print bytes
  put_encoded (some path) bytes = write_file path bytes

  unfoldable pub compress_stdin : Option PathBuf → PgzfConfig → Exec World CommandError (Unit {0})
  compress_stdin output config = do
    bytes ← with_state (λ w. pure w.stdin)
    lift (outcome config bytes)
    put_encoded output (encoded config bytes)

  -- The branch of `main` for `-c`.
  unfoldable pub compress_to_stdout : PathBuf → PgzfConfig → Exec World CommandError (Unit {0})
  compress_to_stdout file config = do
    bytes ← open_file file
    lift (outcome config bytes)
    print (encoded config bytes)
