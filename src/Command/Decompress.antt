-- ===== src/Command/Decompress.antt =====
-- Decompression in src/main.rs: `decompress_stream`, `decompress_file` and `decompress_stdin`.
use pgzf_rs.Prelude.{ℕ, Option, none, some, List, []}
use pgzf_rs.Prelude.Outcome.{Outcome, map_err, Exec, ◌>>=◌, ◌>>◌, pure, lift, with_state}
use pgzf_rs.Error.{IoError, PgzfError}
use pgzf_rs.External.Lru.{LruCache}
use pgzf_rs.External.Flate.{Flate}
use pgzf_rs.External.Rayon.{Rayon}
use pgzf_rs.BlockCache.{CacheEntry}
use pgzf_rs.Reader.State.{PgzfReader, open_reader, set_readahead_size}
use pgzf_rs.Reader.Read.{seek_to_byte, read}
use pgzf_rs.Command.Paths.{PathBuf}
use pgzf_rs.Command.World.{
  World, CommandError, from_io, from_pgzf, bytes_at, open_file, create_file, write_file, print,
}
use pgzf_rs.Command.Copy.{copy_limited, copy_all}

abbrev start_output : Option PathBuf → Exec World CommandError (Unit {0})
start_output none = pure tt
start_output (some path) = create_file path

abbrev put_output : Option PathBuf → List ℕ → Exec World CommandError (Unit {0})
put_output none bytes = print bytes
put_output (some path) bytes = write_file path bytes

module _ (lru : LruCache CacheEntry) (fl : Flate) (ray : Rayon) where
  abbrev pub sought : Option ℕ → PgzfReader lru → Outcome PgzfError (Unit {0}) × PgzfReader lru
  sought none r = pure tt r
  sought (some offset) r = seek_to_byte lru offset r

  -- The file that is read may have been truncated by the creation of the output.
  abbrev pub refreshed : Option PathBuf → World → PgzfReader lru → PgzfReader lru
  refreshed none w r = r
  refreshed (some input) w r = record r { inner = record r.inner { bytes = bytes_at input w } }

  -- What is read, with a limit or up to the end; `rounds` bounds the loop of `io::copy`.
  unfoldable pub copied :
      ℕ → Option ℕ → PgzfReader lru → Outcome IoError (Unit {0}) × (PgzfReader lru × List ℕ)
  copied rounds none r = copy_all (read lru fl ray) rounds (r, [])
  copied rounds (some limit) r = copy_limited (read lru fl ray) limit limit (r, [])

  -- `source` is the file that the reader reads, if it is one.
  unfoldable pub decompress_stream :
      ℕ
      → Option PathBuf
      → PgzfReader lru
      → Option PathBuf
      → Option ℕ
      → Option ℕ
      → Exec World CommandError (Unit {0})
  decompress_stream rounds source reader output seek_byte limit = do
    let s = sought seek_byte reader
    lift (map_err from_pgzf s.0)
    start_output output
    p ← with_state (λ w. pure (copied rounds limit (refreshed source w s.1)))
    put_output output p.1.1
    lift (map_err from_io p.0)

  unfoldable pub decompress_file :
      ℕ → PathBuf → Option PathBuf → Option ℕ → Option ℕ → ℕ → Exec World CommandError (Unit {0})
  decompress_file rounds input output seek_byte limit threads = do
    bytes ← open_file input
    reader ← lift (map_err from_pgzf (open_reader lru (record { bytes = bytes; pos = 0 })))
    decompress_stream rounds (some input) (set_readahead_size lru reader threads) output seek_byte
        limit

  unfoldable pub decompress_stdin :
      ℕ → Option PathBuf → Option ℕ → Option ℕ → Exec World CommandError (Unit {0})
  decompress_stdin rounds output seek_byte limit = do
    bytes ← with_state (λ w. pure w.stdin)
    reader ← lift (map_err from_pgzf (open_reader lru (record { bytes = bytes; pos = 0 })))
    decompress_stream rounds none reader output seek_byte limit
