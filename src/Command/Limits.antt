-- ===== src/Command/Limits.antt =====
-- The limit of decompression (`-q`).
use pgzf_rs.Prelude.{
  ℕ, ◌≤◌, ◌≡◌, refl, sym, ap, Option, none, some, List, [], ◌++◌, arith, append-nil,
}
use pgzf_rs.Prelude.Lists.{length}
use pgzf_rs.Prelude.Outcome.{map_err}
use pgzf_rs.External.Lru.{LruCache}
use pgzf_rs.External.Flate.{Flate}
use pgzf_rs.External.Rayon.{Rayon}
use pgzf_rs.BlockCache.{CacheEntry}
use pgzf_rs.Reader.State.{PgzfReader, open_reader, set_readahead_size}
use pgzf_rs.Reader.Read.{read}
use pgzf_rs.Reader.Bounded.{read-le}
use pgzf_rs.Command.Paths.{PathBuf}
use pgzf_rs.Command.World.{World, from_pgzf, found_file, open_file, print}
use pgzf_rs.Command.Copy.{copy_limited-Copied}
use pgzf_rs.Command.Decompress.{sought, copied, decompress_stream, decompress_file}
use pgzf_rs.Command.Laws.{after_continue}

-- The second world has at most `limit` more bytes on the standard output, and the same files.
abbrev pub Prints : ℕ → World → World → Type 0
Prints limit w w' =
    (more : List ℕ) × (w'.stdout ≡ w.stdout ++ more) × (length more ≤ limit) × (w'.files ≡ w.files)

Prints-nothing : (limit : ℕ) (w : World) → Prints limit w w
Prints-nothing limit w = ([], sym (append-nil w.stdout), omega arith, refl)

module _ (lru : LruCache CacheEntry) (fl : Flate) (ray : Rayon) where
  copied-le :
      (rounds limit : ℕ) (r : PgzfReader lru)
      → length (copied lru fl ray rounds (some limit) r).1.1 ≤ limit
  unfolding copied
  copied-le rounds limit r =
      let c =
        copy_limited-Copied (read lru fl ray) limit limit (r, [])
          (λ n s buf e. read-le lru fl ray n s buf e) (omega arith) in
      omega (arith, ap length c.written, c.within)

  decompress_stream-Prints :
      (rounds limit : ℕ) (source : Option PathBuf) (r : PgzfReader lru) (seek_byte : Option ℕ)
      (w : World)
      → Prints limit w
          (decompress_stream lru fl ray rounds source r none seek_byte (some limit) w).1
  unfolding decompress_stream print
  decompress_stream-Prints rounds limit source r seek_byte w =
      after_continue (Prints limit w) (map_err from_pgzf (sought lru fl ray seek_byte r).0) w _
        (Prints-nothing limit w) (λ u. (_, refl, copied-le rounds limit _, refl))

  -- Decompressing any file to the standard output with a limit, from any offset: whatever the
  -- outcome, the standard output grows by as many bytes as the limit at most, and no file changes.
  pub decompress_file-Prints :
      (rounds limit threads : ℕ) (input : PathBuf) (seek_byte : Option ℕ) (w : World)
      → Prints limit w
          (decompress_file lru fl ray rounds input none seek_byte (some limit) threads w).1
  unfolding decompress_file open_file
  decompress_file-Prints rounds limit threads input seek_byte w =
      after_continue (Prints limit w) (found_file input (w.files input)) w _
        (Prints-nothing limit w)
        (λ bytes.
          after_continue (Prints limit w)
            (map_err from_pgzf (open_reader lru (record { bytes = bytes; pos = 0 }))) w _
            (Prints-nothing limit w)
            (λ r.
              decompress_stream-Prints rounds limit (some input) (set_readahead_size lru r threads)
                seek_byte w))
