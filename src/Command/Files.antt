-- ===== src/Command/Files.antt =====
-- The files that compression leaves.
use pgzf_rs.Prelude.{
  ℕ, ◌^◌, ◌<◌, ◌≡◌, ◌≢◌, inl, inr, refl, sym, ap, subst, ◌∙◌, true, false, Option, none, some, List,
  [], ◌∷◌, arith,
}
use pgzf_rs.Prelude.Tests.{Bool-cases}
use pgzf_rs.Prelude.Lists.{length}
use pgzf_rs.Prelude.Outcome.{Outcome, ok, err, panic, stuck, Exec, and_then, continue-ok, ◌>>◌}
use pgzf_rs.Error.{PgzfError}
use pgzf_rs.Cursor.{Cursor}
use pgzf_rs.Format.Config.{PgzfConfig}
use pgzf_rs.External.Lru.{LruCache}
use pgzf_rs.External.Flate.{Flate}
use pgzf_rs.External.Rayon.{Rayon, RayonLaws}
use pgzf_rs.BlockCache.{CacheEntry}
use pgzf_rs.Codec.Laws.{FlateLaws}
use pgzf_rs.Writer.{PgzfWriter, with_config, chunks, buffer_block, flush_group, finish}
use pgzf_rs.Writer.Blocks.{flatten-chunks}
use pgzf_rs.Writer.Holds.{IsWritable}
use pgzf_rs.Writer.Pieces.{write_each, data_file, write_each-finish}
use pgzf_rs.Command.Paths.{PathBuf, compress_output}
use pgzf_rs.Command.World.{
  World, CommandError, found_file, bytes_or_empty, exists, set_file, open_file, create_file,
  write_file, print,
}
use pgzf_rs.Command.Copy.{io_copy_buffer}
use pgzf_rs.Command.Compress.{new_file, encode, encoded, outcome, compress_file, compress_to_stdout}
use pgzf_rs.Command.Run.{Cli, cli_config, for_each, compress_to, compress_one, run}
use pgzf_rs.Command.Laws.{set_file-same, set_file-other, Keeps, after_continue, Keeps-bind}

-- A file that a writer in the end gives up is the writer's.
finished :
    (o : Outcome PgzfError (Unit {0})) (w : PgzfWriter) (c : Cursor)
    → and_then o (λ _. ok w.inner) ≡ ok c
    → (o ≡ ok tt) × (w.inner ≡ c)
finished (ok u) w c h = (
  refl,
  ap (λ (r : Outcome PgzfError Cursor). elim r [ ok d ↦ d | err e ↦ c | panic ↦ c | stuck ↦ c ]) h,
)
finished (err e) w c h = absurd (cc h)
finished panic w c h = absurd (cc h)
finished stuck w c h = absurd (cc h)

module _ (fl : Flate) (ray : Rayon) where
  finish-steps :
      (w : PgzfWriter) (c : Cursor)
      → finish fl ray w ≡ ok c
      → (((buffer_block fl ray >> flush_group fl ray) w).0 ≡ ok tt)
        × (((buffer_block fl ray >> flush_group fl ray) w).1.inner ≡ c)
  unfolding finish
  finish-steps w c h = let q = (buffer_block fl ray >> flush_group fl ray) w in finished q.0 q.1 c h

module _ (fl : Flate) (ray : Rayon) (level : ℕ) (laws : FlateLaws fl level)
    (rlaws : RayonLaws ray) where
  encode_lem :
      (config : PgzfConfig) (bytes : List ℕ)
      → IsWritable level config
      → length (data_file fl level laws config bytes) < 2 ^ 64
      → ((encode fl ray config bytes).0 ≡ ok tt)
        × (encoded fl ray config bytes ≡ data_file fl level laws config bytes)
  unfolding encode
  encode_lem config bytes good fits =
      let pieces = chunks (length bytes) io_copy_buffer bytes in
      let joined =
        flatten-chunks ℕ (length bytes) io_copy_buffer bytes (omega arith) (omega arith) in
      let data_lem = ap (data_file fl level laws config) joined in
      let (r, f) =
        write_each-finish fl ray level laws rlaws new_file config pieces good refl
          (omega (arith, fits, ap length data_lem)) in
      let p = write_each fl ray pieces (with_config new_file config) in
      let (ends, file) = finish-steps fl ray p.1 _ f in
      subst
        (λ (q : Outcome PgzfError (Unit {0}) × PgzfWriter).
          (q.0 ≡ ok tt) × (q.1.inner.bytes ≡ data_file fl level laws config bytes))
        (sym (continue-ok p tt (λ (u : Unit {0}). buffer_block fl ray >> flush_group fl ray) r))
        (ends, ap (λ (c : Cursor). c.bytes) file ∙ data_lem)

  -- Under the laws of rayon and of flate2 at the writer's level, with a block size, a group size
  -- and a batch size that are not 0 and a file to be made that is shorter than 2^64: compressing a
  -- file that exists to another path succeeds, the output then has the layout of the input's
  -- bytes, cut into blocks and groups, and any path but the output names what it named before.
  pub compress_file-data_file :
      (input output q : PathBuf) (config : PgzfConfig) (bytes : List ℕ) (w : World)
      → IsWritable level config
      → length (data_file fl level laws config bytes) < 2 ^ 64
      → w.files input ≡ some bytes
      → output ≢ input
      → output ≢ q
      → ((compress_file fl ray input output config w).0 ≡ ok tt)
        × ((compress_file fl ray input output config w).1.files output
            ≡ some (data_file fl level laws config bytes))
        × ((compress_file fl ray input output config w).1.files q ≡ w.files q)
  unfolding compress_file open_file create_file write_file
  compress_file-data_file input output q config bytes w good fits h apart other =
      let w1 = set_file output (some []) w in
      let (r, e) = encode_lem config bytes good fits in
      let read_back : bytes_or_empty (w1.files input) ≡ bytes =
        ap bytes_or_empty (set_file-other output input (some []) w apart ∙ h) in
      rw (h, read_back, r, e)
        (
          refl,
          set_file-same output _ w1,
          set_file-other output q _ w1 other ∙ set_file-other output q _ w other,
        )

module _ (lru : LruCache CacheEntry) (fl : Flate) (ray : Rayon) (rounds : ℕ) where
  -- The path names a file with these bytes.
  abbrev Has : PathBuf → List ℕ → World → Type 0
  Has path bytes w = w.files path ≡ some bytes

  compress_to_stdout-Keeps :
      (path file : PathBuf) (bytes : List ℕ) (config : PgzfConfig)
      → Keeps (Has path bytes) (compress_to_stdout fl ray file config)
  unfolding compress_to_stdout open_file print
  compress_to_stdout-Keeps path file bytes config w h =
      after_continue (Has path bytes) (found_file file (w.files file)) w _ h
        (λ read. after_continue (Has path bytes) (outcome fl ray config read) w _ h (λ u. h))

  compress_file-Keeps :
      (path input output : PathBuf) (bytes : List ℕ) (config : PgzfConfig)
      → output ≢ path
      → Keeps (Has path bytes) (compress_file fl ray input output config)
  unfolding compress_file open_file create_file write_file
  compress_file-Keeps path input output bytes config apart w h =
      let w1 = set_file output (some []) w in
      after_continue (Has path bytes) (found_file input (w.files input)) w _ h
        (λ read. set_file-other output path _ w1 apart ∙ set_file-other output path _ w apart ∙ h)

  none_apart :
      (path out : PathBuf) (bytes : List ℕ) (w : World)
      → Has path bytes w
      → exists (w.files out) ≡ false
      → out ≢ path
  none_apart path out bytes w h e =
      λ same. absurd (cc (sym e ∙ ap (λ (q : PathBuf). exists (w.files q)) same ∙ ap exists h))

  compress_to-Keeps :
      (cli : Cli) (path file : PathBuf) (bytes : List ℕ) (out : Option PathBuf)
      → cli.force ≡ false
      → cli.keep ≡ true
      → Keeps (Has path bytes) (compress_to lru fl ray rounds cli file out)
  unfolding cli_config compress_file
  compress_to-Keeps cli path file bytes none force keep w h = h
  compress_to-Keeps cli path file bytes (some out) force keep w h =
      elim (Bool-cases (exists (w.files out))) [
        | inl there ↦ rw (force, there) h
        | inr free ↦
            rw (force, free, keep)
              (Keeps-bind (Has path bytes) (compress_file fl ray file out (cli_config cli)) _
                (compress_file-Keeps path file out bytes (cli_config cli)
                  (none_apart path out bytes w h free))
                (λ u w' h'. h') w h)
      ]

  compress_one-Keeps :
      (cli : Cli) (path file : PathBuf) (bytes : List ℕ)
      → cli.force ≡ false
      → cli.keep ≡ true
      → Keeps (Has path bytes) (compress_one lru fl ray rounds cli file)
  unfolding compress_one cli_config
  compress_one-Keeps cli path file bytes force keep w h = elim (Bool-cases cli.stdout) [
    | inl e ↦ rw e (compress_to_stdout-Keeps path file bytes (cli_config cli) w h)
    | inr e ↦ rw e (
        compress_to-Keeps cli path file bytes (compress_output cli.output false file) force keep w
          h)
  ]

  for_each-Keeps :
      (P : World → Type 0) (f : PathBuf → Exec World CommandError (Unit {0})) (files : List PathBuf)
      → ((file : PathBuf) → Keeps P (f file))
      → Keeps P (for_each f files)
  for_each-Keeps P f [] h = λ w p. p
  for_each-Keeps P f (file ∷ files) h =
      Keeps-bind P (f file) (λ u. for_each f files) (h file) (λ u. for_each-Keeps P f files h)

  -- Compressing one or more files with -k and without -f, with any other options: whatever the
  -- outcome, each file that was there before, whether it is an input or not, has the same bytes
  -- afterwards.
  pub run-Keeps :
      (cli : Cli) (file : PathBuf) (more : List PathBuf) (path : PathBuf) (bytes : List ℕ)
      (w : World)
      → cli.inspect ≡ false
      → cli.decompress ≡ false
      → cli.force ≡ false
      → cli.keep ≡ true
      → cli.files ≡ file ∷ more
      → w.files path ≡ some bytes
      → (run lru fl ray rounds cli w).1.files path ≡ some bytes
  unfolding run compress_one cli_config
  run-Keeps cli file more path bytes w i d force keep files h =
      rw (i, d, files)
        (for_each-Keeps (Has path bytes) (compress_one lru fl ray rounds cli) (file ∷ more)
          (λ f. compress_one-Keeps cli path f bytes force keep) w h)
