-- ===== src/Writer/Pieces.antt =====
-- The whole way of the data: a new writer, any writes one after the other, and `finish`.
use pgzf_rs.Prelude.{
  ℕ, ◌^◌, ◌<◌, ◌≡◌, inl, refl, sym, ap, subst, ◌∙◌, List, [], ◌∷◌, ◌++◌, append-nil,
}
use pgzf_rs.Prelude.Lists.{length, flatten, length-replicate}
use pgzf_rs.Prelude.Outcome.{Outcome, ok, Exec, continue-ok, pure, ◌>>◌}
use pgzf_rs.Error.{PgzfError}
use pgzf_rs.Cursor.{Cursor}
use pgzf_rs.Format.Config.{PgzfConfig}
use pgzf_rs.External.Flate.{Flate}
use pgzf_rs.External.Rayon.{Rayon, RayonLaws}
use pgzf_rs.Codec.Laws.{FlateLaws}
use pgzf_rs.Writer.{PgzfWriter, with_config, write, finish}
use pgzf_rs.Writer.Plan.{chunks_of, groups_bytes}
use pgzf_rs.Writer.Holds.{IsWritable, Fits}
use pgzf_rs.Writer.Writing.{Writes, write-Writes}
use pgzf_rs.Writer.File.{file_of, finish-Writes}

module _ (fl : Flate) (ray : Rayon) where
  -- A caller that writes some buffers one after the other.
  unfoldable pub write_each : List (List ℕ) → Exec PgzfWriter PgzfError (Unit {0})
  write_each [] = pure tt
  write_each (buf ∷ bufs) = write fl ray buf >> write_each bufs

module _ (fl : Flate) (ray : Rayon) (level : ℕ) (laws : FlateLaws fl level) (rlaws : RayonLaws ray)
    (cfg : PgzfConfig) (good : IsWritable level cfg) (base : List ℕ) where
  each_lem :
      (bufs : List (List ℕ)) (w : PgzfWriter) (all : List (List (List ℕ)))
      → Writes fl ray level laws rlaws cfg good base w all (flatten bufs)
      → Fits fl ray level laws rlaws cfg good base all
      → ((write_each fl ray bufs w).0 ≡ ok tt)
        × Writes fl ray level laws rlaws cfg good base (write_each fl ray bufs w).1 all []
  unfolding write_each
  each_lem [] w all s fits = (refl, s)
  each_lem (buf ∷ bufs) w all s fits =
      let (r, after) =
        write-Writes fl ray level laws rlaws cfg good base w all buf (flatten bufs) s fits in
      subst
        (λ (q : Outcome PgzfError (Unit {0}) × PgzfWriter).
          (q.0 ≡ ok tt) × Writes fl ray level laws rlaws cfg good base q.1 all [])
        (sym (continue-ok (write fl ray buf w) (length buf) (λ (n : ℕ). write_each fl ray bufs) r))
        (each_lem bufs (write fl ray buf w).1 all after fits)

-- The file of some data: cut into blocks of the block size, these into groups, and each group in
-- its layout.
abbrev pub data_file : (fl : Flate) (level : ℕ) → FlateLaws fl level → PgzfConfig → List ℕ → List ℕ
data_file fl level laws cfg bytes =
    groups_bytes fl level laws (chunks_of cfg.group_blocks (chunks_of cfg.block_size bytes))

module _ (fl : Flate) (ray : Rayon) (level : ℕ) (laws : FlateLaws fl level)
    (rlaws : RayonLaws ray) where
  started_lem :
      (c : Cursor) (cfg : PgzfConfig) (good : IsWritable level cfg) (bytes : List ℕ)
      → c.pos ≡ length c.bytes
      → Writes fl ray level laws rlaws cfg good c.bytes
          (with_config c cfg)
          (chunks_of cfg.group_blocks (chunks_of cfg.block_size bytes))
          bytes
  unfolding with_config
  started_lem c cfg good bytes e = record {
    groups = [];
    pend = [];
    tail = [];
    holds = record {
      bytes = sym (append-nil c.bytes);
      at_end = e;
      start = e;
      pending = refl;
      in_group = refl;
      gc = inl refl;
      open_group = good.group;
      buffer = length-replicate cfg.block_size 0;
      filled = refl;
      used = refl;
      config = refl;
    };
    short = good.block;
    planned = refl;
  }

  -- Under the laws of rayon and of flate2 at the writer's level, with a block size, a group size
  -- and a batch size that are not 0: on a new writer whose position is at the end of its file,
  -- any writes one after the other succeed, and `finish` then succeeds with the file followed by
  -- the layout of all the data written, cut into blocks of the block size and these into groups
  -- of the group size, the position at its end, where the file so made is shorter than 2^64.
  pub write_each-finish :
      (c : Cursor) (cfg : PgzfConfig) (bufs : List (List ℕ))
      → IsWritable level cfg
      → c.pos ≡ length c.bytes
      → length (c.bytes ++ data_file fl level laws cfg (flatten bufs)) < 2 ^ 64
      → ((write_each fl ray bufs (with_config c cfg)).0 ≡ ok tt)
        × (finish fl ray (write_each fl ray bufs (with_config c cfg)).1
            ≡ ok (file_of (c.bytes ++ data_file fl level laws cfg (flatten bufs))))
  write_each-finish c cfg bufs good e fits =
      let all = chunks_of cfg.group_blocks (chunks_of cfg.block_size (flatten bufs)) in
      let (r, s) =
        each_lem fl ray level laws rlaws cfg good c.bytes bufs (with_config c cfg) all
          (started_lem c cfg good (flatten bufs) e) fits in
      (
        r,
        finish-Writes fl ray level laws rlaws cfg good c.bytes
            (write_each fl ray bufs (with_config c cfg)).1 all s fits,
      )

  -- Under the laws of rayon and of flate2 at the writer's level, with a block size, a group size
  -- and a batch size that are not 0, on a new writer at the end of its file, and a file to be
  -- made that is shorter than 2^64: two ways to cut the same data into writes give the same
  -- result of `finish`.
  pub write_each-same_data :
      (c : Cursor) (cfg : PgzfConfig) (bufs bufs' : List (List ℕ))
      → IsWritable level cfg
      → c.pos ≡ length c.bytes
      → flatten bufs ≡ flatten bufs'
      → length (c.bytes ++ data_file fl level laws cfg (flatten bufs)) < 2 ^ 64
      → finish fl ray (write_each fl ray bufs (with_config c cfg)).1
        ≡ finish fl ray (write_each fl ray bufs' (with_config c cfg)).1
  write_each-same_data c cfg bufs bufs' good e same fits =
      (write_each-finish c cfg bufs good e fits).1
      ∙ ap (λ (l : List ℕ). ok (file_of (c.bytes ++ data_file fl level laws cfg l))) same
      ∙ sym
          (write_each-finish c cfg bufs' good e (
            subst (λ (l : List ℕ). length (c.bytes ++ data_file fl level laws cfg l) < 2 ^ 64) same
              fits)).1
