-- ===== src/Index/Written.antt =====
-- The index of a file that the writer has made.
use pgzf_rs.Prelude.{
  ℕ, zero, suc, ◌+◌, ◌*◌, ◌^◌, ◌<◌, ◌≤◌, ◌≡◌, refl, ap, ◌∙◌, List, [], ◌∷◌, ◌++◌, arith, map,
}
use pgzf_rs.Prelude.Lists.{length, drop, flatten, length-take, All, All-take, All-drop}
use pgzf_rs.Prelude.Outcome.{ok}
use pgzf_rs.Cursor.{Cursor}
use pgzf_rs.Format.Config.{PgzfConfig}
use pgzf_rs.External.Flate.{Flate}
use pgzf_rs.External.Rayon.{Rayon, RayonLaws}
use pgzf_rs.Codec.Laws.{FlateLaws}
use pgzf_rs.Writer.{chunks, with_config, finish}
use pgzf_rs.Writer.Blocks.{flatten-chunks}
use pgzf_rs.Writer.Plan.{chunks_of}
use pgzf_rs.Writer.Holds.{IsWritable}
use pgzf_rs.Writer.File.{file_of}
use pgzf_rs.Writer.Pieces.{write_each, data_file, write_each-finish}
use pgzf_rs.Index.{last_or_zero, total_uncompressed}
use pgzf_rs.Index.Types.{PgzfIndex}
use pgzf_rs.Index.Build.{build}
use pgzf_rs.Index.Places.{starts}
use pgzf_rs.Index.Exact.{IsSmall, IsIndexable, EmptyIsSmall}
use pgzf_rs.Index.Whole.{IsIndexOf, build-groups}

pub last_or_zero-snoc : (l : List ℕ) (n : ℕ) → last_or_zero (l ++ (n ∷ [])) ≡ n
last_or_zero-snoc [] n = refl
last_or_zero-snoc (x ∷ []) n = refl
last_or_zero-snoc (x ∷ y ∷ l) n = last_or_zero-snoc (y ∷ l) n

pub All-implied :
    {A : Type 0} (P Q : A → Type 0) (xs : List A) → ((x : A) → P x → Q x) → All P xs → All Q xs
All-implied P Q [] h p = tt
All-implied P Q (x ∷ xs) h p = (h x p.0, All-implied P Q xs h p.1)

-- A chunk of at most `n` elements, for each of which `P` holds.
pub record IsChunk {A : Type 0} (P : A → Type 0) (n : ℕ) (chunk : List A) : Type 0 where
  pub nonempty : 0 < length chunk
  pub short : length chunk ≤ n
  pub elements : All P chunk

pub chunks-IsChunk :
    {A : Type 0} (P : A → Type 0) (fuel n : ℕ) (xs : List A)
    → 0 < n
    → All P xs
    → All (IsChunk P n) (chunks fuel n xs)
unfolding chunks
chunks-IsChunk P zero n xs p h = tt
chunks-IsChunk P (suc fuel) n [] p h = tt
chunks-IsChunk P (suc fuel) n (x ∷ xs) p h = (
  record {
    nonempty = omega (arith, length-take n (x ∷ xs));
    short = omega (arith, length-take n (x ∷ xs));
    elements = All-take P n (x ∷ xs) h;
  },
  chunks-IsChunk P fuel n (drop n (x ∷ xs)) p (All-drop P n (x ∷ xs) h),
)

module _ (fl : Flate) (level : ℕ) (laws : FlateLaws fl level) where
  pub chunks-IsIndexable :
      (fuel n : ℕ) (blocks : List (List ℕ))
      → 0 < n
      → 12 + n * 8 < 2 ^ 16
      → All (IsSmall fl level laws) blocks
      → All (IsIndexable fl level laws) (chunks fuel n blocks)
  chunks-IsIndexable fuel n blocks p h small =
      All-implied (IsChunk (IsSmall fl level laws) n) (IsIndexable fl level laws)
        (chunks fuel n blocks)
        (λ g c. record {
          nonempty = c.nonempty;
          narrow = omega (arith, c.short, h);
          small = c.elements;
        })
        (chunks-IsChunk (IsSmall fl level laws) fuel n blocks p small)

  -- What the configuration and the data have to keep for the index to hold every size.
  pub record IsIndexed (cfg : PgzfConfig) (bytes : List ℕ) : Type 0 where
    pub narrow : 12 + cfg.group_blocks * 8 < 2 ^ 16
    pub empty : EmptyIsSmall fl level laws
    pub small : All (IsSmall fl level laws) (chunks_of cfg.block_size bytes)
    pub plain : length bytes < 2 ^ 64

  abbrev pub groups_of : PgzfConfig → List ℕ → List (List (List ℕ))
  groups_of cfg bytes = chunks_of cfg.group_blocks (chunks_of cfg.block_size bytes)

  module _ (ray : Rayon) (rlaws : RayonLaws ray) where
    -- Under the laws of rayon and of flate2 at the writer's level, with a block size, a group size
    -- of at most 8190 and a batch size that are not 0, blocks of the data whose sizes fit in 32
    -- bits, an empty deflate stream shorter than 2^29, and data and a file shorter than 2^64:
    -- writing the data to an empty file in any pieces and `finish` give a file, `build` succeeds
    -- on it and leaves it as it is, and the index has the place of every block of the data in the
    -- file and in the data, the count of groups and of blocks, and the data's length as its total.
    pub build-finish :
        (cfg : PgzfConfig) (bufs : List (List ℕ))
        → IsWritable level cfg
        → IsIndexed cfg (flatten bufs)
        → length (data_file fl level laws cfg (flatten bufs)) < 2 ^ 64
        → (file : Cursor) × (index : PgzfIndex) × (finish fl ray
              (write_each fl ray bufs (with_config (file_of []) cfg)).1
            ≡ ok file)
          × (build file ≡ (ok index, file))
          × IsIndexOf fl level laws index (groups_of cfg (flatten bufs))
          × (total_uncompressed index ≡ length (flatten bufs))
    build-finish cfg bufs good fit small =
        let bytes = flatten bufs in
        let blocks = chunks_of cfg.block_size bytes in
        let gs = groups_of cfg bytes in
        let e1 =
          flatten-chunks (List ℕ) (length blocks) cfg.group_blocks blocks good.group
            (omega arith) in
        let e2 = flatten-chunks ℕ (length bytes) cfg.block_size bytes good.block (omega arith) in
        let all : flatten (flatten gs) ≡ bytes = ap flatten e1 ∙ e2 in
        let file = file_of (data_file fl level laws cfg bytes) in
        let (index, r, is) =
          build-groups fl level laws file gs fit.empty
            (chunks-IsIndexable (length blocks) cfg.group_blocks blocks good.group fit.narrow
              fit.small)
            refl small (omega (arith, ap length all, fit.plain)) in
        (
          file,
          index,
          (write_each-finish fl ray level laws rlaws (file_of []) cfg bufs good refl small).1,
          r,
          is,
          ap last_or_zero is.u_offsets
              ∙ last_or_zero-snoc (starts 0 (map length (flatten gs)))
                  (length (flatten (flatten gs)))
              ∙ ap length all,
        )
