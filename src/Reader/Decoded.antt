-- ===== src/Reader/Decoded.antt =====
-- The decompression of what is read of a run of blocks, as `read_blocks` and `fill_readahead` do it.
use pgzf_rs.Prelude.{ℕ, ◌+◌, ◌≡◌, refl, sym, ap, ◌∙◌, List, [], ◌∷◌, map}
use pgzf_rs.Prelude.Lists.{All}
use pgzf_rs.Prelude.Outcome.{Outcome, ok, err, panic, stuck, Exec}
use pgzf_rs.External.Flate.{Flate}
use pgzf_rs.External.Lru.{LruCache}
use pgzf_rs.External.Rayon.{Rayon, RayonLaws}
use pgzf_rs.BlockCache.{CacheEntry}
use pgzf_rs.Codec.{ReusableDecompressor, new_decompressor}
use pgzf_rs.Codec.Laws.{FlateLaws, ReadyD}
use pgzf_rs.Writer.{PendingBlock, header_size}
use pgzf_rs.Reader.Fill.{NumberedBlock, decompress_all}
use pgzf_rs.Reader.Read.{decompress_numbered}
use pgzf_rs.Reader.Members.{final_member, decompress-final_member}
use pgzf_rs.Reader.Items.{numbered_from, IsReadableBlock, IsReadableEntry}
use pgzf_rs.Reader.Groups.{bytes_in}

-- What a decompression gave, where it gave something.
abbrev or_other : {E B : Type 0} → B → Outcome E B → B
or_other other (ok b) = b
or_other other (err e) = other
or_other other panic = other
or_other other stuck = other

-- The data of blocks with their numbers, in some form.
abbrev results_from : {B : Type 0} → (ℕ → List ℕ → B) → ℕ → List (PendingBlock × ℕ) → List B
results_from form i [] = []
results_from form i ((b, gc) ∷ blocks) = form i b.bytes ∷ results_from form (i + 1) blocks

-- The data of blocks with their numbers.
abbrev pub numbered_bytes : ℕ → List (PendingBlock × ℕ) → List (ℕ × List ℕ)
numbered_bytes i [] = []
numbered_bytes i ((b, gc) ∷ blocks) = (i, b.bytes) ∷ numbered_bytes (i + 1) blocks

results_from-bytes_in :
    (i : ℕ) (blocks : List (PendingBlock × ℕ)) → results_from (λ n l. l) i blocks ≡ bytes_in blocks
results_from-bytes_in i [] = refl
results_from-bytes_in i ((b, gc) ∷ blocks) = ap (◌∷◌ b.bytes) (results_from-bytes_in (i + 1) blocks)

results_from-numbered_bytes :
    (i : ℕ) (blocks : List (PendingBlock × ℕ))
    → results_from (λ n l. (n, l)) i blocks ≡ numbered_bytes i blocks
results_from-numbered_bytes i [] = refl
results_from-numbered_bytes i ((b, gc) ∷ blocks) =
    ap (◌∷◌ (i, b.bytes)) (results_from-numbered_bytes (i + 1) blocks)

module _ (lru : LruCache CacheEntry) (fl : Flate) (ray : Rayon) (level : ℕ)
    (laws : FlateLaws fl level) (rlaws : RayonLaws ray) where
  -- What a job of the thread pool does with a block.
  module _ {E B : Type 0} (job : NumberedBlock → Exec (ReusableDecompressor fl) E B)
      (form : ℕ → List ℕ → B)
      (one : (i gc : ℕ) (b : PendingBlock) (s : ReusableDecompressor fl)
        → IsReadableBlock fl level laws b
        → ReadyD fl level laws s
        → ((job (i, final_member lru fl level laws b gc, header_size b.block_type) s).0
            ≡ ok (form i b.bytes))
          × ReadyD fl level laws
              (job (i, final_member lru fl level laws b gc, header_size b.block_type) s).1) where
    -- What it gives with a new decompressor.
    abbrev data_of : NumberedBlock → B
    data_of b = or_other (form 0 []) (job b (new_decompressor fl)).0

    abbrev Decompresses : NumberedBlock → Type 0
    Decompresses a =
        (s : ReusableDecompressor fl)
        → ReadyD fl level laws s
        → ((job a s).0 ≡ ok (data_of a)) × ReadyD fl level laws (job a s).1

    numbered_from_lem :
        (i : ℕ) (blocks : List (PendingBlock × ℕ))
        → All (IsReadableEntry fl level laws) blocks
        → All Decompresses (numbered_from lru fl level laws i blocks)
          × (map data_of (numbered_from lru fl level laws i blocks) ≡ results_from form i blocks)
    numbered_from_lem i [] h = (tt, refl)
    numbered_from_lem i ((b, gc) ∷ blocks) h =
        let (more, same) = numbered_from_lem (i + 1) blocks h.1 in
        let first =
          ap (or_other (form 0 [])) (one i gc b (new_decompressor fl) h.0 laws.UsedD-new).0 in
        (
          (
            (λ s ready. let (r, after) = one i gc b s h.0 ready in (r ∙ ap ok (sym first), after)),
            more,
          ),
          λ j. first j ∷ same j,
        )

    map_init-results :
        (i : ℕ) (blocks : List (PendingBlock × ℕ))
        → All (IsReadableEntry fl level laws) blocks
        → ray.map_init (new_decompressor fl) job (numbered_from lru fl level laws i blocks)
          ≡ ok (results_from form i blocks)
    map_init-results i blocks h =
        let (all, same) = numbered_from_lem i blocks h in
        rlaws.map_init-map (ReadyD fl level laws) (new_decompressor fl) job data_of
          (numbered_from lru fl level laws i blocks) laws.UsedD-new all
        ∙ ap ok same

  -- In `read_blocks`.
  pub map_init-bytes_in :
      (i : ℕ) (blocks : List (PendingBlock × ℕ))
      → All (IsReadableEntry fl level laws) blocks
      → ray.map_init
          (new_decompressor fl)
          (decompress_numbered lru fl ray)
          (numbered_from lru fl level laws i blocks)
        ≡ ok (bytes_in blocks)
  map_init-bytes_in i blocks h =
      map_init-results (decompress_numbered lru fl ray) (λ n l. l)
        (λ i gc b s g ready.
          let (r, after) =
            decompress-final_member lru fl level laws b gc s g.data_block g.small g.plain ready in
          (rw r refl, after))
        i blocks h
      ∙ ap ok (results_from-bytes_in i blocks)

  -- In `fill_readahead`.
  pub decompress_all-numbered_bytes :
      (i : ℕ) (blocks : List (PendingBlock × ℕ))
      → All (IsReadableEntry fl level laws) blocks
      → decompress_all lru fl ray (numbered_from lru fl level laws i blocks)
        ≡ ok (numbered_bytes i blocks)
  decompress_all-numbered_bytes i [] h = refl
  decompress_all-numbered_bytes i ((b, gc) ∷ blocks) h =
      map_init-results _ (λ n l. (n, l))
        (λ i gc b s g ready.
          let (r, after) =
            decompress-final_member lru fl level laws b gc s g.data_block g.small g.plain ready in
          (rw r refl, rw r after))
        i ((b, gc) ∷ blocks) h
      ∙ ap ok (results_from-numbered_bytes i ((b, gc) ∷ blocks))
