-- ===== src/Writer/Blocks.antt =====
-- Compressing and writing the blocks of a group, batch by batch.
use pgzf_rs.Prelude.{
  ℕ, zero, suc, ◌≤◌, ◌<◌, ◌≡◌, refl, sym, ap, ◌∙◌, List, [], ◌∷◌, ◌++◌, map, arith, append-nil,
  append_assoc,
}
use pgzf_rs.Prelude.Lists.{length, take, drop, flatten, All, length-drop, take-append-drop}
use pgzf_rs.Prelude.Outcome.{ok}
use pgzf_rs.Cursor.{Cursor, write_all}
use pgzf_rs.Cursor.Laws.{write_all_end}
use pgzf_rs.Format.Config.{PgzfConfig}
use pgzf_rs.Format.Bytes.{write_u32_le}
use pgzf_rs.Format.Header.{IndexEntry}
use pgzf_rs.External.Flate.{Flate}
use pgzf_rs.External.Rayon.{Rayon, RayonLaws}
use pgzf_rs.Codec.{ReusableCompressor, new_compressor}
use pgzf_rs.Codec.Laws.{FlateLaws, Ready, compress_lem}
use pgzf_rs.Writer.{
  PendingBlock, CompressedBlock, PgzfWriter, chunks, compress_single_block, write_block,
  write_blocks, write_batch, write_batches, entry_of,
}
use pgzf_rs.Writer.Layout.{compressed_of, member, members, entries}

-- `w'` is `w` with more bytes at the end of the file, and other totals.
pub record Appended (w w' : PgzfWriter) (more : List ℕ) : Type 0 where
  pub bytes : w'.inner.bytes ≡ w.inner.bytes ++ more
  pub at_end : w'.inner.pos ≡ length w'.inner.bytes
  pub config : w'.config ≡ w.config
  pub buffer : w'.buffer ≡ w.buffer
  pub buffer_len : w'.buffer_len ≡ w.buffer_len
  pub pending : w'.pending_blocks ≡ w.pending_blocks
  pub in_group : w'.blocks_in_group ≡ w.blocks_in_group
  pub start : w'.group_start_offset ≡ w.group_start_offset
  pub gc : w'.gc_pending ≡ w.gc_pending

pub Appended-refl : (w : PgzfWriter) → w.inner.pos ≡ length w.inner.bytes → Appended w w []
Appended-refl w h = record {
  bytes = sym (append-nil w.inner.bytes);
  at_end = h;
  config = refl;
  buffer = refl;
  buffer_len = refl;
  pending = refl;
  in_group = refl;
  start = refl;
  gc = refl;
}

pub Appended-trans :
    (a b c : PgzfWriter) (xs ys : List ℕ)
    → Appended a b xs
    → Appended b c ys
    → Appended a c (xs ++ ys)
Appended-trans a b c xs ys p q = record {
  bytes = q.bytes ∙ ap (λ (l : List ℕ). l ++ ys) p.bytes ∙ append_assoc a.inner.bytes xs ys;
  at_end = q.at_end;
  config = q.config ∙ p.config;
  buffer = q.buffer ∙ p.buffer;
  buffer_len = q.buffer_len ∙ p.buffer_len;
  pending = q.pending ∙ p.pending;
  in_group = q.in_group ∙ p.in_group;
  start = q.start ∙ p.start;
  gc = q.gc ∙ p.gc;
}

-- Three writes in a row at the end of the file.
pub write_all_three :
    (c : Cursor) (x y z : List ℕ)
    → c.pos ≡ length c.bytes
    → write_all z (write_all y (write_all x c))
      ≡ record { bytes = c.bytes ++ (x ++ (y ++ z)); pos = length (c.bytes ++ (x ++ (y ++ z))) }
write_all_three c x y z h = rw (
  write_all_end c x h,
  write_all_end (record { bytes = c.bytes ++ x; pos = length (c.bytes ++ x) }) y refl,
  write_all_end (record { bytes = (c.bytes ++ x) ++ y; pos = length ((c.bytes ++ x) ++ y) }) z refl,
  append_assoc (c.bytes ++ x) y z,
  append_assoc c.bytes x (y ++ z),
)

pub flatten-chunks :
    (A : Type 0) (fuel n : ℕ) (xs : List A)
    → 0 < n
    → length xs ≤ fuel
    → flatten (chunks fuel n xs) ≡ xs
unfolding chunks
flatten-chunks A zero n [] p h = refl
flatten-chunks A zero n (x ∷ xs) p h = absurd (omega arith)
flatten-chunks A (suc fuel) n [] p h = refl
flatten-chunks A (suc fuel) n (x ∷ xs) p h =
    ap (◌++◌ (take n (x ∷ xs)))
      (flatten-chunks A fuel n (drop n (x ∷ xs)) p (omega (arith, length-drop n (x ∷ xs))))
    ∙ take-append-drop n (x ∷ xs)

module _ (fl : Flate) (ray : Rayon) (level : ℕ) (laws : FlateLaws fl level)
    (rlaws : RayonLaws ray) where
  abbrev one : PendingBlock → CompressedBlock
  one = compressed_of fl level laws

  compress_single_block_lem :
      (b : PendingBlock) (s : ReusableCompressor fl)
      → Ready fl level laws s
      → ((compress_single_block fl ray b.bytes b.block_type s).0 ≡ ok (one b))
        × Ready fl level laws (compress_single_block fl ray b.bytes b.block_type s).1
  unfolding compress_single_block write_u32_le
  compress_single_block_lem b s h =
      let (result, ready) = compress_lem fl level laws b.bytes s h in rw result (refl, ready)

  write_block-Appended :
      (w : PgzfWriter) (cb : CompressedBlock)
      → w.inner.pos ≡ length w.inner.bytes
      → Appended w (write_block w cb) (member fl level laws cb)
  unfolding write_block
  write_block-Appended w cb h =
      let three = write_all_three w.inner cb.header cb.compressed cb.trailer h in
      record {
        bytes = ap (λ (c : Cursor). c.bytes) three;
        at_end = ap (λ (c : Cursor). c.pos) three ∙ sym (ap (λ (c : Cursor). length c.bytes) three);
        config = refl;
        buffer = refl;
        buffer_len = refl;
        pending = refl;
        in_group = refl;
        start = refl;
        gc = refl;
      }

  write_blocks-Appended :
      (w : PgzfWriter) (bs : List PendingBlock)
      → w.inner.pos ≡ length w.inner.bytes
      → Appended w (write_blocks w (map one bs)) (members fl level laws bs)
  unfolding write_blocks
  write_blocks-Appended w [] h = Appended-refl w h
  write_blocks-Appended w (b ∷ bs) h =
      let p = write_block-Appended w (one b) h in
      Appended-trans w (write_block w (one b)) _ _ _ p
        (write_blocks-Appended (write_block w (one b)) bs p.at_end)

  All-Ready :
      (bs : List PendingBlock)
      → All
          (λ (b : PendingBlock).
            (s : ReusableCompressor fl)
            → Ready fl level laws s
            → ((compress_single_block fl ray b.bytes b.block_type s).0 ≡ ok (one b))
              × Ready fl level laws (compress_single_block fl ray b.bytes b.block_type s).1)
          bs
  All-Ready [] = tt
  All-Ready (b ∷ bs) = (compress_single_block_lem b, All-Ready bs)

  -- Every batch is compressed without an error and written behind what was written before.
  write_batch_lem :
      (w : PgzfWriter) (bs : List PendingBlock)
      → w.config.compression_level ≡ level
      → write_batch fl ray bs w ≡ (ok (map (entry_of) (map one bs)), write_blocks w (map one bs))
  unfolding write_batch
  write_batch_lem w bs e = rw (
    e,
    rlaws.map_init-map (Ready fl level laws) (new_compressor fl level)
        (λ (b : PendingBlock). compress_single_block fl ray b.bytes b.block_type) one bs
        laws.Used-new (All-Ready bs),
  )

  pub entries-append :
      (xs ys : List PendingBlock)
      → entries fl level laws (xs ++ ys) ≡ entries fl level laws xs ++ entries fl level laws ys
  entries-append [] ys = refl
  entries-append (x ∷ xs) ys = rw (entries-append xs ys) refl

  pub members-append :
      (xs ys : List PendingBlock)
      → members fl level laws (xs ++ ys) ≡ members fl level laws xs ++ members fl level laws ys
  members-append [] ys = refl
  members-append (x ∷ xs) ys = rw (
    members-append xs ys,
    append_assoc (member fl level laws (one x)) (members fl level laws xs)
        (members fl level laws ys),
  )

  entries-map : (bs : List PendingBlock) → map (entry_of) (map one bs) ≡ entries fl level laws bs
  entries-map [] = refl
  entries-map (b ∷ bs) = rw (entries-map bs) refl

  -- Under the laws of rayon and of flate2 at the writer's level: with the writer at the end of its
  -- file, writing any list of batches succeeds, appends header, deflate stream and trailer of each
  -- block in order, gives an index entry for each block, and changes nothing of the group's state.
  pub write_batches-Appended :
      (w : PgzfWriter) (bss : List (List PendingBlock))
      → w.inner.pos ≡ length w.inner.bytes
      → w.config.compression_level ≡ level
      → ((write_batches fl ray bss w).0 ≡ ok (entries fl level laws (flatten bss)))
        × Appended w (write_batches fl ray bss w).1 (members fl level laws (flatten bss))
  unfolding write_batches
  write_batches-Appended w [] h e = (refl, Appended-refl w h)
  write_batches-Appended w (bs ∷ bss) h e =
      let w1 = write_blocks w (map one bs) in
      let p = write_blocks-Appended w bs h in
      let (r, q) =
        write_batches-Appended w1 bss p.at_end
          (ap (λ (c : PgzfConfig). c.compression_level) p.config ∙ e) in
      rw (write_batch_lem w bs e, r)
        (
          ap ok (
              ap (λ (es : List IndexEntry). es ++ entries fl level laws (flatten bss))
                (entries-map bs)
              ∙ sym (entries-append bs (flatten bss))),
          rw (members-append bs (flatten bss)) (Appended-trans w w1 _ _ _ p q),
        )
