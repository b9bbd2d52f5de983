-- ===== src/Writer/Group.antt =====
-- Writing out a whole group: its blocks, the IDX block, and the size of the group in its first header.
use pgzf_rs.Prelude.{
  ℕ, ◌+◌, ◌^◌, ◌<◌, ◌≡◌, refl, sym, ap, subst, ◌∙◌, true, false, List, [], ◌∷◌, ◌++◌, arith,
  append_assoc,
}
use pgzf_rs.Prelude.Tests.{ne→==_false}
use pgzf_rs.Prelude.Lists.{length, flatten, replicate, length-append}
use pgzf_rs.Prelude.Outcome.{ok}
use pgzf_rs.Cursor.{Cursor, write_all, overwrite}
use pgzf_rs.Constants.{gc_value_offset}
use pgzf_rs.Format.Bytes.{u16_bytes, u32_bytes, u64_bytes, add_u64, write_u64_le}
use pgzf_rs.Format.Config.{PgzfConfig}
use pgzf_rs.Format.Header.{BlockType, beg, IndexEntry, build_idx_header}
use pgzf_rs.Format.Layout.{build_beg_header_lem}
use pgzf_rs.External.Flate.{Flate}
use pgzf_rs.External.Rayon.{Rayon, RayonLaws}
use pgzf_rs.Codec.{new_compressor}
use pgzf_rs.Codec.Laws.{FlateLaws, deflated, compress_lem}
use pgzf_rs.Writer.{
  PendingBlock, PgzfWriter, build_header, chunks, write_batches, write_idx, gc_sum, backpatch,
  reset_group, flush_pending,
}
use pgzf_rs.Writer.Layout.{
  beg_header, zc_of, members, entries, idx_member, idx_zc_of, gc_of, after_header, group_bytes,
}
use pgzf_rs.Writer.Blocks.{
  Appended, Appended-trans, write_all_three, flatten-chunks, write_batches-Appended,
}
use pgzf_rs.Writer.GcField.{overwrite_gc, written_gc, gc_sum_lem}

-- A group that is ready to be written: its first block has the BEG header that the size of the group
-- goes into, and it begins where the file ends.
pub record IsGroup (w : PgzfWriter) (b : PendingBlock) (bs : List PendingBlock) : Type 0 where
  pub pending : w.pending_blocks ≡ b ∷ bs
  pub first : b.block_type ≡ beg
  pub at_end : w.inner.pos ≡ length w.inner.bytes
  pub start : w.group_start_offset ≡ length w.inner.bytes
  pub gc : w.gc_pending ≡ true
  pub batch : 0 < w.config.compression_batch_size

-- `w'` is `w` with its group in the file and an empty group behind it.
pub record Flushed (w w' : PgzfWriter) (more : List ℕ) : Type 0 where
  pub bytes : w'.inner.bytes ≡ w.inner.bytes ++ more
  pub at_end : w'.inner.pos ≡ length w'.inner.bytes
  pub config : w'.config ≡ w.config
  pub buffer : w'.buffer ≡ w.buffer
  pub buffer_len : w'.buffer_len ≡ w.buffer_len
  pub pending : w'.pending_blocks ≡ []
  pub in_group : w'.blocks_in_group ≡ 0
  pub start : w'.group_start_offset ≡ length w'.inner.bytes

regroup_tail : (h a m t : List ℕ) → ((h ++ a) ++ m) ++ t ≡ h ++ (a ++ (m ++ t))
regroup_tail h a m t = rw (append_assoc (h ++ a) m t, append_assoc h a (m ++ t))

length-beg_header : (zc gc gc' : ℕ) → length (beg_header zc gc) ≡ length (beg_header zc gc')
unfolding u16_bytes u32_bytes u64_bytes
length-beg_header zc gc gc' = refl

length-same_header :
    (old rest : List ℕ) (zc gc gc' : ℕ)
    → length (old ++ (beg_header zc gc ++ rest)) ≡ length (old ++ (beg_header zc gc' ++ rest))
length-same_header old rest zc gc gc' =
    let half : (v : ℕ)
        → length (old ++ (beg_header zc v ++ rest))
          ≡ length old + (length (beg_header zc v) + length rest) =
      λ v.
        length-append old (beg_header zc v ++ rest)
        ∙ ap (◌+◌ (length old)) (length-append (beg_header zc v) rest) in
    half gc
    ∙ ap (λ (n : ℕ). length old + (n + length rest)) (length-beg_header zc gc gc')
    ∙ sym (half gc')

module _ (fl : Flate) (ray : Rayon) (level : ℕ) (laws : FlateLaws fl level)
    (rlaws : RayonLaws ray) where
  write_idx-Appended :
      (w : PgzfWriter) (es : List IndexEntry)
      → w.inner.pos ≡ length w.inner.bytes
      → w.config.compression_level ≡ level
      → ((write_idx fl ray es w).0 ≡ ok tt)
        × Appended w (write_idx fl ray es w).1 (idx_member fl level laws es)
  unfolding write_idx
  write_idx-Appended w es h e =
      let (r, _) = compress_lem fl level laws [] (new_compressor fl level) laws.Used-new in
      let three =
        write_all_three w.inner (build_idx_header (idx_zc_of fl level laws es) es)
          (deflated fl level laws []) (replicate 8 0) h in
      rw (e, r)
        (
          refl,
          record {
            bytes = ap (λ (c : Cursor). c.bytes) three;
            at_end =
                ap (λ (c : Cursor). c.pos) three ∙ sym (ap (λ (c : Cursor). length c.bytes) three);
            config = refl;
            buffer = refl;
            buffer_len = refl;
            pending = refl;
            in_group = refl;
            start = refl;
            gc = refl;
          },
        )

  -- The file and the flag are all that changes.
  backpatch_lem :
      (w : PgzfWriter) (es : List IndexEntry) (old rest : List ℕ) (zc : ℕ)
      → w.inner.bytes ≡ old ++ (beg_header zc 0 ++ rest)
      → w.group_start_offset ≡ length old
      → w.gc_pending ≡ true
      → length old + gc_value_offset < 2 ^ 64
      → gc_of es < 2 ^ 64
      → backpatch es w ≡ record w {
        inner = record w.inner { bytes = old ++ (beg_header zc (gc_of es) ++ rest) };
        gc_pending = false;
      }
  unfolding backpatch write_all
  backpatch_lem w es old rest zc b s g fits small =
      let off : add_u64 (length old) gc_value_offset ≡ length old + gc_value_offset = omega arith in
      let patched : overwrite w.inner.bytes (add_u64 w.group_start_offset gc_value_offset)
            (write_u64_le (replicate 8 0) 0 (gc_sum es))
          ≡ old ++ (beg_header zc (gc_of es) ++ rest) =
        rw (s, off, b, gc_sum_lem es small, written_gc (gc_of es))
          (overwrite_gc old rest zc (gc_of es)) in
      rw (g) (
        ap
          (λ (bytes : List ℕ). record w {
            inner = record w.inner { bytes = bytes };
            gc_pending = false;
          })
          patched)

  members-beg :
      (b : PendingBlock) (bs : List PendingBlock) (tail : List ℕ)
      → b.block_type ≡ beg
      → members fl level laws (b ∷ bs) ++ tail
        ≡ beg_header (zc_of fl level laws b) 0
          ++ (after_header fl level laws b ++ (members fl level laws bs ++ tail))
  members-beg b bs tail e =
      let zc = zc_of fl level laws b in
      ap (λ (h : List ℕ). ((h ++ after_header fl level laws b) ++ members fl level laws bs) ++ tail)
        (ap (λ (t : BlockType). build_header t zc) e ∙ build_beg_header_lem zc)
      ∙ regroup_tail (beg_header zc 0) (after_header fl level laws b) (members fl level laws bs)
          tail

  -- The GC value and the reset, once the blocks and the IDX block are behind the old file.
  sized :
      (w w2 : PgzfWriter) (b : PendingBlock) (bs : List PendingBlock)
      → IsGroup w b bs
      → Appended w w2 (
          members fl level laws (b ∷ bs)
          ++ idx_member fl level laws (entries fl level laws (b ∷ bs)))
      → length w.inner.bytes + gc_value_offset < 2 ^ 64
      → gc_of (entries fl level laws (b ∷ bs)) < 2 ^ 64
      → Flushed w
          (reset_group (backpatch (entries fl level laws (b ∷ bs)) w2))
          (group_bytes fl level laws b bs)
  unfolding reset_group
  sized w w2 b bs g p fits small =
      let es = entries fl level laws (b ∷ bs) in
      let zc = zc_of fl level laws b in
      let tail = idx_member fl level laws es in
      let rest = after_header fl level laws b ++ (members fl level laws bs ++ tail) in
      let whole : w2.inner.bytes ≡ w.inner.bytes ++ (beg_header zc 0 ++ rest) =
        p.bytes ∙ ap (◌++◌ w.inner.bytes) (members-beg b bs tail g.first) in
      let long =
        p.at_end ∙ ap length whole ∙ length-same_header w.inner.bytes rest zc 0 (gc_of es) in
      rw
        (backpatch_lem w2 es w.inner.bytes rest zc whole (p.start ∙ g.start) (p.gc ∙ g.gc) fits
          small)
        (record {
          bytes = refl;
          at_end = long;
          config = p.config;
          buffer = p.buffer;
          buffer_len = p.buffer_len;
          pending = refl;
          in_group = refl;
          start = long;
        })

  -- Under the laws of rayon and of flate2 at the writer's level: writing a group whose first block
  -- is typed BEG and whose GC value is pending, at the end of the file with the group's offset
  -- there, with no bound of 64 bits passed and a batch size that is not 0: the call succeeds, and
  -- the file has the group's layout behind what it had: the BEG header with ZC and the size of all
  -- data blocks, each block's header, deflate stream and trailer, and the IDX block with an entry
  -- for each block. Afterwards no block is pending and the next group begins at the end of the
  -- file.
  pub flush_pending-Flushed :
      (w : PgzfWriter) (b : PendingBlock) (bs : List PendingBlock)
      → IsGroup w b bs
      → w.config.compression_level ≡ level
      → length w.inner.bytes + gc_value_offset < 2 ^ 64
      → gc_of (entries fl level laws (b ∷ bs)) < 2 ^ 64
      → ((flush_pending fl ray w).0 ≡ ok tt)
        × Flushed w (flush_pending fl ray w).1 (group_bytes fl level laws b bs)
  unfolding flush_pending reset_group
  flush_pending-Flushed w b bs g e fits small =
      let n = w.config.compression_batch_size in
      let bss = chunks (length w.pending_blocks) n w.pending_blocks in
      let (r1, p1) = write_batches-Appended fl ray level laws rlaws w bss g.at_end e in
      let all : flatten bss ≡ b ∷ bs =
        flatten-chunks PendingBlock (length w.pending_blocks) n w.pending_blocks g.batch
          (omega arith)
        ∙ g.pending in
      let w1 = (write_batches fl ray bss w).1 in
      let (r2, p2) =
        write_idx-Appended w1 (entries fl level laws (flatten bss)) p1.at_end
          (ap (λ (c : PgzfConfig). c.compression_level) p1.config ∙ e) in
      let w2 = (write_idx fl ray (entries fl level laws (flatten bss)) w1).1 in
      let both : Appended w w2 (
          members fl level laws (flatten bss)
          ++ idx_member fl level laws (entries fl level laws (flatten bss))) =
        Appended-trans w w1 w2 (members fl level laws (flatten bss))
          (idx_member fl level laws (entries fl level laws (flatten bss))) p1 p2 in
      rw (ne→==_false n 0 (omega arith), r1, r2)
        (
          refl,
          subst
              (λ (l : List PendingBlock).
                Appended w (write_idx fl ray (entries fl level laws l) w1).1
                  (members fl level laws l ++ idx_member fl level laws (entries fl level laws l))
                → Flushed w
                    (reset_group (
                      backpatch (entries fl level laws l)
                        (write_idx fl ray (entries fl level laws l) w1).1))
                    (group_bytes fl level laws b bs))
              (sym all)
              (λ q.
                sized w (write_idx fl ray (entries fl level laws (b ∷ bs)) w1).1 b bs g q fits
                  small)
              both,
        )
