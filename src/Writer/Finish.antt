-- ===== src/Writer/Finish.antt =====
-- `finish`, with a block in the buffer.
use pgzf_rs.Prelude.{ℕ, ◌+◌, ◌^◌, ◌<◌, ◌≡◌, inl, inr, ap, List, [], ◌∷◌, ◌++◌, arith}
use pgzf_rs.Prelude.Tests.{leb, Bool-cases, ne→==_false}
use pgzf_rs.Prelude.Lists.{length}
use pgzf_rs.Prelude.Outcome.{ok}
use pgzf_rs.Constants.{gc_value_offset}
use pgzf_rs.Cursor.{Cursor}
use pgzf_rs.External.Flate.{Flate}
use pgzf_rs.External.Rayon.{Rayon, RayonLaws}
use pgzf_rs.Codec.Laws.{FlateLaws}
use pgzf_rs.Writer.{
  PendingBlock, PgzfWriter, push_block, flush_pending, flush_some, flush_group, buffer_block,
  finish,
}
use pgzf_rs.Writer.Layout.{entries, gc_of, group_bytes}
use pgzf_rs.Writer.Group.{IsGroup, flush_pending-Flushed}

module _ (fl : Flate) (ray : Rayon) where
  pub flush_group_some :
      (w : PgzfWriter) (b : PendingBlock) (bs : List PendingBlock)
      → w.pending_blocks ≡ b ∷ bs
      → flush_group fl ray w ≡ flush_pending fl ray w
  unfolding flush_group
  flush_group_some w b bs h = ap (λ (l : List PendingBlock). flush_some fl ray l w) h

  pub flush_group_none :
      (w : PgzfWriter) → w.pending_blocks ≡ [] → flush_group fl ray w ≡ (ok tt, w)
  unfolding flush_group
  flush_group_none w h = ap (λ (l : List PendingBlock). flush_some fl ray l w) h

  -- Whether `buffer_block` flushes or `finish` does, the last group is written once.
  finish_once :
      (w : PgzfWriter) (b : PendingBlock) (bs : List PendingBlock)
      → 0 < w.buffer_len
      → (push_block w).pending_blocks ≡ b ∷ bs
      → (flush_pending fl ray (push_block w)).0 ≡ ok tt
      → (flush_pending fl ray (push_block w)).1.pending_blocks ≡ []
      → finish fl ray w ≡ ok (flush_pending fl ray (push_block w)).1.inner
  unfolding finish buffer_block
  finish_once w b bs nonempty h r e =
      elim (Bool-cases (leb (push_block w).config.group_blocks (push_block w).blocks_in_group)) [
        | inl full ↦ rw (
          ne→==_false w.buffer_len 0 (omega arith),
          full,
          flush_group_some (push_block w) b bs h,
          r,
          flush_group_none (flush_pending fl ray (push_block w)).1 e,
        )
        | inr room ↦ rw (
          ne→==_false w.buffer_len 0 (omega arith),
          room,
          flush_group_some (push_block w) b bs h,
          r,
        )
      ]

module _ (fl : Flate) (ray : Rayon) (level : ℕ) (laws : FlateLaws fl level)
    (rlaws : RayonLaws ray) where
  -- Under the laws of rayon and of flate2 at the writer's level: with data in the buffer and a
  -- group that, once that data has been added as its last block, begins with a BEG block at the end
  -- of the file, has its GC value pending and passes no bound of 64 bits, with a batch size that is
  -- not 0: `finish` succeeds with the file followed by the layout of that group, written once
  -- whether or not the last block makes the group full.
  pub finish-group_bytes :
      (w : PgzfWriter) (b : PendingBlock) (bs : List PendingBlock)
      → 0 < w.buffer_len
      → IsGroup (push_block w) b bs
      → w.config.compression_level ≡ level
      → length w.inner.bytes + gc_value_offset < 2 ^ 64
      → gc_of (entries fl level laws (b ∷ bs)) < 2 ^ 64
      → (c : Cursor) × (finish fl ray w ≡ ok c)
        × (c.bytes ≡ w.inner.bytes ++ group_bytes fl level laws b bs)
        × (c.pos ≡ length c.bytes)
  unfolding push_block
  finish-group_bytes w b bs nonempty g e fits small =
      let (r, f) =
        flush_pending-Flushed fl ray level laws rlaws (push_block w) b bs g e fits small in
      (
        (flush_pending fl ray (push_block w)).1.inner,
        finish_once fl ray w b bs nonempty g.pending r f.pending,
        f.bytes,
        f.at_end,
      )
