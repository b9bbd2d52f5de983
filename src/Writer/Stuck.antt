-- ===== src/Writer/Stuck.antt =====
-- The loop of `write` where a block has no room.
use pgzf_rs.Prelude.{ℕ, zero, suc, ◌≡◌, refl, List, [], ◌∷◌, arith}
use pgzf_rs.Prelude.Tests.{eq→==}
use pgzf_rs.Prelude.Outcome.{ok, stuck}
use pgzf_rs.External.Flate.{Flate}
use pgzf_rs.External.Rayon.{Rayon}
use pgzf_rs.Writer.{PgzfWriter, buffer_block, write_loop, fill_buffer, room, block_when_full}

module _ (fl : Flate) (ray : Rayon) where
  block_when_full_empty :
      (w : PgzfWriter)
      → w.config.block_size ≡ 0
      → w.buffer_len ≡ 0
      → block_when_full fl ray w ≡ (ok tt, w)
  unfolding buffer_block
  block_when_full_empty w size len =
      rw (eq→== w.buffer_len w.config.block_size (omega arith), eq→== w.buffer_len 0 len)

  -- With a block size of 0 and an empty buffer the loop of `write` takes no byte of data that is
  -- not empty: however many rounds are allowed, it is not done.
  pub write_loop-stuck :
      (fuel : ℕ) (b : ℕ) (bs : List ℕ) (w : PgzfWriter)
      → w.config.block_size ≡ 0
      → w.buffer_len ≡ 0
      → (write_loop fl ray fuel (b ∷ bs) w).0 ≡ stuck
  unfolding write_loop
  write_loop-stuck zero b bs w size len = refl
  write_loop-stuck (suc fuel) b bs w size len =
      let none_left : room w ≡ 0 = omega arith in
      let w' = fill_buffer w [] in
      let same : w'.buffer_len ≡ 0 = omega arith in
      rw (none_left, block_when_full_empty w' size same) (write_loop-stuck fuel b bs w' size same)
