-- ===== src/Reader/RoundTrip.antt =====
-- A block of the writer, read back by the reader.
use pgzf_rs.Prelude.{
  ℕ, ◌+◌, ◌-◌, ◌≡◌, inl, inr, refl, sym, ap, ◌∙◌, List, [], ◌++◌, arith, append-nil,
}
use pgzf_rs.Prelude.Tests.{◌==◌, Bool-cases, eq→==, ==→eq, le→ltb_false}
use pgzf_rs.Prelude.Lists.{
  length, take, drop, take-append, drop-append, drop-drop, length-append, length-zero,
}
use pgzf_rs.Prelude.Outcome.{ok}
use pgzf_rs.Constants.{pgzf_tail_size}
use pgzf_rs.Format.Bytes.{
  IsU32, as_u32, u32_bytes, read_u32_le, length-u32_bytes, read_u32_le-u32_bytes,
}
use pgzf_rs.External.Flate.{Flate}
use pgzf_rs.Codec.{ReusableDecompressor}
use pgzf_rs.Codec.Laws.{FlateLaws, deflated, ReadyD, decompress_lem}
use pgzf_rs.Writer.Layout.{trailer_of}
use pgzf_rs.Reader.Raw.{decompress_raw_block_with}

-- The four places that `decompress_raw_block_with` reads.
record Parts (raw : List ℕ) (header_size : ℕ) (part crc size : List ℕ) : Type 0 where
  long : length raw ≡ header_size + length part + pgzf_tail_size
  size_at : drop (length raw - pgzf_tail_size + 4) raw ≡ size
  crc_at : drop (length raw - pgzf_tail_size) raw ≡ crc ++ size
  part_at : take (length raw - pgzf_tail_size - header_size) (drop header_size raw) ≡ part

raw-Parts :
    (header part crc size : List ℕ)
    → length crc ≡ 4
    → length size ≡ 4
    → Parts (header ++ (part ++ (crc ++ size))) (length header) part crc size
raw-Parts header part crc size c s =
    let raw = header ++ (part ++ (crc ++ size)) in
    let long : length raw ≡ length header + length part + 8 = omega (
      arith,
      length-append header (part ++ (crc ++ size)),
      length-append part (crc ++ size),
      length-append crc size,
    ) in
    let off : length raw - 8 ≡ length header + length part = omega arith in
    let inside : length raw - 8 - length header ≡ length part = omega arith in
    let tail : drop (length header + length part) raw ≡ crc ++ size =
      sym (drop-drop (length part) (length header) raw)
      ∙ ap (drop (length part)) (drop-append (length header) header (part ++ (crc ++ size)) refl)
      ∙ drop-append (length part) part (crc ++ size) refl in
    record {
      long = long;
      size_at =
          ap (λ (n : ℕ). drop (n + 4) raw) off
          ∙ sym (drop-drop 4 (length header + length part) raw)
          ∙ ap (drop 4) tail
          ∙ drop-append 4 crc size c;
      crc_at = ap (λ (n : ℕ). drop n raw) off ∙ tail;
      part_at =
          ap (take (length raw - 8 - length header))
            (drop-append (length header) header (part ++ (crc ++ size)) refl)
          ∙ ap (λ (n : ℕ). take n (part ++ (crc ++ size))) inside
          ∙ take-append (length part) part (crc ++ size) refl;
    }

module _ (fl : Flate) (level : ℕ) (laws : FlateLaws fl level) where
  decompress_raw_block_with-Parts :
      (raw : List ℕ) (header_size : ℕ) (bytes : List ℕ) (d : ReusableDecompressor fl)
      → Parts raw header_size
          (deflated fl level laws bytes)
          (u32_bytes (fl.crc32 bytes))
          (u32_bytes (as_u32 (length bytes)))
      → ReadyD fl level laws d
      → IsU32 (length bytes)
      → ((decompress_raw_block_with fl raw header_size d).0 ≡ ok bytes)
        × ReadyD fl level laws (decompress_raw_block_with fl raw header_size d).1
  unfolding decompress_raw_block_with
  decompress_raw_block_with-Parts raw header_size bytes d p h fits =
      let small : as_u32 (length bytes) ≡ length bytes = omega arith in
      let size_value : read_u32_le (u32_bytes (length bytes)) ≡ length bytes =
        rw append-nil at (read_u32_le-u32_bytes (length bytes) [] fits) in
      let crc_value =
        read_u32_le-u32_bytes (fl.crc32 bytes) (u32_bytes (length bytes)) (laws.crc32-lt bytes) in
      rw
        (
          le→ltb_false (length raw) (8 + header_size) (omega (arith, p.long)),
          p.size_at,
          p.crc_at,
          p.part_at,
          small,
          size_value,
        )
        (elim (Bool-cases (length bytes == 0)) [
          | inl e ↦ rw (e) (ap ok (sym (length-zero bytes (==→eq (length bytes) 0 e))), h)
          | inr n ↦
              let (r, ready) =
                decompress_lem fl level laws bytes (length bytes) d h (omega arith) in
              rw
                (
                  n,
                  r,
                  laws.output_front bytes (length bytes) (omega arith),
                  crc_value,
                  eq→== (fl.crc32 bytes) (fl.crc32 bytes) refl,
                )
                (refl, ready)
        ])

  pub decompress_raw_block_with-ReadyD :
      (header bytes : List ℕ) (d : ReusableDecompressor fl)
      → ReadyD fl level laws d
      → IsU32 (length bytes)
      → ((decompress_raw_block_with fl
            (header ++ (deflated fl level laws bytes ++ trailer_of fl level laws bytes))
            (length header)
            d).0
          ≡ ok bytes)
        × ReadyD fl level laws
            (decompress_raw_block_with fl
              (header ++ (deflated fl level laws bytes ++ trailer_of fl level laws bytes))
              (length header)
              d).1
  decompress_raw_block_with-ReadyD header bytes d h fits =
      decompress_raw_block_with-Parts _ (length header) bytes d
        (raw-Parts header (deflated fl level laws bytes) (u32_bytes (fl.crc32 bytes))
          (u32_bytes (as_u32 (length bytes))) (length-u32_bytes _) (length-u32_bytes _))
        h fits

  -- Under the laws of flate2: a deflate stream and trailer as the writer makes them of data of less
  -- than 2^32 bytes, behind any header: the reader's decompression, with the header's length and
  -- whatever its decompressor did before, succeeds with that data.
  pub decompress_raw_block_with-deflated :
      (header bytes : List ℕ) (d : ReusableDecompressor fl)
      → ReadyD fl level laws d
      → IsU32 (length bytes)
      → (decompress_raw_block_with fl
          (header ++ (deflated fl level laws bytes ++ trailer_of fl level laws bytes))
          (length header)
          d).0
        ≡ ok bytes
  decompress_raw_block_with-deflated header bytes d h fits =
      (decompress_raw_block_with-ReadyD header bytes d h fits).0
