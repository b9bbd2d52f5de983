-- ===== src/Reader/Checks.antt =====
-- The check of a block's CRC.
use pgzf_rs.Prelude.{ℕ, ◌+◌, ◌-◌, ◌≡◌, ◌≢◌, ◌⊎◌, inl, inr, refl, subst, List, []}
use pgzf_rs.Prelude.Tests.{ltb, ◌==◌, ==→eq, Bool-cases, if◌then◌else◌}
use pgzf_rs.Prelude.Lists.{length, take, drop}
use pgzf_rs.Prelude.Outcome.{ok, Exec, ◌>>=◌, pure, lift, convert}
use pgzf_rs.Error.{IoError, wrapping, invalid_data}
use pgzf_rs.Prelude.Gives.{IfOk, Gives, Gives-if, Gives-after}
use pgzf_rs.Format.Bytes.{read_u32_le}
use pgzf_rs.External.Flate.{Flate}
use pgzf_rs.Codec.{ReusableDecompressor, decompress}
use pgzf_rs.Reader.Raw.{check_crc, decompress_raw_block_with}

module _ (fl : Flate) where
  -- No data, or data with this CRC.
  abbrev Checked : ℕ → List ℕ → Type 0
  Checked crc bytes = (bytes ≡ []) ⊎ (fl.crc32 bytes ≡ crc)

  check_crc-Checked : (output : List ℕ) (crc : ℕ) → IfOk (Checked crc) (check_crc fl output crc)
  check_crc-Checked output crc = elim (Bool-cases (fl.crc32 output == crc)) [
    | inl e ↦ rw e (inr (==→eq (fl.crc32 output) crc e))
    | inr e ↦ rw e tt
  ]

  raw_block-Checked :
      (raw : List ℕ) (header_size : ℕ)
      → Gives
          (Checked (read_u32_le (drop (length raw - 8) raw)))
          (decompress_raw_block_with fl raw header_size)
  unfolding decompress_raw_block_with
  raw_block-Checked raw header_size =
      let crc = read_u32_le (drop (length raw - 8) raw) in
      let size = read_u32_le (drop (length raw - 8 + 4) raw) in
      let part = take (length raw - 8 - header_size) (drop header_size raw) in
      let P = Checked crc in
      let nothing : Exec (ReusableDecompressor fl) IoError (List ℕ) = pure [] in
      let inflated : Exec (ReusableDecompressor fl) IoError (ℕ × List ℕ) =
        convert (wrapping invalid_data) (decompress fl part size) in
      let check : ℕ × List ℕ → Exec (ReusableDecompressor fl) IoError (List ℕ) =
        λ found. lift (check_crc fl (take found.0 found.1) crc) in
      Gives-if P (ltb (length raw) (8 + header_size)) nothing
        (if size == 0 then nothing else (inflated >>= check)) (λ s. inl refl)
        (Gives-if P (size == 0) nothing (inflated >>= check) (λ s. inl refl)
          (Gives-after P inflated check (λ found s. check_crc-Checked (take found.0 found.1) crc)))

  -- Whatever the bytes of a raw block, the header size and the state of the decompressor: if
  -- decompressing succeeds with data that is not empty, the CRC-32 of that data is the one in
  -- the block's trailer.
  pub decompress_raw_block_with-crc32 :
      (raw bytes : List ℕ) (header_size : ℕ) (d : ReusableDecompressor fl)
      → (decompress_raw_block_with fl raw header_size d).0 ≡ ok bytes
      → bytes ≢ []
      → fl.crc32 bytes ≡ read_u32_le (drop (length raw - 8) raw)
  decompress_raw_block_with-crc32 raw bytes header_size d e ne =
      elim (subst (IfOk (Checked (read_u32_le (drop (length raw - 8) raw)))) e
        (raw_block-Checked raw header_size d)) [ inl empty ↦ absurd (ne empty) | inr same ↦ same ]
