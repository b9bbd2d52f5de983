-- ===== src/Tests/Formats.antt =====
-- Headers and the codec at concrete inputs.
use pgzf_rs.Prelude.{ℕ, ◌≡◌, true, none, some, List, [], ◌∷◌, arith}
use pgzf_rs.Prelude.Lists.{drop}
use pgzf_rs.Prelude.Outcome.{ok}
use pgzf_rs.Constants.{gc_value_offset}
use pgzf_rs.Format.Bytes.{patch, u64_bytes}
use pgzf_rs.Format.Header.{IndexEntry, build_beg_header, build_dat_header, build_idx_header}
use pgzf_rs.Format.Extra.{parse_extra_field}
use pgzf_rs.Format.RoundTrip.{
  parse_extra_field-build_beg_header, parse_extra_field-build_dat_header,
  parse_extra_field-build_idx_header,
}
use pgzf_rs.Format.Config.{Setting}
use pgzf_rs.Format.Settings.{IsUsable, built, built-IsUsable}

abbrev entries : List IndexEntry
entries =
    record { compressed_size = 70000; uncompressed_size = 65536 }
    ∷ record { compressed_size = 40; uncompressed_size = 7 }
    ∷ []

parse_extra_field-build_idx_header_example :
    parse_extra_field (drop 10 (build_idx_header 4711 entries)) true
    ≡ ok (record { zc = 4711; gc = none; ix = some entries })
parse_extra_field-build_idx_header_example =
    parse_extra_field-build_idx_header 4711 entries (omega arith) (omega arith) (omega arith) (
      record { compressed_fits = omega arith; uncompressed_fits = omega arith },
      (record { compressed_fits = omega arith; uncompressed_fits = omega arith }, tt),
    )

parse_extra_field-build_beg_header_example :
    parse_extra_field
      (drop 10 (patch (build_beg_header 70000) gc_value_offset (u64_bytes 5000000000)))
      true
    ≡ ok (record { zc = 70000; gc = some 5000000000; ix = none })
parse_extra_field-build_beg_header_example =
    parse_extra_field-build_beg_header 70000 5000000000 (omega arith) (omega arith)

parse_extra_field-build_dat_header_example :
    parse_extra_field (drop 10 (build_dat_header 70000)) true
    ≡ ok (record { zc = 70000; gc = none; ix = none })
parse_extra_field-build_dat_header_example = parse_extra_field-build_dat_header 70000 (omega arith)

abbrev some_bytes : List ℕ
some_bytes = 7 ∷ 0 ∷ 255 ∷ []

abbrev settings : List Setting
settings =
    Setting.compression_level 12 ∷ Setting.compression_batch_size 0 ∷ Setting.block_size 4096 ∷ []

built-IsUsable_example : IsUsable (built settings)
built-IsUsable_example = built-IsUsable settings
