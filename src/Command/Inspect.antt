-- ===== src/Command/Inspect.antt =====
-- `inspect_gzip` and `inspect_file` of src/main.rs.
use Prim.Native.Nat.{bit_and}
use pgzf_rs.Prelude.{ℕ, zero, suc, ◌+◌, ◌-◌, ◌||◌, Bool, not, List}
use pgzf_rs.Prelude.Tests.{◌==◌, if◌then◌else◌}
use pgzf_rs.Prelude.Lists.{length, drop}
use pgzf_rs.Prelude.Outcome.{
  Outcome, ok, err, panic, stuck, Exec, ◌>>=◌, ◌>>◌, pure, lift, convert, modify, with_state,
}
use pgzf_rs.Error.{PgzfError}
use pgzf_rs.Cursor.{Cursor, read_exact}
use pgzf_rs.Format.Bytes.{byte_at, read_u16_le, read_u32_le}
use pgzf_rs.Index.{block_count, total_uncompressed, total_compressed}
use pgzf_rs.Index.Types.{PgzfIndex}
use pgzf_rs.Index.Build.{build}
use pgzf_rs.Command.Paths.{PathBuf}
use pgzf_rs.Command.World.{
  World, Method, store, deflate, unknown, Report, pgzf_report, gzip_report, CommandError, from_io,
  not_a_gzip_file, open_file, report,
}

abbrev read_bytes : ℕ → Exec Cursor CommandError (List ℕ)
read_bytes n = convert from_io (read_exact n)

abbrev is_set : ℕ → ℕ → Bool
is_set flg bit = not (bit_and flg bit == 0)

abbrev method_of : ℕ → Method
method_of cm = if cm == 0 then store else if cm == 8 then deflate else unknown

-- A text up to its zero; each round reads a byte.
unfoldable pub skip_text : ℕ → Exec Cursor CommandError (Unit {0})
skip_text zero = lift stuck
skip_text (suc fuel) = do b ← read_bytes 1; if byte_at b 0 == 0 then pure tt else skip_text fuel

abbrev skip_text_if : Bool → Exec Cursor CommandError (Unit {0})
skip_text_if b = if b then with_state (λ c. skip_text (length c.bytes + 1)) else pure tt

-- The length of the extra field, and a seek by as much.
abbrev skip_extra_if : Bool → Exec Cursor CommandError (Unit {0})
skip_extra_if b =
    if b
    then (read_bytes 2 >>= λ xlen_buf.
        modify (λ c. record c { pos = c.pos + read_u16_le xlen_buf }))
    else pure tt

-- The method, the time, the length of the file and ISIZE. The last seek is to the eight bytes at the
-- end; there are as many, since ten have been read.
unfoldable pub read_gzip : Exec Cursor CommandError Report
read_gzip = do
  header ← read_bytes 10
  lift (
      if not (byte_at header 0 == 31) || not (byte_at header 1 == 139)
      then err not_a_gzip_file
      else ok tt)
  let flg = byte_at header 3
  skip_extra_if (is_set flg 4)
  skip_text_if (is_set flg 8)
  skip_text_if (is_set flg 16)
  modify (λ c. record c { pos = length c.bytes - 8 })
  footer ← read_bytes 8
  with_state (λ c. pure (
      gzip_report (method_of (byte_at header 2)) (read_u32_le (drop 4 header)) (length c.bytes)
        (read_u32_le (drop 4 footer))))

abbrev index_report : PgzfIndex → Report
index_report index =
    pgzf_report index.group_count (block_count index) (total_uncompressed index)
      (total_compressed index)

unfoldable pub inspect_gzip : PathBuf → Exec World CommandError (Unit {0})
inspect_gzip input = do
  bytes ← open_file input
  r ← lift (read_gzip (record { bytes = bytes; pos = 0 })).0
  report input r

-- An error of `build` leads to `inspect_gzip`; a panic ends the program.
abbrev inspect_built : PathBuf → Outcome PgzfError PgzfIndex → Exec World CommandError (Unit {0})
inspect_built input (ok index) = report input (index_report index)
inspect_built input (err e) = inspect_gzip input
inspect_built input panic = lift panic
inspect_built input stuck = lift stuck

unfoldable pub inspect_file : PathBuf → Exec World CommandError (Unit {0})
inspect_file input = do
  bytes ← open_file input
  inspect_built input (build (record { bytes = bytes; pos = 0 })).0
