-- ===== src/Cursor.antt =====
-- `std::io::Cursor<Vec<u8>>`, the stream that stands for `R: Read + Seek` and `W: Write + Seek`.
-- A read past the end leaves the position at the end. No other I/O error occurs.
use pgzf_rs.Prelude.{ℕ, ◌+◌, ◌-◌, Option, none, some, List, ◌++◌}
use pgzf_rs.Prelude.Tests.{leb, if◌then◌else◌}
use pgzf_rs.Prelude.Lists.{length, take, drop, replicate}
use pgzf_rs.Prelude.Outcome.{Outcome, ok, err, panic, stuck, Exec}
use pgzf_rs.Error.{
  IoError, simple, unexpected_eof, invalid_input, invalid_data, unsupported, other_kind, message,
  wrapping, PgzfError, io,
}
pub mod Laws

pub record Cursor : Type 0 where
  pub bytes : List ℕ
  pub pos : ℕ

-- What a read from the position on sees.
abbrev pub remaining : Cursor → List ℕ
remaining c = drop c.pos c.bytes

unfoldable pub read_exact : ℕ → Exec Cursor IoError (List ℕ)
read_exact n c =
    if leb n (length (remaining c))
    then (ok (take n (remaining c)), record c { pos = c.pos + n })
    else (err (simple unexpected_eof), record c { pos = length c.bytes })

-- A read that takes `ErrorKind::UnexpectedEof` for the end: `none`.
abbrev pub eof_to_none : Outcome IoError (List ℕ) → Outcome PgzfError (Option (List ℕ))
eof_to_none (ok buf) = ok (some buf)
eof_to_none (err (simple unexpected_eof)) = ok none
eof_to_none (err e) = err (io e)
eof_to_none panic = panic
eof_to_none stuck = stuck

abbrev pub read_or_eof : ℕ → Exec Cursor PgzfError (Option (List ℕ))
read_or_eof n c = let p = read_exact n c in (eof_to_none p.0, p.1)

abbrev pub stream_position : {E : Type 0} → Exec Cursor E ℕ
stream_position c = (ok c.pos, c)

-- `seek(SeekFrom::Start(n))`
abbrev pub seek_start : {E : Type 0} → ℕ → Exec Cursor E ℕ
seek_start n c = (ok n, record c { pos = n })

-- The bytes under the position are overwritten; a gap behind the end is filled with zeros.
abbrev pub overwrite : List ℕ → ℕ → List ℕ → List ℕ
overwrite bytes pos new =
    take pos (bytes ++ replicate (pos - length bytes) 0) ++ (new ++ drop (pos + length new) bytes)

unfoldable pub write_all : List ℕ → Cursor → Cursor
write_all new c = record { bytes = overwrite c.bytes c.pos new; pos = c.pos + length new }
