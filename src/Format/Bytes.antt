-- ===== src/Format/Bytes.antt =====
-- Little-endian words (`read_u16_le` to `write_u64_le` of src/format.rs). A `u8` is a number below
-- 256. Every call reads inside its slice, so the default of `byte_at` is never taken.
use pgzf_rs.Prelude.{
  ℕ, zero, suc, ◌+◌, ◌*◌, ◌/◌, ◌%◌, ◌^◌, ◌<◌, ◌≡◌, refl, List, [], ◌∷◌, ◌++◌, arith,
}
use pgzf_rs.Prelude.Lists.{get_or, drop, length}

abbrev pub IsU16 : ℕ → Type 0
IsU16 n = n < 2 ^ 16

abbrev pub IsU32 : ℕ → Type 0
IsU32 n = n < 2 ^ 32

abbrev pub IsU64 : ℕ → Type 0
IsU64 n = n < 2 ^ 64

abbrev pub as_u32 : ℕ → ℕ
as_u32 n = n % 2 ^ 32

abbrev pub as_u16 : ℕ → ℕ
as_u16 n = n % 2 ^ 16

-- `+` on `u64`, which wraps in a release build.
abbrev pub add_u64 : ℕ → ℕ → ℕ
add_u64 a b = (a + b) % 2 ^ 64

abbrev pub byte_at : List ℕ → ℕ → ℕ
byte_at buf i = get_or buf i 0

unfoldable pub read_u16_le : List ℕ → ℕ
read_u16_le buf = byte_at buf 0 + 256 * byte_at buf 1

unfoldable pub read_u32_le : List ℕ → ℕ
read_u32_le buf =
    byte_at buf 0 + 256 * byte_at buf 1 + 65536 * byte_at buf 2 + 16777216 * byte_at buf 3

unfoldable pub read_u64_le : List ℕ → ℕ
unfolding read_u32_le
read_u64_le buf = read_u32_le buf + 2 ^ 32 * read_u32_le (drop 4 buf)

-- `to_le_bytes`
unfoldable pub u16_bytes : ℕ → List ℕ
u16_bytes n = n % 256 ∷ n / 256 % 256 ∷ []

unfoldable pub u32_bytes : ℕ → List ℕ
u32_bytes n = n % 256 ∷ n / 256 % 256 ∷ n / 65536 % 256 ∷ n / 16777216 % 256 ∷ []

unfoldable pub u64_bytes : ℕ → List ℕ
unfolding u32_bytes
u64_bytes n = u32_bytes (n % 2 ^ 32) ++ u32_bytes (n / 2 ^ 32)

-- `buf[at..at + new.len()].copy_from_slice(new)`
abbrev pub patch : List ℕ → ℕ → List ℕ → List ℕ
patch buf zero new = new ++ drop (length new) buf
patch [] (suc i) new = []
patch (b ∷ buf) (suc i) new = b ∷ patch buf i new

-- `write_u16_le(&mut buf[at..], val)`, and so for the wider words.
unfoldable pub write_u16_le : List ℕ → ℕ → ℕ → List ℕ
unfolding u16_bytes
write_u16_le buf offset val = patch buf offset (u16_bytes val)

unfoldable pub write_u32_le : List ℕ → ℕ → ℕ → List ℕ
unfolding u32_bytes
write_u32_le buf offset val = patch buf offset (u32_bytes val)

unfoldable pub write_u64_le : List ℕ → ℕ → ℕ → List ℕ
unfolding u64_bytes
write_u64_le buf offset val = patch buf offset (u64_bytes val)

pub length-u16_bytes : (n : ℕ) → length (u16_bytes n) ≡ 2
unfolding u16_bytes
length-u16_bytes n = refl

pub length-u32_bytes : (n : ℕ) → length (u32_bytes n) ≡ 4
unfolding u32_bytes
length-u32_bytes n = refl

pub length-u64_bytes : (n : ℕ) → length (u64_bytes n) ≡ 8
unfolding u64_bytes
length-u64_bytes n = refl

pub read_u16_le-u16_bytes :
    (n : ℕ) (rest : List ℕ) → IsU16 n → read_u16_le (u16_bytes n ++ rest) ≡ n
unfolding read_u16_le u16_bytes
read_u16_le-u16_bytes n rest h = omega arith

pub read_u32_le-u32_bytes :
    (n : ℕ) (rest : List ℕ) → IsU32 n → read_u32_le (u32_bytes n ++ rest) ≡ n
unfolding read_u32_le u32_bytes
read_u32_le-u32_bytes n rest h = omega arith

pub read_u64_le-u64_bytes :
    (n : ℕ) (rest : List ℕ) → IsU64 n → read_u64_le (u64_bytes n ++ rest) ≡ n
unfolding read_u64_le u64_bytes
read_u64_le-u64_bytes n rest h = omega arith
