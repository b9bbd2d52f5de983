-- ===== src/Command/Paths.antt =====
-- The names that src/main.rs makes: a path is its bytes.
use pgzf_rs.Prelude.{
  ℕ, ◌-◌, ◌<◌, ◌≡◌, ◌≢◌, inl, inr, refl, ap, ◌∙◌, Bool, true, false, ◌&&◌, Option, none, some, List,
  [], ◌∷◌, ◌++◌, arith,
}
use pgzf_rs.Prelude.Tests.{
  Option-cases, Bool-cases, ltb, leb, ◌==◌, if◌then◌else◌, le→leb, leb→le, eq→==, ==→eq,
}
use pgzf_rs.Prelude.Lists.{length, take, drop, length-append, length-take, take-append, drop-append}

abbrev pub PathBuf : Type 0
PathBuf = List ℕ

unfoldable pub same_bytes : List ℕ → List ℕ → Bool
same_bytes [] [] = true
same_bytes [] (b ∷ bs) = false
same_bytes (a ∷ l) [] = false
same_bytes (a ∷ l) (b ∷ bs) = a == b && same_bytes l bs

-- The bounds of the bytes that have to follow a first byte in UTF-8.
abbrev pub Bounds : Type 0
Bounds = List (ℕ × ℕ)

unfoldable pub in_range : ℕ → ℕ → ℕ → Bool
in_range low high b = leb low b && leb b high

unfoldable pub following : ℕ → Option Bounds
following b =
    if ltb b 128
    then some []
    else if in_range 194 223 b
    then some ((128, 191) ∷ [])
    else if b == 224
    then some ((160, 191) ∷ (128, 191) ∷ [])
    else if b == 237
    then some ((128, 159) ∷ (128, 191) ∷ [])
    else if in_range 225 239 b
    then some ((128, 191) ∷ (128, 191) ∷ [])
    else if b == 240
    then some ((144, 191) ∷ (128, 191) ∷ (128, 191) ∷ [])
    else if in_range 241 243 b
    then some ((128, 191) ∷ (128, 191) ∷ (128, 191) ∷ [])
    else if b == 244
    then some ((128, 143) ∷ (128, 191) ∷ (128, 191) ∷ [])
    else none

-- Whether the bytes are UTF-8, where these have to follow first.
unfoldable pub is_utf8_from : Bounds → List ℕ → Bool
is_utf8_from [] [] = true
is_utf8_from (r ∷ rs) [] = false
is_utf8_from [] (b ∷ bs) = elim (following b) [ none ↦ false | some rs ↦ is_utf8_from rs bs ]
is_utf8_from ((low, high) ∷ rs) (b ∷ bs) = in_range low high b && is_utf8_from rs bs

-- `Path::to_str`
abbrev pub to_str : PathBuf → Option (List ℕ)
to_str path = if is_utf8_from [] path then some path else none

-- `str::strip_suffix`
unfoldable pub strip_suffix : List ℕ → List ℕ → Option (List ℕ)
strip_suffix suffix s =
    let n = length s - length suffix in
    if leb (length suffix) (length s) && same_bytes (drop n s) suffix then some (take n s) else none

abbrev pub dot_gz : List ℕ
dot_gz = 46 ∷ 103 ∷ 122 ∷ []

abbrev pub dot_out : List ℕ
dot_out = 46 ∷ 111 ∷ 117 ∷ 116 ∷ []

unfoldable pub gz_extension : PathBuf → PathBuf
gz_extension path = path ++ dot_gz

abbrev strip_if : Option (List ℕ) → Option PathBuf
strip_if none = none
strip_if (some s) = strip_suffix dot_gz s

unfoldable pub strip_gz_extension : PathBuf → Option PathBuf
strip_gz_extension path = strip_if (to_str path)

-- `unwrap_or_else`: the name with ".out" behind it.
abbrev or_out : PathBuf → Option PathBuf → PathBuf
or_out path none = path ++ dot_out
or_out path (some stripped) = stripped

-- The output of a file in decompression, and in compression; `none` is the standard output.
unfoldable pub decompress_output : Option PathBuf → Bool → PathBuf → Option PathBuf
decompress_output (some o) stdout file = some o
decompress_output none true file = none
decompress_output none false file = some (or_out file (strip_gz_extension file))

unfoldable pub compress_output : Option PathBuf → Bool → PathBuf → Option PathBuf
compress_output (some o) stdout file = some o
compress_output none true file = none
compress_output none false file = some (gz_extension file)

pub same_bytes_refl : (l : List ℕ) → same_bytes l l ≡ true
unfolding same_bytes
same_bytes_refl [] = refl
same_bytes_refl (b ∷ l) = rw (eq→== b b refl) (same_bytes_refl l)

and-both : (x y : Bool) → (x && y) ≡ true → (x ≡ true) × (y ≡ true)
and-both true y h = (refl, h)
and-both false y h = absurd (cc h)

is_utf8_from-gz :
    (rs : Bounds) (l : List ℕ) → is_utf8_from rs l ≡ true → is_utf8_from rs (l ++ dot_gz) ≡ true
unfolding is_utf8_from
is_utf8_from-gz [] [] h = unfold following in_range in refl
is_utf8_from-gz (r ∷ rs) [] h = absurd (cc h)
is_utf8_from-gz [] (b ∷ l) h = elim (Option-cases (following b)) [
  | inl e ↦ absurd (cc (rw (e, is_utf8_from) at h))
  | inr (rs, e) ↦ rw (e, is_utf8_from) (is_utf8_from-gz rs l (rw (e, is_utf8_from) at h))
]
is_utf8_from-gz ((low, high) ∷ rs) (b ∷ l) h =
    let (here, there) = and-both (in_range low high b) (is_utf8_from rs l) h in
    rw here (is_utf8_from-gz rs l there)

strip_suffix-append : (s suffix : List ℕ) → strip_suffix suffix (s ++ suffix) ≡ some s
unfolding strip_suffix
strip_suffix-append s suffix =
    let size = length-append s suffix in
    let n : length (s ++ suffix) - length suffix ≡ length s = omega (arith, size) in
    rw
      (
        n,
        le→leb (length suffix) (length (s ++ suffix)) (omega (arith, size)),
        drop-append (length s) s suffix refl,
        same_bytes_refl suffix,
        take-append (length s) s suffix refl,
      )
      refl

-- For a path that is UTF-8, the name that decompression takes for the name that compression gives
-- is the path itself.
pub strip_gz_extension-gz_extension :
    (path : PathBuf)
    → is_utf8_from [] path ≡ true
    → strip_gz_extension (gz_extension path) ≡ some path
unfolding strip_gz_extension gz_extension
strip_gz_extension-gz_extension path h =
    rw (is_utf8_from-gz [] path h) (strip_suffix-append path dot_gz)

some-value : {A : Type 0} (a b : A) → some a ≡ some b → a ≡ b
some-value {A} a b e = ap value e
  where
    value : Option A → A
    value none = a
    value (some x) = x

-- The names differ in length.
strip_suffix-lt :
    (suffix s t : List ℕ) → 0 < length suffix → strip_suffix suffix s ≡ some t → length t < length s
unfolding strip_suffix
strip_suffix-lt suffix s t pos h =
    let n = length s - length suffix in
    elim (Bool-cases (leb (length suffix) (length s) && same_bytes (drop n s) suffix)) [
      | inl e ↦
          let long =
            leb→le (length suffix) (length s)
              (and-both (leb (length suffix) (length s)) (same_bytes (drop n s) suffix) e).0 in
          let same : take n s ≡ t = some-value (take n s) t (rw e at h) in
          omega (arith, ap length same, length-take n s, long, pos)
      | inr e ↦ absurd (cc (rw e at h))
    ]

strip_gz_extension-lt :
    (file t : PathBuf) → strip_gz_extension file ≡ some t → length t < length file
unfolding strip_gz_extension
strip_gz_extension-lt file t e = elim (Bool-cases (is_utf8_from [] file)) [
  | inl u ↦ strip_suffix-lt dot_gz file t (omega arith) (rw u at e)
  | inr u ↦ absurd (cc (rw u at e))
]

or_out-ne : (file : PathBuf) → or_out file (strip_gz_extension file) ≢ file
or_out-ne file = elim (Option-cases (strip_gz_extension file)) [
  | inl e ↦ rw e (λ same. omega (arith, ap length same, length-append file dot_out))
  | inr (t, e) ↦ rw e (λ same. omega (arith, ap length same, strip_gz_extension-lt file t e))
]

-- Without -o the output of decompression, if it is a file, is never the input itself, UTF-8 or
-- not.
pub decompress_output-ne :
    (file out : PathBuf) (stdout : Bool)
    → decompress_output none stdout file ≡ some out
    → out ≢ file
unfolding decompress_output
decompress_output-ne file out true e = absurd (cc e)
decompress_output-ne file out false e =
    λ same. or_out-ne file (some-value (or_out file (strip_gz_extension file)) out e ∙ same)

pub compress_output-ne :
    (file out : PathBuf) (stdout : Bool) → compress_output none stdout file ≡ some out → out ≢ file
unfolding compress_output gz_extension
compress_output-ne file out true e = absurd (cc e)
compress_output-ne file out false e = λ same.
    omega (arith, ap length (some-value (file ++ dot_gz) out e ∙ same), length-append file dot_gz)

pub same_bytes-eq : (l m : List ℕ) → same_bytes l m ≡ true → l ≡ m
unfolding same_bytes
same_bytes-eq [] [] h = refl
same_bytes-eq [] (b ∷ m) h = absurd (cc h)
same_bytes-eq (a ∷ l) [] h = absurd (cc h)
same_bytes-eq (a ∷ l) (b ∷ m) h =
    let (here, there) = and-both (a == b) (same_bytes l m) h in
    λ i. ==→eq a b here i ∷ same_bytes-eq l m there i

pub same_bytes-ne : (l m : List ℕ) → l ≢ m → same_bytes l m ≡ false
same_bytes-ne l m h = elim (Bool-cases (same_bytes l m)) [
  | inl e ↦ absurd (h (same_bytes-eq l m e))
  | inr e ↦ e
]
