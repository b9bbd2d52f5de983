-- ===== src/Index/Counts.antt =====
-- What holds of every index that `build` gives, whatever the file.
use pgzf_rs.Prelude.{
  ℕ, zero, suc, ◌+◌, ◌≡◌, refl, subst, ◌∙◌, inl, inr, Option, none, some, List, [], ◌∷◌, ◌++◌,
  arith,
}
use pgzf_rs.Prelude.Tests.{◌==◌, Bool-cases, if◌then◌else◌}
use pgzf_rs.Prelude.Lists.{length, length-append}
use pgzf_rs.Prelude.Outcome.{ok, ◌>>=◌, pure}
use pgzf_rs.Prelude.Gives.{IfOk, Gives, Gives-bind, Gives-after}
use pgzf_rs.Cursor.{Cursor, read_or_eof, seek_start}
use pgzf_rs.Constants.{beg_header_size}
use pgzf_rs.Format.Bytes.{add_u64}
use pgzf_rs.Index.{block_count, seek_block}
use pgzf_rs.Prelude.Int.{ℤ}
use pgzf_rs.Format.Header.{IndexEntry}
use pgzf_rs.Index.Types.{PgzfIndex}
use pgzf_rs.Index.Build.{
  Scan, scan_start, push_entry, push_entries, scan_group, read_entries_at, check_beg, read_idx,
  read_beg, group_from, read_group, build_loop, index_of, build,
}
use pgzf_rs.Index.Search.{◌!◌, resolve, IsFound, seek_block-IsFound}

-- The two lists of offsets have an entry for each block, and the data begins at 0.
record IsCounted (s : Scan) : Type 0 where
  pub compressed : length s.compressed_offsets ≡ length s.blocks
  pub uncompressed : length s.uncompressed_offsets ≡ length s.blocks
  pub uncompressed_zero : (s.uncompressed_offsets ++ (s.cum_u ∷ [])) ! 0 ≡ 0

first-append : (l : List ℕ) (a b : ℕ) → ((l ++ (a ∷ [])) ++ (b ∷ [])) ! 0 ≡ (l ++ (a ∷ [])) ! 0
first-append [] a b = refl
first-append (x ∷ l) a b = refl

length-grown :
    {A B : Type 0} (xs : List A) (ys : List B) (x : A) (y : B)
    → length xs ≡ length ys
    → length (xs ++ (x ∷ [])) ≡ length (ys ++ (y ∷ []))
length-grown xs ys x y h = omega (arith, h, length-append xs (x ∷ []), length-append ys (y ∷ []))

push_entry-IsCounted :
    (s : Scan) (i : ℕ) (e : IndexEntry) → IsCounted s → IsCounted (push_entry s i e)
push_entry-IsCounted s i e c = record {
  compressed = length-grown s.compressed_offsets s.blocks _ _ c.compressed;
  uncompressed = length-grown s.uncompressed_offsets s.blocks _ _ c.uncompressed;
  uncompressed_zero = first-append s.uncompressed_offsets s.cum_u _ ∙ c.uncompressed_zero;
}

push_entries-IsCounted :
    (s : Scan) (i : ℕ) (es : List IndexEntry) → IsCounted s → IsCounted (push_entries s i es)
unfolding push_entries
push_entries-IsCounted s i [] c = c
push_entries-IsCounted s i (e ∷ es) c =
    push_entries-IsCounted (push_entry s i e) (i + 1) es (push_entry-IsCounted s i e c)

scan_group-IsCounted :
    (s : Scan) (es : List IndexEntry) (zc : ℕ) → IsCounted s → IsCounted (scan_group s es zc)
unfolding scan_group
scan_group-IsCounted s es zc c =
    let p = push_entries-IsCounted s 0 es c in
    record {
      compressed = p.compressed;
      uncompressed = p.uncompressed;
      uncompressed_zero = p.uncompressed_zero;
    }

abbrev IsCountedOption : Option Scan → Type 0
IsCountedOption none = Unit
IsCountedOption (some s) = IsCounted s

read_idx-IsCounted : (s : Scan) (start : ℕ) → IsCounted s → Gives IsCountedOption (read_idx s start)
unfolding read_idx
read_idx-IsCounted s start c =
    Gives-after IsCountedOption (read_entries_at start)
      (λ (found : List IndexEntry × ℕ). pure (some (scan_group s found.0 found.1)))
      (λ found c0. scan_group-IsCounted s found.0 found.1 c)

read_beg-IsCounted :
    (s : Scan) (start : ℕ) (buf : List ℕ)
    → IsCounted s
    → Gives IsCountedOption (read_beg s start buf)
unfolding read_beg
read_beg-IsCounted s start buf c =
    Gives-after IsCountedOption (check_beg buf)
      (λ (gc : ℕ). if gc == 0 then pure none else read_idx s (add_u64 start gc))
      (λ gc c0. elim (Bool-cases (gc == 0)) [
        | inl e ↦ rw (e) tt
        | inr n ↦ rw (n) (read_idx-IsCounted s (add_u64 start gc) c c0)
      ])

group_from-IsCounted :
    (s : Scan) (start : ℕ) (buf : Option (List ℕ))
    → IsCounted s
    → Gives IsCountedOption (group_from s start buf)
group_from-IsCounted s start none c c0 = tt
group_from-IsCounted s start (some buf) c c0 = read_beg-IsCounted s start buf c c0

read_group-IsCounted : (s : Scan) → IsCounted s → Gives IsCountedOption (read_group s)
unfolding read_group
read_group-IsCounted s c c0 =
    Gives-after IsCountedOption (read_or_eof beg_header_size) (group_from s c0.pos)
      (λ buf. group_from-IsCounted s c0.pos buf c) c0

build_loop-IsCounted : (fuel : ℕ) (s : Scan) → IsCounted s → Gives IsCounted (build_loop fuel s)
unfolding build_loop
build_loop-IsCounted zero s c = λ c0. tt
build_loop-IsCounted (suc fuel) s c =
    Gives-bind IsCountedOption IsCounted (read_group s)
      (elim [ none ↦ pure s | some s' ↦ build_loop fuel s' ]) (read_group-IsCounted s c)
      (elim [ none ↦ λ q c1. c | some s' ↦ λ q. build_loop-IsCounted fuel s' q ])

-- The two lists of offsets have one entry more than there are blocks, and the data begins at 0.
pub record IsIndex (index : PgzfIndex) : Type 0 where
  pub compressed : length index.compressed_offsets ≡ block_count index + 1
  pub uncompressed : length index.uncompressed_offsets ≡ block_count index + 1
  pub from_zero : index.uncompressed_offsets ! 0 ≡ 0

index_of-IsIndex : (s : Scan) → IsCounted s → IsIndex (index_of s)
index_of-IsIndex s c = record {
  compressed = omega (arith, c.compressed, length-append s.compressed_offsets (s.cum_c ∷ []));
  uncompressed = omega (arith, c.uncompressed, length-append s.uncompressed_offsets (s.cum_u ∷ []));
  from_zero = c.uncompressed_zero;
}

build-Gives : Gives IsIndex build
unfolding build
build-Gives c =
    Gives-after IsIndex (seek_start 0)
      (λ _. build_loop (length c.bytes + 1) scan_start >>= λ s. pure (index_of s))
      (λ _.
        Gives-bind IsCounted IsIndex (build_loop (length c.bytes + 1) scan_start)
          (λ (s : Scan). pure (index_of s))
          (build_loop-IsCounted (length c.bytes + 1) scan_start
            (record { compressed = refl; uncompressed = refl; uncompressed_zero = refl }))
          (λ s q c1. index_of-IsIndex s q))
      c

-- Whenever `build` succeeds on a file, whatever its bytes, the index has one compressed and one
-- uncompressed offset more than blocks, and the first uncompressed offset is 0.
pub build-IsIndex : (c : Cursor) (index : PgzfIndex) → (build c).0 ≡ ok index → IsIndex index
build-IsIndex c index e = subst (IfOk IsIndex) e (build-Gives c)

-- In any index that `build` gives, `seek_block` finds the offset of the block that a signed index
-- names, counted from the end if it is negative, or is the seek error if there is none; it never
-- panics.
pub seek_block-build :
    (c : Cursor) (index : PgzfIndex) (i : ℤ)
    → (build c).0 ≡ ok index
    → IsFound index (resolve (block_count index) i) (seek_block index i)
seek_block-build c index i e =
    let counts = build-IsIndex c index e in
    seek_block-IsFound index i (omega (arith, counts.compressed))
