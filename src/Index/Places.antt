-- ===== src/Index/Places.antt =====
-- What `PgzfIndex::build` collects of one group: a compressed and an uncompressed place of each block.
use pgzf_rs.Prelude.{
  ℕ, suc, ◌+◌, ◌^◌, ◌<◌, ◌≡◌, refl, sym, ap, ◌∙◌, List, [], ◌∷◌, ◌++◌, arith, map, append_assoc,
  append-nil,
}
use pgzf_rs.Prelude.Lists.{length, sum, length-append}
use pgzf_rs.Format.Bytes.{add_u64}
use pgzf_rs.Format.Header.{IndexEntry}
use pgzf_rs.Index.Build.{Scan, push_entry, push_entries, scan_group}

-- Where things of these sizes begin, one behind the other, from a place on.
abbrev pub starts : ℕ → List ℕ → List ℕ
starts n [] = []
starts n (x ∷ xs) = n ∷ starts (n + x) xs

pub starts-append :
    (n : ℕ) (xs ys : List ℕ) → starts n (xs ++ ys) ≡ starts n xs ++ starts (n + sum xs) ys
starts-append n [] ys = ap (λ (m : ℕ). starts m ys) (omega arith)
starts-append n (x ∷ xs) ys = ap (◌∷◌ n) (
    starts-append (n + x) xs ys
    ∙ ap (λ (m : ℕ). starts (n + x) xs ++ starts m ys) {x = n + x + sum xs} (omega arith))

pub length-starts : (n : ℕ) (xs : List ℕ) → length (starts n xs) ≡ length xs
length-starts n [] = refl
length-starts n (x ∷ xs) = ap suc (length-starts (n + x) xs)

-- The local variables of `build` once it has seen blocks of these sizes.
pub record Adds (s s' : Scan) (compressed plain : List ℕ) : Type 0 where
  pub c_offsets : s'.compressed_offsets ≡ s.compressed_offsets ++ starts s.cum_c compressed
  pub u_offsets : s'.uncompressed_offsets ≡ s.uncompressed_offsets ++ starts s.cum_u plain
  pub c_sum : s'.cum_c ≡ s.cum_c + sum compressed
  pub u_sum : s'.cum_u ≡ s.cum_u + sum plain
  pub groups : s'.group_count ≡ s.group_count
  pub count : length s'.blocks ≡ length s.blocks + length compressed

abbrev pub compressed_sizes : List IndexEntry → List ℕ
compressed_sizes es = map (λ (e : IndexEntry). e.compressed_size) es

abbrev pub plain_sizes : List IndexEntry → List ℕ
plain_sizes es = map (λ (e : IndexEntry). e.uncompressed_size) es

snoc-offsets :
    (l : List ℕ) (n x : ℕ) (xs : List ℕ)
    → (l ++ (n ∷ [])) ++ starts (n + x) xs ≡ l ++ starts n (x ∷ xs)
snoc-offsets l n x xs = append_assoc l (n ∷ []) (starts (n + x) xs)

push_entries-Adds :
    (s : Scan) (i : ℕ) (es : List IndexEntry)
    → s.cum_c + sum (compressed_sizes es) < 2 ^ 64
    → s.cum_u + sum (plain_sizes es) < 2 ^ 64
    → Adds s (push_entries s i es) (compressed_sizes es) (plain_sizes es)
unfolding push_entries
push_entries-Adds s i [] hc hu = record {
  c_offsets = sym (append-nil s.compressed_offsets);
  u_offsets = sym (append-nil s.uncompressed_offsets);
  c_sum = omega arith;
  u_sum = omega arith;
  groups = refl;
  count = omega arith;
}
push_entries-Adds s i (e ∷ es) hc hu =
    let c : add_u64 s.cum_c e.compressed_size ≡ s.cum_c + e.compressed_size = omega arith in
    let u : add_u64 s.cum_u e.uncompressed_size ≡ s.cum_u + e.uncompressed_size = omega arith in
    let rest =
      push_entries-Adds (push_entry s i e) (i + 1) es (omega (arith, c, hc))
        (omega (arith, u, hu)) in
    record {
      c_offsets =
          rest.c_offsets
          ∙ ap
              (λ (n : ℕ).
                (s.compressed_offsets ++ (s.cum_c ∷ [])) ++ starts n (compressed_sizes es))
              c
          ∙ snoc-offsets s.compressed_offsets s.cum_c e.compressed_size (compressed_sizes es);
      u_offsets =
          rest.u_offsets
          ∙ ap (λ (n : ℕ). (s.uncompressed_offsets ++ (s.cum_u ∷ [])) ++ starts n (plain_sizes es))
              u
          ∙ snoc-offsets s.uncompressed_offsets s.cum_u e.uncompressed_size (plain_sizes es);
      c_sum = omega (arith, rest.c_sum, c);
      u_sum = omega (arith, rest.u_sum, u);
      groups = rest.groups;
      count = omega (arith, rest.count, length-append s.blocks _);
    }

-- The IDX block takes its place behind the blocks.
pub record AddsGroup (s s' : Scan) (compressed plain : List ℕ) (idx_zc : ℕ) : Type 0 where
  pub c_offsets : s'.compressed_offsets ≡ s.compressed_offsets ++ starts s.cum_c compressed
  pub u_offsets : s'.uncompressed_offsets ≡ s.uncompressed_offsets ++ starts s.cum_u plain
  pub c_sum : s'.cum_c ≡ s.cum_c + sum compressed + idx_zc
  pub u_sum : s'.cum_u ≡ s.cum_u + sum plain
  pub groups : s'.group_count ≡ s.group_count + 1
  pub count : length s'.blocks ≡ length s.blocks + length compressed

pub scan_group-AddsGroup :
    (s : Scan) (es : List IndexEntry) (idx_zc : ℕ)
    → s.cum_c + sum (compressed_sizes es) + idx_zc < 2 ^ 64
    → s.cum_u + sum (plain_sizes es) < 2 ^ 64
    → s.group_count + 1 < 2 ^ 64
    → AddsGroup s (scan_group s es idx_zc) (compressed_sizes es) (plain_sizes es) idx_zc
unfolding scan_group
scan_group-AddsGroup s es idx_zc hc hu hg =
    let a = push_entries-Adds s 0 es (omega (arith, hc)) hu in
    record {
      c_offsets = a.c_offsets;
      u_offsets = a.u_offsets;
      c_sum = omega (arith, a.c_sum, hc);
      u_sum = a.u_sum;
      groups = omega (arith, a.groups, hg);
      count = a.count;
    }
