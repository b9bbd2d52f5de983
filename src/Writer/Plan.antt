-- ===== src/Writer/Plan.antt =====
-- The file that data should become: the data is cut into blocks, the blocks into groups, and each
-- group has its layout.
use pgzf_rs.Prelude.{
  ℕ, zero, suc, ◌+◌, ◌≤◌, ◌<◌, ◌≡◌, refl, ap, List, [], ◌∷◌, ◌++◌, map, arith, append_assoc,
}
use pgzf_rs.Prelude.Lists.{
  length, take, drop, flatten, length-append, length-drop, take-append, drop-append,
  take_of_length-le, drop_of_length-le,
}
use pgzf_rs.Format.Bytes.{u16_bytes, u32_bytes, u64_bytes}
use pgzf_rs.Format.Header.{BlockType, beg, dat, idx}
use pgzf_rs.Format.Layout.{build_beg_header_lem, build_dat_header_lem}
use pgzf_rs.External.Flate.{Flate}
use pgzf_rs.Codec.Laws.{FlateLaws, deflated}
use pgzf_rs.Writer.{PendingBlock, chunks, header_size, build_header}
use pgzf_rs.Writer.Layout.{
  beg_header, gc_of, zc_of, trailer_of, after_header, member, compressed_of, members, entries,
  idx_member, group_bytes,
}

module _ {A : Type 0} where
  -- The chunks of a list, whatever the fuel.
  abbrev pub chunks_of : ℕ → List A → List (List A)
  chunks_of n xs = chunks (length xs) n xs

  pub chunks_fuel :
      (f g n : ℕ) (xs : List A)
      → 0 < n
      → length xs ≤ f
      → length xs ≤ g
      → chunks f n xs ≡ chunks g n xs
  unfolding chunks
  chunks_fuel zero zero n xs p h k = refl
  chunks_fuel zero (suc g) n [] p h k = refl
  chunks_fuel zero (suc g) n (x ∷ xs) p h k = absurd (omega arith)
  chunks_fuel (suc f) zero n [] p h k = refl
  chunks_fuel (suc f) zero n (x ∷ xs) p h k = absurd (omega arith)
  chunks_fuel (suc f) (suc g) n [] p h k = refl
  chunks_fuel (suc f) (suc g) n (x ∷ xs) p h k = ap (◌∷◌ (take n (x ∷ xs))) (
      chunks_fuel f g n (drop n (x ∷ xs)) p (omega (arith, length-drop n (x ∷ xs)))
        (omega (arith, length-drop n (x ∷ xs))))

  pub chunks_of-nil : (n : ℕ) → chunks_of n [] ≡ []
  unfolding chunks
  chunks_of-nil n = refl

  -- A full chunk in front.
  pub chunks_of-full :
      (n : ℕ) (xs rest : List A)
      → 0 < n
      → length xs ≡ n
      → chunks_of n (xs ++ rest) ≡ xs ∷ chunks_of n rest
  unfolding chunks
  chunks_of-full n [] rest p h = absurd (omega arith)
  chunks_of-full n (x ∷ xs) rest p h =
      rw (take-append n (x ∷ xs) rest h, drop-append n (x ∷ xs) rest h)
        (ap (◌∷◌ (x ∷ xs)) (
          chunks_fuel (length (xs ++ rest)) (length rest) n rest p
            (omega (arith, length-append xs rest)) (omega arith)))

  -- A chunk that is not more than full, alone.
  pub chunks_of-last :
      (n : ℕ) (xs : List A) → 0 < length xs → length xs ≤ n → chunks_of n xs ≡ xs ∷ []
  unfolding chunks
  chunks_of-last n [] p h = absurd (omega arith)
  chunks_of-last n (x ∷ xs) p h =
      rw (take_of_length-le n (x ∷ xs) h, drop_of_length-le n (x ∷ xs) h)
        (ap (◌∷◌ (x ∷ xs)) (no_chunks (length xs) n))
    where
      no_chunks : (f n : ℕ) → chunks {A = A} f n [] ≡ []
      no_chunks zero n = refl
      no_chunks (suc f) n = refl

pub length-beg_header : (zc gc : ℕ) → length (beg_header zc gc) ≡ 32
unfolding u16_bytes u32_bytes u64_bytes
length-beg_header zc gc = refl

pub length-build_header : (t : BlockType) (zc : ℕ) → length (build_header t zc) ≡ header_size t
unfolding u16_bytes u32_bytes u64_bytes
length-build_header beg zc = ap length (build_beg_header_lem zc)
length-build_header dat zc = ap length (build_dat_header_lem zc)
length-build_header idx zc = ap length (build_dat_header_lem zc)

pub length-trailer_of :
    (fl : Flate) (level : ℕ) (laws : FlateLaws fl level) (bytes : List ℕ)
    → length (trailer_of fl level laws bytes) ≡ 8
unfolding u32_bytes
length-trailer_of fl level laws bytes = refl

-- The blocks of a group, with their types.
abbrev pub dat_blocks : List (List ℕ) → List PendingBlock
dat_blocks [] = []
dat_blocks (b ∷ bs) = record { bytes = b; block_type = dat } ∷ dat_blocks bs

abbrev pub first_block : List ℕ → PendingBlock
first_block b = record { bytes = b; block_type = beg }

abbrev pub typed : List (List ℕ) → List PendingBlock
typed [] = []
typed (b ∷ bs) = first_block b ∷ dat_blocks bs

-- The type that the block behind some others has.
abbrev pub type_behind : List (List ℕ) → BlockType
type_behind [] = beg
type_behind (b ∷ bs) = dat

dat_blocks-snoc :
    (bs : List (List ℕ)) (b : List ℕ)
    → dat_blocks (bs ++ (b ∷ [])) ≡ dat_blocks bs ++ (record { bytes = b; block_type = dat } ∷ [])
dat_blocks-snoc [] b = refl
dat_blocks-snoc (x ∷ bs) b =
    ap (◌∷◌ (record { bytes = x; block_type = dat })) (dat_blocks-snoc bs b)

pub typed-snoc :
    (bs : List (List ℕ)) (b : List ℕ)
    → typed (bs ++ (b ∷ [])) ≡ typed bs ++ (record { bytes = b; block_type = type_behind bs } ∷ [])
typed-snoc [] b = refl
typed-snoc (x ∷ bs) b = ap (◌∷◌ (first_block x)) (dat_blocks-snoc bs b)

module _ (fl : Flate) (level : ℕ) (laws : FlateLaws fl level) where
  abbrev pub group_of : List (List ℕ) → List ℕ
  group_of [] = []
  group_of (b ∷ bs) = group_bytes fl level laws (first_block b) (dat_blocks bs)

  abbrev pub groups_bytes : List (List (List ℕ)) → List ℕ
  groups_bytes gs = flatten (map group_of gs)

  pub groups_bytes-append :
      (gs hs : List (List (List ℕ))) → groups_bytes (gs ++ hs) ≡ groups_bytes gs ++ groups_bytes hs
  groups_bytes-append [] hs = refl
  groups_bytes-append (g ∷ gs) hs =
      rw (groups_bytes-append gs hs, append_assoc (group_of g) (groups_bytes gs) (groups_bytes hs))

  -- A block takes in the file what its ZC says, where that fits in 32 bits.
  pub length-member :
      (b : PendingBlock)
      → length (member fl level laws (compressed_of fl level laws b))
        ≡ header_size b.block_type + length (deflated fl level laws b.bytes) + 8
  length-member b = omega (
    arith,
    length-append (build_header b.block_type (zc_of fl level laws b))
        (after_header fl level laws b),
    length-append (deflated fl level laws b.bytes) (trailer_of fl level laws b.bytes),
    length-build_header b.block_type (zc_of fl level laws b),
    length-trailer_of fl level laws b.bytes,
  )

  gc_of-le :
      (bs : List PendingBlock)
      → gc_of (entries fl level laws bs) ≤ length (members fl level laws bs)
  gc_of-le [] = omega arith
  gc_of-le (b ∷ bs) = omega (
    arith,
    gc_of-le bs,
    length-member b,
    length-append (member fl level laws (compressed_of fl level laws b)) (members fl level laws bs),
  )

  -- The size that a group has in its BEG header, and the place of that size, lie within the group.
  pub group_of-bounds :
      (b : List ℕ) (bs : List (List ℕ))
      → (gc_of (entries fl level laws (typed (b ∷ bs))) ≤ length (group_of (b ∷ bs)))
        × (24 ≤ length (group_of (b ∷ bs)))
  group_of-bounds b bs =
      let first = first_block b in
      let es = entries fl level laws (typed (b ∷ bs)) in
      let header = beg_header (zc_of fl level laws first) (gc_of es) in
      let tail = members fl level laws (dat_blocks bs) ++ idx_member fl level laws es in
      let whole = length-append header (after_header fl level laws first ++ tail) in
      let behind = length-append (after_header fl level laws first) tail in
      let after = length-append (deflated fl level laws b) (trailer_of fl level laws b) in
      let more =
        length-append (members fl level laws (dat_blocks bs)) (idx_member fl level laws es) in
      let front = length-beg_header (zc_of fl level laws first) (gc_of es) in
      (
        omega (
          arith,
          whole,
          behind,
          after,
          more,
          front,
          gc_of-le (dat_blocks bs),
          length-trailer_of fl level laws b,
        ),
        omega (arith, whole, front),
      )
