-- ===== src/Reader/Places.antt =====
-- The places of the index, and what of a file stands behind each of them.
use pgzf_rs.Prelude.{
  ℕ, zero, suc, ◌+◌, ◌≤◌, ◌≡◌, refl, sym, ap, ◌∙◌, some, List, [], ◌∷◌, ◌++◌, arith, append_assoc,
}
use pgzf_rs.Prelude.Lists.{length, drop, get_elem?, length-append, All}
use pgzf_rs.External.Flate.{Flate}
use pgzf_rs.External.Lru.{LruCache}
use pgzf_rs.BlockCache.{CacheEntry}
use pgzf_rs.Codec.Laws.{FlateLaws}
use pgzf_rs.Writer.Layout.{idx_member}
use pgzf_rs.Reader.Members.{final_member}
use pgzf_rs.Reader.Items.{Item, block_item, index_item, blocks_in, items_bytes}

-- The items from a data block on.
abbrev pub items_from : ℕ → List Item → List Item
items_from i [] = []
items_from i (index_item es ∷ items) = items_from i items
items_from zero (block_item b gc ∷ items) = block_item b gc ∷ items
items_from (suc i) (block_item b gc ∷ items) = items_from i items

pub blocks_in-items_from :
    (i : ℕ) (items : List Item) → blocks_in (items_from i items) ≡ drop i (blocks_in items)
blocks_in-items_from zero [] = refl
blocks_in-items_from (suc i) [] = refl
blocks_in-items_from zero (index_item es ∷ items) = blocks_in-items_from zero items
blocks_in-items_from (suc i) (index_item es ∷ items) = blocks_in-items_from (suc i) items
blocks_in-items_from zero (block_item b gc ∷ items) = refl
blocks_in-items_from (suc i) (block_item b gc ∷ items) = blocks_in-items_from i items

pub items_from-All :
    (P : Item → Type 0) (i : ℕ) (items : List Item) → All P items → All P (items_from i items)
items_from-All P zero [] h = tt
items_from-All P (suc i) [] h = tt
items_from-All P zero (index_item es ∷ items) h = items_from-All P zero items h.1
items_from-All P (suc i) (index_item es ∷ items) h = items_from-All P (suc i) items h.1
items_from-All P zero (block_item b gc ∷ items) h = h
items_from-All P (suc i) (block_item b gc ∷ items) h = items_from-All P i items h.1

pub length-items_from : (i : ℕ) (items : List Item) → length (items_from i items) ≤ length items
length-items_from zero [] = omega arith
length-items_from (suc i) [] = omega arith
length-items_from zero (index_item es ∷ items) = omega (arith, length-items_from zero items)
length-items_from (suc i) (index_item es ∷ items) = omega (arith, length-items_from (suc i) items)
length-items_from zero (block_item b gc ∷ items) = omega arith
length-items_from (suc i) (block_item b gc ∷ items) = omega (arith, length-items_from i items)

pub length-blocks_in : (items : List Item) → length (blocks_in items) ≤ length items
length-blocks_in [] = omega arith
length-blocks_in (index_item es ∷ items) = omega (arith, length-blocks_in items)
length-blocks_in (block_item b gc ∷ items) = omega (arith, length-blocks_in items)

module _ (lru : LruCache CacheEntry) (fl : Flate) (level : ℕ) (laws : FlateLaws fl level) where
  -- Where the data blocks begin, and the end.
  abbrev pub item_places : ℕ → List Item → List ℕ
  item_places n [] = n ∷ []
  item_places n (block_item b gc ∷ items) =
      n ∷ item_places (n + length (final_member lru fl level laws b gc)) items
  item_places n (index_item es ∷ items) =
      item_places (n + length (idx_member fl level laws es)) items

  -- The place of a block is the length of what stands before it.
  pub record Place (n i : ℕ) (items : List Item) : Type 0 where
    pub front : List ℕ
    pub parts :
        items_bytes lru fl level laws items
        ≡ front ++ items_bytes lru fl level laws (items_from i items)
    pub listed : get_elem? (item_places n items) i ≡ some (n + length front)

  Place-behind :
      (n i j : ℕ) (first : List ℕ) (items : List Item) (all : List Item) (offsets : List ℕ)
      → items_bytes lru fl level laws all ≡ first ++ items_bytes lru fl level laws items
      → items_from j all ≡ items_from i items
      → get_elem? offsets j ≡ get_elem? (item_places (n + length first) items) i
      → offsets ≡ item_places n all
      → Place (n + length first) i items
      → Place n j all
  Place-behind n i j first items all offsets h same there listed p = record {
    front = first ++ p.front;
    parts =
        h
        ∙ ap (◌++◌ first) p.parts
        ∙ sym (append_assoc first p.front _)
        ∙ ap (λ (l : List Item). (first ++ p.front) ++ items_bytes lru fl level laws l) (sym same);
    listed =
        ap (λ (l : List ℕ). get_elem? l j) (sym listed)
        ∙ there
        ∙ p.listed
        ∙ ap some (omega (arith, length-append first p.front));
  }

  pub Place_lem : (n i : ℕ) (items : List Item) → i ≤ length (blocks_in items) → Place n i items
  Place_lem n zero [] h = record { front = []; parts = refl; listed = ap some (omega arith) }
  Place_lem n (suc i) [] h = absurd (omega arith)
  Place_lem n zero (block_item b gc ∷ items) h = record {
    front = [];
    parts = refl;
    listed = ap some (omega arith);
  }
  Place_lem n (suc i) (block_item b gc ∷ items) h =
      let m = final_member lru fl level laws b gc in
      Place-behind n i (suc i) m items (block_item b gc ∷ items) _ refl refl refl refl
        (Place_lem (n + length m) i items (omega arith))
  Place_lem n zero (index_item es ∷ items) h =
      let m = idx_member fl level laws es in
      Place-behind n zero zero m items (index_item es ∷ items) _ refl refl refl refl
        (Place_lem (n + length m) zero items (omega arith))
  Place_lem n (suc i) (index_item es ∷ items) h =
      let m = idx_member fl level laws es in
      Place-behind n (suc i) (suc i) m items (index_item es ∷ items) _ refl refl refl refl
        (Place_lem (n + length m) (suc i) items (omega arith))
