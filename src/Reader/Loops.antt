-- ===== src/Reader/Loops.antt =====
-- The loops inside `read` that have no outcome of their own: over the tags of a header
-- (src/reader.rs, src/format.rs), the binary search (src/index.rs) and the evictions. A run is
-- described by its rounds, without fuel.
use pgzf_rs.Prelude.{ℕ, zero, suc, ◌+◌, ◌-◌, ◌/◌, ◌≤◌, ◌<◌, inl, inr, List, arith}
use pgzf_rs.Prelude.Tests.{ltb, Bool-cases, ltb→lt, ltb_false→le}
use pgzf_rs.Prelude.Lists.{length, take, drop, get_or, length-drop}
use pgzf_rs.Format.Bytes.{read_u16_le}
use pgzf_rs.Format.Extra.{Tags, read_tag, parse_tags}
use pgzf_rs.External.Lru.{LruCache, LruLaws}
use pgzf_rs.BlockCache.{CacheEntry, BlockCache, insert}
use pgzf_rs.BlockCache.Runs.{InsertRun, insert-InsertRun}
use pgzf_rs.Index.{search_loop}
use pgzf_rs.Reader.Raw.{RawTags, note_tag, scan_tags}

-- A run over the tags of an extra field: it ends where four bytes are not left or where a tag is cut
-- off, and a round goes on behind the tag.
pub data TagRun {T : Type 0} (step : T → List ℕ → ℕ → List ℕ → T) : List ℕ → T → T → Type 0 where
  too_short : {extra : List ℕ} {t : T} → length extra < 4 → TagRun step extra t t
  cut_off :
      {extra : List ℕ} {t : T}
      → 4 ≤ length extra
      → length (drop 4 extra) < read_u16_le (drop 2 extra)
      → TagRun step extra t t
  round :
      {extra : List ℕ} {t t' : T}
      → 4 ≤ length extra
      → read_u16_le (drop 2 extra) ≤ length (drop 4 extra)
      → TagRun step
          (drop (read_u16_le (drop 2 extra)) (drop 4 extra))
          (step t extra
            (read_u16_le (drop 2 extra))
            (take (read_u16_le (drop 2 extra)) (drop 4 extra)))
          t'
      → TagRun step extra t t'

-- A run of the binary search over `size` elements from `base` on, down to one.
pub data SearchRun (v : List ℕ) (target : ℕ) : ℕ → ℕ → ℕ → Type 0 where
  one_left : {base size : ℕ} → size ≤ 1 → SearchRun v target base size base
  to_left :
      {base size r : ℕ}
      → 1 < size
      → target < get_or v (base + size / 2) 0
      → SearchRun v target base (size - size / 2) r
      → SearchRun v target base size r
  to_right :
      {base size r : ℕ}
      → 1 < size
      → get_or v (base + size / 2) 0 ≤ target
      → SearchRun v target (base + size / 2) (size - size / 2) r
      → SearchRun v target base size r

scan_tags-TagRun :
    (fuel : ℕ) (extra : List ℕ) (t : RawTags)
    → length extra ≤ fuel
    → TagRun note_tag extra t (scan_tags fuel extra t)
unfolding scan_tags
scan_tags-TagRun zero extra t h = too_short (omega arith)
scan_tags-TagRun (suc fuel) extra t h =
    let slen = read_u16_le (drop 2 extra) in
    let body = drop 4 extra in
    elim (Bool-cases (ltb (length extra) 4)) [
      | inl short ↦ rw (short, scan_tags) (too_short (ltb→lt _ _ short))
      | inr long ↦ elim (Bool-cases (ltb (length body) slen)) [
        | inl cut ↦ rw (long, cut, scan_tags) (cut_off (ltb_false→le _ _ long) (ltb→lt _ _ cut))
        | inr whole ↦
            rw (long, whole, scan_tags)
              (round (ltb_false→le _ _ long) (ltb_false→le _ _ whole) (
                scan_tags-TagRun fuel (drop slen body) (note_tag t extra slen (take slen body)) (
                  omega
                    (arith, ltb_false→le _ _ long, length-drop slen body, length-drop 4 extra))))
      ]
    ]

parse_tags-TagRun :
    (fuel : ℕ) (extra : List ℕ) (t : Tags)
    → length extra ≤ fuel
    → TagRun read_tag extra t (parse_tags fuel extra t)
unfolding parse_tags
parse_tags-TagRun zero extra t h = too_short (omega arith)
parse_tags-TagRun (suc fuel) extra t h =
    let slen = read_u16_le (drop 2 extra) in
    let body = drop 4 extra in
    elim (Bool-cases (ltb (length extra) 4)) [
      | inl short ↦ rw (short, parse_tags) (too_short (ltb→lt _ _ short))
      | inr long ↦ elim (Bool-cases (ltb (length body) slen)) [
        | inl cut ↦ rw (long, cut, parse_tags) (cut_off (ltb_false→le _ _ long) (ltb→lt _ _ cut))
        | inr whole ↦
            rw (long, whole, parse_tags)
              (round (ltb_false→le _ _ long) (ltb_false→le _ _ whole) (
                parse_tags-TagRun fuel (drop slen body) (read_tag t extra slen (take slen body)) (
                  omega
                    (arith, ltb_false→le _ _ long, length-drop slen body, length-drop 4 extra))))
      ]
    ]

search_loop-SearchRun :
    (fuel : ℕ) (v : List ℕ) (target base size : ℕ)
    → size ≤ fuel
    → SearchRun v target base size (search_loop fuel v target base size)
unfolding search_loop
search_loop-SearchRun zero v target base size h = one_left (omega arith)
search_loop-SearchRun (suc fuel) v target base size h = elim (Bool-cases (ltb 1 size)) [
  | inr one ↦ rw (one, search_loop) (one_left (ltb_false→le _ _ one))
  | inl many ↦ elim (Bool-cases (ltb target (get_or v (base + size / 2) 0))) [
    | inl left ↦
        rw (many, left, search_loop)
          (to_left (ltb→lt _ _ many) (ltb→lt _ _ left) (
            search_loop-SearchRun fuel v target base (size - size / 2)
              (omega (arith, ltb→lt _ _ many))))
    | inr right ↦
        rw (many, right, search_loop)
          (to_right (ltb→lt _ _ many) (ltb_false→le _ _ right) (
            search_loop-SearchRun fuel v target (base + size / 2) (size - size / 2)
              (omega (arith, ltb→lt _ _ many))))
  ]
]

module _ (lru : LruCache CacheEntry) where
  -- All these loops come to their end, whatever they run over.
  pub record LoopsEnd : Type 0 where
    pub scans :
        (extra : List ℕ) (t : RawTags) → TagRun note_tag extra t (scan_tags (length extra) extra t)
    pub parses :
        (extra : List ℕ) (t : Tags) → TagRun read_tag extra t (parse_tags (length extra) extra t)
    pub searches :
        (v : List ℕ) (target : ℕ)
        → SearchRun v target 0 (length v) (search_loop (length v) v target 0 (length v))
    pub inserts :
        (c : BlockCache lru) (k : ℕ) (bytes : List ℕ)
        → InsertRun lru c k bytes (insert lru c k bytes)

module _ (lru : LruCache CacheEntry) (laws : LruLaws lru) where
  pub loops_end : LoopsEnd lru
  loops_end = record {
    scans = λ extra t. scan_tags-TagRun (length extra) extra t (omega arith);
    parses = λ extra t. parse_tags-TagRun (length extra) extra t (omega arith);
    searches = λ v target. search_loop-SearchRun (length v) v target 0 (length v) (omega arith);
    inserts = insert-InsertRun lru laws;
  }
