-- ===== src/Index/Wraps.antt =====
-- Groups whose sizes, by sums that wrap, lead `PgzfIndex::build` back.
use pgzf_rs.Prelude.{ℕ, zero, suc, ◌*◌, ◌+◌, ◌≡◌, ◌≢◌, refl, List, ◌++◌}
use pgzf_rs.Prelude.Lists.{length, drop, All}
use pgzf_rs.Prelude.Outcome.{stuck}
use pgzf_rs.Cursor.{Cursor, remaining}
use pgzf_rs.Format.Bytes.{IsU16, IsU32, IsU64, add_u64}
use pgzf_rs.Format.Header.{IndexEntry, build_idx_header}
use pgzf_rs.Format.RoundTrip.{IsEntry}
use pgzf_rs.Writer.Layout.{beg_header}
use pgzf_rs.Index.Build.{Scan, scan_group, build_loop}
use pgzf_rs.Index.Groups.{read_group_lem}

-- At the position there is a BEG header, its GC value leads to an IDX header, and the ZC value of
-- that one leads back, by sums that wrap.
pub record IsLoop (c : Cursor) (zc gc idx_zc at : ℕ) (es : List IndexEntry) (tail rest : List ℕ)
    : Type 0 where
  pub beg : remaining c ≡ beg_header zc gc ++ tail
  pub gc_fits : IsU64 gc
  pub gc_set : gc ≢ 0
  pub wraps : add_u64 c.pos gc ≡ at
  pub idx : drop at c.bytes ≡ build_idx_header idx_zc es ++ rest
  pub zc_fits : IsU32 idx_zc
  pub es_fit : IsU16 (12 + length es * 8)
  pub entries : All IsEntry es
  pub back : add_u64 at idx_zc ≡ c.pos

-- On a file with a BEG header at the position whose GC value leads to an IDX header, by a sum that
-- may wrap, and whose ZC value leads back to the position: the loop of `build` is not done,
-- however many rounds it is allowed.
pub build_loop-stuck :
    (fuel : ℕ) (s : Scan) (c : Cursor) (zc gc idx_zc at : ℕ) (es : List IndexEntry)
    (tail rest : List ℕ)
    → IsLoop c zc gc idx_zc at es tail rest
    → build_loop fuel s c ≡ (stuck, c)
unfolding build_loop
build_loop-stuck zero s c zc gc idx_zc at es tail rest h = refl
build_loop-stuck (suc fuel) s c zc gc idx_zc at es tail rest h =
    rw
      (read_group_lem s c zc gc idx_zc at c.pos es tail rest h.beg h.gc_fits h.gc_set h.wraps h.idx
        h.zc_fits h.es_fit h.entries h.back)
      (build_loop-stuck fuel (scan_group s es idx_zc) c zc gc idx_zc at es tail rest h)
