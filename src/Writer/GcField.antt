-- ===== src/Writer/GcField.antt =====
-- The GC value of a group: its sum, and where it is written.
use pgzf_rs.Prelude.{
  ℕ, ◌+◌, ◌^◌, ◌<◌, ◌≡◌, refl, sym, ap, ◌∙◌, List, [], ◌∷◌, ◌++◌, arith, append_assoc,
}
use pgzf_rs.Prelude.Lists.{length, replicate, length-append}
use pgzf_rs.Cursor.{overwrite}
use pgzf_rs.Cursor.Laws.{overwrite_inside}
use pgzf_rs.Constants.{gc_value_offset}
use pgzf_rs.Format.Bytes.{u16_bytes, u32_bytes, u64_bytes, write_u64_le, length-u64_bytes}
use pgzf_rs.Format.Header.{IndexEntry}
use pgzf_rs.Format.Layout.{fixed_header, zc_field}
use pgzf_rs.Writer.{gc_sum}
use pgzf_rs.Writer.Layout.{beg_header, gc_of}

-- What lies before the GC value.
abbrev beg_front : ℕ → List ℕ
beg_front zc = fixed_header ++ (u16_bytes 20 ++ (zc_field zc ++ (0x47 ∷ 0x43 ∷ u16_bytes 8)))

beg_header-split : (zc gc : ℕ) → beg_header zc gc ≡ beg_front zc ++ u64_bytes gc
unfolding u16_bytes u32_bytes
beg_header-split zc gc = refl

length-beg_front : (zc : ℕ) → length (beg_front zc) ≡ gc_value_offset
unfolding u16_bytes u32_bytes
length-beg_front zc = refl

pub regroup :
    (old front value rest : List ℕ)
    → old ++ ((front ++ value) ++ rest) ≡ (old ++ front) ++ (value ++ rest)
regroup old front value rest =
    rw (append_assoc front value rest, append_assoc old front (value ++ rest))

-- Eight bytes over eight in a file that is known around them.
pub overwrite_gc :
    (old rest : List ℕ) (zc gc : ℕ)
    → overwrite (old ++ (beg_header zc 0 ++ rest)) (length old + gc_value_offset) (u64_bytes gc)
      ≡ old ++ (beg_header zc gc ++ rest)
overwrite_gc old rest zc gc =
    let front = old ++ beg_front zc in
    let around : (v : ℕ) → old ++ (beg_header zc v ++ rest) ≡ front ++ (u64_bytes v ++ rest) = λ v.
      ap (λ (h : List ℕ). old ++ (h ++ rest)) (beg_header-split zc v)
      ∙ regroup old (beg_front zc) (u64_bytes v) rest in
    let at : length old + gc_value_offset ≡ length front =
      sym (length-append old (beg_front zc) ∙ ap (◌+◌ (length old)) (length-beg_front zc)) in
    rw (at) (ap (λ (bytes : List ℕ). overwrite bytes (length front) (u64_bytes gc)) (around 0))
    ∙ overwrite_inside front (u64_bytes 0) rest (u64_bytes gc)
        (length-u64_bytes gc ∙ sym (length-u64_bytes 0))
    ∙ sym (around gc)

pub written_gc : (n : ℕ) → write_u64_le (replicate 8 0) 0 n ≡ u64_bytes n
unfolding write_u64_le u64_bytes
written_gc n = refl

pub gc_sum_lem : (es : List IndexEntry) → gc_of es < 2 ^ 64 → gc_sum es ≡ gc_of es
gc_sum_lem [] h = refl
gc_sum_lem (e ∷ es) h = rw (gc_sum_lem es (omega arith)) (omega arith)
