-- ===== src/Cursor/Laws.antt =====
-- Reads and writes in terms of the list that lies before the position.
use pgzf_rs.Prelude.{
  ℕ, ◌+◌, ◌-◌, ◌<◌, ◌≡◌, refl, sym, ◌∙◌, List, ◌++◌, arith, append-nil, append_assoc,
}
use pgzf_rs.Prelude.Tests.{le→leb, lt→leb_false}
use pgzf_rs.Prelude.Lists.{
  length, drop, take-append, drop-append, drop-drop, length-append, take_of_length-le,
  drop_of_length-le,
}
use pgzf_rs.Prelude.Outcome.{ok, err}
use pgzf_rs.Error.{simple, unexpected_eof}
use pgzf_rs.Cursor.{Cursor, remaining, read_exact, overwrite, write_all}

-- A read of as many bytes as a known front has.
pub read_exact_front :
    (c : Cursor) (n : ℕ) (front rest : List ℕ)
    → remaining c ≡ front ++ rest
    → length front ≡ n
    → (read_exact n c ≡ (ok front, record c { pos = c.pos + n }))
      × (drop (c.pos + n) c.bytes ≡ rest)
unfolding read_exact
read_exact_front c n front rest e h = (
  rw (e, le→leb n (length (front ++ rest)) (omega (arith, length-append front rest)))
      (rw (take-append n front rest h)),
  sym (drop-drop n c.pos c.bytes) ∙ rw (e) (drop-append n front rest h),
)

pub read_exact_short :
    (c : Cursor) (n : ℕ)
    → length (remaining c) < n
    → read_exact n c ≡ (err (simple unexpected_eof), record c { pos = length c.bytes })
unfolding read_exact
read_exact_short c n h = rw (lt→leb_false n (length (remaining c)) h)

-- A write at the end of the file appends.
pub write_all_end :
    (c : Cursor) (new : List ℕ)
    → c.pos ≡ length c.bytes
    → write_all new c ≡ record { bytes = c.bytes ++ new; pos = length (c.bytes ++ new) }
unfolding write_all
write_all_end c new h =
    let ends : c.pos - length c.bytes ≡ 0 = omega arith in
    ground (
      arith,
      append-nil c.bytes,
      take_of_length-le c.pos c.bytes,
      drop_of_length-le (c.pos + length new) c.bytes,
      append-nil new,
      length-append c.bytes new,
    )

-- A write inside the file replaces as many bytes as it is long.
pub overwrite_inside :
    (front old rest new : List ℕ)
    → length new ≡ length old
    → overwrite (front ++ (old ++ rest)) (length front) new ≡ front ++ (new ++ rest)
overwrite_inside front old rest new h = rw (
  append_assoc front (old ++ rest) _,
  take-append (length front) front _ refl,
  sym (drop-drop (length new) (length front) (front ++ (old ++ rest))),
  drop-append (length front) front (old ++ rest) refl,
  drop-append (length new) old rest (sym h),
)
