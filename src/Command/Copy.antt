-- ===== src/Command/Copy.antt =====
-- The loops of src/main.rs that copy from a reader: up to a limit (`decompress_stream`), and up to the
-- end (`io::copy`).
use pgzf_rs.Prelude.{
  ℕ, zero, suc, ◌+◌, ◌-◌, ◌≤◌, ◌≡◌, ◌≢◌, inl, inr, refl, sym, ap, ◌∙◌, min, List, [], ◌++◌, arith,
  append-nil, append_assoc,
}
use pgzf_rs.Prelude.Tests.{◌==◌, Bool-cases, ==_false→ne, if◌then◌else◌}
use pgzf_rs.Prelude.Lists.{length, length-append}
use pgzf_rs.Prelude.Outcome.{Outcome, ok, err, panic, stuck, Exec, continue}
use pgzf_rs.Error.{IoError}

abbrev pub copy_buffer : ℕ
copy_buffer = 65536

-- The buffer of `io::copy`.
abbrev pub io_copy_buffer : ℕ
io_copy_buffer = 8192

-- `Read::read` of some reader, into a buffer of that size.
module _ {R : Type 0} (read : ℕ → Exec R IoError (List ℕ)) where
  -- The bytes that a loop has read go behind those written before.
  abbrev append_to : List ℕ → R × List ℕ → R × List ℕ
  append_to buf s = (s.0, s.1 ++ buf)

  abbrev pub read_into : ℕ → Exec (R × List ℕ) IoError (List ℕ)
  read_into n s = let p = read n s.0 in (p.0, (p.1, s.1))

  -- The `while remaining > 0`.
  unfoldable pub copy_limited : ℕ → ℕ → Exec (R × List ℕ) IoError (Unit {0})
  copy_limited fuel zero s = (ok tt, s)
  copy_limited zero (suc m) s = (stuck, s)
  copy_limited (suc fuel) (suc m) s = continue (read_into (min (suc m) copy_buffer) s) (λ buf s'.
      let rest = copy_limited fuel (suc m - length buf) (append_to buf s') in
      if length buf == 0 then (ok tt, s') else rest)

  -- `io::copy`: as long as there are bytes.
  unfoldable pub copy_all : ℕ → Exec (R × List ℕ) IoError (Unit {0})
  copy_all zero s = (stuck, s)
  copy_all (suc fuel) s = continue (read_into io_copy_buffer s) (λ buf s'.
      let rest = copy_all fuel (append_to buf s') in if length buf == 0 then (ok tt, s') else rest)

  -- A read gives no more than it is asked for.
  abbrev pub IsBounded : Type 0
  IsBounded = (n : ℕ) (r : R) (buf : List ℕ) → (read n r).0 ≡ ok buf → length buf ≤ n

  -- A read ends.
  abbrev pub IsTotal : Type 0
  IsTotal = (n : ℕ) (r : R) → (read n r).0 ≢ stuck

  -- What has been written behind `s` is at most `m` bytes, and the loop has ended if the reads have.
  pub record Copied (s : R × List ℕ) (m : ℕ) (q : Outcome IoError (Unit {0}) × (R × List ℕ))
      : Type 0 where
    pub ends : IsTotal → q.0 ≢ stuck
    pub more : List ℕ
    pub written : q.1.1 ≡ s.1 ++ more
    pub within : length more ≤ m

  Copied-now :
      (s s' : R × List ℕ) (m : ℕ) (o : Outcome IoError (Unit {0}))
      → o ≢ stuck
      → s'.1 ≡ s.1
      → Copied s m (o, s')
  Copied-now s s' m o h e = record {
    ends = λ t. h;
    more = [];
    written = e ∙ sym (append-nil s.1);
    within = omega arith;
  }

  -- A read whose outcome is known.
  Copied-continue :
      (s s' : R × List ℕ) (m : ℕ) (o : Outcome IoError (List ℕ))
      (k : List ℕ → Exec (R × List ℕ) IoError (Unit {0}))
      → s'.1 ≡ s.1
      → (IsTotal → o ≢ stuck)
      → ((buf : List ℕ) → o ≡ ok buf → Copied s m (k buf s'))
      → Copied s m (continue (o, s') k)
  Copied-continue s s' m (ok buf) k e h good = good buf refl
  Copied-continue s s' m (err x) k e h good = Copied-now s s' m (err x) (λ p. cc p) e
  Copied-continue s s' m panic k e h good = Copied-now s s' m panic (λ p. cc p) e
  Copied-continue s s' m stuck k e h good = record {
    ends = λ t. absurd (h t refl);
    more = [];
    written = e ∙ sym (append-nil s.1);
    within = omega arith;
  }

  Copied-append_to :
      (s s' : R × List ℕ) (m n : ℕ) (buf : List ℕ) (q : Outcome IoError (Unit {0}) × (R × List ℕ))
      → s'.1 ≡ s.1 ++ buf
      → length buf + n ≤ m
      → Copied s' n q
      → Copied s m q
  Copied-append_to s s' m n buf q e h c = record {
    ends = c.ends;
    more = buf ++ c.more;
    written = c.written ∙ ap (λ (l : List ℕ). l ++ c.more) e ∙ append_assoc s.1 buf c.more;
    within = omega (arith, length-append buf c.more, c.within);
  }

  pub copy_limited-Copied :
      (fuel m : ℕ) (s : R × List ℕ) → IsBounded → m ≤ fuel → Copied s m (copy_limited fuel m s)
  unfolding copy_limited
  copy_limited-Copied fuel zero s b h = Copied-now s s 0 (ok tt) (λ p. cc p) refl
  copy_limited-Copied zero (suc m) s b h = absurd (omega arith)
  copy_limited-Copied (suc fuel) (suc m) s b h =
      let n = min (suc m) copy_buffer in
      let p = read n s.0 in
      Copied-continue s (p.1, s.1) (suc m) p.0 _ refl (λ t. t n s.0)
        (λ buf e. elim (Bool-cases (length buf == 0)) [
          | inl none_left ↦ rw none_left (Copied-now s (p.1, s.1) (suc m) (ok tt) (λ p. cc p) refl)
          | inr some_left ↦
              let few = b n s.0 buf e in
              let any = ==_false→ne (length buf) 0 some_left in
              rw some_left (
                Copied-append_to s (append_to buf (p.1, s.1)) (suc m) (suc m - length buf) buf _
                  refl (omega (arith, few))
                  (copy_limited-Copied fuel (suc m - length buf) (append_to buf (p.1, s.1)) b
                    (omega (arith, any))))
        ])
