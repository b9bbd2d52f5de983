-- ===== src/External/Models.antt =====
-- Small concrete crates that the assumptions on the external ones hold of: a list in order of use, a
-- codec that stores its input, and a loop in one job.
use pgzf_rs.Prelude.{ℕ, ◌-◌, ◌%◌, ◌^◌, ◌≡◌, ◌≢◌, refl, some, List, [], ◌∷◌, ◌++◌, map, arith}
use pgzf_rs.Prelude.Lists.{length, take, replicate, sum, All, take-append}
use pgzf_rs.Prelude.Outcome.{Outcome, ok, err, panic, stuck, Exec, and_then}
use pgzf_rs.External.Lru.{LruCache, LruLaws, find, remove, moved, last}
use pgzf_rs.External.Flate.{Flate, stream_end, buf_error}
use pgzf_rs.External.Rayon.{Rayon, RayonLaws, RayonEnds}
use pgzf_rs.Codec.Laws.{FlateLaws}

module _ {V : Type 0} where
  abbrev pub listed : LruCache V
  listed = record {
    Entries = ℕ × List (ℕ × V);
    new = λ n. (n, []);
    get = λ c k. (find k c.1, (c.0, moved k (find k c.1) c.1));
    pop = λ c k. (find k c.1, (c.0, remove k c.1));
    pop_lru = λ c. (last c.1, (c.0, take (length c.1 - 1) c.1));
    put = λ c k v. (c.0, take c.0 ((k, v) ∷ remove k c.1));
    len = λ c. length c.1;
  }

  abbrev pub listed_laws : LruLaws listed
  listed_laws = record {
    view = λ c. c.1;
    cap = λ c. c.0;
    view-new = λ n. refl;
    cap-new = λ n. refl;
    get-found = λ c k. refl;
    view-get = λ c k. refl;
    cap-get = λ c k. refl;
    pop-found = λ c k. refl;
    view-pop = λ c k. refl;
    cap-pop = λ c k. refl;
    pop_lru-last = λ c. refl;
    view-pop_lru = λ c. refl;
    cap-pop_lru = λ c. refl;
    view-put = λ c k v. refl;
    cap-put = λ c k v. refl;
    len-length = λ c. refl;
  }

-- The state of either direction is its count of output bytes.
abbrev pub stored : Flate
stored = record {
  Compress = ℕ;
  compress_new = λ level. 0;
  compress_reset = λ c. 0;
  compress_run =
      λ c bytes room. (some stream_end, length bytes, bytes ++ replicate (room - length bytes) 0);
  compress_total_out = λ c. c;
  Decompress = ℕ;
  decompress_new = 0;
  decompress_reset = λ d. 0;
  decompress_run =
      λ d bytes room. (some stream_end, length bytes, bytes ++ replicate (room - length bytes) 0);
  decompress_total_out = λ d. d;
  crc32 = λ bytes. sum bytes % 2 ^ 32;
}

pub stream_end-ne : stream_end ≢ buf_error
stream_end-ne e = absurd (cc e)

abbrev pub stored_laws : (level : ℕ) → FlateLaws stored level
stored_laws level = record {
  Used = λ c. Unit {0};
  Used-new = tt;
  reset_new = λ c u. refl;
  stream = λ bytes. bytes;
  ended = λ bytes room. length bytes;
  status = λ bytes room. stream_end;
  unused = λ bytes room. replicate (room - length bytes) 0;
  run_lem = λ bytes room h. refl;
  status-ne = λ bytes room h. stream_end-ne;
  Used-ended = λ bytes room. tt;
  total_out-ended = λ bytes room h. refl;
  UsedD = λ d. Unit {0};
  UsedD-new = tt;
  reset_d_new = λ d u. refl;
  inflated = λ bytes n. length bytes;
  inflate_status = λ bytes n. stream_end;
  output = λ bytes n. bytes ++ replicate (n - length bytes) 0;
  inflate_lem = λ bytes n h. refl;
  UsedD-inflated = λ bytes n. tt;
  total_out-inflated = λ bytes n h. refl;
  output_front =
      λ bytes n h. take-append (length bytes) bytes (replicate (n - length bytes) 0) refl;
  crc32-lt = λ bytes. omega arith;
}

abbrev pub in_one_job : {S E A B : Type 0} → (A → Exec S E B) → List A → S → Outcome E (List B)
in_one_job f [] s = ok []
in_one_job f (x ∷ xs) s =
    let p = f x s in and_then p.0 (λ b. and_then (in_one_job f xs p.1) (λ bs. ok (b ∷ bs)))

abbrev pub sequential : Rayon
sequential = record { map_init = λ init f xs. in_one_job f xs init }

pub in_one_job-map :
    {S E A B : Type 0} (Inv : S → Type 0) (f : A → Exec S E B) (g : A → B) (xs : List A) (s : S)
    → Inv s
    → All (λ a. (s : S) → Inv s → ((f a s).0 ≡ ok (g a)) × Inv (f a s).1) xs
    → in_one_job f xs s ≡ ok (map g xs)
in_one_job-map Inv f g [] s i h = refl
in_one_job-map Inv f g (x ∷ xs) s i (h, hs) =
    let (r, i') = h s i in rw (r, in_one_job-map Inv f g xs (f x s).1 i' hs)

abbrev pub sequential_laws : RayonLaws sequential
sequential_laws = record {
  map_init-map = λ Inv init f g xs i h. in_one_job-map Inv f g xs init i h;
}

and_then-ends :
    {E A B : Type 0} (o : Outcome E A) (k : A → Outcome E B)
    → o ≢ stuck
    → ((a : A) → k a ≢ stuck)
    → and_then o k ≢ stuck
and_then-ends (ok a) k h more = more a
and_then-ends (err e) k h more = λ p. absurd (cc p)
and_then-ends panic k h more = λ p. absurd (cc p)
and_then-ends stuck k h more = absurd (h refl)

pub in_one_job-ends :
    {S E A B : Type 0} (f : A → Exec S E B) (xs : List A) (s : S)
    → ((a : A) (s : S) → (f a s).0 ≢ stuck)
    → in_one_job f xs s ≢ stuck
in_one_job-ends f [] s h = λ p. absurd (cc p)
in_one_job-ends f (x ∷ xs) s h = and_then-ends (f x s).0 _ (h x s) (λ b.
    and_then-ends (in_one_job f xs (f x s).1) _ (in_one_job-ends f xs (f x s).1 h)
      (λ bs p. absurd (cc p)))

abbrev pub sequential_ends : RayonEnds sequential
sequential_ends = record { map_init-ends = λ init f xs h. in_one_job-ends f xs init h }
