-- ===== src/Metrics/Scrape/Loads.antt =====
-- What a load of a scrape keeps, and that `render` loads every atomic.
use justkv.Common.{
  ℕ, zero, suc, ◌≡◌, ◌≢◌, ◌⊎◌, inl, refl, ap, sym, true, false, List, [], ◌∷◌, length, get_or,
  length-set, get_or-set_self, get_or-set_ne, arith,
}
use justkv.Metrics.{Metrics, Counter, new}
use justkv.Metrics.Totals.{Add, read, same, Exists, IsValid}
use justkv.Metrics.Threads.{Running}
use justkv.Metrics.Scrape.{load_order, put, Turn, loading, run_turns, start_scrape}

pub read-put_self :
    (k c : Counter) (n : ℕ) (m : Metrics)
    → length m.buckets ≡ 13
    → Exists c
    → same k c ≡ true
    → read k (put c n m) ≡ n
unfolding read put
read-put_self (Counter.bucket i) (Counter.bucket j) n m shape e eq =
    let here : i ≡ j = ground arith in
    rw here (get_or-set_self m.buckets j n 0 (omega (arith, shape)))
read-put_self Counter.requests Counter.requests n m shape e eq = refl
read-put_self k c n m shape e eq = ground arith

pub read-put_ne :
    (k c : Counter) (n : ℕ) (m : Metrics) → same k c ≡ false → read k (put c n m) ≡ read k m
unfolding read put
read-put_ne (Counter.bucket i) (Counter.bucket j) n m ne =
    let apart : j ≢ i = ground arith in get_or-set_ne m.buckets j i n 0 apart
read-put_ne Counter.requests Counter.requests n m ne = absurd (cc)
read-put_ne k c n m ne = ground arith

pub put-shape : (c : Counter) (n : ℕ) (m : Metrics) → length (put c n m).buckets ≡ length m.buckets
unfolding put
put-shape (Counter.bucket i) n m = length-set m.buckets i n
put-shape _ n m = refl

pub read-same : (k c : Counter) (m : Metrics) → same k c ≡ true → read c m ≡ read k m
unfolding read
read-same (Counter.bucket i) (Counter.bucket j) m eq =
    let here : i ≡ j = ground arith in ap (λ n. get_or m.buckets n 0) (sym here)
read-same Counter.requests Counter.requests m eq = refl
read-same k c m eq = ground arith

-- the load is still to come
abbrev pub Among : Counter → List Counter → Type 0
Among k [] = ⊥
Among k (c ∷ cs) = (same k c ≡ true) ⊎ Among k cs

pub Among-load_order : (k : Counter) → Exists k → Among k load_order
Among-load_order (Counter.bucket i) e = ground arith
Among-load_order Counter.requests e = inl refl
Among-load_order k e = ground arith

abbrev loads : ℕ → List Turn
loads zero = []
loads (suc n) = loading ∷ loads n

seen_alone :
    (a b c d e f g : ℕ) (xs : List ℕ) (ts : List (List Add))
    → length xs ≡ 13
    → let m : Metrics = record {
      requests = a;
      hits = b;
      misses = c;
      defaults = d;
      bytes = e;
      buckets = xs;
      sum_nanos = f;
      timed = g;
    } in
      (run_turns (loads 20) (start_scrape (record { metrics = m; threads = ts }))).seen ≡ m
unfolding run_turns read new
seen_alone a b c d e f g (x0 ∷ x1 ∷ x2 ∷ x3 ∷ x4 ∷ x5 ∷ x6 ∷ x7 ∷ x8 ∷ x9 ∷ x10 ∷ x11 ∷ x12 ∷ []) ts
      h =
    refl
seen_alone a b c d e f g xs ts h = absurd (omega arith)

-- without additions in between, a scrape sees the counters as they are
pub scrape_alone :
    (r : Running) → IsValid r.metrics → (run_turns (loads 20) (start_scrape r)).seen ≡ r.metrics
scrape_alone r v =
    seen_alone r.metrics.requests r.metrics.hits r.metrics.misses r.metrics.defaults r.metrics.bytes
      r.metrics.sum_nanos r.metrics.timed r.metrics.buckets r.threads v.shape
