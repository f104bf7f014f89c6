-- ===== src/Metrics.antt =====
-- src/metrics.rs: counters, the latency histogram, and the Prometheus text.
-- Durations are nanoseconds, and so are the bucket bounds: the comparisons `secs <= b` of the
-- source are on `f64` seconds. Counters are `AtomicU64`s; `fetch_add` wraps.
pub mod Totals
pub mod Calls
pub mod Threads
pub mod Progress
pub mod Render
pub mod Scrape
use justkv.Common.{
  ℕ, zero, suc, ◌+◌, ◌%◌, ◌^◌, Bool, Option, none, some, List, [], ◌∷◌, ◌++◌, Bytes, codes, length,
  get_or, set, leb, if◌then◌else◌, u64_mod,
}

-- BUCKETS
abbrev pub bounds : List ℕ
bounds =
    25_000 ∷ 50_000 ∷ 100_000 ∷ 250_000 ∷ 500_000 ∷ 1_000_000 ∷ 2_500_000 ∷ 5_000_000 ∷ 10_000_000
    ∷ 25_000_000 ∷ 50_000_000 ∷ 100_000_000 ∷ []

pub data Outcome : Type 0 where
  hit miss default : Outcome

pub record Metrics : Type 0 where
  pub requests : ℕ
  pub hits : ℕ
  pub misses : ℕ
  pub defaults : ℕ
  pub bytes : ℕ
  pub buckets : List ℕ
  pub sum_nanos : ℕ
  pub timed : ℕ

unfoldable pub new : Metrics
new = record {
  requests = 0;
  hits = 0;
  misses = 0;
  defaults = 0;
  bytes = 0;
  buckets = 0 ∷ 0 ∷ 0 ∷ 0 ∷ 0 ∷ 0 ∷ 0 ∷ 0 ∷ 0 ∷ 0 ∷ 0 ∷ 0 ∷ 0 ∷ [];
  sum_nanos = 0;
  timed = 0;
}

-- the atomics of `Metrics`, by name
pub data Counter : Type 0 where
  requests hits misses defaults bytes sum_nanos timed : Counter
  bucket : ℕ → Counter

-- `fetch_add` on one atomic
unfoldable pub fetch_add : Counter → ℕ → Metrics → Metrics
fetch_add Counter.requests n m = record m { requests = (m.requests + n) % u64_mod }
fetch_add Counter.hits n m = record m { hits = (m.hits + n) % u64_mod }
fetch_add Counter.misses n m = record m { misses = (m.misses + n) % u64_mod }
fetch_add Counter.defaults n m = record m { defaults = (m.defaults + n) % u64_mod }
fetch_add Counter.bytes n m = record m { bytes = (m.bytes + n) % u64_mod }
fetch_add Counter.sum_nanos n m = record m { sum_nanos = (m.sum_nanos + n) % u64_mod }
fetch_add Counter.timed n m = record m { timed = (m.timed + n) % u64_mod }
fetch_add (Counter.bucket i) n m = record m {
  buckets = set m.buckets i ((get_or m.buckets i 0 + n) % u64_mod);
}

-- `BUCKETS.iter().position(|&b| secs <= b).unwrap_or(BUCKETS.len())`
unfoldable pub bucket_index : ℕ → List ℕ → ℕ
bucket_index d [] = 0
bucket_index d (b ∷ bs) = if leb d b then 0 else suc (bucket_index d bs)

-- The atomic additions that a call of `record` makes, in program order. Its `match` and its
-- `if let` are the two helpers.
unfoldable pub outcome_adds : Outcome → List (Counter × ℕ)
outcome_adds hit = (Counter.hits, 1) ∷ []
outcome_adds miss = (Counter.misses, 1) ∷ []
outcome_adds default = (Counter.misses, 1) ∷ (Counter.defaults, 1) ∷ []

unfoldable pub timing_adds : Option ℕ → List (Counter × ℕ)
timing_adds none = []
timing_adds (some d) =
    (Counter.bucket (bucket_index d bounds), 1)
    ∷ (Counter.sum_nanos, d % u64_mod)
    ∷ (Counter.timed, 1)
    ∷ []

unfoldable pub record_adds : Outcome → ℕ → Option ℕ → List (Counter × ℕ)
unfolding outcome_adds timing_adds
record_adds outcome size elapsed =
    (Counter.requests, 1) ∷ (Counter.bytes, size) ∷ (outcome_adds outcome ++ timing_adds elapsed)

unfoldable pub run_adds : List (Counter × ℕ) → Metrics → Metrics
unfolding fetch_add
run_adds [] m = m
run_adds ((c, n) ∷ adds) m = run_adds adds (fetch_add c n m)

-- `Metrics::record`
unfoldable pub record_call : Outcome → ℕ → Option ℕ → Metrics → Metrics
unfolding record_adds run_adds
record_call outcome size elapsed m = run_adds (record_adds outcome size elapsed) m
