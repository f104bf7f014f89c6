-- ===== src/Metrics/Calls.antt =====
-- What the counters say of the calls of `record` that were made, in whatever order their atomic
-- additions happened: the threads of the server interleave.
use justkv.Common.{
  ℕ, ◌+◌, ◌%◌, ◌≤◌, ◌≡◌, refl, sym, ap, ◌∙◌, Option, none, some, List, [], ◌∷◌, ◌++◌, length,
  All-append, arith, ◌==◌, if◌then◌else◌, u64_mod,
}
use justkv.Metrics.{
  Metrics, Counter, bucket_index, bounds, Outcome, hit, miss, default, fetch_add, record_adds,
  run_adds, record_call, new,
}
use justkv.Metrics.Totals.{
  Add, read, Exists, AllExist, total, total-append, run_adds-read, read-new, new-IsValid,
}

-- one call of `record`
pub record Call : Type 0 where
  pub outcome : Outcome
  pub size : ℕ
  pub elapsed : Option ℕ

unfoldable pub call_adds : Call → List Add
call_adds c = record_adds c.outcome c.size c.elapsed

unfoldable pub adds_of : List Call → List Add
unfolding call_adds
adds_of [] = []
adds_of (c ∷ calls) = call_adds c ++ adds_of calls

-- a sum over the calls
abbrev pub tally : (Call → ℕ) → List Call → ℕ
tally f [] = 0
tally f (c ∷ calls) = f c + tally f calls

abbrev pub hit_count : Outcome → ℕ
hit_count hit = 1
hit_count _ = 0

-- a lookup that was answered with the default is a miss too
abbrev pub miss_count : Outcome → ℕ
miss_count hit = 0
miss_count _ = 1

abbrev pub default_count : Outcome → ℕ
default_count default = 1
default_count _ = 0

abbrev pub timed_count : Option ℕ → ℕ
timed_count none = 0
timed_count (some d) = 1

abbrev pub nanos : Option ℕ → ℕ
nanos none = 0
nanos (some d) = d % u64_mod

abbrev pub in_bucket : ℕ → Option ℕ → ℕ
in_bucket i none = 0
in_bucket i (some d) = if i == bucket_index d bounds then 1 else 0

-- what the counters are to say, each modulo 2 ^ 64
pub record Counts (calls : List Call) (m : Metrics) : Type 0 where
  pub requests_are : m.requests ≡ length calls % u64_mod
  pub hits_are : m.hits ≡ tally (λ c. hit_count c.outcome) calls % u64_mod
  pub misses_are : m.misses ≡ tally (λ c. miss_count c.outcome) calls % u64_mod
  pub defaults_are : m.defaults ≡ tally (λ c. default_count c.outcome) calls % u64_mod
  pub bytes_are : m.bytes ≡ tally (λ c. c.size) calls % u64_mod
  pub timed_are : m.timed ≡ tally (λ c. timed_count c.elapsed) calls % u64_mod
  pub nanos_are : m.sum_nanos ≡ tally (λ c. nanos c.elapsed) calls % u64_mod
  pub buckets_are :
      (i : ℕ) → read (Counter.bucket i) m ≡ tally (λ c. in_bucket i c.elapsed) calls % u64_mod

-- the share of one call in a counter
abbrev share : Counter → Call → ℕ
share Counter.requests c = 1
share Counter.hits c = hit_count c.outcome
share Counter.misses c = miss_count c.outcome
share Counter.defaults c = default_count c.outcome
share Counter.bytes c = c.size
share Counter.timed c = timed_count c.elapsed
share Counter.sum_nanos c = nanos c.elapsed
share (Counter.bucket i) c = in_bucket i c.elapsed

total-record_adds :
    (k : Counter) (o : Outcome) (n : ℕ) (e : Option ℕ)
    → total k (record_adds o n e) ≡ share k (record { outcome = o; size = n; elapsed = e })
unfolding total record_adds
total-record_adds Counter.requests o n e = ground arith
total-record_adds k o n e = ground arith

total-adds_of : (k : Counter) (calls : List Call) → total k (adds_of calls) ≡ tally (share k) calls
unfolding adds_of
total-adds_of k [] = unfold total in refl
total-adds_of k (c ∷ calls) = omega (
  arith,
  total-append k (call_adds c) (adds_of calls),
  total-record_adds k c.outcome c.size c.elapsed,
  total-adds_of k calls,
)

pub total-adds_of-append :
    (k : Counter) (xs ys : List Call)
    → total k (adds_of (xs ++ ys)) ≡ total k (adds_of xs) + total k (adds_of ys)
unfolding adds_of
total-adds_of-append k [] ys = unfold total in omega arith
total-adds_of-append k (c ∷ xs) ys = omega (
  arith,
  total-append k (call_adds c) (adds_of (xs ++ ys)),
  total-append k (call_adds c) (adds_of xs),
  total-adds_of-append k xs ys,
)

pub bucket_index-le : (d : ℕ) (bs : List ℕ) → bucket_index d bs ≤ length bs
unfolding bucket_index
bucket_index-le d [] = omega arith
bucket_index-le d (b ∷ bs) = ground (arith, bucket_index-le d bs)

pub record_adds-AllExist : (o : Outcome) (n : ℕ) (e : Option ℕ) → AllExist (record_adds o n e)
unfolding record_adds
record_adds-AllExist hit n (some d) = ground (arith, bucket_index-le d bounds)
record_adds-AllExist miss n (some d) = ground (arith, bucket_index-le d bounds)
record_adds-AllExist default n (some d) = ground (arith, bucket_index-le d bounds)
record_adds-AllExist hit n none = omega arith
record_adds-AllExist _ n none = omega arith

pub adds_of-AllExist : (calls : List Call) → AllExist (adds_of calls)
unfolding adds_of
adds_of-AllExist [] = tt
adds_of-AllExist (c ∷ calls) =
    All-append (λ (a : Add). Exists a.0) (call_adds c) (adds_of calls)
      (record_adds-AllExist c.outcome c.size c.elapsed) (adds_of-AllExist calls)

tally-length : (calls : List Call) → tally (λ c. 1) calls ≡ length calls
tally-length [] = refl
tally-length (c ∷ calls) = omega (arith, tally-length calls)

-- the counters determine the report
pub Counts-intro :
    (calls : List Call) (m : Metrics)
    → ((k : Counter) → read k m ≡ total k (adds_of calls) % u64_mod)
    → Counts calls m
unfolding read
Counts-intro calls m h = record {
  requests_are =
      h Counter.requests
      ∙ ap (λ t. t % u64_mod) (total-adds_of Counter.requests calls ∙ tally-length calls);
  hits_are = by Counter.hits;
  misses_are = by Counter.misses;
  defaults_are = by Counter.defaults;
  bytes_are = by Counter.bytes;
  timed_are = by Counter.timed;
  nanos_are = by Counter.sum_nanos;
  buckets_are = λ i. by (Counter.bucket i);
}
  where
    by : (k : Counter) → read k m ≡ tally (share k) calls % u64_mod
    by k = h k ∙ ap (λ t. t % u64_mod) (total-adds_of k calls)

-- one call after the other
unfoldable pub run_calls : List Call → Metrics → Metrics
run_calls [] m = m
run_calls (c ∷ calls) m = run_calls calls (record_call c.outcome c.size c.elapsed m)

run_adds-append :
    (xs ys : List Add) (m : Metrics) → run_adds (xs ++ ys) m ≡ run_adds ys (run_adds xs m)
unfolding run_adds
run_adds-append [] ys m = refl
run_adds-append ((c, n) ∷ xs) ys m = run_adds-append xs ys (fetch_add c n m)

run_calls-adds_of :
    (calls : List Call) (m : Metrics) → run_calls calls m ≡ run_adds (adds_of calls) m
unfolding run_calls adds_of record_call
run_calls-adds_of [] m = unfold run_adds in refl
run_calls-adds_of (c ∷ calls) m =
    run_calls-adds_of calls (record_call c.outcome c.size c.elapsed m)
    ∙ sym (run_adds-append (call_adds c) (adds_of calls) m)

pub run_calls-append :
    (xs ys : List Call) (m : Metrics) → run_calls (xs ++ ys) m ≡ run_calls ys (run_calls xs m)
unfolding run_calls
run_calls-append [] ys m = refl
run_calls-append (c ∷ xs) ys m = run_calls-append xs ys _

-- After any calls of `record` on fresh `Metrics`, one after the other, the counters count them.
pub run_calls-Counts : (calls : List Call) → Counts calls (run_calls calls new)
run_calls-Counts calls = Counts-intro calls (run_calls calls new) λ k.
    ap (read k) (run_calls-adds_of calls new)
    ∙ (run_adds-read (adds_of calls) new k new-IsValid (adds_of-AllExist calls)).1
    ∙ omega (arith, read-new k)
