-- ===== src/Metrics/Render/Histogram.antt =====
-- The histogram that is rendered is the cumulative histogram of the timed calls.
use justkv.Common.{
  ℕ, suc, ◌+◌, ◌%◌, ◌≤◌, ◌≡◌, refl, sym, ap, ◌∙◌, Option, none, some, List, [], ◌∷◌, ◌++◌,
  append_assoc, append-nil, Bytes, codes, length, length-append, All, All-append, get_or, arith,
  leb, ltb, if◌then◌else◌, u64_mod,
}
use justkv.Metrics.{Metrics, bucket_index, bounds}
use justkv.Metrics.Totals.{read}
use justkv.Metrics.Calls.{
  Call, tally, Counts, in_bucket, timed_count, hit_count, miss_count, default_count, nanos,
  bucket_index-le,
}
use justkv.Metrics.Render.{bucket_line, bucket_lines, histogram, newline, render, counters, gauges}

-- a timed call that took at most `b`
abbrev pub at_most : ℕ → Option ℕ → ℕ
at_most b none = 0
at_most b (some d) = if leb d b then 1 else 0

-- a timed call in one of the first `i` buckets
abbrev before : ℕ → Option ℕ → ℕ
before i none = 0
before i (some d) = if ltb (bucket_index d bounds) i then 1 else 0

before-suc : (i : ℕ) (e : Option ℕ) → before (suc i) e ≡ before i e + in_bucket i e
before-suc i none = omega arith
before-suc i (some d) = ground arith

tally-add :
    (f g k : Call → ℕ) (calls : List Call)
    → ((c : Call) → k c ≡ f c + g c)
    → tally k calls ≡ tally f calls + tally g calls
tally-add f g k [] h = omega arith
tally-add f g k (c ∷ calls) h = omega (arith, h c, tally-add f g k calls h)

tally-congr :
    (f g : Call → ℕ) (calls : List Call) → ((c : Call) → f c ≡ g c) → tally f calls ≡ tally g calls
tally-congr f g [] h = refl
tally-congr f g (c ∷ calls) h = omega (arith, h c, tally-congr f g calls h)

before-zero : (e : Option ℕ) → before 0 e ≡ 0
before-zero none = refl
before-zero (some d) = ground arith

tally-before-zero : (calls : List Call) → tally (λ c. before 0 c.elapsed) calls ≡ 0
tally-before-zero [] = refl
tally-before-zero (c ∷ calls) = omega (arith, before-zero c.elapsed, tally-before-zero calls)

-- at the end all timed calls are in
before-all : (e : Option ℕ) → before 13 e ≡ timed_count e
before-all none = refl
before-all (some d) = ground (arith, bucket_index-le d bounds)

-- The bounds ascend, so the bucket of `d` is one of those up to `b` exactly if `d` is at most `b`.
bucket_index-test :
    (d b : ℕ) (pre bs : List ℕ)
    → All (λ p. p ≤ b) pre
    → ltb (bucket_index d (pre ++ b ∷ bs)) (suc (length pre)) ≡ leb d b
unfolding bucket_index
bucket_index-test d b [] bs h = ground arith
bucket_index-test d b (p ∷ pre) bs (le, h) = ground (arith, bucket_index-test d b pre bs h)

abbrev Ascending : List ℕ → Type 0
Ascending [] = Unit
Ascending (b ∷ bs) = All (λ c. b ≤ c) bs × Ascending bs

-- `pre` is what the loop has passed
abbrev Behind : List ℕ → List ℕ → Type 0
Behind pre bs = All (λ p. All (λ b. p ≤ b) bs) pre

Behind-first : (pre : List ℕ) (b : ℕ) (bs : List ℕ) → Behind pre (b ∷ bs) → All (λ p. p ≤ b) pre
Behind-first [] b bs h = tt
Behind-first (p ∷ pre) b bs ((le, les), h) = (le, Behind-first pre b bs h)

Behind-rest : (pre : List ℕ) (b : ℕ) (bs : List ℕ) → Behind pre (b ∷ bs) → Behind pre bs
Behind-rest [] b bs h = tt
Behind-rest (p ∷ pre) b bs ((le, les), h) = (les, Behind-rest pre b bs h)

before-at_most :
    (b : ℕ) (pre bs : List ℕ) (e : Option ℕ)
    → bounds ≡ pre ++ b ∷ bs
    → All (λ p. p ≤ b) pre
    → before (suc (length pre)) e ≡ at_most b e
before-at_most b pre bs none split h = refl
before-at_most b pre bs (some d) split h = rw (split, bucket_index-test d b pre bs h)

module _ (show_u64 show_seconds : ℕ → Bytes) (calls : List Call) where
  -- the line of a bound: the number of timed calls that took at most that long
  abbrev pub count_line : ℕ → Bytes
  count_line b =
      bucket_line show_u64 show_seconds (show_seconds b)
        (tally (λ c. at_most b c.elapsed) calls % u64_mod)

  abbrev pub count_lines : List ℕ → Bytes → Bytes
  count_lines [] o = o
  count_lines (b ∷ bs) o = count_lines bs (o ++ count_line b)

  abbrev so_far : ℕ → ℕ
  so_far i = tally (λ c. before i c.elapsed) calls % u64_mod

  -- the text of the histogram, from the calls alone
  abbrev pub histogram_of : ℕ → Bytes → Bytes
  histogram_of nanos o =
      count_lines bounds (
        o
        ++ codes "# HELP justkv_request_duration_seconds Lookup handling latency."
        ++ newline
        ++ codes "# TYPE justkv_request_duration_seconds histogram"
        ++ newline)
      ++ bucket_line show_u64 show_seconds (codes "+Inf")
          (tally (λ c. timed_count c.elapsed) calls % u64_mod)
      ++ codes "justkv_request_duration_seconds_sum "
      ++ show_seconds nanos
      ++ newline
      ++ codes "justkv_request_duration_seconds_count "
      ++ show_u64 (tally (λ c. timed_count c.elapsed) calls % u64_mod)
      ++ newline

  module _ (m : Metrics) (counts : Counts calls m) where
    next_count : (i : ℕ) → (so_far i + get_or m.buckets i 0) % u64_mod ≡ so_far (suc i)
    unfolding read
    next_count i =
        let step =
          tally-add (λ c. before i c.elapsed) (λ c. in_bucket i c.elapsed)
            (λ c. before (suc i) c.elapsed) calls (λ c. before-suc i c.elapsed) in
        omega (arith, step, counts.buckets_are i)

    bucket_lines-count_lines :
        (pre bs : List ℕ) (o : Bytes)
        → bounds ≡ pre ++ bs
        → Behind pre bs
        → Ascending bs
        → bucket_lines show_u64 show_seconds m (length pre) bs o (so_far (length pre))
          ≡ (count_lines bs o, so_far (length (pre ++ bs)))
    unfolding bucket_lines
    bucket_lines-count_lines pre [] o split behind up =
        ap (λ (l : List ℕ). (o, so_far (length l))) (sym (append-nil pre))
    bucket_lines-count_lines pre (b ∷ bs) o split behind (low, up) =
        let pre' = pre ++ b ∷ [] in
        let longer : length pre' ≡ suc (length pre) = omega (arith, length-append pre (b ∷ [])) in
        let regroup : pre' ++ bs ≡ pre ++ b ∷ bs = append_assoc pre (b ∷ []) bs in
        let passed : Behind pre' bs =
          All-append (λ p. All (λ c. p ≤ c) bs) pre (b ∷ []) (Behind-rest pre b bs behind)
            (low, tt) in
        let within : so_far (suc (length pre)) ≡ tally (λ c. at_most b c.elapsed) calls % u64_mod =
          ap (λ t. t % u64_mod)
            (tally-congr _ _ calls
              λ c. before-at_most b pre bs c.elapsed split (Behind-first pre b bs behind)) in
        let o' = o ++ count_line b in
        let later = bucket_lines-count_lines pre' bs o' (split ∙ sym regroup) passed up in
        let step : bucket_lines show_u64 show_seconds m (suc (length pre)) bs o'
              (so_far (suc (length pre)))
            ≡ (count_lines bs o', so_far (length (pre ++ b ∷ bs))) =
          rw (longer, regroup) at later in
        rw (next_count (length pre)) (
          ap
            (λ n.
              bucket_lines show_u64 show_seconds m (suc (length pre)) bs
                (o ++ bucket_line show_u64 show_seconds (show_seconds b) n)
                (so_far (suc (length pre))))
            within
          ∙ step)

    bounds-Ascending : Ascending bounds
    bounds-Ascending = omega arith

    all_timed : so_far 13 ≡ tally (λ c. timed_count c.elapsed) calls % u64_mod
    all_timed = ap (λ t. t % u64_mod) (tally-congr _ _ calls (λ c. before-all c.elapsed))

    histogram-histogram_of :
        (o : Bytes) → histogram show_u64 show_seconds m o ≡ histogram_of m.sum_nanos o
    unfolding histogram
    histogram-histogram_of o =
        let start =
          o
          ++ codes "# HELP justkv_request_duration_seconds Lookup handling latency."
          ++ newline
          ++ codes "# TYPE justkv_request_duration_seconds histogram"
          ++ newline in
        let zero_so_far : so_far 0 ≡ 0 = omega (arith, tally-before-zero calls) in
        let loop : bucket_lines show_u64 show_seconds m 0 bounds start 0
            ≡ (count_lines bounds start, so_far 12) =
          ap (λ n. bucket_lines show_u64 show_seconds m 0 bounds start n) (sym zero_so_far)
          ∙ bucket_lines-count_lines [] bounds start refl tt bounds-Ascending in
        rw (loop) (rw (next_count 12, all_timed, counts.timed_are))

-- what the counters come to, from the calls alone (the buckets are left out)
abbrev pub summary : List Call → Metrics
summary calls = record {
  requests = length calls % u64_mod;
  hits = tally (λ c. hit_count c.outcome) calls % u64_mod;
  misses = tally (λ c. miss_count c.outcome) calls % u64_mod;
  defaults = tally (λ c. default_count c.outcome) calls % u64_mod;
  bytes = tally (λ c. c.size) calls % u64_mod;
  buckets = [];
  sum_nanos = tally (λ c. nanos c.elapsed) calls % u64_mod;
  timed = tally (λ c. timed_count c.elapsed) calls % u64_mod;
}

-- The text that `render` gives for counters that count some calls is fixed by those calls: the five
-- counters with their totals; for each bucket bound, in order, the number of timed calls that took
-- at most that long; `+Inf` and the count both with the number of all timed calls; the sum; and the
-- three gauges. All totals are modulo 2 ^ 64.
pub render-histogram_of :
    (show_u64 show_seconds : ℕ → Bytes) (calls : List Call) (m : Metrics) (keys arena uptime : ℕ)
    → Counts calls m
    → render show_u64 show_seconds m keys arena uptime
      ≡ histogram_of show_u64 show_seconds calls
          (summary calls).sum_nanos
          (counters show_u64 show_seconds (summary calls))
        ++ gauges show_u64 show_seconds keys arena uptime
unfolding render counters
render-histogram_of show_u64 show_seconds calls m keys arena uptime counts =
    rw
      (histogram-histogram_of show_u64 show_seconds calls m counts
        (counters show_u64 show_seconds m))
      (rw (
        counts.requests_are, counts.hits_are, counts.misses_are, counts.defaults_are,
        counts.bytes_are, counts.nanos_are,
      ))
