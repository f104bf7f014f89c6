-- ===== src/Metrics/Render.antt =====
-- `Metrics::render` of src/metrics.rs: the Prometheus text, as bytes. How a `u64` and an `f64` are
-- written is a parameter.
pub mod Histogram
use justkv.Common.{
  ℕ, zero, suc, ◌+◌, ◌%◌, List, [], ◌∷◌, ◌++◌, Bytes, codes, length, get_or, u64_mod,
}
use justkv.Metrics.{Metrics, bounds}

abbrev pub newline : Bytes
newline = 10 ∷ []

-- `show_u64` writes a `u64`; `show_seconds` writes the `f64` of this many nanoseconds in seconds.
module _ (show_u64 show_seconds : ℕ → Bytes) where
  -- the closures `counter` and `gauge`, by their kind
  unfoldable pub metric : Bytes → Bytes → Bytes → ℕ → Bytes
  metric kind name help v =
      codes "# HELP "
      ++ name
      ++ codes " "
      ++ help
      ++ newline
      ++ codes "# TYPE "
      ++ name
      ++ codes " "
      ++ kind
      ++ newline
      ++ name
      ++ codes " "
      ++ show_u64 v
      ++ newline

  unfoldable pub bucket_line : Bytes → ℕ → Bytes
  bucket_line label n =
      codes "justkv_request_duration_seconds_bucket{le=\""
      ++ label
      ++ codes "\"} "
      ++ show_u64 n
      ++ newline

  -- `for (i, b) in BUCKETS.iter().enumerate()`, with the text so far and `cumulative`
  unfoldable pub bucket_lines : Metrics → ℕ → List ℕ → Bytes → ℕ → Bytes × ℕ
  bucket_lines m i [] o cumulative = (o, cumulative)
  bucket_lines m i (b ∷ bs) o cumulative =
      let cumulative' = (cumulative + get_or m.buckets i 0) % u64_mod in
      bucket_lines m (suc i) bs (o ++ bucket_line (show_seconds b) cumulative') cumulative'

  unfoldable pub histogram : Metrics → Bytes → Bytes
  histogram m o =
      let (lines, cumulative) =
        bucket_lines m 0 bounds
          (o
            ++ codes "# HELP justkv_request_duration_seconds Lookup handling latency."
            ++ newline
            ++ codes "# TYPE justkv_request_duration_seconds histogram"
            ++ newline)
          0 in
      let all = (cumulative + get_or m.buckets (length bounds) 0) % u64_mod in
      lines
      ++ bucket_line (codes "+Inf") all
      ++ codes "justkv_request_duration_seconds_sum "
      ++ show_seconds m.sum_nanos
      ++ newline
      ++ codes "justkv_request_duration_seconds_count "
      ++ show_u64 m.timed
      ++ newline

  unfoldable pub counters : Metrics → Bytes
  counters m =
      metric (codes "counter") (codes "justkv_requests_total") (codes "Total key lookups served.")
        m.requests
      ++ metric (codes "counter") (codes "justkv_hits_total") (codes "Lookups that found a key.")
          m.hits
      ++ metric (codes "counter") (codes "justkv_misses_total")
          (codes "Lookups with no matching key, including those served a default.") m.misses
      ++ metric (codes "counter") (codes "justkv_defaults_served_total")
          (codes "Misses answered with the configured default value.") m.defaults
      ++ metric (codes "counter") (codes "justkv_response_bytes_total")
          (codes "Value bytes written to clients.") m.bytes

  unfoldable pub gauges : ℕ → ℕ → ℕ → Bytes
  gauges keys arena_bytes uptime_seconds =
      metric (codes "gauge") (codes "justkv_keys") (codes "Keys loaded.") keys
      ++ metric (codes "gauge") (codes "justkv_arena_bytes")
          (codes "Bytes of key and value data held in memory.") arena_bytes
      ++ metric (codes "gauge") (codes "justkv_uptime_seconds")
          (codes "Seconds since the server finished loading.") uptime_seconds

  -- `render`; the last argument is `uptime.as_secs()`
  unfoldable pub render : Metrics → ℕ → ℕ → ℕ → Bytes
  render m keys arena_bytes uptime_seconds =
      histogram m (counters m) ++ gauges keys arena_bytes uptime_seconds
