-- ===== src/Metrics/Scrape.antt =====
-- `render` of src/metrics.rs while `record` runs: it loads one atomic after the other, and the
-- additions of other threads go on between its loads. Its text is `render` of what it has seen.
pub mod Loads
pub mod Brackets
pub mod Typed
use justkv.Common.{ℕ, List, [], ◌∷◌, set}
use justkv.Metrics.{Metrics, Counter, new}
use justkv.Metrics.Totals.{read}
use justkv.Metrics.Threads.{Running, advance}

-- the loads of `render`, in program order
abbrev pub load_order : List Counter
load_order =
    Counter.requests
    ∷ Counter.hits
    ∷ Counter.misses
    ∷ Counter.defaults
    ∷ Counter.bytes
    ∷ Counter.bucket 0
    ∷ Counter.bucket 1
    ∷ Counter.bucket 2
    ∷ Counter.bucket 3
    ∷ Counter.bucket 4
    ∷ Counter.bucket 5
    ∷ Counter.bucket 6
    ∷ Counter.bucket 7
    ∷ Counter.bucket 8
    ∷ Counter.bucket 9
    ∷ Counter.bucket 10
    ∷ Counter.bucket 11
    ∷ Counter.bucket 12
    ∷ Counter.sum_nanos
    ∷ Counter.timed
    ∷ []

unfoldable pub put : Counter → ℕ → Metrics → Metrics
put Counter.requests n m = record m { requests = n }
put Counter.hits n m = record m { hits = n }
put Counter.misses n m = record m { misses = n }
put Counter.defaults n m = record m { defaults = n }
put Counter.bytes n m = record m { bytes = n }
put Counter.sum_nanos n m = record m { sum_nanos = n }
put Counter.timed n m = record m { timed = n }
put (Counter.bucket i) n m = record m { buckets = set m.buckets i n }

-- the threads that record, the loads still to make, and the values that were loaded
pub record Scraping : Type 0 where
  pub running : Running
  pub left : List Counter
  pub seen : Metrics

-- whose turn it is: a thread that records, or the one that renders
pub data Turn : Type 0 where
  recording : ℕ → Turn
  loading : Turn

unfoldable pub load_next : List Counter → Running → Metrics → Scraping
unfolding put
load_next [] r seen = record { running = r; left = []; seen = seen }
load_next (c ∷ cs) r seen = record { running = r; left = cs; seen = put c (read c r.metrics) seen }

unfoldable pub take_turn : Turn → Scraping → Scraping
unfolding load_next
take_turn (recording i) s = record s { running = advance i s.running.metrics s.running.threads }
take_turn loading s = load_next s.left s.running s.seen

unfoldable pub run_turns : List Turn → Scraping → Scraping
unfolding take_turn
run_turns [] s = s
run_turns (t ∷ turns) s = run_turns turns (take_turn t s)

-- A scrape that has loaded nothing. What it has seen has a place for each atomic.
abbrev pub start_scrape : Running → Scraping
start_scrape r = record { running = r; left = load_order; seen = new }
