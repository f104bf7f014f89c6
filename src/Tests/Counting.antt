-- ===== src/Tests/Counting.antt =====
-- Metrics of a few calls.
use justkv.Common.{
  ℕ, zero, suc, ap, arith, All, ◌≡◌, ◌<◌, ◌≤◌, u64_mod, refl, none, some, List, [], ◌∷◌, ◌++◌,
  Bytes, get_elem?, length, min, ◌^◌,
}
use justkv.Metrics.{hit, default, bucket_index, record_adds, new}
use justkv.Metrics.Calls.{Call, call_adds, adds_of, Counts, run_calls, run_calls-Counts}
use justkv.Metrics.{Counter}
use justkv.Metrics.Totals.{read, total}
use justkv.Metrics.Scrape.{Turn, recording, loading, start_scrape, run_turns}
use justkv.Metrics.Scrape.Typed.{AreTyped, run_turns-AreTyped}
use justkv.Metrics.Scrape.Brackets.{begin, scrapes-grow}
use justkv.Metrics.Progress.{IsFair, run_schedule-finishes}
use justkv.Metrics.Threads.{
  IsDone, start_threads, all_calls, advance, run_schedule, run_schedule-Counts,
}
use justkv.Metrics.Render.{render, counters, gauges}
use justkv.Metrics.Render.Histogram.{histogram_of, summary, render-histogram_of}
use justkv.Server.Listener.{Accepts, accepted, failed, accept, accept-backoff}

abbrev a_hit : Call
a_hit = record { outcome = hit; size = 10; elapsed = some 30_000 }

abbrev a_default : Call
a_default = record { outcome = default; size = 3; elapsed = none }

abbrev threads : List (List Call)
threads = (a_hit ∷ []) ∷ (a_default ∷ []) ∷ []

-- the threads take turns for a while
abbrev schedule : List ℕ
schedule = 1 ∷ 0 ∷ 1 ∷ 0 ∷ 0 ∷ 1 ∷ 0 ∷ 1 ∷ 0 ∷ 0 ∷ []

run_schedule-Counts_example :
    Counts
      (all_calls threads)
      (run_schedule schedule (record { metrics = new; threads = start_threads threads })).metrics
run_schedule-Counts_example =
    run_schedule-Counts threads schedule
      (unfold run_schedule advance adds_of call_adds record_adds bucket_index in (refl, (refl, tt)))

-- decimal digits do not matter here
abbrev unary : ℕ → Bytes
unary n = n ∷ []

render-histogram_of_example :
    render unary unary (run_calls (a_hit ∷ a_default ∷ []) new) 2 16 5
    ≡ histogram_of unary unary
        (a_hit ∷ a_default ∷ [])
        (summary (a_hit ∷ a_default ∷ [])).sum_nanos
        (counters unary unary (summary (a_hit ∷ a_default ∷ [])))
      ++ gauges unary unary 2 16 5
render-histogram_of_example =
    render-histogram_of unary unary (a_hit ∷ a_default ∷ [])
      (run_calls (a_hit ∷ a_default ∷ []) new) 2 16 5 (run_calls-Counts (a_hit ∷ a_default ∷ []))

abbrev two_errors : Accepts ℕ
two_errors = failed (failed (accepted 7))

accept-backoff_example :
    ((accept (λ s. s) two_errors).0 ≡ 7)
    × (length (accept (λ s. s) two_errors).1 ≡ 2)
    × ((i : ℕ) → i < 2 → get_elem? (accept (λ s. s) two_errors).1 i ≡ some (min (2 ^ i) 256))
accept-backoff_example = accept-backoff (λ s. s) two_errors

abbrev turns : List ℕ
turns = 1 ∷ 0 ∷ 1 ∷ 0 ∷ 0 ∷ 1 ∷ 0 ∷ 1 ∷ 0 ∷ 0 ∷ 1 ∷ 0 ∷ 1 ∷ 1 ∷ 0 ∷ 1 ∷ []

turns-IsFair : IsFair threads turns
turns-IsFair zero cs h = let is : a_hit ∷ [] ≡ cs = cc in omega (arith, ap length is)
turns-IsFair (suc zero) cs h = let is : a_default ∷ [] ≡ cs = cc in omega (arith, ap length is)
turns-IsFair (suc (suc j)) cs h = absurd (cc)

run_schedule-finishes_example :
    All IsDone
      (run_schedule turns (record { metrics = new; threads = start_threads threads })).threads
    × Counts
        (all_calls threads)
        (run_schedule turns (record { metrics = new; threads = start_threads threads })).metrics
run_schedule-finishes_example = run_schedule-finishes threads turns turns-IsFair

few_bytes : total Counter.bytes (adds_of (all_calls threads)) < u64_mod
unfolding total adds_of call_adds record_adds
few_bytes = omega arith

-- seven loads, an addition, and so on until all twenty are made
abbrev loads : ℕ → List Turn → List Turn
loads zero turns = turns
loads (suc n) turns = loading ∷ loads n turns

abbrev first_scrape : List Turn
first_scrape = loads 7 (recording 0 ∷ loads 7 (recording 1 ∷ loads 6 []))

abbrev second_scrape : List Turn
second_scrape = recording 0 ∷ loads 19 (recording 1 ∷ loads 1 [])

scrapes-grow_example :
    let r = run_schedule schedule (begin threads Counter.bytes tt few_bytes) in
    let a = run_turns first_scrape (start_scrape r) in
    let b = run_turns second_scrape (start_scrape a.running) in
    (read Counter.bytes r.metrics ≤ read Counter.bytes a.seen)
    × (read Counter.bytes a.seen ≤ read Counter.bytes b.seen)
    × (read Counter.bytes b.seen ≤ read Counter.bytes b.running.metrics)
scrapes-grow_example =
    scrapes-grow threads Counter.bytes tt few_bytes schedule first_scrape second_scrape
      (unfold run_turns in refl) (unfold run_turns in refl)

run_turns-AreTyped_example : AreTyped (
    run_turns first_scrape
      (start_scrape (record { metrics = new; threads = start_threads threads })))
run_turns-AreTyped_example = run_turns-AreTyped threads first_scrape
