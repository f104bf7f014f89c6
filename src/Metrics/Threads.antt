-- ===== src/Metrics/Threads.antt =====
-- Calls of `record` from several threads. All orderings are `Relaxed`, so the additions of all
-- threads interleave in any way; each addition is atomic.
use justkv.Common.{
  ℕ, zero, suc, ◌+◌, ◌%◌, ◌≡◌, refl, ap, ◌∙◌, List, [], ◌∷◌, ◌++◌, All, arith, u64_mod,
}
use justkv.Metrics.{Metrics, Counter, fetch_add, new}
use justkv.Metrics.Totals.{
  Add, read, IsValid, AllExist, total, total-append, fetch_add-IsValid, read-fetch_add-total,
  read-new, new-IsValid,
}
use justkv.Metrics.Calls.{
  Call, adds_of, adds_of-AllExist, Counts, Counts-intro, total-adds_of-append,
}

-- the shared counters, and the additions that each thread has still to make
pub record Running : Type 0 where
  pub metrics : Metrics
  pub threads : List (List Add)

-- `i` takes its next addition; a thread that is done, or is not there, does nothing
unfoldable pub advance : ℕ → Metrics → List (List Add) → Running
advance i m [] = record { metrics = m; threads = [] }
advance zero m ([] ∷ ts) = record { metrics = m; threads = [] ∷ ts }
advance zero m ((a ∷ as') ∷ ts) = record { metrics = fetch_add a.0 a.1 m; threads = as' ∷ ts }
advance (suc i) m (t ∷ ts) =
    let r = advance i m ts in record { metrics = r.metrics; threads = t ∷ r.threads }

-- a schedule names the thread that moves at each step
unfoldable pub run_schedule : List ℕ → Running → Running
run_schedule [] r = r
run_schedule (i ∷ schedule) r = run_schedule schedule (advance i r.metrics r.threads)

-- each thread makes its calls one after the other
abbrev pub start_threads : List (List Call) → List (List Add)
start_threads [] = []
start_threads (calls ∷ rest) = adds_of calls ∷ start_threads rest

abbrev pub all_calls : List (List Call) → List Call
all_calls [] = []
all_calls (calls ∷ rest) = calls ++ all_calls rest

abbrev pub IsDone : List Add → Type 0
IsDone t = t ≡ []

unfoldable pub pending : Counter → List (List Add) → ℕ
pending k [] = 0
pending k (t ∷ ts) = total k t + pending k ts

-- what is in a counter together with what is on its way to it
module _ (k : Counter) where
  pub advance-pending :
      (i : ℕ) (m : Metrics) (ts : List (List Add))
      → IsValid m
      → All AllExist ts
      → let r = advance i m ts in
        IsValid r.metrics
        × All AllExist r.threads
        × ((read k r.metrics + pending k r.threads) % u64_mod ≡ (read k m + pending k ts) % u64_mod)
  unfolding advance pending
  advance-pending i m [] v e = (v, e, refl)
  advance-pending zero m ([] ∷ ts) v e = (v, e, refl)
  advance-pending zero m ((a ∷ as') ∷ ts) v ((e, es), rest) = (
    fetch_add-IsValid a.0 a.1 m v e,
    (es, rest),
    omega (
      arith,
      total-append k (a ∷ []) as',
      read-fetch_add-total k a (total k as' + pending k ts) m v e,
    ),
  )
  advance-pending (suc i) m (t ∷ ts) v (e, es) =
      let (w, f, eq) = advance-pending i m ts v es in (w, (e, f), omega (arith, eq))

  pub run_schedule-pending :
      (schedule : List ℕ) (r : Running)
      → IsValid r.metrics
      → All AllExist r.threads
      → let s = run_schedule schedule r in
        (read k s.metrics + pending k s.threads) % u64_mod
        ≡ (read k r.metrics + pending k r.threads) % u64_mod
  unfolding run_schedule
  run_schedule-pending [] r v e = refl
  run_schedule-pending (i ∷ schedule) r v e =
      let (w, f, eq) = advance-pending i r.metrics r.threads v e in
      run_schedule-pending schedule (advance i r.metrics r.threads) w f ∙ eq

  pending-done : (ts : List (List Add)) → All IsDone ts → pending k ts ≡ 0
  unfolding pending total
  pending-done [] d = refl
  pending-done (t ∷ ts) (e, d) = omega (arith, pending-done ts d, ap (total k) e)

  pub pending-start :
      (calls : List (List Call))
      → pending k (start_threads calls) ≡ total k (adds_of (all_calls calls))
  unfolding pending
  pending-start [] = unfold adds_of total in refl
  pending-start (c ∷ rest) =
      omega (arith, total-adds_of-append k c (all_calls rest), pending-start rest)

pub run_schedule-IsValid :
    (schedule : List ℕ) (r : Running)
    → IsValid r.metrics
    → All AllExist r.threads
    → IsValid (run_schedule schedule r).metrics
unfolding run_schedule
run_schedule-IsValid [] r v e = v
run_schedule-IsValid (i ∷ schedule) r v e =
    let (w, f, eq) = advance-pending Counter.requests i r.metrics r.threads v e in
    run_schedule-IsValid schedule (advance i r.metrics r.threads) w f

pub start_threads-AllExist : (calls : List (List Call)) → All AllExist (start_threads calls)
start_threads-AllExist [] = tt
start_threads-AllExist (c ∷ rest) = (adds_of-AllExist c, start_threads-AllExist rest)

-- However the atomic additions of concurrent `record` calls interleave, once every thread has made
-- all of its additions to fresh `Metrics`, the counters count all the calls of all threads:
-- requests, hits, misses (defaults among them), defaults, bytes, timed calls, nanoseconds and each
-- bucket, modulo 2 ^ 64.
pub run_schedule-Counts :
    (calls : List (List Call)) (schedule : List ℕ)
    → let r = run_schedule schedule (record { metrics = new; threads = start_threads calls }) in
      All IsDone r.threads → Counts (all_calls calls) r.metrics
run_schedule-Counts calls schedule done =
    let begin : Running = record { metrics = new; threads = start_threads calls } in
    let r = run_schedule schedule begin in
    Counts-intro (all_calls calls) r.metrics λ k. omega (
      arith,
      run_schedule-pending k schedule begin new-IsValid (start_threads-AllExist calls),
      pending-done k r.threads done,
      pending-start k calls,
      read-new k,
      (run_schedule-IsValid schedule begin new-IsValid (start_threads-AllExist calls)).below k,
    )
