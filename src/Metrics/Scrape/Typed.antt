-- ===== src/Metrics/Scrape/Typed.antt =====
-- What threads that record and one that renders hold at every moment.
use justkv.Common.{◌∙◌, inl, inr, Bool-cases, List, [], ◌∷◌, All, arith}
use justkv.Metrics.{Metrics, Counter, new}
use justkv.Metrics.Totals.{read, same, Exists, IsValid, AllExist, new-IsValid}
use justkv.Metrics.Calls.{Call}
use justkv.Metrics.Threads.{Running, advance-pending, start_threads, start_threads-AllExist}
use justkv.Metrics.Scrape.{
  put, Scraping, Turn, recording, loading, load_next, take_turn, run_turns, start_scrape,
}
use justkv.Metrics.Scrape.Loads.{read-put_self, read-put_ne, put-shape}

pub put-IsValid :
    (c : Counter) (m seen : Metrics)
    → IsValid m
    → IsValid seen
    → Exists c
    → IsValid (put c (read c m) seen)
put-IsValid c m seen v w e = record {
  shape = put-shape c (read c m) seen ∙ w.shape;
  below = λ k. elim (Bool-cases (same k c)) [
    | inl eq ↦ omega (arith, read-put_self k c (read c m) seen w.shape e eq, v.below c)
    | inr ne ↦ omega (arith, read-put_ne k c (read c m) seen ne, w.below k)
  ];
}

-- the counters and what has been loaded are `u64`s, one for each atomic, and all that is still to
-- be added or loaded is of an atomic that exists
pub record AreTyped (s : Scraping) : Type 0 where
  pub counters : IsValid s.running.metrics
  pub loaded : IsValid s.seen
  pub added_exist : All AllExist s.running.threads
  pub left_exist : All Exists s.left

load_next-AreTyped :
    (cs : List Counter) (r : Running) (seen : Metrics)
    → IsValid r.metrics
    → IsValid seen
    → All AllExist r.threads
    → All Exists cs
    → AreTyped (load_next cs r seen)
unfolding load_next
load_next-AreTyped [] r seen v w a e = record {
  counters = v;
  loaded = w;
  added_exist = a;
  left_exist = tt;
}
load_next-AreTyped (c ∷ cs) r seen v w a (e, es) = record {
  counters = v;
  loaded = put-IsValid c r.metrics seen v w e;
  added_exist = a;
  left_exist = es;
}

take_turn-AreTyped : (t : Turn) (s : Scraping) → AreTyped s → AreTyped (take_turn t s)
unfolding take_turn
take_turn-AreTyped (recording i) s h =
    let (v, a, _) =
      advance-pending Counter.requests i s.running.metrics s.running.threads h.counters
        h.added_exist in
    record { counters = v; loaded = h.loaded; added_exist = a; left_exist = h.left_exist }
take_turn-AreTyped loading s h =
    load_next-AreTyped s.left s.running s.seen h.counters h.loaded h.added_exist h.left_exist

run_turns-keep : (turns : List Turn) (s : Scraping) → AreTyped s → AreTyped (run_turns turns s)
unfolding run_turns
run_turns-keep [] s h = h
run_turns-keep (t ∷ turns) s h = run_turns-keep turns (take_turn t s) (take_turn-AreTyped t s h)

-- At every moment of any interleaving of threads that record with one that renders, finished or
-- not, each counter of `Metrics` is a `u64`, and so is each value that was loaded; there are 13
-- buckets; and every addition and every load that is still to come is of an atomic that exists, so
-- that no index of a bucket is out of range.
pub run_turns-AreTyped :
    (calls : List (List Call)) (turns : List Turn)
    → AreTyped
        (run_turns turns (start_scrape (record { metrics = new; threads = start_threads calls })))
run_turns-AreTyped calls turns = run_turns-keep turns _ (record {
  counters = new-IsValid;
  loaded = new-IsValid;
  added_exist = start_threads-AllExist calls;
  left_exist = omega arith;
})
