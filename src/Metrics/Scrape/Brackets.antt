-- ===== src/Metrics/Scrape/Brackets.antt =====
-- What a scrape sees lies between what was there when it began and when it ended.
use justkv.Common.{
  ℕ, zero, suc, ◌+◌, ◌≤◌, ◌<◌, ◌≡◌, ◌⊎◌, inl, inr, refl, ◌∙◌, List, [], ◌∷◌, length, All,
  Bool-cases, arith, u64_mod,
}
use justkv.Metrics.{Metrics, Counter, new}
use justkv.Metrics.Totals.{
  Add, read, same, Exists, IsValid, AllExist, total, total-append, fetch_add-IsValid,
  read-fetch_add-total, read-new, new-IsValid,
}
use justkv.Metrics.Calls.{Call, adds_of}
use justkv.Metrics.Threads.{
  Running, advance, run_schedule, start_threads, all_calls, pending, advance-pending, pending-start,
  start_threads-AllExist,
}
use justkv.Metrics.Scrape.{
  put, Scraping, Turn, recording, loading, load_next, take_turn, run_turns, start_scrape,
}
use justkv.Metrics.Scrape.Loads.{
  read-put_self, read-put_ne, put-shape, read-same, Among, Among-load_order,
}

module _ (k : Counter) where
  -- an addition that does not wrap only adds
  advance-grows :
      (i : ℕ) (m : Metrics) (ts : List (List Add))
      → IsValid m
      → All AllExist ts
      → read k m + pending k ts < u64_mod
      → let r = advance i m ts in
        (read k m ≤ read k r.metrics)
        × (read k r.metrics + pending k r.threads ≡ read k m + pending k ts)
  unfolding advance pending
  advance-grows i m [] v e fits = (omega arith, refl)
  advance-grows zero m ([] ∷ ts) v e fits = (omega arith, refl)
  advance-grows zero m ((a ∷ as') ∷ ts) v ((e, es), rest) fits =
      let now = read-fetch_add-total k a 0 m v e in
      let split = total-append k (a ∷ []) as' in
      let small = (fetch_add-IsValid a.0 a.1 m v e).below k in
      (omega (arith, now, split, small), omega (arith, now, split, small))
  advance-grows (suc i) m (t ∷ ts) v (e, es) fits =
      let (grows, kept) = advance-grows i m ts v es (omega arith) in (grows, omega (arith, kept))

  -- how far a scrape is, for one counter that was at `lo` when it began
  record Within (lo : ℕ) (s : Scraping) : Type 0 where
    valid : IsValid s.running.metrics
    exist : All AllExist s.running.threads
    fits : read k s.running.metrics + pending k s.running.threads < u64_mod
    shape : length s.seen.buckets ≡ 13
    loads : All Exists s.left
    lower : lo ≤ read k s.running.metrics
    taken : Among k s.left ⊎ ((lo ≤ read k s.seen) × (read k s.seen ≤ read k s.running.metrics))

  load_next-taken :
      (lo : ℕ) (c : Counter) (cs : List Counter) (r : Running) (seen : Metrics)
      → length seen.buckets ≡ 13
      → Exists c
      → lo ≤ read k r.metrics
      → Among k (c ∷ cs) ⊎ ((lo ≤ read k seen) × (read k seen ≤ read k r.metrics))
      → let n = read c r.metrics in
        Among k cs ⊎ ((lo ≤ read k (put c n seen)) × (read k (put c n seen) ≤ read k r.metrics))
  load_next-taken lo c cs r seen shape e lower taken = elim (Bool-cases (same k c)) [
    | inl eq ↦
        let put_now = read-put_self k c (read c r.metrics) seen shape e eq in
        let here = read-same k c r.metrics eq in
        inr (omega (arith, put_now, here), omega (arith, put_now, here))
    | inr ne ↦
        let still = read-put_ne k c (read c r.metrics) seen ne in
        elim taken [
          | inl (inl eq) ↦ absurd (cc)
          | inl (inr later) ↦ inl later
          | inr (a, b) ↦ inr (omega (arith, still), omega (arith, still))
        ]
  ]

  load_next-Within :
      (lo : ℕ) (cs : List Counter) (r : Running) (seen : Metrics)
      → Within lo (record { running = r; left = cs; seen = seen })
      → Within lo (load_next cs r seen)
  unfolding load_next
  load_next-Within lo [] r seen h = h
  load_next-Within lo (c ∷ cs) r seen h = record {
    valid = h.valid;
    exist = h.exist;
    fits = h.fits;
    shape = put-shape c (read c r.metrics) seen ∙ h.shape;
    loads = h.loads.1;
    lower = h.lower;
    taken = load_next-taken lo c cs r seen h.shape h.loads.0 h.lower h.taken;
  }

  advance-taken :
      (lo n m : ℕ) (cs : List Counter) (seen : Metrics)
      → n ≤ m
      → Among k cs ⊎ ((lo ≤ read k seen) × (read k seen ≤ n))
      → Among k cs ⊎ ((lo ≤ read k seen) × (read k seen ≤ m))
  advance-taken lo n m cs seen grows (inl later) = inl later
  advance-taken lo n m cs seen grows (inr (a, b)) = inr (a, omega arith)

  take_turn-Within : (lo : ℕ) (t : Turn) (s : Scraping) → Within lo s → Within lo (take_turn t s)
  unfolding take_turn
  take_turn-Within lo loading s h = load_next-Within lo s.left s.running s.seen h
  take_turn-Within lo (recording i) s h =
      let (grows, kept) =
        advance-grows i s.running.metrics s.running.threads h.valid h.exist h.fits in
      let (valid, exist, eq) =
        advance-pending k i s.running.metrics s.running.threads h.valid h.exist in
      record {
        valid = valid;
        exist = exist;
        fits = omega (arith, kept, h.fits);
        shape = h.shape;
        loads = h.loads;
        lower = omega (arith, grows, h.lower);
        taken = advance-taken lo _ _ s.left s.seen grows h.taken;
      }

  run_turns-Within :
      (lo : ℕ) (turns : List Turn) (s : Scraping) → Within lo s → Within lo (run_turns turns s)
  unfolding run_turns
  run_turns-Within lo [] s h = h
  run_turns-Within lo (t ∷ turns) s h =
      run_turns-Within lo turns (take_turn t s) (take_turn-Within lo t s h)

  -- a scrape that is through
  Within-bracket :
      (lo : ℕ) (s : Scraping)
      → Within lo s
      → s.left ≡ []
      → (lo ≤ read k s.seen) × (read k s.seen ≤ read k s.running.metrics)
  Within-bracket lo s h done = through s.left done h.taken
    where
      through :
          (cs : List Counter)
          → cs ≡ []
          → Among k cs ⊎ ((lo ≤ read k s.seen) × (read k s.seen ≤ read k s.running.metrics))
          → (lo ≤ read k s.seen) × (read k s.seen ≤ read k s.running.metrics)
      through [] e (inl a) = absurd a
      through (c ∷ cs) e (inl a) = absurd (cc)
      through cs e (inr both) = both

module _ (calls : List (List Call)) (k : Counter) (exists : Exists k)
    (fits : total k (adds_of (all_calls calls)) < u64_mod) where
  abbrev pub begin : Running
  begin = record { metrics = new; threads = start_threads calls }

  abbrev Recording : Running → Type 0
  Recording r =
      IsValid r.metrics
      × All AllExist r.threads
      × (read k r.metrics + pending k r.threads < u64_mod)

  advance-Recording :
      (i : ℕ) (m : Metrics) (ts : List (List Add))
      → Recording (record { metrics = m; threads = ts })
      → Recording (advance i m ts)
  advance-Recording i m ts (v, e, small) =
      let (valid, exist, eq) = advance-pending k i m ts v e in
      let (grows, kept) = advance-grows k i m ts v e small in
      (valid, exist, omega (arith, kept, small))

  run_schedule-Recording :
      (schedule : List ℕ) (r : Running) → Recording r → Recording (run_schedule schedule r)
  unfolding run_schedule
  run_schedule-Recording [] r h = h
  run_schedule-Recording (i ∷ schedule) r h =
      run_schedule-Recording schedule (advance i r.metrics r.threads)
        (advance-Recording i r.metrics r.threads h)

  begin-Recording : Recording begin
  begin-Recording = (
    new-IsValid,
    start_threads-AllExist calls,
    omega (arith, read-new k, pending-start k calls, fits),
  )

  start_scrape-Within : (r : Running) → Recording r → Within k (read k r.metrics) (start_scrape r)
  start_scrape-Within r (v, e, small) = record {
    valid = v;
    exist = e;
    fits = small;
    shape = new-IsValid.shape;
    loads = omega arith;
    lower = omega arith;
    taken = inl (Among-load_order k exists);
  }

  -- A scrape is not a snapshot, but no counter ever goes back. While threads record, let one scrape
  -- begin after any of their additions and come to its end, and another follow it, each between
  -- whatever additions. Then the first has seen of each counter at least what it held when that
  -- scrape began, the second at least what the first has seen, and no more than the counter holds
  -- when the second ends. The additions of all calls to the counter must stay below 2 ^ 64.
  pub scrapes-grow :
      (before : List ℕ) (first second : List Turn)
      → let r = run_schedule before begin in
        let a = run_turns first (start_scrape r) in
        let b = run_turns second (start_scrape a.running) in
        a.left ≡ []
        → b.left ≡ []
        → (read k r.metrics ≤ read k a.seen)
          × (read k a.seen ≤ read k b.seen)
          × (read k b.seen ≤ read k b.running.metrics)
  scrapes-grow before first second done also_done =
      let r = run_schedule before begin in
      let a = run_turns first (start_scrape r) in
      let b = run_turns second (start_scrape a.running) in
      let from = run_schedule-Recording before begin begin-Recording in
      let one =
        run_turns-Within k (read k r.metrics) first (start_scrape r) (start_scrape-Within r from) in
      let next : Recording a.running = (one.valid, one.exist, one.fits) in
      let two =
        run_turns-Within k (read k a.running.metrics) second (start_scrape a.running)
          (start_scrape-Within a.running next) in
      let (low, seen) = Within-bracket k (read k r.metrics) a one done in
      let (later, high) = Within-bracket k (read k a.running.metrics) b two also_done in
      (low, omega (arith, seen, later), high)
