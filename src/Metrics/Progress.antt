-- ===== src/Metrics/Progress.antt =====
-- Calls of `record` are wait-free: each needs only a bounded number of its own steps.
use justkv.Common.{
  ℕ, zero, suc, ◌+◌, ◌*◌, ◌≤◌, ◌≡◌, ◌≢◌, refl, sym, ap, ◌∙◌, inl, inr, Option, none, some, List, [],
  ◌∷◌, length, length-append, get_elem?, drop, All, arith, ◌==◌, if◌then◌else◌, Bool-cases,
  Option-cases,
}
use justkv.Metrics.{
  Metrics, Outcome, hit, miss, default, outcome_adds, timing_adds, record_adds, new,
}
use justkv.Metrics.Totals.{Add}
use justkv.Metrics.Calls.{Call, call_adds, adds_of, Counts}
use justkv.Metrics.Threads.{
  Running, advance, run_schedule, start_threads, all_calls, IsDone, run_schedule-Counts,
}

-- the steps that the schedule gives to thread `j`
abbrev pub steps : ℕ → List ℕ → ℕ
steps j [] = 0
steps j (i ∷ schedule) = (if i == j then 1 else 0) + steps j schedule

advance_own :
    (i : ℕ) (m : Metrics) (ts : List (List Add)) (t : List Add)
    → get_elem? ts i ≡ some t
    → get_elem? (advance i m ts).threads i ≡ some (drop 1 t)
unfolding advance
advance_own i m [] t h = absurd (cc)
advance_own zero m ([] ∷ ts) t h = let is : [] ≡ t = cc in rw (← is) refl
advance_own zero m ((a ∷ as') ∷ ts) t h = let is : a ∷ as' ≡ t = cc in rw (← is) refl
advance_own (suc i) m (u ∷ ts) t h = advance_own i m ts t h

advance_other :
    (i j : ℕ) (m : Metrics) (ts : List (List Add))
    → i ≢ j
    → get_elem? (advance i m ts).threads j ≡ get_elem? ts j
unfolding advance
advance_other i j m [] ne = refl
advance_other zero zero m (t ∷ ts) ne = absurd (ne refl)
advance_other zero (suc j) m ([] ∷ ts) ne = refl
advance_other zero (suc j) m ((a ∷ as') ∷ ts) ne = refl
advance_other (suc i) zero m (t ∷ ts) ne = refl
advance_other (suc i) (suc j) m (t ∷ ts) ne = advance_other i j m ts (λ e. ne (ap suc e))

drop-suc : {A : Type 0} (n : ℕ) (xs : List A) → drop n (drop 1 xs) ≡ drop (suc n) xs
drop-suc zero [] = refl
drop-suc (suc n) [] = refl
drop-suc n (x ∷ xs) = refl

-- Whatever the other threads do, thread `j` has left what it had but for its own steps.
run_schedule-drop :
    (schedule : List ℕ) (r : Running) (j : ℕ) (t : List Add)
    → get_elem? r.threads j ≡ some t
    → get_elem? (run_schedule schedule r).threads j ≡ some (drop (steps j schedule) t)
unfolding run_schedule
run_schedule-drop [] r j t h = h
run_schedule-drop (i ∷ schedule) r j t h = elim (Bool-cases (i == j)) [
  | inl own ↦
      let same : i ≡ j = ground arith in
      let after : get_elem? (advance i r.metrics r.threads).threads j ≡ some (drop 1 t) =
        rw (← same) (advance_own i r.metrics r.threads t (rw same h)) in
      rw own (
        run_schedule-drop schedule (advance i r.metrics r.threads) j (drop 1 t) after
        ∙ ap some (
            drop-suc (steps j schedule) t
            ∙ ap (λ k. drop k t) {x = suc (steps j schedule)} (omega arith)))
  | inr other ↦
      let ne : i ≢ j = ground arith in
      rw other (
        run_schedule-drop schedule (advance i r.metrics r.threads) j t
          (advance_other i j r.metrics r.threads ne ∙ h)
        ∙ ap (λ k. some (drop k t)) (omega arith))
]

advance_absent :
    (i : ℕ) (m : Metrics) (ts : List (List Add)) (j : ℕ)
    → get_elem? ts j ≡ none
    → get_elem? (advance i m ts).threads j ≡ none
unfolding advance
advance_absent i m [] j h = refl
advance_absent i m (t ∷ ts) zero h = absurd (cc)
advance_absent zero m ([] ∷ ts) (suc j) h = h
advance_absent zero m ((a ∷ as') ∷ ts) (suc j) h = h
advance_absent (suc i) m (t ∷ ts) (suc j) h = advance_absent i m ts j h

run_schedule_absent :
    (schedule : List ℕ) (r : Running) (j : ℕ)
    → get_elem? r.threads j ≡ none
    → get_elem? (run_schedule schedule r).threads j ≡ none
unfolding run_schedule
run_schedule_absent [] r j h = h
run_schedule_absent (i ∷ schedule) r j h =
    run_schedule_absent schedule (advance i r.metrics r.threads) j
      (advance_absent i r.metrics r.threads j h)

drop_all : {A : Type 0} (n : ℕ) (xs : List A) → length xs ≤ n → drop n xs ≡ []
drop_all zero [] h = refl
drop_all zero (x ∷ xs) h = absurd (omega arith)
drop_all (suc n) [] h = refl
drop_all (suc n) (x ∷ xs) h = drop_all n xs (omega arith)

All-pointwise :
    {A : Type 0} (P : A → Type 0) (xs : List A)
    → ((j : ℕ) (x : A) → get_elem? xs j ≡ some x → P x)
    → All P xs
All-pointwise P [] h = tt
All-pointwise P (x ∷ xs) h = (h 0 x refl, All-pointwise P xs (λ j. h (suc j)))

length-timing_adds : (d : Option ℕ) → length (timing_adds d) ≤ 3
unfolding timing_adds
length-timing_adds none = omega arith
length-timing_adds (some d) = omega arith

length-outcome_adds : (o : Outcome) → length (outcome_adds o) ≤ 2
unfolding outcome_adds
length-outcome_adds hit = omega arith
length-outcome_adds miss = omega arith
length-outcome_adds default = omega arith

pub length-call_adds : (c : Call) → length (call_adds c) ≤ 7
unfolding call_adds record_adds
length-call_adds c = omega (
  arith,
  length-append (outcome_adds c.outcome) (timing_adds c.elapsed),
  length-outcome_adds c.outcome,
  length-timing_adds c.elapsed,
)

length-adds_of : (calls : List Call) → length (adds_of calls) ≤ 7 * length calls
unfolding adds_of
length-adds_of [] = omega arith
length-adds_of (c ∷ calls) =
    omega
      (arith, length-append (call_adds c) (adds_of calls), length-call_adds c, length-adds_of calls)

-- the additions that thread `j` starts with
start_threads-get_elem? :
    (calls : List (List Call)) (j : ℕ) (t : List Add)
    → get_elem? (start_threads calls) j ≡ some t
    → (cs : List Call) × (get_elem? calls j ≡ some cs) × (length t ≤ 7 * length cs)
start_threads-get_elem? [] j t h = absurd (cc)
start_threads-get_elem? (cs ∷ rest) zero t h =
    let is : adds_of cs ≡ t = cc in (cs, refl, omega (arith, length-adds_of cs, ap length is))
start_threads-get_elem? (cs ∷ rest) (suc j) t h = start_threads-get_elem? rest j t h

-- seven steps for each call of each thread
abbrev pub IsFair : List (List Call) → List ℕ → Type 0
IsFair calls schedule =
    (j : ℕ) (cs : List Call) → get_elem? calls j ≡ some cs → 7 * length cs ≤ steps j schedule

run_schedule-IsDone :
    (calls : List (List Call)) (schedule : List ℕ)
    → IsFair calls schedule
    → All IsDone
        (run_schedule schedule (record { metrics = new; threads = start_threads calls })).threads
run_schedule-IsDone calls schedule fair =
    let begin : Running = record { metrics = new; threads = start_threads calls } in
    All-pointwise IsDone (run_schedule schedule begin).threads λ j u here.
      elim (Option-cases (get_elem? (start_threads calls) j)) [
        | inl absent ↦ let gone = run_schedule_absent schedule begin j absent in absurd (cc)
        | inr (t, there) ↦
            let left = run_schedule-drop schedule begin j t there in
            let (cs, mine, short) = start_threads-get_elem? calls j t there in
            let enough = fair j cs mine in
            let is : drop (steps j schedule) t ≡ u = cc in
            sym is ∙ drop_all (steps j schedule) t (omega arith)
      ]

-- Recording is wait-free, so a thread cannot be kept from finishing by the others: on every
-- schedule that gives each thread seven steps for each of its calls, in whatever order and with
-- whatever steps between, all calls complete, and the counters count all of them.
pub run_schedule-finishes :
    (calls : List (List Call)) (schedule : List ℕ)
    → IsFair calls schedule
    → let r = run_schedule schedule (record { metrics = new; threads = start_threads calls }) in
      All IsDone r.threads × Counts (all_calls calls) r.metrics
run_schedule-finishes calls schedule fair =
    let done = run_schedule-IsDone calls schedule fair in
    (done, run_schedule-Counts calls schedule done)
