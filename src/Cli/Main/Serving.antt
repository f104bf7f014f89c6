-- ===== src/Cli/Main/Serving.antt =====
-- src/main.rs and src/server/mod.rs: how a server ends, or that it goes on.
use justkv.Common.{
  ℕ, ◌≡◌, refl, ap, ◌⊎◌, inl, inr, true, false, Bool-cases, Option, none, some, List, [], ◌∷◌,
  Bytes, Result, ok, err, ◌>>=◌, if◌then◌else◌, arith,
}
use justkv.HashTable.{HashTable}
use justkv.Store.{get}
use justkv.Metrics.{Metrics, record_call, new}
use justkv.Server.{AppState}
use justkv.Server.Query.{key_from_query}
use justkv.Server.Handlers.{
  Method, Response, Json, found, reply, recorded_len, missing_k, lookup, kv_path, kv_query,
}
use justkv.Server.Router.{
  Handler, kv_path_handler, kv_query_handler, health_handler, metrics_handler, stats_handler,
  Incoming, handler_of, call, dispatch,
}
use justkv.Server.Run.{
  Event, Signals, Future, completed, awaits, shutdown_signal, Completes, until, requests,
  handle_all, HttpServer, run,
}
use justkv.Server.Run.Shutdown.{IsStopped, shutdown_signal-Completes}
use justkv.Cli.{exit_ok, exit_io}
use justkv.Cli.Main.{Ending, exits, serving, has_completed, after_run, after_bind}

-- `TcpListener::bind` and `local_addr` return, and do not panic
pub record BindReturns (http : HttpServer) : Type 0 where
  pub bind_returns :
      (a : Bytes)
      → ((l : http.Listener) × (http.bind a ≡ ok l)) ⊎ ((e : Bytes) × (http.bind a ≡ err e))
  pub local_addr_returns :
      (l : http.Listener)
      → ((a : Bytes) × (http.local_addr l ≡ ok a)) ⊎ ((e : Bytes) × (http.local_addr l ≡ err e))

has_completed-Completes :
    (f : Future) (events : List Event) → has_completed f events ≡ true → Completes f events
unfolding has_completed
has_completed-Completes completed events h = tt
has_completed-Completes (awaits p) [] h = absurd (cc)
has_completed-Completes (awaits p) (e ∷ events) h = elim (Bool-cases (p e)) [
  | inl now ↦ (e, inl refl, now)
  | inr later ↦
      let (d, i, is) = has_completed-Completes (awaits p) events (ground arith) in (d, inr i, is)
]

not_completed :
    (f : Future) (events : List Event) → has_completed f events ≡ false → Completes f events → ⊥
unfolding has_completed
not_completed completed events h c = absurd (cc)
not_completed (awaits p) [] h (d, i, is) = i
not_completed (awaits p) (e ∷ events) h (d, inl same, is) =
    let here : p e ≡ false = ground arith in let there : p d ≡ p e = ap p same in absurd (cc)
not_completed (awaits p) (e ∷ events) h (d, inr i, is) =
    not_completed (awaits p) events (ground arith) (d, i, is)

module _ (http : HttpServer) (signals : Signals) where
  abbrev pub listens : Bytes → Result Bytes Bytes
  listens address = do l ← http.bind address; http.local_addr l

  -- the address cannot be had; or it can, and the server ends with 0 if a signal stops it, and
  -- otherwise goes on
  abbrev pub RunEnds : Bytes → List Event → Ending → Type 0
  RunEnds address events e =
      ((m : Bytes) × (listens address ≡ err m) × (e ≡ exits exit_io))
      ⊎ ((addr : Bytes) × (listens address ≡ ok addr)
          × (((IsStopped signals events) × (e ≡ exits exit_ok))
              ⊎ ((IsStopped signals events → ⊥) × (e ≡ serving))))

module _ (h : HashTable) (percent_decode : Bytes → Bytes) (show_u64 show_seconds : ℕ → Bytes)
    (to_json : List (Bytes × Json) → Bytes) (load_ms : ℕ) (s : AppState h)
    (stored : (q : Bytes) → (v : Option Bytes) × (get h {E = Unit {0}} s.store q ≡ ok v)) where
  abbrev Answers : Result (Unit {0}) (Response × Metrics) → Type 0
  Answers r = (reply : Response) × (m : Metrics) × (r ≡ ok (reply, m))

  lookup-Answers :
      (key : Bytes) (method : Method) (elapsed : ℕ) (m : Metrics)
      → Answers (lookup h s key method elapsed m)
  unfolding lookup
  lookup-Answers key method elapsed m =
      let (v, is) = stored key in
      let f = found v s.default_value in
      let time = if s.timing then some elapsed else none in
      (
        reply s.content_type f.body f.status f.is_default,
        record_call f.outcome (recorded_len method f.body) time m,
        rw is refl,
      )

  kv_query-Answers :
      (q : Incoming) (k : Option Bytes) (m : Metrics)
      → key_from_query percent_decode q.query ≡ k
      → Answers (kv_query h percent_decode s q.query q.method q.elapsed m)
  unfolding kv_query
  kv_query-Answers q none m is = (missing_k h, m, rw is refl)
  kv_query-Answers q (some key) m is =
      let (r, m', answered) = lookup-Answers key q.method q.elapsed m in (r, m', rw is answered)

  call-Answers :
      (handler : Option Handler) (q : Incoming) (m : Metrics)
      → Answers (call h percent_decode show_u64 show_seconds to_json s load_ms handler q m)
  unfolding call
  call-Answers (some kv_path_handler) q m =
      unfold kv_path in lookup-Answers q.parameter q.method q.elapsed m
  call-Answers (some kv_query_handler) q m = kv_query-Answers q _ m refl
  call-Answers (some health_handler) q m = (_, _, refl)
  call-Answers (some metrics_handler) q m = (_, _, refl)
  call-Answers (some stats_handler) q m = (_, _, refl)
  call-Answers none q m = (_, _, refl)

  -- the handlers answer every request
  handle_all-answers :
      (qs : List Incoming) (m : Metrics)
      → (rs : List Response) × (m' : Metrics) × (handle_all
            (dispatch h percent_decode show_u64 show_seconds to_json s load_ms)
            qs
            m
          ≡ ok (rs, m'))
  unfolding dispatch
  handle_all-answers [] m = ([], m, refl)
  handle_all-answers (q ∷ qs) m =
      let (r, m', now) = call-Answers (handler_of q.pattern) q m in
      let (rs, m'', later) = handle_all-answers qs m' in (r ∷ rs, m'', rw now (rw later refl))

  module _ (http : HttpServer) (returns : BindReturns http) (signals : Signals) where
    listens-returns :
        (address : Bytes)
        → ((l : http.Listener) × (addr : Bytes) × (http.bind address ≡ ok l)
            × (http.local_addr l ≡ ok addr))
          ⊎ ((e : Bytes) × (listens http signals address ≡ err e))
    listens-returns address = elim (returns.bind_returns address) [
      | inr (e, is) ↦ inr (e, rw is refl)
      | inl (l, is) ↦ elim (returns.local_addr_returns l) [
        | inr (e, not_named) ↦ inr (e, rw is not_named)
        | inl (addr, named) ↦ inl (l, addr, is, named)
      ]
    ]

    pub run_ending-RunEnds :
        (address : Bytes) (events : List Event)
        → RunEnds http signals address events (
            after_bind
              (has_completed (shutdown_signal signals) events)
              (listens http signals address)
              (after_run (
                run http signals h percent_decode show_u64 show_seconds to_json load_ms s address
                  new events)))
    unfolding after_bind after_run run
    run_ending-RunEnds address events = elim (listens-returns address) [
      | inr (e, is) ↦ inl (e, is, rw is refl)
      | inl (l, addr, bound, named) ↦
          let both : listens http signals address ≡ ok addr = rw bound named in
          let stops = shutdown_signal-Completes signals events in
          elim (Bool-cases (has_completed (shutdown_signal signals) events)) [
            | inr goes_on ↦ inr (
              addr,
              both,
              inr (
                (λ c. not_completed (shutdown_signal signals) events goes_on (stops.1 c)),
                rw both (rw goes_on refl),
              ),
            )
            | inl ends ↦
                let stopped = has_completed-Completes (shutdown_signal signals) events ends in
                let handle = dispatch h percent_decode show_u64 show_seconds to_json s load_ms in
                let (rs, m, answered) =
                  handle_all-answers (requests (until (shutdown_signal signals) events)) new in
                let served =
                  http.serve_graceful l handle (shutdown_signal signals) new events rs m stopped
                    answered in
                inr (addr, both, inl (stops.0 stopped, rw (ends, bound, named) (rw served refl)))
          ]
    ]
