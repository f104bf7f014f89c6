-- ===== src/Server/Router/Count.antt =====
-- Requests to any routes: which of them the metrics count.
use justkv.Common.{ℕ, ◌≡◌, refl, Option, none, some, List, [], ◌∷◌, ◌++◌, Bytes, Result, ok, ◌>>=◌}
use justkv.HashTable.{HashTable}
use justkv.Store.Lookup.{Serves}
use justkv.Metrics.{Metrics, new}
use justkv.Metrics.Calls.{Call, Counts, run_calls, run_calls-append, run_calls-Counts}
use justkv.Server.{AppState}
use justkv.Server.Query.{key_from_query}
use justkv.Server.Handlers.{
  Response, Json, kv_path, kv_query, health, metrics_text, stats, missing_k,
}
use justkv.Server.Handlers.Replies.{Request, answer, seen_call, lookup-contract}
use justkv.Server.Router.{
  Handler, kv_path_handler, kv_query_handler, health_handler, metrics_handler, stats_handler,
  Incoming, handler_of, call, dispatch, not_found,
}

module _ (h : HashTable) (percent_decode : Bytes → Bytes) (show_u64 show_seconds : ℕ → Bytes)
    (to_json : List (Bytes × Json) → Bytes) (s : AppState h) (load_ms : ℕ)
    (l : List (Bytes × Bytes)) (serves : Serves h l s.store) where
  -- the key that a request asks for, if it asks for one
  abbrev pub asked : Option Handler → Incoming → Option Bytes
  asked (some kv_path_handler) q = some q.parameter
  asked (some kv_query_handler) q = key_from_query percent_decode q.query
  asked _ q = none

  abbrev as_request : Incoming → Bytes → Request
  as_request q key = record { key = key; method = q.method; elapsed = q.elapsed }

  abbrev pub calls_of_key : Incoming → Option Bytes → List Call
  calls_of_key q none = []
  calls_of_key q (some key) = seen_call h s l serves (as_request q key) ∷ []

  -- what a request's client sees of lookups, as calls of `record`
  abbrev pub lookups : List Incoming → List Call
  lookups [] = []
  lookups (q ∷ qs) = calls_of_key q (asked (handler_of q.pattern) q) ++ lookups qs

  abbrev key_reply : Incoming → Option Bytes → Response
  key_reply q none = missing_k h
  key_reply q (some key) = answer h s l serves (as_request q key)

  -- what a request is answered when the counters are `m`
  abbrev pub reply_of : Option Handler → Incoming → Metrics → Response
  reply_of (some kv_path_handler) q m = key_reply q (some q.parameter)
  reply_of (some kv_query_handler) q m = key_reply q (key_from_query percent_decode q.query)
  reply_of (some health_handler) q m = health h
  reply_of (some metrics_handler) q m = metrics_text h show_u64 show_seconds s q.uptime_seconds m
  reply_of (some stats_handler) q m = stats h to_json s load_ms q.uptime_seconds
  reply_of none q m = not_found

  abbrev pub replies : List Incoming → Metrics → List Response
  replies [] m = []
  replies (q ∷ qs) m =
      reply_of (handler_of q.pattern) q m
      ∷ replies qs (run_calls (calls_of_key q (asked (handler_of q.pattern) q)) m)

  kv_query_cases :
      (q : Incoming) (k : Option Bytes) (m : Metrics)
      → key_from_query percent_decode q.query ≡ k
      → kv_query h {E = Unit {0}} percent_decode s q.query q.method q.elapsed m
        ≡ ok (key_reply q k, run_calls (calls_of_key q k) m)
  unfolding kv_query run_calls
  kv_query_cases q none m is = rw is
  kv_query_cases q (some k) m is = rw is (lookup-contract h s l serves (as_request q k) m)

  call-reply_of :
      (handler : Option Handler) (q : Incoming) (m : Metrics)
      → call h percent_decode show_u64 show_seconds to_json s load_ms handler q m
        ≡ ok (reply_of handler q m, run_calls (calls_of_key q (asked handler q)) m)
  unfolding call run_calls
  call-reply_of (some kv_path_handler) q m =
      unfold kv_path in lookup-contract h s l serves (as_request q q.parameter) m
  call-reply_of (some kv_query_handler) q m = kv_query_cases q _ m refl
  call-reply_of (some health_handler) q m = refl
  call-reply_of (some metrics_handler) q m = refl
  call-reply_of (some stats_handler) q m = refl
  call-reply_of none q m = refl

  abbrev pub dispatch_all : List Incoming → Metrics → Result (Unit {0}) (List Response × Metrics)
  dispatch_all [] m = ok ([], m)
  dispatch_all (q ∷ qs) m = do
    (r, m') ← dispatch h percent_decode show_u64 show_seconds to_json s load_ms q m
    (rs, m'') ← dispatch_all qs m'
    ok (r ∷ rs, m'')

  dispatch_all-replies :
      (qs : List Incoming) (m : Metrics)
      → dispatch_all qs m ≡ ok (replies qs m, run_calls (lookups qs) m)
  unfolding dispatch
  dispatch_all-replies [] m = unfold run_calls in refl
  dispatch_all-replies (q ∷ qs) m =
      let now = calls_of_key q (asked (handler_of q.pattern) q) in
      rw (call-reply_of (handler_of q.pattern) q m)
        (rw (dispatch_all-replies qs (run_calls now m), run_calls-append now (lookups qs) m))

  -- After any requests to any routes of a fresh server nothing has panicked, each was answered as
  -- its route says, and the metrics count exactly the requests that named a key, by its path or by
  -- its query: `/health`, `/metrics`, `/stats`, paths of no route and queries without `k` leave
  -- every counter alone.
  pub dispatch_all-Counts :
      (qs : List Incoming)
      → (m : Metrics) × (dispatch_all qs new ≡ ok (replies qs new, m)) × Counts (lookups qs) m
  dispatch_all-Counts qs =
      (run_calls (lookups qs) new, dispatch_all-replies qs new, run_calls-Counts (lookups qs))
