-- ===== src/Server/Concurrent/Plain.antt =====
-- Over a store that serves a list of pairs no step panics, and each is a plain function.
use justkv.Common.{ℕ, zero, suc, ◌≡◌, refl, Option, none, some, List, [], ◌∷◌, ◌++◌, Bytes, ok}
use justkv.Common.Assoc
use justkv.HashTable.{HashTable}
use justkv.Store.Lookup.{Serves}
use justkv.Metrics.{Metrics, fetch_add, new}
use justkv.Metrics.Totals.{read}
use justkv.Metrics.Calls.{call_adds}
use justkv.Metrics.Scrape.{load_order, put}
use justkv.Server.{AppState}
use justkv.Server.Query.{key_from_query}
use justkv.Server.Handlers.{Response, Json, health, stats, missing_k}
use justkv.Server.Handlers.Replies.{Request, answer, seen_call, contract_cases}
use justkv.Server.Router.{
  Handler, kv_path_handler, kv_query_handler, health_handler, metrics_handler, stats_handler,
  Incoming, handler_of, not_found,
}
use justkv.Server.Concurrent.{
  Work, idle, recording, scraping, Connection, begin, begin_query, begin_lookup, scraped, step,
  move, run_moves,
}

module _ (h : HashTable) (percent_decode : Bytes → Bytes) (show_u64 show_seconds : ℕ → Bytes)
    (to_json : List (Bytes × Json) → Bytes) (s : AppState h) (load_ms : ℕ)
    (l : List (Bytes × Bytes)) (serves : Serves h l s.store) where
  abbrev pub request_of : Incoming → Bytes → Request
  request_of q key = record { key = key; method = q.method; elapsed = q.elapsed }

  abbrev pub key_work : Incoming → Option Bytes → Work
  key_work q none = recording [] (missing_k h)
  key_work q (some key) =
      recording (call_adds (seen_call h s l serves (request_of q key)))
        (answer h s l serves (request_of q key))

  abbrev pub work_of : Option Handler → Incoming → Work
  work_of (some kv_path_handler) q = key_work q (some q.parameter)
  work_of (some kv_query_handler) q = key_work q (key_from_query percent_decode q.query)
  work_of (some health_handler) q = recording [] (health h)
  work_of (some metrics_handler) q = scraping load_order new q.uptime_seconds
  work_of (some stats_handler) q = recording [] (stats h to_json s load_ms q.uptime_seconds)
  work_of none q = recording [] not_found

  begin_query-key_work :
      (k : Option Bytes) (q : Incoming)
      → begin_query h percent_decode show_u64 show_seconds to_json s load_ms k q ≡ ok (key_work q k)
  unfolding begin_lookup call_adds
  begin_query-key_work none q = refl
  begin_query-key_work (some key) q =
      let (r, o, n) =
        contract_cases h s l serves s.content_type (Assoc.lookup key l) s.default_value q.method in
      rw (serves.answers key) (rw (r, o, n))

  begin-work_of :
      (handler : Option Handler) (q : Incoming)
      → begin h percent_decode show_u64 show_seconds to_json s load_ms handler q
        ≡ ok (work_of handler q)
  unfolding begin
  begin-work_of (some kv_path_handler) q = begin_query-key_work (some q.parameter) q
  begin-work_of (some kv_query_handler) q =
      begin_query-key_work (key_from_query percent_decode q.query) q
  begin-work_of (some health_handler) q = refl
  begin-work_of (some metrics_handler) q = refl
  begin-work_of (some stats_handler) q = refl
  begin-work_of none q = refl

  unfoldable pub plain_step : Work → List Incoming → List Response → Metrics → Connection × Metrics
  plain_step idle [] sent m = (record { waiting = []; work = idle; sent = sent }, m)
  plain_step idle (q ∷ qs) sent m =
      (record { waiting = qs; work = work_of (handler_of q.pattern) q; sent = sent }, m)
  plain_step (recording (a ∷ adds) r) qs sent m =
      (record { waiting = qs; work = recording adds r; sent = sent }, fetch_add a.0 a.1 m)
  plain_step (recording [] r) qs sent m =
      (record { waiting = qs; work = idle; sent = sent ++ r ∷ [] }, m)
  plain_step (scraping (c ∷ cs) seen uptime) qs sent m =
      (record { waiting = qs; work = scraping cs (put c (read c m) seen) uptime; sent = sent }, m)
  plain_step (scraping [] seen uptime) qs sent m = (
    record {
      waiting = qs;
      work = idle;
      sent =
          sent ++ scraped h percent_decode show_u64 show_seconds to_json s load_ms uptime seen ∷ [];
    },
    m,
  )

  step-plain_step :
      (w : Work) (qs : List Incoming) (sent : List Response) (m : Metrics)
      → step h percent_decode show_u64 show_seconds to_json s load_ms w qs sent m
        ≡ ok (plain_step w qs sent m)
  unfolding step plain_step
  step-plain_step idle [] sent m = refl
  step-plain_step idle (q ∷ qs) sent m = rw (begin-work_of (handler_of q.pattern) q) refl
  step-plain_step (recording (a ∷ adds) r) qs sent m = refl
  step-plain_step (recording [] r) qs sent m = refl
  step-plain_step (scraping (c ∷ cs) seen uptime) qs sent m = refl
  step-plain_step (scraping [] seen uptime) qs sent m = refl

  unfoldable pub plain_move : ℕ → List Connection → Metrics → List Connection × Metrics
  plain_move i [] m = ([], m)
  plain_move zero (c ∷ cs) m = let r = plain_step c.work c.waiting c.sent m in (r.0 ∷ cs, r.1)
  plain_move (suc i) (c ∷ cs) m = let r = plain_move i cs m in (c ∷ r.0, r.1)

  move-plain_move :
      (i : ℕ) (cs : List Connection) (m : Metrics)
      → move h percent_decode show_u64 show_seconds to_json s load_ms i cs m
        ≡ ok (plain_move i cs m)
  unfolding move plain_move
  move-plain_move i [] m = refl
  move-plain_move zero (c ∷ cs) m = rw (step-plain_step c.work c.waiting c.sent m) refl
  move-plain_move (suc i) (c ∷ cs) m = rw (move-plain_move i cs m) refl

  unfoldable pub plain_moves : List ℕ → List Connection → Metrics → List Connection × Metrics
  plain_moves [] cs m = (cs, m)
  plain_moves (i ∷ moves) cs m = let r = plain_move i cs m in plain_moves moves r.0 r.1

  pub run_moves-plain_moves :
      (moves : List ℕ) (cs : List Connection) (m : Metrics)
      → run_moves h percent_decode show_u64 show_seconds to_json s load_ms moves cs m
        ≡ ok (plain_moves moves cs m)
  unfolding run_moves plain_moves
  run_moves-plain_moves [] cs m = refl
  run_moves-plain_moves (i ∷ moves) cs m =
      rw (move-plain_move i cs m)
        (run_moves-plain_moves moves (plain_move i cs m).0 (plain_move i cs m).1)
