-- ===== src/Server/Concurrent.antt =====
-- src/server/handlers.rs on several connections at a time. The handlers share only the store, which
-- never changes, and the atomics of `Metrics`; between two atomic operations of one request any
-- other request may go on. A connection handles its requests one after the other.
pub mod Plain
pub mod Ledger
pub mod Talk
pub mod Finish
use justkv.Common.{
  ℕ, zero, suc, ◌≡◌, Option, none, some, List, [], ◌∷◌, ◌++◌, Bytes, Result, ok, err, panic, refl,
  ◌>>=◌, if◌then◌else◌,
}
use justkv.HashTable.{HashTable}
use justkv.Store.{get}
use justkv.Metrics.{Metrics, Counter, fetch_add, record_adds, run_adds, record_call, new}
use justkv.Metrics.Totals.{Add, read}
use justkv.Metrics.Scrape.{load_order, put}
use justkv.Server.{AppState}
use justkv.Server.Query.{key_from_query}
use justkv.Server.Handlers.{
  Method, Response, Json, found, recorded_len, reply, lookup, missing_k, health, metrics_text,
  stats,
}
use justkv.Server.Router.{
  Handler, kv_path_handler, kv_query_handler, health_handler, metrics_handler, stats_handler,
  Incoming, handler_of, not_found,
}

-- What a connection's handler has still to do: nothing; the additions of `record`, and then its
-- answer; or the loads of `render`, with what it has loaded and the uptime that it shows.
pub data Work : Type 0 where
  idle : Work
  recording : List Add → Response → Work
  scraping : List Counter → Metrics → ℕ → Work

pub record Connection : Type 0 where
  pub waiting : List Incoming
  pub work : Work
  pub sent : List Response

-- all requests are answered
abbrev pub IsFinished : Connection → Type 0
IsFinished c = (c.waiting ≡ []) × (c.work ≡ idle)

module _ (h : HashTable) (percent_decode : Bytes → Bytes) (show_u64 show_seconds : ℕ → Bytes)
    (to_json : List (Bytes × Json) → Bytes) (s : AppState h) (load_ms : ℕ) where
  -- `lookup`: the additions of its call of `record`, and the answer that it makes after them
  unfoldable pub begin_lookup : Bytes → Method → ℕ → Result (Unit {0}) Work
  begin_lookup key method elapsed = do
    v ← get h s.store key
    let f = found v s.default_value
    let time = if s.timing then some elapsed else none
    let adds = record_adds f.outcome (recorded_len method f.body) time
    ok (recording adds (reply s.content_type f.body f.status f.is_default))

  -- all that is left of a lookup, at once
  abbrev complete : Work → Metrics → Response × Metrics
  complete (recording adds r) m = (r, run_adds adds m)
  complete _ m = (not_found, m)

  -- what `lookup` does is what it begins with and then its additions
  lookup-begin_lookup :
      (key : Bytes) (method : Method) (elapsed : ℕ) (m : Metrics)
      → lookup h s key method elapsed m
        ≡ (do w ← begin_lookup key method elapsed; ok (complete w m))
  unfolding lookup begin_lookup record_call
  lookup-begin_lookup key method elapsed m = by_value (get h s.store key)
    where
      record_of : Option Bytes → List Add
      record_of v =
          let f = found v s.default_value in
          record_adds f.outcome (recorded_len method f.body)
            (if s.timing then some elapsed else none)

      reply_to : Option Bytes → Response
      reply_to v =
          let f = found v s.default_value in reply s.content_type f.body f.status f.is_default

      by_value :
          (r : Result (Unit {0}) (Option Bytes))
          → (do v ← r; ok (reply_to v, run_adds (record_of v) m))
            ≡ (do w ← (do v ← r; ok (recording (record_of v) (reply_to v))); ok (complete w m))
      by_value (ok v) = refl
      by_value (err e) = refl
      by_value panic = refl

  abbrev pub begin_query : Option Bytes → Incoming → Result (Unit {0}) Work
  begin_query (some key) q = begin_lookup key q.method q.elapsed
  begin_query none q = ok (recording [] (missing_k h))

  -- a handler, up to its first atomic operation
  unfoldable pub begin : Option Handler → Incoming → Result (Unit {0}) Work
  unfolding begin_lookup
  begin (some kv_path_handler) q = begin_lookup q.parameter q.method q.elapsed
  begin (some kv_query_handler) q = begin_query (key_from_query percent_decode q.query) q
  begin (some health_handler) q = ok (recording [] (health h))
  begin (some metrics_handler) q = ok (scraping load_order new q.uptime_seconds)
  begin (some stats_handler) q = ok (recording [] (stats h to_json s load_ms q.uptime_seconds))
  begin none q = ok (recording [] not_found)

  -- the text of a scrape, once all is loaded
  abbrev pub scraped : ℕ → Metrics → Response
  scraped uptime seen = metrics_text h show_u64 show_seconds s uptime seen

  -- one step: begin a request, an atomic operation, or send the answer
  unfoldable pub step :
      Work → List Incoming → List Response → Metrics → Result (Unit {0}) (Connection × Metrics)
  unfolding begin
  step idle [] sent m = ok (record { waiting = []; work = idle; sent = sent }, m)
  step idle (q ∷ qs) sent m = do
    work ← begin (handler_of q.pattern) q
    ok (record { waiting = qs; work = work; sent = sent }, m)
  step (recording (a ∷ adds) r) qs sent m =
      ok (record { waiting = qs; work = recording adds r; sent = sent }, fetch_add a.0 a.1 m)
  step (recording [] r) qs sent m =
      ok (record { waiting = qs; work = idle; sent = sent ++ r ∷ [] }, m)
  step (scraping (c ∷ cs) seen uptime) qs sent m =
      ok
        (record { waiting = qs; work = scraping cs (put c (read c m) seen) uptime; sent = sent }, m)
  step (scraping [] seen uptime) qs sent m =
      ok (record { waiting = qs; work = idle; sent = sent ++ scraped uptime seen ∷ [] }, m)

  -- connection `i` makes its next step
  unfoldable pub move :
      ℕ → List Connection → Metrics → Result (Unit {0}) (List Connection × Metrics)
  unfolding step
  move i [] m = ok ([], m)
  move zero (c ∷ cs) m = do (c', m') ← step c.work c.waiting c.sent m; ok (c' ∷ cs, m')
  move (suc i) (c ∷ cs) m = do (cs', m') ← move i cs m; ok (c ∷ cs', m')

  unfoldable pub run_moves :
      List ℕ → List Connection → Metrics → Result (Unit {0}) (List Connection × Metrics)
  unfolding move
  run_moves [] cs m = ok (cs, m)
  run_moves (i ∷ moves) cs m = do (cs', m') ← move i cs m; run_moves moves cs' m'

-- connections that have sent these requests, and that nobody has answered yet
abbrev pub open_all : List (List Incoming) → List Connection
open_all [] = []
open_all (qs ∷ clients) = record { waiting = qs; work = idle; sent = [] } ∷ open_all clients
