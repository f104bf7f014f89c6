-- ===== src/Server/Run.antt =====
-- src/server/mod.rs, `shutdown_signal` and `run`: bind, and serve until a signal comes.
pub mod Shutdown
pub mod Answers
use justkv.Common.{
  ℕ, Bool, true, false, not, ◌||◌, ◌≡◌, ◌⊎◌, Option, List, [], ◌∷◌, ◌++◌, Bytes, codes, Result, ok,
  err, panic, ◌>>=◌, if◌then◌else◌,
}
use justkv.Common.Writing.{Writing}
use justkv.Common.Assoc.{In}
use justkv.HashTable.{HashTable}
use justkv.Metrics.{Metrics}
use justkv.Server.{AppState}
use justkv.Server.Handlers.{Response, Json}
use justkv.Server.Router.{Incoming, dispatch}

-- what the process gets from outside, in order: SIGINT, SIGTERM, or a request
pub data Event : Type 0 where
  interrupt terminate : Event
  request : Incoming → Event

-- whether the runtime could register a handler of each signal
pub record Signals : Type 0 where
  pub ctrl_c_ok : Bool
  pub terminate_ok : Bool

-- a future that has completed when it is first polled, or that waits for an event
pub data Future : Type 0 where
  completed : Future
  awaits : (Event → Bool) → Future

abbrev pub is_interrupt : Event → Bool
is_interrupt interrupt = true
is_interrupt e = false

abbrev pub is_terminate : Event → Bool
is_terminate terminate = true
is_terminate e = false

-- `let _ = tokio::signal::ctrl_c().await`: an error completes it too
unfoldable pub ctrl_c : Signals → Future
ctrl_c s = if s.ctrl_c_ok then awaits is_interrupt else completed

-- on unix: the `if let Ok` has no other branch
unfoldable pub term : Signals → Future
term s = if s.terminate_ok then awaits is_terminate else completed

-- `tokio::select!` with two branches
abbrev pub select : Future → Future → Future
select completed g = completed
select (awaits p) completed = completed
select (awaits p) (awaits q) = awaits (λ e. p e || q e)

unfoldable pub shutdown_signal : Signals → Future
unfolding ctrl_c term
shutdown_signal s = select (ctrl_c s) (term s)

abbrev pub Completes : Future → List Event → Type 0
Completes completed events = Unit {0}
Completes (awaits p) events = (e : Event) × In e events × (p e ≡ true)

-- what comes before it completes
abbrev pub until : Future → List Event → List Event
until completed events = []
until (awaits p) [] = []
until (awaits p) (e ∷ events) = if p e then [] else e ∷ until (awaits p) events

abbrev pub requests : List Event → List Incoming
requests [] = []
requests (request q ∷ events) = q ∷ requests events
requests (interrupt ∷ events) = requests events
requests (terminate ∷ events) = requests events

-- a handler of requests over a state, taken one request after the other
abbrev pub handle_all :
    {S : Type 0}
    → (Incoming → S → Result (Unit {0}) (Response × S))
    → List Incoming
    → S
    → Result (Unit {0}) (List Response × S)
handle_all handle [] s = ok ([], s)
handle_all handle (q ∷ qs) s = do
  (r, s') ← handle q s
  (rs, s'') ← handle_all handle qs s'
  ok (r ∷ rs, s'')

-- tokio's listener, and axum's server with a graceful shutdown: a parameter, with what is documented
-- of it. An error is its message.
pub record HttpServer : Type 1 where
  pub Listener : Type 0
  pub bind : Bytes → Result Bytes Listener
  pub local_addr : Listener → Result Bytes Bytes
  -- it answers the requests by the handler: the answers, and the state that the last one left
  pub serve :
      {S : Type 0}
      → Listener
      → (Incoming → S → Result (Unit {0}) (Response × S))
      → Future
      → S
      → List Event
      → Result Bytes (List Response × S)
  -- Once the future completes no further request is accepted, and when those that came before it are
  -- answered, `Ok` is returned. Requests come one at a time here.
  pub serve_graceful :
      {S : Type 0} (l : Listener) (handle : Incoming → S → Result (Unit {0}) (Response × S))
      (f : Future) (s : S) (events : List Event) (rs : List Response) (s' : S)
      → Completes f events
      → handle_all handle (requests (until f events)) s ≡ ok (rs, s')
      → serve l handle f s events ≡ ok (rs, s')

module _ (fmt : Writing) (h : HashTable) where
  -- what `run` prints when the port is bound
  unfoldable pub listening_line : AppState h → Bytes → Bytes
  listening_line state addr =
      codes "justkv listening on "
      ++ (addr
          ++ (codes " ("
              ++ (fmt.show state.keys
                  ++ (codes " keys, "
                      ++ (fmt.show state.arena_bytes ++ (codes " bytes)" ++ 10 ∷ []))))))

module _ (http : HttpServer) (signals : Signals) (h : HashTable) (percent_decode : Bytes → Bytes)
    (show_u64 show_seconds : ℕ → Bytes) (to_json : List (Bytes × Json) → Bytes) (load_ms : ℕ) where
  open http use {Listener, bind, local_addr, serve}

  -- the answers and the metrics after the shutdown, for the events that come while it serves
  unfoldable pub run :
      AppState h → Bytes → Metrics → List Event → Result Bytes (List Response × Metrics)
  unfolding shutdown_signal
  run state address metrics events = do
    listener ← bind address
    addr ← local_addr listener
    serve listener (dispatch h percent_decode show_u64 show_seconds to_json state load_ms)
        (shutdown_signal signals) metrics events
