-- ===== src/Server/Run/Answers.antt =====
-- What a server that `run` serves has answered when it ends.
use justkv.Common.{
  ℕ, ◌≡◌, refl, ap, ◌∙◌, inl, inr, true, ◌||◌, ◌>>=◌, List, [], ◌∷◌, ◌++◌, Bytes, ok,
}
use justkv.Common.Assoc.{In}
use justkv.HashTable.{HashTable}
use justkv.Store.Lookup.{Serves}
use justkv.Metrics.{Metrics, new}
use justkv.Metrics.Calls.{Counts}
use justkv.Server.{AppState}
use justkv.Server.Handlers.{Json}
use justkv.Server.Router.{Incoming, dispatch}
use justkv.Server.Router.Count.{dispatch_all, replies, lookups, dispatch_all-Counts}
use justkv.Server.Run.{
  Event, request, Signals, is_interrupt, is_terminate, shutdown_signal, Completes, until, requests,
  handle_all, HttpServer, run,
}

-- SIGINT and SIGTERM
abbrev pub IsStop : Event → Type 0
IsStop e = (is_interrupt e || is_terminate e) ≡ true

abbrev pub arriving : List Incoming → List Event
arriving [] = []
arriving (q ∷ qs) = request q ∷ arriving qs

abbrev pub both : Signals
both = record { ctrl_c_ok = true; terminate_ok = true }

until-arriving :
    (qs : List Incoming) (stop : Event) (rest : List Event)
    → IsStop stop
    → requests (until (shutdown_signal both) (arriving qs ++ stop ∷ rest)) ≡ qs
unfolding shutdown_signal
until-arriving [] stop rest h = rw h
until-arriving (q ∷ qs) stop rest h = ap (λ r. q ∷ r) (until-arriving qs stop rest h)

In-append_right : {A : Type 0} (xs ys : List A) (a : A) → In a ys → In a (xs ++ ys)
In-append_right [] ys a i = i
In-append_right (x ∷ xs) ys a i = inr (In-append_right xs ys a i)

module _ (http : HttpServer) (h : HashTable) (percent_decode : Bytes → Bytes)
    (show_u64 show_seconds : ℕ → Bytes) (to_json : List (Bytes × Json) → Bytes) (load_ms : ℕ)
    (s : AppState h) where
  open http use {Listener, bind, local_addr}

  module _ (l : List (Bytes × Bytes)) (serves : Serves h l s.store) where
    handle_all-dispatch_all :
        (qs : List Incoming) (m : Metrics)
        → handle_all (dispatch h percent_decode show_u64 show_seconds to_json s load_ms) qs m
          ≡ dispatch_all h percent_decode show_u64 show_seconds to_json s load_ms l serves qs m
    handle_all-dispatch_all [] m = refl
    handle_all-dispatch_all (q ∷ qs) m = λ i. do
      (r, m') ← dispatch h percent_decode show_u64 show_seconds to_json s load_ms q m
      (rs, m'') ← handle_all-dispatch_all qs m' i
      ok (r ∷ rs, m'')

    -- A server whose port could be bound answers exactly the requests that come before the first
    -- SIGINT or SIGTERM, each as its route says, and then `run` returns without an error. What comes after the signal is not
    -- answered. The metrics count the answered requests that named a key. Both signal handlers are registered, and
    -- requests come one at a time.
    pub run-replies :
        (address addr : Bytes) (listener : Listener) (qs : List Incoming) (stop : Event)
        (rest : List Event)
        → bind address ≡ ok listener
        → local_addr listener ≡ ok addr
        → IsStop stop
        → (m : Metrics) × (run http both h percent_decode show_u64 show_seconds to_json load_ms s
              address new
              (arriving qs ++ stop ∷ rest)
            ≡ ok (
              replies h percent_decode show_u64 show_seconds to_json s load_ms l serves qs new,
              m,
            ))
          × Counts (lookups h percent_decode show_u64 show_seconds to_json s load_ms l serves qs) m
    unfolding run
    run-replies address addr listener qs stop rest bound named stops =
        let events = arriving qs ++ stop ∷ rest in
        let handle = dispatch h percent_decode show_u64 show_seconds to_json s load_ms in
        let (m, answered, counts) =
          dispatch_all-Counts h percent_decode show_u64 show_seconds to_json s load_ms l serves
            qs in
        let stopped : Completes (shutdown_signal both) events =
          unfold shutdown_signal in
          (stop, In-append_right (arriving qs) (stop ∷ rest) stop (inl refl), stops) in
        let handled =
          ap (λ r. handle_all handle r new) (until-arriving qs stop rest stops)
          ∙ handle_all-dispatch_all qs new
          ∙ answered in
        let served =
          http.serve_graceful listener handle (shutdown_signal both) new events _ m stopped
            handled in
        (m, rw bound (rw named served), counts)
