-- ===== src/Server/Concurrent/Finish.antt =====
-- Concurrent connections come to the end of their requests: each needs a bounded number of its own
-- steps.
use justkv.Common.{
  ℕ, zero, suc, ◌+◌, ◌-◌, ◌*◌, ◌≤◌, ◌<◌, ◌≡◌, refl, subst, Option, none, some, List, [], ◌∷◌, All,
  Bytes, ok, length, arith, ◌==◌, false,
}
use justkv.HashTable.{HashTable}
use justkv.Store.Lookup.{Serves}
use justkv.Metrics.{Metrics, new}
use justkv.Metrics.Totals.{new-IsValid}
use justkv.Metrics.Calls.{Counts}
use justkv.Metrics.Progress.{steps, length-call_adds}
use justkv.Server.{AppState}
use justkv.Server.Query.{key_from_query}
use justkv.Server.Handlers.{Response, Json}
use justkv.Server.Handlers.Replies.{seen_call}
use justkv.Server.Router.{
  Handler, kv_path_handler, kv_query_handler, health_handler, metrics_handler, stats_handler,
  Incoming, handler_of,
}
use justkv.Server.Concurrent.{
  Work, idle, recording, scraping, Connection, IsFinished, open_all, run_moves,
}
use justkv.Server.Concurrent.Plain.{
  request_of, key_work, work_of, plain_step, plain_move, plain_moves, run_moves-plain_moves,
}
use justkv.Server.Concurrent.Ledger.{open_all-AreValid, all_lookups, plain_moves-Counts}
use justkv.Server.Concurrent.Talk.{AllReplies, plain_moves-Talks, open_all-Talks, Talks-AllReplies}

abbrev cost : Work → ℕ
cost idle = 0
cost (recording adds r) = 1 + length adds
cost (scraping cs seen uptime) = 1 + length cs

-- the steps that a connection may still need
abbrev left : Connection → ℕ
left c = cost c.work + 22 * length c.waiting

-- enough steps for each connection, the first of which has this number
abbrev Enough : ℕ → List Connection → List ℕ → Type 0
Enough j [] moves = Unit {0}
Enough j (c ∷ cs) moves = (left c ≤ steps j moves) × Enough (suc j) cs moves

-- 22 steps for each request of each client, in whatever order
abbrev pub IsFair : ℕ → List (List Incoming) → List ℕ → Type 0
IsFair j [] moves = Unit {0}
IsFair j (qs ∷ clients) moves = (22 * length qs ≤ steps j moves) × IsFair (suc j) clients moves

open_all-Enough :
    (j : ℕ) (clients : List (List Incoming)) (moves : List ℕ)
    → IsFair j clients moves
    → Enough j (open_all clients) moves
open_all-Enough j [] moves f = tt
open_all-Enough j (qs ∷ clients) moves (f, fs) =
    (omega arith, open_all-Enough (suc j) clients moves fs)

-- a step of an earlier connection is no step of these
Enough-skip :
    (i j : ℕ) (cs : List Connection) (moves : List ℕ)
    → i < j
    → Enough j cs (i ∷ moves)
    → Enough j cs moves
Enough-skip i j [] moves lt e = tt
Enough-skip i j (c ∷ cs) moves lt (e, es) =
    let apart : (i == j) ≡ false = ground arith in
    let rest : left c ≤ steps j moves = ground arith in
    (rest, Enough-skip i (suc j) cs moves (omega arith) es)

Enough-done : (j : ℕ) (cs : List Connection) → Enough j cs [] → All IsFinished cs
Enough-done j [] e = tt
Enough-done j (c ∷ cs) (e, es) = (finished c e, Enough-done (suc j) cs es)
  where
    no_work : (w : Work) → cost w ≡ 0 → w ≡ idle
    no_work idle e = refl
    no_work (recording adds r) e = absurd (omega arith)
    no_work (scraping cs seen uptime) e = absurd (omega arith)

    none_waits : (qs : List Incoming) → length qs ≡ 0 → qs ≡ []
    none_waits [] e = refl
    none_waits (q ∷ qs) e = absurd (omega arith)

    finished : (c : Connection) → left c ≤ 0 → IsFinished c
    finished c e = (none_waits c.waiting (omega arith), no_work c.work (omega arith))

module _ (h : HashTable) (percent_decode : Bytes → Bytes) (show_u64 show_seconds : ℕ → Bytes)
    (to_json : List (Bytes × Json) → Bytes) (s : AppState h) (load_ms : ℕ)
    (l : List (Bytes × Bytes)) (serves : Serves h l s.store) where
  cost-key_work :
      (q : Incoming) (key : Option Bytes)
      → cost (key_work h percent_decode show_u64 show_seconds to_json s load_ms l serves q key) ≤ 21
  cost-key_work q none = omega arith
  cost-key_work q (some key) = omega (
    arith,
    length-call_adds (
        seen_call h s l serves
          (request_of h percent_decode show_u64 show_seconds to_json s load_ms l serves q key)),
  )

  cost-work_of :
      (handler : Option Handler) (q : Incoming)
      → cost (work_of h percent_decode show_u64 show_seconds to_json s load_ms l serves handler q)
        ≤ 21
  cost-work_of (some kv_path_handler) q = cost-key_work q (some q.parameter)
  cost-work_of (some kv_query_handler) q = cost-key_work q (key_from_query percent_decode q.query)
  cost-work_of (some health_handler) q = omega arith
  cost-work_of (some metrics_handler) q = omega arith
  cost-work_of (some stats_handler) q = omega arith
  cost-work_of none q = omega arith

  left-plain_step :
      (w : Work) (qs : List Incoming) (sent : List Response) (m : Metrics)
      → left
          (plain_step h percent_decode show_u64 show_seconds to_json s load_ms l serves w qs sent
            m).0
        ≤ cost w + 22 * length qs - 1
  unfolding plain_step
  left-plain_step idle [] sent m = omega arith
  left-plain_step idle (q ∷ qs) sent m = omega (arith, cost-work_of (handler_of q.pattern) q)
  left-plain_step (recording (a ∷ adds) r) qs sent m = omega arith
  left-plain_step (recording [] r) qs sent m = omega arith
  left-plain_step (scraping (c ∷ cs) seen uptime) qs sent m = omega arith
  left-plain_step (scraping [] seen uptime) qs sent m = omega arith

  -- a step of a connection takes one of those that it may need
  plain_move-Enough :
      (i j : ℕ) (cs : List Connection) (m : Metrics) (moves : List ℕ)
      → Enough j cs ((i + j) ∷ moves)
      → Enough j
          (plain_move h percent_decode show_u64 show_seconds to_json s load_ms l serves i cs m).0
          moves
  unfolding plain_move
  plain_move-Enough i j [] m moves e = tt
  plain_move-Enough zero j (c ∷ cs) m moves (e, es) =
      let own : left c ≤ 1 + steps j moves = ground arith in
      (
        omega (arith, own, left-plain_step c.work c.waiting c.sent m),
        Enough-skip (0 + j) (suc j) cs moves (omega arith) es,
      )
  plain_move-Enough (suc i) j (c ∷ cs) m moves (e, es) =
      let apart : (suc i + j == j) ≡ false = ground arith in
      let number : suc i + j ≡ i + suc j = omega arith in
      let kept : left c ≤ steps j moves = ground arith in
      (
        kept,
        plain_move-Enough i (suc j) cs m moves
            (subst (λ n. Enough (suc j) cs (n ∷ moves)) number es),
      )

  plain_moves-IsFinished :
      (moves : List ℕ) (cs : List Connection) (m : Metrics)
      → Enough 0 cs moves
      → All IsFinished
          (plain_moves h percent_decode show_u64 show_seconds to_json s load_ms l serves moves cs
            m).0
  unfolding plain_moves
  plain_moves-IsFinished [] cs m e = Enough-done 0 cs e
  plain_moves-IsFinished (i ∷ moves) cs m e = plain_moves-IsFinished moves _ _ (
      plain_move-Enough i 0 cs m moves
        (subst (λ n. Enough 0 cs (n ∷ moves)) {x = i} {y = i + 0} (omega arith) e))

  -- Concurrent clients are served as if each were alone. Let several connections send any requests
  -- to any routes of a fresh server whose store serves the list `l`, and let the steps of their
  -- handlers interleave in any way that gives each connection 22 steps for each of its requests.
  -- Then nothing panics, and every request is answered, those of a connection in order, each as its
  -- route says: only an answer of `/metrics` depends on the counters, and it shows `u64`s for all
  -- of them. In the end the metrics count exactly the requests of all clients that named a key,
  -- modulo 2 ^ 64.
  pub run_moves-Served :
      (clients : List (List Incoming)) (moves : List ℕ)
      → IsFair 0 clients moves
      → (cs : List Connection) × (m : Metrics) × (run_moves h percent_decode show_u64 show_seconds
            to_json s load_ms moves
            (open_all clients)
            new
          ≡ ok (cs, m))
        × AllReplies h percent_decode show_u64 show_seconds to_json s load_ms l serves clients cs
        × Counts
            (all_lookups h percent_decode show_u64 show_seconds to_json s load_ms l serves clients)
            m
  run_moves-Served clients moves fair =
      let cs = open_all clients in
      let done = plain_moves-IsFinished moves cs new (open_all-Enough 0 clients moves fair) in
      let talks =
        plain_moves-Talks h percent_decode show_u64 show_seconds to_json s load_ms l serves moves
          clients cs new new-IsValid
          (open_all-AreValid h percent_decode show_u64 show_seconds to_json s load_ms l serves
            clients)
          (open_all-Talks h percent_decode show_u64 show_seconds to_json s load_ms l serves
            clients) in
      (
        _,
        _,
        run_moves-plain_moves h percent_decode show_u64 show_seconds to_json s load_ms l serves
            moves cs new,
        Talks-AllReplies h percent_decode show_u64 show_seconds to_json s load_ms l serves clients _
            done talks,
        plain_moves-Counts h percent_decode show_u64 show_seconds to_json s load_ms l serves clients
            moves done,
      )
