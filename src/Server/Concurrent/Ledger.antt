-- ===== src/Server/Concurrent/Ledger.antt =====
-- What is in a counter, together with what open requests have still to add to it.
use justkv.Common.{
  ℕ, zero, suc, ◌+◌, ◌%◌, ◌≡◌, refl, ap, ◌∙◌, Option, none, some, List, [], ◌∷◌, ◌++◌, All, Bytes,
  arith, u64_mod,
}
use justkv.HashTable.{HashTable}
use justkv.Store.Lookup.{Serves}
use justkv.Metrics.{Metrics, Counter, new}
use justkv.Metrics.Totals.{
  Add, read, IsValid, AllExist, total, total-append, fetch_add-IsValid, read-fetch_add-total,
  read-new, new-IsValid,
}
use justkv.Metrics.Calls.{
  Call, call_adds, adds_of, record_adds-AllExist, total-adds_of-append, Counts, Counts-intro,
}
use justkv.Server.{AppState}
use justkv.Server.Query.{key_from_query}
use justkv.Server.Handlers.{Response, Json}
use justkv.Server.Handlers.Replies.{seen_call}
use justkv.Server.Router.{
  Handler, kv_path_handler, kv_query_handler, health_handler, metrics_handler, stats_handler,
  Incoming, handler_of,
}
use justkv.Server.Router.Count.{asked, calls_of_key, lookups}
use justkv.Server.Concurrent.{Work, idle, recording, scraping, Connection, IsFinished, open_all}
use justkv.Server.Concurrent.Plain.{
  request_of, key_work, work_of, plain_step, plain_move, plain_moves,
}

abbrev pub due : Work → List Add
due (recording adds r) = adds
due _ = []

abbrev pub AreValid : List Connection → Type 0
AreValid cs = All (λ (c : Connection). AllExist (due c.work)) cs

module _ (h : HashTable) (percent_decode : Bytes → Bytes) (show_u64 show_seconds : ℕ → Bytes)
    (to_json : List (Bytes × Json) → Bytes) (s : AppState h) (load_ms : ℕ)
    (l : List (Bytes × Bytes)) (serves : Serves h l s.store) where
  abbrev pub calls_of : List Incoming → List Call
  calls_of qs = lookups h percent_decode show_u64 show_seconds to_json s load_ms l serves qs

  abbrev pub all_lookups : List (List Incoming) → List Call
  all_lookups [] = []
  all_lookups (qs ∷ clients) = calls_of qs ++ all_lookups clients

  abbrev begun : Option Handler → Incoming → Work
  begun handler q =
      work_of h percent_decode show_u64 show_seconds to_json s load_ms l serves handler q

  abbrev counted : Incoming → Option Bytes → List Call
  counted q k = calls_of_key h percent_decode show_u64 show_seconds to_json s load_ms l serves q k

  abbrev asks : Option Handler → Incoming → Option Bytes
  asks handler q = asked h percent_decode show_u64 show_seconds to_json s load_ms l serves handler q

  key_work-AllExist :
      (q : Incoming) (key : Option Bytes)
      → AllExist
          (due (key_work h percent_decode show_u64 show_seconds to_json s load_ms l serves q key))
  unfolding call_adds
  key_work-AllExist q none = tt
  key_work-AllExist q (some key) =
      let c =
        seen_call h s l serves
          (request_of h percent_decode show_u64 show_seconds to_json s load_ms l serves q key) in
      record_adds-AllExist c.outcome c.size c.elapsed

  work_of-AllExist : (handler : Option Handler) (q : Incoming) → AllExist (due (begun handler q))
  work_of-AllExist (some kv_path_handler) q = key_work-AllExist q (some q.parameter)
  work_of-AllExist (some kv_query_handler) q =
      key_work-AllExist q (key_from_query percent_decode q.query)
  work_of-AllExist (some health_handler) q = tt
  work_of-AllExist (some metrics_handler) q = tt
  work_of-AllExist (some stats_handler) q = tt
  work_of-AllExist none q = tt

  module _ (k : Counter) where
    key_work-total :
        (q : Incoming) (key : Option Bytes)
        → total k
            (due (key_work h percent_decode show_u64 show_seconds to_json s load_ms l serves q key))
          ≡ total k (adds_of (counted q key))
    unfolding total adds_of
    key_work-total q none = refl
    key_work-total q (some key) =
        let c =
          seen_call h s l serves
            (request_of h percent_decode show_u64 show_seconds to_json s load_ms l serves q key) in
        omega (arith, total-append k (call_adds c) [])

    work_of-total :
        (handler : Option Handler) (q : Incoming)
        → total k (due (begun handler q)) ≡ total k (adds_of (counted q (asks handler q)))
    unfolding total adds_of
    work_of-total (some kv_path_handler) q = key_work-total q (some q.parameter)
    work_of-total (some kv_query_handler) q =
        key_work-total q (key_from_query percent_decode q.query)
    work_of-total (some health_handler) q = refl
    work_of-total (some metrics_handler) q = refl
    work_of-total (some stats_handler) q = refl
    work_of-total none q = refl

    -- what a connection is still to add
    abbrev owed : Connection → ℕ
    owed c = total k (due c.work) + total k (adds_of (calls_of c.waiting))

    abbrev pub owed_all : List Connection → ℕ
    owed_all [] = 0
    owed_all (c ∷ cs) = owed c + owed_all cs

    plain_step-owed :
        (w : Work) (qs : List Incoming) (sent : List Response) (m : Metrics)
        → IsValid m
        → AllExist (due w)
        → let r =
            plain_step h percent_decode show_u64 show_seconds to_json s load_ms l serves w qs sent
              m in
          IsValid r.1
          × AllExist (due r.0.work)
          × ((read k r.1 + owed r.0) % u64_mod
              ≡ (read k m + (total k (due w) + total k (adds_of (calls_of qs)))) % u64_mod)
    unfolding plain_step
    plain_step-owed idle [] sent m v e = (v, tt, refl)
    plain_step-owed idle (q ∷ qs) sent m v e = (
      v,
      work_of-AllExist (handler_of q.pattern) q,
      unfold total in
          omega (
            arith,
            total-adds_of-append k (counted q (asks (handler_of q.pattern) q)) (calls_of qs),
            work_of-total (handler_of q.pattern) q,
          ),
    )
    plain_step-owed (recording (a ∷ adds) r) qs sent m v (e, es) = (
      fetch_add-IsValid a.0 a.1 m v e,
      es,
      omega (
        arith,
        total-append k (a ∷ []) adds,
        read-fetch_add-total k a (total k adds + total k (adds_of (calls_of qs))) m v e,
      ),
    )
    plain_step-owed (recording [] r) qs sent m v e = (v, tt, refl)
    plain_step-owed (scraping (c ∷ cs) seen uptime) qs sent m v e = (v, tt, refl)
    plain_step-owed (scraping [] seen uptime) qs sent m v e = (v, tt, refl)

    pub plain_move-owed :
        (i : ℕ) (cs : List Connection) (m : Metrics)
        → IsValid m
        → AreValid cs
        → let r =
            plain_move h percent_decode show_u64 show_seconds to_json s load_ms l serves i cs m in
          IsValid r.1
          × AreValid r.0
          × ((read k r.1 + owed_all r.0) % u64_mod ≡ (read k m + owed_all cs) % u64_mod)
    unfolding plain_move
    plain_move-owed i [] m v e = (v, tt, refl)
    plain_move-owed zero (c ∷ cs) m v (e, es) =
        let (w, f, eq) = plain_step-owed c.work c.waiting c.sent m v e in
        (w, (f, es), omega (arith, eq))
    plain_move-owed (suc i) (c ∷ cs) m v (e, es) =
        let (w, f, eq) = plain_move-owed i cs m v es in (w, (e, f), omega (arith, eq))

    plain_moves-owed :
        (moves : List ℕ) (cs : List Connection) (m : Metrics)
        → IsValid m
        → AreValid cs
        → let r =
            plain_moves h percent_decode show_u64 show_seconds to_json s load_ms l serves moves cs
              m in
          (read k r.1 + owed_all r.0) % u64_mod ≡ (read k m + owed_all cs) % u64_mod
    unfolding plain_moves
    plain_moves-owed [] cs m v e = refl
    plain_moves-owed (i ∷ moves) cs m v e =
        let (w, f, eq) = plain_move-owed i cs m v e in plain_moves-owed moves _ _ w f ∙ eq

    owed_all-open_all :
        (clients : List (List Incoming))
        → owed_all (open_all clients) ≡ total k (adds_of (all_lookups clients))
    unfolding total adds_of
    owed_all-open_all [] = refl
    owed_all-open_all (qs ∷ clients) = omega (
      arith,
      total-adds_of-append k (calls_of qs) (all_lookups clients),
      owed_all-open_all clients,
    )

    owed_all-finished : (cs : List Connection) → All IsFinished cs → owed_all cs ≡ 0
    unfolding total adds_of
    owed_all-finished [] d = refl
    owed_all-finished (c ∷ cs) ((none_waits, rests), d) = omega (
      arith,
      owed_all-finished cs d,
      ap (λ w. total k (due w)) rests,
      ap (λ qs. total k (adds_of (calls_of qs))) none_waits,
    )

  plain_moves-IsValid :
      (moves : List ℕ) (cs : List Connection) (m : Metrics)
      → IsValid m
      → AreValid cs
      → IsValid
          (plain_moves h percent_decode show_u64 show_seconds to_json s load_ms l serves moves cs
            m).1
  unfolding plain_moves
  plain_moves-IsValid [] cs m v e = v
  plain_moves-IsValid (i ∷ moves) cs m v e =
      let (w, f, eq) = plain_move-owed Counter.requests i cs m v e in
      plain_moves-IsValid moves _ _ w f

  pub open_all-AreValid : (clients : List (List Incoming)) → AreValid (open_all clients)
  open_all-AreValid [] = tt
  open_all-AreValid (qs ∷ clients) = (tt, open_all-AreValid clients)

  -- once nothing is left to do, the counters count all lookups of all clients
  pub plain_moves-Counts :
      (clients : List (List Incoming)) (moves : List ℕ)
      → let r =
          plain_moves h percent_decode show_u64 show_seconds to_json s load_ms l serves moves
            (open_all clients)
            new in
        All IsFinished r.0 → Counts (all_lookups clients) r.1
  plain_moves-Counts clients moves done =
      let cs = open_all clients in
      let valid = open_all-AreValid clients in
      let r =
        plain_moves h percent_decode show_u64 show_seconds to_json s load_ms l serves moves cs
          new in
      Counts-intro (all_lookups clients) r.1 λ k. omega (
        arith,
        plain_moves-owed k moves cs new new-IsValid valid,
        owed_all-finished k r.0 done,
        owed_all-open_all k clients,
        read-new k,
        (plain_moves-IsValid moves cs new new-IsValid valid).below k,
      )
