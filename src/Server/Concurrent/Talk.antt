-- ===== src/Server/Concurrent/Talk.antt =====
-- What the clients of concurrent connections are answered.
use justkv.Common.{
  ℕ, zero, suc, ◌≡◌, refl, sym, subst, Option, none, some, List, [], ◌∷◌, ◌++◌, All, Bytes, arith,
}
use justkv.HashTable.{HashTable}
use justkv.Store.Lookup.{Serves}
use justkv.Metrics.{Metrics, Counter, new}
use justkv.Metrics.Totals.{Exists, IsValid, new-IsValid}
use justkv.Metrics.Scrape.Typed.{put-IsValid}
use justkv.Server.{AppState}
use justkv.Server.Query.{key_from_query}
use justkv.Server.Handlers.{Response, Json}
use justkv.Server.Router.{
  Handler, kv_path_handler, kv_query_handler, health_handler, metrics_handler, stats_handler,
  Incoming, handler_of,
}
use justkv.Server.Router.Count.{reply_of}
use justkv.Server.Concurrent.{
  Work, idle, recording, scraping, Connection, IsFinished, scraped, open_all,
}
use justkv.Server.Concurrent.Ledger.{AreValid, plain_move-owed}
use justkv.Server.Concurrent.Plain.{key_work, work_of, plain_step, plain_move, plain_moves}

module _ (h : HashTable) (percent_decode : Bytes → Bytes) (show_u64 show_seconds : ℕ → Bytes)
    (to_json : List (Bytes × Json) → Bytes) (s : AppState h) (load_ms : ℕ)
    (l : List (Bytes × Bytes)) (serves : Serves h l s.store) where
  abbrev replied : Option Handler → Incoming → Metrics → Response
  replied handler q m =
      reply_of h percent_decode show_u64 show_seconds to_json s load_ms l serves handler q m

  -- The answer that its route gives. Only `/metrics` depends on the counters, and it shows `u64`s.
  abbrev pub IsReply : Incoming → Response → Type 0
  IsReply q r = (m : Metrics) × (IsValid m) × (r ≡ replied (handler_of q.pattern) q m)

  -- the answers to the first of these requests, in order; the others are left
  abbrev pub Answered : List Incoming → List Incoming → List Response → Type 0
  Answered left qs [] = qs ≡ left
  Answered left [] (r ∷ rs) = ⊥
  Answered left (q ∷ qs) (r ∷ rs) = IsReply q r × Answered left qs rs

  -- what is done so far of one request
  abbrev Held : Option Handler → Incoming → Work → Type 0
  Held handler q idle = ⊥
  Held handler q (recording adds r) = (m : Metrics) × (IsValid m) × (r ≡ replied handler q m)
  Held handler q (scraping left seen uptime) =
      IsValid seen
      × All Exists left
      × ((m : Metrics)
          → scraped h percent_decode show_u64 show_seconds to_json s load_ms uptime m
            ≡ replied handler q m)

  abbrev begun : Option Handler → Incoming → Work
  begun handler q =
      work_of h percent_decode show_u64 show_seconds to_json s load_ms l serves handler q

  query_work-Held :
      (q : Incoming) (k : Option Bytes)
      → key_from_query percent_decode q.query ≡ k
      → Held
          (some kv_query_handler)
          q
          (key_work h percent_decode show_u64 show_seconds to_json s load_ms l serves q k)
  query_work-Held q none is = (new, new-IsValid, rw is refl)
  query_work-Held q (some key) is = (new, new-IsValid, rw is refl)

  work_of-Held : (handler : Option Handler) (q : Incoming) → Held handler q (begun handler q)
  work_of-Held (some kv_path_handler) q = (new, new-IsValid, refl)
  work_of-Held (some kv_query_handler) q =
      query_work-Held q (key_from_query percent_decode q.query) refl
  work_of-Held (some health_handler) q = (new, new-IsValid, refl)
  work_of-Held (some metrics_handler) q = (new-IsValid, omega arith, (λ m. refl))
  work_of-Held (some stats_handler) q = (new, new-IsValid, refl)
  work_of-Held none q = (new, new-IsValid, refl)

  -- the requests of a client, and how far its connection is with them
  abbrev Talk : Work → List Incoming → List Incoming → List Response → Type 0
  Talk idle qs waiting sent = Answered waiting qs sent
  Talk w qs waiting sent =
      (q : Incoming) × Held (handler_of q.pattern) q w × Answered (q ∷ waiting) qs sent

  Talk-begin :
      (w : Work) (q : Incoming) (qs waiting : List Incoming) (sent : List Response)
      → Held (handler_of q.pattern) q w
      → Answered (q ∷ waiting) qs sent
      → Talk w qs waiting sent
  Talk-begin idle q qs waiting sent held so_far = absurd held
  Talk-begin (recording adds r) q qs waiting sent held so_far = (q, held, so_far)
  Talk-begin (scraping left seen uptime) q qs waiting sent held so_far = (q, held, so_far)

  -- one more answer
  Answered-snoc :
      (q : Incoming) (left qs : List Incoming) (sent : List Response) (r : Response)
      → IsReply q r
      → Answered (q ∷ left) qs sent
      → Answered left qs (sent ++ r ∷ [])
  Answered-snoc q left [] [] r is so_far = absurd (cc)
  Answered-snoc q left (p ∷ qs) [] r is so_far =
      let same : p ≡ q = cc in
      let rest : qs ≡ left = cc in (subst (λ p. IsReply p r) (sym same) is, rest)
  Answered-snoc q left [] (x ∷ sent) r is so_far = absurd so_far
  Answered-snoc q left (p ∷ qs) (x ∷ sent) r is (now, so_far) =
      (now, Answered-snoc q left qs sent r is so_far)

  plain_step-Talk :
      (w : Work) (qs waiting : List Incoming) (sent : List Response) (m : Metrics)
      → IsValid m
      → Talk w qs waiting sent
      → let c =
          (plain_step h percent_decode show_u64 show_seconds to_json s load_ms l serves w waiting
            sent m).0 in
        Talk c.work qs c.waiting c.sent
  unfolding plain_step
  plain_step-Talk idle qs [] sent m v t = t
  plain_step-Talk idle qs (q ∷ waiting) sent m v t =
      Talk-begin (begun (handler_of q.pattern) q) q qs waiting sent
        (work_of-Held (handler_of q.pattern) q) t
  plain_step-Talk (recording (a ∷ adds) r) qs waiting sent m v t = t
  plain_step-Talk (recording [] r) qs waiting sent m v (q, held, so_far) =
      Answered-snoc q waiting qs sent r held so_far
  plain_step-Talk (scraping (c ∷ cs) seen uptime) qs waiting sent m v
        (q, (valid, (e, es), is), so_far) =
      (q, (put-IsValid c m seen v valid e, es, is), so_far)
  plain_step-Talk (scraping [] seen uptime) qs waiting sent m v (q, (valid, es, is), so_far) =
      Answered-snoc q waiting qs sent _ (seen, valid, is seen) so_far

  abbrev pub Talks : List (List Incoming) → List Connection → Type 0
  Talks [] [] = Unit {0}
  Talks (qs ∷ clients) (c ∷ cs) = Talk c.work qs c.waiting c.sent × Talks clients cs
  Talks _ _ = ⊥

  plain_move-Talks :
      (i : ℕ) (clients : List (List Incoming)) (cs : List Connection) (m : Metrics)
      → IsValid m
      → Talks clients cs
      → Talks clients
          (plain_move h percent_decode show_u64 show_seconds to_json s load_ms l serves i cs m).0
  unfolding plain_move
  plain_move-Talks i [] [] m v t = tt
  plain_move-Talks i [] (c ∷ cs) m v t = absurd t
  plain_move-Talks i (qs ∷ clients) [] m v t = absurd t
  plain_move-Talks zero (qs ∷ clients) (c ∷ cs) m v (t, ts) =
      (plain_step-Talk c.work qs c.waiting c.sent m v t, ts)
  plain_move-Talks (suc i) (qs ∷ clients) (c ∷ cs) m v (t, ts) =
      (t, plain_move-Talks i clients cs m v ts)

  pub plain_moves-Talks :
      (moves : List ℕ) (clients : List (List Incoming)) (cs : List Connection) (m : Metrics)
      → IsValid m
      → AreValid cs
      → Talks clients cs
      → Talks clients
          (plain_moves h percent_decode show_u64 show_seconds to_json s load_ms l serves moves cs
            m).0
  unfolding plain_moves
  plain_moves-Talks [] clients cs m v e t = t
  plain_moves-Talks (i ∷ moves) clients cs m v e t =
      let (w, f, eq) =
        plain_move-owed h percent_decode show_u64 show_seconds to_json s load_ms l serves
          Counter.requests i cs m v e in
      plain_moves-Talks moves clients _ _ w f (plain_move-Talks i clients cs m v t)

  pub open_all-Talks : (clients : List (List Incoming)) → Talks clients (open_all clients)
  open_all-Talks [] = tt
  open_all-Talks (qs ∷ clients) = (refl, open_all-Talks clients)

  -- each request of a client with its answer, in order
  abbrev pub Replies : List Incoming → List Response → Type 0
  Replies [] [] = Unit {0}
  Replies (q ∷ qs) (r ∷ rs) = IsReply q r × Replies qs rs
  Replies _ _ = ⊥

  abbrev pub AllReplies : List (List Incoming) → List Connection → Type 0
  AllReplies [] [] = Unit {0}
  AllReplies (qs ∷ clients) (c ∷ cs) = Replies qs c.sent × AllReplies clients cs
  AllReplies _ _ = ⊥

  Answered-Replies : (qs : List Incoming) (rs : List Response) → Answered [] qs rs → Replies qs rs
  Answered-Replies [] [] a = tt
  Answered-Replies (q ∷ qs) [] a = absurd (cc)
  Answered-Replies [] (r ∷ rs) a = absurd a
  Answered-Replies (q ∷ qs) (r ∷ rs) (is, a) = (is, Answered-Replies qs rs a)

  Talk-Replies :
      (qs : List Incoming) (c : Connection)
      → IsFinished c
      → Talk c.work qs c.waiting c.sent
      → Replies qs c.sent
  Talk-Replies qs c (none_waits, rests) t = Answered-Replies qs c.sent (
      subst (λ left. Answered left qs c.sent) none_waits
        (subst (λ w. Talk w qs c.waiting c.sent) rests t))

  pub Talks-AllReplies :
      (clients : List (List Incoming)) (cs : List Connection)
      → All IsFinished cs
      → Talks clients cs
      → AllReplies clients cs
  Talks-AllReplies [] [] d t = tt
  Talks-AllReplies [] (c ∷ cs) d t = absurd t
  Talks-AllReplies (qs ∷ clients) [] d t = absurd t
  Talks-AllReplies (qs ∷ clients) (c ∷ cs) (f, d) (t, ts) =
      (Talk-Replies qs c f t, Talks-AllReplies clients cs d ts)
