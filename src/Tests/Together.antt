-- ===== src/Tests/Together.antt =====
-- Two clients at a time: a lookup while a scrape goes on.
use justkv.Common.{ℕ, zero, suc, ◌≡◌, none, some, List, [], ◌∷◌, Bytes, codes, ok, arith}
use justkv.Metrics.{Metrics, new}
use justkv.Metrics.Calls.{Counts}
use justkv.Server.Handlers.{get_method}
use justkv.Server.Router.{Incoming}
use justkv.Server.Concurrent.{Connection, open_all, run_moves}
use justkv.Server.Concurrent.Ledger.{all_lookups}
use justkv.Server.Concurrent.Talk.{AllReplies}
use justkv.Server.Concurrent.Finish.{IsFair, run_moves-Served}
use justkv.Tests.Samples.{list_table, same_bytes}
use justkv.Tests.Serving.{dataset, sample, app, no_json}

abbrev visit : Bytes → Bytes → Incoming
visit pattern parameter = record {
  pattern = some pattern;
  parameter = parameter;
  query = none;
  method = get_method;
  elapsed = 100;
  uptime_seconds = 3;
}

abbrev clients : List (List Incoming)
clients = (visit (codes "/kv/{key}") (codes "alpha") ∷ []) ∷ (visit (codes "/metrics") [] ∷ []) ∷ []

abbrev in_turn : ℕ → List ℕ
in_turn zero = []
in_turn (suc n) = 0 ∷ 1 ∷ in_turn n

abbrev one_byte : ℕ → Bytes
one_byte n = n ∷ []

in_turn-IsFair : IsFair 0 clients (in_turn 22)
in_turn-IsFair = omega arith

run_moves-Served_example :
    (cs : List Connection) × (m : Metrics) × (run_moves list_table same_bytes one_byte one_byte
        no_json app 0
        (in_turn 22)
        (open_all clients)
        new
      ≡ ok (cs, m))
    × AllReplies list_table same_bytes one_byte one_byte no_json app 0 dataset sample.1 clients cs
    × Counts
        (all_lookups list_table same_bytes one_byte one_byte no_json app 0 dataset sample.1 clients)
        m
run_moves-Served_example =
    run_moves-Served list_table same_bytes one_byte one_byte no_json app 0 dataset sample.1 clients
      (in_turn 22) in_turn-IsFair
