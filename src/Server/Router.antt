-- ===== src/Server/Router.antt =====
-- src/server/mod.rs, `router`: the routes and the handlers that answer them.
pub mod Count
use justkv.Common.{ℕ, Bool, Option, none, some, List, [], ◌∷◌, Bytes, codes, Result, ok, ◌>>=◌}
use justkv.Common.Assoc
use justkv.HashTable.{HashTable}
use justkv.Metrics.{Metrics}
use justkv.Server.{AppState}
use justkv.Server.Handlers.{Method, Response, Json, kv_path, kv_query, health, metrics_text, stats}

pub data Handler : Type 0 where
  kv_path_handler kv_query_handler health_handler metrics_handler stats_handler : Handler

abbrev pub router : List (Bytes × Handler)
router =
    (codes "/kv/{key}", kv_path_handler)
    ∷ (codes "/kv", kv_query_handler)
    ∷ (codes "/health", health_handler)
    ∷ (codes "/metrics", metrics_handler)
    ∷ (codes "/stats", stats_handler)
    ∷ []

-- A `GET` or `HEAD` as axum hands it on: the pattern that its path matches, or `none`; the decoded
-- path parameter; the raw query. Requests that axum refuses itself (another method, a path
-- parameter that is not UTF-8) do not come here.
pub record Incoming : Type 0 where
  pub pattern : Option Bytes
  pub parameter : Bytes
  pub query : Option Bytes
  pub method : Method
  pub elapsed : ℕ
  pub uptime_seconds : ℕ

-- axum's answer where no route matches
abbrev pub not_found : Response
not_found = record { status = 404; headers = []; body = [] }

abbrev pub handler_of : Option Bytes → Option Handler
handler_of none = none
handler_of (some p) = Assoc.lookup p router

module _ (h : HashTable) (percent_decode : Bytes → Bytes) (show_u64 show_seconds : ℕ → Bytes)
    (to_json : List (Bytes × Json) → Bytes) (s : AppState h) (load_ms : ℕ) where
  unfoldable pub call : Option Handler → Incoming → Metrics → Result (Unit {0}) (Response × Metrics)
  unfolding kv_path kv_query health metrics_text stats
  call (some kv_path_handler) q m = kv_path h s q.parameter q.method q.elapsed m
  call (some kv_query_handler) q m = kv_query h percent_decode s q.query q.method q.elapsed m
  call (some health_handler) q m = ok (health h, m)
  call (some metrics_handler) q m =
      ok (metrics_text h show_u64 show_seconds s q.uptime_seconds m, m)
  call (some stats_handler) q m = ok (stats h to_json s load_ms q.uptime_seconds, m)
  call none q m = ok (not_found, m)

  unfoldable pub dispatch : Incoming → Metrics → Result (Unit {0}) (Response × Metrics)
  unfolding call
  dispatch q m = call (handler_of q.pattern) q m
