-- ===== src/Server/Handlers.antt =====
-- src/server/handlers.rs: the route handlers.
pub mod Replies
use justkv.Common.{
  ℕ, Bool, true, false, Option, none, some, List, [], ◌∷◌, ◌++◌, Bytes, codes, Result, ok, ◌>>=◌,
  length, if◌then◌else◌,
}
use justkv.HashTable.{HashTable}
use justkv.Store.{get}
use justkv.Metrics.{Metrics, Outcome, hit, miss, default, record_call}
use justkv.Metrics.Render.{render}
use justkv.Server.{AppState}
use justkv.Server.Query.{key_from_query}

-- The routes are `get`s, which axum also dispatches `HEAD` to.
pub data Method : Type 0 where
  get_method head_method : Method

pub record Response : Type 0 where
  pub status : ℕ
  pub headers : List (Bytes × Bytes)
  pub body : Bytes

-- the tuple that `lookup` matches out
pub record Found : Type 0 where
  pub outcome : Outcome
  pub body : Option Bytes
  pub status : ℕ
  pub is_default : Bool

unfoldable pub found : Option Bytes → Option Bytes → Found
found (some v) fallback = record { outcome = hit; body = some v; status = 200; is_default = false }
found none (some d) = record { outcome = default; body = some d; status = 200; is_default = true }
found none none = record { outcome = miss; body = none; status = 404; is_default = false }

abbrev body_len : Option Bytes → ℕ
body_len none = 0
body_len (some b) = length b

unfoldable pub recorded_len : Method → Option Bytes → ℕ
recorded_len head_method body = 0
recorded_len get_method body = body_len body

-- from `Response::builder()` on
unfoldable pub reply : Bytes → Option Bytes → ℕ → Bool → Response
reply content_type none status is_default = record { status = status; headers = []; body = [] }
reply content_type (some v) status is_default = record {
  status = status;
  headers =
      (codes "content-type", content_type)
      ∷ (if is_default then (codes "x-justkv-default", codes "1") ∷ [] else []);
  body = v;
}

-- the values that `stats` puts into its object; an `f64` stands for itself by its bits
pub data Json : Type 0 where
  number float : ℕ → Json
  string : Bytes → Json
  bool : Bool → Json

abbrev pub is_some : Option Bytes → Bool
is_some none = false
is_some (some b) = true

module _ (h : HashTable) where
  -- `elapsed` is what the clock shows since `start`, in nanoseconds.
  unfoldable pub lookup {ℓ} :
      {E : Type ℓ} → AppState h → Bytes → Method → ℕ → Metrics → Result E (Response × Metrics)
  unfolding found recorded_len reply
  lookup s key method elapsed metrics = do
    v ← get h s.store key
    let f = found v s.default_value
    let time = if s.timing then some elapsed else none
    let metrics' = record_call f.outcome (recorded_len method f.body) time metrics
    ok (reply s.content_type f.body f.status f.is_default, metrics')

  unfoldable pub kv_path {ℓ} :
      {E : Type ℓ} → AppState h → Bytes → Method → ℕ → Metrics → Result E (Response × Metrics)
  unfolding lookup
  kv_path s key method elapsed metrics = lookup s key method elapsed metrics

  abbrev pub missing_k : Response
  missing_k = record {
    status = 400;
    headers = [];
    body = codes "missing required query parameter: k" ++ 10 ∷ [];
  }

  abbrev query_lookup {ℓ} :
      {E : Type ℓ}
      → AppState h
      → Option Bytes
      → Method
      → ℕ
      → Metrics
      → Result E (Response × Metrics)
  query_lookup s (some key) method elapsed metrics = lookup s key method elapsed metrics
  query_lookup s none method elapsed metrics = ok (missing_k, metrics)

  unfoldable pub kv_query {ℓ} :
      {E : Type ℓ}
      → (Bytes → Bytes)
      → AppState h
      → Option Bytes
      → Method
      → ℕ
      → Metrics
      → Result E (Response × Metrics)
  unfolding lookup key_from_query
  kv_query percent_decode s q method elapsed metrics =
      query_lookup s (key_from_query percent_decode q) method elapsed metrics

  -- axum answers a `&'static str` with 200 as plain text
  unfoldable pub health : Response
  health = record {
    status = 200;
    headers = (codes "content-type", codes "text/plain; charset=utf-8") ∷ [];
    body = codes "ok";
  }

  unfoldable pub metrics_text : (ℕ → Bytes) → (ℕ → Bytes) → AppState h → ℕ → Metrics → Response
  metrics_text show_u64 show_seconds s uptime_seconds metrics = record {
    status = 200;
    headers = (codes "content-type", codes "text/plain; version=0.0.4; charset=utf-8") ∷ [];
    body = render show_u64 show_seconds metrics s.keys s.arena_bytes uptime_seconds;
  }

  -- `to_json` is `serde_json`'s text of an object.
  unfoldable pub stats : (List (Bytes × Json) → Bytes) → AppState h → ℕ → ℕ → Response
  stats to_json s load_ms uptime_seconds = record {
    status = 200;
    headers = (codes "content-type", codes "application/json") ∷ [];
    body = to_json (
        (codes "keys", Json.number s.keys)
        ∷ (codes "arena_bytes", Json.number s.arena_bytes)
        ∷ (codes "source", Json.string s.source)
        ∷ (codes "format", Json.string s.format)
        ∷ (codes "load_ms", Json.float load_ms)
        ∷ (codes "uptime_seconds", Json.number uptime_seconds)
        ∷ (codes "default_value_configured", Json.bool (is_some s.default_value))
        ∷ []);
  }
