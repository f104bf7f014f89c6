-- ===== src/Server/Handlers/Replies.antt =====
-- What a client is answered, over the plain list of pairs, and that the metrics agree with it.
use justkv.Common.{
  ℕ, ◌≡◌, refl, Bool, false, Option, none, some, List, [], ◌∷◌, map, Bytes, bytes_eq, codes, Result,
  ◌==◌, ◌||◌, ok, ◌>>=◌, length, if◌then◌else◌,
}
use justkv.Common.Assoc
use justkv.HashTable.{HashTable}
use justkv.Store.Lookup.{Serves}
use justkv.Metrics.{Metrics, Outcome, hit, miss, default, record_call, new}
use justkv.Metrics.Calls.{Call, Counts, run_calls, run_calls-Counts}
use justkv.Server.{AppState}
use justkv.Server.Handlers.{
  Method, get_method, head_method, Response, found, recorded_len, reply, lookup,
}

-- what the store answers to clients: the response contract
abbrev pub contract : Bytes → Option Bytes → Option Bytes → Response
contract content_type (some v) fallback = record {
  status = 200;
  headers = (codes "content-type", content_type) ∷ [];
  body = v;
}
contract content_type none (some d) = record {
  status = 200;
  headers = (codes "content-type", content_type) ∷ (codes "x-justkv-default", codes "1") ∷ [];
  body = d;
}
contract content_type none none = record { status = 404; headers = []; body = [] }

-- the bytes that reach the client: axum strips the body of the answer to a `HEAD`
abbrev pub wire_len : Method → Response → ℕ
wire_len head_method r = 0
wire_len get_method r = length r.body

has_header : Bytes → List (Bytes × Bytes) → Bool
has_header name [] = false
has_header name ((n, v) ∷ headers) = bytes_eq n name || has_header name headers

-- how a client tells the three kinds of answer apart
unfoldable pub seen_as : Response → Outcome
unfolding has_header bytes_eq
seen_as r =
    if r.status == 404
    then miss
    else if has_header (codes "x-justkv-default") r.headers
    then default
    else hit

-- a lookup that a client sends, and the time that its handling takes
pub record Request : Type 0 where
  pub key : Bytes
  pub method : Method
  pub elapsed : ℕ

module _ (h : HashTable) (s : AppState h) (l : List (Bytes × Bytes))
    (serves : Serves h l s.store) where
  abbrev pub answer : Request → Response
  answer q = contract s.content_type (Assoc.lookup q.key l) s.default_value

  -- what the client sees of a request, as a call of `record`
  abbrev pub seen_call : Request → Call
  seen_call q = record {
    outcome = seen_as (answer q);
    size = wire_len q.method (answer q);
    elapsed = if s.timing then some q.elapsed else none;
  }

  pub contract_cases :
      (c : Bytes) (v d : Option Bytes) (method : Method)
      → let f = found v d in
        (reply c f.body f.status f.is_default ≡ contract c v d)
        × (f.outcome ≡ seen_as (contract c v d))
        × (recorded_len method f.body ≡ wire_len method (contract c v d))
  unfolding found reply recorded_len seen_as
  contract_cases c (some v) d get_method = (refl, refl, refl)
  contract_cases c (some v) d head_method = (refl, refl, refl)
  contract_cases c none (some d) get_method = (refl, refl, refl)
  contract_cases c none (some d) head_method = (refl, refl, refl)
  contract_cases c none none get_method = (refl, refl, refl)
  contract_cases c none none head_method = (refl, refl, refl)

  -- Each lookup over a store that serves the list `l` keeps the response contract and does not
  -- panic: 200 with the value for a key of `l`, 200 with the default and the marking header for
  -- another key if a default is set, and otherwise 404 with no body. What it records is what the
  -- client sees: a marked answer as a default, and the bytes that reach the client, none for a
  -- `HEAD`.
  pub lookup-contract :
      (q : Request) (m : Metrics)
      → lookup h {E = Unit {0}} s q.key q.method q.elapsed m
        ≡ ok
            (answer q, record_call (seen_call q).outcome (seen_call q).size (seen_call q).elapsed m)
  unfolding lookup
  lookup-contract q m =
      let (r, o, n) =
        contract_cases s.content_type (Assoc.lookup q.key l) s.default_value q.method in
      rw (serves.answers q.key) (rw (r, o, n))

  -- the lookups of some requests, one after the other
  abbrev pub serve_all : List Request → Metrics → Result (Unit {0}) (List Response × Metrics)
  serve_all [] m = ok ([], m)
  serve_all (q ∷ qs) m = do
    (r, m') ← lookup h s q.key q.method q.elapsed m
    (rs, m'') ← serve_all qs m'
    ok (r ∷ rs, m'')

  serve_all-run_calls :
      (qs : List Request) (m : Metrics)
      → serve_all qs m ≡ ok (map answer qs, run_calls (map seen_call qs) m)
  unfolding run_calls
  serve_all-run_calls [] m = refl
  serve_all-run_calls (q ∷ qs) m = rw (lookup-contract q m) (rw (serve_all-run_calls qs _))

  -- After any requests on a fresh server all are answered by the contract, and the metrics count
  -- what the clients have seen: hits are the answers with a value of the dataset, misses the 404s
  -- and the answers that are marked as a default, and the bytes are those that reached clients.
  pub serve_all-Counts :
      (qs : List Request)
      → (m : Metrics) × (serve_all qs new ≡ ok (map answer qs, m)) × Counts (map seen_call qs) m
  serve_all-Counts qs = (
    run_calls (map seen_call qs) new,
    serve_all-run_calls qs new,
    run_calls-Counts (map seen_call qs),
  )
