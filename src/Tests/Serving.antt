-- ===== src/Tests/Serving.antt =====
-- Requests, queries and delimiters.
use Prim.Native.Nat.{◌+◌, ◌-◌, ◌*◌, ◌/◌, ◌%◌}
use justkv.Common.{
  Option, Lacks, ℕ, ◌<◌, ◌≡◌, ◌↔◌, refl, true, none, some, List, [], ◌∷◌, map, Bytes, codes,
  bytes_eq, ok, arith,
}
use justkv.Common.Assoc
use justkv.Store.{Store}
use justkv.Store.Lookup.{Serves, from_parts-Serves}
use justkv.Metrics.{Metrics, new, record_call}
use justkv.Metrics.Calls.{Counts}
use justkv.Server.{AppState, default_content_type}
use justkv.Server.Handlers.{get_method, head_method, Response, lookup}
use justkv.Server.Handlers.Replies.{
  Request, answer, seen_call, lookup-contract, serve_all, serve_all-Counts,
}
use justkv.Server.Query.{split, split_once, plus_decoded, find_key, key_from_query}
use justkv.Server.Query.Params.{
  query_string, decoded, k_name, key_from_query-query_string, key_from_query-k,
}
use justkv.Server.Handlers.{Json}
use justkv.Server.Router.{Incoming}
use justkv.Server.Router.Count.{replies, lookups, dispatch_all, dispatch_all-Counts}
use justkv.Config.{parse_ascii_delimiter, load_options}
use justkv.Config.Delimiter.{parse_ascii_delimiter_iff, load_options-delimiter}
use justkv.Tests.Samples.{list_table, weak_hash, same_bytes}

abbrev pub dataset : List (Bytes × Bytes)
dataset = (codes "alpha", codes "1") ∷ []

-- the store of that dataset
pub sample : (s : Store list_table) × Serves list_table dataset s
sample =
    let built =
      from_parts-Serves {E = Unit {0}} list_table weak_hash (codes "alpha1")
        (record { k_off = 0; k_len = 5; v_off = 5; v_len = 1 } ∷ []) (omega arith) (omega arith)
        (unfold bytes_eq in (refl, tt)) in
    (built.0, built.3)

abbrev pub app : AppState list_table
app = record {
  store = sample.0;
  default_value = some (codes "NA");
  content_type = default_content_type;
  keys = 1;
  arena_bytes = 6;
  source = codes "kv.csv";
  format = codes "csv";
  timing = true;
}

abbrev requests : List Request
requests =
    record { key = codes "alpha"; method = get_method; elapsed = 100 }
    ∷ record { key = codes "beta"; method = head_method; elapsed = 200 }
    ∷ []

lookup-contract_example :
    lookup list_table {E = Unit {0}} app (codes "beta") get_method 100 new
    ≡ ok (
      record {
        status = 200;
        headers =
            (codes "content-type", default_content_type)
            ∷ (codes "x-justkv-default", codes "1")
            ∷ [];
        body = codes "NA";
      },
      record_call justkv.Metrics.default 2 (some 100) new,
    )
unfolding bytes_eq justkv.Server.Handlers.Replies.seen_as
lookup-contract_example =
    lookup-contract list_table app dataset sample.1
      (record { key = codes "beta"; method = get_method; elapsed = 100 }) new

serve_all-Counts_example :
    (m : Metrics) × (serve_all list_table app dataset sample.1 requests new
      ≡ ok (map (answer list_table app dataset sample.1) requests, m))
    × Counts (map (seen_call list_table app dataset sample.1) requests) m
serve_all-Counts_example = serve_all-Counts list_table app dataset sample.1 requests

-- x=1&k=a+b&y=2
abbrev params : List (Bytes × Bytes)
params = (codes "x", codes "1") ∷ (codes "k", codes "a+b") ∷ (codes "y", codes "2") ∷ []

plus_is_space : key_from_query same_bytes (some (query_string params)) ≡ some (codes "a b")
unfolding key_from_query find_key split split_once plus_decoded bytes_eq
plus_is_space = refl

key_from_query-query_string_example :
    key_from_query same_bytes (some (query_string params))
    ≡ decoded same_bytes (Assoc.lookup (k_name same_bytes) params)
key_from_query-query_string_example = key_from_query-query_string same_bytes params (ground arith)

-- two letters for a byte
abbrev spell : Bytes → Bytes
spell [] = []
spell (b ∷ bs) = (b / 16 + 65) ∷ (b % 16 + 65) ∷ spell bs

abbrev unspell : Bytes → Bytes
unspell (a ∷ b ∷ rest) = ((a - 65) * 16 + (b - 65)) ∷ unspell rest
unspell _ = []

unspell-spell : (key : Bytes) → unspell (spell key) ≡ key
unspell-spell [] = refl
unspell-spell (b ∷ bs) =
    let e : (b / 16 + 65 - 65) * 16 + (b % 16 + 65 - 65) ≡ b = omega arith in
    rw (e, unspell-spell bs)

spell-Lacks : (key : Bytes) → Lacks b'&' (spell key) × Lacks b'+' (spell key)
spell-Lacks [] = (tt, tt)
spell-Lacks (b ∷ bs) =
    let (amp, plus) = spell-Lacks bs in
    ((ground arith, (ground arith, amp)), (ground arith, (ground arith, plus)))

key_from_query-k_example :
    key_from_query unspell (some (b'k' ∷ b'=' ∷ spell (1 ∷ 255 ∷ []))) ≡ some (1 ∷ 255 ∷ [])
key_from_query-k_example = key_from_query-k unspell spell unspell-spell spell-Lacks (1 ∷ 255 ∷ [])

parse_ascii_delimiter_iff_example :
    (parse_ascii_delimiter (b';' ∷ []) ≡ ok b';')
    ↔ (◌≡◌ {A = List ℕ} (b';' ∷ []) (b';' ∷ []) × (b';' < 128))
parse_ascii_delimiter_iff_example = parse_ascii_delimiter_iff (b';' ∷ []) b';'

load_options-delimiter_example :
    b';' ∷ []
    ≡ (load_options
        (record { delimiter = some b';'; header = true; allow_binary = true })
        none).delimiter
      ∷ []
load_options-delimiter_example =
    load_options-delimiter (b';' ∷ []) b';'
      (record { delimiter = some b';'; header = true; allow_binary = true }) none
      (unfold parse_ascii_delimiter in refl) refl

abbrev visit : Bytes → Bytes → Option Bytes → Incoming
visit pattern parameter query = record {
  pattern = some pattern;
  parameter = parameter;
  query = query;
  method = get_method;
  elapsed = 100;
  uptime_seconds = 3;
}

abbrev visits : List Incoming
visits =
    visit (codes "/kv/{key}") (codes "alpha") none
    ∷ visit (codes "/health") [] none
    ∷ visit (codes "/kv") [] (some (codes "k=beta"))
    ∷ visit (codes "/kv") [] none
    ∷ visit (codes "/metrics") [] none
    ∷ []

abbrev pub no_json : List (Bytes × Json) → Bytes
no_json fields = codes "{}"

dispatch_all-Counts_example :
    (m : Metrics) × (dispatch_all list_table same_bytes
        (λ n. n ∷ [])
        (λ n. n ∷ [])
        no_json
        app
        0
        dataset
        sample.1
        visits
        new
      ≡ ok (
        replies list_table same_bytes
            (λ n. n ∷ [])
            (λ n. n ∷ [])
            no_json
            app
            0
            dataset
            sample.1
            visits
            new,
        m,
      ))
    × Counts
        (lookups list_table same_bytes
          (λ n. n ∷ [])
          (λ n. n ∷ [])
          no_json
          app
          0
          dataset
          sample.1
          visits)
        m
dispatch_all-Counts_example =
    dispatch_all-Counts list_table same_bytes (λ n. n ∷ []) (λ n. n ∷ []) no_json app 0 dataset
      sample.1 visits
