-- ===== src/Cli/Serve/Lifetime.antt =====
-- src/main.rs: `build`, and then `serve` on what it wrote until a signal ends it.
use justkv.Common.{
  ℕ, ◌<◌, ◌≡◌, sym, ◌∙◌, subst, Bool, true, false, Option, none, List, [], ◌∷◌, ◌++◌, Bytes, Result,
  ok, length, u32_mod,
}
use justkv.HashTable.{HashTable}
use justkv.FileSystem.{FileSystem, Paths}
use justkv.Store.{Entry}
use justkv.Store.Windows.{pairs}
use justkv.Store.Lookup.{Serves}
use justkv.Store.CsvLoader.{LoadOptions, DataError, Reads, parse_csv}
use justkv.Store.CsvLoader.Spec.{Kept, kept_rows, problems}
use justkv.Store.CsvLoader.Layout.{pack, layout, dataset}
use justkv.Store.CsvLoader.Parts.{pairs-layout}
use justkv.Store.CsvLoader.Refinement.{Answer, parse_csv-Answer}
use justkv.Config.{BuildArgs, ServeArgs, load_options}
use justkv.Metrics.{Metrics, new}
use justkv.Metrics.Calls.{Counts}
use justkv.Server.{AppState}
use justkv.Server.Handlers.{Response, Json}
use justkv.Server.Router.{Incoming}
use justkv.Server.Router.Count.{replies, lookups}
use justkv.Server.Run.{Event, HttpServer, run}
use justkv.Server.Run.Answers.{IsStop, arriving, both, run-replies}
use justkv.Cli.{exit_ok, cmd_build}
use justkv.Cli.Build.{parsed, parsed-parse_csv}
use justkv.Cli.Serve.Ready.{expected_type}
use justkv.Cli.Serve.{run_started, worker_threads, cmd_serve}
use justkv.Cli.Serve.Deploy.{cmd_build-serve_start}

-- `Ok(())`
abbrev pub is_ok {ℓ κ} : {E : Type κ} {A : Type ℓ} → Result E A → Bool
is_ok (ok a) = true
is_ok _ = false

module _ (h : HashTable) (csv_hash : Bytes → ℕ) (utf8 : Bytes → Bool) (lossy : Bytes → Bytes)
    (opts : LoadOptions) where
  Answer-dataset :
      (kept : List Kept) (errs : List DataError) (arena : Bytes) (es : List Entry)
      → Answer h csv_hash utf8 lossy opts kept errs ≡ ok (arena, es)
      → pairs arena es ≡ dataset kept
  Answer-dataset kept [] arena es is =
      let first : pack kept ≡ arena = cc in
      let second : layout 0 kept ≡ es = cc in
      (λ i. pairs (sym first i) (sym second i)) ∙ pairs-layout [] kept
  Answer-dataset kept (e ∷ errs) arena es is = absurd (cc)

  -- the parts spell the rows that the specification keeps
  pub parse_csv-dataset :
      (read_records : ℕ → Bool → Bytes → Reads) (source arena : Bytes) (es : List Entry)
      → parse_csv h csv_hash utf8 lossy opts read_records source ≡ ok (arena, es)
      → pairs arena es
        ≡ dataset (kept_rows [] none (read_records opts.delimiter opts.has_header source))
  parse_csv-dataset read_records source arena es is =
      let reads = read_records opts.delimiter opts.has_header source in
      Answer-dataset (kept_rows [] none reads) (problems utf8 lossy opts [] none reads) arena es
        (sym (parse_csv-Answer h csv_hash utf8 lossy opts read_records source) ∙ is)

module _ (fs : FileSystem) (paths : Paths) (pid : ℕ) (nanos : ℕ → ℕ) (h : HashTable)
    (csv_hash store_hash : Bytes → ℕ) (utf8 : Bytes → Bool) (lossy : Bytes → Bytes)
    (read_records : ℕ → Bool → Bytes → Reads) (is_header_value : Bytes → Bool)
    (display : Bytes → Bytes) (http : HttpServer) (percent_decode : Bytes → Bytes)
    (show_u64 show_seconds : ℕ → Bytes) (to_json : List (Bytes × Json) → Bytes) (load_ms : ℕ)
    (build_runtime : Option ℕ → Bool) where
  open fs use {World, read}
  open http use {Listener, bind, local_addr}

  -- the rows that a build takes from its source
  abbrev pub rows : BuildArgs → Bytes → List Kept
  rows args source =
      let opts = load_options args.parse (paths.extension args.path) in
      kept_rows [] none (read_records opts.delimiter opts.has_header source)

  abbrev pub running : AppState h → Bytes → List Event → Result Bytes (List Response × Metrics)
  running s address events =
      run http both h percent_decode show_u64 show_seconds to_json load_ms s address new events

  abbrev pub served_code : World → ServeArgs → List Event → Result (Unit {0}) ℕ
  served_code w sargs events =
      cmd_serve h is_header_value csv_hash store_hash utf8 lossy read_records (read w)
        paths.extension display build_runtime (λ s address. is_ok (running s address events)) sargs

  -- a server on these rows, and the answers to some requests while it ran
  abbrev pub Ran :
      World → ServeArgs → List (Bytes × Bytes) → List Incoming → List Event → AppState h → Type 0
  Ran w sargs l qs events s =
      (serves : Serves h l s.store) × (m : Metrics) × (running s sargs.bind events
        ≡ ok (replies h percent_decode show_u64 show_seconds to_json s load_ms l serves qs new, m))
      × Counts (lookups h percent_decode show_u64 show_seconds to_json s load_ms l serves qs) m
      × (served_code w sargs events ≡ ok exit_ok)

  -- From the source to the last answer. After a `build` that exited with 0, a `serve` of its output
  -- runs on a state whose store is the finite map of the rows that the specification keeps of the
  -- source. It answers every request that comes before the first SIGINT or SIGTERM from those rows,
  -- as its route says, with the content type that the build implies and the default value of its
  -- arguments; nothing after the signal is answered; the metrics count the requests that named a
  -- key; and it exits with 0. The output must be readable, the content type a legal header, the
  -- parts fewer than 2 ^ 32, the runtime startable, the address free, both signal handlers
  -- registered, and the requests come one at a time.
  pub cmd_build-cmd_serve :
      (w w' : World) (args : BuildArgs) (sargs : ServeArgs) (file addr : Bytes)
      (listener : Listener) (qs : List Incoming) (stop : Event) (rest : List Event)
      → cmd_build fs paths pid nanos h csv_hash utf8 lossy read_records w args ≡ ok (exit_ok, w')
      → read w' args.out ≡ ok file
      → ((arena : Bytes) (es : List Entry)
          → parsed fs paths pid nanos h csv_hash utf8 lossy read_records w args ≡ ok (arena, es)
          → length es < u32_mod)
      → sargs.path ≡ args.out
      → is_header_value (expected_type sargs.content_type args.parse.allow_binary) ≡ true
      → build_runtime (worker_threads sargs.workers) ≡ true
      → bind sargs.bind ≡ ok listener
      → local_addr listener ≡ ok addr
      → IsStop stop
      → (source : Bytes) × (s : AppState h) × (read w args.path ≡ ok source)
        × (s.content_type ≡ expected_type sargs.content_type args.parse.allow_binary)
        × (s.default_value ≡ sargs.default_value)
        × Ran w' sargs (dataset (rows args source)) qs (arriving qs ++ stop ∷ rest) s
  unfolding cmd_serve run_started
  cmd_build-cmd_serve w w' args sargs file addr listener qs stop rest done here few there legal
        starts bound named stops =
      let (arena, es, parts, s, ready_is, serves, keys, kind, fallback) =
        cmd_build-serve_start fs paths pid nanos h csv_hash store_hash utf8 lossy read_records
          is_header_value display w w' args sargs file done here few there legal in
      let (source, reads, text) =
        parsed-parse_csv fs paths pid nanos h csv_hash utf8 lossy read_records w args arena es
          parts in
      let spelt =
        parse_csv-dataset h csv_hash utf8 lossy
          (load_options args.parse (paths.extension args.path)) read_records source arena es text in
      let serves' : Serves h (dataset (rows args source)) s.store =
        subst (λ l. Serves h l s.store) spelt serves in
      let (m, ran, counts) =
        run-replies http h percent_decode show_u64 show_seconds to_json load_ms s
          (dataset (rows args source)) serves' sargs.bind addr listener qs stop rest bound named
          stops in
      (
        source,
        s,
        reads,
        kind,
        fallback,
        (serves', m, ran, counts, rw ready_is (rw starts (rw ran))),
      )
