-- ===== src/Cli/Main/Serves.antt =====
-- src/main.rs, `cmd_serve`: how it ends, from the load on.
use justkv.Common.{
  ℕ, ◌≡◌, refl, ap, sym, ◌∙◌, inl, inr, ◌⊎◌, Bool, true, false, Bool-cases, Option, none, some,
  List, [], Bytes, Result, ok, err, panic,
}
use justkv.Common.Writing.{Writing}
use justkv.HashTable.{HashTable}
use justkv.FileSystem.{FileSystem, Paths}
use justkv.Store.{get}
use justkv.Store.Lookup.{Stores}
use justkv.Store.Windows.{pairs}
use justkv.Store.CsvLoader.{Reads}
use justkv.Store.Load.{Loaded, LoadFailure, io, bad_data, bad_file, load}
use justkv.Store.Load.Total.{IsServable}
use justkv.Store.Load.Refusal.{Returns, IsBad, load-Returns}
use justkv.Config.{ServeArgs, load_options}
use justkv.Server.{AppState}
use justkv.Server.Handlers.{Json}
use justkv.Server.Run.{Event, Signals, HttpServer}
use justkv.Cli.{exit_invalid_data, exit_io}
use justkv.Cli.Serve.{
  Start, failure_code, is_binary, app_state, with_header, after_load, worker_threads, serve_start,
}
use justkv.Cli.Serve.Ready.{expected_type, content_type_or-expected_type}
use justkv.Cli.Healthcheck.{Net}
use justkv.Cli.Main.{Ending, exits, serve_ending, start_ending, run_ending}
use justkv.Cli.Main.Serving.{BindReturns, RunEnds, run_ending-RunEnds}

module _ (fmt : Writing) (display : Bytes → Bytes) (fs : FileSystem) (paths : Paths) (pid : ℕ)
    (nanos : ℕ → ℕ) (h : HashTable) (csv_hash store_hash : Bytes → ℕ) (utf8 : Bytes → Bool)
    (lossy : Bytes → Bytes) (read_records : ℕ → Bool → Bytes → Reads)
    (is_header_value : Bytes → Bool) (build_runtime : Option ℕ → Bool) (http : HttpServer)
    (returns : BindReturns http) (signals : Signals) (percent_decode : Bytes → Bytes)
    (show_u64 show_seconds : ℕ → Bytes) (to_json : List (Bytes × Json) → Bytes) (load_ms : ℕ)
    (net : Net) where
  open fs use {World, read}

  abbrev loads : World → ServeArgs → Result LoadFailure (Loaded h)
  loads w args =
      load h csv_hash store_hash utf8 lossy read_records (read w) args.path
        (load_options args.parse (paths.extension args.path))

  abbrev type_of : ServeArgs → Loaded h → Bytes
  type_of args l = expected_type args.content_type (is_binary l.flags)

  -- a server whose data are loaded: an illegal content type, a runtime that does not start, or `run`
  abbrev ReadyEnds : ServeArgs → List Event → Loaded h → Ending → Type 0
  ReadyEnds args events l e =
      ((is_header_value (type_of args l) ≡ false) × (e ≡ exits exit_io))
      ⊎ (((build_runtime (worker_threads args.workers) ≡ false) × (e ≡ exits exit_io))
          ⊎ ((is_header_value (type_of args l) ≡ true)
              × (build_runtime (worker_threads args.workers) ≡ true)
              × RunEnds http signals args.bind events e))

  -- 2 if the data cannot be read, 1 if they are refused, and otherwise as above
  abbrev pub ServeEnds : World → ServeArgs → List Event → Ending → Type 0
  ServeEnds w args events e =
      ((m : Bytes) × (read w args.path ≡ err m) × (e ≡ exits exit_io))
      ⊎ ((file : Bytes) × (read w args.path ≡ ok file)
          × (((f : LoadFailure) × (loads w args ≡ err f) × IsBad f × (e ≡ exits exit_invalid_data))
              ⊎ ((l : Loaded h) × (loads w args ≡ ok l) × ReadyEnds args events l e)))

  abbrev starting : ServeArgs → List Event → Result (Unit {0}) (Start h) → Ending
  starting args events r =
      start_ending fmt display fs paths pid nanos h csv_hash store_hash utf8 lossy read_records
        is_header_value build_runtime http signals percent_decode show_u64 show_seconds to_json
        load_ms net args events r

  IsBad-code : (f : LoadFailure) → IsBad f → failure_code f ≡ exit_invalid_data
  unfolding failure_code
  IsBad-code (io m) bad = absurd bad
  IsBad-code (bad_data es) bad = refl
  IsBad-code (bad_file e) bad = refl

  stored :
      (s : AppState h) (l : List (Bytes × Bytes))
      → Stores h l s.store
      → (q : Bytes) → (v : Option Bytes) × (get h {E = Unit {0}} s.store q ≡ ok v)
  stored s l stores q = elim (stores.answers q) [
    | inl (is, absent) ↦ (none, is)
    | inr (v, is, present) ↦ (some v, is)
  ]

  ready_ends :
      (args : ServeArgs) (events : List Event) (l : Loaded h)
      → IsServable h csv_hash store_hash utf8 lossy read_records
          (λ p. ok [])
          (load_options args.parse (paths.extension args.path))
          l
      → (content_type : Bytes) → content_type ≡ type_of args l
      → ReadyEnds args events l (
          starting args events (
            ok (
              with_header h is_header_value display args content_type
                (is_header_value content_type)
                l)))
  unfolding start_ending with_header run_ending app_state
  ready_ends args events l (es, stores) content_type is =
      let s = app_state h is_header_value display args content_type l in
      let runs =
        run_ending-RunEnds h percent_decode show_u64 show_seconds to_json load_ms s
          (stored s (pairs l.store.arena es) stores) http returns signals args.bind events in
      elim (Bool-cases (is_header_value content_type)) [
        | inr illegal ↦ inl (ap is_header_value (sym is) ∙ illegal, rw illegal refl)
        | inl legal ↦ elim (Bool-cases (build_runtime (worker_threads args.workers))) [
          | inr down ↦ inr (inl (down, rw (legal, down) refl))
          | inl up ↦ inr (inr (ap is_header_value (sym is) ∙ legal, up, rw (legal, up) runs))
        ]
      ]

  after_load-ends :
      (w : World) (args : ServeArgs) (events : List Event) (file : Bytes)
      (r : Result LoadFailure (Loaded h))
      → read w args.path ≡ ok file
      → loads w args ≡ r
      → Returns
          (IsServable h csv_hash store_hash utf8 lossy read_records
            (read w)
            (load_options args.parse (paths.extension args.path)))
          IsBad
          r
      → ServeEnds w args events (starting args events (after_load h is_header_value display args r))
  unfolding after_load
  after_load-ends w args events file (ok l) here is servable = inr (
    file,
    here,
    inr (
      l,
      is,
      ready_ends args events l servable _
          (content_type_or-expected_type args.content_type (is_binary l.flags)),
    ),
  )
  after_load-ends w args events file (err f) here is bad =
      inr (file, here, inl (f, is, bad, unfold start_ending in ap exits (IsBad-code f bad)))
  after_load-ends w args events file panic here is never = absurd never

  pub serve_ending-ServeEnds :
      (w : World) (args : ServeArgs) (events : List Event)
      → ServeEnds w args events (
          serve_ending fmt display fs paths pid nanos h csv_hash store_hash utf8 lossy read_records
            is_header_value build_runtime http signals percent_decode show_u64 show_seconds to_json
            load_ms net w args events)
  unfolding serve_ending serve_start
  serve_ending-ServeEnds w args events = elim (fs.read_returns w args.path) [
    | inr (m, here) ↦
        inl (m, here, unfold load after_load start_ending failure_code in rw here refl)
    | inl (file, here) ↦ after_load-ends w args events file (loads w args) here refl (
        load-Returns h csv_hash store_hash utf8 lossy read_records (read w)
          (load_options args.parse (paths.extension args.path)) args.path file here
          (fs.read_bytes w args.path file here))
  ]
