-- ===== src/Tests/Lifetime.antt =====
-- A server in memory that keeps what axum documents of a graceful shutdown, and runs on it.
use justkv.Common.{
  ℕ, ◌≡◌, ◌↔◌, refl, true, false, none, some, List, [], ◌∷◌, ◌++◌, Bytes, codes, Result, ok, err,
  panic,
}
use justkv.Server.{AppState}
use justkv.Server.Handlers.{Json, get_method}
use justkv.Server.Router.{Incoming}
use justkv.Server.Run.{
  Event, terminate, request, Completes, until, requests, handle_all, HttpServer, shutdown_signal,
}
use justkv.Server.Run.Shutdown.{IsStopped, shutdown_signal-Completes}
use justkv.Server.Run.Answers.{arriving, both}
use justkv.Store.CsvLoader.Layout.{dataset}
use justkv.Cli.Serve.Ready.{expected_type}
use justkv.Cli.Serve.Lifetime.{Ran, rows, cmd_build-cmd_serve}
use justkv.Tests.Memory.{memory, one_directory, directory, build_args}
use justkv.Tests.Deployed.{compiled_file, built, build_done, built_read, serve_args, few}
use justkv.Tests.Samples.{list_table, weak_hash, plain_reader, no_ff, same_bytes}

abbrev answered : {A : Type 0} → Result (Unit {0}) A → Result Bytes A
answered (ok a) = ok a
answered (err e) = err []
answered panic = err []

abbrev pub in_memory : HttpServer
in_memory = record {
  Listener = Unit {0};
  bind = λ address. ok tt;
  local_addr = λ l. ok (codes "127.0.0.1:8080");
  serve = λ l handle f s events. answered (handle_all handle (requests (until f events)) s);
  serve_graceful = λ l handle f s events rs s' c h. rw h;
}

-- SIGTERM, with both handlers
shutdown_signal-Completes_example :
    Completes (shutdown_signal both) (terminate ∷ []) ↔ IsStopped both (terminate ∷ [])
shutdown_signal-Completes_example = shutdown_signal-Completes both (terminate ∷ [])

abbrev ask : Bytes → Bytes → Incoming
ask pattern parameter = record {
  pattern = some pattern;
  parameter = parameter;
  query = none;
  method = get_method;
  elapsed = 100;
  uptime_seconds = 3;
}

abbrev pub asked : List Incoming
asked = ask (codes "/kv/{key}") (codes "a") ∷ ask (codes "/health") [] ∷ []

abbrev late : List Event
late = request (ask (codes "/kv/{key}") (codes "b")) ∷ []

abbrev pub no_json : List (Bytes × Json) → Bytes
no_json fields = codes "{}"

abbrev pub tally : ℕ → Bytes
tally n = n ∷ []

cmd_build-cmd_serve_example :
    (text : Bytes) × (s : AppState list_table) × (memory.read directory (codes "s") ≡ ok text)
    × (s.content_type ≡ expected_type none false)
    × (s.default_value ≡ some (codes "-"))
    × Ran memory one_directory 7
        (λ attempt. 5)
        list_table
        weak_hash
        weak_hash
        no_ff
        same_bytes
        plain_reader
        (λ b. true)
        same_bytes
        in_memory
        same_bytes
        tally
        tally
        no_json
        0
        (λ threads. true)
        built
        serve_args
        (dataset (
          rows memory one_directory 7
            (λ attempt. 5)
            list_table
            weak_hash
            weak_hash
            no_ff
            same_bytes
            plain_reader
            (λ b. true)
            same_bytes
            in_memory
            same_bytes
            tally
            tally
            no_json
            0
            (λ threads. true)
            build_args
            text))
        asked
        (arriving asked ++ terminate ∷ late)
        s
cmd_build-cmd_serve_example =
    cmd_build-cmd_serve memory one_directory 7 (λ attempt. 5) list_table weak_hash weak_hash no_ff
      same_bytes plain_reader (λ b. true) same_bytes in_memory same_bytes tally tally no_json 0
      (λ threads. true) directory built build_args serve_args compiled_file (codes "127.0.0.1:8080")
      tt asked terminate late build_done built_read few refl refl refl refl refl refl
