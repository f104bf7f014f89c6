-- ===== src/Cli/Main.antt =====
-- src/main.rs, `main`: the subcommand that the command line names, and how the process ends.
pub mod Serving
pub mod Serves
pub mod Total
use justkv.Common.{
  ℕ, Bool, true, false, ◌&&◌, ◌||◌, ◌==◌, Option, List, [], ◌∷◌, Bytes, Result, ok, err, panic,
  ◌>>=◌, if◌then◌else◌,
}
use justkv.Common.Writing.{Writing}
use justkv.HashTable.{HashTable}
use justkv.FileSystem.{FileSystem, Paths}
use justkv.Store.CsvLoader.{Reads}
use justkv.Config.{
  Command, serve, check, build, healthcheck, DataArgs, BuildArgs, ServeArgs, HealthArgs,
}
use justkv.Metrics.{Metrics, new}
use justkv.Server.{AppState}
use justkv.Server.Handlers.{Json, Response}
use justkv.Server.Run.{Event, Signals, Future, completed, awaits, shutdown_signal, HttpServer, run}
use justkv.Cli.{exit_ok, exit_io, cmd_check, cmd_build}
use justkv.Cli.Report.{Printed, cmd_check_prints, cmd_build_prints}
use justkv.Cli.Serve.{Start, refused, ready, worker_threads, serve_start}
use justkv.Cli.Healthcheck.{Net, cmd_healthcheck}

-- An exit code; a panic; or a server that still runs after the last of the events.
pub data Ending : Type 0 where
  exits : ℕ → Ending
  panics serving : Ending

-- Whether the standard streams take what is written. `println!` and `eprintln!` panic where they do
-- not.
pub record Streams : Type 0 where
  pub stdout_ok : Bool
  pub stderr_ok : Bool

abbrev is_nil : Bytes → Bool
is_nil [] = true
is_nil (c ∷ b) = false

abbrev pub takes : Streams → Printed → Bool
takes s p = (is_nil p.stdout || s.stdout_ok) && (is_nil p.stderr || s.stderr_ok)

-- the end of a subcommand that prints this, and then returns the code
unfoldable pub ended : Bool → Result (Unit {0}) ℕ → Ending
ended written (ok code) = if written then exits code else panics
ended written _ = panics

abbrev pub code_of {ℓ} : {W : Type ℓ} → Result (Unit {0}) (ℕ × W) → Result (Unit {0}) ℕ
code_of (ok (code, w)) = ok code
code_of (err e) = err e
code_of panic = panic

-- whether the future has completed by the last of the events
unfoldable pub has_completed : Future → List Event → Bool
has_completed completed events = true
has_completed (awaits p) [] = false
has_completed (awaits p) (e ∷ events) = p e || has_completed (awaits p) events

-- `block_on(run(..))`, where the server has come to its end
unfoldable pub after_run : Result Bytes (List Response × Metrics) → Ending
after_run (ok r) = exits exit_ok
after_run (err e) = exits exit_io
after_run panic = panics

-- The port, and then the server, with how it ends. `axum::serve` does not return before its future
-- has completed.
unfoldable pub after_bind : Bool → Result Bytes Bytes → Ending → Ending
after_bind stops (ok addr) e = if stops then e else serving
after_bind stops (err m) e = exits exit_io
after_bind stops panic e = panics

module _ (fmt : Writing) (display : Bytes → Bytes) (fs : FileSystem) (paths : Paths) (pid : ℕ)
    (nanos : ℕ → ℕ) (h : HashTable) (csv_hash store_hash : Bytes → ℕ) (utf8 : Bytes → Bool)
    (lossy : Bytes → Bytes) (read_records : ℕ → Bool → Bytes → Reads)
    (is_header_value : Bytes → Bool) (build_runtime : Option ℕ → Bool) (http : HttpServer)
    (signals : Signals) (percent_decode : Bytes → Bytes) (show_u64 show_seconds : ℕ → Bytes)
    (to_json : List (Bytes × Json) → Bytes) (load_ms : ℕ) (net : Net) where
  -- the address that the server listens at
  abbrev pub listen : Bytes → Result Bytes Bytes
  listen address = do l ← http.bind address; http.local_addr l

  -- `run` on the state, for the events that come while it serves
  unfoldable pub run_ending : AppState h → Bytes → List Event → Ending
  unfolding after_bind after_run has_completed
  run_ending s address events =
      after_bind (has_completed (shutdown_signal signals) events) (listen address) (
        after_run (
          run http signals h percent_decode show_u64 show_seconds to_json load_ms s address new
            events))

  unfoldable pub start_ending : ServeArgs → List Event → Result (Unit {0}) (Start h) → Ending
  unfolding run_ending
  start_ending args events (ok (refused code)) = exits code
  start_ending args events (ok (ready s)) =
      if build_runtime (worker_threads args.workers)
      then run_ending s args.bind events
      else exits exit_io
  start_ending args events _ = panics

  -- `cmd_serve`. On each of its ways it prints to stderr first: an error, or the line of `run`.
  unfoldable pub serve_ending : fs.World → ServeArgs → List Event → Ending
  unfolding start_ending serve_start
  serve_ending w args events = start_ending args events (
      serve_start h is_header_value csv_hash store_hash utf8 lossy read_records (fs.read w)
        paths.extension display args)

  abbrev check_ending : Streams → fs.World → DataArgs → Ending
  check_ending streams w args =
      ended
        (takes streams (
          cmd_check_prints fmt display fs paths pid nanos h csv_hash utf8 lossy read_records w
            args))
        (cmd_check fs paths pid nanos h csv_hash utf8 lossy read_records w args)

  abbrev build_ending : Streams → fs.World → BuildArgs → Ending
  build_ending streams w args =
      ended
        (takes streams (
          cmd_build_prints fmt display fs paths pid nanos h csv_hash utf8 lossy read_records w
            args))
        (code_of (cmd_build fs paths pid nanos h csv_hash utf8 lossy read_records w args))

  -- A probe prints nothing where it succeeds, and otherwise a line to stderr.
  abbrev probe_ending : Streams → HealthArgs → Ending
  probe_ending streams args =
      let code = cmd_healthcheck net lossy args in ended (code == 0 || streams.stderr_ok) (ok code)

  unfoldable pub run_command : Streams → fs.World → List Event → Command → Ending
  unfolding ended cmd_check cmd_build serve_ending cmd_healthcheck cmd_check_prints cmd_build_prints
  run_command streams w events (check args) = check_ending streams w args
  run_command streams w events (build args) = build_ending streams w args
  run_command streams w events (serve args) =
      if streams.stderr_ok then serve_ending w args events else panics
  run_command streams w events (healthcheck args) = probe_ending streams args
