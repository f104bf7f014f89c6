-- ===== src/Cli/Serve.antt =====
-- src/main.rs, `cmd_serve`: load, choose the content type, make the state that the handlers share,
-- and run the server on it.
pub mod Ready
pub mod Deploy
pub mod Verdict
pub mod Lifetime
use justkv.Common.{
  ℕ, Bool, true, false, not, Option, none, some, List, Bytes, codes, Result, ok, err, panic, ◌>>=◌,
  ◌==◌, if◌then◌else◌, ltb, bit_and,
}
use justkv.HashTable.{HashTable}
use justkv.Store.{Store, len, arena_len}
use justkv.Store.Compiled.{flag_binary}
use justkv.Store.CsvLoader.{Reads}
use justkv.Store.Load.{Loaded, LoadFailure, io, bad_data, bad_file, load, as_str}
use justkv.Config.{ServeArgs, load_options}
use justkv.Server.{AppState, default_content_type}
use justkv.Cli.{exit_ok, exit_invalid_data, exit_io}

unfoldable pub is_binary : ℕ → Bool
is_binary flags = not (bit_and flags flag_binary == 0)

abbrev pub content_type_or : Option Bytes → Bool → Bytes
content_type_or (some c) binary = c
content_type_or none binary =
    if binary then codes "application/octet-stream" else default_content_type

unfoldable pub failure_code : LoadFailure → ℕ
failure_code (io e) = exit_io
failure_code (bad_data es) = exit_invalid_data
failure_code (bad_file e) = exit_invalid_data

-- an exit code before the server runs, or the state that it runs on
pub data Start (h : HashTable) : Type 0 where
  refused : ℕ → Start h
  ready : AppState h → Start h

-- `w.max(1)`
abbrev at_least_one : ℕ → ℕ
at_least_one n = if ltb n 1 then 1 else n

abbrev pub worker_threads : Option ℕ → Option ℕ
worker_threads none = none
worker_threads (some n) = some (at_least_one n)

-- `is_header_value` is whether `HeaderValue::from_str` accepts a text.
module _ (h : HashTable) (is_header_value : Bytes → Bool) where
  -- `display` is the text of a path.
  unfoldable pub app_state : (Bytes → Bytes) → ServeArgs → Bytes → Loaded h → AppState h
  app_state display args content_type loaded = record {
    store = loaded.store;
    default_value = args.default_value;
    content_type = content_type;
    keys = len h loaded.store;
    arena_bytes = arena_len h loaded.store;
    source = display loaded.source;
    format = as_str loaded.format;
    timing = not args.no_metrics;
  }

  unfoldable pub with_header : (Bytes → Bytes) → ServeArgs → Bytes → Bool → Loaded h → Start h
  unfolding app_state
  with_header display args content_type valid loaded =
      if valid then ready (app_state display args content_type loaded) else refused exit_io

  unfoldable pub after_load :
      (Bytes → Bytes) → ServeArgs → Result LoadFailure (Loaded h) → Result (Unit {0}) (Start h)
  unfolding failure_code with_header is_binary
  after_load display args (ok loaded) =
      let content_type = content_type_or args.content_type (is_binary loaded.flags) in
      ok (with_header display args content_type (is_header_value content_type) loaded)
  after_load display args (err e) = ok (refused (failure_code e))
  after_load display args panic = panic

  module _ (csv_hash store_hash : Bytes → ℕ) (utf8 : Bytes → Bool) (lossy : Bytes → Bytes)
      (read_records : ℕ → Bool → Bytes → Reads) (read_file : Bytes → Result Bytes Bytes)
      (extension : Bytes → Option Bytes) (display : Bytes → Bytes) where
    unfoldable pub serve_start : ServeArgs → Result (Unit {0}) (Start h)
    unfolding after_load
    serve_start args = after_load display args (
        load h csv_hash store_hash utf8 lossy read_records read_file args.path
          (load_options args.parse (extension args.path)))

    -- `build_runtime` is whether tokio's runtime starts with these worker threads, `run` whether the
    -- server on this state and address ended without an error.
    module _ (build_runtime : Option ℕ → Bool) (run : AppState h → Bytes → Bool) where
      unfoldable pub run_started : ServeArgs → Start h → ℕ
      run_started args (refused code) = code
      run_started args (ready s) =
          if build_runtime (worker_threads args.workers)
          then if run s args.bind then exit_ok else exit_io
          else exit_io

      unfoldable pub cmd_serve : ServeArgs → Result (Unit {0}) ℕ
      unfolding run_started serve_start
      cmd_serve args = do start ← serve_start args; ok (run_started args start)
