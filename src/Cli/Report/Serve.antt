-- ===== src/Cli/Report/Serve.antt =====
-- src/main.rs: what `serve` prints before its server runs, beside what `check` prints.
use justkv.Common.{
  ℕ, Bool, ◌≡◌, ap, false, List, [], ◌∷◌, ◌++◌, Bytes, codes, Result, ok, err, panic, if◌then◌else◌,
}
use justkv.Common.Writing.{Writing}
use justkv.HashTable.{HashTable}
use justkv.FileSystem.{FileSystem, Paths}
use justkv.Store.CsvLoader.{LoadOptions, DataError, Reads, parse_csv}
use justkv.Store.CsvLoader.Spec.{Kept}
use justkv.Store.CsvLoader.Refinement.{Answer, parse_csv-Answer}
use justkv.Store.Compiled.{is_compiled}
use justkv.Store.Load.{Loaded, LoadFailure, io, load, load_parts}
use justkv.Store.Load.Display.{failure_text}
use justkv.Config.{ServeArgs, DataArgs, load_options}
use justkv.Cli.{exit_invalid_data}
use justkv.Cli.Serve.{Start, refused, content_type_or, is_binary, failure_code, serve_start}
use justkv.Cli.Report.{newline, cannot}
use justkv.Cli.Report.Problems.{listed, listed_with_path, failure_text-listed}
use justkv.Cli.Report.Check.{code, prints, problems_of, kept_of, cmd_check-Reports, Reports}

module _ (fmt : Writing) (show_path : Bytes → Bytes) (h : HashTable)
    (is_header_value : Bytes → Bool) where
  -- the match on `LoadFailure`
  unfoldable pub failure_prints : ServeArgs → LoadFailure → Bytes
  failure_prints args (io e) = cannot fmt show_path (codes "read ") args.path e
  failure_prints args e = codes "error: " ++ (failure_text fmt e ++ newline)

  -- the match on `HeaderValue::from_str`
  abbrev pub header_prints : Bytes → Bytes
  header_prints content_type =
      if is_header_value content_type
      then []
      else codes "error: invalid --content-type value: " ++ (fmt.debug content_type ++ newline)

  unfoldable pub load_prints : ServeArgs → Result LoadFailure (Loaded h) → Bytes
  unfolding failure_prints
  load_prints args (ok loaded) =
      header_prints (content_type_or args.content_type (is_binary loaded.flags))
  load_prints args (err e) = failure_prints args e
  load_prints args panic = []

  module _ (fs : FileSystem) (paths : Paths) (pid : ℕ) (nanos : ℕ → ℕ)
      (csv_hash store_hash : Bytes → ℕ) (utf8 : Bytes → Bool) (lossy : Bytes → Bytes)
      (read_records : ℕ → Bool → Bytes → Reads) where
    open fs use {World, read}

    -- to stderr, up to the runtime
    unfoldable pub serve_start_prints : World → ServeArgs → Bytes
    unfolding load_prints
    serve_start_prints w args = load_prints args (
        load h csv_hash store_hash utf8 lossy read_records (read w) args.path
          (load_options args.parse (paths.extension args.path)))

    abbrev pub checking : ServeArgs → DataArgs
    checking args = record { path = args.path; parse = args.parse }

    abbrev pub starts : World → ServeArgs → Result (Unit {0}) (Start h)
    starts w args =
        serve_start h is_header_value csv_hash store_hash utf8 lossy read_records (read w)
          paths.extension show_path args

    abbrev pub checks : World → ServeArgs → Result (Unit {0}) ℕ
    checks w args =
        code fmt show_path fs paths pid nanos h csv_hash utf8 lossy read_records w (checking args)

    abbrev pub check_stderr : World → ServeArgs → Bytes
    check_stderr w args =
        (prints fmt show_path fs paths pid nanos h csv_hash utf8 lossy read_records w
          (checking args)).stderr

    abbrev pub found : ServeArgs → Bytes → List DataError
    found args source =
        problems_of fmt show_path fs paths pid nanos h csv_hash utf8 lossy read_records
          (checking args) source

    -- both name all of these problems
    abbrev pub SayAlike : World → ServeArgs → List DataError → Type 0
    SayAlike w args errs =
        (starts w args ≡ ok (refused exit_invalid_data))
        × (check_stderr w args ≡ listed_with_path fmt show_path args.path errs)
        × (serve_start_prints w args ≡ listed fmt errs)

    abbrev opts : ServeArgs → LoadOptions
    opts args = load_options args.parse (paths.extension args.path)

    by_problems :
        (w : World) (args : ServeArgs) (source : Bytes) (kept : List Kept) (errs : List DataError)
        → read w args.path ≡ ok source
        → is_compiled source ≡ false
        → parse_csv h csv_hash utf8 lossy (opts args) read_records source
          ≡ Answer h csv_hash utf8 lossy (opts args) kept errs
        → Reports fmt show_path fs paths pid nanos h csv_hash utf8 lossy read_records w
            (checking args)
            kept
            errs
        → checks w args ≡ ok exit_invalid_data
        → SayAlike w args errs
    unfolding serve_start serve_start_prints load load_parts failure_code
    by_problems w args source kept [] here text is (c, p) refuses = absurd (cc)
    by_problems w args source kept (e ∷ es) here text is (c, p) refuses = (
      rw here (rw text (rw is)),
      ap (λ r. r.stderr) p,
      rw here (rw text (rw is (failure_text-listed fmt (e ∷ es)))),
    )

    -- `check` and `serve` find the same problems. Where `check` exits with 1 on a file that can be
    -- read and lacks the magic, `serve` with the same parsing flags exits with 1 before it binds
    -- its port, and both print the problems that the specification finds, all of them and in order:
    -- `check` with the path in front of each, `serve` behind one `error: `, and each with their
    -- number at the end.
    pub serve_start-SayAlike :
        (w : World) (args : ServeArgs) (source : Bytes)
        → read w args.path ≡ ok source
        → is_compiled source ≡ false
        → checks w args ≡ ok exit_invalid_data
        → SayAlike w args (found args source)
    serve_start-SayAlike w args source here text refuses =
        by_problems w args source
          (kept_of fmt show_path fs paths pid nanos h csv_hash utf8 lossy read_records
            (checking args) source)
          (found args source) here text
          (parse_csv-Answer h csv_hash utf8 lossy (opts args) read_records source)
          (cmd_check-Reports fmt show_path fs paths pid nanos h csv_hash utf8 lossy read_records w
            (checking args) source here)
          refuses
