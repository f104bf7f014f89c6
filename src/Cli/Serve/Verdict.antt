-- ===== src/Cli/Serve/Verdict.antt =====
-- src/main.rs: what `check` says of a dataset, and what `serve` does with it.
use justkv.Common.{
  ℕ, ◌≡◌, refl, Bool, true, false, List, inl, inr, ◌⊎◌, panic, Bytes, Result, ok, err,
}
use justkv.HashTable.{HashTable}
use justkv.FileSystem.{FileSystem, Paths}
use justkv.Store.{Entry}
use justkv.Store.Windows.{pairs}
use justkv.Store.Lookup.{Serves}
use justkv.Store.CsvLoader.{Reads}
use justkv.Store.Load.{load}
use justkv.Config.{ServeArgs, load_options}
use justkv.Server.{AppState}
use justkv.Cli.{exit_ok}
use justkv.Cli.Serve.{after_load, ready, serve_start}
use justkv.Store.Load.{map_err}
use justkv.Store.Load.Agree.{load_csv}
use justkv.Store.Compiled.{is_compiled}
use justkv.Store.CsvLoader.{DataError, LoadOptions, parse_csv}
use justkv.Cli.{exit_invalid_data, cmd_check}
use justkv.Cli.Build.{Checked, parse_csv-Checked}
use justkv.Cli.Serve.{Start, refused, failure_code}
use justkv.Cli.Serve.Ready.{expected_type, after_load-ready}

module _ (fs : FileSystem) (paths : Paths) (pid : ℕ) (nanos : ℕ → ℕ) (h : HashTable)
    (csv_hash store_hash : Bytes → ℕ) (utf8 : Bytes → Bool) (lossy : Bytes → Bytes)
    (read_records : ℕ → Bool → Bytes → Reads) (is_header_value : Bytes → Bool)
    (display : Bytes → Bytes) (w : fs.World) (args : ServeArgs) where
  open fs use {World, contents, read}

  abbrev pub opts : LoadOptions
  opts = load_options args.parse (paths.extension args.path)

  abbrev pub serves_with : Result (Unit {0}) (Start h)
  serves_with =
      serve_start h is_header_value csv_hash store_hash utf8 lossy read_records (read w)
        paths.extension display args

  abbrev pub checks_with : Result (Unit {0}) ℕ
  checks_with =
      cmd_check fs paths pid nanos h csv_hash utf8 lossy read_records w
        (record { path = args.path; parse = args.parse })

  abbrev pub Verdict : Bytes → Type 0
  Verdict source =
      ((arena : Bytes) × (es : List Entry) × (s : AppState h) × (parse_csv h csv_hash utf8 lossy
            opts read_records source
          ≡ ok (arena, es))
        × (serves_with ≡ ok (ready s))
        × Serves h (pairs arena es) s.store
        × (checks_with ≡ ok exit_ok))
      ⊎ ((serves_with ≡ ok (refused exit_invalid_data)) × (checks_with ≡ ok exit_invalid_data))

  module _ (source : Bytes) (here : read w args.path ≡ ok source)
      (text : is_compiled source ≡ false)
      (legal : is_header_value (expected_type args.content_type args.parse.allow_binary)
        ≡ true) where
    by_parse :
        (r : Result (List DataError) (Bytes × List Entry))
        → parse_csv h csv_hash utf8 lossy opts read_records source ≡ r
        → Checked fs paths pid nanos h csv_hash utf8 lossy read_records
            (map_err (λ e. exit_invalid_data) r)
        → Verdict source
    unfolding serve_start cmd_check load load_options after_load failure_code
    by_parse (ok (arena, es)) is c =
        let (l, loads, format, flags, same, serves) =
          load_csv h csv_hash store_hash utf8 lossy read_records (read w) opts args.path source
            arena es here text is in
        let (s, starts, store, _, _, _) =
          after_load-ready h is_header_value display args args.parse.allow_binary l flags legal in
        inl (arena, es, s, is, rw loads starts, rw store serves, rw here (rw is))
    by_parse (err es) is c = inr (rw here (rw text (rw is)), rw here (rw is))
    by_parse panic is (inl (arena, es, e)) = absurd (cc)
    by_parse panic is (inr (inl e)) = absurd (cc)
    by_parse panic is (inr (inr e)) = absurd (cc)

    -- `check` foretells `serve`. For a file that can be read and lacks the magic, and a content
    -- type that is a legal header: with the same parsing flags either `serve` starts, on a store
    -- that is the finite map of the pairs that the file parses to, and `check` exits with 0, or
    -- `serve` exits with 1 before it binds its port and `check` exits with 1.
    pub serve_start-Verdict : Verdict source
    serve_start-Verdict =
        by_parse (parse_csv h csv_hash utf8 lossy opts read_records source) refl
          (parse_csv-Checked fs paths pid nanos h csv_hash utf8 lossy read_records opts source)
