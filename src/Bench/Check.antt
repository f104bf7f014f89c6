-- ===== src/Bench/Check.antt =====
-- bench/gen.rs, and then `check` of src/main.rs on what it wrote.
use justkv.Common.{
  ℕ, ◌≤◌, ◌≡◌, ap, ◌∙◌, Bool, false, none, List, [], ◌∷◌, Bytes, Result, ok, length, arith, u32_max,
}
use justkv.Common.Writing.{Writing}
use justkv.HashTable.{HashTable}
use justkv.FileSystem.{FileSystem, Paths}
use justkv.Store.CsvLoader.{DataError, LoadOptions, Reads}
use justkv.Store.CsvLoader.Spec.{Kept, problems, kept_rows}
use justkv.Store.CsvLoader.Layout.{dataset}
use justkv.Config.{load_options, DataArgs}
use justkv.Cli.{exit_ok}
use justkv.Cli.Report.Check.{code, kept_of, Reports, cmd_check-Reports}
use justkv.Bench.{first_seed, generate}
use justkv.Bench.Accepted.{
  IsPlain, ReadsPlain, TakesAscii, tsv, records, pairs_from, rows_from-tsv, pairs_from-ArePlain,
  rows_accepted,
}

module _ (fmt : Writing) (hex : ℕ → Bytes) (hex-IsPlain : (n : ℕ) → IsPlain (hex n))
    (display : Bytes → Bytes) (fs : FileSystem) (paths : Paths) (pid : ℕ) (nanos : ℕ → ℕ)
    (h : HashTable) (csv_hash : Bytes → ℕ) (utf8 : Bytes → Bool) (ascii : TakesAscii utf8)
    (lossy : Bytes → Bytes) (read_records : ℕ → Bool → Bytes → Reads)
    (plain : ReadsPlain read_records) where
  open fs use {World, read}

  abbrev pub written : ℕ → Bytes
  written rows = generate fmt.show hex rows

  abbrev pub pairs_of : ℕ → List (Bytes × Bytes)
  pairs_of rows = pairs_from fmt.show hex rows 0 first_seed

  abbrev pub check_code : World → DataArgs → Result (Unit {0}) ℕ
  check_code w args = code fmt display fs paths pid nanos h csv_hash utf8 lossy read_records w args

  abbrev pub rows_kept : DataArgs → Bytes → List (Bytes × Bytes)
  rows_kept args source =
      dataset
        (kept_of fmt display fs paths pid nanos h csv_hash utf8 lossy read_records args source)

  abbrev opts : DataArgs → LoadOptions
  opts args = load_options args.parse (paths.extension args.path)

  by_problems :
      (w : World) (args : DataArgs) (kept : List Kept) (errs : List DataError)
      → errs ≡ []
      → Reports fmt display fs paths pid nanos h csv_hash utf8 lossy read_records w args kept errs
      → check_code w args ≡ ok exit_ok
  by_problems w args kept [] e (c, p) = c
  by_problems w args kept (x ∷ errs) e (c, p) = absurd (cc)

  -- A generated dataset is valid, whatever the number of rows, as long as it is below 4 GiB:
  -- `check` of the file that the generator wrote, with tab as the delimiter and no header, exits
  -- with 0, and the rows that it keeps are all that were generated, in order. The hexadecimal
  -- digits, the reader and the UTF-8 check are as documented on ASCII text without quotes.
  pub generate-check :
      (w : World) (args : DataArgs) (rows : ℕ)
      → read w args.path ≡ ok (written rows)
      → (load_options args.parse (paths.extension args.path)).delimiter ≡ 9
      → args.parse.header ≡ false
      → length (written rows) ≤ u32_max
      → (check_code w args ≡ ok exit_ok) × (rows_kept args (written rows) ≡ pairs_of rows)
  unfolding generate load_options
  generate-check w args rows here tabs plain_rows small =
      let source = written rows in
      let spelt : source ≡ tsv (pairs_of rows) = rows_from-tsv fmt.show hex rows 0 first_seed in
      let all_plain = pairs_from-ArePlain fmt hex hex-IsPlain rows 0 first_seed in
      let yields : read_records (opts args).delimiter (opts args).has_header source
          ≡ records 1 (pairs_of rows) =
        (λ i. read_records (tabs i) (plain_rows i) (spelt i)) ∙ plain (pairs_of rows) all_plain in
      let (none_wrong, all_kept) =
        rows_accepted fmt hex hex-IsPlain utf8 ascii lossy (opts args) rows 0 first_seed 1 [] none
          tt (omega (arith, small, ap length spelt)) in
      (
        by_problems w args _ _ (ap (problems utf8 lossy (opts args) [] none) yields ∙ none_wrong) (
            cmd_check-Reports fmt display fs paths pid nanos h csv_hash utf8 lossy read_records w
              args source here),
        ap (λ r. dataset (kept_rows [] none r)) yields ∙ all_kept,
      )
