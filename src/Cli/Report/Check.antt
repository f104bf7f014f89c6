-- ===== src/Cli/Report/Check.antt =====
-- What `check` prints, against the specification of the problems.
use justkv.Common.{
  ℕ, ◌+◌, Bool, ◌≡◌, refl, ap, sym, ◌∙◌, ◌⊎◌, inl, inr, none, List, [], ◌∷◌, Bytes, Result, ok,
  length, All, Lacks, arith,
}
use justkv.Common.Writing.{Writing}
use justkv.HashTable.{HashTable}
use justkv.FileSystem.{FileSystem, Paths}
use justkv.Store.CsvLoader.{DataError, Reads, parse_csv}
use justkv.Store.CsvLoader.Spec.{Kept, size, kept_rows, problems}
use justkv.Store.CsvLoader.Layout.{length-pack, length-layout}
use justkv.Store.CsvLoader.Refinement.{Answer, parse_csv-Answer}
use justkv.Config.{load_options, DataArgs}
use justkv.Cli.{exit_ok, exit_invalid_data, parse_validated, cmd_check}
use justkv.Cli.Report.{
  Printed, out, error, report, ok_line, parse_validated_stderr, cmd_check_prints,
}
use justkv.Cli.Report.Problems.{listed_with_path, report-listed}
use justkv.Cli.Report.Lines.{lines, HasOneLine, lines-report, report-inj}

module _ (fmt : Writing) (display : Bytes → Bytes) (fs : FileSystem) (paths : Paths) (pid : ℕ)
    (nanos : ℕ → ℕ) (h : HashTable) (csv_hash : Bytes → ℕ) (utf8 : Bytes → Bool)
    (lossy : Bytes → Bytes) (read_records : ℕ → Bool → Bytes → Reads) where
  open fs use {World, read}

  abbrev pub code : World → DataArgs → Result (Unit {0}) ℕ
  code w args = cmd_check fs paths pid nanos h csv_hash utf8 lossy read_records w args

  abbrev pub prints : World → DataArgs → Printed
  prints w args =
      cmd_check_prints fmt display fs paths pid nanos h csv_hash utf8 lossy read_records w args

  -- the rows that the reader yields of a file
  abbrev pub reads : DataArgs → Bytes → Reads
  reads args source =
      let opts = load_options args.parse (paths.extension args.path) in
      read_records opts.delimiter opts.has_header source

  abbrev pub kept_of : DataArgs → Bytes → List Kept
  kept_of args source = kept_rows [] none (reads args source)

  abbrev pub problems_of : DataArgs → Bytes → List DataError
  problems_of args source =
      problems utf8 lossy (load_options args.parse (paths.extension args.path)) [] none
        (reads args source)

  -- the exit code and what is printed, where these are the rows kept and the problems
  abbrev pub Reports : World → DataArgs → List Kept → List DataError → Type 0
  Reports w args kept [] =
      (code w args ≡ ok exit_ok)
      × (prints w args ≡ out (ok_line fmt display args.path (length kept) (size kept)))
  Reports w args kept (e ∷ es) =
      (code w args ≡ ok exit_invalid_data)
      × (prints w args ≡ error (listed_with_path fmt display args.path (e ∷ es)))

  by_answer :
      (w : World) (args : DataArgs) (source : Bytes) (kept : List Kept) (errs : List DataError)
      → read w args.path ≡ ok source
      → (let opts = load_options args.parse (paths.extension args.path) in
          parse_csv h csv_hash utf8 lossy opts read_records source
          ≡ Answer h csv_hash utf8 lossy opts kept errs)
      → Reports w args kept errs
  unfolding cmd_check cmd_check_prints parse_validated parse_validated_stderr
  by_answer w args source kept [] here is =
      (rw here (rw is), rw here (rw is (rw (length-layout 0 kept, length-pack kept))))
  by_answer w args source kept (e ∷ es) here is =
      (rw here (rw is), rw here (rw is (ap error (report-listed fmt display args.path (e ∷ es)))))

  -- `check` reports every problem, and only problems. On a file that can be read, what it prints is
  -- fixed by the specification: if that finds no problem, one line on stdout with the number of
  -- rows and of their bytes, nothing on stderr, and exit code 0; otherwise nothing on stdout, a
  -- line on stderr for each problem in order, then their number, and exit code 1.
  pub cmd_check-Reports :
      (w : World) (args : DataArgs) (source : Bytes)
      → read w args.path ≡ ok source
      → Reports w args (kept_of args source) (problems_of args source)
  cmd_check-Reports w args source here =
      by_answer w args source (kept_of args source) (problems_of args source) here (
        parse_csv-Answer h csv_hash utf8 lossy (load_options args.parse (paths.extension args.path))
          read_records source)

  stderr_of :
      (w : World) (args : DataArgs) (kept : List Kept) (errs : List DataError)
      → Reports w args kept errs
      → All HasOneLine errs
      → Lacks 10 (display args.path)
      → ((errs ≡ []) × ((prints w args).stderr ≡ []))
        ⊎ ((lines (prints w args).stderr ≡ length errs + 1)
            × ((prints w args).stderr ≡ report fmt display args.path errs))
  stderr_of w args kept [] (c, p) one plain = inl (refl, ap (λ r. r.stderr) p)
  stderr_of w args kept (e ∷ es) (c, p) one plain =
      let same = ap (λ r. r.stderr) p ∙ sym (report-listed fmt display args.path (e ∷ es)) in
      inr (ap lines same ∙ lines-report fmt display args.path plain (e ∷ es) one, same)

  -- The report loses nothing: if two runs of `check` on files at one path print the same to stderr,
  -- then the files have the same problems, with the same lines, kinds, keys, first lines and
  -- counts. The path and the messages of the reader, which stand in the lines, must have no
  -- newline.
  pub cmd_check-tells :
      (w w' : World) (args : DataArgs) (source source' : Bytes)
      → read w args.path ≡ ok source
      → read w' args.path ≡ ok source'
      → Lacks 10 (display args.path)
      → All HasOneLine (problems_of args source)
      → All HasOneLine (problems_of args source')
      → (prints w args).stderr ≡ (prints w' args).stderr
      → problems_of args source ≡ problems_of args source'
  cmd_check-tells w w' args source source' here there plain one one' same =
      let a =
        stderr_of w args (kept_of args source) (problems_of args source)
          (cmd_check-Reports w args source here) one plain in
      let b =
        stderr_of w' args (kept_of args source') (problems_of args source')
          (cmd_check-Reports w' args source' there) one' plain in
      by_stderr a b
    where
      by_stderr :
          ((problems_of args source ≡ []) × ((prints w args).stderr ≡ []))
            ⊎ ((lines (prints w args).stderr ≡ length (problems_of args source) + 1)
                × ((prints w args).stderr ≡ report fmt display args.path (problems_of args source)))
          → ((problems_of args source' ≡ []) × ((prints w' args).stderr ≡ []))
            ⊎ ((lines (prints w' args).stderr ≡ length (problems_of args source') + 1)
                × ((prints w' args).stderr
                    ≡ report fmt display args.path (problems_of args source')))
          → problems_of args source ≡ problems_of args source'
      by_stderr (inl (none_a, pa)) (inl (none_b, pb)) = none_a ∙ sym none_b
      by_stderr (inl (none_a, pa)) (inr (n, pb)) =
          absurd (omega (arith, ap lines pa, ap lines same, n))
      by_stderr (inr (n, pa)) (inl (none_b, pb)) =
          absurd (omega (arith, ap lines pb, ap lines same, n))
      by_stderr (inr (n, pa)) (inr (m, pb)) =
          report-inj fmt display args.path plain _ _ one one' (sym pa ∙ same ∙ pb)
