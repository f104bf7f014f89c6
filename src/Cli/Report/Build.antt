-- ===== src/Cli/Report/Build.antt =====
-- What `build` prints, by its exit code.
use justkv.Common.{
  ℕ, Bool, ◌≡◌, refl, ◌⊎◌, inl, inr, Option, none, some, List, ◌++◌, Bytes, codes, Result, ok, err,
  panic, length,
}
use justkv.Common.Writing.{Writing}
use justkv.HashTable.{HashTable}
use justkv.FileSystem.{FileSystem, Paths}
use justkv.Store.{Entry}
use justkv.Store.CsvLoader.{DataError, Reads, parse_csv}
use justkv.Config.{load_options, DataArgs, BuildArgs}
use justkv.Store.Compiled.{write_compiled}
use justkv.Store.Load.{map_err, binary_flag}
use justkv.Cli.{
  exit_ok, exit_invalid_data, exit_io, finalize, after_write, write_output, create_scratch_file,
  cmd_build,
}
use justkv.Cli.Build.{Checked, parse_csv-Checked}
use justkv.Cli.Report.{
  Printed, newline, out, error, built_line, finalize_prints, write_prints, output_prints,
  cmd_check_prints, cmd_build_prints, parsed,
}

-- one line on stderr, that begins so
abbrev pub SaysCannot : Printed → Type 0
SaysCannot p = (message : Bytes) × (p ≡ error (codes "error: cannot " ++ message))

module _ (fmt : Writing) (display : Bytes → Bytes) (fs : FileSystem) (paths : Paths) (pid : ℕ)
    (nanos : ℕ → ℕ) where
  open fs use {World, read, write_all, rename}

  -- from the match on `create_scratch_file` on
  abbrev Ends : BuildArgs → Bytes × List Entry → ℕ → Printed → Type 0
  Ends args (arena, es) code p =
      ((code ≡ exit_ok) × (p ≡ out (built_line fmt display args.out (length es) (length arena))))
      ⊎ ((code ≡ exit_io) × SaysCannot p)

  finalize-Ends :
      (args : BuildArgs) (arena : Bytes) (es : List Entry) (tmp : Bytes) (r : Option Bytes × World)
      → Ends args
          (arena, es)
          (finalize fs paths pid nanos tmp args.out r).0
          (finalize_prints fmt display fs paths pid nanos args (arena, es) r)
  unfolding finalize finalize_prints
  finalize-Ends args arena es tmp (none, w) = inl (refl, refl)
  finalize-Ends args arena es tmp (some e, w) = inr (refl, (_, refl))

  write-Ends :
      (args : BuildArgs) (arena : Bytes) (es : List Entry) (tmp : Bytes) (r : Option Bytes × World)
      → Ends args
          (arena, es)
          (after_write fs paths pid nanos tmp args.out r).0
          (write_prints fmt display fs paths pid nanos args (arena, es) tmp r)
  unfolding after_write write_prints
  write-Ends args arena es tmp (none, w) = finalize-Ends args arena es tmp (rename w tmp args.out)
  write-Ends args arena es tmp (some e, w) = inr (refl, (_, refl))

  output-Ends :
      (args : BuildArgs) (arena : Bytes) (es : List Entry) (file : Bytes)
      (r : (Bytes ⊎ Bytes) × World)
      → Ends args
          (arena, es)
          (write_output fs paths pid nanos args.out file r).0
          (output_prints fmt display fs paths pid nanos args (arena, es) file r)
  unfolding write_output output_prints
  output-Ends args arena es file (inl tmp, w) = write-Ends args arena es tmp (write_all w tmp file)
  output-Ends args arena es file (inr e, w) = inr (refl, (_, refl))

  module _ (h : HashTable) (csv_hash : Bytes → ℕ) (utf8 : Bytes → Bool) (lossy : Bytes → Bytes)
      (read_records : ℕ → Bool → Bytes → Reads) where
    abbrev pub checking : BuildArgs → DataArgs
    checking args = record { path = args.path; parse = args.parse }

    abbrev pub build_says : World → BuildArgs → Printed
    build_says w args =
        cmd_build_prints fmt display fs paths pid nanos h csv_hash utf8 lossy read_records w args

    abbrev pub check_says : World → BuildArgs → Printed
    check_says w args =
        cmd_check_prints fmt display fs paths pid nanos h csv_hash utf8 lossy read_records w
          (checking args)

    abbrev pub parts_of : World → BuildArgs → Result ℕ (Bytes × List Entry)
    parts_of w args =
        parsed fmt display fs paths pid nanos h csv_hash utf8 lossy read_records w args.path
          args.parse

    -- the exit code of `build`, and what it prints
    abbrev pub Says : World → BuildArgs → ℕ → Type 0
    Says w args code =
        ((code ≡ exit_ok)
          × ((arena : Bytes) × (es : List Entry) × (parts_of w args ≡ ok (arena, es))
              × (build_says w args
                  ≡ out (built_line fmt display args.out (length es) (length arena)))))
        ⊎ (((code ≡ exit_invalid_data) × (build_says w args ≡ check_says w args))
            ⊎ ((code ≡ exit_io) × SaysCannot (build_says w args)))

    abbrev Outcome : World → BuildArgs → Type 0
    Outcome w args =
        (code : ℕ) × (w' : World) × (cmd_build fs paths pid nanos h csv_hash utf8 lossy read_records
            w args
          ≡ ok (code, w'))
        × Says w args code

    by_csv :
        (w : World) (args : BuildArgs) (source : Bytes)
        (r : Result (List DataError) (Bytes × List Entry))
        → read w args.path ≡ ok source
        → parse_csv h csv_hash utf8 lossy
            (load_options args.parse (paths.extension args.path))
            read_records
            source
          ≡ r
        → Checked fs paths pid nanos h csv_hash utf8 lossy read_records
            (map_err (λ e. exit_invalid_data) r)
        → Outcome w args
    unfolding cmd_build cmd_build_prints cmd_check_prints
    by_csv w args source (ok (arena, es)) here is c =
        let file = write_compiled arena es (binary_flag args.parse.allow_binary) in
        let r = create_scratch_file fs paths pid nanos w args.out in
        (
          (write_output fs paths pid nanos args.out file r).0,
          (write_output fs paths pid nanos args.out file r).1,
          rw here (rw is),
          elim (output-Ends args arena es file r) [
            | inl (c, p) ↦ inl (c, (arena, es, rw here (rw is), rw here (rw is p)))
            | inr (c, (m, p)) ↦ inr (inr (c, (m, rw here (rw is p))))
          ],
        )
    by_csv w args source (err es) here is c =
        (exit_invalid_data, w, rw here (rw is), inr (inl (refl, rw here (rw is))))
    by_csv w args source panic here is (inl (_, _, e)) = absurd (cc)
    by_csv w args source panic here is (inr (inl e)) = absurd (cc)
    by_csv w args source panic here is (inr (inr e)) = absurd (cc)

    -- `build` says what became of it, whatever the calls of the file system answer. With exit code
    -- 0 it prints one line, on stdout, with the numbers of entries and bytes of the parts that the
    -- data parse to. With 1 it prints what `check` prints of the same data. With 2 it prints
    -- nothing on stdout, and on stderr a line that begins with `error: cannot`. There is no other
    -- exit code.
    pub cmd_build-Says :
        (w : World) (args : BuildArgs)
        → (code : ℕ) × (w' : World) × (cmd_build fs paths pid nanos h csv_hash utf8 lossy
              read_records w args
            ≡ ok (code, w'))
          × Says w args code
    unfolding cmd_build cmd_build_prints
    cmd_build-Says w args = elim (fs.read_returns w args.path) [
      | inl (source, here) ↦ by_csv w args source _ here refl (
          parse_csv-Checked fs paths pid nanos h csv_hash utf8 lossy read_records
            (load_options args.parse (paths.extension args.path)) source)
      | inr (e, here) ↦ (
        exit_io,
        w,
        rw here,
        inr (
            inr (
              refl,
              (
                codes "read " ++ (display args.path ++ (codes ": " ++ (e ++ newline))),
                rw here refl,
              ),
            )),
      )
    ]
