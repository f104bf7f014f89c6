-- ===== src/Tests/Reporting.antt =====
-- What the subcommands print, on the file system in memory.
use justkv.Common.{
  ℕ, ◌≡◌, refl, some, [], ◌∷◌, ◌++◌, Bytes, codes, bytes_eq, slice, ok, true, All, ap,
}
use justkv.Store.{key, value, key_is, rehash}
use justkv.Store.CsvLoader.{
  eq_ignore_ascii_case, delimiter_for_path, entry_is, entry_hash, report_duplicate, report_invalid,
  append_pair, append_unless, load_pair, load_row, load_rows, parse_csv, wrong_column_count,
  duplicate_key,
}
use justkv.Store.CsvLoader.Display.{error_text}
use justkv.Store.CsvLoader.Spec.{problems, row_problems, overflows, keep}
use justkv.Config.{DataArgs, ServeArgs, load_options}
use justkv.Store.Compiled.{is_compiled}
use justkv.Server.Query.{split}
use justkv.Cli.{exit_invalid_data, parse_validated, cmd_check, cmd_build}
use justkv.Cli.Report.{Printed, error, problem_lines, count_line, report, ok_line, cmd_check_prints}
use justkv.Cli.Report.Check.{Reports, kept_of, problems_of, cmd_check-Reports, cmd_check-tells}
use justkv.Cli.Report.Lines.{HasOneLine}
use justkv.Cli.Report.Build.{Says, cmd_build-Says}
use justkv.Cli.Report.Serve.{checks, found, SayAlike, serve_start-SayAlike}
use justkv.Tests.Deployed.{serve_args}
use justkv.Tests.Decimal.{show_decimal, quoted, decimal}
use justkv.Tests.Memory.{Files, update, memory, one_directory, directory, plain_args, build_args}
use justkv.Tests.Samples.{list_table, weak_hash, plain_reader, no_ff, same_bytes}

abbrev check_args : DataArgs
check_args = record { path = codes "s"; parse = plain_args }

abbrev holding : Bytes → Files
holding source = update directory (codes "s") (some source)

-- `a,1` / `b` / `a,9`, and the same problems with other values
abbrev faulty : Bytes
faulty = codes "a,1" ++ 10 ∷ codes "b" ++ 10 ∷ codes "a,9" ++ 10 ∷ []

abbrev other_faulty : Bytes
other_faulty = codes "a,2" ++ 10 ∷ codes "c" ++ 10 ∷ codes "a,8" ++ 10 ∷ []

abbrev printed_for : Bytes → Printed
printed_for source =
    cmd_check_prints decimal same_bytes memory one_directory 7 (λ attempt. 5) list_table weak_hash
      no_ff same_bytes plain_reader (holding source) check_args

error_text_example :
    error_text decimal (record { line = 12; kind = duplicate_key (codes "a\"") 3 })
    ≡ codes "line 12: duplicate key \"a\\\"\", first seen on line 3"
unfolding error_text show_decimal quoted
error_text_example = refl

loading : Unit {0}
unfolding bytes_eq split load_options delimiter_for_path eq_ignore_ascii_case problems row_problems
    overflows keep
loading = tt

same_problems :
    problems_of decimal same_bytes memory one_directory 7
      (λ attempt. 5)
      list_table
      weak_hash
      no_ff
      same_bytes
      plain_reader
      check_args
      faulty
    ≡ record { line = 2; kind = wrong_column_count 1 }
      ∷ record { line = 3; kind = duplicate_key (codes "a") 1 }
      ∷ []
unfolding loading
same_problems = refl

one_line : All HasOneLine (
    problems_of decimal same_bytes memory one_directory 7
      (λ attempt. 5)
      list_table
      weak_hash
      no_ff
      same_bytes
      plain_reader
      check_args
      faulty)
unfolding loading
one_line = (λ m e. absurd (cc), ((λ m e. absurd (cc)), tt))

other_one_line : All HasOneLine (
    problems_of decimal same_bytes memory one_directory 7
      (λ attempt. 5)
      list_table
      weak_hash
      no_ff
      same_bytes
      plain_reader
      check_args
      other_faulty)
unfolding loading
other_one_line = (λ m e. absurd (cc), ((λ m e. absurd (cc)), tt))

checking : Unit {0}
unfolding loading key value key_is rehash slice entry_is entry_hash report_duplicate report_invalid
    append_pair append_unless load_pair load_row load_rows parse_csv parse_validated
    cmd_check_prints problem_lines count_line report ok_line error_text show_decimal quoted
checking = tt

prints_problems :
    printed_for faulty
    ≡ error (
        codes "s: line 2: expected 2 columns, found 1"
        ++ 10 ∷ codes "s: line 3: duplicate key \"a\", first seen on line 1"
        ++ 10 ∷ codes "2 problem(s) found in s"
        ++ 10 ∷ [])
unfolding checking
prints_problems = refl

prints_alike : printed_for faulty ≡ printed_for other_faulty
unfolding checking
prints_alike = refl

cmd_check-Reports_example :
    Reports decimal same_bytes memory one_directory 7
      (λ attempt. 5)
      list_table
      weak_hash
      no_ff
      same_bytes
      plain_reader
      (holding faulty)
      check_args
      (kept_of decimal same_bytes memory one_directory 7
        (λ attempt. 5)
        list_table
        weak_hash
        no_ff
        same_bytes
        plain_reader
        check_args
        faulty)
      (problems_of decimal same_bytes memory one_directory 7
        (λ attempt. 5)
        list_table
        weak_hash
        no_ff
        same_bytes
        plain_reader
        check_args
        faulty)
cmd_check-Reports_example =
    cmd_check-Reports decimal same_bytes memory one_directory 7 (λ attempt. 5) list_table weak_hash
      no_ff same_bytes plain_reader (holding faulty) check_args faulty (unfold bytes_eq in refl)

cmd_check-tells_example :
    problems_of decimal same_bytes memory one_directory 7
      (λ attempt. 5)
      list_table
      weak_hash
      no_ff
      same_bytes
      plain_reader
      check_args
      faulty
    ≡ problems_of decimal same_bytes memory one_directory 7
        (λ attempt. 5)
        list_table
        weak_hash
        no_ff
        same_bytes
        plain_reader
        check_args
        other_faulty
cmd_check-tells_example =
    cmd_check-tells decimal same_bytes memory one_directory 7 (λ attempt. 5) list_table weak_hash
      no_ff same_bytes plain_reader (holding faulty) (holding other_faulty) check_args faulty
      other_faulty (unfold bytes_eq in refl) (unfold bytes_eq in refl) (refl, tt) one_line
      other_one_line (ap (λ p. p.stderr) prints_alike)

cmd_build-Says_example :
    (code : ℕ) × (w' : Files) × (cmd_build memory one_directory 7
        (λ attempt. 5)
        list_table
        weak_hash
        no_ff
        same_bytes
        plain_reader
        directory
        build_args
      ≡ ok (code, w'))
    × Says decimal same_bytes memory one_directory 7
        (λ attempt. 5)
        list_table
        weak_hash
        no_ff
        same_bytes
        plain_reader
        directory
        build_args
        code
cmd_build-Says_example =
    cmd_build-Says decimal same_bytes memory one_directory 7 (λ attempt. 5) list_table weak_hash
      no_ff same_bytes plain_reader directory build_args

abbrev faulty_args : ServeArgs
faulty_args = record serve_args { path = codes "s" }

faulty_refused :
    checks decimal same_bytes list_table
      (λ b. true)
      memory
      one_directory
      7
      (λ attempt. 5)
      weak_hash
      weak_hash
      no_ff
      same_bytes
      plain_reader
      (holding faulty)
      faulty_args
    ≡ ok exit_invalid_data
unfolding checking cmd_check
faulty_refused = refl

serve_start-SayAlike_example :
    SayAlike decimal same_bytes list_table
      (λ b. true)
      memory
      one_directory
      7
      (λ attempt. 5)
      weak_hash
      weak_hash
      no_ff
      same_bytes
      plain_reader
      (holding faulty)
      faulty_args
      (found decimal same_bytes list_table
        (λ b. true)
        memory
        one_directory
        7
        (λ attempt. 5)
        weak_hash
        weak_hash
        no_ff
        same_bytes
        plain_reader
        faulty_args
        faulty)
serve_start-SayAlike_example =
    serve_start-SayAlike decimal same_bytes list_table (λ b. true) memory one_directory 7
      (λ attempt. 5) weak_hash weak_hash no_ff same_bytes plain_reader (holding faulty) faulty_args
      faulty (unfold bytes_eq in refl) (unfold is_compiled bytes_eq in refl) faulty_refused
