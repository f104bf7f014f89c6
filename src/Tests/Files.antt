-- ===== src/Tests/Files.antt =====
-- CSV sources, and loading them and what is built from them.
use justkv.Common.{
  ◌≡◌, refl, false, none, some, List, [], ◌∷◌, ◌++◌, Bytes, codes, bytes_eq, slice, Result, ok, err,
  take, to_le_bytes, Safe, arith, if◌then◌else◌,
}
use justkv.Store.{Entry, key, value, key_is, rehash, insert_all, from_parts, get, len}
use justkv.Store.Lookup.{Serves}
use justkv.Store.Windows.{pairs}
use justkv.Store.Compiled.{truncated, is_compiled, table_bytes, entry_bytes, write_compiled}
use justkv.Store.CsvLoader.{
  LoadOptions, default_options, DataError, duplicate_key, wrong_column_count, invalid_utf8_value,
  entry_is, entry_hash, report_duplicate, report_invalid, append_pair, append_unless, load_pair,
  load_row, load_rows, parse_csv, eq_ignore_ascii_case, delimiter_for_path,
}
use justkv.Store.CsvLoader.Spec.{problems, kept_rows}
use justkv.Store.CsvLoader.Refinement.{Answer, parse_csv-Answer}
use justkv.Store.Load.Cut.{load-take}
use justkv.Store.Load.{bad_file, Loaded, csv, compiled, binary_flag, load}
use justkv.Store.Load.Agree.{IsDataset, parse_csv-IsDataset, Agree, load-Agree}
use justkv.Store.Load.Total.{IsServable, load-Safe}
use justkv.Server.Query.{split}
use justkv.Tests.Samples.{list_table, weak_hash, plain_reader, no_ff, same_bytes}

parsing : Unit {0}
unfolding key value key_is rehash slice bytes_eq split entry_is entry_hash report_duplicate
    report_invalid append_pair append_unless load_pair load_row load_rows parse_csv
parsing = tt

abbrev parse : Bytes → Result (List DataError) (Bytes × List Entry)
parse file = parse_csv list_table weak_hash no_ff same_bytes default_options plain_reader file

-- a,1 / b,2
abbrev clean : Bytes
clean = codes "a,1" ++ 10 ∷ codes "b,2" ++ 10 ∷ []

abbrev clean_entries : List Entry
clean_entries =
    record { k_off = 0; k_len = 1; v_off = 1; v_len = 1 }
    ∷ record { k_off = 2; k_len = 1; v_off = 3; v_len = 1 }
    ∷ []

parses_clean : parse clean ≡ ok (codes "a1b2", clean_entries)
unfolding parsing
parses_clean = refl

-- `collects_every_error_not_just_the_first`: a,1 / b / c,2,3 / a,9
abbrev dirty : Bytes
dirty = codes "a,1" ++ 10 ∷ codes "b" ++ 10 ∷ codes "c,2,3" ++ 10 ∷ codes "a,9" ++ 10 ∷ []

collects_every_error :
    parse dirty
    ≡ err (
        record { line = 2; kind = wrong_column_count 1 }
        ∷ record { line = 3; kind = wrong_column_count 3 }
        ∷ record { line = 4; kind = duplicate_key (codes "a") 1 }
        ∷ [])
unfolding parsing
collects_every_error = refl

-- a row can be a duplicate and have an invalid value
reports_both :
    parse (codes "a,1" ++ 10 ∷ codes "a," ++ 255 ∷ 10 ∷ [])
    ≡ err (
        record { line = 2; kind = duplicate_key (codes "a") 1 }
        ∷ record { line = 2; kind = invalid_utf8_value }
        ∷ [])
unfolding parsing
reports_both = refl

infers_tab : delimiter_for_path (some (codes "TSV")) ≡ 9
unfolding delimiter_for_path eq_ignore_ascii_case
infers_tab = refl

parse_csv-Answer_example :
    parse dirty
    ≡ Answer list_table weak_hash no_ff same_bytes default_options
        (kept_rows [] none (plain_reader b',' false dirty))
        (problems no_ff same_bytes default_options [] none (plain_reader b',' false dirty))
parse_csv-Answer_example =
    parse_csv-Answer list_table weak_hash no_ff same_bytes default_options plain_reader dirty

-- the directory: the source at "s", what is built from it at "o"
abbrev read_file : Bytes → Result Bytes Bytes
read_file path =
    if bytes_eq path (codes "s")
    then ok clean
    else if bytes_eq path (codes "o")
    then ok (write_compiled (codes "a1b2") clean_entries (binary_flag false))
    else err []

parse_csv-IsDataset_example : IsDataset (codes "a1b2") clean_entries
parse_csv-IsDataset_example =
    parse_csv-IsDataset list_table weak_hash weak_hash no_ff same_bytes plain_reader read_file
      default_options clean (codes "a1b2") clean_entries parses_clean

abbrev load_file : Bytes → LoadOptions → Result justkv.Store.Load.LoadFailure (Loaded list_table)
load_file path opts =
    load list_table weak_hash weak_hash no_ff same_bytes plain_reader read_file path opts

load-Agree_example :
    (a b : Loaded list_table) × (load list_table
        (λ b. 1)
        (λ b. 2)
        no_ff
        same_bytes
        plain_reader
        read_file
        (codes "s")
        default_options
      ≡ ok a)
    × (load list_table weak_hash
          (λ b. 3)
          no_ff
          same_bytes
          plain_reader
          read_file
          (codes "o")
          default_options
        ≡ ok b)
    × (a.format ≡ csv)
    × (b.format ≡ compiled)
    × Agree list_table a b
    × Serves list_table (pairs (codes "a1b2") clean_entries) b.store
load-Agree_example =
    load-Agree list_table weak_hash (λ b. 1) (λ b. 2) weak_hash (λ b. 3) no_ff same_bytes
      plain_reader read_file default_options (codes "s") clean (codes "o") default_options
      (codes "a1b2") clean_entries (unfold bytes_eq in refl) (unfold is_compiled in refl)
      parses_clean (omega arith) (unfold bytes_eq in refl)

load-Safe_example :
    Safe
      (IsServable list_table weak_hash weak_hash no_ff same_bytes plain_reader read_file
        default_options)
      (load_file (codes "s") default_options)
load-Safe_example =
    load-Safe list_table weak_hash weak_hash no_ff same_bytes plain_reader read_file default_options
      (codes "s") clean (unfold bytes_eq in refl) (omega arith)

-- the file at "o", without its last byte
abbrev cut_file : Bytes → Result Bytes Bytes
cut_file path = ok (take 59 (write_compiled (codes "a1b2") clean_entries 0))

load-take_example :
    load list_table weak_hash weak_hash no_ff same_bytes plain_reader cut_file
      (codes "o")
      default_options
    ≡ err (bad_file truncated)
load-take_example =
    load-take list_table weak_hash weak_hash no_ff same_bytes plain_reader cut_file default_options
      (codes "o") (codes "a1b2") clean_entries 0 59 (omega arith) (omega arith) (omega arith)
      (unfold write_compiled to_le_bytes table_bytes entry_bytes in omega arith) refl
