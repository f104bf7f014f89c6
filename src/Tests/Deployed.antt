-- ===== src/Tests/Deployed.antt =====
-- A directory with a source, and the same after `build` of src/main.rs.
use justkv.Common.{
  ℕ, ◌<◌, ◌≡◌, refl, ap, false, none, some, List, [], ◌∷◌, ◌++◌, Bytes, codes, bytes_eq, slice,
  to_le_bytes, Result, ok, length, u32_mod, arith,
}
use justkv.Store.{Entry, key, value, key_is, rehash}
use justkv.Store.Compiled.{write_compiled, entry_bytes, table_bytes}
use justkv.Store.CsvLoader.{
  eq_ignore_ascii_case, delimiter_for_path, entry_is, entry_hash, report_duplicate, report_invalid,
  append_pair, append_unless, load_pair, load_row, load_rows, parse_csv,
}
use justkv.Store.Load.{binary_flag}
use justkv.Config.{ServeArgs, load_options}
use justkv.Server.Query.{split}
use justkv.Cli.{
  exit_ok, candidate, attempts, after_open, create_scratch_file, finalize, after_write,
  write_output, parse_validated, cmd_build,
}
use justkv.Cli.Build.{parsed}
use justkv.Tests.Memory.{Files, update, memory, one_directory, directory, plain_args, build_args}
use justkv.Tests.Samples.{list_table, weak_hash, plain_reader, no_ff, same_bytes}

unfoldable pub loading : Unit {0}
unfolding key value key_is rehash slice bytes_eq split entry_is entry_hash report_duplicate
    report_invalid append_pair append_unless load_pair load_row load_rows parse_csv load_options
    delimiter_for_path eq_ignore_ascii_case
loading = tt

unfoldable pub building : Unit {0}
unfolding loading candidate after_open attempts create_scratch_file finalize after_write
    write_output parse_validated cmd_build
building = tt

abbrev pub source : Bytes
source = codes "a,1" ++ 10 ∷ codes "b,2" ++ 10 ∷ []

abbrev pub entries : List Entry
entries =
    record { k_off = 0; k_len = 1; v_off = 1; v_len = 1 }
    ∷ record { k_off = 2; k_len = 1; v_off = 3; v_len = 1 }
    ∷ []

pub source_read : memory.read directory (codes "s") ≡ ok source
unfolding bytes_eq
source_read = refl

pub source_parsed :
    parse_csv list_table weak_hash no_ff same_bytes
      (load_options plain_args none)
      plain_reader
      source
    ≡ ok (codes "a1b2", entries)
unfolding loading
source_parsed = refl

pub name_free : directory (candidate memory one_directory 7 (λ attempt. 5) (codes "o") 3) ≡ none
unfolding candidate bytes_eq
name_free = refl

abbrev pub scratch : Bytes
unfolding candidate bytes_eq
scratch = candidate memory one_directory 7 (λ attempt. 5) (codes "o") 0

abbrev pub compiled_file : Bytes
unfolding write_compiled table_bytes entry_bytes to_le_bytes
compiled_file = write_compiled (codes "a1b2") entries 0

-- the directory after `build`
abbrev pub written : Files
unfolding scratch compiled_file
written = update (update directory scratch (some [])) scratch (some compiled_file)

abbrev pub built : Files
unfolding written
built = update (update written (codes "o") (written scratch)) scratch none

pub build_done :
    cmd_build memory one_directory 7
      (λ attempt. 5)
      list_table
      weak_hash
      no_ff
      same_bytes
      plain_reader
      directory
      build_args
    ≡ ok (exit_ok, built)
unfolding building binary_flag built
build_done = refl

pub built_read : memory.read built (codes "o") ≡ ok compiled_file
unfolding building built
built_read = refl

abbrev pub serve_args : ServeArgs
serve_args = record {
  path = codes "o";
  bind = codes "0.0.0.0:8080";
  default_value = some (codes "-");
  content_type = none;
  workers = none;
  no_metrics = false;
  parse = plain_args;
}

abbrev pub parsed_in : Files → Result ℕ (Bytes × List Entry)
parsed_in w =
    parsed memory one_directory 7 (λ attempt. 5) list_table weak_hash no_ff same_bytes plain_reader
      w build_args

pub few :
    (arena : Bytes) (es : List Entry) → parsed_in directory ≡ ok (arena, es) → length es < u32_mod
unfolding building
few arena es h = let is : entries ≡ es = cc in omega (arith, ap length is)
