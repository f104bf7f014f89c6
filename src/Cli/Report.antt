-- ===== src/Cli/Report.antt =====
-- src/main.rs: what `check` and `build` print. The text of a path is a parameter, and an I/O error is
-- its message.
pub mod Lines
pub mod Problems
pub mod Check
pub mod Build
pub mod Serve
use justkv.Common.{
  ℕ, Bool, ◌⊎◌, inl, inr, Option, none, some, List, [], ◌∷◌, ◌++◌, Bytes, codes, Result, ok, err,
  panic, length,
}
use justkv.Common.Writing.{Writing}
use justkv.HashTable.{HashTable}
use justkv.FileSystem.{FileSystem, Paths}
use justkv.Store.{Entry}
use justkv.Store.Compiled.{write_compiled}
use justkv.Store.CsvLoader.{DataError, Reads, parse_csv}
use justkv.Store.CsvLoader.Display.{error_text}
use justkv.Store.Load.{binary_flag}
use justkv.Config.{ParseArgs, load_options, DataArgs, BuildArgs}
use justkv.Cli.{parse_validated, create_scratch_file}

pub record Printed : Type 0 where
  pub stdout : Bytes
  pub stderr : Bytes

-- `println!` and `eprintln!` end the line
abbrev pub newline : Bytes
newline = 10 ∷ []

abbrev pub out : Bytes → Printed
out text = record { stdout = text; stderr = [] }

abbrev pub error : Bytes → Printed
error text = record { stdout = []; stderr = text }

-- `display` is the text of a path.
module _ (fmt : Writing) (display : Bytes → Bytes) where
  open fmt use {show}

  -- `eprintln!("{}: {e}", path.display())` for each problem
  unfoldable pub problem_lines : Bytes → List DataError → Bytes
  problem_lines path [] = []
  problem_lines path (e ∷ es) =
      display path ++ (codes ": " ++ (error_text fmt e ++ 10 ∷ problem_lines path es))

  unfoldable pub count_line : Bytes → ℕ → Bytes
  count_line path n = show n ++ (codes " problem(s) found in " ++ (display path ++ newline))

  unfoldable pub report : Bytes → List DataError → Bytes
  unfolding problem_lines count_line
  report path errors = problem_lines path errors ++ count_line path (length errors)

  unfoldable pub ok_line : Bytes → ℕ → ℕ → Bytes
  ok_line path keys bytes =
      codes "ok: "
      ++ (show keys
          ++ (codes " keys, "
              ++ (show bytes ++ (codes " bytes of data in " ++ (display path ++ newline)))))

  unfoldable pub built_line : Bytes → ℕ → ℕ → Bytes
  built_line path keys bytes =
      codes "built "
      ++ (display path
          ++ (codes " ("
              ++ (show keys
                  ++ (codes " keys, " ++ (show bytes ++ (codes " bytes of data)" ++ newline))))))

  -- the lines of an `eprintln!("error: …")`
  abbrev pub cannot : Bytes → Bytes → Bytes → Bytes
  cannot what path message =
      codes "error: cannot " ++ (what ++ (display path ++ (codes ": " ++ (message ++ newline))))

  module _ (fs : FileSystem) (paths : Paths) (pid : ℕ) (nanos : ℕ → ℕ) where
    open fs use {World, read, write_all, rename}

    unfoldable pub finalize_prints : BuildArgs → Bytes × List Entry → Option Bytes × World → Printed
    finalize_prints args (arena, entries) (none, w) =
        out (built_line args.out (length entries) (length arena))
    finalize_prints args parts (some e, w) = error (cannot (codes "finalize ") args.out e)

    unfoldable pub write_prints :
        BuildArgs → Bytes × List Entry → Bytes → Option Bytes × World → Printed
    unfolding finalize_prints
    write_prints args parts tmp (none, w) = finalize_prints args parts (rename w tmp args.out)
    write_prints args parts tmp (some e, w) = error (cannot (codes "write ") tmp e)

    unfoldable pub output_prints :
        BuildArgs → Bytes × List Entry → Bytes → (Bytes ⊎ Bytes) × World → Printed
    unfolding write_prints
    output_prints args parts file (inl tmp, w) = write_prints args parts tmp (write_all w tmp file)
    output_prints args parts file (inr e, w) =
        error (cannot (codes "create a scratch file next to ") args.out e)

    module _ (h : HashTable) (csv_hash : Bytes → ℕ) (utf8 : Bytes → Bool) (lossy : Bytes → Bytes)
        (read_records : ℕ → Bool → Bytes → Reads) where
      -- what `parse_validated` prints to stderr, by what it reads and parses
      abbrev pub parse_stderr : Bytes → Result (List DataError) (Bytes × List Entry) → Bytes
      parse_stderr path (ok parts) = []
      parse_stderr path (err errors) = report path errors
      parse_stderr path panic = []

      abbrev pub read_stderr : Bytes → ParseArgs → Result Bytes Bytes → Bytes
      read_stderr path args (ok file) =
          let opts = load_options args (paths.extension path) in
          parse_stderr path (parse_csv h csv_hash utf8 lossy opts read_records file)
      read_stderr path args (err e) = cannot (codes "read ") path e
      read_stderr path args panic = []

      unfoldable pub parse_validated_stderr : World → Bytes → ParseArgs → Bytes
      parse_validated_stderr w path args = read_stderr path args (read w path)

      abbrev pub parsed : World → Bytes → ParseArgs → Result ℕ (Bytes × List Entry)
      parsed w path args =
          parse_validated fs paths pid nanos h csv_hash utf8 lossy read_records w path args

      abbrev check_prints : Bytes → Bytes → Result ℕ (Bytes × List Entry) → Printed
      check_prints path stderr (ok (arena, entries)) = record {
        stdout = ok_line path (length entries) (length arena);
        stderr = stderr;
      }
      check_prints path stderr (err code) = error stderr
      check_prints path stderr panic = error stderr

      unfoldable pub cmd_check_prints : World → DataArgs → Printed
      unfolding parse_validated_stderr
      cmd_check_prints w args =
          check_prints args.path (parse_validated_stderr w args.path args.parse)
            (parsed w args.path args.parse)

      abbrev pub build_prints : World → BuildArgs → Bytes → Result ℕ (Bytes × List Entry) → Printed
      build_prints w args stderr (ok (arena, entries)) =
          let flags = binary_flag args.parse.allow_binary in
          output_prints args (arena, entries) (write_compiled arena entries flags)
            (create_scratch_file fs paths pid nanos w args.out)
      build_prints w args stderr (err code) = error stderr
      build_prints w args stderr panic = error stderr

      unfoldable pub cmd_build_prints : World → BuildArgs → Printed
      unfolding parse_validated_stderr output_prints
      cmd_build_prints w args =
          build_prints w args (parse_validated_stderr w args.path args.parse)
            (parsed w args.path args.parse)
