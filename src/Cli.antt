-- ===== src/Cli.antt =====
-- src/main.rs: the subcommands `check` and `build`, their exit code and what they do to files. Report
-- is what they print.
pub mod Scratch
pub mod Replace
pub mod Build
pub mod Progress
pub mod Serve
pub mod Healthcheck
pub mod Report
pub mod Main
use justkv.Common.{
  ℕ, Bool, ◌⊎◌, inl, inr, zero, suc, ◌+◌, ◌%◌, Option, none, some, List, ◌∷◌, ◌++◌, Bytes, codes,
  u32_mod, Result, ok, err, panic, ◌>>=◌,
}
use justkv.HashTable.{HashTable}
use justkv.FileSystem.{FileSystem, Paths, Opened, opened, already_exists, failed}
use justkv.Store.{Entry}
use justkv.Store.Compiled.{write_compiled}
use justkv.Store.CsvLoader.{DataError, Reads, parse_csv}
use justkv.Store.Load.{binary_flag, map_err}
use justkv.Config.{ParseArgs, load_options, DataArgs, BuildArgs}

abbrev pub exit_ok : ℕ
exit_ok = 0

abbrev pub exit_invalid_data : ℕ
exit_invalid_data = 1

abbrev pub exit_io : ℕ
exit_io = 2

abbrev pub or_else : Option Bytes → Bytes → Bytes
or_else none d = d
or_else (some b) d = b

abbrev pub scratch_name : (ℕ → Bytes) → Bytes → ℕ → ℕ → Bytes
scratch_name show_u32 stem pid nonce =
    codes "."
    ++ (stem ++ (codes "." ++ (show_u32 pid ++ (codes "." ++ (show_u32 nonce ++ codes ".tmp")))))

abbrev pub stem_of : (Bytes → Bytes) → Option Bytes → Bytes
stem_of to_string_lossy none = codes "out"
stem_of to_string_lossy (some name) = to_string_lossy name

-- `pid` is the process, and `nanos` the clock at each attempt: the nanoseconds that it shows, or 0.
module _ (fs : FileSystem) (paths : Paths) (pid : ℕ) (nanos : ℕ → ℕ) where
  open fs use {World, read, create_new, write_all, remove_file, rename}
  open paths use {parent, file_name, extension, join, to_string_lossy, show_u32}

  unfoldable pub candidate : Bytes → ℕ → Bytes
  candidate out attempt = join (or_else (parent out) (codes ".")) (
      scratch_name show_u32 (stem_of to_string_lossy (file_name out)) pid
        ((nanos attempt + attempt) % u32_mod))

  -- the match on the result of `open`, with the rest of the loop
  unfoldable pub after_open :
      Bytes → Opened × World → (World → (Bytes ⊎ Bytes) × World) → (Bytes ⊎ Bytes) × World
  after_open tmp (opened, w) next = (inl tmp, w)
  after_open tmp (already_exists, w) next = next w
  after_open tmp (failed e, w) next = (inr e, w)

  -- `for attempt in 0..1_000u32`, with the attempts left: the path, or the error
  unfoldable pub attempts : World → Bytes → ℕ → ℕ → (Bytes ⊎ Bytes) × World
  unfolding candidate
  attempts w out attempt zero = (inr (codes "exhausted scratch file name attempts"), w)
  attempts w out attempt (suc left) =
      after_open (candidate out attempt) (create_new w (candidate out attempt))
        (λ w'. attempts w' out (suc attempt) left)

  unfoldable pub create_scratch_file : World → Bytes → (Bytes ⊎ Bytes) × World
  create_scratch_file w out = attempts w out 0 1000

  unfoldable pub finalize : Bytes → Bytes → Option Bytes × World → ℕ × World
  finalize tmp out (none, w) = (exit_ok, w)
  finalize tmp out (some e, w) = (exit_io, remove_file w tmp)

  unfoldable pub after_write : Bytes → Bytes → Option Bytes × World → ℕ × World
  after_write tmp out (none, w) = finalize tmp out (rename w tmp out)
  after_write tmp out (some e, w) = (exit_io, remove_file w tmp)

  -- from the match on `create_scratch_file` on
  unfoldable pub write_output : Bytes → Bytes → (Bytes ⊎ Bytes) × World → ℕ × World
  write_output out file (inl tmp, w) = after_write tmp out (write_all w tmp file)
  write_output out file (inr e, w) = (exit_io, w)

  -- `csv_hash`, `utf8`, `lossy` and `read_records` are the parameters of `parse_csv`.
  module _ (h : HashTable) (csv_hash : Bytes → ℕ) (utf8 : Bytes → Bool) (lossy : Bytes → Bytes)
      (read_records : ℕ → Bool → Bytes → Reads) where
    unfoldable pub parse_validated : World → Bytes → ParseArgs → Result ℕ (Bytes × List Entry)
    parse_validated w path args = do
      file ← map_err (λ e. exit_io) (read w path)
      let opts = load_options args (extension path)
      map_err (λ errors. exit_invalid_data) (parse_csv h csv_hash utf8 lossy opts read_records file)

    abbrev checked : Result ℕ (Bytes × List Entry) → Result (Unit {0}) ℕ
    checked (ok parts) = ok exit_ok
    checked (err code) = ok code
    checked panic = panic

    unfoldable pub cmd_check : World → DataArgs → Result (Unit {0}) ℕ
    unfolding parse_validated
    cmd_check w args = checked (parse_validated w args.path args.parse)

    abbrev pub output :
        World → BuildArgs → Result ℕ (Bytes × List Entry) → Result (Unit {0}) (ℕ × World)
    output w args (ok (arena, entries)) =
        let flags = binary_flag args.parse.allow_binary in
        ok (
          write_output args.out (write_compiled arena entries flags)
            (create_scratch_file w args.out))
    output w args (err code) = ok (code, w)
    output w args panic = panic

    -- the exit code and the files after
    unfoldable pub cmd_build : World → BuildArgs → Result (Unit {0}) (ℕ × World)
    unfolding parse_validated write_output create_scratch_file
    cmd_build w args = output w args (parse_validated w args.path args.parse)
