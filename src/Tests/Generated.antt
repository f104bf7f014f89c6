-- ===== src/Tests/Generated.antt =====
-- The generator run into memory, and what `check` says of its file.
use justkv.Common.{
  Result, Option, none, ℕ, ◌≡◌, refl, ap, sym, ◌∙◌, false, some, List, [], ◌∷◌, ◌++◌, Bytes, codes,
  bytes_eq, ok, take, if◌then◌else◌, arith,
}
use justkv.Config.{DataArgs, load_options}
use justkv.Cli.{exit_ok}
use justkv.Bench.Main.{Output, wrote_line, write_rows, main, main-check}
use justkv.Bench.{row_count, out_path, row_line, next_seed, rows_from, generate}
use justkv.Bench.Seeds.{IsSeed, seed_at, seed_at-IsSeed}
use justkv.Bench.Check.{pairs_of, check_code, rows_kept}
use justkv.Tests.Decimal.{show_decimal, decimal}
use justkv.Tests.Memory.{Files, update, update_same, at, memory, one_directory}
use justkv.Tests.Samples.{list_table, weak_hash, plain_reader, no_ff, same_bytes}
use justkv.Tests.PlainLines.{
  hex_digits, hex, hex-IsPlain, no_ff-TakesAscii, plain_reader-ReadsPlain,
}

abbrev Buffer : Type 0
Buffer = Bytes × Bytes

-- a writer in memory: its path, and what it has taken
abbrev buffered : Output memory
buffered = record {
  Writer = Buffer;
  create = λ w p. (ok (p, []), update w p (some []));
  write = λ w b text. (ok (b.0, b.1 ++ text), w);
  flush = λ w b. (none, update w b.0 (some b.1));
  path_of = λ b. b.0;
  taken = λ b. b.1;
  create_ok = λ w p b w' e.
      let same : ◌≡◌ {A = Result Bytes Buffer} (ok (p, [])) (ok b) = ap (λ r. r.0) e in
      let is : ◌≡◌ {A = Buffer} (p, []) b = cc in (ap (λ b. b.0) (sym is), ap (λ b. b.1) (sym is));
  write_ok = λ w b text b' w' e.
      let same : ◌≡◌ {A = Result Bytes Buffer} (ok (b.0, b.1 ++ text)) (ok b') = ap (λ r. r.0) e in
      let is : ◌≡◌ {A = Buffer} (b.0, b.1 ++ text) b' = cc in
      (ap (λ b. b.0) (sym is), ap (λ b. b.1) (sym is));
  flush_ok = λ w b w' e. at (ap (λ r. r.1) e) b.0 ∙ update_same w b.0 (some b.1);
}

-- `gen 2 s`, with a parser that knows `2`
abbrev arguments : List Bytes
arguments = codes "gen" ∷ codes "2" ∷ codes "s" ∷ []

abbrev parse : Bytes → Option ℕ
parse s = if bytes_eq s (codes "2") then some 2 else none

abbrev finished : Result Bytes Bytes × Files
finished = main memory buffered show_decimal hex parse arguments (λ q. none)

abbrev tab_args : DataArgs
tab_args = record {
  path = codes "s";
  parse = record { delimiter = some 9; header = false; allow_binary = false };
}

generating : Unit {0}
unfolding generate rows_from next_seed hex_digits show_decimal bytes_eq main write_rows row_count
    out_path row_line
generating = tt

generated_read : memory.read finished.1 (codes "s") ≡ ok (generate show_decimal hex 2)
unfolding generating
generated_read = refl

generated_run : finished ≡ (ok (codes "wrote 2 rows to s" ++ 10 ∷ []), finished.1)
unfolding generating
generated_run = refl

-- the first row of the file
first_row :
    take 28 (generate show_decimal hex 2) ≡ codes "key0" ++ 9 ∷ codes "value-0-dc1b77ae0bf34da"
unfolding generating
first_row = refl

main-check_example :
    (codes "wrote 2 rows to s" ++ 10 ∷ []
      ≡ wrote_line memory buffered show_decimal hex
          (row_count parse arguments)
          (out_path arguments))
    × (check_code decimal hex hex-IsPlain same_bytes memory one_directory 7
          (λ attempt. 5)
          list_table
          weak_hash
          no_ff
          no_ff-TakesAscii
          same_bytes
          plain_reader
          plain_reader-ReadsPlain
          finished.1
          tab_args
        ≡ ok exit_ok)
    × (rows_kept decimal hex hex-IsPlain same_bytes memory one_directory 7
          (λ attempt. 5)
          list_table
          weak_hash
          no_ff
          no_ff-TakesAscii
          same_bytes
          plain_reader
          plain_reader-ReadsPlain
          tab_args
          (generate show_decimal hex 2)
        ≡ pairs_of decimal hex hex-IsPlain same_bytes memory one_directory 7
            (λ attempt. 5)
            list_table
            weak_hash
            no_ff
            no_ff-TakesAscii
            same_bytes
            plain_reader
            plain_reader-ReadsPlain
            (row_count parse arguments))
main-check_example =
    main-check decimal hex hex-IsPlain same_bytes memory buffered one_directory 7 (λ attempt. 5)
      list_table weak_hash no_ff no_ff-TakesAscii same_bytes plain_reader plain_reader-ReadsPlain
      parse arguments (λ q. none) (codes "wrote 2 rows to s" ++ 10 ∷ []) finished.1 tab_args
      (generate show_decimal hex 2) generated_run (unfold out_path in refl) generated_read
      (unfold load_options in refl) refl (unfold generating in omega arith)

seed_at-IsSeed_example : IsSeed (seed_at 3)
seed_at-IsSeed_example = seed_at-IsSeed 3
