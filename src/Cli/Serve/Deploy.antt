-- ===== src/Cli/Serve/Deploy.antt =====
-- src/main.rs: `build`, and then `serve` on what it wrote.
use justkv.Common.{
  ℕ, ◌<◌, ◌≡◌, refl, sym, ap, ◌∙◌, subst, Bool, true, List, Bytes, ok, length, u32_mod,
}
use justkv.HashTable.{HashTable}
use justkv.FileSystem.{FileSystem, Paths}
use justkv.Store.{Entry}
use justkv.Store.Compiled.{write_compiled}
use justkv.Store.Windows.{pairs}
use justkv.Store.Lookup.{Serves, length-pairs}
use justkv.Store.CsvLoader.{Reads}
use justkv.Store.Load.{binary_flag}
use justkv.Store.Load.Agree.{parse_csv-IsDataset, load_compiled, binary_flag-lt}
use justkv.Config.{BuildArgs, ServeArgs, load_options}
use justkv.Server.{AppState}
use justkv.Cli.{exit_ok, cmd_build}
use justkv.Cli.Build.{Built, cmd_build-Built, parsed, parsed-parse_csv}
use justkv.Cli.Serve.Ready.{expected_type, after_load-ready}
use justkv.Cli.Serve.{ready, serve_start}

module _ (fs : FileSystem) (paths : Paths) (pid : ℕ) (nanos : ℕ → ℕ) (h : HashTable)
    (csv_hash store_hash : Bytes → ℕ) (utf8 : Bytes → Bool) (lossy : Bytes → Bytes)
    (read_records : ℕ → Bool → Bytes → Reads) (is_header_value : Bytes → Bool)
    (display : Bytes → Bytes) where
  open fs use {World, contents, read}

  Built-exit_ok :
      (w w' : World) (args : BuildArgs)
      → cmd_build fs paths pid nanos h csv_hash utf8 lossy read_records w args ≡ ok (exit_ok, w')
      → Built fs paths pid nanos h csv_hash utf8 lossy read_records w args exit_ok w'
  Built-exit_ok w w' args done =
      let (code, w'', run, built) =
        cmd_build-Built fs paths pid nanos h csv_hash utf8 lossy read_records w args in
      let both = sym run ∙ done in
      let same : ◌≡◌ {A = ℕ × World} (code, w'') (exit_ok, w') = cc in
      subst
        (λ (r : ℕ × World).
          Built fs paths pid nanos h csv_hash utf8 lossy read_records w args r.0 r.1)
        same built

  -- What `build` wrote is what `serve` answers with. After a `build` that exited with 0, a `serve`
  -- on its output, if that can be read and the content type is a legal header, starts on a state
  -- whose store is the finite map of the pairs that the source parsed to, with the count of them.
  -- Its content type is the one given, and otherwise `application/octet-stream` exactly if the
  -- build allowed binary values, whatever parsing flags `serve` is given. The parts must be fewer
  -- than 2 ^ 32, the count that the file can hold.
  pub cmd_build-serve_start :
      (w w' : World) (args : BuildArgs) (sargs : ServeArgs) (file : Bytes)
      → cmd_build fs paths pid nanos h csv_hash utf8 lossy read_records w args ≡ ok (exit_ok, w')
      → read w' args.out ≡ ok file
      → ((arena : Bytes) (es : List Entry)
          → parsed fs paths pid nanos h csv_hash utf8 lossy read_records w args ≡ ok (arena, es)
          → length es < u32_mod)
      → sargs.path ≡ args.out
      → is_header_value (expected_type sargs.content_type args.parse.allow_binary) ≡ true
      → (arena : Bytes) × (es : List Entry) × (parsed fs paths pid nanos h csv_hash utf8 lossy
            read_records w args
          ≡ ok (arena, es))
        × (s : AppState h) × (serve_start h is_header_value csv_hash store_hash utf8 lossy
              read_records
              (read w')
              paths.extension
              display
              sargs
            ≡ ok (ready s))
        × Serves h (pairs arena es) s.store
        × (s.keys ≡ length es)
        × (s.content_type ≡ expected_type sargs.content_type args.parse.allow_binary)
        × (s.default_value ≡ sargs.default_value)
  unfolding serve_start
  cmd_build-serve_start w w' args sargs file done here few there legal =
      let built = Built-exit_ok w w' args done in
      let (arena, es, parts, holds) = built.finished refl in
      let (source, reads, text) =
        parsed-parse_csv fs paths pid nanos h csv_hash utf8 lossy read_records w args arena es
          parts in
      let good =
        parse_csv-IsDataset h csv_hash store_hash utf8 lossy read_records (read w)
          (load_options args.parse (paths.extension args.path)) source arena es text in
      let flag = args.parse.allow_binary in
      let found = fs.read_ok w' args.out file here in
      let is : file ≡ write_compiled arena es (binary_flag flag) = cc in
      let whole : read w' sargs.path ≡ ok (write_compiled arena es (binary_flag flag)) =
        ap (read w') there ∙ here ∙ ap ok is in
      let (l, loads, format, flags, same, serves) =
        load_compiled h csv_hash store_hash utf8 lossy read_records (read w')
          (load_options sargs.parse (paths.extension sargs.path)) sargs.path
          (load_options sargs.parse (paths.extension sargs.path)) arena es (binary_flag flag) good
          (few arena es parts)
          (binary_flag-lt h csv_hash store_hash utf8 lossy read_records (read w')
            (load_options sargs.parse (paths.extension sargs.path)) flag)
          whole in
      let (s, starts, store, keys, kind, fallback) =
        after_load-ready h is_header_value display sargs flag l flags legal in
      (
        arena,
        es,
        parts,
        s,
        rw loads starts,
        rw store serves,
        keys ∙ serves.counts ∙ length-pairs arena es,
        kind,
        fallback,
      )
