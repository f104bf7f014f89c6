-- ===== src/Cli/Build.antt =====
-- src/main.rs, `cmd_build` and `cmd_check`.
use justkv.Common.{
  ℕ, ◌≡◌, ◌≢◌, ◌⊎◌, inl, inr, ◌↔◌, refl, ap, ◌∙◌, Bool, none, some, List, [], ◌∷◌, Bytes, Result,
  ok, err, panic,
}
use justkv.HashTable.{HashTable}
use justkv.FileSystem.{FileSystem, Paths}
use justkv.Store.{Entry}
use justkv.Store.Compiled.{write_compiled}
use justkv.Store.CsvLoader.{LoadOptions, DataError, Reads, parse_csv}
use justkv.Store.CsvLoader.Refinement.{Answer, parse_csv-Answer}
use justkv.Store.CsvLoader.Spec.{Kept, kept_rows}
use justkv.Store.Load.{binary_flag, map_err}
use justkv.Config.{load_options, BuildArgs}
use justkv.Cli.{
  exit_ok, exit_invalid_data, exit_io, parse_validated, cmd_check, cmd_build, output, checked,
}
use justkv.Cli.Replace.{create-write-Replaced}

module _ (fs : FileSystem) (paths : Paths) (pid : ℕ) (nanos : ℕ → ℕ) (h : HashTable)
    (csv_hash : Bytes → ℕ) (utf8 : Bytes → Bool) (lossy : Bytes → Bytes)
    (read_records : ℕ → Bool → Bytes → Reads) where
  open fs use {World, contents, read}

  -- the parts, or the exit code of invalid data or of an I/O error
  abbrev pub Checked : Result ℕ (Bytes × List Entry) → Type 0
  Checked r =
      ((arena : Bytes) × (es : List Entry) × (r ≡ ok (arena, es)))
      ⊎ ((r ≡ err exit_invalid_data) ⊎ (r ≡ err exit_io))

  Answer-Checked :
      (opts : LoadOptions) (kept : List Kept) (errs : List DataError)
      → Checked (map_err (λ e. exit_invalid_data) (Answer h csv_hash utf8 lossy opts kept errs))
  Answer-Checked opts kept [] = inl (_, _, refl)
  Answer-Checked opts kept (e ∷ es) = inr (inl refl)

  pub parse_csv-Checked :
      (opts : LoadOptions) (file : Bytes)
      → Checked (
          map_err (λ e. exit_invalid_data) (parse_csv h csv_hash utf8 lossy opts read_records file))
  parse_csv-Checked opts file =
      rw (parse_csv-Answer h csv_hash utf8 lossy opts read_records file) (
        Answer-Checked opts (kept_rows [] none (read_records opts.delimiter opts.has_header file))
          _)

  abbrev pub parsed : World → BuildArgs → Result ℕ (Bytes × List Entry)
  parsed w args =
      parse_validated fs paths pid nanos h csv_hash utf8 lossy read_records w args.path args.parse

  abbrev pub check_of : World → BuildArgs → Result (Unit {0}) ℕ
  check_of w args =
      cmd_check fs paths pid nanos h csv_hash utf8 lossy read_records w
        (record { path = args.path; parse = args.parse })

  pub parsed-Checked : (w : World) (args : BuildArgs) → Checked (parsed w args)
  unfolding parse_validated
  parsed-Checked w args = elim (fs.read_returns w args.path) [
    | inl (b, h) ↦ rw h (parse_csv-Checked (load_options args.parse (paths.extension args.path)) b)
    | inr (e, h) ↦ rw h (inr (inr refl))
  ]

  map_err-ok {ℓ κ ι} :
      {E : Type κ} {F : Type ι} {A : Type ℓ} (f : E → F) (r : Result E A) (a : A)
      → map_err f r ≡ ok a
      → r ≡ ok a
  map_err-ok f (ok b) a e = cc
  map_err-ok f (err b) a e = absurd (cc)
  map_err-ok f panic a e = absurd (cc)

  pub parsed-parse_csv :
      (w : World) (args : BuildArgs) (arena : Bytes) (es : List Entry)
      → parsed w args ≡ ok (arena, es)
      → (source : Bytes) × (read w args.path ≡ ok source)
        × (parse_csv h csv_hash utf8 lossy
              (load_options args.parse (paths.extension args.path))
              read_records
              source
            ≡ ok (arena, es))
  unfolding parse_validated
  parsed-parse_csv w args arena es done = elim (fs.read_returns w args.path) [
    | inl (b, here) ↦ (b, here, map_err-ok _ _ _ (rw here at done))
    | inr (e, here) ↦ absurd (cc (rw here at done))
  ]

  -- what `build` leaves behind, beside what `check` says of the same data
  pub record Built (w : World) (args : BuildArgs) (code : ℕ) (w' : World) : Type 0 where
    pub finished :
        code ≡ exit_ok
        → (arena : Bytes) × (es : List Entry) × (parsed w args ≡ ok (arena, es))
          × (contents w' args.out
              ≡ some (write_compiled arena es (binary_flag args.parse.allow_binary)))
    pub only : code ≡ exit_ok → (q : Bytes) → q ≢ args.out → contents w' q ≡ contents w q
    pub untouched : code ≢ exit_ok → contents w' args.out ≡ contents w args.out
    pub kept : (q b : Bytes) → q ≢ args.out → contents w q ≡ some b → contents w' q ≡ some b
    pub refused : (code ≡ exit_invalid_data) ↔ (check_of w args ≡ ok exit_invalid_data)
    pub otherwise : (code ≡ exit_ok) ⊎ ((code ≡ exit_invalid_data) ⊎ (code ≡ exit_io))

  abbrev Builds : World → BuildArgs → Result (Unit {0}) (ℕ × World) → Type 0
  Builds w args r = (code : ℕ) × (w' : World) × (r ≡ ok (code, w')) × Built w args code w'

  refused_with :
      (w : World) (args : BuildArgs) (code : ℕ)
      → (code ≡ exit_invalid_data) ⊎ (code ≡ exit_io)
      → check_of w args ≡ ok code
      → Built w args code w
  refused_with w args code which says = record {
    finished = λ z. absurd (elim which [ inl a ↦ cc | inr b ↦ cc ]);
    only = λ z. absurd (elim which [ inl a ↦ cc | inr b ↦ cc ]);
    untouched = λ z. refl;
    kept = λ q b ne here. here;
    refused = ((λ one. says ∙ ap ok one), (λ one. cc));
    otherwise = inr which;
  }

  output-Builds :
      (w : World) (args : BuildArgs) (p : Result ℕ (Bytes × List Entry))
      → parsed w args ≡ p
      → check_of w args ≡ checked fs paths pid nanos h csv_hash utf8 lossy read_records p
      → Checked p
      → Builds w args (output fs paths pid nanos h csv_hash utf8 lossy read_records w args p)
  output-Builds w args (ok (arena, es)) is says c =
      let r =
        create-write-Replaced fs paths pid nanos w args.out
          (write_compiled arena es (binary_flag args.parse.allow_binary)) in
      (
        _,
        _,
        refl,
        record {
          finished = λ z. (arena, es, is, r.written z);
          only = r.only;
          untouched = r.untouched;
          kept = r.kept;
          refused = (
            (λ one. absurd (elim r.codes_are [ inl a ↦ cc | inr b ↦ cc ])),
            (λ one. absurd (cc)),
          );
          otherwise = elim r.codes_are [ inl a ↦ inl a | inr b ↦ inr (inr b) ];
        },
      )
  output-Builds w args (err code) is says (inl (_, _, e)) = absurd (cc)
  output-Builds w args (err code) is says (inr (inl e)) =
      (code, w, refl, refused_with w args code (inl (cc)) says)
  output-Builds w args (err code) is says (inr (inr e)) =
      (code, w, refl, refused_with w args code (inr (cc)) says)
  output-Builds w args panic is says (inl (_, _, e)) = absurd (cc)
  output-Builds w args panic is says (inr (inl e)) = absurd (cc)
  output-Builds w args panic is says (inr (inr e)) = absurd (cc)

  -- `build` replaces its output whole or not at all, and destroys no other file, whatever the calls
  -- of the file system answer and whichever scratch names are taken. It never panics and exits with
  -- 0, 1 or 2. On 0 the output holds the compiled form of the parts that the data parse to, and
  -- every other path is as it was. Otherwise the output is as it was. Always, each other file that
  -- existed has its contents. The code is 1 exactly when `check` exits with 1 on the same data.
  pub cmd_build-Built :
      (w : World) (args : BuildArgs)
      → (code : ℕ) × (w' : World) × (cmd_build fs paths pid nanos h csv_hash utf8 lossy read_records
            w args
          ≡ ok (code, w'))
        × Built w args code w'
  unfolding cmd_build cmd_check
  cmd_build-Built w args = output-Builds w args (parsed w args) refl refl (parsed-Checked w args)
