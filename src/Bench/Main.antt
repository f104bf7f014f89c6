-- ===== src/Bench/Main.antt =====
-- bench/gen.rs, `main`: the file that it creates, and `check` of src/main.rs on it.
use justkv.Common.{
  ℕ, zero, suc, ◌≤◌, ◌≡◌, refl, ap, sym, ◌∙◌, subst, Bool, false, Option, none, some, List, [], ◌∷◌,
  ◌++◌, append-nil, append_assoc, Bytes, codes, Result, ok, err, panic, length, u32_max,
}
use justkv.Common.Writing.{Writing}
use justkv.HashTable.{HashTable}
use justkv.FileSystem.{FileSystem, Paths}
use justkv.Store.CsvLoader.{Reads}
use justkv.Config.{load_options, DataArgs}
use justkv.Cli.{exit_ok}
use justkv.Bench.{
  first_seed, next_seed, row_count, out_path, row_key, row_value, row_line, rows_from, generate,
}
use justkv.Bench.Accepted.{IsPlain, ReadsPlain, TakesAscii}
use justkv.Bench.Check.{pairs_of, check_code, rows_kept, generate-check}

-- `File::create` and a `BufWriter` on the file, while nobody else writes to it. An error is its
-- message.
pub record Output (fs : FileSystem) : Type 1 where
  pub Writer : Type 0
  pub create : fs.World → Bytes → Result Bytes Writer × fs.World
  pub write : fs.World → Writer → Bytes → Result Bytes Writer × fs.World
  pub flush : fs.World → Writer → Option Bytes × fs.World
  -- the path that was created, and all that the writer has taken: the program evaluates neither
  pub path_of : Writer → Bytes
  pub taken : Writer → Bytes
  pub create_ok :
      (w : fs.World) (p : Bytes) (b : Writer) (w' : fs.World)
      → create w p ≡ (ok b, w')
      → (path_of b ≡ p) × (taken b ≡ [])
  pub write_ok :
      (w : fs.World) (b : Writer) (text : Bytes) (b' : Writer) (w' : fs.World)
      → write w b text ≡ (ok b', w')
      → (path_of b' ≡ path_of b) × (taken b' ≡ taken b ++ text)
  pub flush_ok :
      (w : fs.World) (b : Writer) (w' : fs.World)
      → flush w b ≡ (none, w')
      → fs.contents w' (path_of b) ≡ some (taken b)

module _ (fs : FileSystem) (file : Output fs) (show hex : ℕ → Bytes) where
  open fs use {World, contents}
  open file use {Writer, create, write, flush, path_of, taken}

  -- the `?` behind a call
  abbrev pub and_then {ℓ} :
      {A B : Type ℓ}
      → (A → World → Result Bytes B × World)
      → Result Bytes A × World
      → Result Bytes B × World
  and_then next (ok a, w) = next a w
  and_then next (err e, w) = (err e, w)
  and_then next (panic, w) = (panic, w)

  -- `for i in 0..rows`, with the rows left
  unfoldable pub write_rows : ℕ → ℕ → ℕ → Writer → World → Result Bytes Writer × World
  write_rows zero i seed b w = (ok b, w)
  write_rows (suc left) i seed b w =
      and_then (λ b' w'. write_rows left (suc i) (next_seed seed) b' w')
        (write w b (row_line show hex i (next_seed seed) []))

  abbrev pub wrote_line : ℕ → Bytes → Bytes
  wrote_line rows out = codes "wrote " ++ (show rows ++ (codes " rows to " ++ (out ++ 10 ∷ [])))

  -- what is printed to stderr at the end, or the error
  abbrev pub flushed : Bytes → Option Bytes × World → Result Bytes Bytes × World
  flushed line (none, w) = (ok line, w)
  flushed line (some e, w) = (err e, w)

  unfoldable pub main : (Bytes → Option ℕ) → List Bytes → World → Result Bytes Bytes × World
  unfolding write_rows row_count out_path
  main parse args w =
      let rows = row_count parse args in
      let out = out_path args in
      and_then
        (λ b w'.
          and_then (λ b' w''. flushed (wrote_line rows out) (flush w'' b'))
            (write_rows rows 0 first_seed b w'))
        (create w out)

  row_line-append :
      (i seed : ℕ) (rest : Bytes)
      → row_line show hex i seed [] ++ rest ≡ row_line show hex i seed rest
  unfolding row_line
  row_line-append i seed rest =
      append_assoc (row_key show hex i) (9 ∷ (row_value show hex i seed ++ 10 ∷ [])) rest
      ∙ ap (λ r. row_key show hex i ++ 9 ∷ r)
          (append_assoc (row_value show hex i seed) (10 ∷ []) rest)

  and_then-ok :
      {A B : Type 0} (next : A → World → Result Bytes B × World) (r : Result Bytes A × World)
      (b : B) (w' : World)
      → and_then next r ≡ (ok b, w')
      → (a : A) × (w : World) × (r ≡ (ok a, w)) × (next a w ≡ (ok b, w'))
  and_then-ok next (ok a, w) b w' done = (a, w, refl, done)
  and_then-ok {B = B} next (err e, w) b w' done =
      let no : ◌≡◌ {A = Result Bytes B} (err e) (ok b) = ap (λ r. r.0) done in absurd (cc)
  and_then-ok {B = B} next (panic, w) b w' done =
      let no : ◌≡◌ {A = Result Bytes B} panic (ok b) = ap (λ r. r.0) done in absurd (cc)

  -- the rows are behind what the writer had
  write_rows-taken :
      (left i seed : ℕ) (b : Writer) (w : World) (b' : Writer) (w' : World)
      → write_rows left i seed b w ≡ (ok b', w')
      → (path_of b' ≡ path_of b) × (taken b' ≡ taken b ++ rows_from show hex left i seed)
  unfolding write_rows rows_from
  write_rows-taken zero i seed b w b' w' done =
      let same : ◌≡◌ {A = Result Bytes Writer} (ok b) (ok b') = ap (λ r. r.0) done in
      let is : b ≡ b' = cc in (ap path_of (sym is), ap taken (sym is) ∙ sym (append-nil (taken b)))
  write_rows-taken (suc left) i seed b w b' w' done =
      let line = row_line show hex i (next_seed seed) [] in
      let (c, v, wrote, later) = and_then-ok _ (write w b line) b' w' done in
      let (here, has) = file.write_ok w b line c v wrote in
      let (there, all) = write_rows-taken left (suc i) (next_seed seed) c v b' w' later in
      let rest = rows_from show hex left (suc i) (next_seed seed) in
      (
        there ∙ here,
        all
            ∙ ap (λ t. t ++ rest) has
            ∙ append_assoc (taken b) line rest
            ∙ ap (λ t. taken b ++ t) (row_line-append i (next_seed seed) rest),
      )

  flushed-ok :
      (line said : Bytes) (r : Option Bytes × World) (w' : World)
      → flushed line r ≡ (ok said, w')
      → (said ≡ line) × (r ≡ (none, w'))
  flushed-ok line said (none, w) w' done =
      let same : ◌≡◌ {A = Result Bytes Bytes} (ok line) (ok said) = ap (λ r. r.0) done in
      (cc, λ i. (none, (ap (λ r. r.1) done) i))
  flushed-ok line said (some e, w) w' done =
      let no : ◌≡◌ {A = Result Bytes Bytes} (err e) (ok said) = ap (λ r. r.0) done in absurd (cc)

  -- A `main` that ends without an error has written the whole dataset.
  pub main-generate :
      (parse : Bytes → Option ℕ) (args : List Bytes) (w : World) (said : Bytes) (w' : World)
      → main parse args w ≡ (ok said, w')
      → (said ≡ wrote_line (row_count parse args) (out_path args))
        × (contents w' (out_path args) ≡ some (generate show hex (row_count parse args)))
  unfolding main generate
  main-generate parse args w said w' done =
      let (b, v, made, later) = and_then-ok _ (create w (out_path args)) said w' done in
      let (c, v', rows, last) =
        and_then-ok _ (write_rows (row_count parse args) 0 first_seed b v) said w' later in
      let (line, ends) = flushed-ok _ said (flush v' c) w' last in
      let (place, empty) = file.create_ok w (out_path args) b v made in
      let (same, all) = write_rows-taken (row_count parse args) 0 first_seed b v c v' rows in
      (
        line,
        ap (contents w') (sym (same ∙ place))
            ∙ file.flush_ok v' c w' ends
            ∙ ap some (all ∙ ap (λ t. t ++ generate show hex (row_count parse args)) empty),
      )

module _ (fmt : Writing) (hex : ℕ → Bytes) (hex-IsPlain : (n : ℕ) → IsPlain (hex n))
    (display : Bytes → Bytes) (fs : FileSystem) (file : Output fs) (paths : Paths) (pid : ℕ)
    (nanos : ℕ → ℕ) (h : HashTable) (csv_hash : Bytes → ℕ) (utf8 : Bytes → Bool)
    (ascii : TakesAscii utf8) (lossy : Bytes → Bytes) (read_records : ℕ → Bool → Bytes → Reads)
    (plain : ReadsPlain read_records) where
  open fs use {World, contents, read}

  -- The generator and `check` agree. After a run of the generator that met no error, its line on
  -- stderr names the number of rows and the file, and `check` of that file, if it can be read, with
  -- tab as the delimiter and no header, exits with 0 and keeps exactly the generated rows, in
  -- order. The dataset must be below 4 GiB; the hexadecimal digits, the reader and the UTF-8 check
  -- are as documented on ASCII text without quotes.
  pub main-check :
      (parse : Bytes → Option ℕ) (args : List Bytes) (w : World) (said : Bytes) (w' : World)
      (cargs : DataArgs) (source : Bytes)
      → main fs file fmt.show hex parse args w ≡ (ok said, w')
      → cargs.path ≡ out_path args
      → read w' cargs.path ≡ ok source
      → (load_options cargs.parse (paths.extension cargs.path)).delimiter ≡ 9
      → cargs.parse.header ≡ false
      → length source ≤ u32_max
      → (said ≡ wrote_line fs file fmt.show hex (row_count parse args) (out_path args))
        × (check_code fmt hex hex-IsPlain display fs paths pid nanos h csv_hash utf8 ascii lossy
              read_records plain w' cargs
            ≡ ok exit_ok)
        × (rows_kept fmt hex hex-IsPlain display fs paths pid nanos h csv_hash utf8 ascii lossy
              read_records plain cargs source
            ≡ pairs_of fmt hex hex-IsPlain display fs paths pid nanos h csv_hash utf8 ascii lossy
                read_records plain
                (row_count parse args))
  main-check parse args w said w' cargs source done there here tabs plain_rows small =
      let rows = row_count parse args in
      let (line, holds) = main-generate fs file fmt.show hex parse args w said w' done in
      let found = fs.read_ok w' cargs.path source here in
      let at_path = ap (contents w') there ∙ holds in
      let is : source ≡ generate fmt.show hex rows = cc in
      let (code, kept) =
        generate-check fmt hex hex-IsPlain display fs paths pid nanos h csv_hash utf8 ascii lossy
          read_records plain w' cargs rows (here ∙ ap ok is) tabs plain_rows
          (subst (λ t. length t ≤ u32_max) is small) in
      (
        line,
        code,
        ap
              (rows_kept fmt hex hex-IsPlain display fs paths pid nanos h csv_hash utf8 ascii lossy
                read_records plain cargs)
              is
            ∙ kept,
      )
