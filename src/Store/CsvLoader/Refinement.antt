-- ===== src/Store/CsvLoader/Refinement.antt =====
-- The loop of `parse_csv`, with its arena, offsets and hash table of indices, does what the
-- specification says over plain rows.
use justkv.Common.{
  ℕ, ◌<◌, ◌≡◌, refl, ap, ◌∙◌, inl, inr, Bool, Option, none, List, [], ◌∷◌, ◌++◌, append-nil,
  append_assoc, Bytes, Result, ok, err, length, arith, u32_mod, Bool-cases, if◌then◌else◌,
}
use justkv.HashTable.{HashTable}
use justkv.Store.{Entry}
use justkv.Store.CsvLoader.{
  LoadOptions, DataError, wrong_column_count, malformed, Loading, entry_is, entry_hash,
  report_invalid, append_unless, load_pair, load_row, load_rows, start, finish, parse_csv, Reads,
  eof, failure, row, row_line, line_hint,
}
use justkv.Store.CsvLoader.Spec.{
  Kept, first_line, size, row_problems, duplicate_problem, value_problem, overflows, keep, problems,
  kept_rows,
}
use justkv.Store.CsvLoader.Layout.{pack, layout}
use justkv.Store.CsvLoader.FirstLine.{DistinctRows}
use justkv.Store.CsvLoader.Index.{Finds, find-Finds}
use justkv.Store.CsvLoader.Rows.{
  Holding, too_late, push_error-Holding, report_duplicate-Holding, report_invalid-Holding,
  append_unless-Holding,
}

module _ (h : HashTable) (hash : Bytes → ℕ) (utf8 : Bytes → Bool) (lossy : Bytes → Bytes)
    (opts : LoadOptions) where
  -- One row: the flag says that the dataset overflows, the rows and the problems are those of the
  -- specification.
  abbrev after_row : List Kept → ℕ → List Bytes → List Kept
  after_row kept line fields = if overflows kept fields then kept else keep kept line fields

  abbrev Steps : List Kept → List DataError → Loading h → ℕ → List Bytes → Type 0
  Steps kept errs st line fields =
      (st' : Loading h) × (load_row h hash utf8 lossy opts {E = List DataError} st line fields
        ≡ ok (st', overflows kept fields))
      × Holding h hash (after_row kept line fields)
          (errs
            ++ (row_problems utf8 lossy opts kept line fields
                ++ too_late line (overflows kept fields)))
          st'

  module _ (kept : List Kept) (errs : List DataError) (st : Loading h)
      (holding : Holding h hash kept errs st) (line : ℕ) where
    load_pair-Steps : (key val : Bytes) → Steps kept errs st line (key ∷ val ∷ [])
    unfolding load_row load_pair row_problems
    load_pair-Steps key val =
        let dup = h.find (hash key) (entry_is st.entries st.arena key) st.seen in
        let finds : Finds h hash kept key dup =
          rw (holding.entries_are, holding.arena_is)
            (find-Finds h hash kept key st.seen (omega (arith, holding.small)) holding.distinct
              holding.stored) in
        let (st₁, run, one) =
          report_duplicate-Holding h hash utf8 lossy opts kept errs st holding line key dup finds in
        let two = report_invalid-Holding h hash utf8 lossy opts kept _ st₁ one line val in
        let st₂ = report_invalid h hash utf8 lossy opts st₁ line val in
        let (stop, three) =
          append_unless-Holding h hash utf8 lossy opts kept _ st₂ two line key val dup finds in
        let last = append_unless h hash utf8 lossy opts dup st₂ line key val in
        let d = duplicate_problem utf8 lossy opts line key (first_line key kept) in
        let v = value_problem utf8 lossy opts line val in
        let t = too_late line (overflows kept (key ∷ val ∷ [])) in
        let regroup : ((errs ++ d) ++ v) ++ t ≡ errs ++ ((d ++ v) ++ t) = simp append_assoc in
        (last.0, rw run (ap (λ (b : Bool). ok (last.0, b)) stop), rw (← regroup) three)

    load_row-Steps : (fields : List Bytes) → Steps kept errs st line fields
    unfolding load_row row_problems overflows keep
    load_row-Steps (key ∷ val ∷ []) = load_pair-Steps key val
    load_row-Steps [] = (
      _,
      refl,
      push_error-Holding h hash utf8 lossy opts kept errs st holding line (wrong_column_count 0),
    )
    load_row-Steps (a ∷ []) = (
      _,
      refl,
      push_error-Holding h hash utf8 lossy opts kept errs st holding line (wrong_column_count 1),
    )
    load_row-Steps (a ∷ b ∷ c ∷ r) = (
      _,
      refl,
      push_error-Holding h hash utf8 lossy opts kept errs st holding line
          (wrong_column_count (length (a ∷ b ∷ c ∷ r))),
    )

  load_rows-Holding :
      (reads : Reads) (kept : List Kept) (errs : List DataError) (st : Loading h)
      (before : Option ℕ)
      → Holding h hash kept errs st
      → (st' : Loading h) × (load_rows h hash utf8 lossy opts {E = List DataError} st before reads
          ≡ ok st')
        × Holding h hash
            (kept_rows kept before reads)
            (errs ++ problems utf8 lossy opts kept before reads)
            st'
  unfolding load_rows kept_rows problems
  load_rows-Holding eof kept errs st before holding = (st, refl, rw (append-nil errs) holding)
  load_rows-Holding (failure msg) kept errs st before holding = (
    _,
    refl,
    push_error-Holding h hash utf8 lossy opts kept errs st holding (line_hint before)
        (malformed msg),
  )
  load_rows-Holding (row rec rest) kept errs st before holding =
      let line = row_line before rec.position in
      let (st₁, run, one) = load_row-Steps kept errs st holding line rec.fields in
      let found = row_problems utf8 lossy opts kept line rec.fields in
      elim (Bool-cases (overflows kept rec.fields)) [
        | inl over ↦ (st₁, rw run (rw over), rw over (rw over at one))
        | inr fits ↦
            let next = keep kept line rec.fields in
            let two : Holding h hash next (errs ++ found) st₁ =
              rw (← append-nil found) (rw fits at one) in
            let (st₂, later, three) =
              load_rows-Holding rest next (errs ++ found) st₁ rec.position two in
            let regroup =
              append_assoc errs found (problems utf8 lossy opts next rec.position rest) in
            (st₂, rw run (rw fits later), rw fits (rw (← regroup) three))
      ]

  start-Holding : Holding h hash [] [] (start h hash utf8 lossy opts)
  start-Holding = record {
    arena_is = refl;
    entries_are = refl;
    lines_are = refl;
    errors_are = refl;
    stored = h.new_holds (entry_hash hash [] []);
    distinct = tt;
    small = omega arith;
  }

  -- what the specification answers
  abbrev pub Answer : List Kept → List DataError → Result (List DataError) (Bytes × List Entry)
  Answer kept [] = ok (pack kept, layout 0 kept)
  Answer kept (e ∷ es) = err (e ∷ es)

  finish-Answer :
      (kept : List Kept) (errs : List DataError) (st : Loading h)
      → Holding h hash kept errs st
      → finish h hash utf8 lossy opts st st.errors ≡ Answer kept errs
  finish-Answer kept errs st holding =
      ap (finish h hash utf8 lossy opts st) holding.errors_are ∙ by_errors errs
    where
      by_errors : (es : List DataError) → finish h hash utf8 lossy opts st es ≡ Answer kept es
      by_errors [] = rw (holding.arena_is, holding.entries_are)
      by_errors (e ∷ es) = refl

  -- For every hash function, hash table and sequence of reads, `parse_csv` never panics. It returns
  -- the arena and the entries of the first row of each key, laid end to end, exactly when the
  -- specification finds no problem, and otherwise all the problems in the order of the rows: each
  -- wrong column count, each repeated key with the line of its first row, each value that is not
  -- UTF-8, the row that passes the `u32` limit, and the read that failed.
  pub parse_csv-Answer :
      (read_records : ℕ → Bool → Bytes → Reads) (file : Bytes)
      → let reads = read_records opts.delimiter opts.has_header file in
        parse_csv h hash utf8 lossy opts read_records file
        ≡ Answer (kept_rows [] none reads) (problems utf8 lossy opts [] none reads)
  unfolding parse_csv
  parse_csv-Answer read_records file =
      let reads = read_records opts.delimiter opts.has_header file in
      let (st, run, holding) =
        load_rows-Holding reads [] [] (start h hash utf8 lossy opts) none start-Holding in
      rw run (finish-Answer _ _ st holding)

  -- what is known of the rows that were kept
  pub kept_rows-DistinctRows :
      (reads : Reads)
      → DistinctRows (kept_rows [] none reads) × (size (kept_rows [] none reads) < u32_mod)
  kept_rows-DistinctRows reads =
      let (st, run, holding) =
        load_rows-Holding reads [] [] (start h hash utf8 lossy opts) none start-Holding in
      (holding.distinct, omega (arith, holding.small))
