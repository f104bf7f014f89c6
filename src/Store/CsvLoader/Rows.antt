-- ===== src/Store/CsvLoader/Rows.antt =====
-- What one row of two fields does to the state of `parse_csv`: the reports, and the append with its
-- offsets and its index.
use justkv.Common.{
  ℕ, suc, ◌+◌, ◌%◌, ◌≤◌, ◌<◌, ◌≡◌, refl, sym, ap, ◌∙◌, inl, inr, Bool, true, false, not, Option,
  none, some, List, [], ◌∷◌, ◌++◌, append-nil, append_assoc, Bytes, ok, length, length-append,
  get_elem?, arith, u32_mod, u32_max, ltb, Bool-cases, if◌then◌else◌, ◌&&◌,
}
use justkv.HashTable.{HashTable}
use justkv.Store.CsvLoader.{
  LoadOptions, DataError, DataErrorKind, duplicate_key, invalid_utf8_value, Loading, entry_hash,
  push_error, report_duplicate, report_invalid, append_pair, append_unless, too_large,
}
use justkv.Store.CsvLoader.Spec.{
  Kept, first_line, size, duplicate_problem, value_problem, overflows, keep,
}
use justkv.Store.CsvLoader.Layout.{
  pack, layout, length-pack, length-layout, size-append, pack-append, layout-append, length-snoc,
}
use justkv.Store.CsvLoader.FirstLine.{DistinctRows, DistinctRows-snoc, length-le-size_suc}
use justkv.Store.CsvLoader.Index.{countdown, lines_of, lines_of-append, Finds, stored-append}

-- `st` holds the kept rows and has reported `errs`
pub record Holding (h : HashTable) (hash : Bytes → ℕ) (kept : List Kept) (errs : List DataError)
    (st : Loading h) : Type 0 where
  pub arena_is : st.arena ≡ pack kept
  pub entries_are : st.entries ≡ layout 0 kept
  pub lines_are : st.lines ≡ lines_of kept
  pub errors_are : st.errors ≡ errs
  pub stored :
      h.Holds (entry_hash hash (layout 0 kept) (pack kept)) st.seen (countdown (length kept))
  pub distinct : DistinctRows kept
  pub small : size kept ≤ u32_max

abbrev pub too_late : ℕ → Bool → List DataError
too_late line true = record { line = line; kind = too_large } ∷ []
too_late line false = []

module _ (h : HashTable) (hash : Bytes → ℕ) (utf8 : Bytes → Bool) (lossy : Bytes → Bytes)
    (opts : LoadOptions) where
  module _ (kept : List Kept) (errs : List DataError) (st : Loading h)
      (holding : Holding h hash kept errs st) (line : ℕ) where
    -- a report leaves the rows alone
    pub push_error-Holding :
        (kind : DataErrorKind)
        → Holding h hash kept
            (errs ++ record { line = line; kind = kind } ∷ [])
            (push_error h hash utf8 lossy opts st line kind)
    push_error-Holding kind = record {
      arena_is = holding.arena_is;
      entries_are = holding.entries_are;
      lines_are = holding.lines_are;
      errors_are =
          ap (λ (es : List DataError). es ++ record { line = line; kind = kind } ∷ [])
            holding.errors_are;
      stored = holding.stored;
      distinct = holding.distinct;
      small = holding.small;
    }

    module _ (key val : Bytes) (fresh : first_line key kept ≡ none)
        (fits : ltb u32_max (size kept + length key + length val) ≡ false) where
      abbrev new_row : Kept
      new_row = record { key = key; value = val; line = line }

      arena-append : (st.arena ++ key) ++ val ≡ pack (kept ++ new_row ∷ [])
      arena-append =
          rw (holding.arena_is, pack-append kept (new_row ∷ []), append-nil val)
            (append_assoc (pack kept) key val)

      arena_size : length st.arena ≡ size kept
      arena_size = ap length holding.arena_is ∙ length-pack kept

      new_size : size (kept ++ new_row ∷ []) < u32_mod
      new_size = ground (arith, size-append kept (new_row ∷ []))

      entries-append :
          st.entries
            ++ record {
              k_off = length st.arena % u32_mod;
              k_len = length key % u32_mod;
              v_off = length (st.arena ++ key) % u32_mod;
              v_len = length val % u32_mod;
            }
              ∷ []
          ≡ layout 0 (kept ++ new_row ∷ [])
      entries-append =
          let room = size-append kept (new_row ∷ []) in
          let k : length st.arena % u32_mod ≡ 0 + size kept = omega (arith, arena_size, new_size) in
          let kl : length key % u32_mod ≡ length key = omega (arith, room, new_size) in
          let v : length (st.arena ++ key) % u32_mod ≡ 0 + size kept + length key =
            omega (arith, arena_size, length-append st.arena key, room, new_size) in
          let vl : length val % u32_mod ≡ length val = omega (arith, room, new_size) in
          rw (k, kl, v, vl, holding.entries_are, layout-append 0 kept (new_row ∷ []))

      entry_count : length st.entries % u32_mod ≡ length kept
      entry_count =
          let bound =
            length-le-size_suc (kept ++ new_row ∷ [])
              (DistinctRows-snoc kept new_row holding.distinct fresh) in
          let count = ap length holding.entries_are ∙ length-layout 0 kept in
          omega (arith, count, bound, new_size, length-snoc kept new_row)

      append_pair-Holding :
          ((append_pair h hash utf8 lossy opts st line key val).1 ≡ false)
          × Holding h hash
              (kept ++ new_row ∷ [])
              errs
              (append_pair h hash utf8 lossy opts st line key val).0
      unfolding append_pair
      append_pair-Holding =
          let test : ltb u32_max (length st.arena + length key + length val) ≡ false =
            rw arena_size fits in
          rw test (
            refl,
            record {
              arena_is = arena-append;
              entries_are = entries-append;
              lines_are =
                  ap (λ ls. ls ++ line ∷ []) holding.lines_are
                  ∙ sym (lines_of-append kept (new_row ∷ []));
              errors_are = holding.errors_are;
              stored =
                  let next : length (kept ++ new_row ∷ []) ≡ suc (length kept) =
                    omega (arith, length-snoc kept new_row) in
                  rw (next, arena-append, entries-append, entry_count)
                    (stored-append h hash kept new_row st.seen new_size holding.stored);
              distinct = DistinctRows-snoc kept new_row holding.distinct fresh;
              small = omega (arith, new_size);
            },
          )

    -- the duplicate test
    pub report_duplicate-Holding :
        (key : Bytes) (dup : Option ℕ)
        → Finds h hash kept key dup
        → (st' : Loading h) × (report_duplicate h hash utf8 lossy opts {E = List DataError} st line
              key dup
            ≡ ok st')
          × Holding h hash kept
              (errs ++ duplicate_problem utf8 lossy opts line key (first_line key kept))
              st'
    unfolding report_duplicate duplicate_problem
    report_duplicate-Holding key none miss = (st, refl, rw (miss, append-nil errs) holding)
    report_duplicate-Holding key (some i) (l, at, first) =
        let here : get_elem? st.lines i ≡ some l =
          ap (λ ls. get_elem? ls i) holding.lines_are ∙ at in
        (
          push_error h hash utf8 lossy opts st line (duplicate_key (lossy key) l),
          rw here,
          rw first (push_error-Holding (duplicate_key (lossy key) l)),
        )

    -- the UTF-8 test
    pub report_invalid-Holding :
        (val : Bytes)
        → Holding h hash kept
            (errs ++ value_problem utf8 lossy opts line val)
            (report_invalid h hash utf8 lossy opts st line val)
    unfolding report_invalid value_problem
    report_invalid-Holding val = elim (Bool-cases (not opts.allow_binary && not (utf8 val))) [
      | inl bad ↦ rw bad (push_error-Holding invalid_utf8_value)
      | inr good ↦ rw (good, append-nil errs) holding
    ]

    append_pair_over :
        (key val : Bytes)
        → ltb u32_max (size kept + length key + length val) ≡ true
        → ((append_pair h hash utf8 lossy opts st line key val).1 ≡ true)
          × Holding h hash kept
              (errs ++ too_late line true)
              (append_pair h hash utf8 lossy opts st line key val).0
    unfolding append_pair
    append_pair_over key val over =
        let n : length st.arena ≡ size kept = ap length holding.arena_is ∙ length-pack kept in
        let test : ltb u32_max (length st.arena + length key + length val) ≡ true = rw n over in
        rw test (refl, push_error-Holding too_large)

    -- the size test and the append
    pub append_unless-Holding :
        (key val : Bytes) (dup : Option ℕ)
        → Finds h hash kept key dup
        → let r = append_unless h hash utf8 lossy opts dup st line key val in
          let over = overflows kept (key ∷ val ∷ []) in
          (r.1 ≡ over)
          × Holding h hash
              (if over then kept else keep kept line (key ∷ val ∷ []))
              (errs ++ too_late line over)
              r.0
    unfolding append_unless overflows keep
    append_unless-Holding key val (some i) (l, at, first) =
        rw (first) (refl, rw (append-nil errs) holding)
    append_unless-Holding key val none miss =
        rw (miss) (elim (Bool-cases (ltb u32_max (size kept + length key + length val))) [
          | inl over ↦ rw over (append_pair_over key val over)
          | inr fits ↦ rw (fits, append-nil errs) (append_pair-Holding key val miss fits)
        ])
