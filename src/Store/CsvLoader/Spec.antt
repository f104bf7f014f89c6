-- ===== src/Store/CsvLoader/Spec.antt =====
-- What `parse_csv` promises, over plain lists of rows: no arena, no offsets, no hash table.
use justkv.Common.{
  ℕ, ◌+◌, Bool, true, false, not, ◌&&◌, Option, none, some, List, [], ◌∷◌, ◌++◌, Bytes, bytes_eq,
  length, ltb, if◌then◌else◌, u32_max,
}
use justkv.Store.CsvLoader.{
  LoadOptions, wrong_column_count, duplicate_key, invalid_utf8_value, malformed, too_large,
  DataError, Reads, eof, failure, row, line_hint, row_line,
}

-- a row that was kept: the first with its key
pub record Kept : Type 0 where
  pub key : Bytes
  pub value : Bytes
  pub line : ℕ

-- the line of the row that holds this key
abbrev pub first_line : Bytes → List Kept → Option ℕ
first_line q [] = none
first_line q (x ∷ kept) = if bytes_eq x.key q then some x.line else first_line q kept

-- the bytes of all keys and values
abbrev pub size : List Kept → ℕ
size [] = 0
size (x ∷ kept) = length x.key + length x.value + size kept

module _ (utf8 : Bytes → Bool) (lossy : Bytes → Bytes) (opts : LoadOptions) where
  unfoldable pub duplicate_problem : ℕ → Bytes → Option ℕ → List DataError
  duplicate_problem line key none = []
  duplicate_problem line key (some first) =
      record { line = line; kind = duplicate_key (lossy key) first } ∷ []

  unfoldable pub value_problem : ℕ → Bytes → List DataError
  value_problem line val =
      if not opts.allow_binary && not (utf8 val)
      then record { line = line; kind = invalid_utf8_value } ∷ []
      else []

  -- all that is wrong with one row, given the rows kept before it
  unfoldable pub row_problems : List Kept → ℕ → List Bytes → List DataError
  unfolding duplicate_problem value_problem
  row_problems kept line (key ∷ val ∷ []) =
      duplicate_problem line key (first_line key kept) ++ value_problem line val
  row_problems kept line fields =
      record { line = line; kind = wrong_column_count (length fields) } ∷ []

abbrev is_none {ℓ} : {A : Type ℓ} → Option A → Bool
is_none none = true
is_none (some a) = false

-- whether the row has a new key and would take the dataset past what `u32` offsets reach
unfoldable pub overflows : List Kept → List Bytes → Bool
overflows kept (key ∷ val ∷ []) =
    is_none (first_line key kept) && ltb u32_max (size kept + length key + length val)
overflows kept fields = false

unfoldable pub keep : List Kept → ℕ → List Bytes → List Kept
keep kept line (key ∷ val ∷ []) =
    if is_none (first_line key kept)
    then kept ++ record { key = key; value = val; line = line } ∷ []
    else kept
keep kept line fields = kept

-- all rows that are kept, and all problems in the order of the rows
module _ (utf8 : Bytes → Bool) (lossy : Bytes → Bytes) (opts : LoadOptions) where
  unfoldable pub problems : List Kept → Option ℕ → Reads → List DataError
  problems kept before eof = []
  problems kept before (failure msg) = record { line = line_hint before; kind = malformed msg } ∷ []
  problems kept before (row rec rest) =
      let line = row_line before rec.position in
      let later = problems (keep kept line rec.fields) rec.position rest in
      row_problems utf8 lossy opts kept line rec.fields
      ++ (if overflows kept rec.fields
          then record { line = line; kind = too_large } ∷ []
          else later)

unfoldable pub kept_rows : List Kept → Option ℕ → Reads → List Kept
kept_rows kept before eof = kept
kept_rows kept before (failure msg) = kept
kept_rows kept before (row rec rest) =
    let later = kept_rows (keep kept (row_line before rec.position) rec.fields) rec.position rest in
    if overflows kept rec.fields then kept else later
