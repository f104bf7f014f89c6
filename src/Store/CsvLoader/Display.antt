-- ===== src/Store/CsvLoader/Display.antt =====
-- The `Display` of `DataError` in src/store/csv_loader.rs.
use justkv.Common.{ℕ, ◌+◌, ◌≡◌, refl, ap, ◌*◌, ◌∷◌, ◌++◌, Bytes, codes, arith}
use justkv.Common.Writing.{Writing, append_cancel, digits-inj}
use justkv.Store.CsvLoader.{
  DataErrorKind, wrong_column_count, duplicate_key, invalid_utf8_value, malformed, too_large,
  DataError,
}

-- enough of a text to tell the kinds apart
abbrev first_bytes : Bytes → ℕ
first_bytes (a ∷ b ∷ rest) = a * 256 + b
first_bytes b = 0

module _ (fmt : Writing) where
  open fmt use {show, debug, show-IsDigit, show-inj, debug-inj}

  unfoldable pub kind_text : DataErrorKind → Bytes
  kind_text (wrong_column_count found) = codes "expected 2 columns, found " ++ show found
  kind_text (duplicate_key key first_line) =
      codes "duplicate key " ++ (debug key ++ (codes ", first seen on line " ++ show first_line))
  kind_text invalid_utf8_value = codes "value is not valid UTF-8 (pass --allow-binary to permit)"
  kind_text (malformed msg) = codes "malformed row: " ++ msg
  kind_text too_large = codes "dataset exceeds the 4 GiB limit imposed by u32 offsets"

  unfoldable pub error_text : DataError → Bytes
  unfolding kind_text
  error_text e = codes "line " ++ (show e.line ++ (codes ": " ++ kind_text e.kind))

  kind_text-inj : (a b : DataErrorKind) → kind_text a ≡ kind_text b → a ≡ b
  unfolding kind_text
  kind_text-inj (wrong_column_count m) (wrong_column_count n) e =
      ap wrong_column_count
        (show-inj m n (append_cancel (codes "expected 2 columns, found ") (show m) (show n) e))
  kind_text-inj (duplicate_key k m) (duplicate_key l n) e =
      let (same, rest) = debug-inj k l _ _ (append_cancel (codes "duplicate key ") _ _ e) in
      let line = show-inj m n (append_cancel (codes ", first seen on line ") _ _ rest) in cc
  kind_text-inj invalid_utf8_value invalid_utf8_value e = refl
  kind_text-inj (malformed m) (malformed n) e =
      ap malformed (append_cancel (codes "malformed row: ") m n e)
  kind_text-inj too_large too_large e = refl
  kind_text-inj a b e = absurd (omega (arith, ap first_bytes e))

  -- No two problems look alike: problems with the same text are the same, with the line, the kind,
  -- and the number, key and lines or message that it carries.
  pub error_text-inj : (a b : DataError) → error_text a ≡ error_text b → a ≡ b
  unfolding error_text
  error_text-inj a b e =
      let (line, rest) =
        digits-inj (show a.line) (show b.line) _ _ _ _ (show-IsDigit a.line) (show-IsDigit b.line)
          (λ d. absurd (omega arith)) (λ d. absurd (omega arith))
          (append_cancel (codes "line ") _ _ e) in
      let kind = kind_text-inj a.kind b.kind (append_cancel (codes ": ") _ _ rest) in
      let same = show-inj a.line b.line line in λ i. record { line = same i; kind = kind i }
