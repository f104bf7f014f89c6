-- ===== src/Store/Load/Display.antt =====
-- The `Display` of `LoadFailure` in src/store/mod.rs.
use justkv.Common.{List, [], ◌∷◌, ◌++◌, Bytes, codes, length}
use justkv.Common.Writing.{Writing}
use justkv.Store.CsvLoader.{DataError}
use justkv.Store.CsvLoader.Display.{error_text}
use justkv.Store.Compiled.Display.{compiled_text}
use justkv.Store.Load.{LoadFailure, io, bad_data, bad_file}

module _ (fmt : Writing) where
  -- `writeln!(f, "{e}")` for each problem
  unfoldable pub problem_texts : List DataError → Bytes
  problem_texts [] = []
  problem_texts (e ∷ es) = error_text fmt e ++ 10 ∷ problem_texts es

  unfoldable pub failure_text : LoadFailure → Bytes
  unfolding problem_texts
  failure_text (io e) = e
  failure_text (bad_file e) = compiled_text fmt e
  failure_text (bad_data errs) =
      problem_texts errs ++ (fmt.show (length errs) ++ codes " problem(s) found")
