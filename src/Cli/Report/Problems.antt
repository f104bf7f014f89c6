-- ===== src/Cli/Report/Problems.antt =====
-- The problems as `check` and `serve` print them: a line for each, and a last line.
use justkv.Common.{
  ℕ, ◌≡◌, refl, sym, ap, ◌∙◌, List, [], ◌∷◌, ◌++◌, append_assoc, Bytes, codes, length,
}
use justkv.Common.Writing.{Writing}
use justkv.Store.CsvLoader.{DataError}
use justkv.Store.CsvLoader.Display.{error_text}
use justkv.Store.Load.{bad_data}
use justkv.Store.Load.Display.{problem_texts, failure_text}
use justkv.Cli.Report.{newline, problem_lines, count_line, report}

-- lines, each with its end
abbrev pub unlines : List Bytes → Bytes
unlines [] = []
unlines (line ∷ lines) = line ++ 10 ∷ unlines lines

module _ (fmt : Writing) where
  -- the text of each problem behind the same prefix, in order, and a last line
  abbrev pub problem_list : Bytes → Bytes → List DataError → List Bytes
  problem_list before last [] = last ∷ []
  problem_list before last (e ∷ es) = (before ++ error_text fmt e) ∷ problem_list before last es

  abbrev pub found_text : ℕ → Bytes
  found_text n = fmt.show n ++ codes " problem(s) found"

  -- as `serve` names them
  abbrev pub listed : List DataError → Bytes
  listed errs = codes "error: " ++ unlines (problem_list [] (found_text (length errs)) errs)

  problem_texts-unlines :
      (last : Bytes) (es : List DataError)
      → problem_texts fmt es ++ (last ++ newline) ≡ unlines (problem_list [] last es)
  unfolding problem_texts
  problem_texts-unlines last [] = refl
  problem_texts-unlines last (e ∷ es) =
      append_assoc (error_text fmt e) (10 ∷ problem_texts fmt es) (last ++ newline)
      ∙ ap (λ r. error_text fmt e ++ 10 ∷ r) (problem_texts-unlines last es)

  pub failure_text-listed :
      (errs : List DataError)
      → codes "error: " ++ (failure_text fmt (bad_data errs) ++ newline) ≡ listed errs
  unfolding failure_text
  failure_text-listed errs =
      let n = found_text (length errs) in
      ap (λ r. codes "error: " ++ r)
        (append_assoc (problem_texts fmt errs) n newline ∙ problem_texts-unlines n errs)

  module _ (display : Bytes → Bytes) (path : Bytes) where
    -- as `check` names them: the path in front of each, and in the last line
    abbrev pub listed_with_path : List DataError → Bytes
    listed_with_path errs = unlines (
        problem_list (display path ++ codes ": ")
          (found_text (length errs) ++ (codes " in " ++ display path)) errs)

    problem_lines-unlines :
        (last : Bytes) (es : List DataError)
        → problem_lines fmt display path es ++ (last ++ newline)
          ≡ unlines (problem_list (display path ++ codes ": ") last es)
    unfolding problem_lines
    problem_lines-unlines last [] = refl
    problem_lines-unlines last (e ∷ es) =
        let text = error_text fmt e in
        let rest = problem_lines fmt display path es in
        append_assoc (display path) (codes ": " ++ (text ++ 10 ∷ rest)) (last ++ newline)
        ∙ ap (λ r. display path ++ (codes ": " ++ r))
            (append_assoc text (10 ∷ rest) (last ++ newline)
              ∙ ap (λ r. text ++ 10 ∷ r) (problem_lines-unlines last es))
        ∙ sym (
            append_assoc (display path) (codes ": ")
              (text ++ 10 ∷ unlines (problem_list (display path ++ codes ": ") last es)))
        ∙ sym (
            append_assoc (display path ++ codes ": ") text
              (10 ∷ unlines (problem_list (display path ++ codes ": ") last es)))

    pub report-listed :
        (errs : List DataError) → report fmt display path errs ≡ listed_with_path errs
    unfolding report count_line
    report-listed errs =
        let n = fmt.show (length errs) in
        let found = codes " problem(s) found" in
        ap (λ r. problem_lines fmt display path errs ++ r)
          (sym (append_assoc n (found ++ (codes " in " ++ display path)) newline)
            ∙ ap (λ r. r ++ newline) (sym (append_assoc n found (codes " in " ++ display path))))
        ∙ problem_lines-unlines _ errs
