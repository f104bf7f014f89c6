-- ===== src/Cli/Report/Lines.antt =====
-- The lines that `check` prints of problems, read back.
use justkv.Common.{
  ℕ, ◌+◌, ◌≡◌, ◌==◌, refl, sym, ap, ◌∙◌, List, [], ◌∷◌, ◌++◌, Bytes, codes, All, append_assoc,
  All-append, All-map, Lacks, length, if◌then◌else◌, arith,
}
use justkv.Common.Writing.{Writing, append_cancel, line-inj}
use justkv.Store.CsvLoader.{
  DataErrorKind, wrong_column_count, duplicate_key, invalid_utf8_value, malformed, too_large,
  DataError,
}
use justkv.Store.CsvLoader.Display.{kind_text, error_text, error_text-inj}
use justkv.Cli.Report.{newline, problem_lines, count_line, report}

-- the number of newlines
abbrev pub lines : Bytes → ℕ
lines [] = 0
lines (c ∷ b) = (if c == 10 then 1 else 0) + lines b

pub lines-append : (a b : Bytes) → lines (a ++ b) ≡ lines a + lines b
lines-append [] b = omega arith
lines-append (c ∷ a) b = omega (arith, lines-append a b)

pub lines-Lacks : (a : Bytes) → Lacks 10 a → lines a ≡ 0
lines-Lacks [] h = refl
lines-Lacks (c ∷ a) (ne, h) = rw ne (omega (arith, lines-Lacks a h))

-- the message of a read that failed has one line
abbrev pub HasOneLine : DataError → Type 0
HasOneLine e = (msg : Bytes) → e.kind ≡ malformed msg → Lacks 10 msg

module _ (fmt : Writing) where
  open fmt use {show, show-IsDigit, debug-Lacks}

  show-Lacks : (n : ℕ) → Lacks 10 (show n)
  show-Lacks n = All-map (λ c d. ground arith) (show n) (show-IsDigit n)

  kind_text-Lacks :
      (k : DataErrorKind)
      → ((msg : Bytes) → k ≡ malformed msg → Lacks 10 msg)
      → Lacks 10 (kind_text fmt k)
  unfolding kind_text
  kind_text-Lacks (wrong_column_count n) h =
      All-append _ (codes "expected 2 columns, found ") (show n) (ground arith) (show-Lacks n)
  kind_text-Lacks (duplicate_key k n) h = All-append _ (codes "duplicate key ") _ (ground arith) (
      All-append _ _ _ (debug-Lacks k)
        (All-append _ (codes ", first seen on line ") (show n) (ground arith) (show-Lacks n)))
  kind_text-Lacks invalid_utf8_value h = ground arith
  kind_text-Lacks (malformed msg) h =
      All-append _ (codes "malformed row: ") msg (ground arith) (h msg refl)
  kind_text-Lacks too_large h = ground arith

  error_text-Lacks : (e : DataError) → HasOneLine e → Lacks 10 (error_text fmt e)
  unfolding error_text
  error_text-Lacks e h = All-append _ (codes "line ") _ (ground arith) (
      All-append _ _ _ (show-Lacks e.line)
        (All-append _ (codes ": ") _ (ground arith) (kind_text-Lacks e.kind h)))

  module _ (display : Bytes → Bytes) (path : Bytes) (plain : Lacks 10 (display path)) where
    lines-count_line : (n : ℕ) → lines (count_line fmt display path n) ≡ 1
    unfolding count_line
    lines-count_line n = omega (
      arith,
      lines-append (show n) (codes " problem(s) found in " ++ (display path ++ newline)),
      lines-append (display path) newline,
      lines-Lacks (show n) (show-Lacks n),
      lines-Lacks (display path) plain,
    )

    lines-problem_lines :
        (es : List DataError)
        → All HasOneLine es
        → lines (problem_lines fmt display path es) ≡ length es
    unfolding problem_lines
    lines-problem_lines [] one = refl
    lines-problem_lines (e ∷ es) (h, one) = omega (
      arith,
      lines-append (display path)
          (codes ": " ++ (error_text fmt e ++ 10 ∷ problem_lines fmt display path es)),
      lines-append (error_text fmt e) (10 ∷ problem_lines fmt display path es),
      lines-Lacks (display path) plain,
      lines-Lacks (error_text fmt e) (error_text-Lacks e h),
      lines-problem_lines es one,
    )

    pub lines-report :
        (es : List DataError)
        → All HasOneLine es
        → lines (report fmt display path es) ≡ length es + 1
    unfolding report
    lines-report es one = omega (
      arith,
      lines-append (problem_lines fmt display path es) (count_line fmt display path (length es)),
      lines-problem_lines es one,
      lines-count_line (length es),
    )

    problem_lines-append :
        (e : DataError) (es : List DataError) (x : Bytes)
        → problem_lines fmt display path (e ∷ es) ++ x
          ≡ display path
            ++ (codes ": " ++ (error_text fmt e ++ 10 ∷ (problem_lines fmt display path es ++ x)))
    unfolding problem_lines
    problem_lines-append e es x =
        let rest = problem_lines fmt display path es in
        append_assoc (display path) (codes ": " ++ (error_text fmt e ++ 10 ∷ rest)) x
        ∙ ap (λ r. display path ++ (codes ": " ++ r))
            (append_assoc (error_text fmt e) (10 ∷ rest) x)

    problem_lines-inj :
        (xs ys : List DataError) (x y : Bytes)
        → All HasOneLine xs
        → All HasOneLine ys
        → length xs ≡ length ys
        → problem_lines fmt display path xs ++ x ≡ problem_lines fmt display path ys ++ y
        → xs ≡ ys
    problem_lines-inj [] [] x y ox oy n e = refl
    problem_lines-inj [] (b ∷ ys) x y ox oy n e = absurd (omega arith)
    problem_lines-inj (a ∷ xs) [] x y ox oy n e = absurd (omega arith)
    problem_lines-inj (a ∷ xs) (b ∷ ys) x y (oa, ox) (ob, oy) n e =
        let cut = sym (problem_lines-append a xs x) ∙ e ∙ problem_lines-append b ys y in
        let text = append_cancel (codes ": ") _ _ (append_cancel (display path) _ _ cut) in
        let (same, rest) =
          line-inj (error_text fmt a) (error_text fmt b) _ _ (error_text-Lacks a oa)
            (error_text-Lacks b ob) text in
        let head = error_text-inj fmt a b same in
        let tail = problem_lines-inj xs ys x y ox oy (omega arith) rest in cc

    pub report-inj :
        (xs ys : List DataError)
        → All HasOneLine xs
        → All HasOneLine ys
        → report fmt display path xs ≡ report fmt display path ys
        → xs ≡ ys
    unfolding report
    report-inj xs ys ox oy e =
        let n : length xs ≡ length ys =
          omega (arith, ap lines e, lines-report xs ox, lines-report ys oy) in
        problem_lines-inj xs ys _ _ ox oy n e
