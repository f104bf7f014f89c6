-- ===== src/Store/CsvLoader/Parts.antt =====
-- The parts that `parse_csv` returns meet what `from_parts` and `write_compiled` ask of their input.
use justkv.Common.{
  ℕ, ◌+◌, ◌≤◌, ◌<◌, ◌≡◌, refl, sym, ap, ◌∙◌, List, [], ◌∷◌, ◌++◌, append_assoc, Bytes, length,
  length-append, drop, drop-append, take, take-append, All, arith, u32_mod,
}
use justkv.Store.Windows.{InArena, window, pairs}
use justkv.Store.Compiled.Entries.{FitsU32}
use justkv.Store.CsvLoader.Spec.{Kept, size}
use justkv.Store.CsvLoader.Layout.{pack, layout, dataset}

pub layout-InArena :
    (off n : ℕ) (kept : List Kept) → off + size kept ≤ n → All (InArena n) (layout off kept)
layout-InArena off n [] h = tt
layout-InArena off n (x ∷ kept) h =
    (omega arith, layout-InArena (off + length x.key + length x.value) n kept (omega arith))

pub layout-FitsU32 :
    (off : ℕ) (kept : List Kept) → off + size kept < u32_mod → All FitsU32 (layout off kept)
layout-FitsU32 off [] h = tt
layout-FitsU32 off (x ∷ kept) h =
    (omega arith, layout-FitsU32 (off + length x.key + length x.value) kept (omega arith))

window-append : (pre w post : Bytes) → window (pre ++ (w ++ post)) (length pre) (length w) ≡ w
window-append pre w post =
    let z : length pre ≡ length pre + 0 = omega arith in
    ap (λ n. take (length w) (drop n (pre ++ (w ++ post)))) z
    ∙ ap (take (length w)) (drop-append pre (w ++ post) 0)
    ∙ take-append w post

-- the entries spell the rows
pub pairs-layout :
    (pre : Bytes) (kept : List Kept)
    → pairs (pre ++ pack kept) (layout (length pre) kept) ≡ dataset kept
pairs-layout pre [] = refl
pairs-layout pre (x ∷ kept) =
    let rest = x.value ++ pack kept in
    let behind : (pre ++ x.key) ++ rest ≡ pre ++ (x.key ++ rest) = append_assoc pre x.key rest in
    let v : window (pre ++ (x.key ++ rest)) (length pre + length x.key) (length x.value) ≡ x.value =
      ap (λ a. window a (length pre + length x.key) (length x.value)) (sym behind)
      ∙ ap (λ n. window ((pre ++ x.key) ++ rest) n (length x.value)) (sym (length-append pre x.key))
      ∙ window-append (pre ++ x.key) x.value (pack kept) in
    let pre' = (pre ++ x.key) ++ x.value in
    let n : length pre' ≡ length pre + length x.key + length x.value =
      omega (arith, length-append (pre ++ x.key) x.value, length-append pre x.key) in
    let whole : pre' ++ pack kept ≡ pre ++ (x.key ++ rest) =
      append_assoc (pre ++ x.key) x.value (pack kept) ∙ behind in
    let later : pairs (pre ++ (x.key ++ rest))
          (layout (length pre + length x.key + length x.value) kept)
        ≡ dataset kept =
      ap (λ a. pairs a (layout (length pre + length x.key + length x.value) kept)) (sym whole)
      ∙ ap (λ o. pairs (pre' ++ pack kept) (layout o kept)) (sym n)
      ∙ pairs-layout pre' kept in
    rw (window-append pre x.key rest, v, later)
