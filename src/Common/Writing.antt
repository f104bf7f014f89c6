-- ===== src/Common/Writing.antt =====
-- How `std::fmt` writes numbers and quoted texts: a parameter of the model, with what is documented
-- of it. Then the facts by which a text that was put together is taken apart again.
use Prim.Native.Nat.{ℕ, ◌≤◌}
use mathlib.Core.Path.{◌≡◌, refl}
use mathlib.Core.List.{List, [], ◌∷◌, ◌++◌}
use native.Mathlib.Omega.{arith}
use justkv.Common.Lists.{All}
use justkv.Common.ByteStrings.{Bytes, Lacks}

-- `0` to `9`
abbrev pub IsDigit : ℕ → Type 0
IsDigit c = (48 ≤ c) × (c ≤ 57)

-- `{}` of an unsigned number, and `{:?}` of a `str`: in quotes, with a backslash before each quote
-- and each backslash of the text and no newline, so that it shows where it ends.
pub record Writing : Type 0 where
  pub show : ℕ → Bytes
  pub debug : Bytes → Bytes
  pub show-IsDigit : (n : ℕ) → All IsDigit (show n)
  pub show-inj : (m n : ℕ) → show m ≡ show n → m ≡ n
  pub debug-inj : (a b x y : Bytes) → debug a ++ x ≡ debug b ++ y → (a ≡ b) × (x ≡ y)
  pub debug-Lacks : (a : Bytes) → Lacks 10 (debug a)

module _ {A : Type 0} where
  pub append_cancel : (p x y : List A) → p ++ x ≡ p ++ y → x ≡ y
  append_cancel [] x y e = e
  append_cancel (a ∷ p) x y e = append_cancel p x y (cc)

-- digits end at the first byte that is none
pub digits-inj :
    (a b : Bytes) (c d : ℕ) (x y : Bytes)
    → All IsDigit a
    → All IsDigit b
    → ¬ IsDigit c
    → ¬ IsDigit d
    → a ++ c ∷ x ≡ b ++ d ∷ y
    → (a ≡ b) × (c ∷ x ≡ d ∷ y)
digits-inj [] [] c d x y da db nc nd e = (refl, e)
digits-inj [] (b ∷ bs) c d x y da (db, dbs) nc nd e =
    let same : c ≡ b = cc in absurd (nc (omega (arith, same)))
digits-inj (a ∷ as') [] c d x y (da, das) db nc nd e =
    let same : a ≡ d = cc in absurd (nd (omega (arith, same)))
digits-inj (a ∷ as') (b ∷ bs) c d x y (da, das) (db, dbs) nc nd e =
    let (same, rest) = digits-inj as' bs c d x y das dbs nc nd (cc) in (cc, rest)

-- a line ends at its newline
pub line-inj :
    (a b x y : Bytes) → Lacks 10 a → Lacks 10 b → a ++ 10 ∷ x ≡ b ++ 10 ∷ y → (a ≡ b) × (x ≡ y)
line-inj [] [] x y la lb e = (refl, cc)
line-inj [] (b ∷ bs) x y la (lb, lbs) e = let same : 10 ≡ b = cc in absurd (ground arith)
line-inj (a ∷ as') [] x y (la, las) lb e = let same : a ≡ 10 = cc in absurd (ground arith)
line-inj (a ∷ as') (b ∷ bs) x y (la, las) (lb, lbs) e =
    let (same, rest) = line-inj as' bs x y las lbs (cc) in (cc, rest)
