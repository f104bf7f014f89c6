-- ===== src/Tests/Decimal.antt =====
-- Decimal digits and quoted texts, with what `Writing` asks of them.
use Prim.Native.Nat.{◌-◌, ◌*◌, ◌/◌}
use justkv.Common.{
  ℕ, zero, suc, ◌+◌, ◌%◌, ◌<◌, ◌≤◌, ◌≡◌, refl, ap, sym, ◌∙◌, [], ◌∷◌, ◌++◌, Bytes, All, All-append,
  Lacks, ltb, ◌==◌, if◌then◌else◌, Bool-cases, inl, inr, arith, append_assoc,
}
use justkv.Common.Writing.{Writing, IsDigit}

-- as many digits as the fuel allows
unfoldable pub digits : ℕ → ℕ → Bytes
digits zero n = []
digits (suc fuel) n =
    let front = digits fuel (n / 10) in
    if ltb n 10 then (48 + n) ∷ [] else front ++ (48 + n % 10) ∷ []

unfoldable pub show_decimal : ℕ → Bytes
unfolding digits
show_decimal n = digits (suc n) n

number : ℕ → Bytes → ℕ
number acc [] = acc
number acc (c ∷ b) = number (acc * 10 + (c - 48)) b

number-append : (acc : ℕ) (a b : Bytes) → number acc (a ++ b) ≡ number (number acc a) b
unfolding number
number-append acc [] b = refl
number-append acc (c ∷ a) b = number-append (acc * 10 + (c - 48)) a b

number-digits : (fuel n : ℕ) → n < fuel → number 0 (digits fuel n) ≡ n
unfolding number digits
number-digits zero n h = absurd (omega arith)
number-digits (suc fuel) n h = elim (Bool-cases (ltb n 10)) [
  | inl small ↦ rw small (omega arith)
  | inr large ↦
      let ten : 10 ≤ n = ground arith in
      rw (large, number-append 0 (digits fuel (n / 10)) ((48 + n % 10) ∷ []))
        (omega (arith, number-digits fuel (n / 10) (omega arith)))
]

digits-IsDigit : (fuel n : ℕ) → All IsDigit (digits fuel n)
unfolding digits
digits-IsDigit zero n = tt
digits-IsDigit (suc fuel) n = elim (Bool-cases (ltb n 10)) [
  | inl small ↦ let less : n < 10 = ground arith in rw small (omega arith)
  | inr large ↦
      rw large
        (All-append IsDigit (digits fuel (n / 10)) _ (digits-IsDigit fuel (n / 10)) (omega arith))
]

pub show_decimal-inj : (m n : ℕ) → show_decimal m ≡ show_decimal n → m ≡ n
unfolding show_decimal
show_decimal-inj m n e =
    sym (number-digits (suc m) m (omega arith))
    ∙ ap (number 0) e
    ∙ number-digits (suc n) n (omega arith)

pub show_decimal-IsDigit : (n : ℕ) → All IsDigit (show_decimal n)
unfolding show_decimal
show_decimal-IsDigit n = digits-IsDigit (suc n) n

-- a backslash before each quote, backslash and newline
escape : ℕ → Bytes
escape c =
    if c == 34
    then 92 ∷ 34 ∷ []
    else if c == 92
    then 92 ∷ 92 ∷ []
    else if c == 10
    then 92 ∷ b'n' ∷ []
    else c ∷ []

escaped : Bytes → Bytes
unfolding escape
escaped [] = 34 ∷ []
escaped (c ∷ b) = escape c ++ escaped b

unfoldable pub quoted : Bytes → Bytes
unfolding escaped
quoted b = 34 ∷ escaped b

escape-inj : (c d : ℕ) (x y : Bytes) → escape c ++ x ≡ escape d ++ y → (c ≡ d) × (x ≡ y)
unfolding escape
escape-inj c d x y e = ground arith

escape_open : (c : ℕ) (x y : Bytes) → ¬ (escape c ++ x ≡ 34 ∷ y)
unfolding escape
escape_open c x y e = ground arith

escaped-inj : (a b x y : Bytes) → escaped a ++ x ≡ escaped b ++ y → (a ≡ b) × (x ≡ y)
unfolding escaped
escaped-inj [] [] x y e = (refl, cc)
escaped-inj [] (d ∷ b) x y e =
    absurd (escape_open d (escaped b ++ y) x (sym (append_assoc (escape d) _ _) ∙ sym e))
escaped-inj (c ∷ a) [] x y e =
    absurd (escape_open c (escaped a ++ x) y (sym (append_assoc (escape c) _ _) ∙ e))
escaped-inj (c ∷ a) (d ∷ b) x y e =
    let (head, rest) =
      escape-inj c d (escaped a ++ x) (escaped b ++ y)
        (sym (append_assoc (escape c) (escaped a) x) ∙ e ∙ append_assoc (escape d) (escaped b) y) in
    let (tail, behind) = escaped-inj a b x y rest in (cc, behind)

escape-Lacks : (c : ℕ) → Lacks 10 (escape c)
unfolding escape
escape-Lacks c = ground arith

escaped-Lacks : (b : Bytes) → Lacks 10 (escaped b)
unfolding escaped
escaped-Lacks [] = ground arith
escaped-Lacks (c ∷ b) = All-append _ (escape c) (escaped b) (escape-Lacks c) (escaped-Lacks b)

pub quoted-inj : (a b x y : Bytes) → quoted a ++ x ≡ quoted b ++ y → (a ≡ b) × (x ≡ y)
unfolding quoted
quoted-inj a b x y e = escaped-inj a b x y (cc)

pub quoted-Lacks : (a : Bytes) → Lacks 10 (quoted a)
unfolding quoted
quoted-Lacks a = (ground arith, escaped-Lacks a)

abbrev pub decimal : Writing
decimal = record {
  show = show_decimal;
  debug = quoted;
  show-IsDigit = show_decimal-IsDigit;
  show-inj = show_decimal-inj;
  debug-inj = quoted-inj;
  debug-Lacks = quoted-Lacks;
}
