-- ===== src/Store/CsvLoader/FirstLine.antt =====
-- The rows kept so far, as a map from keys to lines: no key twice, and so few rows that their
-- indices are `u32`s.
use justkv.Common.{
  ℕ, zero, suc, ◌+◌, ◌≤◌, ◌≡◌, refl, sym, ap, ◌∙◌, inl, inr, false, none, some, List, [], ◌∷◌, ◌++◌,
  Bytes, bytes_eq, bytes_eq_sound, bytes_eq_refl, length, get_elem?, arith, Bool-cases,
}
use justkv.Common.Assoc.{lookup, Distinct}
use justkv.Store.CsvLoader.Spec.{Kept, first_line, size}
use justkv.Store.CsvLoader.Layout.{dataset}

abbrev pub DistinctRows : List Kept → Type 0
DistinctRows [] = Unit
DistinctRows (x ∷ kept) = (first_line x.key kept ≡ none) × DistinctRows kept

-- a kept row is the one that its key finds
pub first_line-at :
    (kept : List Kept) (i : ℕ) (x : Kept)
    → DistinctRows kept
    → get_elem? kept i ≡ some x
    → first_line x.key kept ≡ some x.line
first_line-at [] i x d at = absurd (cc)
first_line-at (y ∷ kept) zero x d at =
    let same : y ≡ x = cc in
    rw (ap (λ (z : Kept). bytes_eq z.key x.key) same, bytes_eq_refl x.key)
      (ap (λ (z : Kept). some z.line) same)
first_line-at (y ∷ kept) (suc i) x (fresh, d) at =
    let later = first_line-at kept i x d at in
    elim (Bool-cases (bytes_eq y.key x.key)) [
      | inl e ↦
          absurd (cc (later, fresh, ap (λ k. first_line k kept) (bytes_eq_sound y.key x.key e)))
      | inr e ↦ rw e later
    ]

pub first_line-eq-none :
    (kept : List Kept) (q : Bytes)
    → ((i : ℕ) (x : Kept) → get_elem? kept i ≡ some x → bytes_eq x.key q ≡ false)
    → first_line q kept ≡ none
first_line-eq-none [] q h = refl
first_line-eq-none (x ∷ kept) q h = rw (h 0 x refl) (first_line-eq-none kept q (λ i. h (suc i)))

bytes_eq_symm : (a b : Bytes) → bytes_eq a b ≡ false → bytes_eq b a ≡ false
bytes_eq_symm a b h = elim (Bool-cases (bytes_eq b a)) [
  | inl e ↦ absurd (cc (h, ap (λ c. bytes_eq c b) (bytes_eq_sound b a e), bytes_eq_refl b))
  | inr e ↦ e
]

first_line-snoc :
    (kept : List Kept) (q : Bytes) (x : Kept)
    → first_line q kept ≡ none
    → bytes_eq x.key q ≡ false
    → first_line q (kept ++ x ∷ []) ≡ none
first_line-snoc [] q x miss h = rw h
first_line-snoc (y ∷ kept) q x miss h = elim (Bool-cases (bytes_eq y.key q)) [
  | inl e ↦ absurd (cc (rw e at miss))
  | inr e ↦ rw e (first_line-snoc kept q x (rw e at miss) h)
]

pub DistinctRows-snoc :
    (kept : List Kept) (x : Kept)
    → DistinctRows kept
    → first_line x.key kept ≡ none
    → DistinctRows (kept ++ x ∷ [])
DistinctRows-snoc [] x d miss = (refl, tt)
DistinctRows-snoc (y ∷ kept) x (fresh, d) miss = elim (Bool-cases (bytes_eq y.key x.key)) [
  | inl e ↦ absurd (cc (rw e at miss))
  | inr e ↦ (
    first_line-snoc kept y.key x fresh (bytes_eq_symm y.key x.key e),
    DistinctRows-snoc kept x d (rw e at miss),
  )
]

length_nonempty : (k : Bytes) → bytes_eq k [] ≡ false → 1 ≤ length k
unfolding bytes_eq
length_nonempty [] h = absurd (cc)
length_nonempty (b ∷ k) h = omega arith

-- without the empty key each row takes a byte
length-le-size : (kept : List Kept) → first_line [] kept ≡ none → length kept ≤ size kept
length-le-size [] miss = omega arith
length-le-size (x ∷ kept) miss = elim (Bool-cases (bytes_eq x.key [])) [
  | inl e ↦ absurd (cc (rw e at miss))
  | inr e ↦ omega (arith, length_nonempty x.key e, length-le-size kept (rw e at miss))
]

-- keys are distinct, so at most one row is empty
pub length-le-size_suc : (kept : List Kept) → DistinctRows kept → length kept ≤ size kept + 1
length-le-size_suc [] d = omega arith
length-le-size_suc (x ∷ kept) (fresh, d) = elim (Bool-cases (bytes_eq x.key [])) [
  | inl e ↦
      let none_else : first_line [] kept ≡ none =
        ap (λ k. first_line k kept) (sym (bytes_eq_sound x.key [] e)) ∙ fresh in
      omega (arith, length-le-size kept none_else)
  | inr e ↦ omega (arith, length_nonempty x.key e, length-le-size_suc kept d)
]

pub lookup-dataset :
    (kept : List Kept) (q : Bytes) → first_line q kept ≡ none → lookup q (dataset kept) ≡ none
lookup-dataset [] q miss = refl
lookup-dataset (x ∷ kept) q miss = elim (Bool-cases (bytes_eq x.key q)) [
  | inl e ↦ absurd (cc (rw e at miss))
  | inr e ↦ rw e (lookup-dataset kept q (rw e at miss))
]

pub Distinct-dataset : (kept : List Kept) → DistinctRows kept → Distinct (dataset kept)
Distinct-dataset [] d = tt
Distinct-dataset (x ∷ kept) (fresh, d) = (lookup-dataset kept x.key fresh, Distinct-dataset kept d)
