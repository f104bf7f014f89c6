-- ===== src/Common/Assoc.antt =====
-- The abstract view of a dataset: an association list from keys to values, the first entry first.
use Prim.Native.Nat.{ℕ, zero, suc, ◌+◌}
use mathlib.Core.Path.{◌≡◌, refl, ap, sym, subst}
use mathlib.Core.Logic.{◌⊎◌, inl, inr}
use mathlib.Core.Bool.{false}
use mathlib.Core.Option.{Option, none, some}
use mathlib.Core.List.{List, [], ◌∷◌}
use native.Mathlib.Omega.{arith}
use justkv.Common.Tests.{if◌then◌else◌, Bool-cases}
use justkv.Common.Lists.{get_elem?, length, All}
use justkv.Common.ByteStrings.{Bytes, bytes_eq, bytes_eq_sound, bytes_eq_refl}

abbrev pub In : {A : Type 0} → A → List A → Type 0
In a [] = ⊥
In a (x ∷ xs) = (a ≡ x) ⊎ In a xs

module _ {A : Type 0} where
  pub In-get_elem? : (xs : List A) (i : ℕ) (a : A) → get_elem? xs i ≡ some a → In a xs
  In-get_elem? [] i a h = cc
  In-get_elem? (x ∷ xs) zero a h = inl (cc)
  In-get_elem? (x ∷ xs) (suc i) a h = inr (In-get_elem? xs i a h)

  pub In-index : (xs : List A) (a : A) → In a xs → (i : ℕ) × (get_elem? xs i ≡ some a)
  In-index [] a h = absurd h
  In-index (x ∷ xs) a (inl e) = (0, ap some (sym e))
  In-index (x ∷ xs) a (inr h) = let (i, g) = In-index xs a h in (suc i, g)

  pub In-All : (P : A → Type 0) (xs : List A) (a : A) → All P xs → In a xs → P a
  In-All P [] a ps h = absurd h
  In-All P (x ∷ xs) a (p, ps) (inl e) = subst P (sym e) p
  In-All P (x ∷ xs) a (p, ps) (inr h) = In-All P xs a ps h

  -- `xs` pushed one by one onto `acc`
  abbrev pub push_all : List A → List A → List A
  push_all acc [] = acc
  push_all acc (x ∷ xs) = push_all (x ∷ acc) xs

  pub length-push_all : (acc xs : List A) → length (push_all acc xs) ≡ length acc + length xs
  length-push_all acc [] = omega arith
  length-push_all acc (x ∷ xs) = omega (arith, length-push_all (x ∷ acc) xs)

  pub push_all-In : (acc xs : List A) (a : A) → In a (push_all acc xs) → In a acc ⊎ In a xs
  push_all-In acc [] a h = inl h
  push_all-In acc (x ∷ xs) a h = elim (push_all-In (x ∷ acc) xs a h) [
    | inl (inl e) ↦ inr (inl e)
    | inl (inr g) ↦ inl g
    | inr g ↦ inr (inr g)
  ]

  pub In-push_all : (acc xs : List A) (a : A) → In a acc ⊎ In a xs → In a (push_all acc xs)
  In-push_all acc [] a (inl h) = h
  In-push_all acc [] a (inr h) = absurd h
  In-push_all acc (x ∷ xs) a (inl h) = In-push_all (x ∷ acc) xs a (inl (inr h))
  In-push_all acc (x ∷ xs) a (inr (inl e)) = In-push_all (x ∷ acc) xs a (inl (inl e))
  In-push_all acc (x ∷ xs) a (inr (inr h)) = In-push_all (x ∷ acc) xs a (inr h)

module _ {V : Type 0} where
  -- the value of the first pair with this key
  abbrev pub lookup : Bytes → List (Bytes × V) → Option V
  lookup q [] = none
  lookup q ((k, v) ∷ l) = if bytes_eq k q then some v else lookup q l

  -- no key twice
  abbrev pub Distinct : List (Bytes × V) → Type 0
  Distinct [] = Unit
  Distinct ((k, v) ∷ l) = (lookup k l ≡ none) × Distinct l

  pub lookup-In :
      (l : List (Bytes × V)) (k : Bytes) (v : V) → Distinct l → In (k, v) l → lookup k l ≡ some v
  lookup-In [] k v d h = absurd h
  lookup-In ((j, w) ∷ l) k v (fresh, d) (inl e) =
      let ek : j ≡ k = ap (λ (p : Bytes × V). p.0) (sym e) in
      let ev : w ≡ v = ap (λ (p : Bytes × V). p.1) (sym e) in rw (ek, bytes_eq_refl k) (ap some ev)
  lookup-In ((j, w) ∷ l) k v (fresh, d) (inr h) = elim (Bool-cases (bytes_eq j k)) [
    | inl e ↦
        let same : j ≡ k = bytes_eq_sound j k e in
        absurd (cc (lookup-In l k v d h, fresh, ap (λ t. lookup t l) same))
    | inr e ↦ rw e (lookup-In l k v d h)
  ]

  pub lookup-eq-none :
      (l : List (Bytes × V)) (q : Bytes)
      → ((k : Bytes) (v : V) → In (k, v) l → bytes_eq k q ≡ false)
      → lookup q l ≡ none
  lookup-eq-none [] q h = refl
  lookup-eq-none ((k, v) ∷ l) q h =
      rw (h k v (inl refl)) (lookup-eq-none l q (λ j w m. h j w (inr m)))
