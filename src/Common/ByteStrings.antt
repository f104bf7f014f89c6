-- ===== src/Common/ByteStrings.antt =====
-- Byte strings: comparison, `&s[a..b]`, and little-endian `u32`s.
use Prim.Native.Nat.{ℕ, ◌+◌, ◌-◌, ◌/◌, ◌%◌, ◌^◌, ◌≤◌, ◌<◌}
use mathlib.Core.Path.{◌≡◌, refl, sym, ap, ◌∙◌}
use mathlib.Core.Bool.{Bool, true, false, ◌&&◌}
use mathlib.Core.List.{List, [], ◌∷◌, ◌++◌, append-nil}
use native.Mathlib.Omega.{arith}
use justkv.Common.Tests.{leb, le→leb, ◌==◌, if◌then◌else◌}
use justkv.Common.Lists.{All, length, take, drop, length-append, drop-append, take-append}
use justkv.Common.Results.{Result, ok, panic}

-- Each number of a `Bytes` is meant to be below 256; no theorem rests on it unless it says so.
abbrev pub Bytes : Type 0
Bytes = List ℕ

abbrev pub IsByte : ℕ → Type 0
IsByte b = b < 256

-- the byte does not occur
abbrev pub Lacks : ℕ → Bytes → Type 0
Lacks b w = All (λ c. (c == b) ≡ false) w

abbrev pub u32_mod : ℕ
u32_mod = 2 ^ 32

abbrev pub u32_max : ℕ
u32_max = 2 ^ 32 - 1

abbrev pub u64_mod : ℕ
u64_mod = 2 ^ 64

unfoldable pub bytes_eq : Bytes → Bytes → Bool
bytes_eq [] [] = true
bytes_eq (a ∷ as') (b ∷ bs) = a == b && bytes_eq as' bs
bytes_eq _ _ = false

pub bytes_eq_sound : (a b : Bytes) → bytes_eq a b ≡ true → a ≡ b
unfolding bytes_eq
bytes_eq_sound [] [] h = refl
bytes_eq_sound (a ∷ as') (b ∷ bs) h = ground (arith, bytes_eq_sound as' bs)
bytes_eq_sound [] (b ∷ bs) h = absurd (cc)
bytes_eq_sound (a ∷ as') [] h = absurd (cc)

pub bytes_eq_refl : (a : Bytes) → bytes_eq a a ≡ true
unfolding bytes_eq
bytes_eq_refl [] = refl
bytes_eq_refl (a ∷ as') = ground (arith, bytes_eq_refl as')

-- `&s[a..b]`, which panics unless a <= b <= s.len()
unfoldable pub slice {ℓ κ} : {E : Type κ} {A : Type ℓ} → List A → ℕ → ℕ → Result E (List A)
slice xs a b = if leb a b && leb b (length xs) then ok (take (b - a) (drop a xs)) else panic

module _ {ℓ κ} {E : Type κ} {A : Type ℓ} where
  pub slice-append_right :
      (xs ys : List A) (a b : ℕ)
      → slice {E = E} (xs ++ ys) (length xs + a) (length xs + b) ≡ slice ys a b
  unfolding slice
  slice-append_right xs ys a b =
      let e : length xs + b - (length xs + a) ≡ b - a = omega arith in
      rw (e, drop-append xs ys a, length-append xs ys) (ground arith)

  pub slice_middle :
      (xs ys zs : List A)
      → slice {E = E} (xs ++ (ys ++ zs)) (length xs) (length xs + length ys) ≡ ok ys
  unfolding slice
  slice_middle xs ys zs =
      let e : length xs + length ys - length xs ≡ length ys = omega arith in
      let z : length xs ≡ length xs + 0 = omega arith in
      let d : drop (length xs) (xs ++ (ys ++ zs)) ≡ ys ++ zs =
        ap (λ k. drop k (xs ++ (ys ++ zs))) z ∙ drop-append xs (ys ++ zs) 0 in
      rw (e, d, take-append ys zs, length-append xs (ys ++ zs), length-append ys zs) (ground arith)

  -- in range, a slice is the bytes between its bounds
  pub slice_within :
      (xs : List A) (a b : ℕ)
      → a ≤ b
      → b ≤ length xs
      → slice {E = E} xs a b ≡ ok (take (b - a) (drop a xs))
  unfolding slice
  slice_within xs a b h k = rw (le→leb a b h, le→leb b (length xs) k)

  pub slice_suffix :
      (xs ys : List A) → slice {E = E} (xs ++ ys) (length xs) (length xs + length ys) ≡ ok ys
  slice_suffix xs ys =
      let e =
        ap (λ (zs : List A). slice {E = E} (xs ++ zs) (length xs) (length xs + length ys))
          (append-nil ys) in
      sym e ∙ slice_middle xs ys []

-- `u32::to_le_bytes`
unfoldable pub to_le_bytes : ℕ → Bytes
to_le_bytes v = v % 256 ∷ v / 256 % 256 ∷ v / 65536 % 256 ∷ v / 16777216 % 256 ∷ []
