-- ===== src/Bench/Seeds.antt =====
-- The seeds of bench/gen.rs: the xorshift steps never leave the nonzero `u64`s.
use Prim.Native.Nat.{◌/◌, bit_xor, bit_xor-bitwise, digits, differ}
use native.Mathlib.Nat.{pow-suc}
use justkv.Common.{ℕ, zero, suc, ◌+◌, ◌*◌, ◌%◌, ◌^◌, ◌≤◌, ◌<◌, ◌≡◌, ◌≢◌, refl, ap, arith, u64_mod}
use justkv.Bench.{first_seed, next_seed}

abbrev xor_digits : ℕ → ℕ → ℕ → ℕ
xor_digits n a b = digits (λ b. b) differ n a b

xor_digits_fuel : (n m a b : ℕ) → a ≤ n → a ≤ m → xor_digits n a b ≡ xor_digits m a b
xor_digits_fuel zero zero a b p q = refl
xor_digits_fuel zero (suc m) zero b p q = refl
xor_digits_fuel zero (suc m) (suc a) b p q = absurd (omega arith)
xor_digits_fuel (suc n) zero zero b p q = refl
xor_digits_fuel (suc n) zero (suc a) b p q = absurd (omega arith)
xor_digits_fuel (suc n) (suc m) zero b p q = refl
xor_digits_fuel (suc n) (suc m) (suc a) b p q =
    omega (arith, xor_digits_fuel n m (suc a / 2) (b / 2) (omega arith) (omega arith))

zero-bit_xor : (b : ℕ) → bit_xor 0 b ≡ b
zero-bit_xor b = bit_xor-bitwise 0 b

-- the lowest digit, and the rest
bit_xor_step : (a b : ℕ) → bit_xor a b ≡ bit_xor (a / 2) (b / 2) * 2 + differ (a % 2) (b % 2)
bit_xor_step zero b = omega (arith, zero-bit_xor b, zero-bit_xor (b / 2))
bit_xor_step (suc a) b = omega (
  arith,
  bit_xor-bitwise (suc a) b,
  bit_xor-bitwise (suc a / 2) (b / 2),
  xor_digits_fuel a (suc a / 2) (suc a / 2) (b / 2) (omega arith) (omega arith),
)

differ_bits : (x y : ℕ) → x < 2 → y < 2 → (differ x y < 2) × (differ x y ≡ 0 → x ≡ y)
differ_bits zero y p q = (omega arith, (λ e. omega arith))
differ_bits (suc zero) zero p q = (omega arith, (λ e. omega arith))
differ_bits (suc zero) (suc zero) p q = (omega arith, (λ e. refl))
differ_bits (suc zero) (suc (suc y)) p q = absurd (omega arith)
differ_bits (suc (suc x)) y p q = absurd (omega arith)

bit_xor-lt : (k a b : ℕ) → a < 2 ^ k → b < 2 ^ k → bit_xor a b < 2 ^ k
bit_xor-lt zero a b p q =
    omega
      (arith, bit_xor_step a b, zero-bit_xor b, ap (λ x. bit_xor x b) {x = a} {y = 0} (omega arith))
bit_xor-lt (suc k) a b p q = omega (
  arith,
  pow-suc 2 k,
  bit_xor_step a b,
  differ_bits (a % 2) (b % 2) (omega arith) (omega arith),
  bit_xor-lt k (a / 2) (b / 2) (omega (arith, pow-suc 2 k)) (omega (arith, pow-suc 2 k)),
)

bit_xor-eq-zero : (n a b : ℕ) → a ≤ n → b ≤ n → bit_xor a b ≡ 0 → a ≡ b
bit_xor-eq-zero zero a b p q e = omega arith
bit_xor-eq-zero (suc n) a b p q e =
    let low =
      (differ_bits (a % 2) (b % 2) (omega arith) (omega arith)).1
        (omega (arith, bit_xor_step a b)) in
    let high =
      bit_xor-eq-zero n (a / 2) (b / 2) (omega arith) (omega arith)
        (omega (arith, bit_xor_step a b)) in
    omega (arith, low, high)

abbrev pub IsSeed : ℕ → Type 0
IsSeed s = (0 < s) × (s < u64_mod)

-- one line of the three: a seed and something else that fits
xor-IsSeed : (s t : ℕ) → IsSeed s → t < u64_mod → s ≢ t → IsSeed (bit_xor s t)
xor-IsSeed s t (pos, fits) small apart =
    let whole = bit_xor-lt 64 s t fits small in
    (
      pos_of (bit_xor s t) (λ e. apart (bit_xor-eq-zero (s + t) s t (omega arith) (omega arith) e)),
      whole,
    )
  where
    pos_of : (n : ℕ) → n ≢ 0 → 0 < n
    pos_of zero ne = absurd (ne refl)
    pos_of (suc n) ne = omega arith

shift_left_13 : (s : ℕ) → IsSeed s → s ≢ s * 2 ^ 13 % u64_mod
shift_left_13 s h e = absurd (omega arith)

shift_right_7 : (s : ℕ) → IsSeed s → s ≢ s / 2 ^ 7
shift_right_7 s h e = absurd (omega arith)

shift_left_17 : (s : ℕ) → IsSeed s → s ≢ s * 2 ^ 17 % u64_mod
shift_left_17 s h e = absurd (omega arith)

next_seed-IsSeed : (s : ℕ) → IsSeed s → IsSeed (next_seed s)
unfolding next_seed
next_seed-IsSeed s h =
    let a = xor-IsSeed s (s * 2 ^ 13 % u64_mod) h (omega arith) (shift_left_13 s h) in
    let b =
      xor-IsSeed _ (bit_xor s (s * 2 ^ 13 % u64_mod) / 2 ^ 7) a (omega arith) (shift_right_7 _ a) in
    xor-IsSeed _ _ b (omega arith) (shift_left_17 _ b)

-- the seed after so many rows
abbrev pub seed_at : ℕ → ℕ
seed_at zero = first_seed
seed_at (suc n) = next_seed (seed_at n)

-- The generator never gets stuck at 0: after any number of rows its seed is a `u64` and is not 0.
pub seed_at-IsSeed : (n : ℕ) → IsSeed (seed_at n)
seed_at-IsSeed zero = omega arith
seed_at-IsSeed (suc n) = next_seed-IsSeed (seed_at n) (seed_at-IsSeed n)
