-- ===== src/Metrics/Totals.antt =====
-- What a sequence of atomic additions leaves in each counter.
use justkv.Common.{
  ℕ, zero, suc, ◌+◌, ◌%◌, ◌<◌, ◌≡◌, ◌≢◌, refl, ◌∙◌, inl, inr, Bool, true, false, List, [], ◌∷◌,
  ◌++◌, length, get_or, length-set, get_or-set_self, get_or-set_ne, All, arith, ◌==◌, if◌then◌else◌,
  Bool-cases, u64_mod,
}
use justkv.Metrics.{Metrics, Counter, fetch_add, run_adds, new}

abbrev pub Add : Type 0
Add = Counter × ℕ

unfoldable pub read : Counter → Metrics → ℕ
read Counter.requests m = m.requests
read Counter.hits m = m.hits
read Counter.misses m = m.misses
read Counter.defaults m = m.defaults
read Counter.bytes m = m.bytes
read Counter.sum_nanos m = m.sum_nanos
read Counter.timed m = m.timed
read (Counter.bucket i) m = get_or m.buckets i 0

abbrev pub same : Counter → Counter → Bool
same Counter.requests Counter.requests = true
same Counter.hits Counter.hits = true
same Counter.misses Counter.misses = true
same Counter.defaults Counter.defaults = true
same Counter.bytes Counter.bytes = true
same Counter.sum_nanos Counter.sum_nanos = true
same Counter.timed Counter.timed = true
same (Counter.bucket i) (Counter.bucket j) = i == j
same _ _ = false

-- the counter is one that `Metrics` has
abbrev pub Exists : Counter → Type 0
Exists (Counter.bucket i) = i < 13
Exists _ = Unit

-- all counters are `u64`s
pub record IsValid (m : Metrics) : Type 0 where
  pub shape : length m.buckets ≡ 13
  pub below : (c : Counter) → read c m < u64_mod

abbrev part : Counter → Counter → ℕ → ℕ
part c c' n = if same c c' then n else 0

read-fetch_add :
    (c c' : Counter) (n : ℕ) (m : Metrics)
    → IsValid m
    → Exists c'
    → read c (fetch_add c' n m) ≡ (read c m + part c c' n) % u64_mod
unfolding read fetch_add
read-fetch_add (Counter.bucket i) (Counter.bucket j) n m v e = elim (Bool-cases (i == j)) [
  | inl eq ↦
      let here : i ≡ j = ground arith in
      rw (eq, here)
        (get_or-set_self m.buckets j ((get_or m.buckets j 0 + n) % u64_mod) 0
          (omega (arith, v.shape)))
  | inr ne ↦
      let apart : j ≢ i = ground arith in
      rw (ne) (
        get_or-set_ne m.buckets j i ((get_or m.buckets j 0 + n) % u64_mod) 0 apart
        ∙ omega (arith, v.below (Counter.bucket i)))
]
read-fetch_add Counter.requests Counter.requests n m v e = refl
read-fetch_add c c' n m v e = ground (arith, v.below c)

fetch_add-shape :
    (c : Counter) (n : ℕ) (m : Metrics) → length (fetch_add c n m).buckets ≡ length m.buckets
unfolding fetch_add
fetch_add-shape (Counter.bucket i) n m = length-set m.buckets i _
fetch_add-shape _ n m = refl

pub fetch_add-IsValid :
    (c : Counter) (n : ℕ) (m : Metrics) → IsValid m → Exists c → IsValid (fetch_add c n m)
fetch_add-IsValid c n m v e = record {
  shape = fetch_add-shape c n m ∙ v.shape;
  below = λ d. omega (arith, read-fetch_add d c n m v e);
}

-- what a list of additions adds to one counter
unfoldable pub total : Counter → List Add → ℕ
total c [] = 0
total c ((c', n) ∷ adds) = part c c' n + total c adds

abbrev pub AllExist : List Add → Type 0
AllExist adds = All (λ (a : Add). Exists a.0) adds

pub total-append : (c : Counter) (xs ys : List Add) → total c (xs ++ ys) ≡ total c xs + total c ys
unfolding total
total-append c [] ys = omega arith
total-append c ((c', n) ∷ xs) ys = omega (arith, total-append c xs ys)

-- one addition more
pub read-fetch_add-total :
    (c : Counter) (a : Add) (rest : ℕ) (m : Metrics)
    → IsValid m
    → Exists a.0
    → (read c (fetch_add a.0 a.1 m) + rest) % u64_mod
      ≡ (read c m + (total c (a ∷ []) + rest)) % u64_mod
unfolding total
read-fetch_add-total c (c', n) rest m v e = omega (arith, read-fetch_add c c' n m v e)

-- Every counter has grown by what was added to it, modulo 2 ^ 64, and stays a `u64`.
pub run_adds-read :
    (adds : List Add) (m : Metrics) (c : Counter)
    → IsValid m
    → AllExist adds
    → IsValid (run_adds adds m) × (read c (run_adds adds m) ≡ (read c m + total c adds) % u64_mod)
unfolding run_adds total
run_adds-read [] m c v e = (v, omega (arith, v.below c))
run_adds-read ((c', n) ∷ adds) m c v (e, es) =
    let (w, later) = run_adds-read adds (fetch_add c' n m) c (fetch_add-IsValid c' n m v e) es in
    (w, omega (arith, later, read-fetch_add c c' n m v e))

get_or-zeros : (xs : List ℕ) (i : ℕ) → All (λ x. x ≡ 0) xs → get_or xs i 0 ≡ 0
get_or-zeros [] i h = refl
get_or-zeros (x ∷ xs) zero (p, h) = p
get_or-zeros (x ∷ xs) (suc i) (p, h) = get_or-zeros xs i h

pub read-new : (c : Counter) → read c new ≡ 0
unfolding new read
read-new (Counter.bucket i) = get_or-zeros new.buckets i (omega arith)
read-new Counter.requests = refl
read-new _ = refl

pub new-IsValid : IsValid new
unfolding new
new-IsValid = record { shape = refl; below = λ c. omega (arith, read-new c) }
