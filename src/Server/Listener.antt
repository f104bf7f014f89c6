-- ===== src/Server/Listener.antt =====
-- The accept loop of `NoDelayListener` in src/server/mod.rs.
use native.Mathlib.Nat.{pow-suc}
use justkv.Common.{
  ℕ, zero, suc, ◌*◌, ◌^◌, ◌≤◌, ◌<◌, ◌≡◌, refl, ap, ◌∙◌, some, List, [], ◌∷◌, length, get_elem?, min,
  leb, inl, inr, Bool-cases, arith,
}

-- What the inner `accept` answers, call after call: a number of errors and then a stream. (The loop
-- goes on for as long as there are errors.)
pub data Accepts (S : Type 0) : Type 0 where
  accepted : S → Accepts S
  failed : Accepts S → Accepts S

-- The stream that is returned, and the sleeps before it in milliseconds. `set_nodelay` is called on
-- the stream, and its result dropped.
unfoldable pub accept_loop : {S : Type 0} → (S → S) → ℕ → Accepts S → S × List ℕ
accept_loop set_nodelay backoff (accepted s) = (set_nodelay s, [])
accept_loop set_nodelay backoff (failed rest) =
    let r = accept_loop set_nodelay (min (backoff * 2) 256) rest in (r.0, backoff ∷ r.1)

unfoldable pub accept : {S : Type 0} → (S → S) → Accepts S → S × List ℕ
unfolding accept_loop
accept set_nodelay answers = accept_loop set_nodelay 1 answers

-- the number of errors before the stream, and the stream
abbrev pub error_count : {S : Type 0} → Accepts S → ℕ
error_count (accepted s) = 0
error_count (failed rest) = suc (error_count rest)

abbrev pub stream : {S : Type 0} → Accepts S → S
stream (accepted s) = s
stream (failed rest) = stream rest

pow_pos : (i : ℕ) → 1 ≤ 2 ^ i
pow_pos zero = omega arith
pow_pos (suc i) = omega (arith, pow_pos i, pow-suc 2 i)

-- doubling under the ceiling
min_double : (b p : ℕ) → 1 ≤ p → min (min (b * 2) 256 * p) 256 ≡ min (b * (2 * p)) 256
min_double b p h = elim (Bool-cases (leb (b * 2) 256)) [
  | inl small ↦ let m : min (b * 2) 256 ≡ b * 2 = ground arith in rw m (omega arith)
  | inr large ↦
      let m : min (b * 2) 256 ≡ 256 = ground arith in
      let big : 128 ≤ b = ground arith in
      let k : 128 * p ≤ b * p = grind arith in rw m (omega arith)
]

accept_loop-get_elem? :
    {S : Type 0} (set_nodelay : S → S) (b : ℕ) (a : Accepts S) (i : ℕ)
    → b ≤ 256
    → i < error_count a
    → get_elem? (accept_loop set_nodelay b a).1 i ≡ some (min (b * 2 ^ i) 256)
unfolding accept_loop
accept_loop-get_elem? set_nodelay b (accepted s) i hb h = absurd (omega arith)
accept_loop-get_elem? set_nodelay b (failed a) zero hb h = ap some (omega arith)
accept_loop-get_elem? set_nodelay b (failed a) (suc i) hb h =
    accept_loop-get_elem? set_nodelay (min (b * 2) 256) a i (omega arith) (omega arith)
    ∙ ap some (
        min_double b (2 ^ i) (pow_pos i)
        ∙ ap (λ (t : ℕ). min (b * t) 256) (omega (arith, pow-suc 2 i)))

accept_loop-stream :
    {S : Type 0} (set_nodelay : S → S) (b : ℕ) (a : Accepts S)
    → ((accept_loop set_nodelay b a).0 ≡ set_nodelay (stream a))
      × (length (accept_loop set_nodelay b a).1 ≡ error_count a)
unfolding accept_loop
accept_loop-stream set_nodelay b (accepted s) = (refl, refl)
accept_loop-stream set_nodelay b (failed a) =
    let (s, n) = accept_loop-stream set_nodelay (min (b * 2) 256) a in (s, ap suc n)

-- `accept` never gives up on errors: it returns the first stream, with its option set, after
-- exactly one sleep for each error. The sleep after error number i (from 0) lasts 2 ^ i
-- milliseconds, and 256 where that is more.
pub accept-backoff :
    {S : Type 0} (set_nodelay : S → S) (a : Accepts S)
    → ((accept set_nodelay a).0 ≡ set_nodelay (stream a))
      × (length (accept set_nodelay a).1 ≡ error_count a)
      × ((i : ℕ)
          → i < error_count a
          → get_elem? (accept set_nodelay a).1 i ≡ some (min (2 ^ i) 256))
unfolding accept
accept-backoff set_nodelay a =
    let (s, n) = accept_loop-stream set_nodelay 1 a in
    (
      s,
      n,
      λ i h.
          accept_loop-get_elem? set_nodelay 1 a i (omega arith) h
          ∙ ap (λ (t : ℕ). some (min t 256)) (omega arith),
    )
