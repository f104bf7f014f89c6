-- ===== src/Store/Compiled/Truncation.antt =====
-- A compiled file that was cut short is refused.
use justkv.Common.{
  ℕ, zero, suc, ◌+◌, ◌*◌, ◌-◌, ◌≤◌, ◌<◌, ◌≡◌, refl, ap, inl, inr, false, List, [], ◌∷◌, Bytes, ok,
  err, to_le_bytes, slice_within, length, length-take, take, drop, arith, u32_mod, u64_mod, ltb,
  leb, Bool-cases, lt→ltb, le→leb,
}
use justkv.Store.{Entry}
use justkv.Store.Compiled.{
  CompiledError, truncated, is_compiled, write_compiled, u32_at, checked_add, checked_mul,
  read_body, read_compiled,
}
use justkv.Store.Compiled.Frame.{flags_at, count_at, arena_len_at}
use justkv.Store.Compiled.RoundTrip.{
  length-write_compiled, is_compiled-write_compiled, write_compiled-framed,
}

module _ {ℓ} {A : Type ℓ} where
  take-take : (k n : ℕ) (xs : List A) → k ≤ n → take k (take n xs) ≡ take k xs
  take-take zero n xs h = refl
  take-take (suc k) zero xs h = absurd (omega arith)
  take-take (suc k) (suc n) [] h = refl
  take-take (suc k) (suc n) (x ∷ xs) h = ap (λ r. x ∷ r) (take-take k n xs (omega arith))

  -- a window inside the part that was kept
  take-drop-take :
      (a k n : ℕ) (xs : List A) → a + k ≤ n → take k (drop a (take n xs)) ≡ take k (drop a xs)
  take-drop-take zero k n xs h = take-take k n xs (omega arith)
  take-drop-take (suc a) k zero xs h = absurd (omega arith)
  take-drop-take (suc a) k (suc n) [] h = refl
  take-drop-take (suc a) k (suc n) (x ∷ xs) h = take-drop-take a k n xs (omega arith)

module _ (file : Bytes) (n : ℕ) (short : n ≤ length file) where
  u32_at-take : (o : ℕ) → o + 4 ≤ n → u32_at {E = CompiledError} (take n file) o ≡ u32_at file o
  unfolding u32_at
  u32_at-take o h = rw (
    slice_within {E = CompiledError} (take n file) o (o + 4) (omega arith)
        (omega (arith, length-take n file short)),
    slice_within {E = CompiledError} file o (o + 4) (omega arith) (omega arith),
    take-drop-take o (o + 4 - o) n file (omega arith),
  )

  pub is_compiled-take : 8 ≤ n → is_compiled (take n file) ≡ is_compiled file
  unfolding is_compiled
  is_compiled-take h = rw (
    le→leb 8 (length (take n file)) (omega (arith, length-take n file short)),
    le→leb 8 (length file) (omega arith),
    take-take 8 n file h,
  )

  pub not_compiled-take : n < 8 → is_compiled (take n file) ≡ false
  unfolding is_compiled
  not_compiled-take h =
      let e : leb 8 (length (take n file)) ≡ false = ground (arith, length-take n file short) in
      rw e

module _ (arena : Bytes) (es : List Entry) (flags n : ℕ) (small : length arena < u32_mod)
    (few : length es < u32_mod) (fits : flags < u32_mod)
    (cut : n < length (write_compiled arena es flags)) where
  read_body-take : 24 ≤ n → read_body (take n (write_compiled arena es flags)) ≡ err truncated
  unfolding read_body checked_add checked_mul
  read_body-take h =
      let file = write_compiled arena es flags in
      let size = length-write_compiled arena es flags in
      let whole = write_compiled-framed arena es flags in
      let at_flags : u32_at {E = CompiledError} file 8 ≡ ok flags =
        rw whole (flags_at (to_le_bytes 0) [] arena es flags fits) in
      let at_count : u32_at {E = CompiledError} file 12 ≡ ok (length es) =
        rw whole (count_at (to_le_bytes 0) [] arena es flags few) in
      let at_arena : u32_at {E = CompiledError} file 16 ≡ ok (length arena) =
        rw whole (arena_len_at (to_le_bytes 0) [] arena es flags small) in
      let missing : leb (24 + length es * 16 + length arena) (length (take n file)) ≡ false =
        ground (arith, size, length-take n file (omega arith)) in
      rw
        (
          u32_at-take file n (omega arith) 8 (omega arith),
          u32_at-take file n (omega arith) 12 (omega arith),
          u32_at-take file n (omega arith) 16 (omega arith),
          at_flags,
          at_count,
          at_arena,
        )
        (rw
          (
            lt→ltb (length es * 16) u64_mod (omega arith),
            lt→ltb (24 + length es * 16) u64_mod (omega arith),
            lt→ltb (24 + length es * 16 + length arena) u64_mod (omega arith),
          )
          (rw missing))

  -- `read_compiled` refuses every proper prefix of a file that `write_compiled` wrote as
  -- `Truncated`, wherever it was cut. The arena and the entries are fewer than 2 ^ 32, and the
  -- flags are a `u32`.
  pub read_compiled-take : read_compiled (take n (write_compiled arena es flags)) ≡ err truncated
  unfolding read_compiled
  read_compiled-take =
      let file = write_compiled arena es flags in
      let size = length-take n file (omega arith) in
      elim (Bool-cases (ltb n 8)) [
        | inl h ↦ rw (not_compiled-take file n (omega arith) (ground arith), size) (rw h)
        | inr h ↦
            rw
              (
                is_compiled-take file n (omega arith) (ground arith),
                is_compiled-write_compiled arena es flags,
              )
              (elim (Bool-cases (ltb n 24)) [
                | inl k ↦ rw size (rw k)
                | inr k ↦ rw size (rw k (read_body-take (ground arith)))
              ])
      ]
