-- ===== src/Store/Windows.antt =====
-- src/store/mod.rs, `Entry`: the bytes of the arena that an entry means, where they lie in it.
use justkv.Common.{
  ℕ, ◌+◌, ◌-◌, ◌%◌, ◌≤◌, ◌<◌, ◌≡◌, refl, ap, inl, inr, List, [], ◌∷◌, Bytes, ok, slice, bytes_eq,
  u32_mod, length, take, drop, le→leb, arith,
}
use justkv.Common.Assoc.{In}
use justkv.Store.{Entry, key, value, key_is, rehash}

-- both windows of an entry lie in an arena of `n` bytes
pub record InArena (n : ℕ) (e : Entry) : Type 0 where
  pub key_in : e.k_off + e.k_len ≤ n
  pub value_in : e.v_off + e.v_len ≤ n

abbrev pub window : Bytes → ℕ → ℕ → Bytes
window arena off n = take n (drop off arena)

-- the key/value pairs that the entries spell
abbrev pub pairs : Bytes → List Entry → List (Bytes × Bytes)
pairs arena [] = []
pairs arena (e ∷ es) = (window arena e.k_off e.k_len, window arena e.v_off e.v_len) ∷ pairs arena es

slice-window {ℓ} :
    {E : Type ℓ} (arena : Bytes) (off n : ℕ)
    → off + n ≤ length arena
    → length arena < u32_mod
    → slice {E = E} arena off ((off + n) % u32_mod) ≡ ok (window arena off n)
unfolding slice
slice-window arena off n h small =
    let w : (off + n) % u32_mod ≡ off + n = omega arith in
    let m : off + n - off ≡ n = omega arith in
    rw (w, m, le→leb off (off + n) (omega arith), le→leb (off + n) (length arena) h) refl

module _ (arena : Bytes) (small : length arena < u32_mod) where
  pub key-window {ℓ} :
      {E : Type ℓ} (e : Entry)
      → InArena (length arena) e
      → key {E = E} e arena ≡ ok (window arena e.k_off e.k_len)
  unfolding key
  key-window e h = slice-window arena e.k_off e.k_len h.key_in small

  pub value-window {ℓ} :
      {E : Type ℓ} (e : Entry)
      → InArena (length arena) e
      → value {E = E} e arena ≡ ok (window arena e.v_off e.v_len)
  unfolding value
  value-window e h = slice-window arena e.v_off e.v_len h.value_in small

  pub key_is-window :
      (e : Entry) (q : Bytes)
      → InArena (length arena) e
      → key_is arena q e ≡ bytes_eq (window arena e.k_off e.k_len) q
  unfolding key_is
  key_is-window e q h = rw (key-window e h)

  pub rehash-window :
      (hash : Bytes → ℕ) (e : Entry)
      → InArena (length arena) e
      → rehash hash arena e ≡ hash (window arena e.k_off e.k_len)
  unfolding rehash
  rehash-window hash e h = rw (key-window e h)

  pub In-pairs :
      (es : List Entry) (e : Entry)
      → In e es
      → In (window arena e.k_off e.k_len, window arena e.v_off e.v_len) (pairs arena es)
  In-pairs [] e h = absurd h
  In-pairs (x ∷ es) e (inl p) =
      inl (ap (λ (y : Entry). (window arena y.k_off y.k_len, window arena y.v_off y.v_len)) p)
  In-pairs (x ∷ es) e (inr h) = inr (In-pairs es e h)

  pub pairs-In :
      (es : List Entry) (k v : Bytes)
      → In (k, v) (pairs arena es)
      → (e : Entry) × In e es × (k ≡ window arena e.k_off e.k_len)
  pairs-In [] k v h = absurd h
  pairs-In (x ∷ es) k v (inl p) = (x, inl refl, ap (λ (y : Bytes × Bytes). y.0) p)
  pairs-In (x ∷ es) k v (inr h) = let (e, m, p) = pairs-In es k v h in (e, inr m, p)
