-- ===== src/Store.antt =====
-- src/store/mod.rs: entries as windows into an arena, the immutable store, and lookup.
pub mod Windows
pub mod Lookup
pub mod Compiled
pub mod CsvLoader
pub mod Load
use justkv.Common.{
  ℕ, zero, suc, ◌+◌, ◌%◌, Bool, true, false, Option, none, some, List, [], ◌∷◌, Bytes, Result, ok,
  err, panic, ◌>>=◌, slice, bytes_eq, u32_mod, length, ◌==◌,
}
use justkv.HashTable.{HashTable}

-- A key/value pair as two windows (offset, length) into the arena; the fields are `u32`s.
pub record Entry : Type 0 where
  pub k_off : ℕ
  pub k_len : ℕ
  pub v_off : ℕ
  pub v_len : ℕ

-- The sum is `u32` arithmetic, which wraps in a release build.
unfoldable pub key {ℓ} : {E : Type ℓ} → Entry → Bytes → Result E Bytes
key e arena = slice arena e.k_off ((e.k_off + e.k_len) % u32_mod)

unfoldable pub value {ℓ} : {E : Type ℓ} → Entry → Bytes → Result E Bytes
value e arena = slice arena e.v_off ((e.v_off + e.v_len) % u32_mod)

-- The closure `|e| e.key(&arena) == key`.
abbrev is_key : Result (Unit {0}) Bytes → Bytes → Bool
is_key (ok k) q = bytes_eq k q
is_key _ q = false

unfoldable pub key_is : Bytes → Bytes → Entry → Bool
key_is arena q e = is_key (key e arena) q

-- What `hash_key` gives for a stored entry. Its key was read when it was stored, so the other
-- cases do not arise.
abbrev key_hash : (Bytes → ℕ) → Result (Unit {0}) Bytes → ℕ
key_hash hash (ok k) = hash k
key_hash hash _ = 0

-- The closure `|other| hash_key(&hasher, other.key(&arena))`.
unfoldable pub rehash : (Bytes → ℕ) → Bytes → Entry → ℕ
rehash hash arena e = key_hash hash (key e arena)

-- `hasher` is the `RandomState` with `hash_key` applied: some function from bytes to a hash.
pub record Store (h : HashTable) : Type 0 where
  pub arena : Bytes
  pub table : h.Table Entry
  pub hasher : Bytes → ℕ

module _ (h : HashTable) where
  open h use {Table, new, insert_unique, find}

  unfoldable pub insert_all {ℓ} :
      {E : Type ℓ} → (Bytes → ℕ) → Bytes → List Entry → Table Entry → Result E (Table Entry)
  insert_all hash arena [] t = ok t
  insert_all hash arena (e ∷ es) t = do
    k ← key e arena
    insert_all hash arena es (insert_unique (hash k) e (rehash hash arena) t)

  -- `hash` is the fresh `RandomState`.
  unfoldable pub from_parts {ℓ} :
      {E : Type ℓ} → (Bytes → ℕ) → Bytes → List Entry → Result E (Store h)
  unfolding insert_all
  from_parts hash arena entries = do
    t ← insert_all hash arena entries new
    ok (record { arena = arena; table = t; hasher = hash })

  -- `Bytes::slice` panics where a slice index does.
  unfoldable pub get {ℓ} : {E : Type ℓ} → Store h → Bytes → Result E (Option Bytes)
  get s q = elim (find (s.hasher q) (key_is s.arena q) s.table) [
    | none ↦ ok none
    | some e ↦ do v ← value e s.arena; ok (some v)
  ]

  unfoldable pub len : Store h → ℕ
  len s = h.len s.table

  unfoldable pub is_empty : Store h → Bool
  is_empty s = h.len s.table == 0

  unfoldable pub arena_len : Store h → ℕ
  arena_len s = length s.arena
