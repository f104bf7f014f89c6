-- ===== src/Store/Lookup.antt =====
-- src/store/mod.rs, `from_parts` and `get`: building a store never panics on entries that lie in
-- the arena, and its lookups are those of the association list that the entries spell.
use justkv.Common.{
  ℕ, ◌<◌, ◌≡◌, refl, sym, ap, ◌∙◌, inl, inr, ◌⊎◌, true, false, none, some, List, [], ◌∷◌, Bytes, ok,
  bytes_eq, bytes_eq_sound, u32_mod, length, All, Option-cases, Bool-cases, arith, suc,
}
use justkv.Common.Assoc.{
  In, In-get_elem?, In-index, In-All, push_all, length-push_all, push_all-In, In-push_all, lookup,
  Distinct, lookup-In, lookup-eq-none,
}
use justkv.HashTable.{HashTable}
use justkv.Store.{Entry, key_is, rehash, Store, insert_all, from_parts, get, len}
use justkv.Store.Windows.{
  InArena, window, pairs, key-window, value-window, key_is-window, rehash-window, In-pairs,
  pairs-In,
}

module _ (arena : Bytes) (small : length arena < u32_mod) where
  module _ (h : HashTable) (hash : Bytes → ℕ) where
    open h use {Table, new, insert_unique, find, Holds}

    insert_all-Holds {ℓ} :
        {E : Type ℓ} (es acc : List Entry) (t : Table Entry)
        → All (InArena (length arena)) es
        → Holds (rehash hash arena) t acc
        → (u : Table Entry) × (insert_all h {E = E} hash arena es t ≡ ok u)
          × Holds (rehash hash arena) u (push_all acc es)
    unfolding insert_all
    insert_all-Holds {E} [] acc t fits holds = (t, refl, holds)
    insert_all-Holds {E} (e ∷ es) acc t (fit, fits) holds =
        let (u, run, done) =
          insert_all-Holds {E = E} es (e ∷ acc)
            (insert_unique (hash (window arena e.k_off e.k_len)) e (rehash hash arena) t) fits
            (h.insert_unique_holds _ t acc _ e holds
              (sym (rehash-window arena small hash e fit))) in
        (u, rw (key-window arena small e fit) run, done)

    module _ (es : List Entry) (fits : All (InArena (length arena)) es) (t : Table Entry)
        (q : Bytes) (holds : Holds (rehash hash arena) t (push_all [] es)) where
      missed_key :
          find (hash q) (key_is arena q) t ≡ none
          → (e : Entry) → In e es
          → bytes_eq (window arena e.k_off e.k_len) q ≡ false
      missed_key missed e m =
          let fit = In-All (InArena (length arena)) es e fits m in
          let (i, at) = In-index (push_all [] es) e (In-push_all [] es e (inr m)) in
          elim (Bool-cases (bytes_eq (window arena e.k_off e.k_len) q)) [
            | inr differs ↦ differs
            | inl same ↦
                sym (key_is-window arena small e q fit)
                ∙ h.find_none (rehash hash arena) t _ (hash q) (key_is arena q) holds missed i e at
                    (rehash-window arena small hash e fit ∙ ap hash (bytes_eq_sound _ _ same))
          ]

      found_entry :
          (e : Entry)
          → find (hash q) (key_is arena q) t ≡ some e
          → In e es × (key_is arena q e ≡ true)
      found_entry e found =
          let (test, i, at) =
            h.find_some (rehash hash arena) t _ (hash q) (key_is arena q) e holds found in
          elim (push_all-In [] es e (In-get_elem? (push_all [] es) i e at)) [
            | inl none_yet ↦ absurd none_yet
            | inr m ↦ (m, test)
          ]

      get-lookup {ℓ} :
          {E : Type ℓ}
          → Distinct (pairs arena es)
          → get h {E = E} (record { arena = arena; table = t; hasher = hash }) q
            ≡ ok (lookup q (pairs arena es))
      unfolding get
      get-lookup {E} distinct = elim (Option-cases (find (hash q) (key_is arena q) t)) [
        | inl missed ↦
            rw (missed, get)
              (ap ok (
                sym (
                  lookup-eq-none (pairs arena es) q λ k v m.
                    let (e, here, p) = pairs-In arena small es k v m in
                    ap (λ w. bytes_eq w q) p ∙ missed_key missed e here)))
        | inr (e, found) ↦
            let (m, test) = found_entry e found in
            let fit = In-All (InArena (length arena)) es e fits m in
            let same : window arena e.k_off e.k_len ≡ q =
              bytes_eq_sound _ _ (sym (key_is-window arena small e q fit) ∙ test) in
            rw (found, get)
              (rw (value-window arena small {E = E} e fit) (
                ap ok (
                  sym (
                    ap (λ w. lookup w (pairs arena es)) (sym same)
                    ∙ lookup-In (pairs arena es) _ _ distinct (In-pairs arena small es e m)))))
      ]

      -- without distinct keys too: no panic, no invented value, no missed key
      get-pair :
          ((get h {E = Unit {0}} (record { arena = arena; table = t; hasher = hash }) q ≡ ok none)
            × (lookup q (pairs arena es) ≡ none))
          ⊎ ((v : Bytes) × (get h {E = Unit {0}}
                  (record { arena = arena; table = t; hasher = hash })
                  q
                ≡ ok (some v))
              × In (q, v) (pairs arena es))
      unfolding get
      get-pair = elim (Option-cases (find (hash q) (key_is arena q) t)) [
        | inl missed ↦ inl (
          rw (missed, get),
          lookup-eq-none (pairs arena es) q λ k v m.
              let (e, here, p) = pairs-In arena small es k v m in
              ap (λ w. bytes_eq w q) p ∙ missed_key missed e here,
        )
        | inr (e, found) ↦
            let (m, test) = found_entry e found in
            let fit = In-All (InArena (length arena)) es e fits m in
            let same : window arena e.k_off e.k_len ≡ q =
              bytes_eq_sound _ _ (sym (key_is-window arena small e q fit) ∙ test) in
            inr (
              window arena e.v_off e.v_len,
              rw (found, get) (rw (value-window arena small {E = Unit {0}} e fit)),
              rw (← same) (In-pairs arena small es e m),
            )
      ]

-- `s` answers every lookup as the association list `l` does, and counts its pairs.
pub record Serves (h : HashTable) (l : List (Bytes × Bytes)) (s : Store h) : Type 0 where
  pub counts : len h s ≡ length l
  pub answers : (q : Bytes) → get h {E = Unit {0}} s q ≡ ok (lookup q l)

pub length-pairs : (arena : Bytes) (es : List Entry) → length (pairs arena es) ≡ length es
length-pairs arena [] = refl
length-pairs arena (e ∷ es) = ap suc (length-pairs arena es)

-- For every hash function: from entries that lie in an arena below 4 GiB and have distinct keys,
-- `from_parts` builds a store over that arena without a panic, `len` is the number of entries, and
-- `get` answers every key, present or absent, as the list of pairs does and never panics.
pub from_parts-Serves {ℓ} :
    {E : Type ℓ} (h : HashTable) (hash : Bytes → ℕ) (arena : Bytes) (es : List Entry)
    → length arena < u32_mod
    → All (InArena (length arena)) es
    → Distinct (pairs arena es)
    → (s : Store h) × (from_parts h {E = E} hash arena es ≡ ok s)
      × (s.arena ≡ arena)
      × Serves h (pairs arena es) s
unfolding from_parts len
from_parts-Serves {E} h hash arena es small fits distinct =
    let (t, run, holds) =
      insert_all-Holds arena small h hash {E = E} es [] h.new fits
        (h.new_holds (rehash hash arena)) in
    (
      record { arena = arena; table = t; hasher = hash },
      rw run,
      refl,
      record {
        counts =
            h.len_holds (rehash hash arena) t _ holds
            ∙ omega (arith, length-push_all [] es, length-pairs arena es);
        answers = λ q. get-lookup arena small h hash es fits t q holds distinct;
      },
    )

-- `s` never panics on a lookup: it returns a value only if some pair of `l` gives it to the key,
-- and none only if no pair of `l` has the key.
pub record Stores (h : HashTable) (l : List (Bytes × Bytes)) (s : Store h) : Type 0 where
  pub counts : len h s ≡ length l
  pub answers :
      (q : Bytes)
      → ((get h {E = Unit {0}} s q ≡ ok none) × (lookup q l ≡ none))
        ⊎ ((v : Bytes) × (get h {E = Unit {0}} s q ≡ ok (some v)) × In (q, v) l)

-- For every hash function: from entries that lie in an arena below 4 GiB, keys repeated or not,
-- `from_parts` builds a store without a panic, and every lookup in it finds a pair with its key if
-- there is one and none if there is none.
pub from_parts-Stores {ℓ} :
    {E : Type ℓ} (h : HashTable) (hash : Bytes → ℕ) (arena : Bytes) (es : List Entry)
    → length arena < u32_mod
    → All (InArena (length arena)) es
    → (s : Store h) × (from_parts h {E = E} hash arena es ≡ ok s)
      × (s.arena ≡ arena)
      × Stores h (pairs arena es) s
unfolding from_parts len
from_parts-Stores {E} h hash arena es small fits =
    let (t, run, holds) =
      insert_all-Holds arena small h hash {E = E} es [] h.new fits
        (h.new_holds (rehash hash arena)) in
    (
      record { arena = arena; table = t; hasher = hash },
      rw run,
      refl,
      record {
        counts =
            h.len_holds (rehash hash arena) t _ holds
            ∙ omega (arith, length-push_all [] es, length-pairs arena es);
        answers = λ q. get-pair arena small h hash es fits t q holds;
      },
    )
