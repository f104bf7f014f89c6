-- ===== src/Store/CsvLoader/Index.antt =====
-- The hash table `seen` of `parse_csv`: it stores the indices of all entries, and `find` answers
-- with the first row that has the key.
use justkv.Common.{
  ℕ, zero, suc, ◌<◌, ◌≡◌, refl, sym, ap, ◌∙◌, inl, inr, Bool, false, Option, none, some, List, [],
  ◌∷◌, ◌++◌, Bytes, bytes_eq, bytes_eq_sound, length, get_elem?, get_elem?-lt,
  get_elem?-append_left, get_elem?-append_last, arith, u32_mod, ltb, Bool-cases, Option-cases,
}
use justkv.HashTable.{HashTable}
use justkv.Store.{key_is, rehash}
use justkv.Store.CsvLoader.{entry_is, entry_hash}
use justkv.Store.CsvLoader.Spec.{Kept, first_line, size}
use justkv.Store.CsvLoader.Layout.{pack, layout, size-append, layout-at}
use justkv.Store.CsvLoader.FirstLine.{DistinctRows, first_line-at, first_line-eq-none}

-- the indices below `n`, the last first
abbrev pub countdown : ℕ → List ℕ
countdown zero = []
countdown (suc n) = n ∷ countdown n

countdown-lt : (n j i : ℕ) → get_elem? (countdown n) j ≡ some i → i < n
countdown-lt zero j i at = absurd (cc)
countdown-lt (suc n) zero i at = let e : n ≡ i = cc in omega arith
countdown-lt (suc n) (suc j) i at = omega (arith, countdown-lt n j i at)

countdown_index : (n i : ℕ) → i < n → (j : ℕ) × (get_elem? (countdown n) j ≡ some i)
countdown_index zero i h = absurd (omega arith)
countdown_index (suc n) i h = elim (Bool-cases (ltb i n)) [
  | inl e ↦ let (j, at) = countdown_index n i (ground arith) in (suc j, at)
  | inr e ↦ let same : n ≡ i = ground arith in (0, ap some same)
]

row_exists : (kept : List Kept) (i : ℕ) → i < length kept → (x : Kept) × (get_elem? kept i ≡ some x)
row_exists [] i h = absurd (omega arith)
row_exists (x ∷ kept) zero h = (x, refl)
row_exists (x ∷ kept) (suc i) h = row_exists kept i (omega arith)

abbrev pub lines_of : List Kept → List ℕ
lines_of [] = []
lines_of (x ∷ kept) = x.line ∷ lines_of kept

lines_of-at :
    (kept : List Kept) (i : ℕ) (x : Kept)
    → get_elem? kept i ≡ some x
    → get_elem? (lines_of kept) i ≡ some x.line
lines_of-at [] i x at = absurd (cc)
lines_of-at (y ∷ kept) zero x at = let e : y ≡ x = cc in ap (λ (z : Kept). some z.line) e
lines_of-at (y ∷ kept) (suc i) x at = lines_of-at kept i x at

pub lines_of-append : (xs ys : List Kept) → lines_of (xs ++ ys) ≡ lines_of xs ++ lines_of ys
lines_of-append [] ys = refl
lines_of-append (x ∷ xs) ys = ap (λ r. x.line ∷ r) (lines_of-append xs ys)

-- the closures at the index of a row
module _ (kept : List Kept) (small : size kept < u32_mod) (i : ℕ) (x : Kept)
    (at : get_elem? kept i ≡ some x) where
  entry_is-at : (q : Bytes) → entry_is (layout 0 kept) (pack kept) q i ≡ bytes_eq x.key q
  unfolding entry_is key_is
  entry_is-at q =
      let (e, here, reads) = layout-at {E = Unit {0}} kept [] i x (omega arith) at in
      rw (here) (rw reads)

  entry_hash-at : (hash : Bytes → ℕ) → entry_hash hash (layout 0 kept) (pack kept) i ≡ hash x.key
  unfolding entry_hash rehash
  entry_hash-at hash =
      let (e, here, reads) = layout-at {E = Unit {0}} kept [] i x (omega arith) at in
      rw (here) (rw reads)

module _ (h : HashTable) (hash : Bytes → ℕ) where
  open h use {Table, new, insert_unique, find, Holds}

  -- what `seen.find` may answer
  abbrev pub Finds : List Kept → Bytes → Option ℕ → Type 0
  Finds kept q none = first_line q kept ≡ none
  Finds kept q (some i) =
      (l : ℕ) × (get_elem? (lines_of kept) i ≡ some l) × (first_line q kept ≡ some l)

  module _ (kept : List Kept) (q : Bytes) (t : Table ℕ) (small : size kept < u32_mod)
      (distinct : DistinctRows kept)
      (holds : Holds
        (entry_hash hash (layout 0 kept) (pack kept))
        t
        (countdown (length kept))) where
    abbrev test : ℕ → Bool
    test = entry_is (layout 0 kept) (pack kept) q

    missed_row :
        find (hash q) test t ≡ none
        → (i : ℕ) (x : Kept) → get_elem? kept i ≡ some x
        → bytes_eq x.key q ≡ false
    missed_row missed i x at =
        let (j, here) = countdown_index (length kept) i (get_elem?-lt kept i x at) in
        elim (Bool-cases (bytes_eq x.key q)) [
          | inr differs ↦ differs
          | inl same ↦
              sym (entry_is-at kept small i x at q)
              ∙ h.find_none _ t _ (hash q) test holds missed j i here
                  (entry_hash-at kept small i x at hash ∙ ap hash (bytes_eq_sound x.key q same))
        ]

    found_row : (i : ℕ) → find (hash q) test t ≡ some i → Finds kept q (some i)
    found_row i found =
        let (passes, j, here) = h.find_some _ t _ (hash q) test i holds found in
        let (x, at) = row_exists kept i (countdown-lt (length kept) j i here) in
        let same : x.key ≡ q =
          bytes_eq_sound x.key q (sym (entry_is-at kept small i x at q) ∙ passes) in
        (
          x.line,
          lines_of-at kept i x at,
          ap (λ k. first_line k kept) (sym same) ∙ first_line-at kept i x distinct at,
        )

    pub find-Finds : Finds kept q (find (hash q) test t)
    find-Finds = elim (Option-cases (find (hash q) test t)) [
      | inl missed ↦ rw missed (first_line-eq-none kept q (missed_row missed))
      | inr (i, found) ↦ rw found (found_row i found)
    ]

  -- one more row: its index is stored, and the hashes of the others do not change
  module _ (kept : List Kept) (x : Kept) (t : Table ℕ) (small : size (kept ++ x ∷ []) < u32_mod)
      (holds : Holds
        (entry_hash hash (layout 0 kept) (pack kept))
        t
        (countdown (length kept))) where
    abbrev more : List Kept
    more = kept ++ x ∷ []

    same_hash :
        (j i : ℕ)
        → get_elem? (countdown (length kept)) j ≡ some i
        → entry_hash hash (layout 0 kept) (pack kept) i
          ≡ entry_hash hash (layout 0 more) (pack more) i
    same_hash j i here =
        let below = countdown-lt (length kept) j i here in
        let (y, at) = row_exists kept i below in
        entry_hash-at kept (omega (arith, size-append kept (x ∷ []))) i y at hash
        ∙ sym (entry_hash-at more small i y (get_elem?-append_left kept (x ∷ []) i below ∙ at) hash)

    pub stored-append :
        Holds
          (entry_hash hash (layout 0 more) (pack more))
          (insert_unique (hash x.key) (length kept) (entry_hash hash (layout 0 more) (pack more)) t)
          (countdown (suc (length kept)))
    stored-append =
        h.insert_unique_holds _ t _ (hash x.key) (length kept)
          (h.holds_congr _ _ t _ holds same_hash)
          (sym (entry_hash-at more small (length kept) x (get_elem?-append_last kept x) hash))
