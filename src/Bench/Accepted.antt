-- ===== src/Bench/Accepted.antt =====
-- What bench/gen.rs writes is a dataset that `check` accepts.
use justkv.Common.{
  ℕ, zero, suc, ◌+◌, ◌≤◌, ◌<◌, ◌≡◌, ◌≢◌, refl, ap, sym, ◌∙◌, Bool, true, false, Option, none, some,
  List, [], ◌∷◌, ◌++◌, append_assoc, Bytes, codes, bytes_eq, append-nil, not, ◌&&◌, bytes_eq_sound,
  Bool-cases, inl, inr, length, length-append, All, All-append, All-map, arith, u32_max, ltb,
  le→ltb_false,
}
use justkv.Common.Writing.{Writing, append_cancel}
use justkv.Store.CsvLoader.{LoadOptions, Reads, eof, row}
use justkv.Store.CsvLoader.Spec.{
  Kept, first_line, size, row_problems, overflows, keep, problems, kept_rows,
}
use justkv.Store.CsvLoader.Layout.{dataset}
use justkv.Bench.{row_key, row_value, next_seed, rows_from}

-- ASCII with no tab, newline, carriage return or quote: a field that is written as it is
abbrev pub IsPlain : Bytes → Type 0
IsPlain b = All (λ c. (c ≢ 9) × (c ≢ 10) × (c ≢ 13) × (c ≢ 34) × (c < 128)) b

abbrev pub ArePlain : List (Bytes × Bytes) → Type 0
ArePlain l = All (λ (p : Bytes × Bytes). (0 < length p.0) × IsPlain p.0 × IsPlain p.1) l

-- a line for each pair
abbrev pub tsv : List (Bytes × Bytes) → Bytes
tsv [] = []
tsv ((k, v) ∷ l) = k ++ 9 ∷ (v ++ 10 ∷ tsv l)

-- the record of each line
abbrev pub records : ℕ → List (Bytes × Bytes) → Reads
records line [] = eof
records line ((k, v) ∷ l) =
    row (record { fields = k ∷ v ∷ []; position = some line }) (records (suc line) l)

-- What the `csv` crate documents of lines without quotes: each is a record of the fields between
-- the delimiters.
abbrev pub ReadsPlain : (ℕ → Bool → Bytes → Reads) → Type 0
ReadsPlain read_records =
    (l : List (Bytes × Bytes)) → ArePlain l → read_records 9 false (tsv l) ≡ records 1 l

-- a text of ASCII is UTF-8
abbrev pub TakesAscii : (Bytes → Bool) → Type 0
TakesAscii utf8 = (b : Bytes) → All (λ c. c < 128) b → utf8 b ≡ true

module _ (show hex : ℕ → Bytes) where
  abbrev pub pairs_from : ℕ → ℕ → ℕ → List (Bytes × Bytes)
  pairs_from zero i seed = []
  pairs_from (suc left) i seed =
      (row_key show hex i, row_value show hex i (next_seed seed))
      ∷ pairs_from left (suc i) (next_seed seed)

  pub rows_from-tsv :
      (left i seed : ℕ) → rows_from show hex left i seed ≡ tsv (pairs_from left i seed)
  unfolding rows_from
  rows_from-tsv zero i seed = refl
  rows_from-tsv (suc left) i seed =
      ap (λ rest. row_key show hex i ++ 9 ∷ (row_value show hex i (next_seed seed) ++ 10 ∷ rest))
        (rows_from-tsv left (suc i) (next_seed seed))

length-tsv :
    (k v : Bytes) (l : List (Bytes × Bytes))
    → length (tsv ((k, v) ∷ l)) ≡ length k + length v + 2 + length (tsv l)
length-tsv k v l =
    omega (arith, length-append k (9 ∷ (v ++ 10 ∷ tsv l)), length-append v (10 ∷ tsv l))

size-snoc :
    (kept : List Kept) (x : Kept)
    → size (kept ++ x ∷ []) ≡ size kept + length x.key + length x.value
size-snoc [] x = omega arith
size-snoc (y ∷ kept) x = omega (arith, size-snoc kept x)

dataset-snoc :
    (kept : List Kept) (x : Kept) → dataset (kept ++ x ∷ []) ≡ dataset kept ++ (x.key, x.value) ∷ []
dataset-snoc [] x = refl
dataset-snoc (y ∷ kept) x = ap (λ l. (y.key, y.value) ∷ l) (dataset-snoc kept x)

module _ (fmt : Writing) (hex : ℕ → Bytes) (hex-IsPlain : (n : ℕ) → IsPlain (hex n)) where
  open fmt use {show, show-IsDigit, show-inj}

  show-IsPlain : (n : ℕ) → IsPlain (show n)
  show-IsPlain n = All-map (λ c d. omega arith) (show n) (show-IsDigit n)

  row_key-IsPlain : (i : ℕ) → IsPlain (row_key show hex i)
  row_key-IsPlain i = All-append _ (codes "key") (show i) (omega arith) (show-IsPlain i)

  row_value-IsPlain : (i seed : ℕ) → IsPlain (row_value show hex i seed)
  row_value-IsPlain i seed = All-append _ (codes "value-") _ (omega arith) (
      All-append _ (show i) _ (show-IsPlain i)
        (All-append _ (codes "-") (hex seed) (omega arith) (hex-IsPlain seed)))

  pub pairs_from-ArePlain : (left i seed : ℕ) → ArePlain (pairs_from show hex left i seed)
  pairs_from-ArePlain zero i seed = tt
  pairs_from-ArePlain (suc left) i seed = (
    (omega arith, row_key-IsPlain i, row_value-IsPlain i (next_seed seed)),
    pairs_from-ArePlain left (suc i) (next_seed seed),
  )

  -- the keys of earlier rows
  abbrev pub Older : ℕ → List Kept → Type 0
  Older i kept = All (λ (x : Kept). (j : ℕ) × (j < i) × (x.key ≡ row_key show hex j)) kept

  Older-suc : (i : ℕ) (kept : List Kept) → Older i kept → Older (suc i) kept
  Older-suc i kept h = All-map (λ x o. (o.0, omega (arith, o.1), o.2)) kept h

  first_line-Older :
      (i : ℕ) (kept : List Kept) → Older i kept → first_line (row_key show hex i) kept ≡ none
  first_line-Older i [] h = refl
  first_line-Older i (x ∷ kept) ((j, lt, is), h) =
      elim (Bool-cases (bytes_eq x.key (row_key show hex i))) [
        | inl eq ↦
            let same : row_key show hex j ≡ row_key show hex i =
              sym is ∙ bytes_eq_sound x.key (row_key show hex i) eq in
            let number = show-inj j i (append_cancel (codes "key") (show j) (show i) same) in
            absurd (omega (arith, number, lt))
        | inr ne ↦ rw ne (first_line-Older i kept h)
      ]

  module _ (utf8 : Bytes → Bool) (ascii : TakesAscii utf8) (lossy : Bytes → Bytes)
      (opts : LoadOptions) where
    and_false : (b : Bool) → (b && false) ≡ false
    and_false true = refl
    and_false false = refl

    pub rows_accepted :
        (left i seed line : ℕ) (kept : List Kept) (before : Option ℕ)
        → Older i kept
        → size kept + length (tsv (pairs_from show hex left i seed)) ≤ u32_max
        → (problems utf8 lossy opts kept before (records line (pairs_from show hex left i seed))
            ≡ [])
          × (dataset (kept_rows kept before (records line (pairs_from show hex left i seed)))
              ≡ dataset kept ++ pairs_from show hex left i seed)
    unfolding problems kept_rows row_problems overflows keep
    rows_accepted zero i seed line kept before older small = (refl, sym (append-nil (dataset kept)))
    rows_accepted (suc left) i seed line kept before older small =
        let k = row_key show hex i in
        let v = row_value show hex i (next_seed seed) in
        let x : Kept = record { key = k; value = v; line = line } in
        let rest = pairs_from show hex left (suc i) (next_seed seed) in
        let absent = first_line-Older i kept older in
        let valid : utf8 v ≡ true =
          ascii v (All-map (λ c p. p.4) v (row_value-IsPlain i (next_seed seed))) in
        let fits : ltb u32_max (size kept + length k + length v) ≡ false =
          le→ltb_false u32_max (size kept + length k + length v)
            (omega (arith, small, length-tsv k v rest)) in
        let (none_wrong, all_kept) =
          rows_accepted left (suc i) (next_seed seed) (suc line) (kept ++ x ∷ []) (some line)
            (All-append _ kept (x ∷ []) (Older-suc i kept older) ((i, omega arith, refl), tt))
            (omega (arith, small, length-tsv k v rest, size-snoc kept x)) in
        let joined =
          ap (λ l. l ++ rest) (dataset-snoc kept x)
          ∙ append_assoc (dataset kept) ((k, v) ∷ []) rest in
        (
          rw absent (rw fits (rw valid (rw (and_false (not opts.allow_binary)) none_wrong))),
          rw absent (rw fits (all_kept ∙ joined)),
        )
