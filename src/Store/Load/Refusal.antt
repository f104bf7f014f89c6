-- ===== src/Store/Load/Refusal.antt =====
-- How `load` of a readable file fails: never as an I/O error.
use justkv.Common.{
  ◌≡◌, inl, inr, Bool-cases, ℕ, Bytes, Bool, Result, ok, err, panic, ◌>>=◌, Safe, IsByte, All,
}
use justkv.HashTable.{HashTable}
use justkv.Store.Lookup.{from_parts-Stores}
use justkv.Store.Compiled.{is_compiled}
use justkv.Store.Compiled.Safety.{Loadable, read_compiled-Safe}
use justkv.Store.CsvLoader.{LoadOptions, Reads}
use justkv.Store.Load.{LoadFailure, io, bad_file, bad_data, map_err, load_parts, load}
use justkv.Store.Load.Agree.{IsDataset}
use justkv.Store.Load.Total.{AreParts, All-first, parse_csv-Safe, IsServable}

-- no panic, and what it returns and how it fails
abbrev pub Returns {ℓ κ} :
    {E : Type κ} {A : Type ℓ} → (A → Type 0) → (E → Type 0) → Result E A → Type 0
Returns P Q (ok a) = P a
Returns P Q (err e) = Q e
Returns P Q panic = ⊥

Returns-bind {ℓ κ ι} :
    {E : Type κ} {A : Type ℓ} {B : Type ι} (P : A → Type 0) (R : B → Type 0) (Q : E → Type 0)
    (m : Result E A) (f : A → Result E B)
    → Returns P Q m
    → ((a : A) → P a → Returns R Q (f a))
    → Returns R Q (m >>= f)
Returns-bind P R Q (ok a) f p k = k a p
Returns-bind P R Q (err e) f p k = p
Returns-bind P R Q panic f p k = absurd p

-- the data are to blame, not the file system
abbrev pub IsBad : LoadFailure → Type 0
IsBad (io e) = ⊥
IsBad (bad_data es) = Unit
IsBad (bad_file e) = Unit

map_err-Returns {κ} :
    {E : Type κ} {A : Type 0} (P : A → Type 0) (f : E → LoadFailure) (r : Result E A)
    → ((e : E) → IsBad (f e))
    → Safe P r
    → Returns P IsBad (map_err f r)
map_err-Returns P f (ok a) bad h = h
map_err-Returns P f (err e) bad h = bad e
map_err-Returns P f panic bad h = absurd h

module _ (h : HashTable) (csv_hash store_hash : Bytes → ℕ) (utf8 : Bytes → Bool)
    (lossy : Bytes → Bytes) (read_records : ℕ → Bool → Bytes → Reads)
    (read_file : Bytes → Result Bytes Bytes) (opts : LoadOptions) where
  load_parts-Returns :
      (file : Bytes)
      → All IsByte file
      → Returns AreParts IsBad
          (load_parts h csv_hash store_hash utf8 lossy read_records read_file opts file)
  unfolding load_parts
  load_parts-Returns file bytes = elim (Bool-cases (is_compiled file)) [
    | inl ours ↦ rw ours (
        Returns-bind (Loadable file) AreParts IsBad _ _
          (map_err-Returns (Loadable file) bad_file _ (λ e. tt) (read_compiled-Safe file bytes))
          λ p good. (good.small, All-first _ _ good.good))
    | inr text ↦ rw text (
        Returns-bind (λ p. IsDataset p.0 p.1) AreParts IsBad _ _
          (map_err-Returns (λ p. IsDataset p.0 p.1) bad_data _ (λ e. tt)
            (parse_csv-Safe h csv_hash store_hash utf8 lossy read_records read_file opts file))
          λ p good. (good.small, good.within))
  ]

  -- a file that can be read is loaded, or its data are refused
  pub load-Returns :
      (path file : Bytes)
      → read_file path ≡ ok file
      → All IsByte file
      → Returns
          (IsServable h csv_hash store_hash utf8 lossy read_records read_file opts)
          IsBad
          (load h csv_hash store_hash utf8 lossy read_records read_file path opts)
  unfolding load
  load-Returns path file here bytes = rw here (
      Returns-bind AreParts
        (IsServable h csv_hash store_hash utf8 lossy read_records read_file opts) IsBad _ _
        (load_parts-Returns file bytes)
        λ p good.
          let (s, built, same, stores) =
            from_parts-Stores {E = LoadFailure} h store_hash p.0 p.1 good.0 good.1 in
          rw built (p.1, rw same stores))
