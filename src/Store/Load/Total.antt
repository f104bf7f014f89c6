-- ===== src/Store/Load/Total.antt =====
-- Loading never panics, whatever bytes the file holds.
use justkv.Common.{
  ℕ, ◌<◌, ◌≡◌, inl, inr, Bool, Bool-cases, List, [], ◌∷◌, Bytes, Result, ok, err, panic, Safe,
  Safe-bind, IsByte, length, All, u32_mod,
}
use justkv.HashTable.{HashTable}
use justkv.Store.{Entry}
use justkv.Store.Lookup.{Stores, from_parts-Stores}
use justkv.Store.Windows.{InArena, pairs}
use justkv.Store.Compiled.{is_compiled}
use justkv.Store.Compiled.Safety.{IsGood, Loadable, read_compiled-Safe}
use justkv.Store.CsvLoader.{LoadOptions, DataError, Reads, parse_csv}
use justkv.Store.Load.{Loaded, LoadFailure, bad_file, bad_data, map_err, Parts, load_parts, load}
use justkv.Store.Load.Agree.{IsDataset, IsDataset-layout}
use justkv.Store.CsvLoader.Refinement.{Answer, parse_csv-Answer, kept_rows-DistinctRows}
use justkv.Store.CsvLoader.Spec.{Kept, size}
use justkv.Store.CsvLoader.FirstLine.{DistinctRows}

map_err-Safe {κ ι} :
    {E : Type κ} {F : Type ι} {A : Type 0} (P : A → Type 0) (f : E → F) (r : Result E A)
    → Safe P r
    → Safe P (map_err f r)
map_err-Safe P f (ok a) h = h
map_err-Safe P f (err e) h = tt
map_err-Safe P f panic h = absurd h

-- what both loaders ensure
abbrev pub AreParts : Parts → Type 0
AreParts p = (length p.0 < u32_mod) × All (InArena (length p.0)) p.1

pub All-first : (n : ℕ) (es : List Entry) → All (IsGood n) es → All (InArena n) es
All-first n [] h = tt
All-first n (e ∷ es) ((g, f), h) = (g, All-first n es h)

module _ (h : HashTable) (csv_hash store_hash : Bytes → ℕ) (utf8 : Bytes → Bool)
    (lossy : Bytes → Bytes) (read_records : ℕ → Bool → Bytes → Reads)
    (read_file : Bytes → Result Bytes Bytes) (opts : LoadOptions) where
  Answer-Safe :
      (kept : List Kept) (errs : List DataError)
      → DistinctRows kept
      → size kept < u32_mod
      → Safe (λ p. IsDataset p.0 p.1) (Answer h csv_hash utf8 lossy opts kept errs)
  Answer-Safe kept [] d small = IsDataset-layout kept d small
  Answer-Safe kept (e ∷ es) d small = tt

  pub parse_csv-Safe :
      (file : Bytes)
      → Safe (λ p. IsDataset p.0 p.1) (parse_csv h csv_hash utf8 lossy opts read_records file)
  parse_csv-Safe file =
      let reads = read_records opts.delimiter opts.has_header file in
      let (d, small) = kept_rows-DistinctRows h csv_hash utf8 lossy opts reads in
      rw (parse_csv-Answer h csv_hash utf8 lossy opts read_records file) (Answer-Safe _ _ d small)

  load_parts-Safe :
      (file : Bytes)
      → All IsByte file
      → Safe AreParts (load_parts h csv_hash store_hash utf8 lossy read_records read_file opts file)
  unfolding load_parts
  load_parts-Safe file bytes = elim (Bool-cases (is_compiled file)) [
    | inl ours ↦ rw ours (
        Safe-bind (Loadable file) AreParts _ _
          (map_err-Safe (Loadable file) bad_file _ (read_compiled-Safe file bytes))
          λ p good. (good.small, All-first _ _ good.good))
    | inr text ↦ rw text (
        Safe-bind (λ p. IsDataset p.0 p.1) AreParts _ _
          (map_err-Safe (λ p. IsDataset p.0 p.1) bad_data _ (parse_csv-Safe file))
          λ p good. (good.small, good.within))
  ]

  -- a loaded store answers as some list of pairs in its arena
  abbrev pub IsServable : Loaded h → Type 0
  IsServable l = (es : List Entry) × Stores h (pairs l.store.arena es) l.store

  -- Whatever bytes a readable file holds, in either format, `load` does not panic; the store of a
  -- successful load never panics on a lookup, and answers each as some list of pairs in its arena,
  -- with a value if the list has one for the key and none if it has none.
  pub load-Safe :
      (path file : Bytes)
      → read_file path ≡ ok file
      → All IsByte file
      → Safe IsServable (load h csv_hash store_hash utf8 lossy read_records read_file path opts)
  unfolding load
  load-Safe path file here bytes = rw here (
      Safe-bind AreParts IsServable _ _ (load_parts-Safe file bytes) λ p good.
        let (s, built, same, stores) =
          from_parts-Stores {E = LoadFailure} h store_hash p.0 p.1 good.0 good.1 in
        rw built (p.1, rw same stores))
