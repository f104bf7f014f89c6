-- ===== src/Store/Load.antt =====
-- src/store/mod.rs, `load`: one of the two loaders by the magic bytes, then one `from_parts`.
pub mod Agree
pub mod Total
pub mod Display
pub mod Cut
pub mod Refusal
use justkv.Common.{ℕ, Bool, List, [], ◌∷◌, Bytes, Result, ok, err, panic, ◌>>=◌, if◌then◌else◌}
use justkv.HashTable.{HashTable}
use justkv.Store.{Entry, Store, from_parts}
use justkv.Store.Compiled.{CompiledError, is_compiled, read_compiled, flag_binary}
use justkv.Store.CsvLoader.{LoadOptions, DataError, Reads, parse_csv}

pub data SourceFormat : Type 0 where
  csv compiled : SourceFormat

-- b"csv" and b"compiled"
unfoldable pub as_str : SourceFormat → Bytes
as_str csv = b'c' ∷ b's' ∷ b'v' ∷ []
as_str compiled = b'c' ∷ b'o' ∷ b'm' ∷ b'p' ∷ b'i' ∷ b'l' ∷ b'e' ∷ b'd' ∷ []

-- The time that loading took is not modelled.
pub record Loaded (h : HashTable) : Type 0 where
  pub store : Store h
  pub format : SourceFormat
  pub flags : ℕ
  pub source : Bytes

-- An I/O error is its message.
pub data LoadFailure : Type 0 where
  io : Bytes → LoadFailure
  bad_data : List DataError → LoadFailure
  bad_file : CompiledError → LoadFailure

abbrev pub map_err {ℓ κ ι} :
    {E : Type κ} {F : Type ι} {A : Type ℓ} → (E → F) → Result E A → Result F A
map_err f (ok a) = ok a
map_err f (err e) = err (f e)
map_err f panic = panic

-- the parts of a dataset, its format and its flags
abbrev pub Parts : Type 0
Parts = Bytes × List Entry × SourceFormat × ℕ

unfoldable pub binary_flag : Bool → ℕ
binary_flag b = if b then flag_binary else 0

-- `csv_hash` and `store_hash` are the two random states; `read_file` is `std::fs::read`.
module _ (h : HashTable) (csv_hash store_hash : Bytes → ℕ) (utf8 : Bytes → Bool)
    (lossy : Bytes → Bytes) (read_records : ℕ → Bool → Bytes → Reads)
    (read_file : Bytes → Result Bytes Bytes) where
  unfoldable pub load_parts : LoadOptions → Bytes → Result LoadFailure Parts
  load_parts opts file =
      if is_compiled file
      then (do (a, e, f) ← map_err bad_file (read_compiled file); ok (a, e, compiled, f))
      else do
        (a, e) ← map_err bad_data (parse_csv h csv_hash utf8 lossy opts read_records file)
        ok (a, e, csv, binary_flag opts.allow_binary)

  unfoldable pub load : Bytes → LoadOptions → Result LoadFailure (Loaded h)
  unfolding load_parts
  load path opts = do
    file ← map_err io (read_file path)
    (arena, entries, format, flags) ← load_parts opts file
    store ← from_parts h store_hash arena entries
    ok (record { store = store; format = format; flags = flags; source = path })
