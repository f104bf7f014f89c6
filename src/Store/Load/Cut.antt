-- ===== src/Store/Load/Cut.antt =====
-- `load` of a compiled file that was cut short.
use justkv.Common.{
  ℕ, ◌<◌, ◌≡◌, refl, inl, inr, Bool-cases, Bool, List, Bytes, Result, ok, err, panic, ◌>>=◌, length,
  take, ltb, if◌then◌else◌, arith, u32_mod,
}
use justkv.HashTable.{HashTable}
use justkv.Store.{Entry, from_parts}
use justkv.Store.Compiled.{truncated, write_compiled}
use justkv.Store.Compiled.RoundTrip.{is_compiled-write_compiled}
use justkv.Store.Compiled.Truncation.{is_compiled-take, not_compiled-take, read_compiled-take}
use justkv.Store.CsvLoader.{LoadOptions, DataError, Reads, parse_csv}
use justkv.Store.Load.{csv, Loaded, LoadFailure, bad_data, bad_file, map_err, binary_flag, load}

module _ (h : HashTable) (csv_hash store_hash : Bytes → ℕ) (utf8 : Bytes → Bool)
    (lossy : Bytes → Bytes) (read_records : ℕ → Bool → Bytes → Reads)
    (read_file : Bytes → Result Bytes Bytes) (opts : LoadOptions) (path : Bytes) where
  -- the file as CSV data
  abbrev pub loaded_csv :
      Result (List DataError) (Bytes × List Entry) → Result LoadFailure (Loaded h)
  loaded_csv (ok (arena, es)) = do
    s ← from_parts h store_hash arena es
    ok (record { store = s; format = csv; flags = binary_flag opts.allow_binary; source = path })
  loaded_csv (err es) = err (bad_data es)
  loaded_csv panic = panic

  abbrev pub as_csv : Bytes → Result LoadFailure (Loaded h)
  as_csv file = loaded_csv (parse_csv h csv_hash utf8 lossy opts read_records file)

  by_parse :
      (r : Result (List DataError) (Bytes × List Entry))
      → (do
        (arena, entries, format, flags) ← (do
          (a, e) ← map_err bad_data r
          ok (a, e, csv, binary_flag opts.allow_binary))
        store ← from_parts h store_hash arena entries
        ok (record { store = store; format = format; flags = flags; source = path }))
        ≡ loaded_csv r
  by_parse (ok (arena, es)) = refl
  by_parse (err es) = refl
  by_parse panic = refl

  -- What `load` makes of a compiled file that lost its end. Let the file hold the first `n` bytes,
  -- but not all, of what `write_compiled` made. If `n` is at least 8, `load` fails with
  -- `Truncated`, under any options. With fewer bytes the magic is not whole, and `load` takes them
  -- for CSV data. The arena and the entries are fewer than 2 ^ 32, and the flags are a `u32`.
  pub load-take :
      (arena : Bytes) (es : List Entry) (flags n : ℕ)
      → length arena < u32_mod
      → length es < u32_mod
      → flags < u32_mod
      → n < length (write_compiled arena es flags)
      → read_file path ≡ ok (take n (write_compiled arena es flags))
      → load h csv_hash store_hash utf8 lossy read_records read_file path opts ≡ (
          if ltb n 8
          then as_csv (take n (write_compiled arena es flags))
          else err (bad_file truncated))
  unfolding load
  load-take arena es flags n small few fits cut here =
      let file = write_compiled arena es flags in
      elim (Bool-cases (ltb n 8)) [
        | inl less ↦
            rw here
              (rw (not_compiled-take file n (omega arith) (ground arith)) (rw less (by_parse _)))
        | inr more ↦ rw here (
            rw
              (
                is_compiled-take file n (omega arith) (ground arith),
                is_compiled-write_compiled arena es flags,
                read_compiled-take arena es flags n small few fits cut,
              )
              (rw more refl))
      ]
