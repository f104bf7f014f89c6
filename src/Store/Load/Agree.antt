-- ===== src/Store/Load/Agree.antt =====
-- The CSV path and the compiled path lead to the same store.
use justkv.Common.{
  ℕ, ◌<◌, ◌≡◌, refl, sym, ◌∙◌, false, Bool, none, List, [], ◌∷◌, Bytes, Result, ok, length, All,
  arith, u32_mod,
}
use justkv.Common.Assoc.{Distinct}
use justkv.HashTable.{HashTable}
use justkv.Store.{Entry, get, len}
use justkv.Store.Lookup.{Serves, from_parts-Serves}
use justkv.Store.Windows.{InArena, pairs}
use justkv.Store.Compiled.{is_compiled, write_compiled}
use justkv.Store.Compiled.Entries.{FitsU32}
use justkv.Store.Compiled.RoundTrip.{read_compiled-write_compiled, is_compiled-write_compiled}
use justkv.Store.CsvLoader.{LoadOptions, DataError, Reads, parse_csv}
use justkv.Store.CsvLoader.Spec.{Kept, size, kept_rows, problems}
use justkv.Store.CsvLoader.Layout.{pack, layout, length-pack}
use justkv.Store.CsvLoader.FirstLine.{DistinctRows, Distinct-dataset}
use justkv.Store.CsvLoader.Parts.{layout-InArena, layout-FitsU32, pairs-layout}
use justkv.Store.CsvLoader.Refinement.{Answer, parse_csv-Answer, kept_rows-DistinctRows}
use justkv.Store.Load.{csv, compiled, Loaded, LoadFailure, binary_flag, load}

-- what the loaders establish and the store relies on
pub record IsDataset (arena : Bytes) (es : List Entry) : Type 0 where
  pub small : length arena < u32_mod
  pub within : All (InArena (length arena)) es
  pub fits : All FitsU32 es
  pub distinct : Distinct (pairs arena es)

pub IsDataset-layout :
    (kept : List Kept)
    → DistinctRows kept
    → size kept < u32_mod
    → IsDataset (pack kept) (layout 0 kept)
IsDataset-layout kept d small = record {
  small = omega (arith, length-pack kept);
  within = layout-InArena 0 (length (pack kept)) kept (omega (arith, length-pack kept));
  fits = layout-FitsU32 0 kept (omega arith);
  distinct = rw (pairs-layout [] kept) (Distinct-dataset kept d);
}

module _ (h : HashTable) (csv_hash store_hash : Bytes → ℕ) (utf8 : Bytes → Bool)
    (lossy : Bytes → Bytes) (read_records : ℕ → Bool → Bytes → Reads)
    (read_file : Bytes → Result Bytes Bytes) (opts : LoadOptions) where
  Answer-IsDataset :
      (kept : List Kept) (errs : List DataError) (arena : Bytes) (es : List Entry)
      → DistinctRows kept
      → size kept < u32_mod
      → Answer h csv_hash utf8 lossy opts kept errs ≡ ok (arena, es)
      → IsDataset arena es
  Answer-IsDataset kept [] arena es d small e =
      let a : pack kept ≡ arena = cc in
      let b : layout 0 kept ≡ es = cc in rw (← a, ← b) (IsDataset-layout kept d small)
  Answer-IsDataset kept (p ∷ ps) arena es d small e = absurd (cc)

  -- What `parse_csv` accepts is a dataset: an arena below 4 GiB, entries that lie in it with `u32`
  -- fields, and no key twice.
  pub parse_csv-IsDataset :
      (file arena : Bytes) (es : List Entry)
      → parse_csv h csv_hash utf8 lossy opts read_records file ≡ ok (arena, es)
      → IsDataset arena es
  parse_csv-IsDataset file arena es parsed =
      let reads = read_records opts.delimiter opts.has_header file in
      let (d, small) = kept_rows-DistinctRows h csv_hash utf8 lossy opts reads in
      Answer-IsDataset _ _ arena es d small
        (sym (parse_csv-Answer h csv_hash utf8 lossy opts read_records file) ∙ parsed)

  pub load_csv :
      (path file arena : Bytes) (es : List Entry)
      → read_file path ≡ ok file
      → is_compiled file ≡ false
      → parse_csv h csv_hash utf8 lossy opts read_records file ≡ ok (arena, es)
      → (l : Loaded h) × (load h csv_hash store_hash utf8 lossy read_records read_file path opts
          ≡ ok l)
        × (l.format ≡ csv)
        × (l.flags ≡ binary_flag opts.allow_binary)
        × (l.store.arena ≡ arena)
        × Serves h (pairs arena es) l.store
  unfolding load
  load_csv path file arena es here text parsed =
      let good = parse_csv-IsDataset file arena es parsed in
      let (s, built, same, serves) =
        from_parts-Serves {E = LoadFailure} h store_hash arena es good.small good.within
          good.distinct in
      (
        record { store = s; format = csv; flags = binary_flag opts.allow_binary; source = path },
        rw (here) (rw text (rw parsed (rw built))),
        refl,
        refl,
        same,
        serves,
      )

  pub load_compiled :
      (path : Bytes) (other : LoadOptions) (arena : Bytes) (es : List Entry) (flags : ℕ)
      → IsDataset arena es
      → length es < u32_mod
      → flags < u32_mod
      → read_file path ≡ ok (write_compiled arena es flags)
      → (l : Loaded h) × (load h csv_hash store_hash utf8 lossy read_records read_file path other
          ≡ ok l)
        × (l.format ≡ compiled)
        × (l.flags ≡ flags)
        × (l.store.arena ≡ arena)
        × Serves h (pairs arena es) l.store
  unfolding load
  load_compiled path other arena es flags good few fit here =
      let (s, built, same, serves) =
        from_parts-Serves {E = LoadFailure} h store_hash arena es good.small good.within
          good.distinct in
      let decoded =
        read_compiled-write_compiled arena es flags good.small few fit good.fits good.within in
      (
        record { store = s; format = compiled; flags = flags; source = path },
        rw (here) (rw (is_compiled-write_compiled arena es flags) (rw decoded (rw built))),
        refl,
        refl,
        same,
        serves,
      )

  pub binary_flag-lt : (b : Bool) → binary_flag b < u32_mod
  unfolding binary_flag
  binary_flag-lt b = ground arith

-- two loads of one dataset
pub record Agree (h : HashTable) (a b : Loaded h) : Type 0 where
  pub same_flags : a.flags ≡ b.flags
  pub same_arena : a.store.arena ≡ b.store.arena
  pub same_count : len h a.store ≡ len h b.store
  pub same_answers : (q : Bytes) → get h {E = Unit {0}} a.store q ≡ get h {E = Unit {0}} b.store q

-- The random states: `build_hash` of the `parse_csv` that `build` calls, and those of the two loads,
-- each with one for its `parse_csv` and one for its `from_parts`.
module _ (h : HashTable) (build_hash csv_hash store_hash csv_hash' store_hash' : Bytes → ℕ)
    (utf8 : Bytes → Bool) (lossy : Bytes → Bytes) (read_records : ℕ → Bool → Bytes → Reads)
    (read_file : Bytes → Result Bytes Bytes) (opts : LoadOptions) where
  Answer-hash :
      (kept : List Kept) (errs : List DataError)
      → Answer h csv_hash utf8 lossy opts kept errs ≡ Answer h build_hash utf8 lossy opts kept errs
  Answer-hash kept [] = refl
  Answer-hash kept (e ∷ errs) = refl

  -- the parts do not depend on the random state
  parse_csv-hash :
      (file : Bytes)
      → parse_csv h csv_hash utf8 lossy opts read_records file
        ≡ parse_csv h build_hash utf8 lossy opts read_records file
  parse_csv-hash file =
      let reads = read_records opts.delimiter opts.has_header file in
      parse_csv-Answer h csv_hash utf8 lossy opts read_records file
      ∙ Answer-hash (kept_rows [] none reads) (problems utf8 lossy opts [] none reads)
      ∙ sym (parse_csv-Answer h build_hash utf8 lossy opts read_records file)

  -- The two load paths are indistinguishable, whatever random states the three runs use. Take a
  -- source without the magic that the `parse_csv` of a build accepts with fewer than 2 ^ 32
  -- entries, and a file with what `write_compiled` makes of its parts and the flag that `build`
  -- derives from the options. Then both load, each with random states of its own: the source as CSV
  -- and the file as compiled, the file under any options. The flags, the arena, the number of keys
  -- and the answer to every lookup are the same, and they are those of the pairs that the parts
  -- spell.
  pub load-Agree :
      (source_path source out_path : Bytes) (other : LoadOptions) (arena : Bytes) (es : List Entry)
      → read_file source_path ≡ ok source
      → is_compiled source ≡ false
      → parse_csv h build_hash utf8 lossy opts read_records source ≡ ok (arena, es)
      → length es < u32_mod
      → read_file out_path ≡ ok (write_compiled arena es (binary_flag opts.allow_binary))
      → (a b : Loaded h) × (load h csv_hash store_hash utf8 lossy read_records read_file source_path
            opts
          ≡ ok a)
        × (load h csv_hash' store_hash' utf8 lossy read_records read_file out_path other ≡ ok b)
        × (a.format ≡ csv)
        × (b.format ≡ compiled)
        × Agree h a b
        × Serves h (pairs arena es) b.store
  load-Agree source_path source out_path other arena es here text parsed few there =
      let parsed' = parse_csv-hash source ∙ parsed in
      let (a, ran, fa, ga, sa, serves_a) =
        load_csv h csv_hash store_hash utf8 lossy read_records read_file opts source_path source
          arena es here text parsed' in
      let good =
        parse_csv-IsDataset h csv_hash store_hash utf8 lossy read_records read_file opts source
          arena es parsed' in
      let fit =
        binary_flag-lt h csv_hash store_hash utf8 lossy read_records read_file opts
          opts.allow_binary in
      let (b, runs, fb, gb, sb, serves_b) =
        load_compiled h csv_hash' store_hash' utf8 lossy read_records read_file opts out_path other
          arena es _ good few fit there in
      (
        a,
        b,
        ran,
        runs,
        fa,
        fb,
        record {
          same_flags = ga ∙ sym gb;
          same_arena = sa ∙ sym sb;
          same_count = serves_a.counts ∙ sym serves_b.counts;
          same_answers = λ q. serves_a.answers q ∙ sym (serves_b.answers q);
        },
        serves_b,
      )
