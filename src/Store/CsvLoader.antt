-- ===== src/Store/CsvLoader.antt =====
-- src/store/csv_loader.rs: options, problems, and the loop that packs rows into an arena.
-- A Rust `String` is its UTF-8 bytes. The records that the `csv` crate reads, `str::from_utf8` and
-- `String::from_utf8_lossy` are parameters.
pub mod Spec
pub mod Layout
pub mod FirstLine
pub mod Parts
mod Index
mod Rows
pub mod Refinement
pub mod Display
use Prim.Native.Nat.{◌-◌}
use justkv.Common.{
  ℕ, zero, suc, ◌+◌, ◌%◌, Bool, true, false, not, ◌&&◌, Option, none, some, List, [], ◌∷◌, ◌++◌,
  map, Bytes, bytes_eq, Result, ok, err, panic, ◌>>=◌, or_panic, length, get_elem?, ltb, leb,
  if◌then◌else◌, u32_mod, u32_max,
}
use justkv.HashTable.{HashTable}
use justkv.Store.{Entry, key_is, rehash}

pub record LoadOptions : Type 0 where
  pub delimiter : ℕ
  pub has_header : Bool
  pub allow_binary : Bool

-- `LoadOptions::default()`, with b','
abbrev pub default_options : LoadOptions
default_options = record { delimiter = b','; has_header = false; allow_binary = false }

to_ascii_lowercase : ℕ → ℕ
to_ascii_lowercase c = if leb b'A' c && leb c b'Z' then c + 32 else c

unfoldable pub eq_ignore_ascii_case : Bytes → Bytes → Bool
unfolding to_ascii_lowercase bytes_eq
eq_ignore_ascii_case a b = bytes_eq (map to_ascii_lowercase a) (map to_ascii_lowercase b)

-- The argument is `path.extension().and_then(|e| e.to_str())`.
unfoldable pub delimiter_for_path : Option Bytes → ℕ
delimiter_for_path none = b','
delimiter_for_path (some ext) =
    if eq_ignore_ascii_case ext (b't' ∷ b's' ∷ b'v' ∷ []) then 9 else b','

pub data DataErrorKind : Type 0 where
  wrong_column_count : ℕ → DataErrorKind
  duplicate_key : Bytes → ℕ → DataErrorKind
  invalid_utf8_value : DataErrorKind
  malformed : Bytes → DataErrorKind
  too_large : DataErrorKind

pub record DataError : Type 0 where
  pub line : ℕ
  pub kind : DataErrorKind

-- `csv::ByteRecord`: its fields, and the line of its position
pub record ByteRecord : Type 0 where
  pub fields : List Bytes
  pub position : Option ℕ

-- What the calls of `read_byte_record` return, one after the other: `Ok(true)` with the record that
-- was read, `Err` with its message, `Ok(false)`. After an `Err` there is no further call.
pub data Reads : Type 0 where
  eof : Reads
  failure : Bytes → Reads
  row : ByteRecord → Reads → Reads

-- The local variables of `parse_csv`; `errors` is reported in the order of the list.
pub record Loading (h : HashTable) : Type 0 where
  pub arena : Bytes
  pub entries : List Entry
  pub lines : List ℕ
  pub errors : List DataError
  pub seen : h.Table ℕ

-- `rec.position().map(|p| p.line()).unwrap_or(0) + 1`
abbrev pub line_hint : Option ℕ → ℕ
line_hint none = 1
line_hint (some l) = l + 1

-- `rec.position().map(|p| p.line()).unwrap_or(line_hint)`
abbrev pub row_line : Option ℕ → Option ℕ → ℕ
row_line before none = line_hint before
row_line before (some l) = l

abbrev at_entry {ℓ} : {A : Type ℓ} → Option Entry → (Entry → A) → A → A
at_entry none f d = d
at_entry (some e) f d = f e

-- The closures of `seen.find` and `seen.insert_unique`. The indices that `seen` stores are those of
-- entries, so `entries[i as usize]` does not panic.
unfoldable pub entry_is : List Entry → Bytes → Bytes → ℕ → Bool
entry_is entries arena q i = at_entry (get_elem? entries i) (key_is arena q) false

unfoldable pub entry_hash : (Bytes → ℕ) → List Entry → Bytes → ℕ → ℕ
entry_hash hash entries arena i = at_entry (get_elem? entries i) (rehash hash arena) 0

-- `hash` is `hash_bytes` with the fresh `RandomState`.
module _ (h : HashTable) (hash : Bytes → ℕ) (utf8 : Bytes → Bool) (lossy : Bytes → Bytes)
    (opts : LoadOptions) where
  open h use {Table, new, insert_unique, find}

  abbrev push_error : Loading h → ℕ → DataErrorKind → Loading h
  push_error st line kind = record st {
    errors = st.errors ++ record { line = line; kind = kind } ∷ [];
  }

  -- `if let Some(&idx) = dup { … }`
  unfoldable pub report_duplicate {ℓ} :
      {E : Type ℓ} → Loading h → ℕ → Bytes → Option ℕ → Result E (Loading h)
  report_duplicate st line key none = ok st
  report_duplicate st line key (some idx) = do
    first_line ← or_panic (get_elem? st.lines idx)
    ok (push_error st line (duplicate_key (lossy key) first_line))

  unfoldable pub report_invalid : Loading h → ℕ → Bytes → Loading h
  report_invalid st line val =
      if not opts.allow_binary && not (utf8 val) then push_error st line invalid_utf8_value else st

  -- From the size test on. The flag says that the loop breaks.
  unfoldable pub append_pair : Loading h → ℕ → Bytes → Bytes → Loading h × Bool
  append_pair st line key val =
      if ltb u32_max (length st.arena + length key + length val)
      then (push_error st line too_large, true)
      else let arena = (st.arena ++ key) ++ val in
        let entries =
          st.entries
          ++ record {
            k_off = length st.arena % u32_mod;
            k_len = length key % u32_mod;
            v_off = length (st.arena ++ key) % u32_mod;
            v_len = length val % u32_mod;
          }
            ∷ [] in
        let idx = length st.entries % u32_mod in
        (
          record st {
            arena = arena;
            entries = entries;
            lines = st.lines ++ line ∷ [];
            seen = insert_unique (hash key) idx (entry_hash hash entries arena) st.seen;
          },
          false,
        )

  -- `if dup.is_some() { continue; }` and what follows it
  unfoldable pub append_unless : Option ℕ → Loading h → ℕ → Bytes → Bytes → Loading h × Bool
  append_unless (some idx) st line key val = (st, false)
  append_unless none st line key val = append_pair st line key val

  unfoldable pub load_pair {ℓ} :
      {E : Type ℓ} → Loading h → ℕ → Bytes → Bytes → Result E (Loading h × Bool)
  load_pair st line key val = do
    let dup = find (hash key) (entry_is st.entries st.arena key) st.seen
    reported ← report_duplicate st line key dup
    ok (append_unless dup (report_invalid reported line val) line key val)

  -- The body of the loop after a record was read; the test `rec.len() != 2` is the patterns.
  unfoldable pub load_row {ℓ} :
      {E : Type ℓ} → Loading h → ℕ → List Bytes → Result E (Loading h × Bool)
  load_row st line (key ∷ val ∷ []) = load_pair st line key val
  load_row st line fields = ok (push_error st line (wrong_column_count (length fields)), false)

  -- The loop; `before` is the position that `rec` has from the round before.
  unfoldable pub load_rows {ℓ} : {E : Type ℓ} → Loading h → Option ℕ → Reads → Result E (Loading h)
  load_rows st before eof = ok st
  load_rows st before (failure msg) = ok (push_error st (line_hint before) (malformed msg))
  load_rows st before (row rec rest) = do
    (st', stop) ← load_row st (row_line before rec.position) rec.fields
    if stop then ok st' else load_rows st' rec.position rest

  abbrev pub start : Loading h
  start = record { arena = []; entries = []; lines = []; errors = []; seen = new }

  -- `if errors.is_empty() { Ok(…) } else { Err(errors) }`
  abbrev pub finish : Loading h → List DataError → Result (List DataError) (Bytes × List Entry)
  finish st [] = ok (st.arena, st.entries)
  finish st (e ∷ es) = err (e ∷ es)

  -- `read_records delimiter has_headers file` is what the flexible `csv` reader yields.
  unfoldable pub parse_csv :
      (ℕ → Bool → Bytes → Reads) → Bytes → Result (List DataError) (Bytes × List Entry)
  parse_csv read_records file = do
    st ← load_rows start none (read_records opts.delimiter opts.has_header file)
    finish st st.errors
