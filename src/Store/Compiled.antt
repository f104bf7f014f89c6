-- ===== src/Store/Compiled.antt =====
-- src/store/compiled.rs: the compiled binary format, its writer and its reader. `usize` has 64 bits.
pub mod Entries
pub mod Frame
pub mod RoundTrip
pub mod Safety
pub mod Accepts
pub mod Truncation
pub mod Display
use justkv.Common.{
  ℕ, zero, suc, ◌+◌, ◌*◌, ◌%◌, ◌^◌, Bool, true, false, ◌&&◌, ◌||◌, Option, none, some, List, [],
  ◌∷◌, ◌++◌, Bytes, Result, ok, err, panic, ◌>>=◌, ◌>>◌, guard, ok_or, slice, bytes_eq, to_le_bytes,
  length, take, ltb, leb, if◌then◌else◌, u32_mod, u64_mod,
}
use justkv.Store.{Entry}

-- b"JUSTKV01"
abbrev pub magic : Bytes
magic = 74 ∷ 85 ∷ 83 ∷ 84 ∷ 75 ∷ 86 ∷ 48 ∷ 49 ∷ []

abbrev pub header_len : ℕ
header_len = 24

abbrev pub entry_len : ℕ
entry_len = 16

abbrev pub flag_binary : ℕ
flag_binary = 1

pub data CompiledError : Type 0 where
  bad_magic : CompiledError
  truncated : CompiledError
  out_of_bounds : ℕ → CompiledError

-- `data[..MAGIC.len()]` is read only where it is in range.
unfoldable pub is_compiled : Bytes → Bool
unfolding bytes_eq
is_compiled file = leb (length magic) (length file) && bytes_eq (take (length magic) file) magic

unfoldable pub entry_bytes : Entry → Bytes
entry_bytes e =
    to_le_bytes e.k_off ++ (to_le_bytes e.k_len ++ (to_le_bytes e.v_off ++ to_le_bytes e.v_len))

unfoldable pub table_bytes : List Entry → Bytes
table_bytes [] = []
table_bytes (e ∷ es) = entry_bytes e ++ table_bytes es

-- What `write_compiled` hands to the writer when no write fails, in order.
unfoldable pub write_compiled : Bytes → List Entry → ℕ → Bytes
write_compiled arena entries flags =
    magic
    ++ (to_le_bytes flags
        ++ (to_le_bytes (length entries % u32_mod)
            ++ (to_le_bytes (length arena % u32_mod)
                ++ (to_le_bytes 0 ++ (table_bytes entries ++ arena)))))

unfoldable pub le_u32 {ℓ} : {E : Type ℓ} → Bytes → Result E ℕ
le_u32 (a ∷ b ∷ c ∷ d ∷ _) = ok (a + 256 * b + 65536 * c + 16777216 * d)
le_u32 _ = panic

-- `le_u32(&data[o..o + 4])`
unfoldable pub u32_at {ℓ} : {E : Type ℓ} → Bytes → ℕ → Result E ℕ
u32_at file o = do w ← slice file o (o + 4); le_u32 w

-- `usize::checked_add` and `usize::checked_mul`
unfoldable pub checked_add : ℕ → ℕ → Option ℕ
checked_add a b = if ltb (a + b) u64_mod then some (a + b) else none

unfoldable pub checked_mul : ℕ → ℕ → Option ℕ
checked_mul a b = if ltb (a * b) u64_mod then some (a * b) else none

-- One round of the loop of `read_compiled`.
unfoldable pub read_entry : Bytes → ℕ → ℕ → Result CompiledError Entry
read_entry file arena_len i = do
  let o = header_len + i * entry_len
  k_off ← u32_at file o
  k_len ← u32_at file (o + 4)
  v_off ← u32_at file (o + 8)
  v_len ← u32_at file (o + 12)
  k_end ← ok_or (checked_add k_off k_len) (out_of_bounds i)
  v_end ← ok_or (checked_add v_off v_len) (out_of_bounds i)
  if ltb arena_len k_end || ltb arena_len v_end
      then err (out_of_bounds i)
      else ok (record { k_off = k_off; k_len = k_len; v_off = v_off; v_len = v_len })

-- `for i in 0..count`, with the rounds left.
unfoldable pub read_entries : Bytes → ℕ → ℕ → ℕ → Result CompiledError (List Entry)
read_entries file arena_len i zero = ok []
read_entries file arena_len i (suc left) = do
  e ← read_entry file arena_len i
  es ← read_entries file arena_len (suc i) left
  ok (e ∷ es)

-- `read_compiled` from the header's fields on.
unfoldable pub read_body : Bytes → Result CompiledError (Bytes × List Entry × ℕ)
read_body file = do
  flags ← u32_at file 8
  count ← u32_at file 12
  arena_len ← u32_at file 16
  table_len ← ok_or (checked_mul count entry_len) truncated
  entries_end ← ok_or (checked_add header_len table_len) truncated
  total ← ok_or (checked_add entries_end arena_len) truncated
  guard (leb total (length file)) truncated
  entries ← read_entries file arena_len 0 count
  arena ← slice file entries_end total
  ok (arena, entries, flags)

unfoldable pub read_compiled : Bytes → Result CompiledError (Bytes × List Entry × ℕ)
read_compiled file =
    if is_compiled file
    then if ltb (length file) header_len then err truncated else read_body file
    else if ltb (length file) (length magic)
    then err truncated
    else err bad_magic
