-- ===== src/Tests/Datasets.antt =====
-- Stores, compiled files and CSV sources.
use justkv.Common.{
  ◌≡◌, ◌↔◌, refl, List, [], ◌∷◌, Bytes, codes, bytes_eq, slice, to_le_bytes, ok, err, Safe, take,
  arith,
}
use justkv.Store.{Entry, Store, key, value, key_is, rehash, insert_all, from_parts, get, len}
use justkv.Store.Lookup.{Serves, Stores, from_parts-Serves, from_parts-Stores}
use justkv.Store.Windows.{pairs}
use justkv.Store.Compiled.{
  bad_magic, truncated, out_of_bounds, is_compiled, entry_bytes, table_bytes, write_compiled,
  le_u32, u32_at, checked_add, checked_mul, read_entry, read_entries, read_body, read_compiled,
}
use justkv.Store.Compiled.Accepts.{IsFrame, read_compiled-IsFrame}
use justkv.Store.Compiled.RoundTrip.{read_compiled-write_compiled}
use justkv.Store.Compiled.Safety.{Loadable, read_compiled-Safe}
use justkv.Store.Compiled.Truncation.{read_compiled-take}
use justkv.Tests.Samples.{list_table, weak_hash}

reading : Unit {0}
unfolding is_compiled entry_bytes table_bytes write_compiled le_u32 u32_at checked_add checked_mul
    read_entry read_entries read_body read_compiled to_le_bytes slice bytes_eq
reading = tt

looking : Unit {0}
unfolding key value key_is rehash insert_all from_parts get len slice bytes_eq
looking = tt

-- the dataset of the unit tests: akey = aval, bkey = bval
abbrev arena : Bytes
arena = codes "akeyavalbkeybval"

abbrev entries : List Entry
entries =
    record { k_off = 0; k_len = 4; v_off = 4; v_len = 4 }
    ∷ record { k_off = 8; k_len = 4; v_off = 12; v_len = 4 }
    ∷ []

abbrev compiled_file : Bytes
compiled_file = write_compiled arena entries 1

-- `rejects_entry_pointing_outside_arena`
outside :
    read_compiled
      (write_compiled (codes "abc") (record { k_off = 0; k_len = 1; v_off = 1; v_len = 99 } ∷ []) 0)
    ≡ err (out_of_bounds 0)
unfolding reading
outside = refl

rejects_bad_magic : read_compiled (codes "NOTMAGIC________________") ≡ err bad_magic
unfolding reading
rejects_bad_magic = refl

read_compiled-write_compiled_example : read_compiled compiled_file ≡ ok (arena, entries, 1)
read_compiled-write_compiled_example =
    read_compiled-write_compiled arena entries 1 (omega arith) (omega arith) (omega arith)
      (omega arith) (omega arith)

read_compiled-take_example : read_compiled (take 30 compiled_file) ≡ err truncated
read_compiled-take_example =
    read_compiled-take arena entries 1 30 (omega arith) (omega arith) (omega arith)
      (unfold reading in omega arith)

read_compiled-Safe_example : Safe (Loadable compiled_file) (read_compiled compiled_file)
read_compiled-Safe_example = read_compiled-Safe compiled_file (unfold reading in omega arith)

read_compiled-IsFrame_example :
    (read_compiled compiled_file ≡ ok (arena, entries, 1)) ↔ IsFrame compiled_file arena entries 1
read_compiled-IsFrame_example =
    read_compiled-IsFrame compiled_file (unfold reading in omega arith) arena entries 1

from_parts-Serves_example :
    (s : Store list_table) × (from_parts list_table {E = Unit {0}} weak_hash arena entries ≡ ok s)
    × (s.arena ≡ arena)
    × Serves list_table (pairs arena entries) s
from_parts-Serves_example =
    from_parts-Serves list_table weak_hash arena entries (omega arith) (omega arith)
      (unfold bytes_eq in (refl, (refl, tt)))

abbrev repeated : List Entry
repeated =
    record { k_off = 0; k_len = 4; v_off = 4; v_len = 4 }
    ∷ record { k_off = 0; k_len = 4; v_off = 12; v_len = 4 }
    ∷ []

-- one key twice
from_parts-Stores_example :
    (s : Store list_table) × (from_parts list_table {E = Unit {0}} weak_hash arena repeated ≡ ok s)
    × (s.arena ≡ arena)
    × Stores list_table (pairs arena repeated) s
from_parts-Stores_example =
    from_parts-Stores list_table weak_hash arena repeated (omega arith) (omega arith)
