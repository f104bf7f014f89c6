-- ===== src/Store/Compiled/RoundTrip.antt =====
-- `read_compiled` gives back what `write_compiled` wrote.
use justkv.Common.{
  ℕ, ◌+◌, ◌*◌, ◌<◌, ◌≡◌, refl, true, List, [], append-nil, Bytes, ok, to_le_bytes, length,
  length-append, All, arith, u32_mod,
}
use justkv.Store.{Entry}
use justkv.Store.Windows.{InArena}
use justkv.Store.Compiled.{is_compiled, table_bytes, write_compiled, read_compiled}
use justkv.Store.Compiled.Entries.{FitsU32, length-table_bytes}
use justkv.Store.Compiled.Frame.{framed, is_compiled-framed, read_compiled-framed}

-- The writer's frame has a reserved zero and ends with the arena.
pub write_compiled-framed :
    (arena : Bytes) (es : List Entry) (flags : ℕ)
    → write_compiled arena es flags ≡ framed (to_le_bytes 0) [] arena es flags
unfolding write_compiled
write_compiled-framed arena es flags = rw (append-nil arena)

pub length-write_compiled :
    (arena : Bytes) (es : List Entry) (flags : ℕ)
    → length (write_compiled arena es flags) ≡ 24 + (length es * 16 + length arena)
unfolding write_compiled to_le_bytes
length-write_compiled arena es flags =
    omega (arith, length-append (table_bytes es) arena, length-table_bytes es)

pub is_compiled-write_compiled :
    (arena : Bytes) (es : List Entry) (flags : ℕ)
    → is_compiled (write_compiled arena es flags) ≡ true
is_compiled-write_compiled arena es flags =
    rw (write_compiled-framed arena es flags) (is_compiled-framed (to_le_bytes 0) [] arena es flags)

-- For every arena below 4 GiB, fewer than 2 ^ 32 entries that are `u32`s and lie in the arena, and
-- every `u32` of flags, `read_compiled` gives back exactly what `write_compiled` was given.
pub read_compiled-write_compiled :
    (arena : Bytes) (es : List Entry) (flags : ℕ)
    → length arena < u32_mod
    → length es < u32_mod
    → flags < u32_mod
    → All FitsU32 es
    → All (InArena (length arena)) es
    → read_compiled (write_compiled arena es flags) ≡ ok (arena, es, flags)
read_compiled-write_compiled arena es flags small few hf fits within =
    rw (write_compiled-framed arena es flags) (
      read_compiled-framed (to_le_bytes 0) [] arena es flags (unfold to_le_bytes in refl) small few
        hf fits within)
