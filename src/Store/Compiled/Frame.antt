-- ===== src/Store/Compiled/Frame.antt =====
-- Which files `read_compiled` takes: the header, the table and the arena, with bytes that it skips.
use justkv.Common.{
  ℕ, ◌+◌, ◌*◌, ◌%◌, ◌<◌, ◌≡◌, refl, ap, ◌∙◌, true, List, ◌++◌, append_assoc, Bytes, ok, slice,
  slice_middle, to_le_bytes, length, length-append, All, arith, u32_mod, u64_mod, lt→ltb, le→leb,
  le→ltb_false,
}
use justkv.Store.{Entry}
use justkv.Store.Windows.{InArena}
use justkv.Store.Compiled.{
  magic, CompiledError, is_compiled, table_bytes, u32_at, checked_add, checked_mul, read_entries,
  read_body, read_compiled,
}
use justkv.Store.Compiled.Entries.{
  u32_at-append, u32_at_behind, FitsU32, read_entries-table_bytes, length-table_bytes,
}

-- a file as the reader takes it: any four bytes at the reserved place, any bytes behind the arena
abbrev pub framed : Bytes → Bytes → Bytes → List Entry → ℕ → Bytes
framed reserved rest arena es flags =
    magic
    ++ (to_le_bytes flags
        ++ (to_le_bytes (length es % u32_mod)
            ++ (to_le_bytes (length arena % u32_mod)
                ++ (reserved ++ (table_bytes es ++ (arena ++ rest))))))

module _ (reserved rest arena : Bytes) (es : List Entry) (flags : ℕ) where
  pub length-framed :
      length (framed reserved rest arena es flags)
      ≡ 20 + (length reserved + (length es * 16 + (length arena + length rest)))
  unfolding to_le_bytes
  length-framed = omega (
    arith,
    length-append reserved (table_bytes es ++ (arena ++ rest)),
    length-append (table_bytes es) (arena ++ rest),
    length-append arena rest,
    length-table_bytes es,
  )

  pub is_compiled-framed : is_compiled (framed reserved rest arena es flags) ≡ true
  unfolding is_compiled
  is_compiled-framed =
      rw (le→leb 8 (length (framed reserved rest arena es flags)) (omega (arith, length-framed)))
        refl

  -- the header, field by field
  pub flags_at :
      flags < u32_mod
      → u32_at {E = CompiledError} (framed reserved rest arena es flags) 8 ≡ ok flags
  flags_at h = u32_at-append magic flags _ 8 h refl

  pub count_at :
      length es < u32_mod
      → u32_at {E = CompiledError} (framed reserved rest arena es flags) 12 ≡ ok (length es)
  unfolding to_le_bytes
  count_at h =
      u32_at_behind magic (to_le_bytes flags) (length es % u32_mod) _ 12 (omega arith) refl
      ∙ ap ok (omega arith)

  pub arena_len_at :
      length arena < u32_mod
      → u32_at {E = CompiledError} (framed reserved rest arena es flags) 16 ≡ ok (length arena)
  unfolding to_le_bytes
  arena_len_at h =
      u32_at_behind magic (to_le_bytes flags ++ to_le_bytes (length es % u32_mod))
        (length arena % u32_mod) _ 16 (omega arith) refl
      ∙ ap ok (omega arith)

  module _ (four : length reserved ≡ 4) where
    -- the 24 bytes in front of the table
    abbrev header : Bytes
    unfolding to_le_bytes
    header =
        magic
        ++ (to_le_bytes flags
            ++ (to_le_bytes (length es % u32_mod)
                ++ (to_le_bytes (length arena % u32_mod) ++ reserved)))

    header-append :
        framed reserved rest arena es flags ≡ header ++ (table_bytes es ++ (arena ++ rest))
    unfolding to_le_bytes
    header-append = refl

    length-header : length header ≡ 24
    unfolding to_le_bytes
    length-header = omega (arith, four)

    arena_slice :
        slice {E = CompiledError}
          (framed reserved rest arena es flags)
          (24 + length es * 16)
          (24 + length es * 16 + length arena)
        ≡ ok arena
    arena_slice =
        let pre = header ++ table_bytes es in
        let e : 24 + length es * 16 ≡ length pre =
          omega
            (arith, length-append header (table_bytes es), length-header, length-table_bytes es) in
        rw (header-append, ← append_assoc header (table_bytes es) (arena ++ rest), e)
          (slice_middle pre arena rest)

    -- Whatever stands at the reserved place and behind the arena, the reader does not look at it.
    pub read_compiled-framed :
        length arena < u32_mod
        → length es < u32_mod
        → flags < u32_mod
        → All FitsU32 es
        → All (InArena (length arena)) es
        → read_compiled (framed reserved rest arena es flags) ≡ ok (arena, es, flags)
    unfolding read_compiled read_body checked_add checked_mul
    read_compiled-framed small few hf fits within =
        let file = framed reserved rest arena es flags in
        let entries : read_entries file (length arena) 0 (length es) ≡ ok es = rw header-append (
          read_entries-table_bytes es header (arena ++ rest) (length arena) 0 length-header fits
            within) in
        rw
          (
            is_compiled-framed,
            le→ltb_false (length file) 24 (omega (arith, length-framed, four)),
            flags_at hf,
            count_at few,
            arena_len_at small,
          )
          (rw
            (
              lt→ltb (length es * 16) u64_mod (omega arith),
              lt→ltb (24 + length es * 16) u64_mod (omega arith),
              lt→ltb (24 + length es * 16 + length arena) u64_mod (omega arith),
              le→leb (24 + length es * 16 + length arena) (length file)
                  (omega (arith, length-framed, four)),
            )
            (rw (entries, arena_slice)))
