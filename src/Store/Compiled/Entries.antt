-- ===== src/Store/Compiled/Entries.antt =====
-- `read_entry` and `read_entries` of src/store/compiled.rs against the bytes of a table.
use justkv.Common.{
  ℕ, suc, ◌+◌, ◌*◌, ◌<◌, ◌≡◌, refl, sym, ap, ◌∙◌, List, [], ◌∷◌, ◌++◌, append_assoc, append-nil,
  Bytes, ok, slice_middle, to_le_bytes, length, length-append, All, arith, u32_mod, u64_mod, lt→ltb,
  le→ltb_false,
}
use justkv.Store.{Entry}
use justkv.Store.Windows.{InArena}
use justkv.Store.Compiled.{
  entry_bytes, table_bytes, le_u32, u32_at, checked_add, read_entry, read_entries,
}

le_u32-to_le_bytes {ℓ} :
    {E : Type ℓ} (v : ℕ) (rest : Bytes)
    → v < u32_mod
    → le_u32 {E = E} (to_le_bytes v ++ rest) ≡ ok v
unfolding le_u32 to_le_bytes
le_u32-to_le_bytes v rest h = ap ok (omega arith)

-- a `u32` behind `pre`
pub u32_at-append {ℓ} :
    {E : Type ℓ} (pre : Bytes) (v : ℕ) (post : Bytes) (o : ℕ)
    → v < u32_mod
    → o ≡ length pre
    → u32_at {E = E} (pre ++ (to_le_bytes v ++ post)) o ≡ ok v
unfolding u32_at to_le_bytes
u32_at-append {E} pre v post o h at =
    rw (at, slice_middle {E = E} pre (to_le_bytes v) post)
      (ap (λ b. le_u32 b) (sym (append-nil (to_le_bytes v))) ∙ le_u32-to_le_bytes v [] h)

pub u32_at_behind {ℓ} :
    {E : Type ℓ} (pre w : Bytes) (v : ℕ) (post : Bytes) (o : ℕ)
    → v < u32_mod
    → o ≡ length pre + length w
    → u32_at {E = E} (pre ++ (w ++ (to_le_bytes v ++ post))) o ≡ ok v
u32_at_behind {E} pre w v post o h at =
    rw (← append_assoc pre w (to_le_bytes v ++ post))
      (u32_at-append (pre ++ w) v post o h (omega (arith, length-append pre w)))

-- the four fields are `u32`s
pub record FitsU32 (e : Entry) : Type 0 where
  pub k_off_fits : e.k_off < u32_mod
  pub k_len_fits : e.k_len < u32_mod
  pub v_off_fits : e.v_off < u32_mod
  pub v_len_fits : e.v_len < u32_mod

-- the reader's view of an entry in front of `post`
module _ (pre post : Bytes) (e : Entry) (o : ℕ) (at : o ≡ length pre) (fits : FitsU32 e) where
  abbrev entry_file : Bytes
  entry_file = pre ++ (entry_bytes e ++ post)

  field_0 {ℓ} : {E : Type ℓ} → u32_at {E = E} entry_file o ≡ ok e.k_off
  unfolding entry_bytes to_le_bytes
  field_0 = u32_at-append pre e.k_off _ o fits.k_off_fits at

  field_4 {ℓ} : {E : Type ℓ} → u32_at {E = E} entry_file (o + 4) ≡ ok e.k_len
  unfolding entry_bytes to_le_bytes
  field_4 = u32_at_behind pre (to_le_bytes e.k_off) e.k_len _ _ fits.k_len_fits (omega arith)

  field_8 {ℓ} : {E : Type ℓ} → u32_at {E = E} entry_file (o + 8) ≡ ok e.v_off
  unfolding entry_bytes to_le_bytes
  field_8 =
      u32_at_behind pre (to_le_bytes e.k_off ++ to_le_bytes e.k_len) e.v_off _ _ fits.v_off_fits
        (omega arith)

  field_12 {ℓ} : {E : Type ℓ} → u32_at {E = E} entry_file (o + 12) ≡ ok e.v_len
  unfolding entry_bytes to_le_bytes
  field_12 =
      u32_at_behind pre (to_le_bytes e.k_off ++ (to_le_bytes e.k_len ++ to_le_bytes e.v_off))
        e.v_len post _ fits.v_len_fits (omega arith)

read_entry-entry_bytes :
    (pre post : Bytes) (e : Entry) (n i : ℕ)
    → length pre ≡ 24 + i * 16
    → FitsU32 e
    → InArena n e
    → read_entry (pre ++ (entry_bytes e ++ post)) n i ≡ ok e
unfolding read_entry checked_add
read_entry-entry_bytes pre post e n i at fits within =
    let o : 24 + i * 16 ≡ length pre = omega arith in
    rw
      (
        field_0 pre post e _ o fits,
        field_4 pre post e _ o fits,
        field_8 pre post e _ o fits,
        field_12 pre post e _ o fits,
      )
      (rw
        (
          lt→ltb (e.k_off + e.k_len) u64_mod (omega arith),
          lt→ltb (e.v_off + e.v_len) u64_mod (omega arith),
        )
        (rw (
          le→ltb_false n (e.k_off + e.k_len) (omega arith),
          le→ltb_false n (e.v_off + e.v_len) (omega arith),
        )))

pub read_entries-table_bytes :
    (es : List Entry) (pre post : Bytes) (n i : ℕ)
    → length pre ≡ 24 + i * 16
    → All FitsU32 es
    → All (InArena n) es
    → read_entries (pre ++ (table_bytes es ++ post)) n i (length es) ≡ ok es
unfolding read_entries table_bytes
read_entries-table_bytes [] pre post n i at fits within = refl
read_entries-table_bytes (e ∷ es) pre post n i at (fit, fits) (one, within) =
    let rest = table_bytes es ++ post in
    let longer : length (pre ++ entry_bytes e) ≡ 24 + suc i * 16 =
      unfold entry_bytes to_le_bytes in omega (arith, length-append pre (entry_bytes e)) in
    let later : read_entries (pre ++ (entry_bytes e ++ rest)) n (suc i) (length es) ≡ ok es =
      ap (λ (f : Bytes). read_entries f n (suc i) (length es))
        (sym (append_assoc pre (entry_bytes e) rest))
      ∙ read_entries-table_bytes es (pre ++ entry_bytes e) post n (suc i) longer fits within in
    ap (λ (f : Bytes). read_entries (pre ++ f) n i (suc (length es)))
      (append_assoc (entry_bytes e) (table_bytes es) post)
    ∙ rw (read_entry-entry_bytes pre rest e n i at fit one) (rw later)

pub length-table_bytes : (es : List Entry) → length (table_bytes es) ≡ length es * 16
unfolding table_bytes entry_bytes to_le_bytes
length-table_bytes [] = refl
length-table_bytes (e ∷ es) = omega (arith, length-table_bytes es)
