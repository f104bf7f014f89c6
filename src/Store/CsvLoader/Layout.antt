-- ===== src/Store/CsvLoader/Layout.antt =====
-- How kept rows lie in the arena: keys and values end to end, one entry to a row.
use justkv.Common.{
  ℕ, zero, suc, ◌+◌, ◌%◌, ◌<◌, ◌≡◌, refl, sym, ap, ◌∙◌, some, List, [], ◌∷◌, ◌++◌, append_assoc,
  Bytes, ok, slice_middle, length, length-append, get_elem?, arith, u32_mod,
}
use justkv.Store.{Entry, key}
use justkv.Store.CsvLoader.Spec.{Kept, size}

-- the arena that holds these rows
abbrev pub pack : List Kept → Bytes
pack [] = []
pack (x ∷ kept) = x.key ++ (x.value ++ pack kept)

-- their entries, the first at `off`
abbrev pub layout : ℕ → List Kept → List Entry
layout off [] = []
layout off (x ∷ kept) =
    record { k_off = off; k_len = length x.key; v_off = off + length x.key; v_len = length x.value }
    ∷ layout (off + length x.key + length x.value) kept

-- the dataset that they spell
abbrev pub dataset : List Kept → List (Bytes × Bytes)
dataset [] = []
dataset (x ∷ kept) = (x.key, x.value) ∷ dataset kept

pub length-pack : (kept : List Kept) → length (pack kept) ≡ size kept
length-pack [] = refl
length-pack (x ∷ kept) = omega (
  arith,
  length-append x.key (x.value ++ pack kept),
  length-append x.value (pack kept),
  length-pack kept,
)

pub length-layout : (off : ℕ) (kept : List Kept) → length (layout off kept) ≡ length kept
length-layout off [] = refl
length-layout off (x ∷ kept) = ap suc (length-layout (off + length x.key + length x.value) kept)

pub size-append : (xs ys : List Kept) → size (xs ++ ys) ≡ size xs + size ys
size-append [] ys = omega arith
size-append (x ∷ xs) ys = omega (arith, size-append xs ys)

pub pack-append : (xs ys : List Kept) → pack (xs ++ ys) ≡ pack xs ++ pack ys
pack-append [] ys = refl
pack-append (x ∷ xs) ys = rw (
  pack-append xs ys,
  append_assoc x.key (x.value ++ pack xs) (pack ys),
  append_assoc x.value (pack xs) (pack ys),
)

pub layout-append :
    (off : ℕ) (xs ys : List Kept)
    → layout off (xs ++ ys) ≡ layout off xs ++ layout (off + size xs) ys
layout-append off [] ys = ap (λ n. layout n ys) (omega arith)
layout-append off (x ∷ xs) ys =
    let next = off + length x.key + length x.value in
    let e : next + size xs ≡ off + (length x.key + length x.value + size xs) = omega arith in
    ap (λ r. layout_head off x ∷ r)
      (layout-append next xs ys ∙ ap (λ n. layout next xs ++ layout n ys) e)
  where
    layout_head : ℕ → Kept → Entry
    layout_head o y = record {
      k_off = o;
      k_len = length y.key;
      v_off = o + length y.key;
      v_len = length y.value;
    }

pub length-snoc : (kept : List Kept) (x : Kept) → length (kept ++ x ∷ []) ≡ length kept + 1
length-snoc kept x = length-append kept (x ∷ [])

-- the windows of the `i`-th entry read the `i`-th row, behind whatever stands in front
pub layout-at {ℓ} :
    {E : Type ℓ} (kept : List Kept) (pre : Bytes) (i : ℕ) (x : Kept)
    → length pre + size kept < u32_mod
    → get_elem? kept i ≡ some x
    → (e : Entry) × (get_elem? (layout (length pre) kept) i ≡ some e)
      × (key {E = E} e (pre ++ pack kept) ≡ ok x.key)
layout-at [] pre i x small at = absurd (cc)
layout-at {E} (y ∷ kept) pre zero x small at =
    let wrap : (length pre + length y.key) % u32_mod ≡ length pre + length y.key = omega arith in
    (
      _,
      refl,
      unfold key in rw (wrap, slice_middle {E = E} pre y.key (y.value ++ pack kept)) (cc (at)),
    )
layout-at {E} (y ∷ kept) pre (suc i) x small at =
    let pre' = pre ++ (y.key ++ y.value) in
    let n : length pre' ≡ length pre + length y.key + length y.value =
      omega (arith, length-append pre (y.key ++ y.value), length-append y.key y.value) in
    let whole : pre' ++ pack kept ≡ pre ++ (y.key ++ (y.value ++ pack kept)) =
      append_assoc pre (y.key ++ y.value) (pack kept)
      ∙ ap (λ r. pre ++ r) (append_assoc y.key y.value (pack kept)) in
    let (e, here, reads) = layout-at {E = E} kept pre' i x (omega arith) at in
    (
      e,
      ap (λ o. get_elem? (layout o kept) i) (sym n) ∙ here,
      ap (λ a. key {E = E} e a) (sym whole) ∙ reads,
    )
