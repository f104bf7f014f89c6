-- ===== src/Store/Compiled/Safety.antt =====
-- `read_compiled` on any file: it never panics, and what it returns is safe to build a store from.
use justkv.Common.{
  to_le_bytes, ◌++◌, take-add, drop-add, bytes_eq_sound, slice, sym, ℕ, zero, suc, ◌+◌, ◌*◌, ◌-◌,
  ◌≤◌, ◌<◌, ◌≡◌, refl, ap, ◌∙◌, inl, inr, Bool, true, false, ◌||◌, List, [], ◌∷◌, Bytes, Result, ok,
  err, ◌>>=◌, guard, ok_or, Safe, Safe-bind, slice_within, IsByte, length, length-take, length-drop,
  take, drop, All, All-take, All-drop, arith, u32_mod, Option, none, some, ltb, leb, Bool-cases,
  if◌then◌else◌,
}
use justkv.Store.{Entry}
use justkv.Store.Windows.{InArena}
use justkv.Store.Compiled.{
  magic, entry_bytes, table_bytes, CompiledError, truncated, is_compiled, le_u32, u32_at,
  checked_add, checked_mul, read_entry, read_entries, read_body, read_compiled,
}
use justkv.Store.Compiled.Entries.{FitsU32}

-- `v` is the `u32` that the four bytes at `o` spell
abbrev IsAt : Bytes → ℕ → ℕ → Type 0
IsAt file o v = (v < u32_mod) × (take 4 (drop o file) ≡ to_le_bytes v)

four_eq :
    {a b c d a' b' c' d' : ℕ}
    → a ≡ a'
    → b ≡ b'
    → c ≡ c'
    → d ≡ d'
    → ◌≡◌ {A = Bytes} (a ∷ b ∷ c ∷ d ∷ []) (a' ∷ b' ∷ c' ∷ d' ∷ [])
four_eq p q r s = cc

le_u32-Safe :
    (w : Bytes)
    → All IsByte w
    → length w ≡ 4
    → Safe (λ v. (v < u32_mod) × (w ≡ to_le_bytes v)) (le_u32 {E = CompiledError} w)
unfolding le_u32 to_le_bytes
le_u32-Safe (a ∷ b ∷ c ∷ d ∷ []) h n =
    (omega arith, four_eq (omega arith) (omega arith) (omega arith) (omega arith))
le_u32-Safe (a ∷ b ∷ c ∷ d ∷ e ∷ w) h n = absurd (omega arith)
le_u32-Safe (a ∷ b ∷ c ∷ []) h n = absurd (omega arith)
le_u32-Safe (a ∷ b ∷ []) h n = absurd (omega arith)
le_u32-Safe (a ∷ []) h n = absurd (omega arith)
le_u32-Safe [] h n = absurd (omega arith)

u32_at-Safe :
    (file : Bytes) (o : ℕ)
    → All IsByte file
    → o + 4 ≤ length file
    → Safe (IsAt file o) (u32_at {E = CompiledError} file o)
unfolding u32_at
u32_at-Safe file o h n =
    let width : o + 4 - o ≡ 4 = omega arith in
    rw (slice_within {E = CompiledError} file o (o + 4) (omega arith) n, width)
      (le_u32-Safe _ (All-take IsByte 4 _ (All-drop IsByte o file h))
        (length-take 4 (drop o file) (omega (arith, length-drop o file))))

ok_or-Safe {ℓ} :
    {A : Type 0} (P : A → Type 0) {E : Type ℓ} (o : Option A) (e : E)
    → ((a : A) → o ≡ some a → P a)
    → Safe P (ok_or o e)
ok_or-Safe P none e h = tt
ok_or-Safe P (some a) e h = h a refl

checked_add-eq : (a b c : ℕ) → checked_add a b ≡ some c → c ≡ a + b
unfolding checked_add
checked_add-eq a b c h = ground arith

checked_mul-eq : (a b c : ℕ) → checked_mul a b ≡ some c → c ≡ a * b
unfolding checked_mul
checked_mul-eq a b c h = ground arith

abbrev pub IsGood : ℕ → Entry → Type 0
IsGood n e = InArena n e × FitsU32 e

-- `n` bytes from `o` on
abbrev pub part : Bytes → ℕ → ℕ → Bytes
part file o n = take n (drop o file)

-- a good entry, and the bytes at `o` are its encoding
abbrev IsEntryAt : Bytes → ℕ → ℕ → Entry → Type 0
IsEntryAt file n o e = IsGood n e × (part file o 16 ≡ entry_bytes e)

if-Safe {ℓ} :
    {A : Type 0} (P : A → Type 0) {E : Type ℓ} (b : Bool) (e : E) (a : A)
    → (b ≡ false → P a)
    → Safe P (if b then err e else ok a)
if-Safe P true e a h = tt
if-Safe P false e a h = h refl

part-add : (file : Bytes) (o m n : ℕ) → part file o (m + n) ≡ part file o m ++ part file (o + m) n
part-add file o m n =
    take-add m n (drop o file) ∙ ap (λ r. part file o m ++ take n r) (sym (drop-add o m file))

part-two :
    (file : Bytes) (o m n o' : ℕ) (x y : Bytes)
    → o' ≡ o + m
    → part file o m ≡ x
    → part file o' n ≡ y
    → part file o (m + n) ≡ x ++ y
part-two file o m n o' x y next p q =
    let r : part file (o + m) n ≡ y = ap (λ k. part file k n) (sym next) ∙ q in
    part-add file o m n ∙ (λ i. p i ++ r i)

-- sixteen bytes are four times four
part-entry_bytes :
    (file : Bytes) (o : ℕ) (e : Entry)
    → part file o 4 ≡ to_le_bytes e.k_off
    → part file (o + 4) 4 ≡ to_le_bytes e.k_len
    → part file (o + 8) 4 ≡ to_le_bytes e.v_off
    → part file (o + 12) 4 ≡ to_le_bytes e.v_len
    → part file o 16 ≡ entry_bytes e
unfolding entry_bytes
part-entry_bytes file o e a b c d = part-two file o 4 12 (o + 4) _ _ refl a (
    part-two file (o + 4) 4 8 (o + 8) _ _ (omega arith) b
      (part-two file (o + 8) 4 4 (o + 12) _ _ (omega arith) c d))

read_entry-Safe :
    (file : Bytes) (n i : ℕ)
    → All IsByte file
    → 24 + i * 16 + 16 ≤ length file
    → Safe (IsEntryAt file n (24 + i * 16)) (read_entry file n i)
unfolding read_entry
read_entry-Safe file n i h room =
    let o = 24 + i * 16 in
    let Q = IsEntryAt file n o in
    Safe-bind (IsAt file o) Q _ _ (u32_at-Safe file _ h (omega arith)) λ k_off a.
      Safe-bind (IsAt file (o + 4)) Q _ _ (u32_at-Safe file _ h (omega arith)) λ k_len b.
        Safe-bind (IsAt file (o + 8)) Q _ _ (u32_at-Safe file _ h (omega arith)) λ v_off c.
          Safe-bind (IsAt file (o + 12)) Q _ _ (u32_at-Safe file _ h (omega arith)) λ v_len d.
            Safe-bind (λ k_end. k_end ≡ k_off + k_len) Q _ _
              (ok_or-Safe _ _ _ (checked_add-eq k_off k_len))
              λ k_end k_eq.
                Safe-bind (λ v_end. v_end ≡ v_off + v_len) Q _ _
                  (ok_or-Safe _ _ _ (checked_add-eq v_off v_len))
                  λ v_end v_eq. if-Safe Q (ltb n k_end || ltb n v_end) _ _ λ test.
                    let good : IsGood n
                        (record { k_off = k_off; k_len = k_len; v_off = v_off; v_len = v_len }) =
                      ground arith in
                    (good, part-entry_bytes file o _ a.1 b.1 c.1 d.1)

-- good entries, and the bytes at `o` are their table
abbrev AreEntriesAt : Bytes → ℕ → ℕ → ℕ → List Entry → Type 0
AreEntriesAt file n o count es =
    All (IsGood n) es × (length es ≡ count) × (part file o (count * 16) ≡ table_bytes es)

read_entries-Safe :
    (file : Bytes) (n i left : ℕ)
    → All IsByte file
    → 24 + (i + left) * 16 ≤ length file
    → Safe (AreEntriesAt file n (24 + i * 16) left) (read_entries file n i left)
unfolding read_entries table_bytes
read_entries-Safe file n i zero h room = (tt, refl, refl)
read_entries-Safe file n i (suc left) h room =
    Safe-bind (IsEntryAt file n (24 + i * 16)) _ _ _ (read_entry-Safe file n i h (omega arith))
      λ e (good, here).
        Safe-bind (AreEntriesAt file n (24 + suc i * 16) left) _ _ _
          (read_entries-Safe file n (suc i) left h (omega arith))
          λ es (goods, count, there).
            let width : suc left * 16 ≡ 16 + left * 16 = omega arith in
            (
              (good, goods),
              ap suc count,
              ap (part file (24 + i * 16)) width
                  ∙ part-two file (24 + i * 16) 16 (left * 16) (24 + suc i * 16) _ _ (omega arith)
                      here there,
            )

-- what a caller may rely on in the parts of a file that was read, and where the file spells them
pub record Loadable (file : Bytes) (parts : Bytes × List Entry × ℕ) : Type 0 where
  pub small : length parts.0 < u32_mod
  pub few : length parts.1 < u32_mod
  pub flags_fit : parts.2 < u32_mod
  pub good : All (IsGood (length parts.0)) parts.1
  pub whole : 24 + length parts.1 * 16 + length parts.0 ≤ length file
  pub magic_spelt : part file 0 8 ≡ magic
  pub flags_spelt : part file 8 4 ≡ to_le_bytes parts.2
  pub count_spelt : part file 12 4 ≡ to_le_bytes (length parts.1)
  pub arena_len_spelt : part file 16 4 ≡ to_le_bytes (length parts.0)
  pub table_spelt : part file 24 (length parts.1 * 16) ≡ table_bytes parts.1
  pub arena_spelt : part file (24 + length parts.1 * 16) (length parts.0) ≡ parts.0

guard-Safe {ℓ κ} :
    {B : Type ℓ} (Q : B → Type 0) {E : Type κ} (b : Bool) (e : E) (f : Unit {0} → Result E B)
    → (b ≡ true → Safe Q (f tt))
    → Safe Q (guard b e >>= f)
guard-Safe Q true e f k = k refl
guard-Safe Q false e f k = tt

is_compiled-part : (file : Bytes) → is_compiled file ≡ true → part file 0 8 ≡ magic
unfolding is_compiled
is_compiled-part file ours = bytes_eq_sound (take 8 file) magic (ground arith)

-- the table and the arena, once the lengths are known
read_rest-Safe :
    (file : Bytes) (flags count arena_len entries_end total : ℕ)
    → is_compiled file ≡ true
    → All IsByte file
    → IsAt file 8 flags
    → IsAt file 12 count
    → IsAt file 16 arena_len
    → entries_end ≡ 24 + count * 16
    → total ≡ entries_end + arena_len
    → total ≤ length file
    → Safe (Loadable file) (do
      entries ← read_entries file arena_len 0 count
      arena ← slice {E = CompiledError} file entries_end total
      ok (arena, entries, flags))
read_rest-Safe file flags count arena_len entries_end total ours h f c a e w enough =
    Safe-bind (AreEntriesAt file arena_len 24 count) (Loadable file) _ _
      (read_entries-Safe file arena_len 0 count h (omega arith))
      λ es (good, n, table).
        let width : total - entries_end ≡ arena_len = omega arith in
        let size : length (part file entries_end arena_len) ≡ arena_len =
          length-take _ _ (omega (arith, length-drop entries_end file)) in
        let at : 24 + length es * 16 ≡ entries_end = omega arith in
        rw (slice_within {E = CompiledError} file entries_end total (omega arith) enough, width)
          (record {
            small = omega arith;
            few = omega arith;
            flags_fit = f.0;
            good = rw size good;
            whole = omega arith;
            magic_spelt = is_compiled-part file ours;
            flags_spelt = f.1;
            count_spelt = c.1 ∙ ap to_le_bytes (sym n);
            arena_len_spelt = a.1 ∙ ap to_le_bytes (sym size);
            table_spelt = ap (λ k. part file 24 (k * 16)) n ∙ table;
            arena_spelt =
                ap (λ k. part file k (length (part file entries_end arena_len))) at
                ∙ ap (part file entries_end) size;
          })

read_body-Safe :
    (file : Bytes)
    → is_compiled file ≡ true
    → All IsByte file
    → 24 ≤ length file
    → Safe (Loadable file) (read_body file)
unfolding read_body
read_body-Safe file ours h room =
    Safe-bind (IsAt file 8) (Loadable file) _ _ (u32_at-Safe file _ h (omega arith)) λ flags f.
      Safe-bind (IsAt file 12) (Loadable file) _ _ (u32_at-Safe file _ h (omega arith)) λ count c.
        Safe-bind (IsAt file 16) (Loadable file) _ _ (u32_at-Safe file _ h (omega arith))
          λ arena_len a.
            Safe-bind (λ table_len. table_len ≡ count * 16) (Loadable file) _ _
              (ok_or-Safe _ _ _ (checked_mul-eq count 16))
              λ table_len t.
                Safe-bind (λ entries_end. entries_end ≡ 24 + table_len) (Loadable file) _ _
                  (ok_or-Safe _ _ _ (checked_add-eq 24 table_len))
                  λ entries_end e.
                    Safe-bind (λ total. total ≡ entries_end + arena_len) (Loadable file) _ _
                      (ok_or-Safe _ _ _ (checked_add-eq entries_end arena_len))
                      λ total w.
                        guard-Safe (Loadable file) (leb total (length file)) truncated _ λ test.
                          read_rest-Safe file flags count arena_len entries_end total ours h f c a
                            (omega arith) (omega arith) (ground arith)

-- On every file of bytes `read_compiled` does not panic. What it returns fits `u32`s, lies in the
-- returned arena, and takes no more bytes than the file has.
pub read_compiled-Safe :
    (file : Bytes) → All IsByte file → Safe (Loadable file) (read_compiled file)
unfolding read_compiled
read_compiled-Safe file h = elim (Bool-cases (is_compiled file)) [
  | inr other ↦
      rw other (elim (Bool-cases (ltb (length file) 8)) [
        | inl short ↦ rw short tt
        | inr long ↦ rw long tt
      ])
  | inl ours ↦ rw ours (elim (Bool-cases (ltb (length file) 24)) [
    | inl short ↦ rw short tt
    | inr long ↦ rw long (read_body-Safe file ours h (ground arith))
  ])
]
