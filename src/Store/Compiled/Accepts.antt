-- ===== src/Store/Compiled/Accepts.antt =====
-- `read_compiled` accepts exactly the files of the format.
use justkv.Common.{
  ℕ, ◌+◌, ◌*◌, ◌%◌, ◌<◌, ◌≡◌, ◌↔◌, refl, sym, ap, ◌∙◌, List, ◌++◌, Bytes, ok, to_le_bytes,
  take-append-drop, drop-add, IsByte, length, length-take, length-drop, drop, All, All-map, arith,
  u32_mod,
}
use justkv.Store.{Entry}
use justkv.Store.Compiled.{read_compiled}
use justkv.Store.Compiled.Frame.{framed, read_compiled-framed}
use justkv.Store.Compiled.Safety.{IsGood, part, Loadable, read_compiled-Safe}

-- `file` is a frame of these parts, with any reserved bytes and any bytes behind the arena
abbrev pub IsFrame : Bytes → Bytes → List Entry → ℕ → Type 0
IsFrame file arena es flags =
    (reserved : Bytes) × (rest : Bytes) × (length reserved ≡ 4)
    × (length arena < u32_mod)
    × (length es < u32_mod)
    × (flags < u32_mod)
    × All (IsGood (length arena)) es
    × (file ≡ framed reserved rest arena es flags)

cut :
    (file : Bytes) (o n o' : ℕ) (x rest : Bytes)
    → o' ≡ o + n
    → part file o n ≡ x
    → drop o' file ≡ rest
    → drop o file ≡ x ++ rest
cut file o n o' x rest at p q =
    let r : drop n (drop o file) ≡ rest =
      sym (drop-add o n file) ∙ ap (λ k. drop k file) (sym at) ∙ q in
    sym (take-append-drop n (drop o file)) ∙ (λ i. p i ++ r i)

Loadable-IsFrame :
    (file arena : Bytes) (es : List Entry) (flags : ℕ)
    → Loadable file (arena, es, flags)
    → IsFrame file arena es flags
Loadable-IsFrame file arena es flags l =
    let n = length es in
    let reserved = part file 20 4 in
    let rest = drop (24 + n * 16 + length arena) file in
    let count : part file 12 4 ≡ to_le_bytes (n % u32_mod) =
      l.count_spelt ∙ ap to_le_bytes {y = n % u32_mod} (omega (arith, l.few)) in
    let size : part file 16 4 ≡ to_le_bytes (length arena % u32_mod) =
      l.arena_len_spelt ∙ ap to_le_bytes {y = length arena % u32_mod} (omega (arith, l.small)) in
    (
      reserved,
      rest,
      length-take 4 (drop 20 file) (omega (arith, length-drop 20 file, l.whole)),
      l.small,
      l.few,
      l.flags_fit,
      l.good,
      cut file 0 8 8 _ _ refl l.magic_spelt (
          cut file 8 4 12 _ _ refl l.flags_spelt (
            cut file 12 4 16 _ _ refl count (
              cut file 16 4 20 _ _ refl size (
                cut file 20 4 24 _ _ refl refl (
                  cut file 24 (n * 16) (24 + n * 16) _ _ refl l.table_spelt (
                    cut file (24 + n * 16) (length arena) (24 + n * 16 + length arena) _ _ refl
                      l.arena_spelt refl)))))),
    )

-- On any bytes `read_compiled` returns an arena, entries and flags exactly if the file is a frame
-- of them: the magic, the three `u32`s, four reserved bytes, the table, the arena and anything
-- behind it, with every entry inside the arena. Nothing else is accepted, and no accepted file has
-- two readings.
pub read_compiled-IsFrame :
    (file : Bytes)
    → All IsByte file
    → (arena : Bytes) (es : List Entry) (flags : ℕ)
    → (read_compiled file ≡ ok (arena, es, flags)) ↔ IsFrame file arena es flags
read_compiled-IsFrame file bytes arena es flags = (
  (λ h. Loadable-IsFrame file arena es flags (rw h at (read_compiled-Safe file bytes))),
  (λ (reserved, rest, four, small, few, fits, good, is). rw is (
      read_compiled-framed reserved rest arena es flags four small few fits
        (All-map (λ e g. g.1) es good) (All-map (λ e g. g.0) es good))),
)
