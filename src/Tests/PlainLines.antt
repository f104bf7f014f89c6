-- ===== src/Tests/PlainLines.antt =====
-- A reader of lines without quotes, hexadecimal digits, and what they keep of the documented
-- behaviour that a generated dataset needs.
use Prim.Native.Nat.{◌/◌}
use justkv.Common.{
  ℕ, zero, suc, ◌+◌, ◌%◌, ◌<◌, ◌≤◌, ◌≡◌, ◌≢◌, ◌⊎◌, refl, ap, sym, ◌∙◌, false, some, List, [], ◌∷◌,
  ◌++◌, append_assoc, Bytes, All, All-append, All-map, ltb, ◌==◌, if◌then◌else◌, Bool-cases, inl,
  inr, arith,
}
use justkv.Store.CsvLoader.{row}
use justkv.Server.Query.{split}
use justkv.Bench.Accepted.{IsPlain, ArePlain, ReadsPlain, TakesAscii, tsv, records}
use justkv.Tests.Samples.{plain_reader, rows_of, no_ff}

unfoldable hex_digit : ℕ → ℕ
hex_digit d = if ltb d 10 then 48 + d else 87 + d

-- the lowest digits
unfoldable pub hex_digits : ℕ → ℕ → Bytes
unfolding hex_digit
hex_digits zero n = []
hex_digits (suc left) n = hex_digits left (n / 16) ++ hex_digit (n % 16) ∷ []

abbrev pub hex : ℕ → Bytes
hex n = hex_digits 16 n

hex_digits-IsPlain : (left n : ℕ) → IsPlain (hex_digits left n)
unfolding hex_digits
hex_digits-IsPlain zero n = tt
hex_digits-IsPlain (suc left) n =
    All-append _ (hex_digits left (n / 16)) _ (hex_digits-IsPlain left (n / 16))
      (elim (Bool-cases (ltb (n % 16) 10)) [
        | inl small ↦ let less : n % 16 < 10 = ground arith in rw small (omega arith)
        | inr large ↦ let more : 10 ≤ n % 16 = ground arith in rw large (omega arith)
      ])

pub hex-IsPlain : (n : ℕ) → IsPlain (hex n)
hex-IsPlain n = hex_digits-IsPlain 16 n

pub no_ff-TakesAscii : TakesAscii no_ff
no_ff-TakesAscii [] h = refl
no_ff-TakesAscii (c ∷ b) (small, h) = ground (arith, no_ff-TakesAscii b h)

split_at :
    (sep : ℕ) (a rest : Bytes)
    → All (λ c. c ≢ sep) a
    → split sep (a ++ sep ∷ rest) ≡ a ∷ split sep rest
unfolding split
split_at sep [] rest h = ground arith
split_at sep (c ∷ a) rest (ne, h) =
    let other : (c == sep) ≡ false = ground arith in rw (other, split_at sep a rest h)

split_none : (sep : ℕ) (a : Bytes) → All (λ c. c ≢ sep) a → split sep a ≡ a ∷ []
unfolding split
split_none sep [] h = refl
split_none sep (c ∷ a) (ne, h) =
    let other : (c == sep) ≡ false = ground arith in rw (other, split_none sep a h)

split_some : (b : Bytes) → (m : Bytes) × (ms : List Bytes) × (split 10 b ≡ m ∷ ms)
unfolding split
split_some [] = ([], [], refl)
split_some (c ∷ b) = elim (Bool-cases (c == 10)) [
  | inl here ↦ ([], split 10 b, rw here)
  | inr ne ↦ let (m, ms, e) = split_some b in (c ∷ m, ms, rw (ne, e))
]

plain_field : (b : Bytes) (sep : ℕ) → (sep ≡ 9) ⊎ (sep ≡ 10) → IsPlain b → All (λ c. c ≢ sep) b
plain_field b sep which h =
    All-map
      (λ c p. λ e. absurd (elim which [ inl tab ↦ p.0 (e ∙ tab) | inr line ↦ p.1 (e ∙ line) ])) b h

rows_of-tsv :
    (l : List (Bytes × Bytes)) (n : ℕ) → ArePlain l → rows_of 9 n (split 10 (tsv l)) ≡ records n l
rows_of-tsv [] n h = unfold split in refl
rows_of-tsv ((k, v) ∷ l) n ((pos, key, value), h) =
    let (m, ms, more) = split_some (tsv l) in
    let field : All (λ c. c ≢ 10) (k ++ 9 ∷ v) =
      All-append _ k (9 ∷ v) (plain_field k 10 (inr refl) key)
        ((λ e. absurd (omega (arith, e))), plain_field v 10 (inr refl) value) in
    let line : split 10 (tsv ((k, v) ∷ l)) ≡ (k ++ 9 ∷ v) ∷ split 10 (tsv l) =
      ap (split 10) (sym (append_assoc k (9 ∷ v) (10 ∷ tsv l)))
      ∙ split_at 10 (k ++ 9 ∷ v) (tsv l) field in
    let fields : split 9 (k ++ 9 ∷ v) ≡ k ∷ v ∷ [] =
      split_at 9 k v (plain_field k 9 (inl refl) key)
      ∙ ap (λ r. k ∷ r) (split_none 9 v (plain_field v 9 (inl refl) value)) in
    let later = rows_of-tsv l (suc n) h in
    rw line (
      rw more (
        rw fields (
          ap (row (record { fields = k ∷ v ∷ []; position = some n }))
            (ap (rows_of 9 (suc n)) (sym more) ∙ later))))

pub plain_reader-ReadsPlain : ReadsPlain plain_reader
plain_reader-ReadsPlain l h = rows_of-tsv l 1 h
