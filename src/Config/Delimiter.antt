-- ===== src/Config/Delimiter.antt =====
-- Which delimiters are accepted, and that the loader gets the one that was given.
use justkv.Common.{
  ℕ, ◌%◌, ◌<◌, ◌≡◌, ◌↔◌, ap, ◌∙◌, inl, inr, Bool-cases, Option, some, List, [], ◌∷◌, Bytes, ok, ltb,
  lt→ltb, arith,
}
use justkv.Config.{parse_ascii_delimiter, ParseArgs, load_options}

accepted-ascii : (s : List ℕ) (c : ℕ) → parse_ascii_delimiter s ≡ ok c → (s ≡ c ∷ []) × (c < 128)
unfolding parse_ascii_delimiter
accepted-ascii [] c h = absurd (cc)
accepted-ascii (a ∷ []) c h = elim (Bool-cases (ltb a 128)) [
  | inl small ↦ let same : a ≡ c = cc (rw small at h) in (ap (λ x. x ∷ []) same, ground arith)
  | inr large ↦ absurd (cc (rw large at h))
]
accepted-ascii (a ∷ b ∷ r) c h = absurd (cc)

-- A delimiter argument is accepted exactly if it is a single ASCII character.
pub parse_ascii_delimiter_iff :
    (s : List ℕ) (c : ℕ) → (parse_ascii_delimiter s ≡ ok c) ↔ ((s ≡ c ∷ []) × (c < 128))
unfolding parse_ascii_delimiter
parse_ascii_delimiter_iff s c =
    (accepted-ascii s c, λ h. ap parse_ascii_delimiter h.0 ∙ rw (lt→ltb c 128 h.1))

-- The cast to a byte in `load_options` loses nothing of an accepted delimiter: the loader splits at
-- the character that was given, whatever the path.
pub load_options-delimiter :
    (s : List ℕ) (c : ℕ) (args : ParseArgs) (extension : Option Bytes)
    → parse_ascii_delimiter s ≡ ok c
    → args.delimiter ≡ some c
    → (s ≡ (load_options args extension).delimiter ∷ [])
unfolding load_options
load_options-delimiter s c args extension accepted given =
    let (one, small) = accepted-ascii s c accepted in
    let same : c % 256 ≡ c = omega arith in rw given (rw same one)
