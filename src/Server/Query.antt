-- ===== src/Server/Query.antt =====
-- `key_from_query` of src/server/handlers.rs. `percent_decode` is the crate's function, collected.
pub mod Params
use justkv.Common.{
  ℕ, Bool, true, false, Option, none, some, List, [], ◌∷◌, map, Bytes, bytes_eq, ◌==◌,
  if◌then◌else◌,
}

abbrev push_front : ℕ → List Bytes → List Bytes
push_front c [] = (c ∷ []) ∷ []
push_front c (w ∷ ws) = (c ∷ w) ∷ ws

-- `str::split` at a byte
unfoldable pub split : ℕ → Bytes → List Bytes
split sep [] = [] ∷ []
split sep (c ∷ cs) = let rest = split sep cs in if c == sep then [] ∷ rest else push_front c rest

abbrev after_byte : ℕ → Option (Bytes × Bytes) → Option (Bytes × Bytes)
after_byte c none = none
after_byte c (some (a, b)) = some (c ∷ a, b)

-- `str::split_once` at a byte
unfoldable pub split_once : ℕ → Bytes → Option (Bytes × Bytes)
split_once sep [] = none
split_once sep (c ∷ cs) =
    let rest = split_once sep cs in if c == sep then some ([], cs) else after_byte c rest

-- `Some(p) => p, None => (pair, "")`
abbrev name_value : Bytes → Option (Bytes × Bytes) → Bytes × Bytes
name_value pair none = (pair, [])
name_value pair (some p) = p

-- `+` means space
unfoldable pub plus_decoded : ℕ → ℕ
plus_decoded b = if b == b'+' then b' ' else b

module _ (percent_decode : Bytes → Bytes) where
  unfoldable pub find_key : List Bytes → Option Bytes
  find_key [] = none
  find_key (pair ∷ pairs) =
      let (name, value) = name_value pair (split_once b'=' pair) in
      let later = find_key pairs in
      if bytes_eq name (b'k' ∷ []) then some (percent_decode (map plus_decoded value)) else later

  unfoldable pub key_from_query : Option Bytes → Option Bytes
  unfolding find_key split split_once
  key_from_query none = none
  key_from_query (some q) = find_key (split b'&' q)
