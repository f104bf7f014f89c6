-- ===== src/Server/Query/Params.antt =====
-- `key_from_query` against queries that a client builds from parameters.
use justkv.Common.{
  ◌≡◌, refl, ap, ◌∙◌, Bool, true, false, Option, none, some, List, [], ◌∷◌, ◌++◌, map, Bytes,
  bytes_eq, ◌==◌, if◌then◌else◌, All-append, Lacks,
}
use justkv.Common.Assoc.{lookup}
use justkv.Server.Query.{split, split_once, plus_decoded, find_key, key_from_query}

-- name=value&name=value…
abbrev pub query_string : List (Bytes × Bytes) → Bytes
query_string [] = []
query_string ((n, v) ∷ []) = n ++ b'=' ∷ v
query_string ((n, v) ∷ p ∷ ps) = (n ++ b'=' ∷ v) ++ b'&' ∷ query_string (p ∷ ps)

-- names have no `=`, and neither part has `&`
abbrev pub AreParams : List (Bytes × Bytes) → Type 0
AreParams [] = Unit
AreParams ((n, v) ∷ ps) = Lacks b'=' n × Lacks b'&' n × Lacks b'&' v × AreParams ps

split_lem : (w : Bytes) → Lacks b'&' w → split b'&' w ≡ w ∷ []
unfolding split
split_lem [] h = refl
split_lem (c ∷ w) (ne, h) = rw (ne, split_lem w h)

split-append : (w rest : Bytes) → Lacks b'&' w → split b'&' (w ++ b'&' ∷ rest) ≡ w ∷ split b'&' rest
unfolding split
split-append [] rest h = refl
split-append (c ∷ w) rest (ne, h) = rw (ne, split-append w rest h)

split_once-append : (n v : Bytes) → Lacks b'=' n → split_once b'=' (n ++ b'=' ∷ v) ≡ some (n, v)
unfolding split_once
split_once-append [] v h = refl
split_once-append (c ∷ n) v (ne, h) = rw (ne, split_once-append n v h)

pair-Lacks : (n v : Bytes) → Lacks b'&' n → Lacks b'&' v → Lacks b'&' (n ++ b'=' ∷ v)
pair-Lacks n v hn hv = All-append (λ c. (c == b'&') ≡ false) n (b'=' ∷ v) hn (refl, hv)

module _ (percent_decode : Bytes → Bytes) where
  abbrev pub decoded : Option Bytes → Option Bytes
  decoded none = none
  decoded (some v) = some (percent_decode (map plus_decoded v))

  abbrev pub k_name : Bytes
  k_name = b'k' ∷ []

  find_key_first :
      (n v : Bytes) (pairs : List Bytes)
      → Lacks b'=' n
      → find_key percent_decode ((n ++ b'=' ∷ v) ∷ pairs)
        ≡ (if bytes_eq n k_name then decoded (some v) else find_key percent_decode pairs)
  unfolding find_key
  find_key_first n v pairs h = rw (split_once-append n v h)

  decoded-if :
      (b : Bool) (v : Bytes) (later : Option Bytes) (r : Option Bytes)
      → r ≡ decoded later
      → (if b then decoded (some v) else r) ≡ decoded (if b then some v else later)
  decoded-if true v later r e = refl
  decoded-if false v later r e = e

  -- The key is the decoded value of the first parameter named `k`, wherever it stands and whatever
  -- the other parameters are, and there is none exactly if no parameter has that name.
  pub key_from_query-query_string :
      (ps : List (Bytes × Bytes))
      → AreParams ps
      → key_from_query percent_decode (some (query_string ps)) ≡ decoded (lookup k_name ps)
  unfolding key_from_query bytes_eq
  key_from_query-query_string [] h = refl
  key_from_query-query_string ((n, v) ∷ []) (eq, an, av, h) =
      ap (find_key percent_decode) (split_lem (n ++ b'=' ∷ v) (pair-Lacks n v an av))
      ∙ find_key_first n v [] eq
      ∙ decoded-if (bytes_eq n k_name) v none (find_key percent_decode []) (unfold find_key in refl)
  key_from_query-query_string ((n, v) ∷ p ∷ ps) (eq, an, av, h) =
      ap (find_key percent_decode)
        (split-append (n ++ b'=' ∷ v) (query_string (p ∷ ps)) (pair-Lacks n v an av))
      ∙ find_key_first n v (split b'&' (query_string (p ∷ ps))) eq
      ∙ decoded-if (bytes_eq n k_name) v (lookup k_name (p ∷ ps)) _
          (key_from_query-query_string (p ∷ ps) h)

plus_decoded_id : (w : Bytes) → Lacks b'+' w → map plus_decoded w ≡ w
unfolding plus_decoded
plus_decoded_id [] h = refl
plus_decoded_id (c ∷ w) (ne, h) = rw (ne, plus_decoded_id w h)

-- Every key can be asked for: if a client writes it by an encoding that `percent_decode` undoes and
-- that leaves no `&` and no `+` behind, the query `k=…` gives the key back, the empty key and bytes
-- that are not UTF-8 included.
pub key_from_query-k :
    (percent_decode encode : Bytes → Bytes)
    → ((key : Bytes) → percent_decode (encode key) ≡ key)
    → ((key : Bytes) → Lacks b'&' (encode key) × Lacks b'+' (encode key))
    → (key : Bytes) → key_from_query percent_decode (some (b'k' ∷ b'=' ∷ encode key)) ≡ some key
key_from_query-k percent_decode encode undo clean key =
    let (amp, plus) = clean key in
    key_from_query-query_string percent_decode ((b'k' ∷ [], encode key) ∷ [])
      ((refl, tt), (refl, tt), amp, tt)
    ∙ unfold bytes_eq in
      ap (λ w. some (percent_decode w)) (plus_decoded_id (encode key) plus) ∙ ap some (undo key)
