-- ===== src/Tests/Memory.antt =====
-- A file system in memory, with all files in one directory.
use justkv.Common.{
  IsByte, All, ltb, ◌&&◌, ◌+◌, ◌%◌, ◌≡◌, ◌≢◌, ◌⊎◌, inl, inr, refl, sym, ap, ◌∙◌, Bool, true, false,
  ◌&&◌, not, Option, none, some, [], ◌∷◌, ◌++◌, Bytes, codes, bytes_eq, bytes_eq_sound,
  bytes_eq_refl, Result, ok, err, arith, ◌==◌, if◌then◌else◌, Bool-cases,
}
use justkv.FileSystem.{FileSystem, Paths, HasNoSlash, Opened, opened, already_exists, failed}
use justkv.Config.{BuildArgs, ParseArgs}

abbrev pub Files : Type 0
Files = Bytes → Option Bytes

abbrev pub update : Files → Bytes → Option Bytes → Files
update w p v = λ q. if bytes_eq q p then v else w q

pub update_same : (w : Files) (p : Bytes) (v : Option Bytes) → update w p v p ≡ v
update_same w p v = rw (bytes_eq_refl p)

pub update_else :
    (w : Files) (p : Bytes) (v : Option Bytes) (q : Bytes) → q ≢ p → update w p v q ≡ w q
update_else w p v q ne = elim (Bool-cases (bytes_eq q p)) [
  | inl h ↦ absurd (ne (bytes_eq_sound q p h))
  | inr h ↦ rw h
]

abbrev are_bytes : Bytes → Bool
are_bytes [] = true
are_bytes (b ∷ bs) = ltb b 256 && are_bytes bs

are_bytes-IsByte : (b : Bytes) → are_bytes b ≡ true → All IsByte b
are_bytes-IsByte [] h = tt
are_bytes-IsByte (b ∷ bs) h = (ground arith, are_bytes-IsByte bs (ground arith))

-- a file with an item that is no byte cannot be read
abbrev read_bytes_of : Bytes → Bool → Result Bytes Bytes
read_bytes_of b true = ok b
read_bytes_of b false = err (codes "no bytes")

abbrev pub read_of : Option Bytes → Result Bytes Bytes
read_of none = err (codes "no such file")
read_of (some b) = read_bytes_of b (are_bytes b)

abbrev pub create_of : Files → Bytes → Option Bytes → Opened × Files
create_of w p none = (opened, update w p (some []))
create_of w p (some b) = (already_exists, w)

read_bytes_of-ok : (a b : Bytes) (t : Bool) → read_bytes_of a t ≡ ok b → (a ≡ b) × (t ≡ true)
read_bytes_of-ok a b true e = (cc, refl)
read_bytes_of-ok a b false e = absurd (cc)

pub read_of-ok : (o : Option Bytes) (b : Bytes) → read_of o ≡ ok b → (o ≡ some b) × All IsByte b
read_of-ok none b e = absurd (cc)
read_of-ok (some a) b e =
    let (is, whole) = read_bytes_of-ok a b (are_bytes a) e in
    (ap some is, are_bytes-IsByte b (ap are_bytes (sym is) ∙ whole))

read_bytes_of_cases :
    (b : Bytes) (t : Bool)
    → ((c : Bytes) × (read_bytes_of b t ≡ ok c)) ⊎ ((e : Bytes) × (read_bytes_of b t ≡ err e))
read_bytes_of_cases b true = inl (b, refl)
read_bytes_of_cases b false = inr (_, refl)

pub read_of_cases :
    (o : Option Bytes) → ((b : Bytes) × (read_of o ≡ ok b)) ⊎ ((e : Bytes) × (read_of o ≡ err e))
read_of_cases none = inr (_, refl)
read_of_cases (some b) = read_bytes_of_cases b (are_bytes b)

pub at : {f g : Files} → f ≡ g → (q : Bytes) → g q ≡ f q
at e q = sym (ap (λ k. k q) e)

pub create_of-opened :
    (w : Files) (p : Bytes) (o : Option Bytes) (w' : Files)
    → w p ≡ o
    → create_of w p o ≡ (opened, w')
    → (w p ≡ none) × (w' p ≡ some []) × ((q : Bytes) → q ≢ p → w' q ≡ w q)
create_of-opened w p none w' is e =
    let same = at (ap (λ r. r.1) e) in
    (is, same p ∙ update_same w p (some []), λ q ne. same q ∙ update_else w p (some []) q ne)
create_of-opened w p (some b) w' is e =
    let no : already_exists ≡ opened = ap (λ r. r.0) e in absurd (cc)

pub create_of_exists :
    (w : Files) (p : Bytes) (o : Option Bytes) (w' : Files)
    → create_of w p o ≡ (already_exists, w')
    → (q : Bytes) → w' q ≡ w q
create_of_exists w p none w' e q = let no : opened ≡ already_exists = ap (λ r. r.0) e in absurd (cc)
create_of_exists w p (some b) w' e q = at (ap (λ r. r.1) e) q

pub create_of_failed :
    (w : Files) (p m : Bytes) (o : Option Bytes) (w' : Files)
    → create_of w p o ≡ (failed m, w')
    → (q : Bytes) → w' q ≡ w q
create_of_failed w p m none w' e q = let no : opened ≡ failed m = ap (λ r. r.0) e in absurd (cc)
create_of_failed w p m (some b) w' e q =
    let no : already_exists ≡ failed m = ap (λ r. r.0) e in absurd (cc)

pub not_failed : {m : Bytes} → none ≡ some m → ⊥
not_failed e = absurd (cc)

abbrev pub memory : FileSystem
memory = record {
  World = Files;
  contents = λ w p. w p;
  read = λ w p. read_of (w p);
  create_new = λ w p. create_of w p (w p);
  write_all = λ w p b. (none, update w p (some b));
  remove_file = λ w p. update w p none;
  rename = λ w p out. (none, update (update w out (w p)) p none);
  read_ok = λ w p b e. (read_of-ok (w p) b e).0;
  read_bytes = λ w p b e. (read_of-ok (w p) b e).1;
  read_returns = λ w p. read_of_cases (w p);
  create_new_opened = λ w p w' e. create_of-opened w p (w p) w' refl e;
  create_new_exists = λ w p w' e. create_of_exists w p (w p) w' e;
  create_new_failed = λ w p m w' e. create_of_failed w p m (w p) w' e;
  write_all_ok = λ w p b w' empty e. at (ap (λ r. r.1) e) p ∙ update_same w p (some b);
  write_all_else = λ w p b m w' e q ne. at (ap (λ r. r.1) e) q ∙ update_else w p (some b) q ne;
  remove_file_else = λ w p q ne. update_else w p none q ne;
  rename_ok = λ w p out w' ne e.
      let same = at (ap (λ r. r.1) e) in
      let moved = update w out (w p) in
      (
        same out ∙ update_else moved p none out (λ k. ne (sym k)) ∙ update_same w out (w p),
        same p ∙ update_same moved p none,
        λ q np no. same q ∙ update_else moved p none q np ∙ update_else w out (w p) q no,
      );
  rename_failed = λ w p out m w' e. absurd (not_failed (ap (λ r. r.0) e));
}

abbrev pub without_slash : Bytes → Bool
without_slash [] = true
without_slash (b ∷ bs) = not (b == 47) && without_slash bs

pub plain_name : (b : Bytes) → HasNoSlash b → without_slash b ≡ true
plain_name [] h = refl
plain_name (b ∷ bs) (ne, h) = rw (plain_name bs h) (ground arith)

pub name_plain : (b : Bytes) → without_slash b ≡ true → HasNoSlash b
name_plain [] h = tt
name_plain (b ∷ bs) h = ((λ e. absurd (ground (arith, e))), name_plain bs (ground arith))

abbrev pub name_of : Bytes → Bool → Option Bytes
name_of p b = if b then some p else none

pub name_of_plain :
    (p name : Bytes) (b : Bool) → without_slash p ≡ b → name_of p b ≡ some name → HasNoSlash name
name_of_plain p name false is e = absurd (cc)
name_of_plain p name true is e =
    let same : p ≡ name = cc in name_plain name (ap without_slash (sym same) ∙ is)

abbrev pub one_directory : Paths
one_directory = record {
  parent = λ p. none;
  file_name = λ p. name_of p (without_slash p);
  extension = λ p. none;
  join = λ dir name. name;
  to_string_lossy = λ b. b;
  show_u32 = λ n. (48 + n % 10) ∷ [];
  file_name_join = λ dir name plain long. rw (plain_name name plain);
  file_name-HasNoSlash = λ p name e. name_of_plain p name (without_slash p) refl e;
  to_string_lossy_le = λ b. omega arith;
  to_string_lossy-HasNoSlash = λ b h. h;
  show_u32-HasNoSlash = λ n. ((λ e. absurd (omega (arith, e))), tt);
}

-- `s` holds a,1 / b,2, and `x` something else
abbrev pub directory : Files
directory =
    update (update (λ q. none) (codes "s") (some (codes "a,1" ++ 10 ∷ codes "b,2" ++ 10 ∷ [])))
      (codes "x") (some (codes "kept"))

abbrev pub plain_args : ParseArgs
plain_args = record { delimiter = none; header = false; allow_binary = false }

abbrev pub build_args : BuildArgs
build_args = record { path = codes "s"; out = codes "o"; parse = plain_args }
