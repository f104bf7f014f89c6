-- ===== src/FileSystem.antt =====
-- The calls of `std::fs` and `std::path` that src/main.rs makes: a parameter of the model, with their
-- documented behaviour. A path names one file, so two of them do not reach the same file by a link,
-- and no other process writes while the program runs.
use justkv.Common.{
  IsByte, ℕ, ◌≡◌, ◌≢◌, ◌≤◌, ◌<◌, All, Option, none, some, [], Bytes, length, Result, ok, err, ◌⊎◌,
}

-- what `create_new(true).open` gives: a file, `ErrorKind::AlreadyExists`, or another error
pub data Opened : Type 0 where
  opened already_exists : Opened
  failed : Bytes → Opened

-- An error is its message. `contents` is a specification: the program never evaluates it.
pub record FileSystem : Type 1 where
  pub World : Type 0
  pub contents : World → Bytes → Option Bytes
  pub read : World → Bytes → Result Bytes Bytes
  pub create_new : World → Bytes → Opened × World
  -- all writes to a file that was just created, with the flush: the first error
  pub write_all : World → Bytes → Bytes → Option Bytes × World
  -- its result is ignored
  pub remove_file : World → Bytes → World
  pub rename : World → Bytes → Bytes → Option Bytes × World
  pub read_ok : (w : World) (p b : Bytes) → read w p ≡ ok b → contents w p ≡ some b
  pub read_bytes : (w : World) (p b : Bytes) → read w p ≡ ok b → All IsByte b
  -- it returns, and does not panic
  pub read_returns :
      (w : World) (p : Bytes)
      → ((b : Bytes) × (read w p ≡ ok b)) ⊎ ((e : Bytes) × (read w p ≡ err e))
  pub create_new_opened :
      (w : World) (p : Bytes) (w' : World)
      → create_new w p ≡ (opened, w')
      → (contents w p ≡ none)
        × (contents w' p ≡ some [])
        × ((q : Bytes) → q ≢ p → contents w' q ≡ contents w q)
  pub create_new_exists :
      (w : World) (p : Bytes) (w' : World)
      → create_new w p ≡ (already_exists, w')
      → (q : Bytes) → contents w' q ≡ contents w q
  pub create_new_failed :
      (w : World) (p e : Bytes) (w' : World)
      → create_new w p ≡ (failed e, w')
      → (q : Bytes) → contents w' q ≡ contents w q
  pub write_all_ok :
      (w : World) (p b : Bytes) (w' : World)
      → contents w p ≡ some []
      → write_all w p b ≡ (none, w')
      → contents w' p ≡ some b
  pub write_all_else :
      (w : World) (p b : Bytes) (e : Option Bytes) (w' : World)
      → write_all w p b ≡ (e, w')
      → (q : Bytes) → q ≢ p
      → contents w' q ≡ contents w q
  pub remove_file_else :
      (w : World) (p q : Bytes) → q ≢ p → contents (remove_file w p) q ≡ contents w q
  pub rename_ok :
      (w : World) (p out : Bytes) (w' : World)
      → p ≢ out
      → rename w p out ≡ (none, w')
      → (contents w' out ≡ contents w p)
        × (contents w' p ≡ none)
        × ((q : Bytes) → q ≢ p → q ≢ out → contents w' q ≡ contents w q)
  pub rename_failed :
      (w : World) (p out e : Bytes) (w' : World)
      → rename w p out ≡ (some e, w')
      → (q : Bytes) → contents w' q ≡ contents w q

-- `/` is not in it
abbrev pub HasNoSlash : Bytes → Type 0
HasNoSlash name = All (λ c. c ≢ 47) name

-- `Path::parent`, `Path::file_name` as its bytes, `Path::extension` and `Path::join`,
-- `OsStr::to_string_lossy`, and the decimal digits of a `u32`.
pub record Paths : Type 0 where
  pub parent : Bytes → Option Bytes
  pub file_name : Bytes → Option Bytes
  pub extension : Bytes → Option Bytes
  pub join : Bytes → Bytes → Bytes
  pub to_string_lossy : Bytes → Bytes
  pub show_u32 : ℕ → Bytes
  -- a name without separators that is not empty, `.` or `..` is the last component where it is joined
  pub file_name_join :
      (dir name : Bytes) → HasNoSlash name → 2 < length name → file_name (join dir name) ≡ some name
  pub file_name-HasNoSlash : (p name : Bytes) → file_name p ≡ some name → HasNoSlash name
  -- Each invalid sequence, of at most three bytes, becomes the three bytes of U+FFFD.
  pub to_string_lossy_le : (b : Bytes) → length b ≤ length (to_string_lossy b)
  pub to_string_lossy-HasNoSlash : (b : Bytes) → HasNoSlash b → HasNoSlash (to_string_lossy b)
  pub show_u32-HasNoSlash : (n : ℕ) → HasNoSlash (show_u32 n)
