-- ===== src/HashTable.antt =====
-- `hashbrown::HashTable` as its clients see it: a parameter of the model, with the documented
-- behaviour of the four calls that the program makes.
use justkv.Common.{ℕ, ◌≡◌, Bool, true, false, Option, none, some, List, [], ◌∷◌, get_elem?, length}

-- `Holds rehash t l` says that `t` stores exactly the values of `l`, the newest first, each under
-- the hash that `rehash` gives it. It is a specification: the program never evaluates it.
pub record HashTable : Type 1 where
  pub Table : Type 0 → Type 0
  pub new : {A : Type 0} → Table A
  pub insert_unique : {A : Type 0} → ℕ → A → (A → ℕ) → Table A → Table A
  pub find : {A : Type 0} → ℕ → (A → Bool) → Table A → Option A
  pub len : {A : Type 0} → Table A → ℕ
  pub Holds : {A : Type 0} → (A → ℕ) → Table A → List A → Type 0
  pub new_holds : {A : Type 0} (rehash : A → ℕ) → Holds rehash (new {A = A}) []
  -- the caller passes the hash of the value, and a `rehash` that agrees with it
  pub insert_unique_holds :
      {A : Type 0} (rehash : A → ℕ) (t : Table A) (l : List A) (h : ℕ) (a : A)
      → Holds rehash t l
      → h ≡ rehash a
      → Holds rehash (insert_unique h a rehash t) (a ∷ l)
  -- only the hashes of stored values matter
  pub holds_congr :
      {A : Type 0} (f g : A → ℕ) (t : Table A) (l : List A)
      → Holds f t l
      → ((i : ℕ) (a : A) → get_elem? l i ≡ some a → f a ≡ g a)
      → Holds g t l
  -- what is found is stored and passes the test
  pub find_some :
      {A : Type 0} (rehash : A → ℕ) (t : Table A) (l : List A) (h : ℕ) (eq : A → Bool) (a : A)
      → Holds rehash t l
      → find h eq t ≡ some a
      → (eq a ≡ true) × (i : ℕ) × (get_elem? l i ≡ some a)
  -- a stored value with this hash that passes the test is not missed
  pub find_none :
      {A : Type 0} (rehash : A → ℕ) (t : Table A) (l : List A) (h : ℕ) (eq : A → Bool)
      → Holds rehash t l
      → find h eq t ≡ none
      → (i : ℕ) (a : A) → get_elem? l i ≡ some a
      → rehash a ≡ h
      → eq a ≡ false
  pub len_holds :
      {A : Type 0} (rehash : A → ℕ) (t : Table A) (l : List A) → Holds rehash t l → len t ≡ length l
