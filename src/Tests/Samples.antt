-- ===== src/Tests/Samples.antt =====
-- A hash table that meets the documented behaviour, a reader of plain CSV, and sample data.
use justkv.Common.{
  ℕ, zero, suc, ◌≡◌, refl, ap, ◌∙◌, sym, inl, inr, Bool, true, false, ◌&&◌, Option, none, some,
  List, [], ◌∷◌, Bytes, length, get_elem?, arith, ◌==◌, if◌then◌else◌, Bool-cases,
}
use justkv.HashTable.{HashTable}
use justkv.Store.CsvLoader.{Reads, eof, row}
use justkv.Server.Query.{split}

module _ {A : Type 0} where
  abbrev pub find_in : ℕ → (A → Bool) → List (ℕ × A) → Option A
  find_in h eq [] = none
  find_in h eq ((k, a) ∷ t) = if k == h && eq a then some a else find_in h eq t

  abbrev pub hashed : (A → ℕ) → List A → List (ℕ × A)
  hashed f [] = []
  hashed f (a ∷ l) = (f a, a) ∷ hashed f l

  pub hashed_congr :
      (f g : A → ℕ) (l : List A)
      → ((i : ℕ) (a : A) → get_elem? l i ≡ some a → f a ≡ g a)
      → hashed f l ≡ hashed g l
  hashed_congr f g [] h = refl
  hashed_congr f g (a ∷ l) h = rw (h 0 a refl, hashed_congr f g l (λ i. h (suc i)))

  pub find_in-some :
      (f : A → ℕ) (l : List A) (h : ℕ) (eq : A → Bool) (a : A)
      → find_in h eq (hashed f l) ≡ some a
      → (eq a ≡ true) × (i : ℕ) × (get_elem? l i ≡ some a)
  find_in-some f [] h eq a e = absurd (cc)
  find_in-some f (x ∷ l) h eq a e = elim (Bool-cases (f x == h && eq x)) [
    | inl here ↦
        let same : x ≡ a = cc (rw here at e) in
        let passes : eq x ≡ true = ground arith in (ap eq (sym same) ∙ passes, 0, ap some same)
    | inr later ↦
        let (passes, i, at) = find_in-some f l h eq a (rw later at e) in (passes, suc i, at)
  ]

  pub find_in-none :
      (f : A → ℕ) (l : List A) (h : ℕ) (eq : A → Bool)
      → find_in h eq (hashed f l) ≡ none
      → (i : ℕ) (a : A) → get_elem? l i ≡ some a
      → f a ≡ h
      → eq a ≡ false
  find_in-none f [] h eq e i a at same = absurd (cc)
  find_in-none f (x ∷ l) h eq e zero a at same =
      let first : x ≡ a = cc in
      let hash : f x ≡ h = ap f first ∙ same in let test : eq x ≡ eq a = ap eq first in ground arith
  find_in-none f (x ∷ l) h eq e (suc i) a at same = elim (Bool-cases (f x == h && eq x)) [
    | inl here ↦ absurd (cc (rw here at e))
    | inr later ↦ find_in-none f l h eq (rw later at e) i a at same
  ]

  pub length-hashed : (f : A → ℕ) (l : List A) → length (hashed f l) ≡ length l
  length-hashed f [] = refl
  length-hashed f (a ∷ l) = ap suc (length-hashed f l)

-- a list of hashed values
abbrev pub list_table : HashTable
list_table = record {
  Table = λ A. List (ℕ × A);
  new = [];
  insert_unique = λ h a rehash t. (h, a) ∷ t;
  find = λ h eq t. find_in h eq t;
  len = λ t. length t;
  Holds = λ rehash t l. t ≡ hashed rehash l;
  new_holds = λ rehash. refl;
  insert_unique_holds = λ rehash t l h a holds same. rw (holds, same);
  holds_congr = λ f g t l holds same. holds ∙ hashed_congr f g l same;
  find_some = λ rehash t l h eq a holds found. find_in-some rehash l h eq a (rw holds at found);
  find_none = λ rehash t l h eq holds missed. find_in-none rehash l h eq (rw holds at missed);
  len_holds = λ rehash t l holds. rw holds (length-hashed rehash l);
}

-- some hash with collisions
abbrev pub weak_hash : Bytes → ℕ
weak_hash [] = 0
weak_hash (b ∷ bs) = b

-- lines and fields, without quoting; a last line without a newline is dropped
abbrev pub rows_of : ℕ → ℕ → List Bytes → Reads
rows_of delimiter n [] = eof
rows_of delimiter n (l ∷ []) = eof
rows_of delimiter n (l ∷ m ∷ ls) =
    row (record { fields = split delimiter l; position = some n })
      (rows_of delimiter (suc n) (m ∷ ls))

abbrev pub plain_reader : ℕ → Bool → Bytes → Reads
plain_reader delimiter has_header file = rows_of delimiter 1 (split 10 file)

-- every value is taken for UTF-8 but those with the byte 255
abbrev pub no_ff : Bytes → Bool
no_ff [] = true
no_ff (b ∷ bs) = if b == 255 then false else no_ff bs

abbrev pub same_bytes : Bytes → Bytes
same_bytes b = b
