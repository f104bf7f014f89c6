-- ===== src/Bench.antt =====
-- bench/gen.rs: the generator of synthetic datasets. How numbers are written, `str::parse::<usize>`
-- and the arguments are parameters; Main has the file that it writes.
pub mod Seeds
pub mod Accepted
pub mod Check
pub mod Main
use Prim.Native.Nat.{◌/◌, bit_xor}
use justkv.Common.{
  ℕ, zero, suc, ◌*◌, ◌%◌, ◌^◌, Option, none, some, List, [], ◌∷◌, ◌++◌, Bytes, codes, get_elem?,
  u64_mod,
}

abbrev pub first_seed : ℕ
first_seed = 0x9E3779B97F4A7C15

-- the three lines that change `seed`, a `u64`: a shift to the left drops the bits above it
unfoldable pub next_seed : ℕ → ℕ
next_seed seed =
    let a = bit_xor seed (seed * 2 ^ 13 % u64_mod) in
    let b = bit_xor a (a / 2 ^ 7) in bit_xor b (b * 2 ^ 17 % u64_mod)

abbrev or_default {ℓ} : {A : Type ℓ} → Option A → A → A
or_default none d = d
or_default (some a) d = a

abbrev parsed : (Bytes → Option ℕ) → Option Bytes → Option ℕ
parsed parse none = none
parsed parse (some s) = parse s

-- `args.get(1)`, where it parses, and `args.get(2)`
unfoldable pub row_count : (Bytes → Option ℕ) → List Bytes → ℕ
row_count parse args = or_default (parsed parse (get_elem? args 1)) 1_000_000

unfoldable pub out_path : List Bytes → Bytes
out_path args = or_default (get_elem? args 2) (codes "bench/kv.tsv")

-- `show` is `{}` of a number, and `hex` is `{:016x}`.
module _ (show hex : ℕ → Bytes) where
  abbrev pub row_key : ℕ → Bytes
  row_key i = codes "key" ++ show i

  abbrev pub row_value : ℕ → ℕ → Bytes
  row_value i seed = codes "value-" ++ (show i ++ (codes "-" ++ hex seed))

  -- `writeln!(w, "key{i}\tvalue-{i}-{seed:016x}")`
  unfoldable pub row_line : ℕ → ℕ → Bytes → Bytes
  row_line i seed rest = row_key i ++ 9 ∷ (row_value i seed ++ 10 ∷ rest)

  -- `for i in 0..rows`, with the rows left: what is written to the file
  unfoldable pub rows_from : ℕ → ℕ → ℕ → Bytes
  unfolding row_line
  rows_from zero i seed = []
  rows_from (suc left) i seed =
      row_line i (next_seed seed) (rows_from left (suc i) (next_seed seed))

  unfoldable pub generate : ℕ → Bytes
  unfolding rows_from
  generate rows = rows_from rows 0 first_seed
