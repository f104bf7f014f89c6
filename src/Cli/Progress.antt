-- ===== src/Cli/Progress.antt =====
-- src/main.rs, `cmd_build` where nothing stands in its way: it finishes and exits with 0.
use justkv.Common.{
  ℕ, zero, suc, ◌+◌, ◌≤◌, ◌<◌, ◌≡◌, ◌≢◌, ◌⊎◌, inl, inr, refl, ap, ◌∙◌, Bool, Option, none, some,
  List, Bytes, ok, arith, Option-cases,
}
use justkv.HashTable.{HashTable}
use justkv.FileSystem.{FileSystem, Paths, Opened, opened, already_exists}
use justkv.Store.{Entry}
use justkv.Store.Compiled.{write_compiled}
use justkv.Store.CsvLoader.{Reads, parse_csv}
use justkv.Store.Load.{binary_flag}
use justkv.Config.{load_options, BuildArgs}
use justkv.Cli.{
  exit_ok, candidate, after_open, attempts, create_scratch_file, finalize, after_write,
  write_output, cmd_build,
}
use justkv.Cli.Scratch.{Same}

-- No call fails but for the name: the disk has room, and the directory can be written.
pub record Works (fs : FileSystem) : Type 0 where
  pub creates : (w : fs.World) (p : Bytes) → fs.contents w p ≡ none → (fs.create_new w p).0 ≡ opened
  pub occupied :
      (w : fs.World) (p b : Bytes)
      → fs.contents w p ≡ some b
      → (fs.create_new w p).0 ≡ already_exists
  pub writes : (w : fs.World) (p b : Bytes) → (fs.write_all w p b).0 ≡ none
  pub renames : (w : fs.World) (p out : Bytes) → (fs.rename w p out).0 ≡ none

module _ (fs : FileSystem) (paths : Paths) (pid : ℕ) (nanos : ℕ → ℕ) (works : Works fs) where
  open fs use {World, contents, create_new, write_all, rename}

  Found : (Bytes ⊎ Bytes) × World → Type 0
  Found r = (tmp : Bytes) × (w' : World) × (r ≡ (inl tmp, w'))

  after_open-opened :
      (tmp : Bytes) (o : Opened) (w1 : World) (next : World → (Bytes ⊎ Bytes) × World)
      → o ≡ opened
      → Found (after_open fs paths pid nanos tmp (o, w1) next)
  unfolding after_open Found
  after_open-opened tmp o w1 next is = (tmp, w1, rw is)

  after_open-already_exists :
      (tmp : Bytes) (o : Opened) (w1 : World) (next : World → (Bytes ⊎ Bytes) × World)
      → o ≡ already_exists
      → Found (next w1)
      → Found (after_open fs paths pid nanos tmp (o, w1) next)
  unfolding after_open
  after_open-already_exists tmp o w1 next is found = rw is found

  -- the loop reaches attempt `a` or stops before with a file
  attempts-Found :
      (w0 w : World) (out : Bytes) (attempt left a : ℕ)
      → Same fs paths pid nanos w0 w
      → attempt ≤ a
      → a < attempt + left
      → contents w0 (candidate fs paths pid nanos out a) ≡ none
      → Found (attempts fs paths pid nanos w out attempt left)
  unfolding attempts
  attempts-Found w0 w out attempt zero a same low high free = absurd (omega arith)
  attempts-Found w0 w out attempt (suc left) a same low high free =
      let c = candidate fs paths pid nanos out attempt in
      let w1 = (create_new w c).1 in
      elim (Option-cases (contents w c)) [
        | inl absent ↦ after_open-opened c _ w1 _ (works.creates w c absent)
        | inr (b, here) ↦
            let taken = works.occupied w c b here in
            let same1 : Same fs paths pid nanos w0 w1 =
              λ q. fs.create_new_exists w c w1 (ap (λ (o : Opened). (o, w1)) taken) q ∙ same q in
            let other : attempt ≢ a = λ e.
              let named = ap (λ k. contents w0 (candidate fs paths pid nanos out k)) e in
              absurd (cc (named, same c)) in
            after_open-already_exists c _ w1 _ taken
              (attempts-Found w0 w1 out (suc attempt) left a same1 (omega arith) (omega arith) free)
      ]

  finalize-exit_ok :
      (tmp out : Bytes) (e : Option Bytes) (w : World)
      → e ≡ none
      → finalize fs paths pid nanos tmp out (e, w) ≡ (exit_ok, w)
  unfolding finalize
  finalize-exit_ok tmp out e w is = rw is

  after_write-exit_ok :
      (tmp out : Bytes) (e : Option Bytes) (w : World)
      → e ≡ none
      → (w' : World) × (after_write fs paths pid nanos tmp out (e, w) ≡ (exit_ok, w'))
  unfolding after_write
  after_write-exit_ok tmp out e w is =
      rw is (_, finalize-exit_ok tmp out _ (rename w tmp out).1 (works.renames w tmp out))

  write_output-exit_ok :
      (out file : Bytes) (r : (Bytes ⊎ Bytes) × World)
      → Found r
      → (w' : World) × (write_output fs paths pid nanos out file r ≡ (exit_ok, w'))
  unfolding write_output Found
  write_output-exit_ok out file r (tmp, w1, is) =
      rw is (after_write-exit_ok tmp out _ (write_all w1 tmp file).1 (works.writes w1 tmp file))

  -- If no call of the file system fails, `build` of data that can be read and that parse finishes
  -- with exit code 0 as soon as one of the 1000 scratch names that it may come to is free.
  pub cmd_build-finishes :
      (h : HashTable) (csv_hash : Bytes → ℕ) (utf8 : Bytes → Bool) (lossy : Bytes → Bytes)
      (read_records : ℕ → Bool → Bytes → Reads) (w : World) (args : BuildArgs)
      (source arena : Bytes) (es : List Entry) (attempt : ℕ)
      → fs.read w args.path ≡ ok source
      → parse_csv h csv_hash utf8 lossy
          (load_options args.parse (paths.extension args.path))
          read_records
          source
        ≡ ok (arena, es)
      → attempt < 1000
      → contents w (candidate fs paths pid nanos args.out attempt) ≡ none
      → (w' : World) × (cmd_build fs paths pid nanos h csv_hash utf8 lossy read_records w args
          ≡ ok (exit_ok, w'))
  unfolding cmd_build create_scratch_file
  cmd_build-finishes h csv_hash utf8 lossy read_records w args source arena es attempt here parses
        low free =
      let file = write_compiled arena es (binary_flag args.parse.allow_binary) in
      let found =
        attempts-Found w w args.out 0 1000 attempt (λ q. refl) (omega arith) (omega arith) free in
      let (w', done) = write_output-exit_ok args.out file _ found in
      (w', rw here (rw parses (ap ok done)))
