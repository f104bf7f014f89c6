-- ===== src/Cli/Replace.antt =====
-- src/main.rs, `cmd_build` from the scratch file on: the output is replaced whole or not at all.
use justkv.Common.{
  ℕ, ◌≡◌, ◌≢◌, ◌⊎◌, inl, inr, refl, sym, ap, ◌∙◌, Option, none, some, [], Bytes, Bool-cases,
  bytes_eq, bytes_eq_sound, bytes_eq_refl,
}
use justkv.FileSystem.{FileSystem, Paths}
use justkv.Cli.{exit_io, finalize, after_write, write_output, create_scratch_file}
use justkv.Cli.Scratch.{Scratch, create_scratch_file-Scratch}

same_path : (p q : Bytes) → (p ≡ q) ⊎ (p ≢ q)
same_path p q = elim (Bool-cases (bytes_eq p q)) [
  | inl h ↦ inl (bytes_eq_sound p q h)
  | inr h ↦ inr λ e. absurd (cc (ap (bytes_eq p) e, bytes_eq_refl p))
]

module _ (fs : FileSystem) (paths : Paths) (pid : ℕ) (nanos : ℕ → ℕ) where
  open fs use {World, contents, write_all, remove_file, rename}

  -- `out` holds `file` and nothing else changed, or the exit code is that of an I/O error, `out` is as
  -- it was, and so is every other file that existed.
  pub record Replaced (w : World) (out file : Bytes) (code : ℕ) (w' : World) : Type 0 where
    pub codes_are : (code ≡ 0) ⊎ (code ≡ exit_io)
    pub written : code ≡ 0 → contents w' out ≡ some file
    pub only : code ≡ 0 → (q : Bytes) → q ≢ out → contents w' q ≡ contents w q
    pub untouched : code ≢ 0 → contents w' out ≡ contents w out
    pub kept : (q b : Bytes) → q ≢ out → contents w q ≡ some b → contents w' q ≡ some b

  abbrev AllBut : World → Bytes → World → Type 0
  AllBut w tmp w' = (q : Bytes) → q ≢ tmp → contents w' q ≡ contents w q

  given_up :
      (w w' : World) (out file tmp : Bytes)
      → tmp ≢ out
      → contents w tmp ≡ none
      → AllBut w tmp w'
      → Replaced w out file exit_io w'
  given_up w w' out file tmp ne absent others = record {
    codes_are = inr refl;
    written = λ h. absurd (cc);
    only = λ h. absurd (cc);
    untouched = λ h. others out (λ e. ne (sym e));
    kept = λ q b h here. others q (λ e. absurd (cc (ap (contents w) e))) ∙ here;
  }

  finalize-Replaced :
      (w w2 : World) (out file tmp : Bytes)
      → tmp ≢ out
      → contents w tmp ≡ none
      → AllBut w tmp w2
      → contents w2 tmp ≡ some file
      → (e : Option Bytes) (w3 : World) → rename w2 tmp out ≡ (e, w3)
      → let r = finalize fs paths pid nanos tmp out (e, w3) in Replaced w out file r.0 r.1
  unfolding finalize
  finalize-Replaced w w2 out file tmp ne absent others full (some e) w3 run =
      given_up w (remove_file w3 tmp) out file tmp ne absent
        λ q h. fs.remove_file_else w3 tmp q h ∙ fs.rename_failed w2 tmp out e w3 run q ∙ others q h
  finalize-Replaced w w2 out file tmp ne absent others full none w3 run =
      let (moved, gone, rest) = fs.rename_ok w2 tmp out w3 ne run in
      let only : (q : Bytes) → q ≢ out → contents w3 q ≡ contents w q = λ q h.
        elim (same_path q tmp) [
          | inl here ↦ ap (contents w3) here ∙ gone ∙ sym absent ∙ sym (ap (contents w) here)
          | inr away ↦ rest q away h ∙ others q away
        ] in
      record {
        codes_are = inl refl;
        written = λ h. moved ∙ full;
        only = λ h. only;
        untouched = λ h. absurd (h refl);
        kept = λ q b h here. only q h ∙ here;
      }

  after_write-Replaced :
      (w w1 : World) (out file tmp : Bytes)
      → tmp ≢ out
      → contents w tmp ≡ none
      → contents w1 tmp ≡ some []
      → AllBut w tmp w1
      → (e : Option Bytes) (w2 : World) → write_all w1 tmp file ≡ (e, w2)
      → let r = after_write fs paths pid nanos tmp out (e, w2) in Replaced w out file r.0 r.1
  unfolding after_write
  after_write-Replaced w w1 out file tmp ne absent empty others e w2 run =
      let others2 : AllBut w tmp w2 =
        λ q h. fs.write_all_else w1 tmp file e w2 run q h ∙ others q h in
      by_error e run others2
    where
      by_error :
          (e : Option Bytes)
          → write_all w1 tmp file ≡ (e, w2)
          → AllBut w tmp w2
          → let r = after_write fs paths pid nanos tmp out (e, w2) in Replaced w out file r.0 r.1
      by_error (some e) run others2 =
          given_up w (remove_file w2 tmp) out file tmp ne absent
            λ q h. fs.remove_file_else w2 tmp q h ∙ others2 q h
      by_error none run others2 =
          finalize-Replaced w w2 out file tmp ne absent others2
            (fs.write_all_ok w1 tmp file w2 empty run) _ _ refl

  write_output-Replaced :
      (w : World) (out file : Bytes) (r : (Bytes ⊎ Bytes) × World)
      → Scratch fs paths pid nanos w out r
      → let r' = write_output fs paths pid nanos out file r in Replaced w out file r'.0 r'.1
  unfolding write_output
  write_output-Replaced w out file (inl tmp, w1) (ne, absent, empty, others) =
      after_write-Replaced w w1 out file tmp ne absent empty others _ _ refl
  write_output-Replaced w out file (inr e, w1) same = record {
    codes_are = inr refl;
    written = λ h. absurd (cc);
    only = λ h. absurd (cc);
    untouched = λ h. same out;
    kept = λ q b h here. same q ∙ here;
  }

  pub create-write-Replaced :
      (w : World) (out file : Bytes)
      → let r =
          write_output fs paths pid nanos out file (create_scratch_file fs paths pid nanos w out) in
        Replaced w out file r.0 r.1
  create-write-Replaced w out file =
      write_output-Replaced w out file (create_scratch_file fs paths pid nanos w out)
        (create_scratch_file-Scratch fs paths pid nanos w out)
