-- ===== src/Cli/Scratch.antt =====
-- src/main.rs, `create_scratch_file`: a file that did not exist, never the output itself.
use justkv.Common.{
  ℕ, zero, suc, ◌+◌, ◌%◌, ◌<◌, ◌≡◌, ◌≢◌, ◌⊎◌, inl, inr, refl, sym, ap, ◌∙◌, Option, none, some, [],
  ◌++◌, Bytes, codes, u32_mod, length, length-append, All-append, arith,
}
use justkv.FileSystem.{FileSystem, Paths, HasNoSlash, Opened, opened, already_exists, failed}
use justkv.Cli.{scratch_name, stem_of, candidate, after_open, attempts, create_scratch_file}

length-scratch_name :
    (show : ℕ → Bytes) (stem : Bytes) (pid nonce : ℕ)
    → 2 + length stem < length (scratch_name show stem pid nonce)
length-scratch_name show stem pid nonce =
    rw
      (
        length-append stem (codes "." ++ (show pid ++ (codes "." ++ (show nonce ++ codes ".tmp")))),
        length-append (show pid) (codes "." ++ (show nonce ++ codes ".tmp")),
        length-append (show nonce) (codes ".tmp"),
      )
      (omega arith)

dot_no_slash : HasNoSlash (codes ".")
dot_no_slash = ((λ e. absurd (omega (arith, e))), tt)

not_slash : {c : ℕ} → c < 47 ⊎ 47 < c → c ≢ 47
not_slash (inl h) e = absurd (omega (arith, h, e))
not_slash (inr h) e = absurd (omega (arith, h, e))

above : {c : ℕ} → 47 < c → c ≢ 47
above h = not_slash (inr h)

tmp_no_slash : HasNoSlash (codes ".tmp")
tmp_no_slash = (
  not_slash (inl (omega arith)),
  (above (omega arith), (above (omega arith), (above (omega arith), tt))),
)

out_no_slash : HasNoSlash (codes "out")
out_no_slash = (above (omega arith), (above (omega arith), (above (omega arith), tt)))

join_no_slash : (a b : Bytes) → HasNoSlash a → HasNoSlash b → HasNoSlash (a ++ b)
join_no_slash a b = All-append (λ c. c ≢ 47) a b

module _ (fs : FileSystem) (paths : Paths) (pid : ℕ) (nanos : ℕ → ℕ) where
  open fs use {World, contents, create_new}
  open paths use {file_name, join, to_string_lossy, show_u32}

  stem_of-HasNoSlash :
      (name : Option Bytes)
      → ((n : Bytes) → name ≡ some n → HasNoSlash n)
      → HasNoSlash (stem_of to_string_lossy name)
  stem_of-HasNoSlash none h = out_no_slash
  stem_of-HasNoSlash (some n) h = paths.to_string_lossy-HasNoSlash n (h n refl)

  scratch_name-HasNoSlash :
      (stem : Bytes) (nonce : ℕ)
      → HasNoSlash stem
      → HasNoSlash (scratch_name show_u32 stem pid nonce)
  scratch_name-HasNoSlash stem nonce h = join_no_slash (codes ".") _ dot_no_slash (
      join_no_slash stem _ h (
        join_no_slash (codes ".") _ dot_no_slash (
          join_no_slash (show_u32 pid) _ (paths.show_u32-HasNoSlash pid) (
            join_no_slash (codes ".") _ dot_no_slash
              (join_no_slash (show_u32 nonce) _ (paths.show_u32-HasNoSlash nonce) tmp_no_slash)))))

  -- The name of a candidate is longer than that of the output.
  pub candidate-ne-out :
      (out : Bytes) (attempt : ℕ) → candidate fs paths pid nanos out attempt ≢ out
  unfolding candidate
  candidate-ne-out out attempt same =
      let stem = stem_of to_string_lossy (file_name out) in
      let nonce = (nanos attempt + attempt) % u32_mod in
      let name = scratch_name show_u32 stem pid nonce in
      let long = length-scratch_name show_u32 stem pid nonce in
      let named : file_name out ≡ some name =
        ap file_name (sym same)
        ∙ paths.file_name_join _ name
            (scratch_name-HasNoSlash stem nonce
              (stem_of-HasNoSlash (file_name out) (paths.file_name-HasNoSlash out)))
            (omega (arith, long)) in
      let lossy : stem ≡ to_string_lossy name = ap (stem_of to_string_lossy) named in
      absurd (omega (arith, long, ap length lossy, paths.to_string_lossy_le name))

  abbrev pub Same : World → World → Type 0
  Same w w' = (q : Bytes) → contents w' q ≡ contents w q

  -- a new, empty file beside the output, or none; all other files as they were
  abbrev pub Scratch : World → Bytes → (Bytes ⊎ Bytes) × World → Type 0
  Scratch w out (inl tmp, w') =
      (tmp ≢ out)
      × (contents w tmp ≡ none)
      × (contents w' tmp ≡ some [])
      × ((q : Bytes) → q ≢ tmp → contents w' q ≡ contents w q)
  Scratch w out (inr e, w') = Same w w'

  after_open-Scratch :
      (w0 w : World) (out tmp : Bytes) (o : Opened) (w1 : World)
      (next : World → (Bytes ⊎ Bytes) × World)
      → tmp ≢ out
      → Same w0 w
      → create_new w tmp ≡ (o, w1)
      → (Same w0 w1 → Scratch w0 out (next w1))
      → Scratch w0 out (after_open fs paths pid nanos tmp (o, w1) next)
  unfolding after_open
  after_open-Scratch w0 w out tmp opened w1 next ne same run more =
      let (before, now, others) = fs.create_new_opened w tmp w1 run in
      (ne, sym (same tmp) ∙ before, now, λ q h. others q h ∙ same q)
  after_open-Scratch w0 w out tmp already_exists w1 next ne same run more =
      more λ q. fs.create_new_exists w tmp w1 run q ∙ same q
  after_open-Scratch w0 w out tmp (failed e) w1 next ne same run more =
      λ q. fs.create_new_failed w tmp e w1 run q ∙ same q

  attempts-Scratch :
      (w0 w : World) (out : Bytes) (attempt left : ℕ)
      → Same w0 w
      → Scratch w0 out (attempts fs paths pid nanos w out attempt left)
  unfolding attempts
  attempts-Scratch w0 w out attempt zero same = same
  attempts-Scratch w0 w out attempt (suc left) same =
      after_open-Scratch w0 w out (candidate fs paths pid nanos out attempt) _ _ _
        (candidate-ne-out out attempt) same refl
        λ same'.
          attempts-Scratch w0 (create_new w (candidate fs paths pid nanos out attempt)).1 out
            (suc attempt) left same'

  pub create_scratch_file-Scratch :
      (w : World) (out : Bytes) → Scratch w out (create_scratch_file fs paths pid nanos w out)
  unfolding create_scratch_file
  create_scratch_file-Scratch w out = attempts-Scratch w w out 0 1000 (λ q. refl)
