-- ===== src/Cli/Serve/Ready.antt =====
-- src/main.rs, `cmd_serve`: the state that a load whose flags say what a build allowed makes.
use justkv.Common.{◌≡◌, refl, ap, ◌∙◌, Bool, true, false, Option, none, some, Bytes, codes, ok}
use justkv.HashTable.{HashTable}
use justkv.Store.{len}
use justkv.Store.Load.{Loaded, binary_flag}
use justkv.Config.{ServeArgs}
use justkv.Server.{AppState}
use justkv.Cli.Serve.{is_binary, content_type_or, with_header, app_state, after_load, ready}

is_binary-binary_flag : (b : Bool) → is_binary (binary_flag b) ≡ b
unfolding is_binary binary_flag
is_binary-binary_flag true = refl
is_binary-binary_flag false = refl

-- the content type of the answers: the one given, or the one that fits what a build allowed
abbrev pub expected_type : Option Bytes → Bool → Bytes
expected_type (some given) allow_binary = given
expected_type none true = codes "application/octet-stream"
expected_type none false = codes "text/plain; charset=utf-8"

pub content_type_or-expected_type :
    (given : Option Bytes) (b : Bool) → content_type_or given b ≡ expected_type given b
content_type_or-expected_type (some given) b = refl
content_type_or-expected_type none true = refl
content_type_or-expected_type none false = refl

module _ (h : HashTable) (is_header_value : Bytes → Bool) (display : Bytes → Bytes) where
  pub after_load-ready :
      (sargs : ServeArgs) (b : Bool) (l : Loaded h)
      → l.flags ≡ binary_flag b
      → is_header_value (expected_type sargs.content_type b) ≡ true
      → (s : AppState h) × (after_load h is_header_value display sargs (ok l) ≡ ok (ready s))
        × (s.store ≡ l.store)
        × (s.keys ≡ len h l.store)
        × (s.content_type ≡ expected_type sargs.content_type b)
        × (s.default_value ≡ sargs.default_value)
  unfolding after_load app_state
  after_load-ready sargs b l flags valid =
      let binary : is_binary l.flags ≡ b = ap is_binary flags ∙ is_binary-binary_flag b in
      let kind : content_type_or sargs.content_type (is_binary l.flags)
          ≡ expected_type sargs.content_type b =
        ap (content_type_or sargs.content_type) binary
        ∙ content_type_or-expected_type sargs.content_type b in
      let good : is_header_value (content_type_or sargs.content_type (is_binary l.flags)) ≡ true =
        ap is_header_value kind ∙ valid in
      (
        _,
        ap
            (λ k. ok (
              with_header h is_header_value display sargs
                (content_type_or sargs.content_type (is_binary l.flags)) k l))
            good,
        refl,
        refl,
        kind,
        refl,
      )
