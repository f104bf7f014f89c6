-- ===== src/Cli/Healthcheck/Target.antt =====
-- src/main.rs: the destination that a bind address is rewritten to.
use justkv.Common.{
  ℕ, ◌≡◌, refl, ap, ◌∙◌, inl, inr, Bool, true, false, not, ◌&&◌, [], ◌∷◌, ◌++◌, Bytes, codes, Lacks,
  All-append, ◌==◌, arith,
}
use justkv.Common.Assoc.{In, In-get_elem?}
use justkv.Cli.Healthcheck.{starts_with, replace_from, replace, target}

-- a text without a byte of the prefix does not start with it
starts_with-Lacks : (p s : Bytes) (c : ℕ) → In c p → Lacks c s → starts_with p s ≡ false
unfolding starts_with
starts_with-Lacks [] s c m h = absurd m
starts_with-Lacks (d ∷ p) [] c m h = refl
starts_with-Lacks (d ∷ p) (x ∷ s) c (inl e) (ne, h) = ground (arith)
starts_with-Lacks (d ∷ p) (x ∷ s) c (inr m) (ne, h) = ground (arith, starts_with-Lacks p s c m h)

replace-Lacks : (from to s : Bytes) (c : ℕ) → In c from → Lacks c s → replace s from to ≡ s
unfolding replace_from
replace-Lacks from to [] c m h = refl
replace-Lacks from to (x ∷ s) c m (ne, h) =
    rw (starts_with-Lacks from (x ∷ s) c m (ne, h))
      (ap (λ r. x ∷ r) (replace-Lacks from to s c m h))

-- a text without the first byte of `from` in front
replace-append :
    (c : ℕ) (from to x s : Bytes)
    → Lacks c x
    → replace (x ++ s) (c ∷ from) to ≡ x ++ replace s (c ∷ from) to
unfolding replace_from starts_with
replace-append c from to [] s h = refl
replace-append c from to (d ∷ x) s (ne, h) =
    let differs : (c == d) ≡ false = ground arith in
    rw differs (ap (λ r. d ∷ r) (replace-append c from to x s h))

abbrev is_absent : ℕ → Bytes → Bool
is_absent c [] = true
is_absent c (d ∷ s) = not (d == c) && is_absent c s

tested_Lacks : (c : ℕ) (s : Bytes) → is_absent c s ≡ true → Lacks c s
tested_Lacks c [] h = tt
tested_Lacks c (d ∷ s) h = (ground arith, tested_Lacks c s (ground arith))

-- The probe goes to the loopback address of a server that is bound to every address: `0.0.0.0:port`
-- becomes `127.0.0.1:port` and `[::]:port` becomes `[::1]:port`. The text is not anchored: behind
-- any host prefix without `0` and `[` the rest is rewritten too, so `10.0.0.0:port` becomes
-- `1127.0.0.1:port`.
pub target-port :
    (host port : Bytes)
    → Lacks b'0' host
    → Lacks b'[' host
    → Lacks b'.' port
    → Lacks b':' port
    → Lacks b'[' port
    → (target (host ++ (codes "0.0.0.0:" ++ port)) ≡ host ++ (codes "127.0.0.1:" ++ port))
      × (target (codes "[::]:" ++ port) ≡ codes "[::1]:" ++ port)
unfolding target
target-port host port zeros bracket dots colons brackets =
    let any = codes "0.0.0.0:" in
    let loopback = codes "127.0.0.1:" in
    let any6 = codes "[::]:" in
    let loopback6 = codes "[::1]:" in
    let here : replace (any ++ port) any loopback ≡ loopback ++ port =
      unfold replace_from starts_with in
      ap (λ r. loopback ++ r)
        (replace-Lacks any loopback port b':' (In-get_elem? any 7 b':' refl) colons) in
    let first : replace (host ++ (any ++ port)) any loopback ≡ host ++ (loopback ++ port) =
      replace-append b'0' (codes ".0.0.0:") loopback host (any ++ port) zeros
      ∙ ap (λ r. host ++ r) here in
    let clean : Lacks b'[' (host ++ (loopback ++ port)) =
      All-append (λ c. (c == b'[') ≡ false) host (loopback ++ port) bracket
        (All-append (λ c. (c == b'[') ≡ false) loopback port (tested_Lacks b'[' loopback refl)
          brackets) in
    let other : replace (any6 ++ port) any loopback ≡ any6 ++ port =
      replace-Lacks any loopback (any6 ++ port) b'.' (In-get_elem? any 1 b'.' refl)
        (All-append (λ c. (c == b'.') ≡ false) any6 port (tested_Lacks b'.' any6 refl) dots) in
    (
      ap (λ r. replace r any6 loopback6) first
          ∙ replace-Lacks any6 loopback6 _ b'[' (inl refl) clean,
      ap (λ r. replace r any6 loopback6) other
          ∙ unfold replace_from starts_with in
            ap (λ r. loopback6 ++ r) (replace-Lacks any6 loopback6 port b'[' (inl refl) brackets),
    )
