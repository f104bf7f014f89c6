-- ===== src/Cli/Healthcheck/Probe.antt =====
-- src/main.rs, `cmd_healthcheck`: which answers make it exit with 0.
use justkv.Common.{
  ℕ, zero, suc, ◌≤◌, ◌<◌, ◌≡◌, refl, ◌∙◌, subst, inl, inr, ◌⊎◌, true, Option, none, some, List, [],
  ◌∷◌, Bytes, length, take, All, ltb, arith, Bool-cases,
}
use justkv.Config.{HealthArgs}
use justkv.Cli.Healthcheck.{
  starts_with, target, request, status_ok, Net, judge, after_request, after_connect, probe,
  cmd_healthcheck,
}

-- `String::from_utf8_lossy` keeps ASCII characters, and what it puts for any other byte starts with a
-- byte that is not ASCII.
pub record KeepsAscii (lossy : Bytes → Bytes) : Type 0 where
  pub of_nil : lossy [] ≡ []
  pub of_ascii : (c : ℕ) (b : Bytes) → c < 128 → lossy (c ∷ b) ≡ c ∷ lossy b
  pub of_other :
      (c : ℕ) (b : Bytes) → 128 ≤ c → (d : ℕ) × (r : Bytes) × (lossy (c ∷ b) ≡ d ∷ r) × (128 ≤ d)

starts_with-take : (p b : Bytes) (n : ℕ) → length p ≤ n → starts_with p (take n b) ≡ starts_with p b
unfolding starts_with
starts_with-take [] b n h = refl
starts_with-take (c ∷ p) b zero h = absurd (omega arith)
starts_with-take (c ∷ p) [] (suc n) h = refl
starts_with-take (c ∷ p) (d ∷ b) (suc n) h = rw (starts_with-take p b n (omega arith))

-- what the option holds, with `P` of it
abbrev pub Holding {ℓ} : {A : Type ℓ} → Option A → (A → Type 0) → Type ℓ
Holding {A} o P = (a : A) × (o ≡ some a) × P a

-- an exit code is 0 exactly if `P`, and otherwise 1
abbrev pub Decides {ℓ} : ℕ → Type ℓ → Type ℓ
Decides code P = ((code ≡ 0) × P) ⊎ ((code ≡ 1) × (P → ⊥))

Decides-none : {A : Type 0} (P : A → Type 0) → Decides 1 (Holding none P)
Decides-none P = inr (refl, λ p. absurd (cc (p.1)))

Decides-some :
    {A : Type 0} (P : A → Type 0) (a : A) (code : ℕ)
    → Decides code (P a)
    → Decides code (Holding (some a) P)
Decides-some P a code (inl (z, p)) = inl (z, (a, refl, p))
Decides-some {A} P a code (inr (one, no_p)) =
    inr (one, λ (x, is, p). let same : x ≡ a = cc in no_p (subst P same p))

module _ (net : Net) (lossy : Bytes → Bytes) (keeps : KeepsAscii lossy) where
  open net use {Addr, Stream, to_socket_addrs, show_addr, connect_timeout, write_all, read_to_end}

  starts_with-lossy :
      (p b : Bytes) → All (λ c. c < 128) p → starts_with p (lossy b) ≡ starts_with p b
  unfolding starts_with
  starts_with-lossy [] b h = refl
  starts_with-lossy (c ∷ p) [] h = rw keeps.of_nil
  starts_with-lossy (c ∷ p) (d ∷ b) (hc, hp) = elim (Bool-cases (ltb d 128)) [
    | inl ascii ↦ rw (keeps.of_ascii d b (ground arith), starts_with-lossy p b hp)
    | inr other ↦ let (e, r, is, high) = keeps.of_other d b (ground arith) in rw is (ground arith)
  ]

  -- The probe's path through the network, up to an answer with the status line of a 200.
  abbrev HasStatus : Bytes → Type 0
  HasStatus buf = starts_with status_ok buf ≡ true

  abbrev IsSent : Stream → Type 0
  IsSent s = Holding (read_to_end s) HasStatus

  abbrev IsConnected : Addr → Stream → Type 0
  IsConnected addr s = Holding (write_all s (request (show_addr addr))) IsSent

  -- the first address is the one that is tried
  abbrev IsResolved : List Addr → Type 0
  IsResolved [] = ⊥
  IsResolved (addr ∷ addrs) = Holding (connect_timeout addr) (IsConnected addr)

  abbrev pub IsHealthy : Bytes → Type 0
  IsHealthy address = Holding (to_socket_addrs address) IsResolved

  judge-Decides :
      (answer : Option Bytes) → Decides (judge net lossy answer) (Holding answer HasStatus)
  unfolding judge
  judge-Decides none = Decides-none HasStatus
  judge-Decides (some buf) =
      let same : starts_with status_ok (lossy (take 64 buf)) ≡ starts_with status_ok buf =
        starts_with-lossy status_ok (take 64 buf) (omega arith)
        ∙ starts_with-take status_ok buf 64 (omega arith) in
      Decides-some HasStatus buf _ (elim (Bool-cases (starts_with status_ok buf)) [
        | inl good ↦ rw (same, good) (inl (refl, refl))
        | inr bad ↦ rw (same, bad) (inr (refl, λ p. absurd (cc)))
      ])

  after_request-Decides :
      (sent : Option Stream) → Decides (after_request net lossy sent) (Holding sent IsSent)
  unfolding after_request
  after_request-Decides none = Decides-none IsSent
  after_request-Decides (some s) = Decides-some IsSent s _ (judge-Decides (read_to_end s))

  after_connect-Decides :
      (addr : Addr) (conn : Option Stream)
      → Decides (after_connect net lossy addr conn) (Holding conn (IsConnected addr))
  unfolding after_connect
  after_connect-Decides addr none = Decides-none (IsConnected addr)
  after_connect-Decides addr (some s) =
      Decides-some (IsConnected addr) s _
        (after_request-Decides (write_all s (request (show_addr addr))))

  probe-Decides :
      (resolved : Option (List Addr))
      → Decides (probe net lossy resolved) (Holding resolved IsResolved)
  unfolding probe
  probe-Decides none = Decides-none IsResolved
  probe-Decides (some []) = Decides-some IsResolved [] _ (inr (refl, λ p. p))
  probe-Decides (some (addr ∷ addrs)) =
      Decides-some IsResolved (addr ∷ addrs) _ (after_connect-Decides addr (connect_timeout addr))

  -- `healthcheck` exits with 0 exactly if the rewritten address resolves, the first address that it
  -- resolves to accepts a connection and the request for `/health`, and the answer's first bytes
  -- are `HTTP/1.1 200`; in every other case it exits with 1.
  pub cmd_healthcheck-Decides :
      (args : HealthArgs) → Decides (cmd_healthcheck net lossy args) (IsHealthy (target args.bind))
  unfolding cmd_healthcheck
  cmd_healthcheck-Decides args = probe-Decides (to_socket_addrs (target args.bind))
