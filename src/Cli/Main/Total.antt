-- ===== src/Cli/Main/Total.antt =====
-- src/main.rs: how the process ends, subcommand by subcommand.
use justkv.Common.{
  ℕ, ◌≡◌, refl, ap, inl, inr, ◌⊎◌, ◌||◌, ◌==◌, Bool, true, false, Bool-cases, Option, List, [], ◌∷◌,
  Bytes, Result, ok, err, arith,
}
use justkv.Common.Writing.{Writing}
use justkv.HashTable.{HashTable}
use justkv.FileSystem.{FileSystem, Paths}
use justkv.Store.CsvLoader.{DataError, Reads}
use justkv.Store.CsvLoader.Spec.{Kept}
use justkv.Config.{Command, serve, check, build, healthcheck, DataArgs, BuildArgs, HealthArgs}
use justkv.Server.Handlers.{Json}
use justkv.Server.Run.{Event, Signals, HttpServer}
use justkv.Cli.{exit_ok, exit_invalid_data, exit_io, cmd_check}
use justkv.Cli.Build.{Built, check_of, cmd_build-Built}
use justkv.Cli.Report.{Printed}
use justkv.Cli.Report.Check.{problems_of, kept_of, Reports, cmd_check-Reports}
use justkv.Cli.Healthcheck.{Net, target, cmd_healthcheck}
use justkv.Cli.Healthcheck.Probe.{KeepsAscii, Decides, IsHealthy, cmd_healthcheck-Decides}
use justkv.Cli.Main.{Ending, exits, panics, Streams, takes, ended, code_of, run_command}
use justkv.Cli.Main.Serves.{ServeEnds, serve_ending-ServeEnds}
use justkv.Cli.Main.Serving.{BindReturns}

-- a standard stream does not take what is written to it
abbrev pub IsBroken : Streams → Type 0
IsBroken s = (s.stdout_ok ≡ false) ⊎ (s.stderr_ok ≡ false)

-- the process has panicked because it could not print, or it has ended so
abbrev pub Printing : Streams → (Ending → Type 0) → Ending → Type 0
Printing s P e = ((e ≡ panics) × IsBroken s) ⊎ P e

takes-IsBroken : (s : Streams) (p : Printed) → takes s p ≡ false → IsBroken s
takes-IsBroken s p h = ground arith

ended-cases :
    (written : Bool) (r : Result (Unit {0}) ℕ) (code : ℕ)
    → r ≡ ok code
    → (ended written r ≡ exits code) ⊎ ((ended written r ≡ panics) × (written ≡ false))
unfolding ended
ended-cases true r code is = inl (rw is refl)
ended-cases false r code is = inr (rw is refl, refl)

-- what becomes of a code that is returned
Printing-ended :
    (s : Streams) (p : Printed) (P : Ending → Type 0) (r : Result (Unit {0}) ℕ) (code : ℕ)
    → r ≡ ok code
    → P (exits code)
    → Printing s P (ended (takes s p) r)
Printing-ended s p P r code is holds = elim (ended-cases (takes s p) r code is) [
  | inl e ↦ inr (rw e holds)
  | inr (e, lost) ↦ inl (e, takes-IsBroken s p lost)
]

module _ (fmt : Writing) (display : Bytes → Bytes) (fs : FileSystem) (paths : Paths) (pid : ℕ)
    (nanos : ℕ → ℕ) (h : HashTable) (csv_hash store_hash : Bytes → ℕ) (utf8 : Bytes → Bool)
    (lossy : Bytes → Bytes) (keeps : KeepsAscii lossy) (read_records : ℕ → Bool → Bytes → Reads)
    (is_header_value : Bytes → Bool) (build_runtime : Option ℕ → Bool) (http : HttpServer)
    (returns : BindReturns http) (signals : Signals) (percent_decode : Bytes → Bytes)
    (show_u64 show_seconds : ℕ → Bytes) (to_json : List (Bytes × Json) → Bytes) (load_ms : ℕ)
    (net : Net) where
  open fs use {World, read}

  abbrev found_in : DataArgs → Bytes → List DataError
  found_in args source =
      problems_of fmt display fs paths pid nanos h csv_hash utf8 lossy read_records args source

  abbrev CodeOfProblems : List DataError → Ending → Type 0
  CodeOfProblems [] e = e ≡ exits exit_ok
  CodeOfProblems (x ∷ errs) e = e ≡ exits exit_invalid_data

  -- 2 if the data cannot be read, 1 if the specification finds a problem, and otherwise 0
  abbrev pub CheckEnds : World → DataArgs → Ending → Type 0
  CheckEnds w args e =
      ((m : Bytes) × (read w args.path ≡ err m) × (e ≡ exits exit_io))
      ⊎ ((source : Bytes) × (read w args.path ≡ ok source)
          × CodeOfProblems (found_in args source) e)

  code_of_problems :
      (w : World) (args : DataArgs) (kept : List Kept) (errs : List DataError)
      → Reports fmt display fs paths pid nanos h csv_hash utf8 lossy read_records w args kept errs
      → (code : ℕ) × (cmd_check fs paths pid nanos h csv_hash utf8 lossy read_records w args
          ≡ ok code)
        × CodeOfProblems errs (exits code)
  code_of_problems w args kept [] (c, p) = (exit_ok, c, refl)
  code_of_problems w args kept (x ∷ errs) (c, p) = (exit_invalid_data, c, refl)

  cmd_check-CheckEnds :
      (w : World) (args : DataArgs)
      → (code : ℕ) × (cmd_check fs paths pid nanos h csv_hash utf8 lossy read_records w args
          ≡ ok code)
        × CheckEnds w args (exits code)
  cmd_check-CheckEnds w args = elim (fs.read_returns w args.path) [
    | inr (m, here) ↦ (exit_io, unfold cmd_check in rw here refl, inl (m, here, refl))
    | inl (source, here) ↦
        let (code, is, found) =
          code_of_problems w args
            (kept_of fmt display fs paths pid nanos h csv_hash utf8 lossy read_records args source)
            (found_in args source)
            (cmd_check-Reports fmt display fs paths pid nanos h csv_hash utf8 lossy read_records w
              args source here) in
        (code, is, inr (source, here, found))
  ]

  abbrev Refuses : World → BuildArgs → Type 0
  Refuses w args =
      check_of fs paths pid nanos h csv_hash utf8 lossy read_records w args ≡ ok exit_invalid_data

  -- 1 exactly if `check` exits with 1 on the same data, and otherwise 0 or 2
  abbrev pub BuildEnds : World → BuildArgs → Ending → Type 0
  BuildEnds w args e =
      ((e ≡ exits exit_invalid_data) × Refuses w args)
      ⊎ (((e ≡ exits exit_ok) ⊎ (e ≡ exits exit_io)) × (Refuses w args → ⊥))

  Built-BuildEnds :
      (w : World) (args : BuildArgs) (code : ℕ) (w' : World)
      → Built fs paths pid nanos h csv_hash utf8 lossy read_records w args code w'
      → BuildEnds w args (exits code)
  Built-BuildEnds w args code w' built = elim built.otherwise [
    | inl e ↦
        inr (inl (ap exits e), λ c. let one = built.refused.1 c in absurd (omega (arith, e, one)))
    | inr (inl e) ↦ inl (ap exits e, built.refused.0 e)
    | inr (inr e) ↦
        inr (inr (ap exits e), λ c. let one = built.refused.1 c in absurd (omega (arith, e, one)))
  ]

  -- 0 exactly for a healthy server, and otherwise 1
  abbrev pub ProbeEnds : HealthArgs → Ending → Type 0
  ProbeEnds args e =
      ((e ≡ exits 0) × IsHealthy net lossy keeps (target args.bind))
      ⊎ ((e ≡ exits 1) × (IsHealthy net lossy keeps (target args.bind) → ⊥))

  Decides-ProbeEnds :
      (args : HealthArgs) (code : ℕ)
      → Decides code (IsHealthy net lossy keeps (target args.bind))
      → ProbeEnds args (exits code)
  Decides-ProbeEnds args code (inl (e, holds)) = inl (ap exits e, holds)
  Decides-ProbeEnds args code (inr (e, fails)) = inr (ap exits e, fails)

  probe-ends :
      (streams : Streams) (args : HealthArgs) (code : ℕ)
      → ProbeEnds args (exits code)
      → Printing streams (ProbeEnds args) (ended (code == 0 || streams.stderr_ok) (ok code))
  probe-ends streams args code holds =
      elim (ended-cases (code == 0 || streams.stderr_ok) (ok code) code refl) [
        | inl e ↦ inr (rw e holds)
        | inr (e, lost) ↦ inl (e, inr (ground arith))
      ]

  abbrev pub Ends : World → List Event → Command → Ending → Type 0
  Ends w events (check args) e = CheckEnds w args e
  Ends w events (build args) e = BuildEnds w args e
  Ends w events (serve args) e =
      ServeEnds fmt display fs paths pid nanos h csv_hash store_hash utf8 lossy read_records
        is_header_value build_runtime http returns signals percent_decode show_u64 show_seconds
        to_json load_ms net w args events e
  Ends w events (healthcheck args) e = ProbeEnds args e

  -- How `justkv` ends is known for every command line that parses, files of any bytes, and whatever
  -- comes while it runs. It panics only if a standard stream does not take what it prints.
  -- Otherwise `check` exits with 2 if the data cannot be read, 1 if the specification finds a
  -- problem in them, and 0 if not; `build` exits with 1 exactly if `check` of the same data does,
  -- and else with 0 or 2; `healthcheck` with 0 exactly for a healthy server, and else with 1; and
  -- `serve` with 2 if the data cannot be read, the content type is illegal, the runtime does not
  -- start or the address cannot be had, and with 1 if the data are refused in either format. A
  -- server that is up exits with 0 if SIGINT, SIGTERM or a handler of them that could not be
  -- registered stops it, and goes on serving if nothing does. Binding returns, requests come one at
  -- a time, and lossy decoding leaves ASCII alone.
  pub run_command-Ends :
      (streams : Streams) (w : World) (events : List Event) (command : Command)
      → Printing streams (Ends w events command) (
          run_command fmt display fs paths pid nanos h csv_hash store_hash utf8 lossy read_records
            is_header_value build_runtime http signals percent_decode show_u64 show_seconds to_json
            load_ms net streams w events command)
  unfolding run_command
  run_command-Ends streams w events (check args) =
      let (code, is, holds) = cmd_check-CheckEnds w args in
      Printing-ended streams _ (CheckEnds w args) _ code is holds
  run_command-Ends streams w events (build args) =
      let (code, w', is, built) =
        cmd_build-Built fs paths pid nanos h csv_hash utf8 lossy read_records w args in
      Printing-ended streams _ (BuildEnds w args) _ code (ap code_of is)
        (Built-BuildEnds w args code w' built)
  run_command-Ends streams w events (serve args) = elim (Bool-cases streams.stderr_ok) [
    | inl written ↦ inr (
        rw written (
          serve_ending-ServeEnds fmt display fs paths pid nanos h csv_hash store_hash utf8 lossy
            read_records is_header_value build_runtime http returns signals percent_decode show_u64
            show_seconds to_json load_ms net w args events))
    | inr lost ↦ inl (rw lost refl, inr lost)
  ]
  run_command-Ends streams w events (healthcheck args) =
      probe-ends streams args (cmd_healthcheck net lossy args) (
        Decides-ProbeEnds args (cmd_healthcheck net lossy args)
          (cmd_healthcheck-Decides net lossy keeps args))
