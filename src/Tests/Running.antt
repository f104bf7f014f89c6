-- ===== src/Tests/Running.antt =====
-- The subcommands of src/main.rs on the file system in memory.
use justkv.Common.{
  ℕ, ◌<◌, ◌≤◌, ◌≡◌, refl, true, false, none, some, List, [], ◌∷◌, ◌++◌, Bytes, codes, bytes_eq, ok,
  length, arith, ltb, lt→ltb, le→ltb_false, if◌then◌else◌,
}
use justkv.FileSystem.{opened, already_exists}
use justkv.Store.{Entry}
use justkv.Store.Windows.{pairs}
use justkv.Store.Lookup.{Serves}
use justkv.Store.Compiled.{is_compiled}
use justkv.Config.{ServeArgs, HealthArgs}
use justkv.Server.{AppState}
use justkv.Cli.{exit_ok, cmd_build}
use justkv.Cli.Progress.{Works, cmd_build-finishes}
use justkv.Cli.Serve.Ready.{expected_type}
use justkv.Cli.Serve.{ready, serve_start}
use justkv.Cli.Serve.Deploy.{cmd_build-serve_start}
use justkv.Cli.Serve.Verdict.{Verdict, serve_start-Verdict}
use justkv.Cli.Healthcheck.{target, Net, cmd_healthcheck}
use justkv.Cli.Healthcheck.Target.{target-port}
use justkv.Cli.Healthcheck.Probe.{KeepsAscii, Decides, IsHealthy, cmd_healthcheck-Decides}
use justkv.Tests.Deployed.{
  source, entries, source_read, source_parsed, name_free, compiled_file, built, build_done,
  built_read, serve_args, parsed_in, few,
}
use justkv.Tests.Memory.{Files, memory, one_directory, directory, build_args}
use justkv.Tests.Samples.{list_table, weak_hash, plain_reader, no_ff, same_bytes}

create_of_occupied :
    (w : Files) (p b : Bytes) → w p ≡ some b → (memory.create_new w p).0 ≡ already_exists
create_of_occupied w p b h = rw h

create_of_absent : (w : Files) (p : Bytes) → w p ≡ none → (memory.create_new w p).0 ≡ opened
create_of_absent w p h = rw h

memory-Works : Works memory
memory-Works = record {
  creates = create_of_absent;
  occupied = create_of_occupied;
  writes = λ w p b. refl;
  renames = λ w p out. refl;
}

cmd_build-finishes_example :
    (w' : Files) × (cmd_build memory one_directory 7
        (λ attempt. 5)
        list_table
        weak_hash
        no_ff
        same_bytes
        plain_reader
        directory
        build_args
      ≡ ok (exit_ok, w'))
cmd_build-finishes_example =
    cmd_build-finishes memory one_directory 7 (λ attempt. 5) memory-Works list_table weak_hash no_ff
      same_bytes plain_reader directory build_args source (codes "a1b2") entries 3 source_read
      source_parsed (omega arith) name_free

cmd_build-serve_start_example :
    (arena : Bytes) × (es : List Entry) × (parsed_in directory ≡ ok (arena, es))
    × (s : AppState list_table) × (serve_start list_table
          (λ b. true)
          weak_hash
          weak_hash
          no_ff
          same_bytes
          plain_reader
          (memory.read built)
          one_directory.extension
          same_bytes
          serve_args
        ≡ ok (ready s))
    × Serves list_table (pairs arena es) s.store
    × (s.keys ≡ length es)
    × (s.content_type ≡ expected_type none false)
    × (s.default_value ≡ some (codes "-"))
cmd_build-serve_start_example =
    cmd_build-serve_start memory one_directory 7 (λ attempt. 5) list_table weak_hash weak_hash no_ff
      same_bytes plain_reader (λ b. true) same_bytes directory built build_args serve_args
      compiled_file build_done built_read few refl refl

abbrev source_args : ServeArgs
source_args = record serve_args { path = codes "s" }

serve_start-Verdict_example :
    Verdict memory one_directory 7
      (λ attempt. 5)
      list_table
      weak_hash
      weak_hash
      no_ff
      same_bytes
      plain_reader
      (λ b. true)
      same_bytes
      directory
      source_args
      source
serve_start-Verdict_example =
    serve_start-Verdict memory one_directory 7 (λ attempt. 5) list_table weak_hash weak_hash no_ff
      same_bytes plain_reader (λ b. true) same_bytes directory source_args source source_read
      (unfold is_compiled in refl) refl

target-port_example :
    (target (codes "1" ++ (codes "0.0.0.0:" ++ codes "8080"))
      ≡ codes "1" ++ (codes "127.0.0.1:" ++ codes "8080"))
    × (target (codes "[::]:" ++ codes "8080") ≡ codes "[::1]:" ++ codes "8080")
target-port_example =
    target-port (codes "1") (codes "8080") (refl, tt) (refl, tt) (refl, (refl, (refl, (refl, tt))))
      (refl, (refl, (refl, (refl, tt)))) (refl, (refl, (refl, (refl, tt))))

-- every byte that is not ASCII is read as `?` behind U+FFFD's first byte
abbrev pub ascii_only : Bytes → Bytes
ascii_only [] = []
ascii_only (c ∷ b) = (if ltb c 128 then c else 239) ∷ ascii_only b

ascii_kept : (c : ℕ) (b : Bytes) → c < 128 → ascii_only (c ∷ b) ≡ c ∷ ascii_only b
ascii_kept c b h = rw (lt→ltb c 128 h)

other_marked :
    (c : ℕ) (b : Bytes) → 128 ≤ c → (d : ℕ) × (r : Bytes) × (ascii_only (c ∷ b) ≡ d ∷ r) × (128 ≤ d)
other_marked c b h = (239, ascii_only b, rw (le→ltb_false c 128 h), omega arith)

pub ascii_only-KeepsAscii : KeepsAscii ascii_only
ascii_only-KeepsAscii = record { of_nil = refl; of_ascii = ascii_kept; of_other = other_marked }

-- one server, which answers 200
abbrev pub network : Net
network = record {
  Addr = Bytes;
  Stream = Bytes;
  to_socket_addrs = λ a. some (a ∷ []);
  show_addr = λ a. a;
  connect_timeout = λ a. if bytes_eq a (codes "127.0.0.1:8080") then some [] else none;
  write_all = λ s b. some b;
  read_to_end = λ s. some (codes "HTTP/1.1 200 OK");
}

abbrev health_args : HealthArgs
health_args = record { bind = codes "0.0.0.0:8080" }

cmd_healthcheck-Decides_example :
    Decides
      (cmd_healthcheck network ascii_only health_args)
      (IsHealthy network ascii_only ascii_only-KeepsAscii (target (codes "0.0.0.0:8080")))
cmd_healthcheck-Decides_example =
    cmd_healthcheck-Decides network ascii_only ascii_only-KeepsAscii health_args

healthy : cmd_healthcheck network ascii_only health_args ≡ 0
unfolding cmd_healthcheck bytes_eq
healthy = refl
