-- ===== src/Tests/Endings.antt =====
-- How the process ends where all streams take what is printed: a server that SIGTERM stops.
use justkv.Common.{refl, inl, true, List, [], ◌∷◌, ◌++◌}
use justkv.Config.{serve}
use justkv.Server.Run.{Event, terminate}
use justkv.Server.Run.Answers.{arriving, both}
use justkv.Cli.Main.{Streams, run_command}
use justkv.Cli.Main.Serving.{BindReturns}
use justkv.Cli.Main.Total.{Printing, Ends, run_command-Ends}
use justkv.Tests.Decimal.{decimal}
use justkv.Tests.Memory.{memory, one_directory}
use justkv.Tests.Deployed.{built, serve_args}
use justkv.Tests.Running.{ascii_only, ascii_only-KeepsAscii, network}
use justkv.Tests.Lifetime.{in_memory, asked, no_json, tally}
use justkv.Tests.Samples.{list_table, weak_hash, plain_reader, no_ff, same_bytes}

in_memory-BindReturns : BindReturns in_memory
in_memory-BindReturns = record {
  bind_returns = λ a. inl (tt, refl);
  local_addr_returns = λ l. inl (_, refl);
}

abbrev open_streams : Streams
open_streams = record { stdout_ok = true; stderr_ok = true }

abbrev coming : List Event
coming = arriving asked ++ terminate ∷ []

run_command-Ends_example :
    Printing open_streams
      (Ends decimal same_bytes memory one_directory 7
        (λ attempt. 5)
        list_table
        weak_hash
        weak_hash
        no_ff
        ascii_only
        ascii_only-KeepsAscii
        plain_reader
        (λ b. true)
        (λ threads. true)
        in_memory
        in_memory-BindReturns
        both
        same_bytes
        tally
        tally
        no_json
        0
        network
        built
        coming
        (serve serve_args))
      (run_command decimal same_bytes memory one_directory 7
        (λ attempt. 5)
        list_table
        weak_hash
        weak_hash
        no_ff
        ascii_only
        plain_reader
        (λ b. true)
        (λ threads. true)
        in_memory
        both
        same_bytes
        tally
        tally
        no_json
        0
        network
        open_streams
        built
        coming
        (serve serve_args))
run_command-Ends_example =
    run_command-Ends decimal same_bytes memory one_directory 7 (λ attempt. 5) list_table weak_hash
      weak_hash no_ff ascii_only ascii_only-KeepsAscii plain_reader (λ b. true) (λ threads. true)
      in_memory in_memory-BindReturns both same_bytes tally tally no_json 0 network open_streams
      built coming (serve serve_args)
