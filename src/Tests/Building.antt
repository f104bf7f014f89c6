-- ===== src/Tests/Building.antt =====
-- `build` on the file system in memory.
use justkv.Common.{ℕ, ◌≡◌, Result, ok}
use justkv.Cli.{cmd_build}
use justkv.Cli.Build.{Built, cmd_build-Built}
use justkv.Tests.Samples.{list_table, weak_hash, plain_reader, no_ff, same_bytes}
use justkv.Tests.Memory.{Files, memory, one_directory, directory, build_args}

abbrev build_in : Files → Result (Unit {0}) (ℕ × Files)
build_in w =
    cmd_build memory one_directory 7 (λ attempt. 5) list_table weak_hash no_ff same_bytes
      plain_reader w build_args

cmd_build-Built_example :
    (code : ℕ) × (w' : Files) × (build_in directory ≡ ok (code, w'))
    × Built memory one_directory 7
        (λ attempt. 5)
        list_table
        weak_hash
        no_ff
        same_bytes
        plain_reader
        directory
        build_args
        code
        w'
cmd_build-Built_example =
    cmd_build-Built memory one_directory 7 (λ attempt. 5) list_table weak_hash no_ff same_bytes
      plain_reader directory build_args
