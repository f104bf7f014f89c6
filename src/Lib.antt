-- ===== src/Lib.antt =====
-- justkv serves a read-only key-value dataset over HTTP. src/main.rs checks a CSV or TSV file,
-- builds the compiled form of one, or serves either; this library models the parts that decide what
-- a client is answered, and proves that they agree.
--
-- How the parts meet: a file is read whole, `load` (src/store/mod.rs) hands it to one of the two
-- loaders by its first eight bytes, and builds a `Store` from the arena and entries that either one
-- returns. The handlers answer from that store and count each lookup in `Metrics`.
--
-- Store: src/store/mod.rs. `Entry` and `Store` are the structs; `from_parts`, `get`, `len`,
--   `is_empty` and `arena_len` the methods. An arena is a list of bytes, and a slice out of range is
--   `panic`. Store/Windows is what an entry means, Store/Lookup what a built store answers.
-- Store/Compiled: src/store/compiled.rs, `write_compiled` and `read_compiled` with the 32-bit fields
--   as four little-endian bytes and the checked sums of `usize` (64 bits). Its child modules are the
--   round trip (RoundTrip), which files are accepted (Frame, Accepts) and what they satisfy (Safety),
--   truncation, and the text of a `CompiledError` (Display).
-- Store/CsvLoader: src/store/csv_loader.rs. `Loading` is the state that `parse_csv` keeps in local
--   variables, `load_row` one turn of its loop. Spec says what is a problem of a row and which rows
--   are kept, without arena, hash or index; Rows and Refinement compare the two. Display is the text
--   of a `DataError`.
-- Store/Load: `load` of src/store/mod.rs; Agree compares the two ways to load one dataset, Display
--   is the text of a `LoadFailure`. Cut is a compiled file that lost its end, Refusal how loading
--   fails.
-- Metrics: src/metrics.rs. `record_adds` lists the atomic additions of one `record`, so that those
--   of several threads can interleave in Metrics/Threads; Metrics/Render is the text of `/metrics`,
--   Metrics/Scrape the loads of `render` between additions of other threads.
-- Server: src/server/mod.rs (the shared state; the accept loop is Server/Listener, `run` and
--   `shutdown_signal` Server/Run, over an interface of the TCP listener and of `axum::serve`) and
--   src/server/handlers.rs (Server/Query for the query string, Server/Handlers for the handlers,
--   Server/Router for the routes to them).
-- Server/Concurrent: the handlers on several connections at a time. A move of a connection is the
--   start of a request with its reading of the store, one atomic operation, or the sending of the
--   answer; Plain drops the panics, which cannot happen, Ledger follows the counters, Talk the
--   answers, and Finish counts the steps, at most 22 for a request.
-- Config: src/config.rs, the parsing options and the arguments of the subcommands.
-- Cli: src/main.rs. FileSystem is the interface of the file and path calls, and a world of files
--   passes through them. Cli/Scratch is `create_scratch_file`, whose loop has its 1000 attempts;
--   Cli/Replace and Cli/Build are what a build leaves behind, whichever call fails, and Cli/Progress
--   that it finishes where none does. Cli/Serve is `cmd_serve`, and what it makes of what `build`
--   wrote (Deploy) and `check` said (Verdict), and what such a server answers until it is stopped
--   (Lifetime); Cli/Healthcheck the probe, over an interface of std::net; Cli/Report
--   is what `check`, `build` and `serve` print. Cli/Main is `main`: the process exits with a code,
--   panics, or serves on; a standard stream either takes all that is printed to it or fails, and
--   then `println!` and `eprintln!` panic. Serving follows `run`, Serves `cmd_serve`, and Total the
--   four subcommands. Everywhere else what is printed is taken.
-- Bench: bench/gen.rs, the seeds and the text of a generated dataset (Accepted and Check: what
--   `check` makes of it), and Main, the run of its `main` over an interface of the files it writes.
-- HashTable is the interface of hashbrown's table, with its documented laws; Tests/Samples has an
--   implementation by a list, which shows that the laws can hold.
-- Common is shared: results with a panic, byte strings, lists over the native numbers; and
--   Common/Writing, the interface of std::fmt: the digits of a number and the quoting of a text.
--
-- Bounds: the fields of an entry, the flags and the header are 32-bit, counters and `usize` are
-- 64-bit, each with its wrap-around or its check written out. There is no fuel: every loop goes
-- through a list or a count.
--
-- Parameters, since their code is not part of the repository: the table and the hash functions, the
-- CSV reader (the records that it yields, with the line of each, or its error), UTF-8 validation and
-- lossy decoding, percent decoding, the printing of numbers and the quoting of texts, the clock, the
-- runtime and its signals, the HTTP server, and the operations on files and sockets.
--
-- Not modelled: the command-line declarations; `run_ephemeral` of src/server/mod.rs, which only the
-- tests call; what `healthcheck` prints; src/lib.rs, which only names the modules.
pub mod Common
pub mod HashTable
pub mod FileSystem
pub mod Store
pub mod Metrics
pub mod Server
pub mod Config
pub mod Cli
pub mod Bench
pub mod Tests
