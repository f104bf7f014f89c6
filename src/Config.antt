-- ===== src/Config.antt =====
-- src/config.rs: the delimiter argument, the parsing flags, and the arguments of the subcommands.
-- What `clap` does with the command line is not modelled: these are the values that it produces.
pub mod Delimiter
use justkv.Common.{
  ℕ, ◌%◌, Bool, Option, none, some, List, [], ◌∷◌, Bytes, Result, ok, err, ltb, if◌then◌else◌,
}
use justkv.Store.CsvLoader.{LoadOptions, delimiter_for_path}

-- the messages: "exactly one character", the same with what was given, and "an ASCII character"
pub data DelimiterError : Type 0 where
  no_character : DelimiterError
  several_characters : List ℕ → DelimiterError
  not_ascii : ℕ → DelimiterError

-- `s` is `s.chars()`, as code points.
unfoldable pub parse_ascii_delimiter : List ℕ → Result DelimiterError ℕ
parse_ascii_delimiter [] = err no_character
parse_ascii_delimiter (c ∷ []) = if ltb c 128 then ok c else err (not_ascii c)
parse_ascii_delimiter (c ∷ d ∷ rest) = err (several_characters (c ∷ d ∷ rest))

pub record ParseArgs : Type 0 where
  pub delimiter : Option ℕ
  pub header : Bool
  pub allow_binary : Bool

abbrev delimiter_or : Option ℕ → Option Bytes → ℕ
delimiter_or none extension = delimiter_for_path extension
delimiter_or (some c) extension = c % 256

-- The argument is the path's extension, where it is UTF-8.
unfoldable pub load_options : ParseArgs → Option Bytes → LoadOptions
load_options args extension = record {
  delimiter = delimiter_or args.delimiter extension;
  has_header = args.header;
  allow_binary = args.allow_binary;
}

pub record ServeArgs : Type 0 where
  pub path : Bytes
  pub bind : Bytes
  pub default_value : Option Bytes
  pub content_type : Option Bytes
  pub workers : Option ℕ
  pub no_metrics : Bool
  pub parse : ParseArgs

pub record DataArgs : Type 0 where
  pub path : Bytes
  pub parse : ParseArgs

pub record BuildArgs : Type 0 where
  pub path : Bytes
  pub out : Bytes
  pub parse : ParseArgs

pub record HealthArgs : Type 0 where
  pub bind : Bytes

pub data Command : Type 0 where
  serve : ServeArgs → Command
  check : DataArgs → Command
  build : BuildArgs → Command
  healthcheck : HealthArgs → Command
