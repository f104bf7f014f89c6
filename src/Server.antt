-- ===== src/Server.antt =====
-- src/server/mod.rs: the state that the handlers share, the routes, the accept loop, and
-- `run` with its signals.
pub mod Query
pub mod Handlers
pub mod Router
pub mod Listener
pub mod Run
pub mod Concurrent
use justkv.Common.{ℕ, Bool, Option, List, Bytes, codes}
use justkv.HashTable.{HashTable}
use justkv.Store.{Store}

abbrev pub default_content_type : Bytes
default_content_type = codes "text/plain; charset=utf-8"

-- `metrics` is shared and mutable, so the handlers pass it on instead. The instants `started` and
-- `load_ms` only go into texts, and are arguments there.
pub record AppState (h : HashTable) : Type 0 where
  pub store : Store h
  pub default_value : Option Bytes
  pub content_type : Bytes
  pub keys : ℕ
  pub arena_bytes : ℕ
  pub source : Bytes
  pub format : Bytes
  pub timing : Bool
