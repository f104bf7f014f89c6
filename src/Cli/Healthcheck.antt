-- ===== src/Cli/Healthcheck.antt =====
-- src/main.rs, `cmd_healthcheck`: the address to probe, one request, and the status line.
pub mod Target
pub mod Probe
use justkv.Common.{
  ℕ, zero, suc, ◌-◌, Bool, true, false, ◌&&◌, Option, none, some, List, [], ◌∷◌, ◌++◌, Bytes, codes,
  length, take, ◌==◌, if◌then◌else◌,
}
use justkv.Config.{HealthArgs}

-- `str::starts_with`, the prefix first
unfoldable pub starts_with : Bytes → Bytes → Bool
starts_with [] s = true
starts_with (c ∷ p) [] = false
starts_with (c ∷ p) (d ∷ s) = c == d && starts_with p s

-- `str::replace`, the number of bytes still to pass over first: occurrences do not overlap
unfoldable pub replace_from : ℕ → Bytes → Bytes → Bytes → Bytes
unfolding starts_with
replace_from skip from to [] = []
replace_from (suc skip) from to (c ∷ s) = replace_from skip from to s
replace_from zero from to (c ∷ s) =
    let hit = starts_with from (c ∷ s) in
    (if hit then to else c ∷ []) ++ replace_from (if hit then length from - 1 else 0) from to s

abbrev pub replace : Bytes → Bytes → Bytes → Bytes
replace s from to = replace_from 0 from to s

unfoldable pub target : Bytes → Bytes
unfolding replace_from
target bind =
    replace (replace bind (codes "0.0.0.0:") (codes "127.0.0.1:")) (codes "[::]:") (codes "[::1]:")

abbrev line_end : Bytes
line_end = 13 ∷ 10 ∷ []

-- `addr` is the text of the address.
abbrev pub request : Bytes → Bytes
request addr =
    codes "GET /health HTTP/1.1"
    ++ (line_end
        ++ (codes "Host: "
            ++ (addr ++ (line_end ++ (codes "Connection: close" ++ (line_end ++ line_end))))))

abbrev pub status_ok : Bytes
status_ok = codes "HTTP/1.1 200"

-- `std::net` as `cmd_healthcheck` uses it, `none` an error: `write_all` and `read_to_end` on a stream
-- with the two timeouts set.
pub record Net : Type 1 where
  pub Addr : Type 0
  pub Stream : Type 0
  pub to_socket_addrs : Bytes → Option (List Addr)
  pub show_addr : Addr → Bytes
  pub connect_timeout : Addr → Option Stream
  pub write_all : Stream → Bytes → Option Stream
  pub read_to_end : Stream → Option Bytes

module _ (net : Net) (lossy : Bytes → Bytes) where
  open net use {Addr, Stream, to_socket_addrs, show_addr, connect_timeout, write_all, read_to_end}

  unfoldable pub judge : Option Bytes → ℕ
  unfolding starts_with
  judge none = 1
  judge (some buf) = if starts_with status_ok (lossy (take 64 buf)) then 0 else 1

  unfoldable pub after_request : Option Stream → ℕ
  unfolding judge
  after_request none = 1
  after_request (some stream) = judge (read_to_end stream)

  unfoldable pub after_connect : Addr → Option Stream → ℕ
  unfolding after_request
  after_connect addr none = 1
  after_connect addr (some stream) = after_request (write_all stream (request (show_addr addr)))

  unfoldable pub probe : Option (List Addr) → ℕ
  unfolding after_connect
  probe none = 1
  probe (some []) = 1
  probe (some (addr ∷ addrs)) = after_connect addr (connect_timeout addr)

  unfoldable pub cmd_healthcheck : HealthArgs → ℕ
  unfolding probe target
  cmd_healthcheck args = probe (to_socket_addrs (target args.bind))
