-- ===== src/Labrpc.antt =====
-- src/labrpc/labrpc.go: the simulated network. This file has `Network` and the methods that read or
-- change it under its lock. End and server names are texts; a `*Server` is the number of the object,
-- `none` for nil; `count` and `bytes` are the patterns of an int32 and an int64.
pub mod Service
pub mod Process
pub mod Serving
pub mod Delivery
pub mod Links
pub mod Dispatch
pub mod Call
mod Tests
use mit.Base.{
  ℕ, ◌+◌, ◌%◌, ◌^◌, String, Bool, true, false, not, ◌||◌, Option, none, some, List, [],
  if◌then◌else◌, or_else, ◌==◌, Eq, string_eq, nat_beq, ◌↔◌, ◌≡◌, arith,
}
use mit.Base.Maps.{Map, lookup, has, insert, erase}
use mit.Base.Exec.{Exec, returns, fatal, panics}

abbrev pub ServerRef : Type 0
ServerRef = ℕ

-- `==` on two `*Server`
abbrev pub beq_ref : Option ServerRef → Option ServerRef → Bool
beq_ref none none = true
beq_ref (some a) (some b) = nat_beq a b
beq_ref none (some b) = false
beq_ref (some a) none = false

-- An end holds copies of the network's channels, so its name is what tells it apart.
pub record ClientEnd : Type 0 where
  pub endname : String

pub record Network : Type 0 where
  pub reliable : Bool
  pub long_delays : Bool
  pub long_reordering : Bool
  pub ends : Map String ClientEnd
  pub enabled : Map String Bool
  pub servers : Map String (Option ServerRef)
  pub connections : Map String (Option String)
  pub done : Bool
  pub count : ℕ
  pub bytes : ℕ

unfoldable pub make_network : Network
make_network = record {
  reliable = true;
  long_delays = false;
  long_reordering = false;
  ends = [];
  enabled = [];
  servers = [];
  connections = [];
  done = false;
  count = 0;
  bytes = 0;
}

-- Cleanup: a second `close` of the channel panics.
unfoldable pub cleanup : Network → Exec Network
cleanup rn = if rn.done then panics else returns (record rn { done = true })

unfoldable pub set_reliable : Bool → Network → Network
set_reliable yes_ rn = record rn { reliable = yes_ }

unfoldable pub is_reliable : Network → Bool
is_reliable rn = rn.reliable

unfoldable pub set_long_reordering : Bool → Network → Network
set_long_reordering yes_ rn = record rn { long_reordering = yes_ }

unfoldable pub set_long_delays : Bool → Network → Network
set_long_delays yes_ rn = record rn { long_delays = yes_ }

unfoldable pub is_long_delays : Network → Bool
is_long_delays rn = rn.long_delays

-- The five results of readEndnameInfo.
pub record EndnameInfo : Type 0 where
  pub enabled : Bool
  pub servername : Option String
  pub server : Option ServerRef
  pub reliable : Bool
  pub longreordering : Bool

-- `rn.servers[servername]`: nil at a missing name
abbrev pub server_at : Network → String → Option ServerRef
server_at rn servername = or_else (lookup servername rn.servers) none

abbrev pub server_of : Network → Option String → Option ServerRef
server_of rn none = none
server_of rn (some servername) = server_at rn servername

unfoldable pub read_endname_info : String → Network → EndnameInfo
read_endname_info endname rn = record {
  enabled = or_else (lookup endname rn.enabled) false;
  servername = or_else (lookup endname rn.connections) none;
  server = server_of rn (or_else (lookup endname rn.connections) none);
  reliable = rn.reliable;
  longreordering = rn.long_reordering;
}

unfoldable pub is_server_dead : String → String → Option ServerRef → Network → Bool
is_server_dead endname servername server rn =
    if not (or_else (lookup endname rn.enabled) false)
      || not (beq_ref (server_at rn servername) server)
    then true
    else false

unfoldable pub make_end : String → Network → Exec (Network × ClientEnd)
make_end endname rn =
    let e : ClientEnd = record { endname = endname } in
    if has endname rn.ends
    then fatal
    else returns (
      record rn {
        ends = insert endname e rn.ends;
        enabled = insert endname false rn.enabled;
        connections = insert endname none rn.connections;
      },
      e,
    )

unfoldable pub delete_end : String → Network → Exec Network
delete_end endname rn =
    if not (has endname rn.ends)
    then fatal
    else returns (record rn {
      ends = erase endname rn.ends;
      enabled = erase endname rn.enabled;
      connections = erase endname rn.connections;
    })

unfoldable pub add_server : String → ServerRef → Network → Network
add_server servername rs rn = record rn { servers = insert servername (some rs) rn.servers }

unfoldable pub delete_server : String → Network → Network
delete_server servername rn = record rn { servers = insert servername none rn.servers }

unfoldable pub connect : String → String → Network → Network
connect endname servername rn = record rn {
  connections = insert endname (some servername) rn.connections;
}

unfoldable pub enable : String → Bool → Network → Network
enable endname enabled rn = record rn { enabled = insert endname enabled rn.enabled }

unfoldable pub get_total_count : Network → ℕ
get_total_count rn = rn.count

unfoldable pub get_total_bytes : Network → ℕ
get_total_bytes rn = rn.bytes

-- The two counters, as the network's goroutine and processReq move them.
unfoldable pub count_request : ℕ → Network → Network
count_request size rn = record rn {
  count = (rn.count + 1) % 2 ^ 32;
  bytes = (rn.bytes + size) % 2 ^ 64;
}

unfoldable pub count_reply : ℕ → Network → Network
count_reply size rn = record rn { bytes = (rn.bytes + size) % 2 ^ 64 }
