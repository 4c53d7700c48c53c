-- ===== src/Groups.antt =====
-- src/tester1/group.go and src/tester1/srv.go: the ends between the servers of a group, and which of
-- them are enabled. `net` is the state of the network that the group's pointer leads to. An index out
-- of range panics.
pub mod Ends
pub mod Connects
pub mod Disconnects
pub mod Rounds
pub mod Partitions
pub mod Halves
pub mod Minority
pub mod Servers
pub mod Restart
pub mod Sizes
pub mod Names
pub mod Stops
pub mod Shutdowns
pub mod Makes
pub mod Launches
pub mod Starts
pub mod Samples
mod Tests
use mit.Base.Int.{ℤ}
use mit.Base.{
  ℕ, zero, suc, ◌+◌, ◌-◌, ◌/◌, String, Bool, true, false, not, Option, none, some, List, [], ◌∷◌,
  if◌then◌else◌, ltb, ◌==◌, nat_eq, length, get_elem?, set, replicate,
}
use mit.Base.Exec.{Exec, returns, panics, ◌>>=◌, ◌>>◌}
use mit.Labrpc.{Network, ClientEnd, enable}

-- tester.Server; `end_names` and `svcs` are `none` for nil. `saved` is the number of a Persister,
-- and a service is the number of its object, `none` for nil.
pub record Server : Type 0 where
  pub saved : Option ℕ
  pub svcs : Option (List (Option ℕ))
  pub end_names : Option (List String)
  pub clnt_ends : List ClientEnd

pub record ServerGrp : Type 0 where
  pub net : Network
  pub srvs : List Server
  pub servernames : List String
  pub gid : ℤ
  pub connected : List Bool

-- sg.srvs[i].endNames[j]
unfoldable pub end_name : ServerGrp → ℕ → ℕ → Exec String
end_name sg i j = elim (get_elem? sg.srvs i) [
  | none ↦ panics
  | some s ↦ elim s.end_names [
    | none ↦ panics
    | some names ↦ elim (get_elem? names j) [ none ↦ panics | some e ↦ returns e ]
  ]
]

unfoldable pub is_connected : ServerGrp → ℕ → Exec Bool
is_connected sg i = elim (get_elem? sg.connected i) [ none ↦ panics | some b ↦ returns b ]

abbrev pub enable_end : String → Bool → ServerGrp → ServerGrp
enable_end endname enabled sg = record sg { net = enable endname enabled sg.net }

-- Server.connect: the loop over `to`
unfoldable pub connect_out : ℕ → List ℕ → ServerGrp → Exec ServerGrp
unfolding end_name is_connected
connect_out i [] sg = returns sg
connect_out i (j ∷ to) sg = is_connected sg j >>= λ (up : Bool).
    if up
    then (end_name sg i j >>= λ (endname : String). connect_out i to (enable_end endname true sg))
    else connect_out i to sg

-- ServerGrp.connect: "connect incoming end points to me"
unfoldable pub connect_in : ℕ → List ℕ → ServerGrp → Exec ServerGrp
unfolding end_name is_connected
connect_in i [] sg = returns sg
connect_in i (j ∷ to) sg = is_connected sg j >>= λ (up : Bool).
    if up
    then (end_name sg j i >>= λ (endname : String). connect_in i to (enable_end endname true sg))
    else connect_in i to sg

abbrev pub set_connected : ℕ → Bool → ServerGrp → Exec ServerGrp
set_connected i b sg = elim (get_elem? sg.connected i) [
  | none ↦ panics
  | some old ↦ returns (record sg { connected = set sg.connected i b })
]

-- "sg.srvs[i]"
abbrev pub server_at : ServerGrp → ℕ → Exec Server
server_at sg i = elim (get_elem? sg.srvs i) [ none ↦ panics | some s ↦ returns s ]

unfoldable pub connect : ℕ → List ℕ → ServerGrp → Exec ServerGrp
unfolding connect_out connect_in
connect i to sg = set_connected i true sg >>= λ (sg1 : ServerGrp).
    server_at sg1 i >>= λ (s : Server). connect_out i to sg1 >>= connect_in i to

-- Server.disconnect: the loop over `from`
unfoldable pub disconnect_out : ℕ → List ℕ → ServerGrp → Exec ServerGrp
unfolding end_name
disconnect_out i [] sg = returns sg
disconnect_out i (j ∷ from) sg =
    end_name sg i j >>= λ (endname : String). disconnect_out i from (enable_end endname false sg)

-- ServerGrp.disconnect: "incoming socket files"
unfoldable pub disconnect_in : ℕ → List ℕ → ServerGrp → Exec ServerGrp
unfolding end_name
disconnect_in i [] sg = returns sg
disconnect_in i (j ∷ from) sg = server_at sg j >>= λ (s : Server). elim s.end_names [
  | none ↦ disconnect_in i from sg
  | some names ↦
      end_name sg j i >>= λ (endname : String). disconnect_in i from (enable_end endname false sg)
]

unfoldable pub disconnect : ℕ → List ℕ → ServerGrp → Exec ServerGrp
unfolding disconnect_out disconnect_in
disconnect i from sg = set_connected i false sg >>= λ (sg1 : ServerGrp).
    server_at sg1 i >>= λ (s : Server).
    elim s.end_names [ none ↦ returns sg1 | some names ↦ disconnect_out i from sg1 ]
    >>= disconnect_in i from

-- One of the two loops of Partition.
unfoldable pub part_loop : List ℕ → List ℕ → List ℕ → ServerGrp → Exec ServerGrp
unfolding disconnect connect
part_loop [] mine others sg = returns sg
part_loop (x ∷ xs) mine others sg =
    disconnect x others sg >>= λ (sg1 : ServerGrp). connect x mine sg1 >>= part_loop xs mine others

unfoldable pub partition : List ℕ → List ℕ → ServerGrp → Exec ServerGrp
unfolding part_loop
partition p1 p2 sg = part_loop p1 p1 p2 sg >>= part_loop p2 p2 p1

unfoldable pub all_from : ℕ → List Server → List ℕ
all_from i [] = []
all_from i (s ∷ srvs) = i ∷ all_from (suc i) srvs

-- all
unfoldable pub all : ServerGrp → List ℕ
unfolding all_from
all sg = all_from 0 sg.srvs

unfoldable pub connect_one : ℕ → ServerGrp → Exec ServerGrp
unfolding connect all
connect_one i sg = connect i (all sg) sg

unfoldable pub connect_each : List ℕ → ServerGrp → Exec ServerGrp
unfolding connect_one
connect_each [] sg = returns sg
connect_each (i ∷ is) sg = connect_one i sg >>= connect_each is

unfoldable pub connect_all : ServerGrp → Exec ServerGrp
unfolding connect_each
connect_all sg = connect_each (all sg) sg

unfoldable pub disconnect_all : ℕ → ServerGrp → Exec ServerGrp
unfolding disconnect all
disconnect_all i sg = disconnect i (all sg) sg

-- The loop of MakePartition from server `i`, for `left` servers, with `j` of them placed.
unfoldable pub place : ℕ → ℕ → ℕ → ℕ → List ℕ → List ℕ → Exec (List ℕ × List ℕ)
place l i zero j p1 p2 = returns (p1, p2)
place l i (suc left) j p1 p2 =
    let skip = place l (suc i) left j p1 p2 in
    let first = place l (suc i) left (j + 1) (set p1 j i) p2 in
    let second = place l (suc i) left (j + 1) p1 (set p2 (j - length p1) i) in
    if i == l
    then skip
    else if ltb j (length p1)
    then first
    else if ltb (j - length p1) (length p2)
    then second
    else panics

unfoldable pub make_partition : ℕ → ℕ → Exec (List ℕ × List ℕ)
unfolding place
make_partition n l =
    place l 0 n 0 (replicate (n / 2 + 1) 0) (replicate (n / 2) 0) >>= λ (r : List ℕ × List ℕ).
    if length r.1 == 0 then panics else returns (r.0, set r.1 (length r.1 - 1) l)
