-- ===== src/Groups/Servers.antt =====
-- src/tester1/srv.go and src/tester1/group.go: the servers of a group, with what they have saved. A
-- `*Persister` is its number in `persisters`, which is never taken away; the services that were told
-- to stop are in `killed`. A random name is an argument, and so is what the lab's start function
-- (FstartServer) gives: the numbers of the services that it has started.
use mit.Base.Int.{ℤ, pos, negsuc}
use mit.Base.{
  ℕ, zero, suc, ◌/◌, ◌%◌, String, false, replicate, Option, none, some, List, [], ◌∷◌, ◌++◌,
  if◌then◌else◌, ltb, ◌==◌, nat_eq, length, get_elem?, set, or_else,
}
use mit.Base.Text.{join}
use mit.Base.Exec.{Exec, returns, panics, ◌>>=◌, ◌>>◌}
use mit.Labrpc
use mit.Labrpc.{Network, ClientEnd, ServerRef, add_server, delete_server}
use mit.Persister.{Heap, Persister, make_persister, copy, raft_state_size, snapshot_size}
use mit.Groups.{Server, ServerGrp, server_at, all, connect_all, disconnect_all}

-- strconv.Itoa of a number that is not negative: its digits in front of `rest`, on fuel.
unfoldable pub digit : ℕ → String
digit n =
    if n == 0
    then "0"
    else if n == 1
    then "1"
    else if n == 2
    then "2"
    else if n == 3
    then "3"
    else if n == 4
    then "4"
    else if n == 5
    then "5"
    else if n == 6
    then "6"
    else if n == 7
    then "7"
    else if n == 8
    then "8"
    else "9"

unfoldable pub itoa_loop : ℕ → ℕ → String → String
unfolding digit join
itoa_loop zero n rest = rest
itoa_loop (suc fuel) n rest =
    let here = join (digit (n % 10)) rest in
    let more = itoa_loop fuel (n / 10) here in if ltb n 10 then here else more

unfoldable pub itoa : ℕ → String
unfolding itoa_loop
itoa n = itoa_loop (suc n) n ""

-- strconv.Itoa
unfoldable pub itoa_int : ℤ → String
unfolding itoa join
itoa_int (pos n) = itoa n
itoa_int (negsuc n) = join "-" (itoa (suc n))

-- ServerName; `i` is an index.
unfoldable pub server_name : ℤ → ℕ → String
unfolding itoa_int itoa join
server_name gid i = join "server-" (join (itoa_int gid) (join "-" (itoa i)))

pub record World : Type 0 where
  pub sg : ServerGrp
  pub persisters : List Persister
  pub killed : List ℕ

-- The loop of makeServer, from end `j` on; `rand j` is the random name for it.
unfoldable pub make_ends : ℤ → (ℕ → String) → ℕ → ℕ → Network → Exec (List ClientEnd × Network)
unfolding server_name
make_ends gid rand j zero net = returns ([], net)
make_ends gid rand j (suc left) net = Labrpc.make_end (rand j) net >>= λ (r : Network × ClientEnd).
    make_ends gid rand (suc j) left (Labrpc.connect (rand j) (server_name gid j) r.0)
    >>= λ (q : List ClientEnd × Network). returns (r.1 ∷ q.0, q.1)

unfoldable pub names_from : (ℕ → String) → ℕ → ℕ → List String
names_from rand j zero = []
names_from rand j (suc left) = rand j ∷ names_from rand (suc j) left

unfoldable pub make_server : ℤ → ℕ → (ℕ → String) → Network → Exec (Server × Network)
unfolding make_ends names_from
make_server gid nsrv rand net = make_ends gid rand 0 nsrv net >>= λ (r : List ClientEnd × Network).
    returns (
      record {
        saved = none;
        svcs = none;
        end_names = some (names_from rand 0 nsrv);
        clnt_ends = r.0;
      },
      r.1,
    )

-- makeSrvGrp: `rand i` are the names for the ends of server `i`.
unfoldable pub make_servers :
    ℤ → ℕ → (ℕ → ℕ → String) → ℕ → ℕ → Network → Exec (List Server × Network)
unfolding make_server
make_servers gid n rand i zero net = returns ([], net)
make_servers gid n rand i (suc left) net =
    make_server gid n (rand i) net >>= λ (r : Server × Network).
    make_servers gid n rand (suc i) left r.1 >>= λ (q : List Server × Network).
    returns (r.0 ∷ q.0, q.1)

unfoldable pub server_names : ℤ → ℕ → ℕ → List String
unfolding server_name
server_names gid i zero = []
server_names gid i (suc left) = server_name gid i ∷ server_names gid (suc i) left

unfoldable pub make_srv_grp : ℤ → ℕ → (ℕ → ℕ → String) → Network → Exec ServerGrp
unfolding make_servers server_names
make_srv_grp gid n rand net = make_servers gid n rand 0 n net >>= λ (r : List Server × Network).
    returns (record {
      net = r.1;
      srvs = r.0;
      servernames = server_names gid 0 n;
      gid = gid;
      connected = replicate n false;
    })

-- Services, and SrvNamesTo, which panics out of range.
unfoldable pub services : List Server → List (Option (List (Option ℕ)))
services [] = []
services (s ∷ srvs) = s.svcs ∷ services srvs

unfoldable pub srv_names_to : List ℕ → ServerGrp → Exec (List String)
srv_names_to [] sg = returns []
srv_names_to (i ∷ to) sg = elim (get_elem? sg.servernames i) [
  | none ↦ panics
  | some name ↦ srv_names_to to sg >>= λ (ns : List String). returns (name ∷ ns)
]

-- `p.Copy()` of the Persister with number `p`: the new number, and the Persisters with the copy.
unfoldable pub copy_saved : ℕ → List Persister → Exec (ℕ × List Persister)
copy_saved p persisters = elim (get_elem? persisters p) [
  | none ↦ panics
  | some ps ↦ returns (length persisters, persisters ++ copy ps ∷ [])
]

-- The length of a slice that may be nil.
abbrev pub size_of : Option (List String) → ℕ
size_of none = 0
size_of (some xs) = length xs

-- Server.startServer
unfoldable pub start_server_of : ℤ → (ℕ → String) → Server → World → Exec (Server × World)
unfolding make_server copy_saved
start_server_of gid rand s w =
    make_server gid (size_of s.end_names) rand w.sg.net >>= λ (r : Server × Network).
    let fresh : Exec (ℕ × List Persister) =
      returns (length w.persisters, w.persisters ++ make_persister ∷ []) in
    elim s.saved [ some p ↦ copy_saved p w.persisters | none ↦ fresh ]
    >>= λ (q : ℕ × List Persister). returns (
      record r.0 { saved = some q.0 },
      record w { sg = record w.sg { net = r.1 }; persisters = q.1 },
    )

-- What starts the lab's code: the ends, the group, the server and its Persister.
abbrev pub StartFun : Type 0
StartFun = List ClientEnd → ℤ → ℕ → ℕ → List (Option ℕ)

-- The loop of StartServer over the services: labrpc.MakeService panics at a nil one.
unfoldable pub make_services : List (Option ℕ) → Exec (Unit {0})
make_services [] = returns tt
make_services (none ∷ svcs) = panics
make_services (some n ∷ svcs) = make_services svcs

-- ServerGrp.StartServer; `rs` is the new labrpc.Server, with the services.
unfoldable pub start_server : StartFun → ℕ → (ℕ → String) → ServerRef → World → Exec World
unfolding start_server_of make_services
start_server mks i rand rs w = server_at w.sg i >>= λ (s : Server).
    start_server_of w.sg.gid rand s w >>= λ (r : Server × World).
    let w1 = r.1 in
    let svcs = mks r.0.clnt_ends w1.sg.gid i (or_else r.0.saved 0) in
    make_services svcs
    >> returns (record w1 {
      sg = record w1.sg {
        srvs = set w1.sg.srvs i (record r.0 { svcs = some svcs });
        net = add_server (server_name w1.sg.gid i) rs w1.sg.net;
      };
    })

-- Kill for the services that are not nil.
unfoldable pub kill_all : List (Option ℕ) → List ℕ → List ℕ
kill_all [] killed = killed
kill_all (none ∷ svcs) killed = kill_all svcs killed
kill_all (some n ∷ svcs) killed = kill_all svcs (killed ++ n ∷ [])

-- Server.shutdownServer
unfoldable pub shutdown_server_of : Server → World → Exec (Server × World)
unfolding copy_saved kill_all
shutdown_server_of s w =
    let kept : Exec (Option ℕ × List Persister) = returns (none, w.persisters) in
    elim s.saved [
      | none ↦ kept
      | some p ↦ copy_saved p w.persisters >>= λ (q : ℕ × List Persister). returns (some q.0, q.1)
    ]
    >>= λ (q : Option ℕ × List Persister). returns (
      record s { saved = q.0; svcs = none },
      record w { persisters = q.1; killed = kill_all (or_else s.svcs []) w.killed },
    )

-- ServerGrp.ShutdownServer
unfoldable pub shutdown_server : ℕ → World → Exec World
unfolding shutdown_server_of
shutdown_server i w = disconnect_all i w.sg >>= λ (sg1 : ServerGrp).
    let w1 = record w { sg = record sg1 { net = delete_server (server_name sg1.gid i) sg1.net } } in
    server_at w1.sg i >>= λ (s : Server). shutdown_server_of s w1 >>= λ (r : Server × World).
    let w2 = r.1 in returns (record w2 { sg = record w2.sg { srvs = set w2.sg.srvs i r.0 } })

unfoldable pub shutdown_each : List ℕ → World → Exec World
unfolding shutdown_server
shutdown_each [] w = returns w
shutdown_each (i ∷ is) w = shutdown_server i w >>= shutdown_each is

unfoldable pub shutdown : World → Exec World
unfolding shutdown_each
shutdown w = shutdown_each (all w.sg) w

-- start: `rand i` are the names for server `i`, and `rs i` is its labrpc.Server.
unfoldable pub start_each :
    StartFun → List ℕ → (ℕ → ℕ → String) → (ℕ → ServerRef) → World → Exec World
unfolding start_server
start_each mks [] rand rs w = returns w
start_each mks (i ∷ is) rand rs w =
    start_server mks i (rand i) (rs i) w >>= start_each mks is rand rs

unfoldable pub start : StartFun → (ℕ → ℕ → String) → (ℕ → ServerRef) → World → Exec World
unfolding start_each
start mks rand rs w = start_each mks (all w.sg) rand rs w

unfoldable pub start_servers : StartFun → (ℕ → ℕ → String) → (ℕ → ServerRef) → World → Exec World
unfolding start
start_servers mks rand rs w = start mks rand rs w >>= λ (w1 : World).
    connect_all w1.sg >>= λ (sg : ServerGrp). returns (record w1 { sg = sg })

-- ServerGrp.cleanup: here Kill on a nil service panics.
unfoldable pub kill_each : List (Option ℕ) → List ℕ → Exec (List ℕ)
kill_each [] killed = returns killed
kill_each (none ∷ svcs) killed = panics
kill_each (some n ∷ svcs) killed = kill_each svcs (killed ++ n ∷ [])

unfoldable pub kill_servers : List Server → List ℕ → Exec (List ℕ)
unfolding kill_each
kill_servers [] killed = returns killed
kill_servers (s ∷ srvs) killed = kill_each (or_else s.svcs []) killed >>= kill_servers srvs

unfoldable pub cleanup : World → Exec World
unfolding kill_servers
cleanup w =
    kill_servers w.sg.srvs w.killed >>= λ (killed : List ℕ). returns (record w { killed = killed })

-- The loop of LogSize and of SnapshotSize; a server with no Persister panics.
unfoldable pub largest : (Persister → ℕ) → List Server → List Persister → ℕ → Exec ℕ
largest size [] persisters so_far = returns so_far
largest size (s ∷ srvs) persisters so_far = elim s.saved [
  | none ↦ panics
  | some p ↦ elim (get_elem? persisters p) [
    | none ↦ panics
    | some ps ↦ largest size srvs persisters (if ltb so_far (size ps) then size ps else so_far)
  ]
]

unfoldable pub log_size : Heap → World → Exec ℕ
unfolding largest
log_size heap w = largest (λ ps. raft_state_size ps heap) w.sg.srvs w.persisters 0

unfoldable pub snapshot_size_of : Heap → World → Exec ℕ
unfolding largest
snapshot_size_of heap w = largest (λ ps. snapshot_size ps heap) w.sg.srvs w.persisters 0
