-- ===== src/Config.antt =====
-- src/tester1/config.go and the table of groups of src/tester1/group.go: what a test keeps, and how it
-- begins, ends and cleans up. All parts share one network, which is `net` here: the network in the
-- record of a group is not read. The clock (in ns), the random names and the outcomes of `rand` are
-- arguments. Printing is left out.
pub mod Handles
pub mod Counters
pub mod Exits
pub mod Starts
mod Tests
use mit.Base.{
  ℕ, zero, suc, ◌+◌, ◌-◌, ◌*◌, ◌%◌, ◌^◌, String, Bool, true, false, not, ◌&&◌, Option, none, some,
  List, [], ◌∷◌, if◌then◌else◌, ltb, ◌==◌, nat_eq, length, get_elem?, set,
}
use mit.Base.Int.{ℤ, pos, sub_ℕ, int_eq}
use mit.Base.Maps.{Map, lookup, insert, erase}
use mit.Base.Exec.{Exec, returns, fatal, panics, ◌>>=◌, ◌>>◌}
use mit.Labrpc
use mit.Labrpc.{
  Network, ServerRef, make_network, set_reliable, is_reliable, get_total_count, get_total_bytes,
}
use mit.Persister.{Persister}
use mit.Groups.{ServerGrp}
use mit.Groups.Servers.{World, StartFun, make_srv_grp, start_servers, shutdown}
use mit.Groups.Servers
use mit.Clnts
use mit.Clnts.{Clnt, Clnts, make_clnts}
use mit.Annotation
use mit.Annotation.{Annotation}

-- GRP0
abbrev pub grp0 : ℤ
grp0 = pos 0

-- Config with its Groups and Clnts. `persisters` and `killed` are those of `Groups.Servers.World`;
-- `failed` is t.Failed(); `ops` are the bits of an int32.
pub record Config : Type 0 where
  pub net : Network
  pub grps : Map ℤ ServerGrp
  pub clerks : Option (Map ℕ Clnt)
  pub persisters : List Persister
  pub killed : List ℕ
  pub failed : Bool
  pub start : ℕ
  pub t0 : ℕ
  pub rpcs0 : ℕ
  pub ops : ℕ

-- A group with what it leads to, and the config after an operation on it.
abbrev pub world_of : Config → ServerGrp → World
world_of cfg sg = record {
  sg = record sg { net = cfg.net };
  persisters = cfg.persisters;
  killed = cfg.killed;
}

abbrev pub put_world : ℤ → World → Config → Config
put_world gid w cfg = record cfg {
  net = w.sg.net;
  grps = insert gid w.sg cfg.grps;
  persisters = w.persisters;
  killed = w.killed;
}

-- Groups.MakeGroup
unfoldable pub make_group : ℤ → ℕ → (ℕ → ℕ → String) → Config → Exec Config
make_group gid nsrv rand cfg = make_srv_grp gid nsrv rand cfg.net >>= λ (sg : ServerGrp).
    returns (record cfg { net = sg.net; grps = insert gid sg cfg.grps })

-- Group, for what is then called on the group: a call on nil panics.
unfoldable pub group : ℤ → Config → Exec ServerGrp
group gid cfg = elim (lookup gid cfg.grps) [ none ↦ panics | some sg ↦ returns sg ]

-- Groups.delete
unfoldable pub delete : ℤ → Config → Config
delete gid cfg = record cfg { grps = erase gid cfg.grps }

-- Groups.cleanup
unfoldable pub cleanup_groups : Map ℤ ServerGrp → Config → Exec Config
cleanup_groups [] cfg = returns cfg
cleanup_groups ((gid, sg) ∷ grps) cfg = Servers.cleanup (world_of cfg sg) >>= λ (w : World).
    cleanup_groups grps (record cfg { killed = w.killed })

-- MakeGroupStart: `rand` are the names for the ends that are made first, `rand'` those for the ends
-- with which the servers start, and `rs i` is the labrpc.Server of server `i`.
unfoldable pub make_group_start :
    ℤ → ℕ → StartFun → (ℕ → ℕ → String) → (ℕ → ℕ → String) → (ℕ → ServerRef) → Config → Exec Config
unfolding make_group group
make_group_start gid nsrv mks rand rand' rs cfg =
    make_group gid nsrv rand cfg >>= λ (cfg1 : Config). group gid cfg1 >>= λ (sg : ServerGrp).
    start_servers mks rand' rs (world_of cfg1 sg) >>= λ (w : World). returns (put_world gid w cfg1)

unfoldable pub exit_group : ℤ → Config → Exec Config
unfolding group delete
exit_group gid cfg = group gid cfg >>= λ (sg : ServerGrp).
    shutdown (world_of cfg sg) >>= λ (w : World). returns (delete gid (put_world gid w cfg))

-- MakeConfig, at the time `now`.
unfoldable pub make_config :
    ℕ → Bool → StartFun → (ℕ → ℕ → String) → (ℕ → ℕ → String) → (ℕ → ServerRef) → ℕ → Exec Config
unfolding make_group_start make_clnts
make_config n reliable mks rand rand' rs now =
    make_group_start grp0 n mks rand rand' rs (record {
      net = make_network;
      grps = [];
      clerks = none;
      persisters = [];
      killed = [];
      failed = false;
      start = 0;
      t0 = 0;
      rpcs0 = 0;
      ops = 0;
    })
    >>= λ (cfg : Config).
        let clnts = make_clnts cfg.net in
        returns
          (record cfg { net = set_reliable reliable clnts.net; clerks = clnts.clerks; start = now })

-- CheckTimeout: 120 seconds.
unfoldable pub check_timeout : ℕ → Config → Exec (Unit {0})
check_timeout now cfg =
    if not cfg.failed && ltb (120 * 10 ^ 9) (now - cfg.start) then fatal else returns tt

-- Cleanup; `note` is what FinalizeAnnotations gets.
unfoldable pub cleanup :
    String → ℕ → Config → Annotation → Exec (Config × Option (List Annotation.Note) × Annotation)
unfolding cleanup_groups check_timeout
cleanup enabled now cfg an =
    Clnts.cleanup (record { net = cfg.net; clerks = cfg.clerks }) >>= λ (clnts : Clnts).
    cleanup_groups cfg.grps (record cfg { net = clnts.net; clerks = clnts.clerks })
    >>= λ (cfg1 : Config). Labrpc.cleanup cfg1.net >>= λ (net : Network).
        let cfg2 = record cfg1 { net = net } in
        let written : Option (List Annotation.Note) × Annotation =
          if cfg2.failed
          then Annotation.cleanup enabled true "test failed" now an
          else Annotation.cleanup enabled false "test passed" now an in
        check_timeout now cfg2 >> returns (cfg2, written.0, written.1)

unfoldable pub rpc_total : Config → ℕ
rpc_total cfg = get_total_count cfg.net

unfoldable pub bytes_total : Config → ℕ
bytes_total cfg = get_total_bytes cfg.net

-- Begin, with the word that it prints for the network.
unfoldable pub begin : ℕ → Config → String × Config
unfolding rpc_total
begin now cfg = (
  if not (is_reliable cfg.net) then "unreliable" else "reliable",
  record cfg { t0 = now; rpcs0 = rpc_total cfg; ops = 0 },
)

unfoldable pub op : Config → Config
op cfg = record cfg { ops = (cfg.ops + 1) % 2 ^ 32 }

-- What End prints of a test that did not fail.
pub record Summary : Type 0 where
  pub time : ℕ
  pub npeers : ℕ
  pub nrpc : ℤ
  pub nops : ℕ

unfoldable pub end_ : ℕ → Config → Exec (Option Summary)
unfolding check_timeout group rpc_total
end_ now cfg =
    let passed : Exec (Option Summary) = group grp0 cfg >>= λ (sg : ServerGrp). returns (
      some (record {
        time = now - cfg.t0;
        npeers = length sg.srvs;
        nrpc = sub_ℕ (rpc_total cfg) cfg.rpcs0;
        nops = cfg.ops;
      })) in
    check_timeout now cfg >> (if cfg.failed then returns none else passed)

-- random_handles, with what `rand.Intn(i + 1)` gives in round `i`.
module _ {A : Type 0} where
  unfoldable pub swap : ℕ → ℕ → List A → Exec (List A)
  swap i j sa = elim (get_elem? sa i) [
    | none ↦ panics
    | some x ↦ elim (get_elem? sa j) [ none ↦ panics | some y ↦ returns (set (set sa i y) j x) ]
  ]

  unfoldable pub shuffle : (ℕ → ℕ) → ℕ → ℕ → List A → Exec (List A)
  unfolding swap
  shuffle rand i zero sa = returns sa
  shuffle rand i (suc left) sa = swap i (rand i) sa >>= shuffle rand (suc i) left

  unfoldable pub random_handles : (ℕ → ℕ) → List A → Exec (List A)
  unfolding shuffle
  random_handles rand kvh = shuffle rand 0 (length kvh) kvh
