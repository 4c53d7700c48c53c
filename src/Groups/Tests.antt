-- ===== src/Groups/Tests.antt =====
-- A group of three servers and its partitions, and the theorems at it.
use mit.Base.Int.{pos, negsuc}
use mit.Base.{
  ℕ, ◌+◌, ◌≤◌, List, length, All, String, some, [], ◌∷◌, nat_eq, string_eq, contains, get_elem?,
  ◌≡◌, refl, sym, ◌∙◌, ap, arith, nat_beq_iff,
}
use mit.Base.Maps.{lookup}
use mit.Base.Exec.{returns}
use mit.Groups.Samples.{
  count_ones, name, name-apart, ones, ones_trip, running, server, state, three, three-IsNamed,
  world, world-IsNamed,
}
use mit.Groups.{ServerGrp, partition, make_partition}
use mit.Groups.Minority.{IsSplit, make_partition-IsPartitioned}
use mit.Persister.{Persister, raft_state_size, snapshot_size}
use mit.Groups.Servers.{
  World, server_name, start_server, shutdown_server, kill_all, StartFun, log_size, snapshot_size_of,
}
use mit.Groups.Restart.{AreFresh, IsBack, restart-IsBack}
use mit.Groups.Names.{server_name-inj}
use mit.Groups.Sizes.{AllSaved, Attained, sizes_bound}
use mit.Groups.Partitions.{AreDisjoint, IsPartitioned, partition-IsPartitioned}

apart_lists : AreDisjoint (0 ∷ 2 ∷ []) (1 ∷ [])
unfolding contains
apart_lists i h = ground (arith, nat_beq_iff i 0, nat_beq_iff i 1, nat_beq_iff i 2)

partition-IsPartitioned_example :
    (sg' : ServerGrp) × (partition (0 ∷ 2 ∷ []) (1 ∷ []) three ≡ returns sg')
    × IsPartitioned 3 name name-apart (0 ∷ 2 ∷ []) (1 ∷ []) three sg'
partition-IsPartitioned_example =
    partition-IsPartitioned 3 name name-apart (0 ∷ 2 ∷ []) (1 ∷ []) three three-IsNamed
      (omega arith, (omega arith, tt)) (omega arith, tt) apart_lists

make_partition_odd : make_partition 5 1 ≡ returns (0 ∷ 2 ∷ 3 ∷ [], 4 ∷ 1 ∷ [])
unfolding make_partition
make_partition_odd = refl

-- With four servers there is a place left over, which holds server 0 a second time.
make_partition_even : make_partition 4 3 ≡ returns (0 ∷ 1 ∷ 2 ∷ [], 0 ∷ 3 ∷ [])
unfolding make_partition
make_partition_even = refl

make_partition-IsPartitioned_example :
    (p1 : List ℕ) × (p2 : List ℕ) × (sg' : ServerGrp) × (make_partition 3 2 ≡ returns (p1, p2))
    × (partition p1 p2 three ≡ returns sg')
    × IsSplit 3 2 p1 p2
    × (length p1 ≡ length p2 + 1)
    × IsPartitioned 3 name name-apart p1 p2 three sg'
make_partition-IsPartitioned_example =
    make_partition-IsPartitioned 1 2 name name-apart three (omega arith) (omega arith) three-IsNamed

server_name_runs : server_name (pos 12) 305 ≡ "server-12-305"
unfolding server_name
server_name_runs = refl

-- The new names are unary numbers; the old instance saves something else.
abbrev fresh_name : ℕ → String
fresh_name k = ones k ""

fresh_name-AreFresh : AreFresh fresh_name 0 3 world.sg.net
unfolding lookup
fresh_name-AreFresh = record {
  new = λ k lo hi. refl;
  apart = λ k l lo hi lo' hi' eq.
      let pair : some (k, "") ≡ some (l, "") =
        sym (ones_trip k "") ∙ ap count_ones eq ∙ ones_trip l "" in
      cc pair;
}

abbrev late_save : List Persister → List Persister
late_save [] = []
late_save (ps ∷ all) = state 9 ∷ all

late_save-kept :
    (all : List Persister)
    → (length (late_save all) ≡ length all) × (get_elem? (late_save all) 1 ≡ get_elem? all 1)
late_save-kept [] = (refl, refl)
late_save-kept (ps ∷ all) = (refl, refl)

abbrev one_service : StartFun
one_service ends gid i p = some 6 ∷ []

restart-IsBack_example :
    (w1 : World) × (w2 : World) × (shutdown_server 1 world ≡ returns w1)
    × (start_server one_service 1 fresh_name 8 (record w1 { persisters = late_save w1.persisters })
        ≡ returns w2)
    × IsBack 3 name name-apart one_service 1 fresh_name 8 (state 0) world w2
    × (w2.killed ≡ 4 ∷ 5 ∷ [])
unfolding kill_all
restart-IsBack_example =
    restart-IsBack 3 name name-apart one_service 1 0 fresh_name 8 running (state 0) world late_save
      world-IsNamed refl (omega arith) refl refl refl refl fresh_name-AreFresh late_save-kept
      (λ ends q. (refl, tt))

abbrev saved_world : World
saved_world = record world {
  sg = record three { srvs = running ∷ record (server 0) { saved = some 1 } ∷ [] };
  persisters = state 0 ∷ state 1 ∷ [];
}

saved_world-AllSaved : AllSaved saved_world.persisters saved_world.sg.srvs (state 0 ∷ state 1 ∷ [])
saved_world-AllSaved = (
  record { pointer = 0; saved = refl; there = refl },
  (record { pointer = 1; saved = refl; there = refl }, tt),
)

abbrev heap : List (List ℕ)
heap = (1 ∷ []) ∷ (1 ∷ 2 ∷ []) ∷ []

sizes_bound_example :
    (log : ℕ) × (snap : ℕ) × (log_size heap saved_world ≡ returns log)
    × (snapshot_size_of heap saved_world ≡ returns snap)
    × All (λ ps. raft_state_size ps heap ≤ log) (state 0 ∷ state 1 ∷ [])
    × All (λ ps. snapshot_size ps heap ≤ snap) (state 0 ∷ state 1 ∷ [])
    × Attained (λ ps. raft_state_size ps heap) 0 (state 0 ∷ state 1 ∷ []) log
    × Attained (λ ps. snapshot_size ps heap) 0 (state 0 ∷ state 1 ∷ []) snap
sizes_bound_example = sizes_bound heap saved_world (state 0 ∷ state 1 ∷ []) saved_world-AllSaved

abbrev seventh : ℕ
seventh = 7

server_name-inj_example : (negsuc 2 ≡ negsuc 2) × (seventh ≡ seventh)
server_name-inj_example = server_name-inj (negsuc 2) (negsuc 2) seventh seventh refl

negative_name_runs : server_name (negsuc 2) 7 ≡ "server--3-7"
unfolding server_name
negative_name_runs = refl
