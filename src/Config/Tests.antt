-- ===== src/Config/Tests.antt =====
-- A test with two groups, and the theorems at it.
use mathlib.Core.List.{Perm}
use mit.Base.{
  ℕ, zero, suc, ◌%◌, ◌*◌, ◌^◌, ◌<◌, false, none, some, List, [], ◌∷◌, ◌≡◌, refl, ap, ◌∙◌, nat_eq,
  arith, get_elem?,
}
use mit.Base.Int.{pos}
use mit.Base.Maps.{lookup}
use mit.Base.Exec.{returns, fatal}
use mit.Labrpc.{make_network}
use mit.Groups.{Server, ServerGrp, end_name}
use mit.Groups.Samples.{name, name-apart, three, world, world-IsNamed, server, running}
use mit.Groups.Shutdowns.{CanStop}
use mit.Config.{Config, world_of, end_, random_handles, exit_group}
use mit.Config.Handles.{random_handles-Perm}
use mit.Config.Counters.{Event, operation, request, reply}
use mit.Config.Exits.{IsGone, exit_group-IsGone}

abbrev lone : ServerGrp
lone = record three { srvs = server 0 ∷ []; gid = pos 0 }

abbrev group1 : ServerGrp
group1 = record world.sg { gid = pos 1 }

abbrev config : Config
config = record {
  net = make_network;
  grps = (pos 0, lone) ∷ (pos 1, group1) ∷ [];
  clerks = some [];
  persisters = world.persisters;
  killed = [];
  failed = false;
  start = 5;
  t0 = 5;
  rpcs0 = 0;
  ops = 7;
}

random_handles-Perm_example :
    (sa : List ℕ) × (random_handles (λ i. i % 2) (4 ∷ 5 ∷ 6 ∷ 4 ∷ []) ≡ returns sa)
    × Perm sa (4 ∷ 5 ∷ 6 ∷ 4 ∷ [])
random_handles-Perm_example =
    random_handles-Perm (λ i. i % 2) (4 ∷ 5 ∷ 6 ∷ 4 ∷ []) (λ k. omega arith)

random_handles_runs :
    random_handles {A = ℕ} (λ i. i % 2) (4 ∷ 5 ∷ 6 ∷ 7 ∷ []) ≡ returns (6 ∷ 7 ∷ 4 ∷ 5 ∷ [])
unfolding random_handles
random_handles_runs = refl

abbrev events : List Event
events = operation ∷ request 20 ∷ reply 8 ∷ request 20 ∷ operation ∷ operation ∷ []

end_late : end_ (121 * 10 ^ 9) config ≡ fatal
unfolding end_
end_late = refl

world-saved : (i p : ℕ) (s : Server) → get_elem? world.sg.srvs i ≡ some s → s.saved ≡ some p → p < 1
world-saved zero p s at h =
    let is : server 0 ≡ s = cc at in
    let e : none ≡ some p = ap (λ (x : Server). x.saved) is ∙ h in cc e
world-saved (suc zero) p s at h =
    let is : running ≡ s = cc at in
    let e : some 0 ≡ some p = ap (λ (x : Server). x.saved) is ∙ h in
    let z : 0 ≡ p = cc e in omega arith
world-saved (suc (suc zero)) p s at h =
    let is : server 2 ≡ s = cc at in
    let e : none ≡ some p = ap (λ (x : Server). x.saved) is ∙ h in cc e
world-saved (suc (suc (suc i))) p s at h = cc at

config-CanStop : CanStop 3 name (world_of config group1)
unfolding make_network end_name
config-CanStop = record {
  named = record {
    size = world-IsNamed.size;
    servers = world-IsNamed.servers;
    ends = world-IsNamed.ends;
  };
  size = refl;
  saved = world-saved;
}

exit_group-IsGone_example :
    (cfg' : Config) × (exit_group (pos 1) config ≡ returns cfg')
    × IsGone 3 (pos 1) group1 config cfg'
unfolding lookup
exit_group-IsGone_example =
    exit_group-IsGone 3 name name-apart (pos 1) group1 config refl refl config-CanStop
