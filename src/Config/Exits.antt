-- ===== src/Config/Exits.antt =====
-- ExitGroup: what is left of a group.
use mit.Base.Int.{ℤ, int_eq}
use mit.Base.{
  length, ◌≤◌, ℕ, ◌≡◌, ◌≢◌, ◌<◌, String, true, none, some, [], if◌then◌else◌, or_else, ◌==◌, nat_eq,
  string_eq, get_elem?, contains, refl, arith,
}
use mit.Base.Maps.{lookup, lookup-insert, lookup-erase}
use mit.Base.Exec.{returns}
use mit.Labrpc
use mit.Groups.{Server, ServerGrp}
use mit.Groups.Ends.{AreApart}
use mit.Groups.Names.{server_names-gid, contains-server_names}
use mit.Groups.Servers.{server_name}
use mit.Groups.Shutdowns.{CanStop, shutdown_returns}
use mit.Groups.Stops.{is_service}
use mit.Config.{Config, world_of, put_world, exit_group, group, delete}

-- What ExitGroup of the group `sg` of `n` servers leaves.
pub record IsGone (n : ℕ) (gid : ℤ) (sg : ServerGrp) (cfg cfg' : Config) : Type 0 where
  pub groups : (g : ℤ) → lookup g cfg'.grps ≡ (if g == gid then none else lookup g cfg.grps)
  -- its servers are off the network, those of the other groups are as they were
  pub off : (i : ℕ) → i < n → Labrpc.server_at cfg'.net (server_name gid i) ≡ none
  pub others :
      (g : ℤ) (i : ℕ)
      → g ≢ gid
      → Labrpc.server_at cfg'.net (server_name g i) ≡ Labrpc.server_at cfg.net (server_name g i)
  -- its services are told to stop
  pub stops :
      (k x : ℕ) (s : Server)
      → get_elem? sg.srvs k ≡ some s
      → is_service x (or_else s.svcs []) ≡ true
      → contains x cfg'.killed ≡ true
  pub stopped : (x : ℕ) → contains x cfg.killed ≡ true → contains x cfg'.killed ≡ true
  pub same_clerks : cfg'.clerks ≡ cfg.clerks
  pub more : length cfg.persisters ≤ length cfg'.persisters

-- ExitGroup of a group with its ends and its Persisters returns: the group is out of the table, its
-- servers are off the network and each of its services has been told to stop, while the other groups
-- and their servers stay.
pub exit_group-IsGone :
    (n : ℕ) (name : ℕ → ℕ → String) (apart : AreApart n name) (gid : ℤ) (sg : ServerGrp)
    (cfg : Config)
    → lookup gid cfg.grps ≡ some sg
    → sg.gid ≡ gid
    → CanStop n name (world_of cfg sg)
    → (cfg' : Config) × (exit_group gid cfg ≡ returns cfg') × IsGone n gid sg cfg cfg'
unfolding exit_group group delete
exit_group-IsGone n name apart gid sg cfg has is can =
    let (w, ran, gone, kept, stops, grown) = shutdown_returns n name apart (world_of cfg sg) can in
    (
      delete gid (put_world gid w cfg),
      ground (arith, has, ran),
      record {
        groups = λ g. ground (
          arith,
          lookup-erase gid g (put_world gid w cfg).grps,
          lookup-insert gid g w.sg cfg.grps,
        );
        off = λ i h. ground (
          arith,
          gone (server_name gid i),
          is,
          contains-server_names gid i 0 n (omega arith) (omega (arith, h)),
        );
        others =
            λ g i ne. ground (arith, gone (server_name g i), is, server_names-gid g gid i 0 n ne);
        stops = stops;
        stopped = kept;
        same_clerks = refl;
        more = grown;
      },
    )
