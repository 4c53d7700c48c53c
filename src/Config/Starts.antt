-- ===== src/Config/Starts.antt =====
-- MakeGroupStart of a group with new names for its ends.
use mit.Base.Int.{ℤ, int_eq, beq_ℤ_iff}
use mit.Base.{ℕ, ◌≡◌, ◌≤◌, String, false, some, List, ◌==◌, string_eq, length, ◌∙◌, arith}
use mit.Base.Maps.{lookup, has, insert, lookup-insert}
use mit.Base.Exec.{returns}
use mit.Labrpc.{ClientEnd, ServerRef}
use mit.Groups.{ServerGrp}
use mit.Groups.Ends.{AreApart}
use mit.Groups.Restart.{HasNoNil}
use mit.Groups.Servers.{StartFun, server_names}
use mit.Groups.Shutdowns.{CanStop, IsNamed-net}
use mit.Groups.Makes.{IsOther, AreUnused}
use mit.Groups.Starts.{make_and_start}
use mit.Config.{Config, world_of, put_world, make_group, group, make_group_start}

-- The group is in the table, and can be shut down.
pub record IsRunning (n : ℕ) (name : ℕ → ℕ → String) (gid : ℤ) (cfg : Config) : Type 0 where
  pub sg : ServerGrp
  pub there : lookup gid cfg.grps ≡ some sg
  pub numbered : sg.gid ≡ gid
  pub named : sg.servernames ≡ server_names gid 0 n
  pub can_stop : CanStop n name (world_of cfg sg)

-- A group that runs goes on, while other groups come and go.
pub IsRunning-later :
    (n : ℕ) (name : ℕ → ℕ → String) (gid : ℤ) (cfg cfg' : Config)
    → IsRunning n name gid cfg
    → lookup gid cfg'.grps ≡ lookup gid cfg.grps
    → length cfg.persisters ≤ length cfg'.persisters
    → IsRunning n name gid cfg'
IsRunning-later n name gid cfg cfg' r same more = record {
  sg = r.sg;
  there = same ∙ r.there;
  numbered = r.numbered;
  named = r.named;
  can_stop = record {
    named = IsNamed-net (world_of cfg r.sg).sg cfg'.net r.can_stop.named;
    size = r.can_stop.size;
    saved = λ i p s at saved. omega (arith, r.can_stop.saved i p s at saved, more);
  };
}

-- What MakeGroupStart leaves.
pub record IsMade (n : ℕ) (made rand : ℕ → ℕ → String) (gid : ℤ) (cfg cfg' : Config) : Type 0 where
  pub running : IsRunning n rand gid cfg'
  pub groups : (g : ℤ) → (g == gid) ≡ false → lookup g cfg'.grps ≡ lookup g cfg.grps
  pub more : length cfg.persisters ≤ length cfg'.persisters
  pub ends :
      (x : String)
      → IsOther n made 0 n x
      → IsOther n rand 0 n x
      → has x cfg'.net.ends ≡ has x cfg.net.ends

pub make_group_start-IsMade :
    (n : ℕ) (made rand : ℕ → ℕ → String) (gid : ℤ) (mks : StartFun) (rs : ℕ → ServerRef)
    (cfg : Config)
    → AreApart n made
    → AreApart n rand
    → ((ends : List ClientEnd) (g : ℤ) (i p : ℕ) → HasNoNil (mks ends g i p))
    → AreUnused n made 0 n cfg.net
    → AreUnused n rand 0 n cfg.net
    → ((k l i j : ℕ) → (rand k l == made i j) ≡ false)
    → (cfg' : Config) × (make_group_start gid n mks made rand rs cfg ≡ returns cfg')
      × IsMade n made rand gid cfg cfg'
unfolding make_group_start make_group group
make_group_start-IsMade n made rand gid mks rs cfg apart_made apart running new_made new other =
    let (sg, w, ran1, ran2, can, same_gid, names, same_killed, more, ends) =
      make_and_start n made rand apart_made apart gid mks rs cfg.net cfg.persisters cfg.killed
        running new_made new other in
    let cfg1 : Config = record cfg { net = sg.net; grps = insert gid sg cfg.grps } in
    let first : lookup gid cfg1.grps ≡ some sg =
      ground (arith, lookup-insert gid gid sg cfg.grps, beq_ℤ_iff gid gid) in
    (
      put_world gid w cfg1,
      ground (arith, ran1, first, ran2),
      record {
        running = record {
          sg = w.sg;
          there = ground (arith, lookup-insert gid gid w.sg cfg1.grps, beq_ℤ_iff gid gid);
          numbered = same_gid;
          named = names;
          can_stop = can;
        };
        groups = λ g ne.
            ground (arith, lookup-insert gid g w.sg cfg1.grps, lookup-insert gid g sg cfg.grps, ne);
        more = more;
        ends = ends;
      },
    )
