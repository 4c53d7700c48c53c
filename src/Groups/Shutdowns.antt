-- ===== src/Groups/Shutdowns.antt =====
-- Shutdown of a group.
use mit.Base.Int.{ℤ}
use mit.Base.{
  ℕ, zero, suc, ◌≤◌, ◌<◌, String, true, none, some, List, [], ◌∷◌, ◌++◌, if◌then◌else◌, or_else,
  ◌==◌, nat_eq, string_eq, nat_beq_iff, length, get_elem?, set, contains, length-append, length-set,
  get_elem?-below, get_elem?-set, ◌≡◌, refl, ap, ◌∙◌, inl, inr, arith, Bool-cases, Option-cases,
}
use mit.Base.Maps.{lookup-insert}
use mit.Base.Exec.{returns}
use mit.Labrpc
use mit.Labrpc.{Network, delete_server}
use mit.Persister.{Persister, copy}
use mit.Groups.{Server, ServerGrp, end_name, all_from, all, disconnect_all}
use mit.Groups.Ends.{IsNamed, IsNamed-Keeps, AreApart, AreServers}
use mit.Groups.Rounds.{disconnect-Sets}
use mit.Groups.Restart.{All-all_from, contains-all_from}
use mit.Groups.Servers.{
  World, copy_saved, kill_all, shutdown_server_of, shutdown_server, shutdown_each, shutdown,
  server_name, server_names,
}
use mit.Groups.Stops.{contains-kill_all, disconnect-servers, is_service, set-IsNamed}

-- The servers' Persisters exist.
abbrev pub AreSaved : List Server → List Persister → Type 0
AreSaved srvs persisters =
    (i p : ℕ) (s : Server) → get_elem? srvs i ≡ some s → s.saved ≡ some p → p < length persisters

-- A group of `n` servers that can be shut down.
pub record CanStop (n : ℕ) (name : ℕ → ℕ → String) (w : World) : Type 0 where
  pub named : IsNamed n name w.sg
  pub size : length w.sg.srvs ≡ n
  pub saved : AreSaved w.sg.srvs w.persisters

-- The step from `w` to `w1` has stopped server `i`, which was `s`.
pub record IsStopped (i : ℕ) (s : Server) (w w1 : World) : Type 0 where
  pub server : Server
  pub idle : server.svcs ≡ none
  pub changed : w1.sg.srvs ≡ set w.sg.srvs i server
  pub kills : w1.killed ≡ kill_all (or_else s.svcs []) w.killed
  pub same_gid : w1.sg.gid ≡ w.sg.gid
  pub more : length w.persisters ≤ length w1.persisters
  pub deleted :
      (x : String)
      → Labrpc.server_at w1.sg.net x
        ≡ (if x == server_name w.sg.gid i then none else Labrpc.server_at w.sg.net x)

-- The names of the ends do not depend on the network.
pub IsNamed-net :
    {n : ℕ} {name : ℕ → ℕ → String} (sg : ServerGrp) (net : Network)
    → IsNamed n name sg
    → IsNamed n name (record sg { net = net })
unfolding end_name
IsNamed-net sg net named = record { size = named.size; servers = named.servers; ends = named.ends }

-- shutdownServer returns, and gives a Persister that exists.
pub shutdown_server_of_returns :
    (s : Server) (w : World)
    → ((p : ℕ) → s.saved ≡ some p → p < length w.persisters)
    → (s1 : Server) × (persisters : List Persister) × (shutdown_server_of s w
        ≡ returns (
          s1,
          record w { persisters = persisters; killed = kill_all (or_else s.svcs []) w.killed },
        ))
      × (s1.svcs ≡ none)
      × (s1.end_names ≡ s.end_names)
      × ((p : ℕ) → s1.saved ≡ some p → p < length persisters)
      × (length w.persisters ≤ length persisters)
unfolding shutdown_server_of copy_saved
shutdown_server_of_returns s w there = elim (Option-cases s.saved) [
  | inl e ↦ (
    record s { saved = none; svcs = none },
    w.persisters,
    ground (arith, e),
    refl,
    refl,
    λ p h. cc h,
    omega arith,
  )
  | inr (p, e) ↦
      let (ps, has_ps) = get_elem?-below w.persisters p (there p e) in
      (
        record s { saved = some (length w.persisters); svcs = none },
        w.persisters ++ copy ps ∷ [],
        ground (arith, e, has_ps),
        refl,
        refl,
        λ q h.
            (let same : length w.persisters ≡ q = cc h in
              omega (arith, length-append w.persisters (copy ps ∷ []), same)),
        omega (arith, length-append w.persisters (copy ps ∷ [])),
      )
]

abbrev pub names_of : ℤ → List ℕ → List String
names_of gid [] = []
names_of gid (i ∷ is) = server_name gid i ∷ names_of gid is

pub names_of-all_from :
    (gid : ℤ) (i : ℕ) (srvs : List Server)
    → names_of gid (all_from i srvs) ≡ server_names gid i (length srvs)
unfolding all_from server_names
names_of-all_from gid i [] = refl
names_of-all_from gid i (s ∷ srvs) =
    ap (◌∷◌ (server_name gid i)) (names_of-all_from gid (suc i) srvs)

pub below-length :
    (srvs : List Server) (k : ℕ) (s : Server) → get_elem? srvs k ≡ some s → k < length srvs
below-length [] k s h = cc h
below-length (x ∷ srvs) zero s h = omega arith
below-length (x ∷ srvs) (suc k) s h = omega (arith, below-length srvs k s h)

module _ (n : ℕ) (name : ℕ → ℕ → String) (apart : AreApart n name) where
  shutdown_server-IsStopped :
      (i : ℕ) (s : Server) (w : World)
      → CanStop n name w
      → i < n
      → get_elem? w.sg.srvs i ≡ some s
      → (w1 : World) × (shutdown_server i w ≡ returns w1) × CanStop n name w1 × IsStopped i s w w1
  unfolding shutdown_server disconnect_all all delete_server
  shutdown_server-IsStopped i s w can li at =
      let (sg1, ran, sets) =
        disconnect-Sets n name apart i (all_from 0 w.sg.srvs) w.sg can.named li
          (All-all_from n 0 w.sg.srvs (omega (arith, can.size))) in
      let at1 : get_elem? sg1.srvs i ≡ some s = ap (λ l. get_elem? l i) sets.keeps.same_srvs ∙ at in
      let w1 : World = record w {
        sg = record sg1 { net = delete_server (server_name sg1.gid i) sg1.net };
      } in
      let (s1, persisters, ran1, idle, same_names, valid, more) =
        shutdown_server_of_returns s w1 (λ p h. can.saved i p s at h) in
      let changed : set sg1.srvs i s1 ≡ set w.sg.srvs i s1 =
        ap (λ (l : List Server). set l i s1) sets.keeps.same_srvs in
      let w2 : World = record {
        sg = record w1.sg { srvs = set sg1.srvs i s1 };
        persisters = persisters;
        killed = kill_all (or_else s.svcs []) w.killed;
      } in
      (
        w2,
        ground (arith, ran, at1, ran1),
        record {
          named =
              set-IsNamed n name w1.sg i s s1
                (IsNamed-net sg1 w1.sg.net (IsNamed-Keeps n name w.sg sg1 sets.keeps can.named)) at1
                same_names;
          size = length-set sg1.srvs i s1 ∙ ap length sets.keeps.same_srvs ∙ can.size;
          saved = λ k p x h has_p. elim (Bool-cases (k == i)) [
            | inl e ↦
                let is : s1 ≡ x = ground (arith, get_elem?-set sg1.srvs i k s1 s at1, e, h) in
                valid p (ap (λ (z : Server). z.saved) is ∙ has_p)
            | inr e ↦
                let old : get_elem? w.sg.srvs k ≡ some x =
                  ground (arith, get_elem?-set sg1.srvs i k s1 s at1, e, h, sets.keeps.same_srvs) in
                omega (arith, can.saved k p x old has_p)
          ];
        },
        record {
          server = s1;
          idle = idle;
          changed = changed;
          kills = refl;
          same_gid = sets.keeps.same_gid;
          more = more;
          deleted = λ x.
              (let servers = disconnect-servers i (all_from 0 w.sg.srvs) w.sg sg1 ran in
                ground (
                  arith,
                  lookup-insert (server_name sg1.gid i) x none sg1.net.servers,
                  servers,
                  sets.keeps.same_gid,
                ));
        },
      )

  -- The loop of Shutdown over the servers `is`.
  shutdown_each_returns :
      (is : List ℕ) (w : World)
      → CanStop n name w
      → AreServers n name is
      → (w' : World) × (shutdown_each is w ≡ returns w')
        × ((x : String)
            → Labrpc.server_at w'.sg.net x
              ≡ (if contains x (names_of w.sg.gid is) then none else Labrpc.server_at w.sg.net x))
        × ((x : ℕ) → contains x w.killed ≡ true → contains x w'.killed ≡ true)
        × ((k x : ℕ) (s : Server)
            → contains k is ≡ true
            → get_elem? w.sg.srvs k ≡ some s
            → is_service x (or_else s.svcs []) ≡ true
            → contains x w'.killed ≡ true)
        × (length w.persisters ≤ length w'.persisters)
  unfolding shutdown_each contains
  shutdown_each_returns [] w can below =
      (w, refl, λ x. refl, λ x h. h, λ k x s has at svc. cc has, omega arith)
  shutdown_each_returns (i ∷ is) w can below =
      let (s, at) = get_elem?-below w.sg.srvs i (omega (arith, can.size, below.0)) in
      let (w1, ran1, can1, step) = shutdown_server-IsStopped i s w can below.0 at in
      let (w', ran, gone, kept, stops, grown) = shutdown_each_returns is w1 can1 below.1 in
      let names : names_of w1.sg.gid is ≡ names_of w.sg.gid is =
        ap (λ (g : ℤ). names_of g is) step.same_gid in
      (
        w',
        ground (arith, ran1, ran),
        λ x. ground (arith, gone x, step.deleted x, names),
        λ x h.
            kept x
              (ground (arith, step.kills, contains-kill_all x (or_else s.svcs []) w.killed, h)),
        λ k x t has at' svc. elim (Bool-cases (k == i)) [
          | inl e ↦
              let is : t ≡ s = cc (at', at, ap (get_elem? w.sg.srvs) ((nat_beq_iff k i).0 e)) in
              kept x (
                ground
                  (arith, step.kills, contains-kill_all x (or_else s.svcs []) w.killed, is, svc))
          | inr e ↦
              stops k x t (ground (arith, has, e))
                (ground (arith, step.changed, get_elem?-set w.sg.srvs i k step.server s at, e, at'))
                svc
        ],
        omega (arith, step.more, grown),
      )

  -- Shutdown of all servers.
  pub shutdown_returns :
      (w : World)
      → CanStop n name w
      → (w' : World) × (shutdown w ≡ returns w')
        × ((x : String)
            → Labrpc.server_at w'.sg.net x ≡ (
                if contains x (server_names w.sg.gid 0 n)
                then none
                else Labrpc.server_at w.sg.net x))
        × ((x : ℕ) → contains x w.killed ≡ true → contains x w'.killed ≡ true)
        × ((k x : ℕ) (s : Server)
            → get_elem? w.sg.srvs k ≡ some s
            → is_service x (or_else s.svcs []) ≡ true
            → contains x w'.killed ≡ true)
        × (length w.persisters ≤ length w'.persisters)
  unfolding shutdown all
  shutdown_returns w can =
      let (w', ran, gone, kept, stops, grown) =
        shutdown_each_returns (all_from 0 w.sg.srvs) w can
          (All-all_from n 0 w.sg.srvs (omega (arith, can.size))) in
      let names : names_of w.sg.gid (all_from 0 w.sg.srvs) ≡ server_names w.sg.gid 0 n =
        names_of-all_from w.sg.gid 0 w.sg.srvs ∙ ap (server_names w.sg.gid 0) can.size in
      (
        w',
        ran,
        λ x. ground (arith, gone x, names),
        kept,
        λ k x s at svc.
            stops k x s
              (ground (arith, contains-all_from 0 k w.sg.srvs, below-length w.sg.srvs k s at)) at
              svc,
        grown,
      )
