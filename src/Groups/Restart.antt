-- ===== src/Groups/Restart.antt =====
-- ShutdownServer and StartServer.
use mit.Base.Int.{ℤ}
use mit.Base.{
  true, ℕ, zero, suc, ◌+◌, ◌≤◌, ◌<◌, String, false, ◌&&◌, none, some, List, [], ◌∷◌, ◌++◌,
  if◌then◌else◌, or_else, ltb, leb, ◌==◌, nat_eq, string_eq, nat_beq_iff, length, get_elem?, set,
  contains, All, length-append, get_elem?-set, ◌≡◌, is_some, Option, subst, sym, refl, ap, ◌∙◌, inl,
  inr, arith, Bool-cases,
}
use mit.Base.Maps.{lookup, has, insert, lookup-insert}
use mit.Base.Exec.{returns}
use mit.Labrpc
use mit.Labrpc.{Network, ClientEnd, ServerRef, add_server, delete_server}
use mit.Persister.{Persister, copy, make_persister}
use mit.Groups.{Server, all_from, all, disconnect_all}
use mit.Groups.Ends.{is_up, is_enabled, IsNamed, AreApart}
use mit.Groups.Rounds.{disconnect-Sets}
use mit.Groups.Servers.{
  World, make_ends, names_from, make_server, copy_saved, size_of, start_server_of, StartFun,
  start_server, make_services, kill_all, shutdown_server_of, shutdown_server, server_name,
}

pub All-all_from :
    (n i : ℕ) (srvs : List Server) → i + length srvs ≤ n → All (λ k. k < n) (all_from i srvs)
unfolding all_from
All-all_from n i [] h = tt
All-all_from n i (s ∷ srvs) h = (omega arith, All-all_from n (suc i) srvs (omega arith))

pub contains-all_from :
    (i k : ℕ) (srvs : List Server)
    → contains k (all_from i srvs) ≡ (leb i k && ltb k (i + length srvs))
unfolding all_from contains
contains-all_from i k [] = ground arith
contains-all_from i k (s ∷ srvs) = ground (arith, contains-all_from (suc i) k srvs)

get_elem?-snoc :
    (xs : List Persister) (x : Persister) (r : ℕ)
    → get_elem? (xs ++ x ∷ []) r
      ≡ (if ltb r (length xs) then get_elem? xs r else if r == length xs then some x else none)
get_elem?-snoc [] x zero = refl
get_elem?-snoc [] x (suc r) = ground arith
get_elem?-snoc (y ∷ xs) x zero = ground arith
get_elem?-snoc (y ∷ xs) x (suc r) = ground (arith, get_elem?-snoc xs x r)

-- The names for ends `j` to `j + left - 1` are new, and differ from each other.
pub record AreFresh (rand : ℕ → String) (j left : ℕ) (net : Network) : Type 0 where
  pub new : (k : ℕ) → j ≤ k → k < j + left → has (rand k) net.ends ≡ false
  pub apart : (k l : ℕ) → j ≤ k → k < j + left → j ≤ l → l < j + left → rand k ≡ rand l → k ≡ l

-- makeServer's loop ends, and enables none of the ends that are there.
pub make_ends_returns :
    (gid : ℤ) (rand : ℕ → String) (j left : ℕ) (net : Network)
    → AreFresh rand j left net
    → (ends : List ClientEnd) × (net' : Network) × (make_ends gid rand j left net
        ≡ returns (ends, net'))
      × (net'.servers ≡ net.servers)
      × ((x : String)
          → or_else (lookup x net.enabled) false ≡ false
          → or_else (lookup x net'.enabled) false ≡ false)
      × ((k : ℕ) → j ≤ k → k < j + left → or_else (lookup (rand k) net'.enabled) false ≡ false)
      × ((x : String)
          → ((k : ℕ) → j ≤ k → k < j + left → (x == rand k) ≡ false)
          → has x net'.ends ≡ has x net.ends)
unfolding make_ends Labrpc.make_end Labrpc.connect
make_ends_returns gid rand j zero net f =
    ([], net, refl, refl, λ x h. h, λ k lo hi. absurd (omega arith), λ x h. refl)
make_ends_returns gid rand j (suc left) net f =
    let new : has (rand j) net.ends ≡ false = f.new j (omega arith) (omega arith) in
    let net1 : Network = record net {
      ends = insert (rand j) (record { endname = rand j }) net.ends;
      enabled = insert (rand j) false net.enabled;
      connections =
          insert (rand j) (some (server_name gid j)) (insert (rand j) none net.connections);
    } in
    let fresh : AreFresh rand (suc j) left net1 = record {
      new = λ k lo hi. ground (
        arith,
        lookup-insert (rand j) (rand k) (record { endname = rand j }) net.ends,
        f.new k (omega arith) (omega arith),
        string_eq.beq_iff (rand k) (rand j),
        f.apart k j (omega arith) (omega arith) (omega arith) (omega arith),
      );
      apart =
          λ k l lo hi lo' hi'. f.apart k l (omega arith) (omega arith) (omega arith) (omega arith);
    } in
    let (ends, net', ran, same, off, all_off, others) =
      make_ends_returns gid rand (suc j) left net1 fresh in
    let first_off : or_else (lookup (rand j) net1.enabled) false ≡ false = ground (
      arith,
      lookup-insert (rand j) (rand j) false net.enabled,
      string_eq.beq_iff (rand j) (rand j),
    ) in
    (
      record { endname = rand j } ∷ ends,
      net',
      ground (arith, new, ran),
      same,
      λ x h. off x (ground (arith, lookup-insert (rand j) x false net.enabled, h)),
      λ k lo hi. elim (Bool-cases (k == j)) [
        | inl e ↦ rw ((nat_beq_iff k j).0 e) (off (rand j) first_off)
        | inr e ↦ all_off k (ground (arith, e, nat_beq_iff k j, lo)) (omega arith)
      ],
      λ x h.
          others x (λ k lo hi. h k (omega arith) (omega arith))
          ∙ ground (
            arith,
            lookup-insert (rand j) x (record { endname = rand j }) net.ends,
            h j (omega arith) (omega arith),
          ),
    )

-- No service is nil.
abbrev pub HasNoNil : List (Option ℕ) → Type 0
HasNoNil svcs = All (λ (svc : Option ℕ). is_some svc ≡ true) svcs

pub make_services_returns :
    (svcs : List (Option ℕ)) → HasNoNil svcs → make_services svcs ≡ returns tt
unfolding make_services
make_services_returns [] h = refl
make_services_returns (none ∷ svcs) h = cc h.0
make_services_returns (some n ∷ svcs) h = make_services_returns svcs h.1

-- StartServer, where startServer returns.
pub start_server_returns :
    (mks : StartFun) (i : ℕ) (rand : ℕ → String) (rs : ServerRef) (s s1 : Server) (w w1 : World)
    → get_elem? w.sg.srvs i ≡ some s
    → start_server_of w.sg.gid rand s w ≡ returns (s1, w1)
    → HasNoNil (mks s1.clnt_ends w1.sg.gid i (or_else s1.saved 0))
    → start_server mks i rand rs w
      ≡ returns (record w1 {
        sg = record w1.sg {
          srvs =
              set w1.sg.srvs i
                (record s1 { svcs = some (mks s1.clnt_ends w1.sg.gid i (or_else s1.saved 0)) });
          net = add_server (server_name w1.sg.gid i) rs w1.sg.net;
        };
      })
unfolding start_server
start_server_returns mks i rand rs s s1 w w1 at ran running =
    let svcs = mks s1.clnt_ends w1.sg.gid i (or_else s1.saved 0) in
    ground (arith, at, ran, make_services_returns svcs running)

-- The state of server `i` after ShutdownServer: `p` is the copy of what it had saved, which only the
-- tester knows.
pub record IsDown (n i : ℕ) (ps : Persister) (w w1 : World) : Type 0 where
  pub server : Server
  pub at : get_elem? w1.sg.srvs i ≡ some server
  pub kept : server.saved ≡ some (length w.persisters)
  pub copied : get_elem? w1.persisters (length w.persisters) ≡ some ps
  pub size : length w1.persisters ≡ suc (length w.persisters)
  pub stopped : server.svcs ≡ none
  pub alone : is_up w1.sg i ≡ false
  pub deleted : Labrpc.server_at w1.sg.net (server_name w.sg.gid i) ≡ none

module _ (n : ℕ) (name : ℕ → ℕ → String) (apart : AreApart n name) where
  shutdown_server-IsDown :
      (i p : ℕ) (s : Server) (ps : Persister) (w : World)
      → IsNamed n name w.sg
      → length w.sg.srvs ≡ n
      → i < n
      → get_elem? w.sg.srvs i ≡ some s
      → s.saved ≡ some p
      → get_elem? w.persisters p ≡ some ps
      → (w1 : World) × (shutdown_server i w ≡ returns w1)
        × IsDown n i ps w w1
        × (w1.killed ≡ kill_all (or_else s.svcs []) w.killed)
        × (w1.sg.net.ends ≡ w.sg.net.ends)
        × (w1.sg.gid ≡ w.sg.gid)
        × ((k : ℕ)
            → k < n
            → (is_enabled (name i k) w1.sg ≡ false) × (is_enabled (name k i) w1.sg ≡ false))
        × (size_of s.end_names ≡ size_of (or_else (get_elem? w1.sg.srvs i) s).end_names)
  unfolding shutdown_server shutdown_server_of copy_saved disconnect_all all delete_server copy
      make_persister
  shutdown_server-IsDown i p s ps w named size li at saved has_ps =
      let (sg1, ran, sets) =
        disconnect-Sets n name apart i (all_from 0 w.sg.srvs) w.sg named li
          (All-all_from n 0 w.sg.srvs (omega (arith, size))) in
      let s1 : Server = record s { saved = some (length w.persisters); svcs = none } in
      let at1 : get_elem? sg1.srvs i ≡ some s = ap (λ l. get_elem? l i) sets.keeps.same_srvs ∙ at in
      let at2 : get_elem? (set sg1.srvs i s1) i ≡ some s1 =
        ground (arith, get_elem?-set sg1.srvs i i s1 s at1, nat_beq_iff i i) in
      let w1 : World = record {
        sg = record sg1 {
          net = delete_server (server_name sg1.gid i) sg1.net;
          srvs = set sg1.srvs i s1;
        };
        persisters = w.persisters ++ ps ∷ [];
        killed = kill_all (or_else s.svcs []) w.killed;
      } in
      (
        w1,
        ground (arith, ran, at1, saved, has_ps),
        record {
          server = s1;
          at = at2;
          kept = refl;
          copied = ground (
            arith,
            get_elem?-snoc w.persisters ps (length w.persisters),
            nat_beq_iff (length w.persisters) (length w.persisters),
          );
          size = omega (arith, length-append w.persisters (ps ∷ []));
          stopped = refl;
          alone = ground (arith, sets.ups i, nat_beq_iff i i);
          deleted = ground (
            arith,
            sets.keeps.same_gid,
            lookup-insert (server_name sg1.gid i) (server_name w.sg.gid i) none sg1.net.servers,
            string_eq.beq_iff (server_name w.sg.gid i) (server_name sg1.gid i),
            ap (λ (g : ℤ). server_name g i) sets.keeps.same_gid,
          );
        },
        refl,
        sets.keeps.same_ends,
        sets.keeps.same_gid,
        λ k lk. (
          ground
              (arith, sets.ends i k li lk, contains-all_from 0 k w.sg.srvs, nat_beq_iff i i, size),
          ground
              (arith, sets.ends k i lk li, contains-all_from 0 k w.sg.srvs, nat_beq_iff i i, size),
        ),
        ground (arith, at2),
      )

  -- What StartServer makes of server `i`: the new Persister has just what was saved before the
  -- shutdown, it is the one that the new instance is given, and no other instance has it.
  pub record IsBack (mks : StartFun) (i : ℕ) (rand : ℕ → String) (rs : ServerRef) (ps : Persister)
      (w w2 : World) : Type 0 where
    pub server : Server
    pub persister : ℕ
    pub at : get_elem? w2.sg.srvs i ≡ some server
    pub kept : server.saved ≡ some persister
    pub content : get_elem? w2.persisters persister ≡ some ps
    pub fresh : suc (length w.persisters) ≤ persister
    pub runs : server.svcs ≡ some (mks server.clnt_ends w.sg.gid i persister)
    pub serves : Labrpc.server_at w2.sg.net (server_name w.sg.gid i) ≡ some rs
    pub alone : is_up w2.sg i ≡ false
    -- its old and new ends and those to it are disabled
    pub cut :
        (k : ℕ)
        → k < n
        → (is_enabled (name i k) w2.sg ≡ false) × (is_enabled (name k i) w2.sg ≡ false)
    pub names : server.end_names ≡ some (names_from rand 0 n)
    pub new_cut : (k : ℕ) → k < n → is_enabled (rand k) w2.sg ≡ false

  -- A server is shut down and started again; in between, the old instance and all others go on
  -- saving: `late` is what is in the Persisters then, where only the tester's own copy is sure to be
  -- as it was. Both calls return, the old services are told to stop, and the new instance starts
  -- with a Persister of its own, which holds what was saved when the server was shut down. It is
  -- registered under its name, and has no enabled end to another server, or from one, until it is
  -- connected. The random names for its ends are new, and no service of the new instance is nil.
  pub restart-IsBack :
      (mks : StartFun) (i p : ℕ) (rand : ℕ → String) (rs : ServerRef) (s : Server) (ps : Persister)
      (w : World) (late : List Persister → List Persister)
      → IsNamed n name w.sg
      → length w.sg.srvs ≡ n
      → i < n
      → get_elem? w.sg.srvs i ≡ some s
      → s.saved ≡ some p
      → get_elem? w.persisters p ≡ some ps
      → size_of s.end_names ≡ n
      → AreFresh rand 0 n w.sg.net
      → ((all : List Persister)
          → (length (late all) ≡ length all)
            × (get_elem? (late all) (length w.persisters) ≡ get_elem? all (length w.persisters)))
      → ((ends : List ClientEnd) (q : ℕ) → HasNoNil (mks ends w.sg.gid i q))
      → (w1 w2 : World) × (shutdown_server i w ≡ returns w1)
        × (start_server mks i rand rs (record w1 { persisters = late w1.persisters }) ≡ returns w2)
        × IsBack mks i rand rs ps w w2
        × (w2.killed ≡ kill_all (or_else s.svcs []) w.killed)
  unfolding add_server
  restart-IsBack mks i p rand rs s ps w late named size li at saved has_ps full fresh kept_copy
        running =
      let (w1, ran1, d, killed, same_ends, same_gid, cut, same_size) =
        shutdown_server-IsDown i p s ps w named size li at saved has_ps in
      let (late_size, late_kept) = kept_copy w1.persisters in
      let names : size_of d.server.end_names ≡ n = ground (arith, same_size, d.at, full) in
      let fresh1 : AreFresh rand 0 n w1.sg.net = record {
        new = λ k lo hi. ground (arith, same_ends, fresh.new k lo hi);
        apart = fresh.apart;
      } in
      let (ends, net', ran2, same_servers, off, all_off, others) =
        make_ends_returns w1.sg.gid rand 0 n w1.sg.net fresh1 in
      let q = length (late w1.persisters) in
      let s2 : Server = record {
        saved = some q;
        svcs = some (mks ends w1.sg.gid i q);
        end_names = some (names_from rand 0 n);
        clnt_ends = ends;
      } in
      let w1' : World = record w1 { persisters = late w1.persisters } in
      let w2 : World = record {
        sg = record w1.sg {
          srvs = set w1.sg.srvs i s2;
          net = add_server (server_name w1.sg.gid i) rs net';
        };
        persisters = late w1.persisters ++ ps ∷ [];
        killed = w1.killed;
      } in
      let at2 : get_elem? w2.sg.srvs i ≡ some s2 =
        ground (arith, get_elem?-set w1.sg.srvs i i s2 d.server d.at, nat_beq_iff i i) in
      let started : start_server_of w1.sg.gid rand d.server w1'
          ≡ returns (
            record s2 { svcs = none },
            record w1' {
              sg = record w1.sg { net = net' };
              persisters = late w1.persisters ++ ps ∷ [];
            },
          ) =
        unfold start_server_of make_server copy_saved copy make_persister in
        ground (arith, names, ran2, d.kept, late_kept, d.copied) in
      (
        w1,
        w2,
        ran1,
        start_server_returns mks i rand rs d.server (record s2 { svcs = none }) w1'
            (record w1' {
              sg = record w1.sg { net = net' };
              persisters = late w1.persisters ++ ps ∷ [];
            })
            d.at started
            (subst (λ (g : ℤ). HasNoNil (mks ends g i q)) (sym same_gid) (running ends q)),
        record {
          server = s2;
          persister = q;
          at = at2;
          kept = refl;
          content = ground (arith, get_elem?-snoc (late w1.persisters) ps q, nat_beq_iff q q);
          fresh = omega (arith, late_size, d.size);
          runs = ground (arith, same_gid);
          serves = ground (
            arith,
            lookup-insert (server_name w1.sg.gid i) (server_name w.sg.gid i) (some rs) net'.servers,
            string_eq.beq_iff (server_name w.sg.gid i) (server_name w1.sg.gid i),
            ap (λ (g : ℤ). server_name g i) same_gid,
          );
          alone = d.alone;
          cut = λ k lk. (off (name i k) (cut k lk).0, off (name k i) (cut k lk).1);
          names = refl;
          new_cut = λ k lk. all_off k (omega arith) (omega arith);
        },
        killed,
      )
