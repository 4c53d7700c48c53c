-- ===== src/Groups/Starts.antt =====
-- makeSrvGrp and then StartServers.
use mit.Base.Int.{ℤ}
use mit.Base.{
  ℕ, zero, suc, ◌≤◌, String, false, some, List, [], ◌∷◌, ◌==◌, nat_eq, string_eq, length, get_elem?,
  All, replicate, ◌≡◌, refl, sym, ap, subst, ◌∙◌, arith,
}
use mit.Base.Maps.{has}
use mit.Base.Exec.{returns}
use mit.Labrpc.{Network, ClientEnd, ServerRef}
use mit.Persister.{Persister}
use mit.Groups.{Server, ServerGrp, end_name, all_from, all, connect_one, connect_each, connect_all}
use mit.Groups.Ends.{IsNamed, IsNamed-Keeps, AreApart, AreServers, Keeps, Keeps-refl, Keeps-trans}
use mit.Groups.Rounds.{connect-Sets}
use mit.Groups.Restart.{HasNoNil, All-all_from}
use mit.Groups.Shutdowns.{CanStop, below-length}
use mit.Groups.Servers.{
  World, names_from, make_srv_grp, server_names, StartFun, start, start_servers,
}
use mit.Groups.Makes.{get_elem?-names_from, IsMade, IsOther, AreUnused, make_servers_returns}
use mit.Groups.Launches.{AreStarted, KeepsRest, start_each-AreStarted}

module _ (n : ℕ) (rand : ℕ → ℕ → String) (apart : AreApart n rand) where
  AreStarted-IsNamed : (w : World) → AreStarted n rand apart n w → IsNamed n rand w.sg
  unfolding end_name
  AreStarted-IsNamed w a = record {
    size = a.connected;
    servers = λ i li.
        let (s, p, there, saved, below, names) = a.running i li in
        (s, names_from (rand i) 0 n, there, names);
    ends = λ i j li lj.
        let (s, p, there, saved, below, names) = a.running i li in
        let end_ : get_elem? (names_from (rand i) 0 n) j ≡ some (rand i j) =
          get_elem?-names_from (rand i) 0 n j lj ∙ ap (λ (m : ℕ). some (rand i m)) (omega arith) in
        ground (arith, there, names, end_);
  }

  connect_each_returns :
      (is : List ℕ) (sg : ServerGrp)
      → IsNamed n rand sg
      → length sg.srvs ≡ n
      → AreServers n rand is
      → (sg' : ServerGrp) × (connect_each is sg ≡ returns sg') × Keeps sg sg'
  unfolding connect_each connect_one all
  connect_each_returns [] sg named size below = (sg, refl, Keeps-refl sg)
  connect_each_returns (i ∷ is) sg named size below =
      let (sg1, ran1, sets) =
        connect-Sets n rand apart i (all_from 0 sg.srvs) sg named below.0
          (All-all_from n 0 sg.srvs (omega (arith, size))) in
      let (sg2, ran2, k) =
        connect_each_returns is sg1 (IsNamed-Keeps n rand sg sg1 sets.keeps named)
          (ap length sets.keeps.same_srvs ∙ size) below.1 in
      (sg2, ground (arith, ran1, ran2), Keeps-trans sg sg1 sg2 sets.keeps k)

  -- StartServers of a group that has just been made.
  start_servers_returns :
      (mks : StartFun) (rs : ℕ → ServerRef) (w : World)
      → ((ends : List ClientEnd) (gid : ℤ) (i p : ℕ) → HasNoNil (mks ends gid i p))
      → AreStarted n rand apart 0 w
      → AreUnused n rand 0 n w.sg.net
      → (w' : World) × (start_servers mks rand rs w ≡ returns w')
        × CanStop n rand w'
        × KeepsRest n rand apart w w'
        × ((x : String) → IsOther n rand 0 n x → has x w'.sg.net.ends ≡ has x w.sg.net.ends)
  unfolding start_servers start connect_all all
  start_servers_returns mks rs w running a unused =
      let (w1, ran1, a1, k, others) =
        start_each-AreStarted n rand apart mks rs running 0 w.sg.srvs w (omega (arith, a.size)) a
          (λ i l lo hi ll. unused i l lo (omega (arith, a.size)) ll) in
      let named = AreStarted-IsNamed w1 a1 in
      let (sg2, ran2, keeps) =
        connect_each_returns (all_from 0 w1.sg.srvs) w1.sg named a1.size
          (All-all_from n 0 w1.sg.srvs (omega (arith, a1.size))) in
      (
        record w1 { sg = sg2 },
        ground (arith, ran1, ran2),
        record {
          named = IsNamed-Keeps n rand w1.sg sg2 keeps named;
          size = ap length keeps.same_srvs ∙ a1.size;
          saved = λ i p s at has_p.
              let at1 : get_elem? w1.sg.srvs i ≡ some s =
                ap (λ (l : List Server). get_elem? l i) (sym keeps.same_srvs) ∙ at in
              let (x, q, there, saved, below, names) =
                a1.running i (omega (arith, below-length w1.sg.srvs i s at1, a1.size)) in
              let is : x ≡ s = cc (there, at1) in
              let same : some q ≡ some p = sym saved ∙ ap (λ (y : Server). y.saved) is ∙ has_p in
              let same_p : q ≡ p = cc same in omega (arith, below);
        },
        record {
          same_gid = keeps.same_gid ∙ k.same_gid;
          same_servernames = keeps.same_servernames ∙ k.same_servernames;
          same_killed = k.same_killed;
          more = k.more;
        },
        λ x h.
            ap (λ m. has x m) keeps.same_ends
            ∙ others x (λ i l lo hi ll. h i l lo (omega (arith, a.size)) ll),
      )

All-get_elem? :
    (n k : ℕ) (srvs : List Server) (s : Server)
    → All (IsMade n) srvs
    → get_elem? srvs k ≡ some s
    → IsMade n s
All-get_elem? n k [] s made h = cc h
All-get_elem? n zero (x ∷ srvs) s made h = let is : x ≡ s = cc h in subst (IsMade n) is made.0
All-get_elem? n (suc k) (x ∷ srvs) s made h = All-get_elem? n k srvs s made.1 h

length-replicate : (n : ℕ) → length (replicate n false) ≡ n
length-replicate zero = refl
length-replicate (suc n) = ap suc (length-replicate n)

-- makeSrvGrp with names `made`, and then StartServers with names `rand`.
pub make_and_start :
    (n : ℕ) (made rand : ℕ → ℕ → String) (apart_made : AreApart n made) (apart : AreApart n rand)
    (gid : ℤ) (mks : StartFun) (rs : ℕ → ServerRef) (net : Network) (persisters : List Persister)
    (killed : List ℕ)
    → ((ends : List ClientEnd) (g : ℤ) (i p : ℕ) → HasNoNil (mks ends g i p))
    → AreUnused n made 0 n net
    → AreUnused n rand 0 n net
    → ((k l i j : ℕ) → (rand k l == made i j) ≡ false)
    → (sg : ServerGrp) × (w : World) × (make_srv_grp gid n made net ≡ returns sg)
      × (start_servers mks rand rs (record { sg = sg; persisters = persisters; killed = killed })
          ≡ returns w)
      × CanStop n rand w
      × (w.sg.gid ≡ gid)
      × (w.sg.servernames ≡ server_names gid 0 n)
      × (w.killed ≡ killed)
      × (length persisters ≤ length w.persisters)
      × ((x : String)
          → IsOther n made 0 n x
          → IsOther n rand 0 n x
          → has x w.sg.net.ends ≡ has x net.ends)
unfolding make_srv_grp
make_and_start n made rand apart_made apart gid mks rs net persisters killed running new_made new
      other =
    let (srvs, net1, ran1, size, all_made, others1) =
      make_servers_returns n made apart_made gid 0 n net (omega arith) new_made in
    let sg : ServerGrp = record {
      net = net1;
      srvs = srvs;
      servernames = server_names gid 0 n;
      gid = gid;
      connected = replicate n false;
    } in
    let w0 : World = record { sg = sg; persisters = persisters; killed = killed } in
    let (w, ran2, can, k, others2) =
      start_servers_returns n rand apart mks rs w0 running
        (record {
          size = size;
          connected = length-replicate n;
          waiting = λ i s lo h. All-get_elem? n i srvs s all_made h;
          running = λ i lt. absurd (omega arith);
        })
        (λ i l lo hi ll.
          others1 (rand i l) (λ i' l' lo' hi' ll'. other i l i' l') ∙ new i l lo hi ll) in
    (
      sg,
      w,
      ground (arith, ran1),
      ran2,
      can,
      k.same_gid,
      k.same_servernames,
      k.same_killed,
      k.more,
      λ x h g. others2 x g ∙ others1 x h,
    )
