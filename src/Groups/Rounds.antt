-- ===== src/Groups/Rounds.antt =====
-- What connect, disconnect and one round of Partition do to the ends.
use mit.Base.{
  get_elem?-below, ℕ, ◌<◌, String, Bool, true, false, ◌&&◌, ◌||◌, List, if◌then◌else◌, ◌==◌, nat_eq,
  set, contains, get_elem?-set, length-set, ◌≡◌, refl, arith,
}
use mit.Base.Exec.{returns, ◌>>=◌}
use mit.Groups.{ServerGrp, set_connected, connect, disconnect}
use mit.Groups.Connects.{connect_out-Turns, connect_in-Turns}
use mit.Groups.Disconnects.{disconnect_out-Turns, disconnect_in-Turns}
use mit.Groups.Ends.{
  is_up, is_enabled, IsNamed, Keeps, Keeps-trans, IsNamed-Keeps, AreApart, AreServers,
}

module _ (n : ℕ) (name : ℕ → ℕ → String) (apart : AreApart n name) where
  -- A step that sets one server's connection, and the ends of `hit`.
  pub record Sets (sg sg' : ServerGrp) (i : ℕ) (b : Bool) (hit : ℕ → ℕ → Bool) : Type 0 where
    pub keeps : Keeps sg sg'
    pub ups : (k : ℕ) → is_up sg' k ≡ (if k == i then b else is_up sg k)
    pub ends :
        (k l : ℕ)
        → k < n
        → l < n
        → is_enabled (name k l) sg' ≡ (if hit k l then b else is_enabled (name k l) sg)

  set_connected-step :
      (i : ℕ) (b : Bool) (sg : ServerGrp)
      → IsNamed n name sg
      → i < n
      → (sg' : ServerGrp) × (set_connected i b sg ≡ returns sg')
        × Keeps sg sg'
        × ((k : ℕ) → is_up sg' k ≡ (if k == i then b else is_up sg k))
        × ((s : String) → is_enabled s sg' ≡ is_enabled s sg)
  set_connected-step i b sg h li =
      let (old, is) = get_elem?-below sg.connected i (omega (arith, h.size)) in
      (
        record sg { connected = set sg.connected i b },
        ground (arith, is),
        record {
          same_srvs = refl;
          same_size = length-set sg.connected i b;
          same_gid = refl;
          same_servernames = refl;
          same_ends = refl;
          same_connections = refl;
        },
        λ k. ground (arith, get_elem?-set sg.connected i k b old is),
        λ s. refl,
      )

  pub connect-Sets :
      (i : ℕ) (to : List ℕ) (sg : ServerGrp)
      → IsNamed n name sg
      → i < n
      → AreServers n name to
      → (sg' : ServerGrp) × (connect i to sg ≡ returns sg')
        × Sets sg sg' i true (λ k l.
          k == i && contains l to && is_up sg' l || l == i && contains k to && is_up sg' k)
  unfolding connect
  connect-Sets i to sg h li lto =
      let (sg1, ran1, k1, ups, same) = set_connected-step i true sg h li in
      let h1 = IsNamed-Keeps n name sg sg1 k1 h in
      let (s, names, at, is) = h1.servers i li in
      let (sg2, ran2, t2) = connect_out-Turns n name apart i to sg1 h1 li lto in
      let h2 = IsNamed-Keeps n name sg1 sg2 t2.keeps h1 in
      let (sg3, ran3, t3) = connect_in-Turns n name apart i to sg2 h2 li lto in
      (
        sg3,
        ground (arith, ran1, at, ran2, ran3),
        record {
          keeps = Keeps-trans sg sg1 sg3 k1 (Keeps-trans sg1 sg2 sg3 t2.keeps t3.keeps);
          ups = λ k. ground (arith, t3.same_connected, t2.same_connected, ups k);
          ends = λ k l lk ll. ground (
            arith,
            t3.ends k l lk ll,
            t2.ends k l lk ll,
            same (name k l),
            t3.same_connected,
            t2.same_connected,
          );
        },
      )

  pub disconnect-Sets :
      (i : ℕ) (from : List ℕ) (sg : ServerGrp)
      → IsNamed n name sg
      → i < n
      → AreServers n name from
      → (sg' : ServerGrp) × (disconnect i from sg ≡ returns sg')
        × Sets sg sg' i false (λ k l. k == i && contains l from || l == i && contains k from)
  unfolding disconnect
  disconnect-Sets i from sg h li lfrom =
      let (sg1, ran1, k1, ups, same) = set_connected-step i false sg h li in
      let h1 = IsNamed-Keeps n name sg sg1 k1 h in
      let (s, names, at, is) = h1.servers i li in
      let (sg2, ran2, t2) = disconnect_out-Turns n name apart i from sg1 h1 li lfrom in
      let h2 = IsNamed-Keeps n name sg1 sg2 t2.keeps h1 in
      let (sg3, ran3, t3) = disconnect_in-Turns n name apart i from sg2 h2 li lfrom in
      (
        sg3,
        ground (arith, ran1, at, is, ran2, ran3),
        record {
          keeps = Keeps-trans sg sg1 sg3 k1 (Keeps-trans sg1 sg2 sg3 t2.keeps t3.keeps);
          ups = λ k. ground (arith, t3.same_connected, t2.same_connected, ups k);
          ends = λ k l lk ll. ground (arith, t3.ends k l lk ll, t2.ends k l lk ll, same (name k l));
        },
      )

  -- One round of Partition's loops.
  pub record IsRound (sg sg' : ServerGrp) (x : ℕ) (mine others : List ℕ) : Type 0 where
    pub keeps : Keeps sg sg'
    pub ups : (k : ℕ) → is_up sg' k ≡ (if k == x then true else is_up sg k)
    pub ends :
        (k l : ℕ)
        → k < n
        → l < n
        → is_enabled (name k l) sg' ≡ (
            if k == x && contains l mine && is_up sg' l || l == x && contains k mine && is_up sg' k
            then true
            else if k == x && contains l others || l == x && contains k others
            then false
            else is_enabled (name k l) sg)

  pub IsRound-of :
      (x : ℕ) (mine others : List ℕ) (sg : ServerGrp)
      → IsNamed n name sg
      → x < n
      → AreServers n name mine
      → AreServers n name others
      → (sg' : ServerGrp) × ((disconnect x others sg >>= connect x mine) ≡ returns sg')
        × IsRound sg sg' x mine others
  IsRound-of x mine others sg h lx lmine lothers =
      let (sg1, ran1, s1) = disconnect-Sets x others sg h lx lothers in
      let (sg2, ran2, s2) =
        connect-Sets x mine sg1 (IsNamed-Keeps n name sg sg1 s1.keeps h) lx lmine in
      (
        sg2,
        ground (arith, ran1, ran2),
        record {
          keeps = Keeps-trans sg sg1 sg2 s1.keeps s2.keeps;
          ups = λ k. ground (arith, s2.ups k, s1.ups k);
          ends = λ k l lk ll. ground (arith, s2.ends k l lk ll, s1.ends k l lk ll);
        },
      )
