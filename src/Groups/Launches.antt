-- ===== src/Groups/Launches.antt =====
-- The loop of start, with new names for the ends.
use mit.Base.Int.{ℤ}
use mit.Base.{
  ℕ, suc, ◌+◌, ◌≤◌, ◌<◌, String, none, some, List, [], ◌∷◌, ◌++◌, ◌==◌, nat_eq, string_eq,
  nat_beq_iff, length, get_elem?, set, length-append, length-set, get_elem?-below, get_elem?-set,
  ◌≡◌, refl, sym, ap, subst, ◌∙◌, inl, inr, arith, Bool-cases,
}
use mit.Base.Maps.{has}
use mit.Base.Exec.{returns}
use mit.Labrpc.{ClientEnd, ServerRef, add_server}
use mit.Persister.{make_persister}
use mit.Groups.{Server, all_from}
use mit.Groups.Ends.{AreApart}
use mit.Groups.Restart.{HasNoNil, make_ends_returns, start_server_returns}
use mit.Groups.Servers.{
  World, names_from, make_server, start_server_of, StartFun, server_name, start_server, start_each,
}
use mit.Groups.Makes.{IsMade, IsOther, AreUnused, fresh_at, later_other}

module _ (n : ℕ) (rand : ℕ → ℕ → String) (apart : AreApart n rand) where
  -- Servers 0 to `i - 1` have been started, the others have been made only.
  pub record AreStarted (i : ℕ) (w : World) : Type 0 where
    pub size : length w.sg.srvs ≡ n
    pub connected : length w.sg.connected ≡ n
    pub waiting : (k : ℕ) (s : Server) → i ≤ k → get_elem? w.sg.srvs k ≡ some s → IsMade n s
    pub running :
        (k : ℕ)
        → k < i
        → (s : Server) × (p : ℕ) × (get_elem? w.sg.srvs k ≡ some s)
          × (s.saved ≡ some p)
          × (p < length w.persisters)
          × (s.end_names ≡ some (names_from (rand k) 0 n))

  -- What a step of the start keeps.
  pub record KeepsRest (w w' : World) : Type 0 where
    pub same_gid : w'.sg.gid ≡ w.sg.gid
    pub same_servernames : w'.sg.servernames ≡ w.sg.servernames
    pub same_killed : w'.killed ≡ w.killed
    pub more : length w.persisters ≤ length w'.persisters

  module _ (mks : StartFun) (rs : ℕ → ServerRef)
      (running : (ends : List ClientEnd) (gid : ℤ) (i p : ℕ) → HasNoNil (mks ends gid i p)) where
    start_server-AreStarted :
        (i left : ℕ) (w : World)
        → i + suc left ≡ n
        → AreStarted i w
        → AreUnused n rand i (suc left) w.sg.net
        → (w' : World) × (start_server mks i (rand i) (rs i) w ≡ returns w')
          × AreStarted (suc i) w'
          × KeepsRest w w'
          × AreUnused n rand (suc i) left w'.sg.net
          × ((x : String) → IsOther n rand i 1 x → has x w'.sg.net.ends ≡ has x w.sg.net.ends)
    unfolding add_server
    start_server-AreStarted i left w size a unused =
        let (s, at) = get_elem?-below w.sg.srvs i (omega (arith, a.size)) in
        let made = a.waiting i s (omega arith) at in
        let (ends, net1, ran1, same, off, all_off, others) =
          make_ends_returns w.sg.gid (rand i) 0 n w.sg.net
            (fresh_at n rand apart i left w.sg.net (omega arith) unused) in
        let p = length w.persisters in
        let s1 : Server = record {
          saved = some p;
          svcs = none;
          end_names = some (names_from (rand i) 0 n);
          clnt_ends = ends;
        } in
        let w1 : World = record w {
          sg = record w.sg { net = net1 };
          persisters = w.persisters ++ make_persister ∷ [];
        } in
        let started : start_server_of w.sg.gid (rand i) s w ≡ returns (s1, w1) =
          unfold start_server_of make_server in ground (arith, made.0, made.1, ran1) in
        let s2 : Server = record s1 { svcs = some (mks ends w.sg.gid i p) } in
        let w2 : World = record w1 {
          sg = record w1.sg {
            srvs = set w.sg.srvs i s2;
            net = add_server (server_name w.sg.gid i) (rs i) net1;
          };
        } in
        let grown : length w1.persisters ≡ suc p =
          omega (arith, length-append w.persisters (make_persister ∷ [])) in
        let apart_here : (x : String)
            → IsOther n rand i 1 x
            → has x w2.sg.net.ends ≡ has x w.sg.net.ends =
          λ x h. others x (λ k lo hi. h i k (omega arith) (omega arith) (omega arith)) in
        (
          w2,
          start_server_returns mks i (rand i) (rs i) s s1 w w1 at started
              (running ends w.sg.gid i p),
          record {
            size = length-set w.sg.srvs i s2 ∙ a.size;
            connected = a.connected;
            waiting = λ k x lo h.
                a.waiting k x (omega arith)
                  (ground (arith, get_elem?-set w.sg.srvs i k s2 s at, nat_beq_iff k i, h, lo));
            running = λ k lt. elim (Bool-cases (k == i)) [
              | inl e ↦ (
                s2,
                p,
                ground (arith, get_elem?-set w.sg.srvs i k s2 s at, e),
                refl,
                omega (arith, grown),
                ap (λ (m : ℕ). some (names_from (rand m) 0 n)) (sym ((nat_beq_iff k i).0 e)),
              )
              | inr e ↦
                  let (x, q, there, saved, below, names) =
                    a.running k (ground (arith, e, nat_beq_iff k i, lt)) in
                  (
                    x,
                    q,
                    ground (arith, get_elem?-set w.sg.srvs i k s2 s at, e, there),
                    saved,
                    omega (arith, below, grown),
                    names,
                  )
            ];
          },
          record {
            same_gid = refl;
            same_servernames = refl;
            same_killed = refl;
            more = omega (arith, grown);
          },
          λ k l lo hi ll.
              others (rand k l) (later_other n rand apart i k l (omega arith) (omega arith) ll)
              ∙ unused k l (omega arith) (omega arith) ll,
          apart_here,
        )

    pub start_each-AreStarted :
        (i : ℕ) (rest : List Server) (w : World)
        → i + length rest ≡ n
        → AreStarted i w
        → AreUnused n rand i (length rest) w.sg.net
        → (w' : World) × (start_each mks (all_from i rest) rand rs w ≡ returns w')
          × AreStarted n w'
          × KeepsRest w w'
          × ((x : String)
              → IsOther n rand i (length rest) x
              → has x w'.sg.net.ends ≡ has x w.sg.net.ends)
    unfolding start_each all_from
    start_each-AreStarted i [] w size a unused = (
      w,
      refl,
      subst (λ (m : ℕ). AreStarted m w) (omega arith) a,
      record { same_gid = refl; same_servernames = refl; same_killed = refl; more = omega arith },
      λ x h. refl,
    )
    start_each-AreStarted i (s ∷ rest) w size a unused =
        let (w1, ran1, a1, k1, unused1, others1) =
          start_server-AreStarted i (length rest) w size a unused in
        let (w2, ran2, a2, k2, others2) =
          start_each-AreStarted (suc i) rest w1 (omega arith) a1 unused1 in
        (
          w2,
          ground (arith, ran1, ran2),
          a2,
          record {
            same_gid = k2.same_gid ∙ k1.same_gid;
            same_servernames = k2.same_servernames ∙ k1.same_servernames;
            same_killed = k2.same_killed ∙ k1.same_killed;
            more = omega (arith, k1.more, k2.more);
          },
          λ x h.
              others2 x (λ k l lo hi ll. h k l (omega arith) (omega arith) ll)
              ∙ others1 x (λ k l lo hi ll. h k l (omega arith) (omega arith) ll),
        )
