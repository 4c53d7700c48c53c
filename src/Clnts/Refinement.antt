-- ===== src/Clnts/Refinement.antt =====
-- The operations on a clerk and those on the table.
use mit.Base.{
  String, true, false, none, some, List, [], ◌∷◌, ◌==◌, nat_eq, string_eq, contains, Distinct, ◌≡◌,
  refl, ◌∙◌, inl, inr, arith, Option-cases,
}
use mit.Base.Maps.{lookup, has, lookup-insert}
use mit.Base.Exec.{returns}
use mit.Labrpc.{Network}
use mit.Clnts.{Clnt, allowed, make_end, connect_all, connect_to, disconnect, disconnect_all}
use mit.Clnts.Views.{
  AreNew, Keeps, Op, Refines, View, apply, apply_all, connects_all, connects_to, disconnects,
  disconnects_all, loop-Keeps, loop-Refines, names, run_op, run_ops, uses,
}
use mit.Clnts.Added.{make_end-added, uses-Refines}

pub run_op-Refines :
    (o : Op) (clnt : Clnt) (net : Network) (v : View)
    → Refines v clnt net
    → AreNew (names (o ∷ [])) net
    → (r : Clnt × Network) × (run_op o clnt net ≡ returns r)
      × Refines (apply o v) r.0 r.1
      × Keeps (names (o ∷ [])) net r.1
unfolding run_op connect_all connect_to disconnect disconnect_all allowed contains
run_op-Refines (uses name server) clnt net v r new = elim (Option-cases (lookup server clnt.ends)) [
  | inr (e, at) ↦ (
    (clnt, net),
    unfold make_end in ground (arith, at),
    record {
      links = r.links;
      status = λ s. ground (arith, at, r.status s, r.status server, string_eq.beq_iff s server);
      opens = r.opens;
    },
    record { ends = λ x m. refl; servers = refl },
  )
  | inl missing ↦
      let fresh : has name net.ends ≡ false =
        new name (ground (arith, string_eq.beq_iff name name)) in
      (
        _,
        ground (arith, make_end-added name server clnt net missing fresh),
        uses-Refines name server clnt net v r missing fresh,
        record {
          ends =
              λ x m. ground (arith, lookup-insert name x (record { endname = name }) net.ends, m);
          servers = refl;
        },
      )
]
run_op-Refines connects_all clnt net v r new = (
  _,
  refl,
  loop-Refines (λ s. true) true clnt net none v (apply connects_all v) r (λ s. refl) (λ s. refl),
  loop-Keeps [] (λ s. true) true clnt.ends net,
)
run_op-Refines (connects_to none) clnt net v r new = (
  _,
  refl,
  loop-Refines (λ s. true) true clnt net none v (apply (connects_to none) v) r (λ s. refl)
      (λ s. refl),
  loop-Keeps [] (λ s. true) true clnt.ends net,
)
run_op-Refines (connects_to (some srvs)) clnt net v r new = (
  _,
  refl,
  loop-Refines (λ s. contains s srvs) true clnt net (some srvs) v
      (apply (connects_to (some srvs)) v) r (λ s. refl) (λ s. refl),
  loop-Keeps [] (λ s. contains s srvs) true clnt.ends net,
)
run_op-Refines (disconnects srv) clnt net v r new = (
  _,
  refl,
  loop-Refines (λ s. s == srv) false clnt net clnt.srvs v (apply (disconnects srv) v) r (λ s. refl)
      r.opens,
  loop-Keeps [] (λ s. s == srv) false clnt.ends net,
)
run_op-Refines disconnects_all clnt net v r new = (
  _,
  refl,
  loop-Refines (λ s. true) false clnt net (some []) v (apply disconnects_all v) r (λ s. refl)
      (λ s. refl),
  loop-Keeps [] (λ s. true) false clnt.ends net,
)

-- Whatever a test does with a clerk, it returns, and the clerk's ends are as the table says that
-- goes through the same operations: which servers have an end and whether it is enabled, and whether
-- an end will be enabled when it is made. Each end of the clerk leads to its server in the network,
-- other ends are neither made nor deleted, and the servers are as before. The random names differ
-- from each other and from those of the network's ends.
pub run_ops-Refines :
    (ops : List Op) (clnt : Clnt) (net : Network) (v : View)
    → Refines v clnt net
    → Distinct (names ops)
    → AreNew (names ops) net
    → (r : Clnt × Network) × (run_ops ops clnt net ≡ returns r)
      × Refines (apply_all ops v) r.0 r.1
      × Keeps (names ops) net r.1
unfolding run_ops contains
run_ops-Refines [] clnt net v r d new =
    ((clnt, net), refl, r, record { ends = λ x m. refl; servers = refl })
run_ops-Refines (o ∷ ops) clnt net v r d new =
    let (a, ran1, r1, k1) = run_op-Refines o clnt net v r (λ x m. new x (first o x m)) in
    let (b, ran2, r2, k2) =
      run_ops-Refines ops a.0 a.1 (apply o v) r1 (rest o d)
        (λ x m. k1.ends x (apart o d x m) ∙ new x (later o x m)) in
    (
      b,
      ground (arith, ran1, ran2),
      r2,
      record {
        ends = λ x m. k2.ends x (not_later o x m) ∙ k1.ends x (not_first o x m);
        servers = k2.servers ∙ k1.servers;
      },
    )
  where
    first :
        (o : Op) (x : String)
        → contains x (names (o ∷ [])) ≡ true
        → contains x (names (o ∷ ops)) ≡ true
    first (uses name server) x m = ground arith
    first _ x m = absurd (ground arith)

    later :
        (o : Op) (x : String) → contains x (names ops) ≡ true → contains x (names (o ∷ ops)) ≡ true
    later (uses name server) x m = ground arith
    later _ x m = m

    rest : (o : Op) → Distinct (names (o ∷ ops)) → Distinct (names ops)
    rest (uses name server) d = d.1
    rest _ d = d

    apart :
        (o : Op)
        → Distinct (names (o ∷ ops))
        → (x : String) → contains x (names ops) ≡ true
        → contains x (names (o ∷ [])) ≡ false
    apart (uses name server) d x m = ground (arith, string_eq.beq_iff x name, d.0, m)
    apart connects_all d x m = refl
    apart (connects_to srvs) d x m = refl
    apart (disconnects srv) d x m = refl
    apart disconnects_all d x m = refl

    not_later :
        (o : Op) (x : String)
        → contains x (names (o ∷ ops)) ≡ false
        → contains x (names ops) ≡ false
    not_later (uses name server) x m = ground arith
    not_later _ x m = m

    not_first :
        (o : Op) (x : String)
        → contains x (names (o ∷ ops)) ≡ false
        → contains x (names (o ∷ [])) ≡ false
    not_first (uses name server) x m = ground arith
    not_first connects_all x m = refl
    not_first (connects_to srvs) x m = refl
    not_first (disconnects srv) x m = refl
    not_first disconnects_all x m = refl
