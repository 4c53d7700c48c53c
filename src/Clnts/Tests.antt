-- ===== src/Clnts/Tests.antt =====
-- Two clerks of a test with two servers, and the theorems at them.
use mit.Base.{
  String, true, false, none, some, List, [], ◌∷◌, nat_eq, string_eq, contains, Distinct, ◌≡◌, refl,
  ◌==◌, Bool-cases, inl, inr, ap,
}
use mit.Base.Maps.{lookup}
use mit.Base.Exec.{returns}
use mit.Labrpc.{Network, make_network}
use mit.Labrpc.Serving.{Reaches}
use mit.Clnts.{End, Clnt, Clnts, make_clnts, connect_to, cleanup, allowed}
use mit.Clnts.Ends.{AreLinks}
use mit.Clnts.Views.{
  Op, uses, connects_to, disconnects, disconnects_all, run_ops, apply_all, AreNew, names, Refines,
  Keeps,
}
use mit.Clnts.Refinement.{run_ops-Refines}
use mit.Clnts.Reach.{connect_to_stays, table_of, Refines-table}
use mit.Clnts.Table.{Action, makes, operates, deletes, run}
use mit.Clnts.Cleanup.{drawn}
use mit.Clnts.NoLeak.{SameEnds, run-cleanup}

-- Two servers run, and there is one end, of another part of the test.
abbrev net : Network
net = record make_network {
  ends = ("x", record { endname = "x" }) ∷ [];
  servers = ("s0", some 0) ∷ ("s1", some 1) ∷ [];
}

abbrev clnt : Clnt
clnt = record { ends = []; srvs = none }

abbrev ops : List Op
ops =
    uses "a" "s0"
    ∷ disconnects "s0"
    ∷ connects_to (some ("s1" ∷ []))
    ∷ connects_to none
    ∷ uses "b" "s0"
    ∷ uses "c" "s1"
    ∷ []

AreNew-not_x : (xs : List String) → contains "x" xs ≡ false → AreNew xs net
unfolding lookup make_network
AreNew-not_x xs h x m = elim (Bool-cases (x == "x")) [
  | inl e ↦ absurd (cc (ap (λ (y : String). contains y xs) ((string_eq.beq_iff x "x").0 e), m, h))
  | inr e ↦ rw e refl
]

ops-AreNew : AreNew (names ops) net
unfolding contains
ops-AreNew = AreNew-not_x (names ops) refl

ops-Distinct : Distinct (names ops)
unfolding contains
ops-Distinct = (refl, (refl, (refl, tt)))

run_ops-Refines_example :
    (r : Clnt × Network) × (run_ops ops clnt net ≡ returns r)
    × Refines (apply_all ops (table_of clnt net)) r.0 r.1
    × Keeps (names ops) net r.1
run_ops-Refines_example =
    run_ops-Refines ops clnt net (table_of clnt net) (Refines-table clnt net tt) ops-Distinct
      ops-AreNew

abbrev calls : List Op
calls = uses "a" "s0" ∷ uses "b" "s1" ∷ []

calls-AreNew : AreNew (names calls) net
unfolding contains
calls-AreNew = AreNew-not_x (names calls) refl

calls-Distinct : Distinct (names calls)
unfolding contains
calls-Distinct = (refl, (refl, tt))

-- The clerk has an end to the first server.
abbrev end0 : End
end0 = record { name = "a"; client_end = record { endname = "a" } }

abbrev linked : Network
linked = record net {
  ends = ("x", record { endname = "x" }) ∷ ("a", record { endname = "a" }) ∷ [];
  enabled = ("a", true) ∷ [];
  connections = ("a", some "s0") ∷ [];
}

abbrev clerk : Clnt
clerk = record { ends = ("s0", end0) ∷ []; srvs = none }

clerk-AreLinks : AreLinks linked clerk.ends
unfolding lookup
clerk-AreLinks = (record { there = refl; leads = refl; same_end = refl }, tt)

end0-Reaches : Reaches end0.name "s0" 0 linked
unfolding lookup
end0-Reaches = record { is_enabled = refl; is_connected = refl; is_served = refl }

at_end0 : lookup "s0" clerk.ends ≡ some end0
unfolding lookup
at_end0 = refl

not_listed : contains {A = String} "s0" ("s1" ∷ []) ≡ false
unfolding contains
not_listed = refl

connect_to_stays_example :
    Reaches end0.name "s0" 0 (connect_to (some ("s1" ∷ [])) clerk linked).1
    × (allowed (connect_to (some ("s1" ∷ [])) clerk linked).0 "s0" ≡ false)
connect_to_stays_example =
    connect_to_stays ("s1" ∷ []) clerk linked "s0" end0 0 clerk-AreLinks not_listed at_end0
      end0-Reaches

abbrev actions : List Action
actions =
    makes 0 none
    ∷ makes 1 (some ("s1" ∷ []))
    ∷ operates 0 (uses "a" "s0")
    ∷ operates 1 (uses "b" "s1")
    ∷ operates 0 disconnects_all
    ∷ deletes 0
    ∷ []

actions-AreNew : AreNew (drawn actions) net
unfolding contains
actions-AreNew = AreNew-not_x (drawn actions) refl

actions-Distinct : Distinct (drawn actions)
unfolding contains
actions-Distinct = (refl, (refl, tt))

run-cleanup_example :
    (c : Clnts) × (c' : Clnts) × (run actions (make_clnts net) ≡ returns c)
    × (cleanup c ≡ returns c')
    × SameEnds net c'.net
run-cleanup_example =
    run-cleanup actions net (refl, (refl, (refl, (refl, (refl, (tt, tt)))))) actions-Distinct
      actions-AreNew
