-- ===== src/Clnts/NoLeak.antt =====
-- A test with its clerks, and its clean up at the end.
use mit.Base.{
  ℕ, ◌+◌, String, Bool, true, false, none, some, List, [], ◌∷◌, nat_eq, string_eq, contains,
  Distinct, ◌≡◌, refl, arith,
}
use mit.Base.Maps.{Map, lookup, has}
use mit.Base.Exec.{returns}
use mit.Labrpc.{Network}
use mit.Clnts.{Clnt, remove, Clnts, make_clnts, remove_all, cleanup}
use mit.Clnts.Views.{uses, connects_all, connects_to, disconnects, disconnects_all, AreNew}
use mit.Clnts.Table.{Action, makes, operates, deletes, run, total, present, delete_ends_returns}
use mit.Clnts.Cleanup.{AreProper, IsKept, act-IsKept, drawn, live_after, name_of}

pub remove_all_returns :
    (clerks : Map ℕ Clnt) (net : Network) (others : String → ℕ)
    → ((x : String) → present x net ≡ total x clerks + others x)
    → (net' : Network) × (remove_all clerks net ≡ returns net')
      × ((x : String) → present x net' ≡ others x)
unfolding remove_all remove total
remove_all_returns [] net others h = (net, refl, λ x. omega (arith, h x))
remove_all_returns ((p, clnt) ∷ clerks) net others h =
    let (net1, ran1, left1) =
      delete_ends_returns clnt.ends net (λ x. total x clerks + others x)
        (λ x. omega (arith, h x)) in
    let (net2, ran2, left2) = remove_all_returns clerks net1 others left1 in
    (net2, ground (arith, ran1, ran2), left2)

pub run-IsKept :
    (before : Network) (live : ℕ → Bool) (as_ : List Action) (clnts : Clnts) (clerks : Map ℕ Clnt)
    → IsKept before live clnts clerks
    → AreProper as_ live
    → Distinct (drawn as_)
    → AreNew (drawn as_) clnts.net
    → (clnts' : Clnts) × (clerks' : Map ℕ Clnt) × (run as_ clnts ≡ returns clnts')
      × (clnts'.clerks ≡ some clerks')
      × ((x : String) → present x clnts'.net ≡ total x clerks' + present x before)
unfolding run contains
run-IsKept before live [] clnts clerks k proper d new = (clnts, clerks, refl, k.table, k.counted)
run-IsKept before live (a ∷ as_) clnts clerks k proper d new =
    let (c1, t1, ran1, k1, absent) =
      act-IsKept before live a clnts clerks k proper.0 (λ x m. new x (first a x m)) in
    let (c2, t2, ran2, at, counted) =
      run-IsKept before (live_after a live) as_ c1 t1 k1 proper.1 (rest a d)
        (λ x m. absent x (apart a d x m) (new x (later a x m))) in
    (c2, t2, ground (arith, ran1, ran2), at, counted)
  where
    first :
        (a : Action) (x : String)
        → contains x (name_of a) ≡ true
        → contains x (drawn (a ∷ as_)) ≡ true
    first (operates p (uses name server)) x m = ground arith
    first (operates p _) x m = absurd (ground arith)
    first (makes p srvs) x m = absurd (ground arith)
    first (deletes p) x m = absurd (ground arith)

    later :
        (a : Action) (x : String)
        → contains x (drawn as_) ≡ true
        → contains x (drawn (a ∷ as_)) ≡ true
    later (operates p (uses name server)) x m = ground arith
    later (operates p _) x m = m
    later (makes p srvs) x m = m
    later (deletes p) x m = m

    rest : (a : Action) → Distinct (drawn (a ∷ as_)) → Distinct (drawn as_)
    rest (operates p (uses name server)) d = d.1
    rest (operates p _) d = d
    rest (makes p srvs) d = d
    rest (deletes p) d = d

    apart :
        (a : Action)
        → Distinct (drawn (a ∷ as_))
        → (x : String) → contains x (drawn as_) ≡ true
        → contains x (name_of a) ≡ false
    apart (operates p (uses name server)) d x m = ground (arith, string_eq.beq_iff x name, d.0, m)
    apart (operates p connects_all) d x m = refl
    apart (operates p (connects_to srvs)) d x m = refl
    apart (operates p (disconnects srv)) d x m = refl
    apart (operates p disconnects_all) d x m = refl
    apart (makes p srvs) d x m = refl
    apart (deletes p) d x m = refl

-- The network has the ends that it had before.
pub record SameEnds (net net' : Network) : Type 0 where
  pub same : (x : String) → has x net'.ends ≡ has x net.ends

-- Whatever a test does with clerks that it makes, uses and deletes, cleanup at its end returns, and
-- the network then has just the ends that it had before the test: each end of a clerk is deleted,
-- and none twice. The names that are drawn differ from each other and from those of the ends before,
-- a new clerk has a new number, and a test uses the clerks that it has not deleted.
pub run-cleanup :
    (as_ : List Action) (net : Network)
    → AreProper as_ (λ p. false)
    → Distinct (drawn as_)
    → AreNew (drawn as_) net
    → (c : Clnts) × (c' : Clnts) × (run as_ (make_clnts net) ≡ returns c)
      × (cleanup c ≡ returns c')
      × SameEnds net c'.net
unfolding make_clnts cleanup total lookup
run-cleanup as_ net proper d new =
    let (c, clerks, ran, at, counted) =
      run-IsKept net (λ p. false) as_ (make_clnts net) []
        (record { table = refl; distinct = tt; same_live = λ p. refl; counted = λ x. omega arith })
        proper d new in
    let (net', ran', left) = remove_all_returns clerks c.net (λ x. present x net) counted in
    (
      c,
      record { net = net'; clerks = none },
      ran,
      ground (arith, at, ran'),
      record { same = λ x. ground (arith, left x) },
    )
