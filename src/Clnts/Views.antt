-- ===== src/Clnts/Views.antt =====
-- The table that stands for a clerk's ends, and an operation on it.
use mit.Base.{
  String, Bool, true, false, Option, none, some, List, [], ◌∷◌, if◌then◌else◌, or_else, ◌==◌,
  nat_eq, string_eq, contains, ◌≡◌, ap, inl, inr, arith, Option-cases,
}
use mit.Base.Maps.{Map, lookup, has}
use mit.Base.Exec.{Exec, returns, ◌>>=◌}
use mit.Labrpc.{Network, ClientEnd}
use mit.Clnts.{
  End, Clnt, allowed, make_end, enable_each, connect_all, connect_to, disconnect, disconnect_all,
}
use mit.Clnts.Ends.{is_on, AreLinks, enable_each-same, enable_each-own, enable_each-AreLinks}

-- An operation of a test on a clerk; `uses` makes the end to a server, as a call does, with the
-- random name that is drawn for it.
pub data Op : Type 0 where
  uses : (name server : String) → Op
  connects_all : Op
  connects_to : Option (List String) → Op
  disconnects : String → Op
  disconnects_all : Op

unfoldable pub run_op : Op → Clnt → Network → Exec (Clnt × Network)
unfolding make_end connect_all connect_to disconnect disconnect_all
run_op (uses name server) clnt net =
    make_end name server clnt net >>= λ (r : End × Clnt × Network). returns (r.1, r.2)
run_op connects_all clnt net = returns (connect_all clnt net)
run_op (connects_to srvs) clnt net = returns (connect_to srvs clnt net)
run_op (disconnects srv) clnt net = returns (disconnect srv clnt net)
run_op disconnects_all clnt net = returns (disconnect_all clnt net)

unfoldable pub run_ops : List Op → Clnt → Network → Exec (Clnt × Network)
unfolding run_op
run_ops [] clnt net = returns (clnt, net)
run_ops (o ∷ ops) clnt net = run_op o clnt net >>= λ (r : Clnt × Network). run_ops ops r.0 r.1

-- The table: for each server, whether there is an end and whether it is enabled, and whether an end
-- would be enabled when it is made.
pub record View : Type 0 where
  pub status : String → Option Bool
  pub opens : String → Bool

abbrev pub turn : Bool → Option Bool → Option Bool
turn on none = none
turn on (some old) = some on

abbrev pub apply : Op → View → View
apply (uses name server) v = record v {
  status = λ s. if s == server then some (or_else (v.status s) (v.opens s)) else v.status s;
}
apply connects_all v = record { status = λ s. turn true (v.status s); opens = λ s. true }
apply (connects_to none) v = record { status = λ s. turn true (v.status s); opens = λ s. true }
apply (connects_to (some srvs)) v = record {
  status = λ s. if contains s srvs then turn true (v.status s) else v.status s;
  opens = λ s. contains s srvs;
}
apply (disconnects srv) v = record v {
  status = λ s. if s == srv then turn false (v.status s) else v.status s;
}
apply disconnects_all v = record { status = λ s. turn false (v.status s); opens = λ s. false }

abbrev pub apply_all : List Op → View → View
apply_all [] v = v
apply_all (o ∷ ops) v = apply_all ops (apply o v)

abbrev pub status_of : Clnt → Network → String → Option Bool
status_of clnt net s = elim (lookup s clnt.ends) [ none ↦ none | some e ↦ some (is_on e.name net) ]

-- The names that are drawn.
abbrev pub names : List Op → List String
names [] = []
names (uses name server ∷ ops) = name ∷ names ops
names (_ ∷ ops) = names ops

-- No end of the network has one of the names.
abbrev pub AreNew : List String → Network → Type 0
AreNew xs net = (x : String) → contains x xs ≡ true → has x net.ends ≡ false

pub record Refines (v : View) (clnt : Clnt) (net : Network) : Type 0 where
  pub links : AreLinks net clnt.ends
  pub status : (s : String) → status_of clnt net s ≡ v.status s
  pub opens : (s : String) → allowed clnt s ≡ v.opens s

-- What a step keeps: it makes an end with a name of `xs` at most.
pub record Keeps (xs : List String) (net net' : Network) : Type 0 where
  pub ends : (x : String) → contains x xs ≡ false → has x net'.ends ≡ has x net.ends
  pub servers : net'.servers ≡ net.servers

-- One of the four loops, with a new list of servers.
pub loop-Refines :
    (test : String → Bool) (on : Bool) (clnt : Clnt) (net : Network) (srvs : Option (List String))
    (v v' : View)
    → Refines v clnt net
    → ((s : String) → v'.status s ≡ (if test s then turn on (v.status s) else v.status s))
    → ((s : String) → allowed (record clnt { srvs = srvs }) s ≡ v'.opens s)
    → Refines v' (record clnt { srvs = srvs }) (enable_each test on clnt.ends net)
loop-Refines test on clnt net srvs v v' r sees opens = record {
  links = enable_each-AreLinks test on clnt.ends net r.links;
  status = λ s. elim (Option-cases (lookup s clnt.ends)) [
    | inl e ↦ ground (arith, e, r.status s, sees s)
    | inr (x, e) ↦
        ground (arith, e, r.status s, sees s, enable_each-own test on clnt.ends net s x r.links e)
  ];
  opens = opens;
}

pub loop-Keeps :
    (xs : List String) (test : String → Bool) (on : Bool) (ends : Map String End) (net : Network)
    → Keeps xs net (enable_each test on ends net)
loop-Keeps xs test on ends net =
    let (same_ends, same_connections, same_servers) = enable_each-same test on ends net in
    record {
      ends = λ x m. ap (λ (y : Map String ClientEnd). has x y) same_ends;
      servers = same_servers;
    }
