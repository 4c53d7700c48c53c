-- ===== src/Clnts/Ends.antt =====
-- The ends of one clerk and the loops over them.
use mit.Base.{
  String, Bool, true, false, ◌||◌, ◌&&◌, some, [], ◌∷◌, if◌then◌else◌, or_else, ◌==◌, nat_eq,
  string_eq, ◌≡◌, refl, inl, inr, arith, Bool-cases,
}
use mit.Base.Maps.{Map, lookup, has, insert, lookup-insert}
use mit.Labrpc.{Network, enable}
use mit.Clnts.{End, enable_each}

abbrev pub is_on : String → Network → Bool
is_on name net = or_else (lookup name net.enabled) false

-- An end that the clerk has for a server is an end of the network, and connected to the server.
pub record IsLink (net : Network) (srv : String) (e : End) : Type 0 where
  pub there : has e.name net.ends ≡ true
  pub leads : lookup e.name net.connections ≡ some (some srv)
  pub same_end : e.client_end.endname ≡ e.name

abbrev pub AreLinks : Network → Map String End → Type 0
AreLinks net [] = Unit
AreLinks net ((srv, e) ∷ ends) = IsLink net srv e × AreLinks net ends

pub AreLinks-then :
    (net net' : Network) (ends : Map String End)
    → ((srv : String) (e : End) → IsLink net srv e → IsLink net' srv e)
    → AreLinks net ends
    → AreLinks net' ends
AreLinks-then net net' [] h links = tt
AreLinks-then net net' ((srv, e) ∷ ends) h links =
    (h srv e links.0, AreLinks-then net net' ends h links.1)

pub AreLinks-insert :
    (net : Network) (srv : String) (e : End) (ends : Map String End)
    → IsLink net srv e
    → AreLinks net ends
    → AreLinks net (insert srv e ends)
unfolding insert
AreLinks-insert net srv e [] h links = (h, tt)
AreLinks-insert net srv e ((s, f) ∷ ends) h links = elim (Bool-cases (srv == s)) [
  | inl same ↦ rw same (h, links.1)
  | inr other ↦ rw other (links.0, AreLinks-insert net srv e ends h links.1)
]

pub IsLink-lookup :
    (net : Network) (srv : String) (e : End) (ends : Map String End)
    → AreLinks net ends
    → lookup srv ends ≡ some e
    → IsLink net srv e
unfolding lookup
IsLink-lookup net srv e [] links h = cc
IsLink-lookup net srv e ((s, f) ∷ ends) links h = elim (Bool-cases (srv == s)) [
  | inl same ↦
      let is_s : srv ≡ s = (string_eq.beq_iff srv s).0 same in
      let is_f : f ≡ e = ground (arith, same, h) in rw is_s (rw (← is_f) links.0)
  | inr other ↦ IsLink-lookup net srv e ends links.1 (ground (arith, other, h))
]

-- An end with the name, to a server that passes the test.
unfoldable pub any_named : String → (String → Bool) → Map String End → Bool
any_named x test [] = false
any_named x test ((srv, e) ∷ ends) = test srv && x == e.name || any_named x test ends

pub enable_each-on :
    (test : String → Bool) (on : Bool) (ends : Map String End) (net : Network) (x : String)
    → is_on x (enable_each test on ends net) ≡ (if any_named x test ends then on else is_on x net)
unfolding enable_each any_named enable
enable_each-on test on [] net x = refl
enable_each-on test on ((srv, e) ∷ ends) net x = elim (Bool-cases (test srv)) [
  | inl yes_ ↦ ground (
    arith,
    yes_,
    enable_each-on test on ends (enable e.name on net) x,
    lookup-insert e.name x on net.enabled,
  )
  | inr no_ ↦ ground (arith, no_, enable_each-on test on ends net x)
]

pub enable_each-same :
    (test : String → Bool) (on : Bool) (ends : Map String End) (net : Network)
    → ((enable_each test on ends net).ends ≡ net.ends)
      × ((enable_each test on ends net).connections ≡ net.connections)
      × ((enable_each test on ends net).servers ≡ net.servers)
unfolding enable_each enable
enable_each-same test on [] net = (refl, refl, refl)
enable_each-same test on ((srv, e) ∷ ends) net =
    ground (
      arith,
      enable_each-same test on ends (enable e.name on net),
      enable_each-same test on ends net,
    )

pub enable_each-AreLinks :
    (test : String → Bool) (on : Bool) (ends : Map String End) (net : Network)
    → AreLinks net ends
    → AreLinks (enable_each test on ends net) ends
enable_each-AreLinks test on ends net links =
    let (same_ends, same_connections, same_servers) = enable_each-same test on ends net in
    AreLinks-then net (enable_each test on ends net) ends
      (λ srv e l. record {
        there = ground (arith, l.there, same_ends);
        leads = ground (arith, l.leads, same_connections);
        same_end = l.same_end;
      })
      links

any_named-leads :
    (net : Network) (ends : Map String End) (test : String → Bool) (x s : String)
    → AreLinks net ends
    → lookup x net.connections ≡ some (some s)
    → any_named x test ends ≡ true
    → test s ≡ true
unfolding any_named
any_named-leads net [] test x s links at m = cc
any_named-leads net ((srv, e) ∷ ends) test x s links at m =
    elim (Bool-cases (test srv && x == e.name)) [
      | inl here ↦
          let is : x ≡ e.name = ground (arith, here, string_eq.beq_iff x e.name) in
          let l : lookup x net.connections ≡ some (some srv) = rw is links.0.leads in
          let same : s ≡ srv = cc (at, l) in rw same (ground (arith, here))
      | inr later ↦ any_named-leads net ends test x s links.1 at (ground (arith, later, m))
    ]

any_named-lookup :
    (ends : Map String End) (test : String → Bool) (s : String) (e : End)
    → lookup s ends ≡ some e
    → test s ≡ true
    → any_named e.name test ends ≡ true
unfolding any_named lookup
any_named-lookup [] test s e h p = cc
any_named-lookup ((srv, f) ∷ ends) test s e h p = ground (
  arith,
  any_named-lookup ends test s e,
  string_eq.beq_iff s srv,
  string_eq.beq_iff e.name f.name,
)

-- On a clerk's own ends the loop goes by the server.
pub enable_each-own :
    (test : String → Bool) (on : Bool) (ends : Map String End) (net : Network) (s : String)
    (e : End)
    → AreLinks net ends
    → lookup s ends ≡ some e
    → is_on e.name (enable_each test on ends net) ≡ (if test s then on else is_on e.name net)
enable_each-own test on ends net s e links at =
    let l = IsLink-lookup net s e ends links at in
    elim (Bool-cases (any_named e.name test ends)) [
      | inl m ↦ ground (
        arith,
        enable_each-on test on ends net e.name,
        m,
        any_named-leads net ends test e.name s links l.leads m,
      )
      | inr m ↦
          ground
            (arith, enable_each-on test on ends net e.name, m, any_named-lookup ends test s e at)
    ]
