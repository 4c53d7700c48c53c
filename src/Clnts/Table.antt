-- ===== src/Clnts/Table.antt =====
-- The table of the clerks over a test.
use mit.Base.{
  ℕ, ◌+◌, String, true, false, Option, none, some, List, [], ◌∷◌, if◌then◌else◌, ◌==◌, nat_eq,
  string_eq, contains, Distinct, ◌≡◌, refl, arith, nat_beq_iff,
}
use mit.Base.Maps.{Map, keys, lookup, has, insert, erase, lookup-erase}
use mit.Base.Exec.{Exec, returns, panics, ◌>>=◌}
use mit.Labrpc.{Network, delete_end}
use mit.Clnts.{End, Clnt, delete_ends, Clnts, make_client_to, delete_client}
use mit.Clnts.Views.{Op, run_op}

-- What a test does with its clerks: an operation is on a clerk of the table, by its number.
pub data Action : Type 0 where
  makes : ℕ → Option (List String) → Action
  operates : ℕ → Op → Action
  deletes : ℕ → Action

abbrev with_clnt : ℕ → Map ℕ Clnt → Clnt × Network → Clnts
with_clnt p clerks r = record { net = r.1; clerks = some (insert p r.0 clerks) }

unfoldable pub act : Action → Clnts → Exec Clnts
unfolding make_client_to delete_client run_op
act (makes p srvs) clnts = make_client_to p srvs clnts
act (operates p o) clnts = elim clnts.clerks [
  | none ↦ panics
  | some clerks ↦ elim (lookup p clerks) [
    | none ↦ panics
    | some clnt ↦ run_op o clnt clnts.net >>= λ (r : Clnt × Network). returns (with_clnt p clerks r)
  ]
]
act (deletes p) clnts = delete_client p clnts

unfoldable pub run : List Action → Clnts → Exec Clnts
unfolding act
run [] clnts = returns clnts
run (a ∷ as_) clnts = act a clnts >>= run as_

-- How many ends of a clerk, and of all of them, have a name.
unfoldable pub named : String → Map String End → ℕ
named x [] = 0
named x ((srv, e) ∷ ends) = (if x == e.name then 1 else 0) + named x ends

unfoldable pub total : String → Map ℕ Clnt → ℕ
unfolding named
total x [] = 0
total x ((p, clnt) ∷ clerks) = named x clnt.ends + total x clerks

abbrev pub present : String → Network → ℕ
present x net = if has x net.ends then 1 else 0

pub named-insert :
    (x srv : String) (e : End) (ends : Map String End)
    → lookup srv ends ≡ none
    → named x (insert srv e ends) ≡ (if x == e.name then 1 else 0) + named x ends
unfolding named insert lookup
named-insert x srv e [] h = omega arith
named-insert x srv e ((s, f) ∷ ends) h = ground (arith, named-insert x srv e ends)

pub total-insert :
    (x : String) (p : ℕ) (clnt : Clnt) (clerks : Map ℕ Clnt)
    → Distinct (keys clerks)
    → total x (insert p clnt clerks)
        + elim (lookup p clerks) [ none ↦ 0 | some old ↦ named x old.ends ]
      ≡ total x clerks + named x clnt.ends
unfolding total insert lookup
total-insert x p clnt [] d = omega arith
total-insert x p clnt ((q, c) ∷ clerks) d = ground (arith, total-insert x p clnt clerks d.1)

erase-missing :
    (p : ℕ) (clerks : Map ℕ Clnt) → contains p (keys clerks) ≡ false → erase p clerks ≡ clerks
unfolding erase contains
erase-missing p [] h = refl
erase-missing p ((q, c) ∷ clerks) h = ground (arith, erase-missing p clerks)

pub total-erase :
    (x : String) (p : ℕ) (clnt : Clnt) (clerks : Map ℕ Clnt)
    → Distinct (keys clerks)
    → lookup p clerks ≡ some clnt
    → total x (erase p clerks) + named x clnt.ends ≡ total x clerks
unfolding total erase lookup
total-erase x p clnt [] d h = cc
total-erase x p clnt ((q, c) ∷ clerks) d h =
    ground (arith, total-erase x p clnt clerks d.1, nat_beq_iff p q, erase-missing p clerks)

-- Ends that are there, each once beside `others`, can be deleted.
pub delete_ends_returns :
    (ends : Map String End) (net : Network) (others : String → ℕ)
    → ((x : String) → present x net ≡ named x ends + others x)
    → (net' : Network) × (delete_ends ends net ≡ returns net')
      × ((x : String) → present x net' ≡ others x)
unfolding delete_ends named delete_end
delete_ends_returns [] net others h = (net, refl, λ x. omega (arith, h x))
delete_ends_returns ((srv, e) ∷ ends) net others h =
    let there : has e.name net.ends ≡ true =
      ground (arith, h e.name, string_eq.beq_iff e.name e.name) in
    let net1 = record net {
      ends = erase e.name net.ends;
      enabled = erase e.name net.enabled;
      connections = erase e.name net.connections;
    } in
    let (net', ran, left) = delete_ends_returns ends net1 others (λ x.
      ground (
        arith,
        lookup-erase e.name x net.ends,
        h x,
        h e.name,
        string_eq.beq_iff x e.name,
        there,
      )) in
    (net', ground (arith, there, ran), left)
