-- ===== src/Clnts/Added.antt =====
-- An end that makeEnd makes, in the network and in the table.
use mit.Base.{
  String, Bool, false, none, some, ◌==◌, nat_eq, string_eq, ◌≡◌, refl, ap, inl, inr, arith,
  Bool-cases, Option-cases,
}
use mit.Base.Maps.{lookup, has, insert, lookup-insert}
use mit.Base.Exec.{returns}
use mit.Labrpc
use mit.Labrpc.{Network, ClientEnd, enable}
use mit.Clnts.{End, Clnt, allowed, make_end}
use mit.Clnts.Ends.{is_on, IsLink, AreLinks-then, AreLinks-insert, IsLink-lookup}
use mit.Clnts.Views.{Refines, View, apply, uses}

-- The network after makeEnd has made an end.
abbrev pub added : String → String → Bool → Network → Network
added name server on net = record net {
  ends = insert name (record { endname = name }) net.ends;
  enabled = insert name on (insert name false net.enabled);
  connections = insert name (some server) (insert name none net.connections);
}

pub make_end-added :
    (name server : String) (clnt : Clnt) (net : Network)
    → lookup server clnt.ends ≡ none
    → has name net.ends ≡ false
    → make_end name server clnt net
      ≡ returns (
        record { name = name; client_end = record { endname = name } },
        record clnt {
          ends =
              insert server
                (record { name = name; client_end = record { endname = name } })
                clnt.ends;
        },
        added name server (allowed clnt server) net,
      )
unfolding make_end Labrpc.make_end Labrpc.connect enable
make_end-added name server clnt net missing new = elim (Bool-cases (allowed clnt server)) [
  | inl e ↦ ground (arith, missing, new, e)
  | inr e ↦ ground (arith, missing, new, e)
]

pub added-IsLink :
    (name server srv : String) (on : Bool) (net : Network) (e : End)
    → has name net.ends ≡ false
    → IsLink net srv e
    → IsLink (added name server on net) srv e
added-IsLink name server srv on net e new l =
    let other : (e.name == name) ≡ false = elim (Bool-cases (e.name == name)) [
      | inr no_ ↦ no_
      | inl same ↦
          let is = (string_eq.beq_iff e.name name).0 same in
          absurd (cc (l.there, new, ap (λ (x : String). has x net.ends) is))
    ] in
    record {
      there =
          ground
            (arith, lookup-insert name e.name (record { endname = name }) net.ends, other, l.there);
      leads = ground (
        arith,
        lookup-insert name e.name (some server) (insert name none net.connections),
        lookup-insert name e.name none net.connections,
        other,
        l.leads,
      );
      same_end = l.same_end;
    }

-- The new end itself.
pub added-new :
    (name server : String) (on : Bool) (net : Network)
    → IsLink
        (added name server on net)
        server
        (record { name = name; client_end = record { endname = name } })
      × (is_on name (added name server on net) ≡ on)
added-new name server on net = (
  record {
    there = ground (
      arith,
      lookup-insert name name (record { endname = name }) net.ends,
      string_eq.beq_iff name name,
    );
    leads = ground (
      arith,
      lookup-insert name name (some server) (insert name none net.connections),
      string_eq.beq_iff name name,
    );
    same_end = refl;
  },
  ground (
    arith,
    lookup-insert name name on (insert name false net.enabled),
    string_eq.beq_iff name name,
  ),
)

-- The other ends of the network are as before.
pub added-on :
    (name server : String) (on : Bool) (net : Network) (x : String)
    → (x == name) ≡ false
    → is_on x (added name server on net) ≡ is_on x net
added-on name server on net x other = ground (
  arith,
  lookup-insert name x on (insert name false net.enabled),
  lookup-insert name x false net.enabled,
  other,
)

pub uses-Refines :
    (name server : String) (clnt : Clnt) (net : Network) (v : View)
    → Refines v clnt net
    → lookup server clnt.ends ≡ none
    → has name net.ends ≡ false
    → Refines
        (apply (uses name server) v)
        (record clnt {
          ends =
              insert server
                (record { name = name; client_end = record { endname = name } })
                clnt.ends;
        })
        (added name server (allowed clnt server) net)
unfolding allowed
uses-Refines name server clnt net v r missing new =
    let on = allowed clnt server in
    let net' = added name server on net in
    let e : End = record { name = name; client_end = record { endname = name } } in
    let (link, is) = added-new name server on net in
    record {
      links = AreLinks-insert net' server e clnt.ends link (
          AreLinks-then net net' clnt.ends (λ srv f l. added-IsLink name server srv on net f new l)
            r.links);
      status = λ s. elim (Bool-cases (s == server)) [
        | inl same ↦
            let is_s = (string_eq.beq_iff s server).0 same in
            ground (
              arith,
              same,
              lookup-insert server s e clnt.ends,
              is,
              r.opens server,
              r.status server,
              missing,
              is_s,
              ap v.opens is_s,
              ap v.status is_s,
            )
        | inr other ↦ elim (Option-cases (lookup s clnt.ends)) [
          | inl none_ ↦ ground (arith, other, lookup-insert server s e clnt.ends, none_, r.status s)
          | inr (f, at) ↦
              let l = IsLink-lookup net s f clnt.ends r.links at in
              let apart : (f.name == name) ≡ false = elim (Bool-cases (f.name == name)) [
                | inr no_ ↦ no_
                | inl same ↦
                    let is_f = (string_eq.beq_iff f.name name).0 same in
                    absurd (cc (l.there, new, ap (λ (x : String). has x net.ends) is_f))
              ] in
              ground (
                arith,
                other,
                lookup-insert server s e clnt.ends,
                at,
                r.status s,
                added-on name server on net f.name apart,
              )
        ]
      ];
      opens = λ s. r.opens s;
    }
