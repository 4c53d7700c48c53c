-- ===== src/Clnts/Reach.antt =====
-- Which servers a clerk reaches after its connections were changed.
use mit.Base.{
  String, Bool, true, false, none, some, List, [], ◌∷◌, ◌==◌, nat_eq, string_eq, contains, Distinct,
  All, ◌≡◌, refl, ◌⊎◌, inl, inr, arith, Bool-cases, Option-cases,
}
use mit.Base.Maps.{lookup}
use mit.Base.Exec.{returns}
use mit.Labrpc.{Network, ServerRef, server_at}
use mit.Labrpc.Serving.{Reaches}
use mit.Clnts.{End, Clnt, allowed, connect_to}
use mit.Clnts.Ends.{is_on, AreLinks, IsLink-lookup, enable_each-same, enable_each-own}
use mit.Clnts.Views.{
  Op, uses, connects_all, connects_to, disconnects, disconnects_all, run_ops, View, apply,
  apply_all, status_of, names, AreNew, Refines,
}
use mit.Clnts.Refinement.{run_ops-Refines}

-- Every end of the table is turned to `on`, and so are those to come.
record IsTurned (on : Bool) (v : View) : Type 0 where
  status : (s : String) → (v.status s ≡ none) ⊎ (v.status s ≡ some on)
  opens : (s : String) → v.opens s ≡ on

-- Calls and the loss of a server; calls only.
abbrev pub IsQuiet : Op → Type 0
IsQuiet (uses name server) = Unit
IsQuiet (disconnects srv) = Unit
IsQuiet _ = ⊥

abbrev pub IsUse : Op → Type 0
IsUse (uses name server) = Unit
IsUse _ = ⊥

uses-IsTurned :
    (on : Bool) (name server : String) (v : View)
    → IsTurned on v
    → IsTurned on (apply (uses name server) v)
uses-IsTurned on name server v t = record {
  status = λ s. elim (Bool-cases (s == server)) [
    | inr other ↦ rw other (t.status s)
    | inl same ↦ rw same (elim (t.status s) [
      | inl e ↦ inr (ground (arith, e, t.opens s))
      | inr e ↦ inr (ground (arith, e))
    ])
  ];
  opens = t.opens;
}

quiet-IsTurned :
    (ops : List Op) (v : View)
    → All IsQuiet ops
    → IsTurned false v
    → IsTurned false (apply_all ops v)
quiet-IsTurned [] v q t = t
quiet-IsTurned (uses name server ∷ ops) v q t =
    quiet-IsTurned ops (apply (uses name server) v) q.1 (uses-IsTurned false name server v t)
quiet-IsTurned (disconnects srv ∷ ops) v q t =
    quiet-IsTurned ops (apply (disconnects srv) v) q.1 (record {
      status = λ s. elim (Bool-cases (s == srv)) [
        | inr other ↦ rw other (t.status s)
        | inl same ↦ rw same (elim (t.status s) [
          | inl e ↦ inl (ground (arith, e))
          | inr e ↦ inr (ground (arith, e))
        ])
      ];
      opens = t.opens;
    })
quiet-IsTurned (connects_all ∷ ops) v q t = absurd q.0
quiet-IsTurned (connects_to srvs ∷ ops) v q t = absurd q.0
quiet-IsTurned (disconnects_all ∷ ops) v q t = absurd q.0

use-IsTurned :
    (ops : List Op) (v : View) → All IsUse ops → IsTurned true v → IsTurned true (apply_all ops v)
use-IsTurned [] v q t = t
use-IsTurned (uses name server ∷ ops) v q t =
    use-IsTurned ops (apply (uses name server) v) q.1 (uses-IsTurned true name server v t)
use-IsTurned (disconnects srv ∷ ops) v q t = absurd q.0
use-IsTurned (connects_all ∷ ops) v q t = absurd q.0
use-IsTurned (connects_to srvs ∷ ops) v q t = absurd q.0
use-IsTurned (disconnects_all ∷ ops) v q t = absurd q.0

all-IsTurned :
    (on : Bool) (o : Op) (v : View)
    → ((s : String) → (apply o v).status s ≡ elim (v.status s) [ none ↦ none | some b ↦ some on ])
    → ((s : String) → (apply o v).opens s ≡ on)
    → IsTurned on (apply o v)
all-IsTurned on o v h k = record {
  status = λ s. elim (Option-cases (v.status s)) [
    | inl e ↦ inl (ground (arith, h s, e))
    | inr (b, e) ↦ inr (ground (arith, h s, e))
  ];
  opens = k;
}

-- An end of a clerk as the table has it.
turned-is_on :
    (on : Bool) (v : View) (clnt : Clnt) (net : Network) (s : String) (e : End)
    → Refines v clnt net
    → IsTurned on v
    → lookup s clnt.ends ≡ some e
    → is_on e.name net ≡ on
turned-is_on on v clnt net s e r t at = elim (t.status s) [
  | inl no_end ↦ absurd (ground (arith, no_end, at, r.status s))
  | inr is ↦ ground (arith, is, at, r.status s)
]

-- The state of a clerk whose ends all lead to their servers.
abbrev pub table_of : Clnt → Network → View
table_of clnt net = record { status = status_of clnt net; opens = allowed clnt }

pub Refines-table :
    (clnt : Clnt) (net : Network) → AreLinks net clnt.ends → Refines (table_of clnt net) clnt net
Refines-table clnt net links = record { links = links; status = λ s. refl; opens = λ s. refl }

-- No end of the clerk reaches a server.
pub record IsCutOff (clnt : Clnt) (net : Network) : Type 0 where
  pub unreached :
      (s : String) (e : End) (rs : ServerRef)
      → lookup s clnt.ends ≡ some e
      → ¬ Reaches e.name s rs net

-- Every end of the clerk reaches its server, if that is running.
pub record IsConnected (clnt : Clnt) (net : Network) : Type 0 where
  pub reached :
      (s : String) (e : End) (rs : ServerRef)
      → lookup s clnt.ends ≡ some e
      → server_at net s ≡ some rs
      → Reaches e.name s rs net

-- After DisconnectAll no end of the clerk reaches a server, however often it calls servers and is
-- disconnected from them, and whatever servers it has an end to before: a new end is disabled, too.
pub disconnect_all-IsCutOff :
    (ops : List Op) (clnt : Clnt) (net : Network)
    → AreLinks net clnt.ends
    → All IsQuiet ops
    → Distinct (names ops)
    → AreNew (names ops) net
    → (r : Clnt × Network) × (run_ops (disconnects_all ∷ ops) clnt net ≡ returns r)
      × IsCutOff r.0 r.1
disconnect_all-IsCutOff ops clnt net links quiet d new =
    let v = table_of clnt net in
    let (r, ran, refines, kept) =
      run_ops-Refines (disconnects_all ∷ ops) clnt net v (Refines-table clnt net links) d new in
    let t =
      quiet-IsTurned ops (apply disconnects_all v) quiet
        (all-IsTurned false disconnects_all v (λ s. ground arith) (λ s. refl)) in
    (
      r,
      ran,
      record {
        unreached = λ s e rs at reach.
            let off = turned-is_on false _ r.0 r.1 s e refines t at in
            ground (arith, off, reach.is_enabled);
      },
    )

-- After ConnectAll every end of the clerk, also one that a later call makes, reaches its server, if
-- the server is running.
pub connect_all-IsConnected :
    (ops : List Op) (clnt : Clnt) (net : Network)
    → AreLinks net clnt.ends
    → All IsUse ops
    → Distinct (names ops)
    → AreNew (names ops) net
    → (r : Clnt × Network) × (run_ops (connects_all ∷ ops) clnt net ≡ returns r)
      × IsConnected r.0 r.1
connect_all-IsConnected ops clnt net links quiet d new =
    let v = table_of clnt net in
    let (r, ran, refines, kept) =
      run_ops-Refines (connects_all ∷ ops) clnt net v (Refines-table clnt net links) d new in
    let t =
      use-IsTurned ops (apply connects_all v) quiet
        (all-IsTurned true connects_all v (λ s. ground arith) (λ s. refl)) in
    (
      r,
      ran,
      record {
        reached = λ s e rs at up.
            let l = IsLink-lookup r.1 s e r.0.ends refines.links at in
            let on = turned-is_on true _ r.0 r.1 s e refines t at in
            record {
              is_enabled = ground (arith, on);
              is_connected = ground (arith, l.leads);
              is_served = ground (arith, up);
            };
      },
    )

-- ConnectTo does not cut the clerk off from the other servers: an end that reaches a server which is
-- not in the list reaches it afterwards, although the clerk is not allowed to make such an end.
pub connect_to_stays :
    (srvs : List String) (clnt : Clnt) (net : Network) (s : String) (e : End) (rs : ServerRef)
    → AreLinks net clnt.ends
    → contains s srvs ≡ false
    → lookup s clnt.ends ≡ some e
    → Reaches e.name s rs net
    → Reaches e.name s rs (connect_to (some srvs) clnt net).1
      × (allowed (connect_to (some srvs) clnt net).0 s ≡ false)
unfolding connect_to allowed
connect_to_stays srvs clnt net s e rs links missing at reach =
    let test = λ (t : String). contains t srvs in
    let (same_ends, same_connections, same_servers) = enable_each-same test true clnt.ends net in
    (
      record {
        is_enabled = ground (
          arith,
          reach.is_enabled,
          enable_each-own test true clnt.ends net s e links at,
          missing,
        );
        is_connected = ground (arith, reach.is_connected, same_connections);
        is_served = ground (arith, reach.is_served, same_servers);
      },
      missing,
    )
