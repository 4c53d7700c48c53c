-- ===== src/Clnts/Cleanup.antt =====
-- What each operation and each action of a test does to the ends of the network.
use mit.Base.{
  ℕ, ◌+◌, String, Bool, true, false, none, some, List, [], ◌∷◌, if◌then◌else◌, ◌==◌, nat_eq,
  string_eq, contains, Distinct, ◌≡◌, refl, ◌∙◌, inl, inr, arith, Bool-cases, Option-cases,
  nat_beq_iff, ap,
}
use mit.Base.Maps.{
  Map, keys, lookup, has, insert, erase, lookup-insert, lookup-erase, Distinct-insert,
  Distinct-erase,
}
use mit.Base.Exec.{returns}
use mit.Labrpc.{Network}
use mit.Clnts.{
  End, Clnt, allowed, make_end, make_clnt_to, connect_all, connect_to, disconnect, disconnect_all,
  remove, Clnts, make_client_to, delete_client,
}
use mit.Clnts.Ends.{enable_each-same}
use mit.Clnts.Views.{
  Op, uses, connects_all, connects_to, disconnects, disconnects_all, run_op, names, AreNew,
}
use mit.Clnts.Added.{added, make_end-added}
use mit.Clnts.Table.{
  Action, makes, operates, deletes, act, named, total, present, named-insert, total-insert,
  total-erase, delete_ends_returns,
}

-- Calls on clerks that are in the table, and new clerks under new numbers.
abbrev pub live_after : Action → (ℕ → Bool) → ℕ → Bool
live_after (makes p srvs) live = λ q. if q == p then true else live q
live_after (operates p o) live = live
live_after (deletes p) live = λ q. if q == p then false else live q

abbrev pub IsProper : Action → (ℕ → Bool) → Type 0
IsProper (makes p srvs) live = live p ≡ false
IsProper (operates p o) live = live p ≡ true
IsProper (deletes p) live = Unit

abbrev pub AreProper : List Action → (ℕ → Bool) → Type 0
AreProper [] live = Unit
AreProper (a ∷ as_) live = IsProper a live × AreProper as_ (live_after a live)

-- The names that are drawn for ends.
abbrev pub name_of : Action → List String
name_of (operates p o) = names (o ∷ [])
name_of _ = []

abbrev pub drawn : List Action → List String
drawn [] = []
drawn (operates p (uses name server) ∷ as_) = name ∷ drawn as_
drawn (_ ∷ as_) = drawn as_

-- The table's clerks, and that the ends are those of the clerks and those of `before`.
pub record IsKept (before : Network) (live : ℕ → Bool) (clnts : Clnts) (clerks : Map ℕ Clnt)
    : Type 0 where
  pub table : clnts.clerks ≡ some clerks
  pub distinct : Distinct (keys clerks)
  pub same_live : (p : ℕ) → has p clerks ≡ live p
  pub counted : (x : String) → present x clnts.net ≡ total x clerks + present x before

pub run_op-present :
    (o : Op) (clnt : Clnt) (net : Network)
    → AreNew (names (o ∷ [])) net
    → (r : Clnt × Network) × (run_op o clnt net ≡ returns r)
      × ((x : String) → present x r.1 + named x clnt.ends ≡ present x net + named x r.0.ends)
      × ((x : String) → contains x (names (o ∷ [])) ≡ false → has x r.1.ends ≡ has x net.ends)
unfolding run_op connect_all connect_to disconnect disconnect_all contains
run_op-present (uses name server) clnt net new = elim (Option-cases (lookup server clnt.ends)) [
  | inr (e, at) ↦ ((clnt, net), unfold make_end in ground (arith, at), λ x. refl, λ x m. refl)
  | inl missing ↦
      let fresh : has name net.ends ≡ false =
        new name (ground (arith, string_eq.beq_iff name name)) in
      let e : End = record { name = name; client_end = record { endname = name } } in
      (
        (
          record clnt { ends = insert server e clnt.ends },
          added name server (allowed clnt server) net,
        ),
        ground (arith, make_end-added name server clnt net missing fresh),
        λ x. ground (
          arith,
          lookup-insert name x (record { endname = name }) net.ends,
          named-insert x server e clnt.ends missing,
          string_eq.beq_iff x name,
          fresh,
        ),
        λ x m. ground (arith, lookup-insert name x (record { endname = name }) net.ends, m),
      )
]
run_op-present connects_all clnt net new =
    let same = (enable_each-same (λ s. true) true clnt.ends net).0 in
    (_, refl, λ x. ground (arith, same), λ x m. ground (arith, same))
run_op-present (connects_to srvs) clnt net new =
    let same = (enable_each-same (allowed (record clnt { srvs = srvs })) true clnt.ends net).0 in
    (_, refl, λ x. ground (arith, same), λ x m. ground (arith, same))
run_op-present (disconnects srv) clnt net new =
    let same = (enable_each-same (λ s. s == srv) false clnt.ends net).0 in
    (_, refl, λ x. ground (arith, same), λ x m. ground (arith, same))
run_op-present disconnects_all clnt net new =
    let same = (enable_each-same (λ s. true) false clnt.ends net).0 in
    (_, refl, λ x. ground (arith, same), λ x m. ground (arith, same))

pub act-IsKept :
    (before : Network) (live : ℕ → Bool) (a : Action) (clnts : Clnts) (clerks : Map ℕ Clnt)
    → IsKept before live clnts clerks
    → IsProper a live
    → AreNew (name_of a) clnts.net
    → (clnts' : Clnts) × (clerks' : Map ℕ Clnt) × (act a clnts ≡ returns clnts')
      × IsKept before (live_after a live) clnts' clerks'
      × ((x : String)
          → contains x (name_of a) ≡ false
          → has x clnts.net.ends ≡ false
          → has x clnts'.net.ends ≡ false)
unfolding act make_client_to make_clnt_to delete_client remove total named
act-IsKept before live (makes p srvs) clnts clerks k proper new =
    let clnt : Clnt = record { ends = []; srvs = srvs } in
    let missing : lookup p clerks ≡ none = elim (Option-cases (lookup p clerks)) [
      | inl e ↦ e
      | inr (c, e) ↦ absurd (ground (arith, e, proper, k.same_live p))
    ] in
    (
      record clnts { clerks = some (insert p clnt clerks) },
      insert p clnt clerks,
      ground (arith, k.table),
      record {
        table = refl;
        distinct = Distinct-insert p clnt clerks k.distinct;
        same_live = λ q. ground (arith, lookup-insert p q clnt clerks, k.same_live q);
        counted =
            λ x. ground (arith, k.counted x, total-insert x p clnt clerks k.distinct, missing);
      },
      λ x m new_. new_,
    )
act-IsKept before live (operates p o) clnts clerks k proper new =
    elim (Option-cases (lookup p clerks)) [
      | inl e ↦ absurd (ground (arith, e, proper, k.same_live p))
      | inr (clnt, e) ↦
          let (r, ran, moves, others) = run_op-present o clnt clnts.net new in
          (
            record { net = r.1; clerks = some (insert p r.0 clerks) },
            insert p r.0 clerks,
            ground (arith, k.table, e, ran),
            record {
              table = refl;
              distinct = Distinct-insert p r.0 clerks k.distinct;
              same_live = λ q. ground (
                arith,
                lookup-insert p q r.0 clerks,
                k.same_live q,
                proper,
                nat_beq_iff q p,
                ap live,
              );
              counted = λ x.
                  ground (arith, k.counted x, moves x, total-insert x p r.0 clerks k.distinct, e);
            },
            λ x m absent. others x m ∙ absent,
          )
    ]
act-IsKept before live (deletes p) clnts clerks k proper new =
    elim (Option-cases (lookup p clerks)) [
      | inl e ↦ (
        clnts,
        clerks,
        ground (arith, k.table, e),
        record {
          table = k.table;
          distinct = k.distinct;
          same_live = λ q. elim (Bool-cases (q == p)) [
            | inl same ↦ ground (arith, same, (nat_beq_iff q p).0 same, e)
            | inr other ↦ ground (arith, other, k.same_live q)
          ];
          counted = k.counted;
        },
        λ x m absent. absent,
      )
      | inr (clnt, e) ↦
          let others = λ (x : String). total x (erase p clerks) + present x before in
          let (net', ran, left) =
            delete_ends_returns clnt.ends clnts.net others
              (λ x. omega (arith, k.counted x, total-erase x p clnt clerks k.distinct e)) in
          (
            record { net = net'; clerks = some (erase p clerks) },
            erase p clerks,
            ground (arith, k.table, e, ran),
            record {
              table = refl;
              distinct = Distinct-erase p clerks k.distinct;
              same_live = λ q. ground (arith, lookup-erase p q clerks, k.same_live q);
              counted = left;
            },
            λ x m absent.
                ground
                  (arith, left x, k.counted x, total-erase x p clnt clerks k.distinct e, absent),
          )
    ]
