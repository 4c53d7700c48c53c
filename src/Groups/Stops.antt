-- ===== src/Groups/Stops.antt =====
-- What stopping a server changes, and what it does not.
use mit.Base.{
  ℕ, String, Bool, false, ◌||◌, Option, none, some, List, [], ◌∷◌, ◌++◌, ◌==◌, nat_eq, string_eq,
  nat_beq_iff, get_elem?, set, contains, get_elem?-set, ◌≡◌, refl, ◌∙◌, inl, inr, arith, Bool-cases,
  Option-cases,
}
use mit.Base.Exec.{returns, panics, >>=-eq-returns}
use mit.Labrpc
use mit.Labrpc.{Network, delete_server}
use mit.Groups.{Server, ServerGrp, end_name, enable_end, disconnect_out, disconnect_in, disconnect}
use mit.Groups.Ends.{IsNamed}
use mit.Groups.Servers.{kill_all}

-- Disconnecting a server takes no server off the network.
pub disconnect_out-servers :
    (i : ℕ) (from : List ℕ) (sg sg' : ServerGrp)
    → disconnect_out i from sg ≡ returns sg'
    → sg'.net.servers ≡ sg.net.servers
unfolding disconnect_out Labrpc.enable
disconnect_out-servers i [] sg sg' h = ground (arith, h)
disconnect_out-servers i (j ∷ from) sg sg' h =
    let (endname, ran, more) =
      >>=-eq-returns (end_name sg i j)
        (λ (x : String). disconnect_out i from (enable_end x false sg)) h in
    disconnect_out-servers i from (enable_end endname false sg) sg' more

pub disconnect_in-servers :
    (i : ℕ) (from : List ℕ) (sg sg' : ServerGrp)
    → disconnect_in i from sg ≡ returns sg'
    → sg'.net.servers ≡ sg.net.servers
unfolding disconnect_in Labrpc.enable
disconnect_in-servers i [] sg sg' h = ground (arith, h)
disconnect_in-servers i (j ∷ from) sg sg' h = elim (Option-cases (get_elem? sg.srvs j)) [
  | inl e ↦ let stopped : panics ≡ returns sg' = ground (arith, h, e) in cc stopped
  | inr (s, e) ↦ elim (Option-cases s.end_names) [
    | inl e2 ↦ disconnect_in-servers i from sg sg' (ground (arith, h, e, e2))
    | inr (names, e2) ↦
        let (endname, ran, more) =
          >>=-eq-returns (end_name sg j i)
            (λ (x : String). disconnect_in i from (enable_end x false sg))
            (ground (arith, h, e, e2)) in
        disconnect_in-servers i from (enable_end endname false sg) sg' more
  ]
]

pub disconnect-servers :
    (i : ℕ) (from : List ℕ) (sg sg' : ServerGrp)
    → disconnect i from sg ≡ returns sg'
    → sg'.net.servers ≡ sg.net.servers
unfolding disconnect
disconnect-servers i from sg sg' h = elim (Option-cases (get_elem? sg.connected i)) [
  | inl e ↦ let stopped : panics ≡ returns sg' = ground (arith, h, e) in cc stopped
  | inr (b, e) ↦ elim (Option-cases (get_elem? sg.srvs i)) [
    | inl e2 ↦ let stopped : panics ≡ returns sg' = ground (arith, h, e, e2) in cc stopped
    | inr (s, e2) ↦
        let sg1 : ServerGrp = record sg { connected = set sg.connected i false } in
        elim (Option-cases s.end_names) [
          | inl e3 ↦ disconnect_in-servers i from sg1 sg' (ground (arith, h, e, e2, e3))
          | inr (names, e3) ↦
              let (sg2, ran, more) =
                >>=-eq-returns (disconnect_out i from sg1) (disconnect_in i from)
                  (ground (arith, h, e, e2, e3)) in
              disconnect_in-servers i from sg2 sg' more ∙ disconnect_out-servers i from sg1 sg2 ran
        ]
  ]
]

-- Which services are told to stop.
pub contains-append :
    (x : ℕ) (xs ys : List ℕ) → contains x (xs ++ ys) ≡ (contains x xs || contains x ys)
unfolding contains
contains-append x [] ys = refl
contains-append x (y ∷ xs) ys = ground (arith, contains-append x xs ys)

abbrev pub is_service : ℕ → List (Option ℕ) → Bool
is_service x [] = false
is_service x (none ∷ svcs) = is_service x svcs
is_service x (some y ∷ svcs) = x == y || is_service x svcs

pub contains-kill_all :
    (x : ℕ) (svcs : List (Option ℕ)) (killed : List ℕ)
    → contains x (kill_all svcs killed) ≡ (contains x killed || is_service x svcs)
unfolding kill_all contains
contains-kill_all x [] killed = ground arith
contains-kill_all x (none ∷ svcs) killed = contains-kill_all x svcs killed
contains-kill_all x (some y ∷ svcs) killed =
    ground (arith, contains-kill_all x svcs (killed ++ y ∷ []), contains-append x killed (y ∷ []))

-- Server `i` with other saved state and other services.
pub set-IsNamed :
    (n : ℕ) (name : ℕ → ℕ → String) (sg : ServerGrp) (i : ℕ) (s s1 : Server)
    → IsNamed n name sg
    → get_elem? sg.srvs i ≡ some s
    → s1.end_names ≡ s.end_names
    → IsNamed n name (record sg { srvs = set sg.srvs i s1 })
unfolding end_name
set-IsNamed n name sg i s s1 named at same = record {
  size = named.size;
  servers = λ k lk.
      let (x, names, there, has_names) = named.servers k lk in
      elim (Bool-cases (k == i)) [
        | inl e ↦ (
          s1,
          names,
          ground (arith, get_elem?-set sg.srvs i k s1 s at, e),
          ground (arith, same, at, there, has_names, nat_beq_iff k i, e),
        )
        | inr e ↦ (x, names, ground (arith, get_elem?-set sg.srvs i k s1 s at, e, there), has_names)
      ];
  ends = λ k l lk ll.
      let (x, names, there, has_names) = named.servers k lk in
      ground (
        arith,
        get_elem?-set sg.srvs i k s1 s at,
        nat_beq_iff k i,
        at,
        same,
        there,
        has_names,
        named.ends k l lk ll,
      );
}
