-- ===== src/Groups/Ends.antt =====
-- What connect and disconnect do to every end between two servers.
use mit.Base.{
  ℕ, ◌<◌, String, Bool, false, ◌&&◌, some, List, if◌then◌else◌, or_else, ◌==◌, nat_eq, string_eq,
  nat_beq_iff, length, get_elem?, All, ◌≡◌, refl, ◌∙◌, inl, inr, arith, Bool-cases, ap,
}
use mit.Base.Maps.{lookup, lookup-insert}
use mit.Base.Exec.{returns}
use mit.Labrpc.{enable}
use mit.Groups.{Server, ServerGrp, end_name, enable_end}

-- Whether the server is connected, and whether an end is enabled.
abbrev pub is_up : ServerGrp → ℕ → Bool
is_up sg i = or_else (get_elem? sg.connected i) false

abbrev pub is_enabled : String → ServerGrp → Bool
is_enabled endname sg = or_else (lookup endname sg.net.enabled) false

-- A group of `n` servers, whose end from `i` to `j` is named `name i j`.
pub record IsNamed (n : ℕ) (name : ℕ → ℕ → String) (sg : ServerGrp) : Type 0 where
  pub size : length sg.connected ≡ n
  pub servers :
      (i : ℕ)
      → i < n
      → (s : Server) × (names : List String) × (get_elem? sg.srvs i ≡ some s)
        × (s.end_names ≡ some names)
  pub ends : (i j : ℕ) → i < n → j < n → end_name sg i j ≡ returns (name i j)

-- What the steps below keep of a group.
pub record Keeps (sg sg' : ServerGrp) : Type 0 where
  pub same_srvs : sg'.srvs ≡ sg.srvs
  pub same_size : length sg'.connected ≡ length sg.connected
  pub same_gid : sg'.gid ≡ sg.gid
  pub same_servernames : sg'.servernames ≡ sg.servernames
  pub same_ends : sg'.net.ends ≡ sg.net.ends
  pub same_connections : sg'.net.connections ≡ sg.net.connections

pub Keeps-trans : (a b c : ServerGrp) → Keeps a b → Keeps b c → Keeps a c
Keeps-trans a b c k l = record {
  same_srvs = l.same_srvs ∙ k.same_srvs;
  same_size = l.same_size ∙ k.same_size;
  same_gid = l.same_gid ∙ k.same_gid;
  same_servernames = l.same_servernames ∙ k.same_servernames;
  same_ends = l.same_ends ∙ k.same_ends;
  same_connections = l.same_connections ∙ k.same_connections;
}

abbrev pub Keeps-refl : (sg : ServerGrp) → Keeps sg sg
Keeps-refl sg = record {
  same_srvs = refl;
  same_size = refl;
  same_gid = refl;
  same_servernames = refl;
  same_ends = refl;
  same_connections = refl;
}

pub Keeps-enable_end : (x : String) (b : Bool) (sg : ServerGrp) → Keeps sg (enable_end x b sg)
unfolding enable
Keeps-enable_end x b sg = record {
  same_srvs = refl;
  same_size = refl;
  same_gid = refl;
  same_servernames = refl;
  same_ends = refl;
  same_connections = refl;
}

end_name-Keeps :
    (sg sg' : ServerGrp) (i j : ℕ) → sg'.srvs ≡ sg.srvs → end_name sg' i j ≡ end_name sg i j
unfolding end_name
end_name-Keeps sg sg' i j h = ground (arith, h)

module _ (n : ℕ) (name : ℕ → ℕ → String) where
  pub IsNamed-Keeps : (sg sg' : ServerGrp) → Keeps sg sg' → IsNamed n name sg → IsNamed n name sg'
  IsNamed-Keeps sg sg' k h = record {
    size = k.same_size ∙ h.size;
    servers = λ i lt.
        let (s, names, at, is) = h.servers i lt in
        (s, names, ap (λ l. get_elem? l i) k.same_srvs ∙ at, is);
    ends = λ i j lt_i lt_j. end_name-Keeps sg sg' i j k.same_srvs ∙ h.ends i j lt_i lt_j;
  }

  -- Different ends have different names.
  abbrev pub AreApart : Type 0
  AreApart = (i j k l : ℕ) → i < n → j < n → k < n → l < n → name i j ≡ name k l → (i ≡ k) × (j ≡ l)

  abbrev pub AreServers : List ℕ → Type 0
  AreServers = All (λ i. i < n)

  -- The effect of a step on the ends, as a change of a table.
  pub record Turns (sg sg' : ServerGrp) (hit : ℕ → ℕ → Bool) (b : Bool) : Type 0 where
    pub keeps : Keeps sg sg'
    pub same_connected : sg'.connected ≡ sg.connected
    pub ends :
        (k l : ℕ)
        → k < n
        → l < n
        → is_enabled (name k l) sg' ≡ (if hit k l then b else is_enabled (name k l) sg)

  module _ (apart : AreApart) where
    pub is_enabled-enable :
        (i j k l : ℕ) (b : Bool) (sg : ServerGrp)
        → i < n
        → j < n
        → k < n
        → l < n
        → is_enabled (name k l) (enable_end (name i j) b sg)
          ≡ (if k == i && l == j then b else is_enabled (name k l) sg)
    unfolding enable
    is_enabled-enable i j k l b sg li lj lk ll = elim (Bool-cases (name k l == name i j)) [
      | inl same ↦
          let (e1, e2) =
            apart k l i j lk ll li lj ((string_eq.beq_iff (name k l) (name i j)).0 same) in
          ground (
            arith,
            lookup-insert (name i j) (name k l) b sg.net.enabled,
            same,
            nat_beq_iff k i,
            nat_beq_iff l j,
            e1,
            e2,
          )
      | inr differs ↦
          let ne : (k == i && l == j) ≡ false = elim (Bool-cases (k == i && l == j)) [
            | inr apart_ends ↦ apart_ends
            | inl both ↦
                let e1 : k ≡ i = ground (arith, nat_beq_iff k i) in
                let e2 : l ≡ j = ground (arith, nat_beq_iff l j) in
                let eq : name k l ≡ name i j = ap (λ x. name x l) e1 ∙ ap (name i) e2 in
                absurd (ground (arith, string_eq.beq_iff (name k l) (name i j), eq))
          ] in
          ground (arith, lookup-insert (name i j) (name k l) b sg.net.enabled, differs, ne)
    ]
