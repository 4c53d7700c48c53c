-- ===== src/Groups/Connects.antt =====
-- The loops of connect.
use mit.Base.{
  get_elem?-below, ℕ, ◌<◌, String, true, ◌&&◌, List, [], ◌∷◌, ◌==◌, nat_eq, string_eq, nat_beq_iff,
  contains, ◌≡◌, refl, inl, inr, arith, Bool-cases,
}
use mit.Base.Exec.{returns}
use mit.Groups.{ServerGrp, is_connected, enable_end, connect_out, connect_in}
use mit.Groups.Ends.{
  is_up, IsNamed, Keeps, Keeps-refl, Keeps-enable_end, Keeps-trans, IsNamed-Keeps, AreApart,
  AreServers, Turns, is_enabled-enable,
}

module _ (n : ℕ) (name : ℕ → ℕ → String) (apart : AreApart n name) where
  pub connect_out-Turns :
      (i : ℕ) (to : List ℕ) (sg : ServerGrp)
      → IsNamed n name sg
      → i < n
      → AreServers n name to
      → (sg' : ServerGrp) × (connect_out i to sg ≡ returns sg')
        × Turns n name sg sg' (λ k l. k == i && contains l to && is_up sg l) true
  unfolding connect_out is_connected contains
  connect_out-Turns i [] sg h li lto = (
    sg,
    refl,
    record { keeps = Keeps-refl sg; same_connected = refl; ends = λ k l lk ll. ground arith },
  )
  connect_out-Turns i (j ∷ to) sg h li lto =
      let (up, is) = get_elem?-below sg.connected j (omega (arith, lto.0, h.size)) in
      let named = h.ends i j li lto.0 in
      elim (Bool-cases up) [
        | inr down ↦
            let (sg', ran, t) = connect_out-Turns i to sg h li lto.1 in
            (
              sg',
              ground (arith, is, down, ran),
              record {
                keeps = t.keeps;
                same_connected = t.same_connected;
                ends = λ k l lk ll. ground (arith, t.ends k l lk ll, is, down, nat_beq_iff l j);
              },
            )
        | inl is_on ↦
            let sg1 = enable_end (name i j) true sg in
            let k1 : Keeps sg sg1 = Keeps-enable_end (name i j) true sg in
            let (sg', ran, t) =
              connect_out-Turns i to sg1 (IsNamed-Keeps n name sg sg1 k1 h) li lto.1 in
            (
              sg',
              ground (arith, is, is_on, named, ran),
              record {
                keeps = Keeps-trans sg sg1 sg' k1 t.keeps;
                same_connected = t.same_connected;
                ends = λ k l lk ll. ground (
                  arith,
                  t.ends k l lk ll,
                  is_enabled-enable n name apart i j k l true sg li lto.0 lk ll,
                  is,
                  is_on,
                  nat_beq_iff l j,
                );
              },
            )
      ]

  pub connect_in-Turns :
      (i : ℕ) (to : List ℕ) (sg : ServerGrp)
      → IsNamed n name sg
      → i < n
      → AreServers n name to
      → (sg' : ServerGrp) × (connect_in i to sg ≡ returns sg')
        × Turns n name sg sg' (λ k l. l == i && contains k to && is_up sg k) true
  unfolding connect_in is_connected contains
  connect_in-Turns i [] sg h li lto = (
    sg,
    refl,
    record { keeps = Keeps-refl sg; same_connected = refl; ends = λ k l lk ll. ground arith },
  )
  connect_in-Turns i (j ∷ to) sg h li lto =
      let (up, is) = get_elem?-below sg.connected j (omega (arith, lto.0, h.size)) in
      let named = h.ends j i lto.0 li in
      elim (Bool-cases up) [
        | inr down ↦
            let (sg', ran, t) = connect_in-Turns i to sg h li lto.1 in
            (
              sg',
              ground (arith, is, down, ran),
              record {
                keeps = t.keeps;
                same_connected = t.same_connected;
                ends = λ k l lk ll. ground (arith, t.ends k l lk ll, is, down, nat_beq_iff k j);
              },
            )
        | inl is_on ↦
            let sg1 = enable_end (name j i) true sg in
            let k1 : Keeps sg sg1 = Keeps-enable_end (name j i) true sg in
            let (sg', ran, t) =
              connect_in-Turns i to sg1 (IsNamed-Keeps n name sg sg1 k1 h) li lto.1 in
            (
              sg',
              ground (arith, is, is_on, named, ran),
              record {
                keeps = Keeps-trans sg sg1 sg' k1 t.keeps;
                same_connected = t.same_connected;
                ends = λ k l lk ll. ground (
                  arith,
                  t.ends k l lk ll,
                  is_enabled-enable n name apart j i k l true sg lto.0 li lk ll,
                  is,
                  is_on,
                  nat_beq_iff k j,
                );
              },
            )
      ]
