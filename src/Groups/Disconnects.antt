-- ===== src/Groups/Disconnects.antt =====
-- The loops of disconnect.
use mit.Base.{
  ℕ, ◌<◌, String, false, ◌&&◌, List, [], ◌∷◌, ◌==◌, nat_eq, string_eq, nat_beq_iff, contains, ◌≡◌,
  refl, arith,
}
use mit.Base.Exec.{returns}
use mit.Groups.{ServerGrp, enable_end, disconnect_out, disconnect_in}
use mit.Groups.Ends.{
  IsNamed, Keeps, Keeps-refl, Keeps-enable_end, Keeps-trans, IsNamed-Keeps, AreApart, AreServers,
  Turns, is_enabled-enable,
}

module _ (n : ℕ) (name : ℕ → ℕ → String) (apart : AreApart n name) where
  pub disconnect_out-Turns :
      (i : ℕ) (from : List ℕ) (sg : ServerGrp)
      → IsNamed n name sg
      → i < n
      → AreServers n name from
      → (sg' : ServerGrp) × (disconnect_out i from sg ≡ returns sg')
        × Turns n name sg sg' (λ k l. k == i && contains l from) false
  unfolding disconnect_out contains
  disconnect_out-Turns i [] sg h li lfrom = (
    sg,
    refl,
    record { keeps = Keeps-refl sg; same_connected = refl; ends = λ k l lk ll. ground arith },
  )
  disconnect_out-Turns i (j ∷ from) sg h li lfrom =
      let named = h.ends i j li lfrom.0 in
      let sg1 = enable_end (name i j) false sg in
      let k1 : Keeps sg sg1 = Keeps-enable_end (name i j) false sg in
      let (sg', ran, t) =
        disconnect_out-Turns i from sg1 (IsNamed-Keeps n name sg sg1 k1 h) li lfrom.1 in
      (
        sg',
        ground (arith, named, ran),
        record {
          keeps = Keeps-trans sg sg1 sg' k1 t.keeps;
          same_connected = t.same_connected;
          ends = λ k l lk ll. ground (
            arith,
            t.ends k l lk ll,
            is_enabled-enable n name apart i j k l false sg li lfrom.0 lk ll,
            nat_beq_iff l j,
          );
        },
      )

  pub disconnect_in-Turns :
      (i : ℕ) (from : List ℕ) (sg : ServerGrp)
      → IsNamed n name sg
      → i < n
      → AreServers n name from
      → (sg' : ServerGrp) × (disconnect_in i from sg ≡ returns sg')
        × Turns n name sg sg' (λ k l. l == i && contains k from) false
  unfolding disconnect_in contains
  disconnect_in-Turns i [] sg h li lfrom = (
    sg,
    refl,
    record { keeps = Keeps-refl sg; same_connected = refl; ends = λ k l lk ll. ground arith },
  )
  disconnect_in-Turns i (j ∷ from) sg h li lfrom =
      let named = h.ends j i lfrom.0 li in
      let (s, names, at, is) = h.servers j lfrom.0 in
      let sg1 = enable_end (name j i) false sg in
      let k1 : Keeps sg sg1 = Keeps-enable_end (name j i) false sg in
      let (sg', ran, t) =
        disconnect_in-Turns i from sg1 (IsNamed-Keeps n name sg sg1 k1 h) li lfrom.1 in
      (
        sg',
        ground (arith, named, at, is, ran),
        record {
          keeps = Keeps-trans sg sg1 sg' k1 t.keeps;
          same_connected = t.same_connected;
          ends = λ k l lk ll. ground (
            arith,
            t.ends k l lk ll,
            is_enabled-enable n name apart j i k l false sg lfrom.0 li lk ll,
            nat_beq_iff k j,
          );
        },
      )
