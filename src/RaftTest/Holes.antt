-- ===== src/RaftTest/Holes.antt =====
-- The appliers and holes in the committed logs.
use mit.Base.{
  ℕ, true, some, List, [], ◌∷◌, if◌then◌else◌, Eq, get_elem?, get_elem?-set, nat_beq, ◌≡◌, sym, ◌∙◌,
  inl, inr, arith, Bool-cases, ap, subst,
}
use mit.Base.Int.{ℤ, pos, ltb_ℤ, int_eq, beq_ℤ, beq_ℤ_iff}
use mit.Base.Maps.{has, lookup-insert}
use mit.Base.Exec.{returns, >>=-eq-returns}
use mit.RaftTest.{ApplyMsg, Rfsrv, Test, log_entry, pred_ℤ, applier, applies}
use mit.RaftTest.Agreement.{Accepted, applier-Accepted}

module _ {V : Type 0} ⦃e : Eq V⦄ where
  -- Below every entry past the first stands the one before it.
  pub record NoHoles (ts : Test V) : Type 0 where
    pub dense :
        (a : ℕ) (ra : Rfsrv V) (index : ℤ)
        → get_elem? ts.srvs a ≡ some ra
        → ltb_ℤ (pos 1) index ≡ true
        → has index ra.logs ≡ true
        → has (pred_ℤ index) ra.logs ≡ true

  has-insert :
      (index i : ℤ) (v : V) (rs : Rfsrv V)
      → has i rs.logs ≡ true
      → has i (log_entry index v rs).logs ≡ true
  has-insert index i v rs h = ground (arith, lookup-insert index i v rs.logs)

  Accepted-NoHoles :
      (i : ℕ) (m : ApplyMsg V) (ts ts' : Test V) → Accepted i m ts ts' → NoHoles ts → NoHoles ts'
  Accepted-NoHoles i m ts ts' acc whole = record {
    dense = λ a ra index at past there.
        let me1 : Rfsrv V = log_entry m.command_index m.command acc.me in
        let placed : get_elem? ts'.srvs a
            ≡ (if nat_beq a i then some me1 else get_elem? ts.srvs a) =
          ap (λ l. get_elem? l a) acc.written ∙ get_elem?-set ts.srvs i a me1 acc.me acc.is_me in
        elim (Bool-cases (nat_beq a i)) [
          | inr other ↦ whole.dense a ra index (ground arith) past there
          | inl mine ↦
              let is_me1 : ra ≡ me1 = ground arith in
              let there1 : has index me1.logs ≡ true =
                ap (λ (r : Rfsrv V). has index r.logs) (sym is_me1) ∙ there in
              ap (λ (r : Rfsrv V). has (pred_ℤ index) r.logs) is_me1
              ∙ has-insert m.command_index (pred_ℤ index) m.command acc.me
                  (elim (Bool-cases (beq_ℤ index m.command_index)) [
                    | inl same ↦
                        let eq : index ≡ m.command_index =
                          (beq_ℤ_iff index m.command_index).0 same in
                        rw eq
                          (ground (arith, acc.before, ap (λ x. ltb_ℤ (pos 1) x) (sym eq) ∙ past))
                    | inr differs ↦
                        whole.dense i acc.me index acc.is_me past (
                          ground (arith, lookup-insert m.command_index index m.command acc.me.logs))
                  ])
        ];
  }

  -- However the peers apply, copies without holes stay without holes as long as no applier stops the
  -- test: below every entry past the first there is the one before it.
  pub applies-NoHoles :
      (ms : List (ℕ × ApplyMsg V)) (ts ts' : Test V)
      → applies ms ts ≡ returns ts'
      → NoHoles ts
      → NoHoles ts'
  unfolding applies
  applies-NoHoles [] ts ts' h dense = let same : ts ≡ ts' = cc h in subst NoHoles same dense
  applies-NoHoles ((i, m) ∷ ms) ts ts' h dense =
      let (ts1, first, rest) = >>=-eq-returns (applier i m ts) (applies ms) h in
      applies-NoHoles ms ts1 ts' rest (elim (applier-Accepted i m ts ts1 first) [
        | inl same ↦ subst NoHoles (sym same) dense
        | inr acc ↦ Accepted-NoHoles i m ts ts1 acc dense
      ])
