-- ===== src/RaftTest/Agreement.antt =====
-- The appliers and the agreement of the committed logs.
use mit.Base.{
  ℕ, zero, suc, true, false, not, ◌&&◌, Option, none, some, List, [], ◌∷◌, if◌then◌else◌, is_some,
  Eq, get_elem?, set, get_elem?-set, nat_beq, nat_beq_iff, ◌≡◌, sym, ◌∙◌, ◌≢◌, ◌⊎◌, inl, inr, arith,
  Bool-cases, Option-cases, ap, subst, beq-eq, ne_of_beq-false,
}
use mit.Base.Int.{ℤ, pos, ltb_ℤ, int_eq, beq_ℤ}
use mit.Base.Maps.{lookup, lookup-insert}
use mit.Base.Exec.{returns, fatal, >>=-eq-returns}
use mit.RaftTest.{
  ApplyMsg, Rfsrv, Test, ApplyError, scan_logs, see_log, log_entry, pred_ℤ, applier, applies,
}

module _ {V : Type 0} ⦃e : Eq V⦄ where
  -- Two entries at one index are the same command.
  pub record LogsAgree (ts : Test V) : Type 0 where
    pub same :
        (a b : ℕ) (ra rb : Rfsrv V) (index : ℤ) (va vb : V)
        → get_elem? ts.srvs a ≡ some ra
        → get_elem? ts.srvs b ≡ some rb
        → lookup index ra.logs ≡ some va
        → lookup index rb.logs ≡ some vb
        → va ≡ vb

  scan_logs-some :
      (srvs : List (Rfsrv V)) (j : ℕ) (index : ℤ) (v : V) (err : Option (ApplyError V))
      → err ≢ none
      → scan_logs srvs j index v err ≢ none
  unfolding scan_logs
  scan_logs-some [] j index v err h = h
  scan_logs-some (rs ∷ rest) j index v err h =
      scan_logs-some rest (suc j) index v (see_log rs j index v err) (ground arith)

  see_log-none :
      (rs : Rfsrv V) (j : ℕ) (index : ℤ) (v va : V)
      → see_log rs j index v none ≡ none
      → lookup index rs.logs ≡ some va
      → va ≡ v
  see_log-none rs j index v va h there = ground (arith, e.beq_iff va v)

  -- No error: every entry at the index is the new command.
  pub scan_logs-none :
      (srvs : List (Rfsrv V)) (j : ℕ) (index : ℤ) (v : V)
      → scan_logs srvs j index v none ≡ none
      → (a : ℕ) (ra : Rfsrv V) (va : V) → get_elem? srvs a ≡ some ra
      → lookup index ra.logs ≡ some va
      → va ≡ v
  unfolding scan_logs
  scan_logs-none [] j index v h a ra va at there = cc at
  scan_logs-none (rs ∷ rest) j index v h zero ra va at there =
      elim (Option-cases (see_log rs j index v none)) [
        | inr (x, e') ↦
            absurd
              (scan_logs-some rest (suc j) index v (see_log rs j index v none) (λ p. cc (p, e')) h)
        | inl e' ↦
            let same : rs ≡ ra = cc at in
            see_log-none rs j index v va e' (ap (λ (r : Rfsrv V). lookup index r.logs) same ∙ there)
      ]
  scan_logs-none (rs ∷ rest) j index v h (suc a) ra va at there =
      elim (Option-cases (see_log rs j index v none)) [
        | inr (x, e') ↦
            absurd
              (scan_logs-some rest (suc j) index v (see_log rs j index v none) (λ p. cc (p, e')) h)
        | inl e' ↦
            scan_logs-none rest (suc j) index v
              (subst (λ o. scan_logs rest (suc j) index v o ≡ none) e' h) a ra va at there
      ]

  -- What a message that is accepted does: it writes the entry of one server, and no server had
  -- another command there.
  pub record Accepted (i : ℕ) (m : ApplyMsg V) (ts ts' : Test V) : Type 0 where
    pub me : Rfsrv V
    pub is_me : get_elem? ts.srvs i ≡ some me
    pub written : ts'.srvs ≡ set ts.srvs i (log_entry m.command_index m.command me)
    pub clean : scan_logs ts.srvs 0 m.command_index m.command none ≡ none
    pub before :
        (ltb_ℤ (pos 1) m.command_index && not (is_some (lookup (pred_ℤ m.command_index) me.logs)))
        ≡ false

  pub applier-Accepted :
      (i : ℕ) (m : ApplyMsg V) (ts ts' : Test V)
      → applier i m ts ≡ returns ts'
      → (ts' ≡ ts) ⊎ Accepted i m ts ts'
  unfolding applier
  applier-Accepted i m ts ts' h = elim (Bool-cases m.command_valid) [
    | inr off ↦ inl (ground arith)
    | inl on ↦ elim (Option-cases (get_elem? ts.srvs i)) [
      | inl e ↦ absurd (ground arith)
      | inr (me, is_me) ↦ inr (record {
        me = me;
        is_me = is_me;
        written = ground arith;
        clean = ground arith;
        before = ground arith;
      })
    ]
  ]

  -- An entry after an accepted message is the new command at its index, or was there before.
  Accepted-entry :
      (i : ℕ) (m : ApplyMsg V) (ts ts' : Test V) (a : ℕ) (ra : Rfsrv V) (index : ℤ) (va : V)
      → Accepted i m ts ts'
      → get_elem? ts'.srvs a ≡ some ra
      → lookup index ra.logs ≡ some va
      → (index ≡ m.command_index) × (va ≡ m.command)
        ⊎ ((index ≢ m.command_index)
            × (old : Rfsrv V) × (get_elem? ts.srvs a ≡ some old)
            × (lookup index old.logs ≡ some va))
  Accepted-entry i m ts ts' a ra index va acc at there =
      let me1 : Rfsrv V = log_entry m.command_index m.command acc.me in
      let placed : get_elem? ts'.srvs a ≡ (if nat_beq a i then some me1 else get_elem? ts.srvs a) =
        ap (λ l. get_elem? l a) acc.written ∙ get_elem?-set ts.srvs i a me1 acc.me acc.is_me in
      let wrote = lookup-insert m.command_index index m.command acc.me.logs in
      elim (Bool-cases (beq_ℤ index m.command_index)) [
        | inl same ↦ inl (
          beq-eq index m.command_index same,
          elim (Bool-cases (nat_beq a i)) [
            | inl mine ↦ ground arith
            | inr other ↦
                scan_logs-none ts.srvs 0 m.command_index m.command acc.clean a ra va (ground arith)
                  (subst (λ x. lookup x ra.logs ≡ some va) (beq-eq index m.command_index same)
                    there)
          ],
        )
        | inr differs ↦ elim (Bool-cases (nat_beq a i)) [
          | inl mine ↦ inr (
            ne_of_beq-false index m.command_index differs,
            acc.me,
            ground (arith, acc.is_me, nat_beq_iff a i),
            ground arith,
          )
          | inr other ↦ inr (ne_of_beq-false index m.command_index differs, ra, ground arith, there)
        ]
      ]

  Accepted-LogsAgree :
      (i : ℕ) (m : ApplyMsg V) (ts ts' : Test V)
      → Accepted i m ts ts'
      → LogsAgree ts
      → LogsAgree ts'
  Accepted-LogsAgree i m ts ts' acc agree = record {
    same = λ a b ra rb index va vb at_a at_b there_a there_b.
        elim (Accepted-entry i m ts ts' a ra index va acc at_a there_a) [
          | inl (ea, is_a) ↦ elim (Accepted-entry i m ts ts' b rb index vb acc at_b there_b) [
            | inl (eb, is_b) ↦ is_a ∙ sym is_b
            | inr (nb, _, _, _) ↦ absurd (nb ea)
          ]
          | inr (na, oa, old_a, was_a) ↦
              elim (Accepted-entry i m ts ts' b rb index vb acc at_b there_b) [
                | inl (eb, is_b) ↦ absurd (na eb)
                | inr (nb, ob, old_b, was_b) ↦
                    agree.same a b oa ob index va vb old_a old_b was_a was_b
              ]
        ];
  }

  applier-LogsAgree :
      (i : ℕ) (m : ApplyMsg V) (ts ts' : Test V)
      → applier i m ts ≡ returns ts'
      → LogsAgree ts
      → LogsAgree ts'
  applier-LogsAgree i m ts ts' h agree = elim (applier-Accepted i m ts ts' h) [
    | inl same ↦ subst LogsAgree (sym same) agree
    | inr acc ↦ Accepted-LogsAgree i m ts ts' acc agree
  ]

  -- Whatever the peers apply, in whatever order: as long as no applier stops the test, copies that
  -- agreed before agree after it on every entry that two servers have.
  pub applies-LogsAgree :
      (ms : List (ℕ × ApplyMsg V)) (ts ts' : Test V)
      → applies ms ts ≡ returns ts'
      → LogsAgree ts
      → LogsAgree ts'
  unfolding applies
  applies-LogsAgree [] ts ts' h agree = let same : ts ≡ ts' = cc h in subst LogsAgree same agree
  applies-LogsAgree ((i, m) ∷ ms) ts ts' h agree =
      let (ts1, first, rest) = >>=-eq-returns (applier i m ts) (applies ms) h in
      applies-LogsAgree ms ts1 ts' rest (applier-LogsAgree i m ts ts1 first agree)

  -- A command that differs from the entry of some server at its index stops the test, whichever
  -- server applies it.
  pub applier_conflict :
      (i a : ℕ) (m : ApplyMsg V) (ts : Test V) (me ra : Rfsrv V) (old : V)
      → m.command_valid ≡ true
      → get_elem? ts.srvs i ≡ some me
      → get_elem? ts.srvs a ≡ some ra
      → lookup m.command_index ra.logs ≡ some old
      → old ≢ m.command
      → applier i m ts ≡ fatal
  unfolding applier
  applier_conflict i a m ts me ra old valid is_me at there ne =
      elim (Option-cases (scan_logs ts.srvs 0 m.command_index m.command none)) [
        | inl clean ↦
            absurd (ne (scan_logs-none ts.srvs 0 m.command_index m.command clean a ra old at there))
        | inr (err, found) ↦ ground (arith, found)
      ]
