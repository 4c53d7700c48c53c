-- ===== src/RaftTest/Leaders.antt =====
-- The checks of leadership and of terms.
use mit.Base.{
  true, false, List, [], ◌∷◌, ◌≡◌, refl, sym, ◌≢◌, ◌↔◌, inl, inr, arith, Bool-cases, subst, All,
}
use mit.Base.Int.{ℤ, negsuc, int_eq, beq_ℤ, beq_ℤ_iff}
use mit.Base.Exec.{returns}
use mit.RaftTest.{Peer, check_terms, check_terms_from, check_no_leader}

abbrev AllAt : ℤ → List Peer → Type 0
AllAt t = All (λ (p : Peer). p.connected ≡ true → p.term ≡ t)

check_terms_from-known :
    (peers : List Peer) (t r : ℤ)
    → t ≢ negsuc 0
    → (check_terms_from peers t ≡ returns r) ↔ ((r ≡ t) × AllAt t peers)
unfolding check_terms_from
check_terms_from-known [] t r ne = (λ h. (ground arith, tt), λ h. ground (arith, h.0))
check_terms_from-known (p ∷ ps) t r ne = elim (Bool-cases p.connected) [
  | inr off ↦
      let ih = check_terms_from-known ps t r ne in
      (
        λ h.
            let h' : check_terms_from ps t ≡ returns r = ground arith in
            ((ih.0 h').0, (λ c. cc (c, off), (ih.0 h').1)),
        λ h. let ran = ih.1 (h.0, h.1.1) in ground (arith, ran),
      )
  | inl on ↦ elim (Bool-cases (beq_ℤ t p.term)) [
    | inl same ↦
        let ih = check_terms_from-known ps t r ne in
        (
          λ h.
              let h' : check_terms_from ps t ≡ returns r = ground (arith, beq_ℤ_iff t (negsuc 0)) in
              ((ih.0 h').0, (λ c. sym ((beq_ℤ_iff t p.term).0 same), (ih.0 h').1)),
          λ h. let ran = ih.1 (h.0, h.1.1) in ground (arith, ran, beq_ℤ_iff t (negsuc 0)),
        )
    | inr other ↦ (
      λ h. absurd (ground (arith, beq_ℤ_iff t (negsuc 0))),
      λ h. absurd (let eq = h.1.0 on in ground (arith, beq_ℤ_iff t p.term, eq)),
    )
  ]
]

check_terms_from-unknown :
    (peers : List Peer) (r : ℤ)
    → All (λ (p : Peer). p.term ≢ negsuc 0) peers
    → check_terms_from peers (negsuc 0) ≡ returns r
    → AllAt r peers
unfolding check_terms_from
check_terms_from-unknown [] r real h = tt
check_terms_from-unknown (p ∷ ps) r real h = elim (Bool-cases p.connected) [
  | inr off ↦ ((λ c. cc (c, off)), check_terms_from-unknown ps r real.1 (ground arith))
  | inl on ↦
      let known = (check_terms_from-known ps p.term r real.0).0 (ground arith) in
      ((λ _. sym known.0), subst (λ t. AllAt t ps) (sym known.0) known.1)
]

-- The term that checkTerms returns is that of every connected peer, since none of them is at -1.
pub check_terms-AllAt :
    (peers : List Peer) (r : ℤ)
    → All (λ (p : Peer). p.term ≢ negsuc 0) peers
    → check_terms peers ≡ returns r
    → All (λ (p : Peer). p.connected ≡ true → p.term ≡ r) peers
unfolding check_terms
check_terms-AllAt peers r real h = check_terms_from-unknown peers r real h

-- checkNoLeader passes exactly when no connected peer takes itself for the leader.
pub check_no_leader_iff :
    (peers : List Peer)
    → (check_no_leader peers ≡ returns tt)
      ↔ All (λ (p : Peer). p.connected ≡ true → p.leader ≡ false) peers
unfolding check_no_leader
check_no_leader_iff [] = (λ _. tt, λ _. refl)
check_no_leader_iff (p ∷ ps) =
    let ih = check_no_leader_iff ps in
    (
      λ h.
          let rest : check_no_leader ps ≡ returns tt = ground arith in
          ((λ c. ground arith), ih.0 rest),
      λ h.
          let rest = ih.1 h.1 in
          let off = h.0 in
          elim (Bool-cases p.connected) [
            | inl on ↦ let quiet = off on in ground arith
            | inr gone ↦ ground arith
          ],
    )
