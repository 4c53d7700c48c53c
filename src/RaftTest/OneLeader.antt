-- ===== src/RaftTest/OneLeader.antt =====
-- checkOneLeader.
use mit.Base.{
  snoc-append, append_nil, ℕ, suc, ◌≤◌, ◌&&◌, Option, none, some, List, [], ◌∷◌, ◌++◌,
  if◌then◌else◌, or_else, ◌==◌, ◌≡◌, refl, sym, ◌∙◌, ◌≢◌, inl, inr, arith, Bool-cases, Option-cases,
  ap, subst, length,
}
use mit.Base.Int.{ℤ, negsuc, int_eq, beq_ℤ_iff, ltb_ℤ, ◌≤ℤ◌}
use mit.Base.Maps.{Map, lookup, insert, lookup-insert}
use mathlib.Core.List.{Memᴰ}
use mit.Base.Exec.{returns, panics, >>=-eq-returns}
use mit.RaftTest.{Peer, collect_leaders, last_term, check_one_leader_once, check_one_leader}

-- The connected leaders of a term, by index.
pub leaders_of : ℤ → List Peer → ℕ → List ℕ
leaders_of t [] i = []
leaders_of t (p ∷ ps) i =
    if p.connected && p.leader && p.term == t
    then i ∷ leaders_of t ps (suc i)
    else leaders_of t ps (suc i)

collect_leaders-lookup :
    (t : ℤ) (peers : List Peer) (i : ℕ) (acc : Map ℤ (List ℕ))
    → or_else (lookup t (collect_leaders peers i acc)) []
      ≡ or_else (lookup t acc) [] ++ leaders_of t peers i
unfolding collect_leaders leaders_of
collect_leaders-lookup t [] i acc = sym (append_nil _)
collect_leaders-lookup t (p ∷ ps) i acc = elim (Bool-cases (p.connected && p.leader)) [
  | inr off ↦ ground (arith, collect_leaders-lookup t ps (suc i) acc)
  | inl on ↦
      let acc1 = insert p.term (or_else (lookup p.term acc) [] ++ i ∷ []) acc in
      ground (
        arith,
        collect_leaders-lookup t ps (suc i) acc1,
        lookup-insert p.term t (or_else (lookup p.term acc) [] ++ i ∷ []) acc,
        beq_ℤ_iff t p.term,
        beq_ℤ_iff p.term t,
        snoc-append (or_else (lookup p.term acc) []) i (leaders_of t ps (suc i)),
      )
]

-- The loop over the terms: no term has two leaders, and the result is the last term.
last_term-bounds :
    (m : Map ℤ (List ℕ)) (start r t : ℤ) (ids : List ℕ)
    → last_term m start ≡ returns r
    → (start ≤ℤ r) × (lookup t m ≡ some ids → (length ids ≤ 1) × (t ≤ℤ r))
unfolding last_term lookup
last_term-bounds [] start r t ids h = (ground arith, λ p. cc p)
last_term-bounds ((k, ks) ∷ m) start r t ids h =
    let ih = last_term-bounds m (if ltb_ℤ start k then k else start) r t ids (ground arith) in
    (ground (arith, ih.0), λ p. ground (arith, ih.0, ih.1, beq_ℤ_iff t k))

pub record IsOneLeader (peers : List Peer) (i : ℕ) : Type 0 where
  pub term : ℤ
  pub alone : leaders_of term peers 0 ≡ i ∷ []
  pub last : (t : ℤ) → leaders_of t peers 0 ≢ [] → t ≤ℤ term
  pub at_most_one : (t : ℤ) → length (leaders_of t peers 0) ≤ 1

module _ (peers : List Peer) where
  abbrev found : Map ℤ (List ℕ)
  found = collect_leaders peers 0 []

  found-lookup : (t : ℤ) → or_else (lookup t found) [] ≡ leaders_of t peers 0
  unfolding lookup
  found-lookup t = collect_leaders-lookup t peers 0 []

  IsOneLeader-of :
      (r : ℤ) (i : ℕ) (more : List ℕ)
      → last_term found (negsuc 0) ≡ returns r
      → or_else (lookup r found) [] ≡ i ∷ more
      → IsOneLeader peers i
  IsOneLeader-of r i more ran first =
      let few : (t : ℤ) → length (leaders_of t peers 0) ≤ 1 = λ t.
        elim (Option-cases (lookup t found)) [
          | inl e ↦ ground (arith, found-lookup t)
          | inr (ids, e) ↦
              ground (arith, found-lookup t, (last_term-bounds found (negsuc 0) r t ids ran).1 e)
        ] in
      let single : length (i ∷ more) ≤ 1 =
        subst (λ l. length l ≤ 1) (sym (found-lookup r) ∙ first) (few r) in
      record {
        term = r;
        alone = sym (found-lookup r) ∙ (first ∙ short i more single);
        last = λ t some_leader. elim (Option-cases (lookup t found)) [
          | inl e ↦ absurd (some_leader (sym (found-lookup t) ∙ ap (λ o. or_else o []) e))
          | inr (ids, e) ↦ ((last_term-bounds found (negsuc 0) r t ids ran).1 e).1
        ];
        at_most_one = few;
      }
    where
      short : (i : ℕ) (more : List ℕ) → length (i ∷ more) ≤ 1 → ◌≡◌ {A = List ℕ} (i ∷ more) (i ∷ [])
      short i [] h = refl
      short i (j ∷ more) h = absurd (omega arith)

  once-IsOneLeader : (i : ℕ) → check_one_leader_once peers ≡ returns (some i) → IsOneLeader peers i
  unfolding check_one_leader_once
  once-IsOneLeader i h =
      let (r, ran, rest) = >>=-eq-returns (last_term found (negsuc 0)) _ h in
      go r ran (or_else (lookup r found) []) refl (ground arith)
    where
      go :
          (r : ℤ)
          → last_term found (negsuc 0) ≡ returns r
          → (ids : List ℕ) → or_else (lookup r found) [] ≡ ids
          → (elim ids [ [] ↦ panics | j ∷ _ ↦ returns (some j) ]) ≡ returns (some i)
          → IsOneLeader peers i
      go r ran [] e h = cc h
      go r ran (j ∷ more) e h =
          subst (IsOneLeader peers) (ground arith) (IsOneLeader-of r j more ran e)

-- The peer that checkOneLeader returns was, at one of the looks, the only leader of the last term
-- in which a connected peer led, and no term had two.
pub check_one_leader-IsOneLeader :
    (looks : List (List Peer)) (i : ℕ)
    → check_one_leader looks ≡ returns i
    → (peers : List Peer) × Memᴰ peers looks × IsOneLeader peers i
unfolding check_one_leader
check_one_leader-IsOneLeader [] i h = cc h
check_one_leader-IsOneLeader (peers ∷ later) i h =
    let (found_now, ran, rest) = >>=-eq-returns (check_one_leader_once peers) _ h in
    go (check_one_leader-IsOneLeader later i) found_now ran rest
  where
    go :
        (check_one_leader later ≡ returns i → (ps : List Peer) × Memᴰ ps later × IsOneLeader ps i)
        → (o : Option ℕ) → check_one_leader_once peers ≡ returns o
        → (elim o [ none ↦ check_one_leader later | some j ↦ returns j ]) ≡ returns i
        → (ps : List Peer) × Memᴰ ps (peers ∷ later) × IsOneLeader ps i
    go next (some j) ran e = (
      peers,
      Memᴰ.head refl,
      subst (IsOneLeader peers) (ground arith) (once-IsOneLeader peers j ran),
    )
    go next none ran e = let (ps, m, one) = next e in (ps, Memᴰ.tail m, one)
