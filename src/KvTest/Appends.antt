-- ===== src/KvTest/Appends.antt =====
-- CheckAppends: what it accepts of the entries that the clients have appended.
use mit.Base.{
  get_elem?-below, ℕ, zero, suc, ◌+◌, ◌≤◌, ◌<◌, true, Option, some, List, [], ◌∷◌, or_else, ◌==◌,
  nat_eq, nat_beq_iff, length, get_elem?, contains, Distinct, ◌≡◌, refl, sym, ◌∙◌, ◌≢◌, ◌↔◌, inl,
  inr, arith, Bool-cases, Option-cases, ap, subst,
}
use mit.Base.Maps.{Map, keys, lookup, has-contains}
use mit.Base.Exec.{returns, >>=-eq-returns}
use mit.KvTest.Entries.{
  ns_of, IsRising, end_of, some_of, see_entries-HasSeen, start_seen-at, see_entries-has,
  Distinct-see_entries, see_entries_returns, start_seen-has, Distinct-start_seen,
}
use mit.KvTest.{ClntRes}
use mit.KvTest.Appending.{EntryN, Seen, at, see_entries, start_seen, check_clients, check_appends}

-- The check of one client at the end.
abbrev IsCovered : List ClntRes → ℕ → ℕ → ℕ → Type 0
IsCovered rs skips c n =
    (r : ClntRes) × (get_elem? rs c ≡ some r) × (skips ≤ r.nmaybe) × (n ≤ r.nok + r.nmaybe)

check_clients-each :
    (expect skipped : Map ℕ ℕ) (rs : List ClntRes) (c n : ℕ)
    → check_clients expect skipped rs ≡ returns tt
    → lookup c expect ≡ some n
    → IsCovered rs (at skipped c) c n
unfolding check_clients lookup
check_clients-each [] skipped rs c n h there = cc there
check_clients-each ((d, m) ∷ expect) skipped rs c n h there = elim (Option-cases (get_elem? rs d)) [
  | inl e ↦ absurd (ground arith)
  | inr (r, e) ↦ elim (Bool-cases (c == d)) [
    | inl same ↦
        let eq : c ≡ d = (nat_beq_iff c d).0 same in (r, cc (eq, e), ground arith, ground arith)
    | inr other ↦ check_clients-each expect skipped rs c n (ground arith) (ground arith)
  ]
]

check_clients_returns :
    (expect skipped : Map ℕ ℕ) (rs : List ClntRes)
    → Distinct (keys expect)
    → ((c n : ℕ) → lookup c expect ≡ some n → IsCovered rs (at skipped c) c n)
    → check_clients expect skipped rs ≡ returns tt
unfolding check_clients lookup contains
check_clients_returns [] skipped rs d each = refl
check_clients_returns ((c, n) ∷ expect) skipped rs d each =
    let (r, at_c, few, bound) = each c n (ground (arith, nat_beq_iff c c)) in
    let ih =
      check_clients_returns expect skipped rs d.1
        (λ k m there. each k m (ground (arith, d.0, has-contains k expect, nat_beq_iff k c))) in
    ground (arith, at_c, ih)

-- What CheckAppends wants of the entries, the clients' results and the version.
pub record IsAppended (es : List EntryN) (rs : List ClntRes) (ver : ℕ) : Type 0 where
  pub one_put_each : length es + 1 ≡ ver
  pub rising : (c : ℕ) → IsRising 0 (ns_of c es)
  pub known : (c : ℕ) → ns_of c es ≢ [] → c < length rs
  pub bounds :
      (c : ℕ) (r : ClntRes)
      → get_elem? rs c ≡ some r
      → (end_of 0 (ns_of c es) ≤ r.nok + r.nmaybe)
        × (end_of 0 (ns_of c es) ≤ length (ns_of c es) + r.nmaybe)

get_elem?-lt : {A : Type 0} (xs : List A) (i : ℕ) (x : A) → get_elem? xs i ≡ some x → i < length xs
get_elem?-lt [] i x h = cc h
get_elem?-lt (y ∷ xs) zero x h = omega arith
get_elem?-lt (y ∷ xs) (suc i) x h = omega (arith, get_elem?-lt xs i x h)

end_of-le : (lo : ℕ) (ns : List ℕ) → IsRising lo ns → lo ≤ end_of lo ns
end_of-le lo [] h = omega arith
end_of-le lo (n ∷ ns) h = omega (arith, h.0, end_of-le (suc n) ns h.1)

end_of_pos : (ns : List ℕ) → IsRising 0 ns → ns ≢ [] → 0 < end_of 0 ns
end_of_pos [] h ne = absurd (ne refl)
end_of_pos (n ∷ ns) h ne = omega (arith, end_of-le (suc n) ns h.1)

some_of-eq : (ns : List ℕ) → some_of ns ≡ true → ns ≢ []
some_of-eq [] h e = cc h
some_of-eq (n ∷ ns) h e = cc e

abbrev empty_seen : Seen
empty_seen = record { expect = []; skipped = [] }

module _ (es : List EntryN) (nclnt : ℕ) (rs : List ClntRes) (seen' : Seen) where
  abbrev start : Seen
  start = start_seen 0 nclnt empty_seen

  start-at : (c : ℕ) → (at start.expect c ≡ 0) × (at start.skipped c ≡ 0)
  unfolding lookup
  start-at c = start_seen-at 0 nclnt c empty_seen refl refl

  IsRising-from_0 : see_entries es start ≡ returns seen' → (c : ℕ) → IsRising 0 (ns_of c es)
  IsRising-from_0 first c =
      subst (λ lo. IsRising lo (ns_of c es)) (start-at c).0
        ((see_entries-HasSeen es start seen' first).rising c)

  ends_from_0 :
      see_entries es start ≡ returns seen' → (c : ℕ) → at seen'.expect c ≡ end_of 0 (ns_of c es)
  ends_from_0 first c =
      (see_entries-HasSeen es start seen' first).ends c
      ∙ ap (λ lo. end_of lo (ns_of c es)) (start-at c).0

  gaps_from_0 :
      see_entries es start ≡ returns seen'
      → (c : ℕ) → at seen'.expect c ≡ length (ns_of c es) + at seen'.skipped c
  gaps_from_0 first c = omega (arith, (see_entries-HasSeen es start seen' first).gaps c, start-at c)

  IsAppended-of :
      (ver : ℕ)
      → see_entries es start ≡ returns seen'
      → length es + 1 ≡ ver
      → check_clients seen'.expect seen'.skipped rs ≡ returns tt
      → IsAppended es rs ver
  IsAppended-of ver first len clients = record {
    one_put_each = len;
    rising = IsRising-from_0 first;
    known = λ c ne. elim (Option-cases (lookup c seen'.expect)) [
      | inl e ↦ absurd (
          omega (
            arith,
            end_of_pos (ns_of c es) (IsRising-from_0 first c) ne,
            ends_from_0 first c,
            ap (λ (o : Option ℕ). or_else o 0) e,
          ))
      | inr (n, e) ↦
          let (r, at_c, few, bound) =
            check_clients-each seen'.expect seen'.skipped rs c n clients e in
          get_elem?-lt rs c r at_c
    ];
    bounds = λ c r at_c. elim (Option-cases (lookup c seen'.expect)) [
      | inl e ↦
          let none_seen : end_of 0 (ns_of c es) ≡ 0 =
            sym (ends_from_0 first c) ∙ ap (λ (o : Option ℕ). or_else o 0) e in
          (omega (arith, none_seen), omega (arith, none_seen))
      | inr (n, e) ↦
          let (r1, at_c1, few, bound) =
            check_clients-each seen'.expect seen'.skipped rs c n clients e in
          let eq : n ≡ end_of 0 (ns_of c es) =
            sym (ap (λ (o : Option ℕ). or_else o 0) e) ∙ ends_from_0 first c in
          let same : r1 ≡ r = cc (at_c, at_c1) in
          let maybe : r1.nmaybe ≡ r.nmaybe = cc same in
          let ok : r1.nok ≡ r.nok = cc same in
          (
            omega (arith, bound, eq, maybe, ok),
            omega (arith, few, eq, maybe, gaps_from_0 first c, ends_from_0 first c),
          )
    ];
  }

  check_clients-of :
      (ver : ℕ)
      → nclnt ≤ length rs
      → see_entries es start ≡ returns seen'
      → IsAppended es rs ver
      → check_clients seen'.expect seen'.skipped rs ≡ returns tt
  unfolding lookup
  check_clients-of ver many first h =
      check_clients_returns seen'.expect seen'.skipped rs
        (Distinct-see_entries es start seen' first (Distinct-start_seen 0 nclnt empty_seen tt))
        (λ c n there.
          let known : c < length rs = elim (Bool-cases (some_of (ns_of c es))) [
            | inl some_n ↦ h.known c (some_of-eq (ns_of c es) some_n)
            | inr none_n ↦
                let old = see_entries-has es start seen' c first (ground arith) none_n in
                elim (start_seen-has 0 nclnt c empty_seen old) [
                  | inl lt ↦ omega arith
                  | inr bad ↦ absurd (cc bad)
                ]
          ] in
          let (r, at_c) = get_elem?-below rs c known in
          let eq : n ≡ end_of 0 (ns_of c es) =
            sym (ap (λ (o : Option ℕ). or_else o 0) there) ∙ ends_from_0 first c in
          (
            r,
            at_c,
            omega (arith, eq, h.bounds c r at_c, gaps_from_0 first c, ends_from_0 first c),
            omega (arith, eq, h.bounds c r at_c),
          ))

-- CheckAppends passes exactly if the value holds one entry for each version past the first, each
-- client's numbers increase, and each client that appears has a result with as many puts (OK and
-- maybe) as its numbers reach and as many maybes as it left numbers out. There is a result for
-- each client.
pub check_appends_iff :
    (es : List EntryN) (nclnt : ℕ) (rs : List ClntRes) (ver : ℕ)
    → nclnt ≤ length rs
    → (check_appends es nclnt rs ver ≡ returns tt) ↔ IsAppended es rs ver
unfolding check_appends
check_appends_iff es nclnt rs ver many = (
  λ h.
      let (seen', first, rest) =
        >>=-eq-returns (see_entries es (start_seen 0 nclnt empty_seen)) _ h in
      IsAppended-of es nclnt rs seen' ver first (ground (arith, nat_beq_iff (length es + 1) ver))
        (ground arith),
  λ h.
      let (seen', first) = see_entries_returns es (start_seen 0 nclnt empty_seen) (λ c.
        subst (λ lo. IsRising lo (ns_of c es)) (sym (start-at es nclnt rs empty_seen c).0)
          (h.rising c)) in
      let clients = check_clients-of es nclnt rs seen' ver many first h in
      ground (arith, first, clients, h.one_put_each, nat_beq_iff (length es + 1) ver),
)
