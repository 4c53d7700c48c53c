-- ===== src/KvTest/Entries.antt =====
-- The loops of CheckAppends over the clients and over the entries.
use mit.Base.{
  ℕ, zero, suc, ◌+◌, ◌-◌, ◌≤◌, ◌<◌, Bool, true, false, List, [], ◌∷◌, if◌then◌else◌, ◌==◌, nat_eq,
  nat_beq_iff, length, Distinct, ◌≡◌, refl, sym, ◌⊎◌, inl, inr, arith, Bool-cases, subst,
}
use mit.Base.Maps.{Map, keys, has, insert, lookup-insert, Distinct-insert}
use mit.Base.Exec.{returns, >>=-eq-returns}
use mit.KvTest.Appending.{EntryN, Seen, at, see_entry, see_entries, start_seen}

-- A client's numbers, in the order of the entries.
unfoldable pub ns_of : ℕ → List EntryN → List ℕ
ns_of c [] = []
ns_of c (e ∷ es) = if c == e.id then e.n ∷ ns_of c es else ns_of c es

-- Strictly increasing numbers, from `lo` on.
abbrev pub IsRising : ℕ → List ℕ → Type 0
IsRising lo [] = Unit
IsRising lo (n ∷ ns) = (lo ≤ n) × IsRising (suc n) ns

-- One more than the last number, or `lo` without any.
abbrev pub end_of : ℕ → List ℕ → ℕ
end_of lo [] = lo
end_of lo (n ∷ ns) = end_of (suc n) ns

pub record HasSeen (es : List EntryN) (seen seen' : Seen) : Type 0 where
  pub rising : (c : ℕ) → IsRising (at seen.expect c) (ns_of c es)
  pub ends : (c : ℕ) → at seen'.expect c ≡ end_of (at seen.expect c) (ns_of c es)
  pub gaps :
      (c : ℕ)
      → at seen'.expect c + at seen.skipped c
        ≡ at seen.expect c + length (ns_of c es) + at seen'.skipped c

see_entry-at :
    (e : EntryN) (seen seen1 : Seen) (c : ℕ)
    → see_entry e seen ≡ returns seen1
    → (at seen.expect e.id ≤ e.n)
      × (at seen1.expect c ≡ (if c == e.id then suc e.n else at seen.expect c))
      × (at seen1.skipped c
          ≡ (if c == e.id then at seen.skipped c + (e.n - at seen.expect c) else at seen.skipped c))
see_entry-at e seen seen1 c h =
    let want = at seen.expect e.id in
    ground (
      arith,
      nat_beq_iff c e.id,
      nat_beq_iff want e.n,
      lookup-insert e.id c (want + 1) seen.expect,
      lookup-insert e.id c (e.n + 1) seen.expect,
      lookup-insert e.id c (at seen.skipped e.id + (e.n - want)) seen.skipped,
    )

pub see_entries-HasSeen :
    (es : List EntryN) (seen seen' : Seen)
    → see_entries es seen ≡ returns seen'
    → HasSeen es seen seen'
unfolding see_entries ns_of
see_entries-HasSeen [] seen seen' h =
    let same : seen ≡ seen' = cc h in
    record {
      rising = λ c. tt;
      ends = λ c. cc same;
      gaps = λ c.
          let e : at seen'.expect c ≡ at seen.expect c = cc same in
          let s : at seen'.skipped c ≡ at seen.skipped c = cc same in omega (arith, e, s);
    }
see_entries-HasSeen (e ∷ es) seen seen' h =
    let (seen1, first, rest) = >>=-eq-returns (see_entry e seen) (see_entries es) h in
    let ih = see_entries-HasSeen es seen1 seen' rest in
    record {
      rising = λ c. elim (Bool-cases (c == e.id)) [
        | inr other ↦
            let same : at seen1.expect c ≡ at seen.expect c =
              ground (arith, see_entry-at e seen seen1 c first) in
            rw other (subst (λ lo. IsRising lo (ns_of c es)) same (ih.rising c))
        | inl mine ↦
            let next : at seen1.expect c ≡ suc e.n =
              ground (arith, see_entry-at e seen seen1 c first) in
            let low : at seen.expect c ≤ e.n =
              ground (arith, see_entry-at e seen seen1 c first, nat_beq_iff c e.id) in
            rw mine (low, subst (λ lo. IsRising lo (ns_of c es)) next (ih.rising c))
      ];
      ends = λ c. ground (arith, ih.ends c, see_entry-at e seen seen1 c first);
      gaps = λ c. ground (arith, ih.gaps c, see_entry-at e seen seen1 c first, nat_beq_iff c e.id);
    }

pub start_seen-at :
    (i nclnt c : ℕ) (seen : Seen)
    → at seen.expect c ≡ 0
    → at seen.skipped c ≡ 0
    → (at (start_seen i nclnt seen).expect c ≡ 0) × (at (start_seen i nclnt seen).skipped c ≡ 0)
unfolding start_seen
start_seen-at i zero c seen e s = (e, s)
start_seen-at i (suc nclnt) c seen e s =
    start_seen-at (suc i) nclnt c _ (ground (arith, lookup-insert i c 0 seen.expect))
      (ground (arith, lookup-insert i c 0 seen.skipped))

abbrev pub some_of : List ℕ → Bool
some_of [] = false
some_of (n ∷ ns) = true

pub see_entries-has :
    (es : List EntryN) (seen seen' : Seen) (c : ℕ)
    → see_entries es seen ≡ returns seen'
    → has c seen'.expect ≡ true
    → some_of (ns_of c es) ≡ false
    → has c seen.expect ≡ true
unfolding see_entries ns_of
see_entries-has [] seen seen' c h there none_of = let same : seen ≡ seen' = cc h in cc (same, there)
see_entries-has (e ∷ es) seen seen' c h there none_of =
    let (seen1, first, rest) = >>=-eq-returns (see_entry e seen) (see_entries es) h in
    let want = at seen.expect e.id in
    let ih = see_entries-has es seen1 seen' c rest there (ground arith) in
    ground (
      arith,
      ih,
      nat_beq_iff c e.id,
      nat_beq_iff want e.n,
      lookup-insert e.id c (want + 1) seen.expect,
      lookup-insert e.id c (e.n + 1) seen.expect,
    )

pub Distinct-see_entries :
    (es : List EntryN) (seen seen' : Seen)
    → see_entries es seen ≡ returns seen'
    → Distinct (keys seen.expect)
    → Distinct (keys seen'.expect)
unfolding see_entries
Distinct-see_entries [] seen seen' h d =
    let same : seen ≡ seen' = cc h in subst (λ (s : Seen). Distinct (keys s.expect)) same d
Distinct-see_entries (e ∷ es) seen seen' h d =
    let (seen1, first, rest) = >>=-eq-returns (see_entry e seen) (see_entries es) h in
    let want = at seen.expect e.id in
    Distinct-see_entries es seen1 seen' rest (elim (Bool-cases (want == e.n)) [
      | inl mine ↦
          let eq : insert e.id (want + 1) seen.expect ≡ seen1.expect = ground arith in
          subst (λ (m : Map ℕ ℕ). Distinct (keys m)) eq
            (Distinct-insert e.id (want + 1) seen.expect d)
      | inr skips ↦
          let eq : insert e.id (e.n + 1) seen.expect ≡ seen1.expect = ground arith in
          subst (λ (m : Map ℕ ℕ). Distinct (keys m)) eq
            (Distinct-insert e.id (e.n + 1) seen.expect d)
    ])

pub see_entries_returns :
    (es : List EntryN) (seen : Seen)
    → ((c : ℕ) → IsRising (at seen.expect c) (ns_of c es))
    → (seen' : Seen) × (see_entries es seen ≡ returns seen')
unfolding see_entries ns_of
see_entries_returns [] seen rising = (seen, refl)
see_entries_returns (e ∷ es) seen rising =
    let want = at seen.expect e.id in
    let low : want ≤ e.n = (rw ((nat_beq_iff e.id e.id).1 refl) at (rising e.id)).0 in
    let (seen1, first) = see_entry_returns low in
    let (seen', ran) = see_entries_returns es seen1 (λ c. elim (Bool-cases (c == e.id)) [
      | inr other ↦
          let same : at seen1.expect c ≡ at seen.expect c =
            ground (arith, see_entry-at e seen seen1 c first) in
          subst (λ lo. IsRising lo (ns_of c es)) (sym same) (rw other at (rising c))
      | inl mine ↦
          let next : at seen1.expect c ≡ suc e.n =
            ground (arith, see_entry-at e seen seen1 c first) in
          subst (λ lo. IsRising lo (ns_of c es)) (sym next) (rw mine at (rising c)).1
    ]) in
    (seen', ground (arith, first, ran))
  where
    see_entry_returns :
        at seen.expect e.id ≤ e.n → (seen1 : Seen) × (see_entry e seen ≡ returns seen1)
    see_entry_returns low = elim (Bool-cases (at seen.expect e.id == e.n)) [
      | inl mine ↦
          (record seen { expect = insert e.id (at seen.expect e.id + 1) seen.expect }, ground arith)
      | inr skips ↦ (
        record {
          expect = insert e.id (e.n + 1) seen.expect;
          skipped = insert e.id (at seen.skipped e.id + (e.n - at seen.expect e.id)) seen.skipped;
        },
        ground arith,
      )
    ]

pub start_seen-has :
    (i nclnt c : ℕ) (seen : Seen)
    → has c (start_seen i nclnt seen).expect ≡ true
    → c < i + nclnt ⊎ (has c seen.expect ≡ true)
unfolding start_seen
start_seen-has i zero c seen h = inr h
start_seen-has i (suc nclnt) c seen h = elim (start_seen-has (suc i) nclnt c _ h) [
  | inl lt ↦ inl (omega arith)
  | inr before ↦ ground (arith, lookup-insert i c 0 seen.expect, nat_beq_iff c i)
]

pub Distinct-start_seen :
    (i nclnt : ℕ) (seen : Seen)
    → Distinct (keys seen.expect)
    → Distinct (keys (start_seen i nclnt seen).expect)
unfolding start_seen
Distinct-start_seen i zero seen d = d
Distinct-start_seen i (suc nclnt) seen d =
    Distinct-start_seen (suc i) nclnt _ (Distinct-insert i 0 seen.expect d)
