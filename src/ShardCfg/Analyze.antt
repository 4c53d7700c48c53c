-- ===== src/ShardCfg/Analyze.antt =====
-- analyze: what its four results are.
use mit.Base.{
  ℕ, ◌≤◌, ◌<◌, ◌≡◌, refl, sym, ◌∙◌, ◌⊎◌, inl, inr, true, List, [], ◌∷◌, arith, subst, ◌==◌, ◌||◌,
  Bool-cases, length, contains, count, ltb, string_eq, fun_ext,
}
use mit.Base.Int.{pos, int_eq, beq_ℤ_iff}
use mit.Base.Maps.{keys}
use mit.ShardCfg.{
  Tgid, ShardConfig, Extremes, no_extremes, see_least, see_most, scan, analyze, sort_insert,
  sort_gids, tally, counts_at,
}
use mit.ShardCfg.Counts.{counts_at-tally, count-le-length}

-- `m'` and `mg'` are the greatest count so far and its group, started at `m` and `mg`.
record Most (f : Tgid → ℕ) (gs : List Tgid) (m : ℕ) (e e' : Extremes) : Type 0 where
  top : ℕ
  is_top : e'.mn ≡ pos top
  grows : m ≤ top
  above : (g : Tgid) → contains g gs ≡ true → f g ≤ top
  from : (e'.mg ≡ e.mg) × (top ≡ m) ⊎ (contains e'.mg gs ≡ true) × (top ≡ f e'.mg)

record Least (f : Tgid → ℕ) (gs : List Tgid) (n : ℕ) (e e' : Extremes) : Type 0 where
  low : ℕ
  is_low : e'.ln ≡ pos low
  falls : low ≤ n
  below : (g : Tgid) → contains g gs ≡ true → low ≤ f g
  from : (e'.lg ≡ e.lg) × (low ≡ n) ⊎ (contains e'.lg gs ≡ true) × (low ≡ f e'.lg)

module _ (f : Tgid → ℕ) where
  scan-Most : (gs : List Tgid) (m : ℕ) (e : Extremes) → e.mn ≡ pos m → Most f gs m e (scan f gs e)
  unfolding scan contains
  scan-Most [] m e h = record {
    top = m;
    is_top = h;
    grows = omega arith;
    above = λ g k. cc;
    from = inl (refl, refl);
  }
  scan-Most (x ∷ gs) m e h = elim (Bool-cases (ltb m (f x))) [
    | inl up ↦
        let r = scan-Most gs (f x) (see_most x (f x) (see_least x (f x) e)) (ground arith) in
        record {
          top = r.top;
          is_top = r.is_top;
          grows = ground (arith, r.grows);
          above = λ g k. ground (arith, r.above g, r.grows, beq_ℤ_iff g x);
          from =
              ground (
                arith,
                r.from,
                beq_ℤ_iff (scan f gs (see_most x (f x) (see_least x (f x) e))).mg x,
              );
        }
    | inr same ↦
        let r = scan-Most gs m (see_most x (f x) (see_least x (f x) e)) (ground arith) in
        record {
          top = r.top;
          is_top = r.is_top;
          grows = r.grows;
          above = λ g k. ground (arith, r.above g, r.grows, beq_ℤ_iff g x);
          from =
              ground (
                arith,
                r.from,
                beq_ℤ_iff (scan f gs (see_most x (f x) (see_least x (f x) e))).mg x,
              );
        }
  ]

  scan-Least : (gs : List Tgid) (n : ℕ) (e : Extremes) → e.ln ≡ pos n → Least f gs n e (scan f gs e)
  unfolding scan contains
  scan-Least [] n e h = record {
    low = n;
    is_low = h;
    falls = omega arith;
    below = λ g k. cc;
    from = inl (refl, refl);
  }
  scan-Least (x ∷ gs) n e h = elim (Bool-cases (ltb (f x) n)) [
    | inl down ↦
        let r = scan-Least gs (f x) (see_most x (f x) (see_least x (f x) e)) (ground arith) in
        record {
          low = r.low;
          is_low = r.is_low;
          falls = ground (arith, r.falls);
          below = λ g k. ground (arith, r.below g, r.falls, beq_ℤ_iff g x);
          from =
              ground (
                arith,
                r.from,
                beq_ℤ_iff (scan f gs (see_most x (f x) (see_least x (f x) e))).lg x,
              );
        }
    | inr same ↦
        let r = scan-Least gs n (see_most x (f x) (see_least x (f x) e)) (ground arith) in
        record {
          low = r.low;
          is_low = r.is_low;
          falls = r.falls;
          below = λ g k. ground (arith, r.below g, r.falls, beq_ℤ_iff g x);
          from =
              ground (
                arith,
                r.from,
                beq_ℤ_iff (scan f gs (see_most x (f x) (see_least x (f x) e))).lg x,
              );
        }
  ]

contains-sort_insert :
    (g x : Tgid) (gs : List Tgid) → contains g (sort_insert x gs) ≡ (g == x || contains g gs)
unfolding sort_insert contains
contains-sort_insert g x [] = refl
contains-sort_insert g x (y ∷ gs) = ground (arith, contains-sort_insert g x gs)

pub contains-sort_gids : (g : Tgid) (gs : List Tgid) → contains g (sort_gids gs) ≡ contains g gs
unfolding sort_gids contains
contains-sort_gids g [] = refl
contains-sort_gids g (x ∷ gs) =
    ground (arith, contains-sort_insert g x (sort_gids gs), contains-sort_gids g gs)

-- The groups with the most and the fewest of the shards `gs`, and how many.
pub record IsAnalysis (ks gs : List Tgid) (e : Extremes) : Type 0 where
  pub most_mem : contains e.mg ks ≡ true
  pub most : e.mn ≡ pos (count e.mg gs)
  pub above : (g : Tgid) → contains g ks ≡ true → count g gs ≤ count e.mg gs
  pub least_mem : contains e.lg ks ≡ true
  pub least : e.ln ≡ pos (count e.lg gs)
  pub below : (g : Tgid) → contains g ks ≡ true → count e.lg gs ≤ count g gs

scan-IsAnalysis :
    (gs : List Tgid) (k : Tgid) (ks : List Tgid)
    → length gs < 257
    → IsAnalysis (k ∷ ks) gs (scan (λ g. count g gs) (k ∷ ks) no_extremes)
unfolding scan contains
scan-IsAnalysis gs k ks h =
    let f : Tgid → ℕ = λ g. count g gs in
    let first : Extremes = see_most k (f k) (see_least k (f k) no_extremes) in
    let start : Extremes = record { mg = k; mn = pos (f k); lg = k; ln = pos (f k) } in
    let opened : first ≡ start = ground (arith, count-le-length k gs) in
    let e : Extremes = scan f ks start in
    let up : Most f ks (f k) start e = scan-Most f ks (f k) start refl in
    let down : Least f ks (f k) start e = scan-Least f ks (f k) start refl in
    let goal : IsAnalysis (k ∷ ks) gs e = record {
      most_mem = ground (arith, up.from, beq_ℤ_iff e.mg k);
      most = ground (arith, up.from, up.is_top);
      above = λ g m. ground (arith, up.from, up.grows, up.above g, beq_ℤ_iff g k);
      least_mem = ground (arith, down.from, beq_ℤ_iff e.lg k);
      least = ground (arith, down.from, down.is_low);
      below = λ g m. ground (arith, down.from, down.falls, down.below g, beq_ℤ_iff g k);
    } in
    subst (λ s. IsAnalysis (k ∷ ks) gs (scan f ks s)) (sym opened) goal

scan_sorted-IsAnalysis :
    (gs ks : List Tgid) (g : Tgid)
    → contains g ks ≡ true
    → length gs < 257
    → IsAnalysis ks gs (scan (λ g. count g gs) ks no_extremes)
unfolding contains
scan_sorted-IsAnalysis gs [] g m h = cc
scan_sorted-IsAnalysis gs (k ∷ ks) g m h = scan-IsAnalysis gs k ks h

-- analyze finds them whenever there is a group, below 257 shards.
pub analyze-IsAnalysis :
    (c : ShardConfig) (g : Tgid)
    → contains g (keys c.groups) ≡ true
    → length c.shards < 257
    → IsAnalysis (keys c.groups) c.shards (analyze c)
unfolding analyze
analyze-IsAnalysis c g m h =
    let ks = keys c.groups in
    let r : IsAnalysis (sort_gids ks) c.shards
        (scan (λ x. count x c.shards) (sort_gids ks) no_extremes) =
      scan_sorted-IsAnalysis c.shards (sort_gids ks) g (contains-sort_gids g ks ∙ m) h in
    let same : counts_at (tally c.shards []) ≡ (λ x. count x c.shards) =
      fun_ext (λ x. counts_at-tally c.shards x) in
    subst (λ f. IsAnalysis ks c.shards (scan f (sort_gids ks) no_extremes)) (sym same)
      (record {
        most_mem = sym (contains-sort_gids _ ks) ∙ r.most_mem;
        most = r.most;
        above = λ x mx. r.above x (contains-sort_gids x ks ∙ mx);
        least_mem = sym (contains-sort_gids _ ks) ∙ r.least_mem;
        least = r.least;
        below = λ x mx. r.below x (contains-sort_gids x ks ∙ mx);
      })
