-- ===== src/RaftTest/Committed.antt =====
-- nCommitted.
use mit.Base.{
  ℕ, suc, ◌+◌, ◌<◌, false, Option, none, some, List, [], ◌∷◌, if◌then◌else◌, Eq, ◌≡◌, refl, ◌⊎◌,
  inl, inr, arith, Option-cases, ap, All,
}
use mit.Base.Int.{ℤ, int_eq}
use mit.Base.Maps.{lookup, has}
use mit.Base.Exec.{returns}
use mit.RaftTest.{Rfsrv, Test, count_committed, n_committed}

module _ {V : Type 0} ⦃e : Eq V⦄ where
  -- How many servers have an entry at the index.
  unfoldable pub holders : ℤ → List (Rfsrv V) → ℕ
  holders index [] = 0
  holders index (rs ∷ rest) =
      if has index rs.logs then suc (holders index rest) else holders index rest

  -- Whoever has an entry at the index has this command.
  abbrev pub AllAre : ℤ → V → List (Rfsrv V) → Type 0
  AllAre index c = All (λ rs. (v : V) → lookup index rs.logs ≡ some v → v ≡ c)

  count_committed-some :
      (index : ℤ) (srvs : List (Rfsrv V)) (k n : ℕ) (c : V) (r : Option V)
      → count_committed index srvs (suc k) (some c) ≡ returns (n, r)
      → (n ≡ suc k + holders index srvs) × (r ≡ some c) × AllAre index c srvs
  unfolding count_committed holders
  count_committed-some index [] k n c r h = (ground arith, ground arith, tt)
  count_committed-some index (rs ∷ rest) k n c r h = elim (Option-cases (lookup index rs.logs)) [
    | inl missing ↦
        let ih = count_committed-some index rest k n c r (ground arith) in
        (ground (arith, ih.0), ih.1, (λ v there. cc (missing, there), ih.2))
    | inr (v, there) ↦
        let same : v ≡ c = ground (arith, e.beq_iff c v) in
        let ih = count_committed-some index rest (suc k) n c r (ground arith) in
        (ground (arith, ih.0), ih.1, (λ w is_w. cc (there, is_w, same), ih.2))
  ]

  -- What a result of nCommitted says: the number of servers that have the entry, and the command
  -- that all of them have.
  pub record IsCount (index : ℤ) (srvs : List (Rfsrv V)) (n : ℕ) (r : Option V) : Type 0 where
    pub counted : n ≡ holders index srvs
    pub no_command : n ≡ 0 → r ≡ none
    pub command : 0 < n → (c : V) × (r ≡ some c) × AllAre index c srvs

  count_committed-none :
      (index : ℤ) (srvs : List (Rfsrv V)) (n : ℕ) (r : Option V)
      → count_committed index srvs 0 none ≡ returns (n, r)
      → IsCount index srvs n r
  unfolding count_committed holders
  count_committed-none index [] n r h = record {
    counted = ground arith;
    no_command = λ _. ground arith;
    command = λ p. absurd (ground arith);
  }
  count_committed-none index (rs ∷ rest) n r h = elim (Option-cases (lookup index rs.logs)) [
    | inl missing ↦
        let ih = count_committed-none index rest n r (ground arith) in
        record {
          counted = ground (arith, ih.counted);
          no_command = ih.no_command;
          command = λ p.
              let (c, is_c, all) = ih.command p in (c, is_c, (λ v there. cc (missing, there), all));
        }
    | inr (v, there) ↦
        let ih = count_committed-some index rest 0 n v r (ground arith) in
        record {
          counted = ground (arith, ih.0);
          no_command = λ z. absurd (omega (arith, ih.0));
          command = λ p. (v, ih.1, (λ w is_w. cc (there, is_w), ih.2));
        }
  ]

  -- If nCommitted returns, it has counted the servers that have the entry, and they all have the
  -- command that it returns.
  pub n_committed-IsCount :
      (index : ℤ) (ts : Test V) (n : ℕ) (r : Option V)
      → n_committed index ts ≡ returns (n, r)
      → IsCount index ts.srvs n r
  unfolding n_committed
  n_committed-IsCount index ts n r h = count_committed-none index ts.srvs n r h

  count_committed_returns :
      (index : ℤ) (srvs : List (Rfsrv V)) (k : ℕ) (cmd : Option V)
      → All (λ rs. rs.apply_err ≡ false) srvs
      → ((c : V) × AllAre index c srvs × ((cmd ≡ some c) ⊎ ((cmd ≡ none) × (k ≡ 0))))
      → (n : ℕ) × (r : Option V) × (count_committed index srvs k cmd ≡ returns (n, r))
  unfolding count_committed
  count_committed_returns index [] k cmd fine h = (k, cmd, refl)
  count_committed_returns index (rs ∷ rest) k cmd fine (c, all, start) =
      elim (Option-cases (lookup index rs.logs)) [
        | inl missing ↦
            let (n, r, ran) = count_committed_returns index rest k cmd fine.1 (c, all.1, start) in
            (n, r, ground (arith, fine.0))
        | inr (v, there) ↦
            let same : v ≡ c = all.0 v there in
            let (n, r, ran) =
              count_committed_returns index rest (k + 1) (some v) fine.1
                (c, all.1, inl (ap some same)) in
            (n, r, ground (arith, fine.0, e.beq_iff c v))
      ]

  -- Where no applier has failed and all copies of the entry are one command, nCommitted returns.
  pub n_committed_returns :
      (index : ℤ) (ts : Test V) (c : V)
      → All (λ rs. rs.apply_err ≡ false) ts.srvs
      → AllAre index c ts.srvs
      → (n : ℕ) × (r : Option V) × (n_committed index ts ≡ returns (n, r))
        × IsCount index ts.srvs n r
  unfolding n_committed
  n_committed_returns index ts c fine all =
      let (n, r, ran) =
        count_committed_returns index ts.srvs 0 none fine (c, all, inr (refl, refl)) in
      (n, r, ran, count_committed-none index ts.srvs n r ran)
