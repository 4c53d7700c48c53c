-- ===== src/Shardkv/Leave.antt =====
-- One leave.
use mit.Base.{
  ℕ, ◌+◌, ◌%◌, ◌^◌, ◌<◌, String, true, false, none, List, [], ◌∷◌, if◌then◌else◌, is_some, ◌==◌,
  nat_eq, string_eq, length, contains, Distinct, All, ◌≡◌, refl, sym, ap, ◌∙◌, ◌≢◌, ◌⊎◌, map, inl,
  inr, arith, Bool-cases, subst, nat_beq_iff,
}
use mit.Base.Int.{pos, int_eq, beq_ℤ_iff}
use mit.Base.Maps.{Map, keys, lookup, has, has-contains}
use mit.Base.Exec.{returns}
use mit.ShardCfg
use mit.ShardCfg.{
  Tgid, ShardConfig, nshards, join_balance, leave_balance, is_member, is_member_of, check_config,
  shares_server,
}
use mit.ShardCfg.Rebalance.{rebalance-IsRebalanced}
use mit.ShardCfg.Check.{balanced_passes}
use mit.ShardCfg.Membership.Leave.{can_leave, leave-HasLeft}
use mit.Shardkv.Loads.{is_member-none}
use mit.Shardkv.Steps.{IsFit, contains-tgids, copy-IsCopy, entries, has-groups}

-- `gid` has left the list.
abbrev pub without : ℕ → List ℕ → List ℕ
without gid [] = []
without gid (g ∷ gs) = if g == gid then without gid gs else g ∷ without gid gs

pub lookup-without :
    (gid : ℕ) (gids : List ℕ) (g : Tgid)
    → lookup g (entries (without gid gids))
      ≡ (if g == pos gid then none else lookup g (entries gids))
unfolding lookup
lookup-without gid [] g = ground arith
lookup-without gid (k ∷ gids) g = elim (Bool-cases (k == gid)) [
  | inl e ↦ ground (
    arith,
    e,
    lookup-without gid gids g,
    nat_beq_iff k gid,
    beq_ℤ_iff g (pos k),
    beq_ℤ_iff g (pos gid),
  )
  | inr e ↦ ground (
    arith,
    e,
    lookup-without gid gids g,
    nat_beq_iff k gid,
    beq_ℤ_iff g (pos k),
    beq_ℤ_iff g (pos gid),
  )
]

pub All-zero : (gs : List Tgid) → All (λ g. contains g (pos 0 ∷ []) ≡ true) (map (λ _. pos 0) gs)
unfolding contains
All-zero [] = tt
All-zero (g ∷ gs) = (refl, All-zero gs)

pub leave-step :
    (c : ShardConfig) (gids : List ℕ) (gid : ℕ)
    → IsFit c gids
    → contains gid gids ≡ true
    → 0 < gid
    → (c' : ShardConfig) × (leave_balance (pos gid ∷ []) (ShardCfg.copy c) ≡ returns (c', true))
      × IsFit c' (without gid gids)
      × (c'.num ≡ (c.num + 1) % 2 ^ 64)
      × (is_member (pos gid) c' ≡ false)
unfolding leave_balance is_member contains can_leave
leave-step c gids gid fit m positive =
    let c0 = ShardCfg.copy c in
    let k = copy-IsCopy c gids fit in
    let there : has (pos gid) c0.groups ≡ true =
      has-contains (pos gid) c0.groups
      ∙ has-groups c0.groups gids (pos gid) k.groups
      ∙ contains-tgids gid gids
      ∙ m in
    let (c1, ran1, l) = leave-HasLeft (pos gid ∷ []) c0 (λ e. cc e) (ground (arith, there)) in
    let (c2, ran2, r) =
      rebalance-IsRebalanced c1 (ap length l.same_shards ∙ k.size) (l.distinct k.distinct) in
    let groups2 : (g : Tgid) → lookup g c2.groups ≡ lookup g (entries (without gid gids)) = λ g.
      ap (lookup g) r.same_groups
      ∙ (l.groups_after g ∙ ground (arith, k.groups g, lookup-without gid gids g)) in
    let gone : contains (pos gid) (keys c2.groups) ≡ false =
      sym (has-contains (pos gid) c2.groups)
      ∙ ap is_some (groups2 (pos gid) ∙ lookup-without gid gids (pos gid))
      ∙ ground (arith, beq_ℤ_iff (pos gid) (pos gid)) in
    let nobody : is_member_of (pos gid) c2.shards ≡ false = elim (groups-cases c1) [
      | inl none_ ↦ rw (r.unassigned none_) (
          is_member-none (pos gid) (map (λ _. pos 0) c1.shards) (pos 0 ∷ []) (All-zero c1.shards)
            (ground (arith, beq_ℤ_iff (pos gid) (pos 0))))
      | inr some_ ↦
          is_member-none (pos gid) c2.shards (keys c2.groups) (rw r.same_groups (r.assigned some_))
            gone
    ] in
    (
      c2,
      rw ran1 (rw ran2 refl),
      record {
        size = r.same_length ∙ ap length l.same_shards ∙ k.size;
        distinct = subst (λ x. Distinct (keys x)) (sym r.same_groups) (l.distinct k.distinct);
        groups = groups2;
        passes = balanced_passes c1 c2 (ap length l.same_shards ∙ k.size) r;
      },
      r.same_num ∙ l.next_num ∙ ap (λ (n : ℕ). (n + 1) % 2 ^ 64) k.same_num,
      nobody,
    )
  where
    go : (m : Map Tgid (List String)) → (m ≡ []) ⊎ (m ≢ [])
    go [] = inl refl
    go (e ∷ m) = inr (λ p. cc p)

    groups-cases : (c1 : ShardConfig) → (c1.groups ≡ []) ⊎ (c1.groups ≢ [])
    groups-cases c1 = go c1.groups
