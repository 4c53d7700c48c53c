-- ===== src/Shardkv/Crowded.antt =====
-- A join where each group has at most one shard.
use mit.Base.{
  ℕ, ◌+◌, ◌%◌, ◌^◌, ◌≤◌, String, true, false, List, [], ◌∷◌, nat_eq, string_eq, length, contains,
  count, All, ◌≡◌, refl, sym, ap, ◌∙◌, ◌≢◌, arith, subst,
}
use mit.Base.Int.{pos, int_eq, beq_ℤ_iff}
use mit.Base.Maps.{Map, keys, lookup}
use mit.Base.Exec.{returns}
use mit.ShardCfg
use mit.ShardCfg.{
  Tgid, ShardConfig, nshards, join_balance, leave_balance, is_member, is_member_of, check_config,
  shares_server,
}
use mit.ShardCfg.Rebalance.{rebalance-IsRebalanced, rebalance_settled}
use mit.ShardCfg.Check.{balanced_passes}
use mit.ShardCfg.Membership.Join.{join-HasJoined}
use mit.Shardkv.Loads.{is_member-none}
use mit.Shardkv.Steps.{srv_names, IsFit, contains-tgids, copy-IsCopy, entries, has-groups, tgids}
use mit.Shardkv.Join.{All-wider, can-join}

-- Where every group has at most one shard, a group that joins gets none.
pub join_crowded :
    (c : ShardConfig) (gids : List ℕ) (gid : ℕ)
    → IsFit c gids
    → contains gid gids ≡ false
    → All (λ g. contains g (tgids gids) ≡ true) c.shards
    → ((g : Tgid) → count g c.shards ≤ 1)
    → (c' : ShardConfig) × (join_balance ((pos gid, srv_names gid) ∷ []) (ShardCfg.copy c)
        ≡ returns (c', true))
      × IsFit c' (gid ∷ gids)
      × (c'.num ≡ (c.num + 1) % 2 ^ 64)
      × (is_member (pos gid) c' ≡ false)
unfolding join_balance is_member contains lookup
join_crowded c gids gid fit new assigned few =
    let c0 = ShardCfg.copy c in
    let k = copy-IsCopy c gids fit in
    let servers : Map Tgid (List String) = (pos gid, srv_names gid) ∷ [] in
    let (c1, ran1, j) = join-HasJoined servers c0 (can-join c gids gid fit new) in
    let groups1 : (g : Tgid) → lookup g c1.groups ≡ lookup g (entries (gid ∷ gids)) =
      λ g. j.groups_after g ∙ ground (arith, k.groups g) in
    let same : (g : Tgid) → contains g (keys c1.groups) ≡ contains g (tgids (gid ∷ gids)) =
      λ g. has-groups c1.groups (gid ∷ gids) g groups1 in
    let member : contains (pos gid) (tgids (gid ∷ gids)) ≡ true =
      ground (arith, beq_ℤ_iff (pos gid) (pos gid)) in
    let shards1 : c1.shards ≡ c.shards = j.same_shards ∙ k.same_shards in
    let some_group : c1.groups ≢ [] =
      λ e. absurd (cc (ap (contains (pos gid)) (ap keys e), same (pos gid), member)) in
    let settled =
      rebalance_settled c1 (ap length shards1 ∙ fit.size) some_group
        (rw shards1 (All-wider c1 gids gid same c.shards assigned))
        (rw shards1 (λ g h mg mh. omega (arith, few g))) in
    (
      c1,
      rw ran1 (rw settled refl),
      record {
        size = ap length shards1 ∙ fit.size;
        distinct = j.distinct k.distinct;
        groups = groups1;
        passes =
            let (c2, ran2, r) =
              rebalance-IsRebalanced c1 (ap length shards1 ∙ fit.size) (j.distinct k.distinct) in
            let is : c2 ≡ c1 = returns-inj c2 c1 (sym ran2 ∙ settled) in
            subst (λ x. check_config x (keys x.groups) ≡ returns tt) is
              (balanced_passes c1 c2 (ap length shards1 ∙ fit.size) r);
      },
      j.next_num ∙ ap (λ (n : ℕ). (n + 1) % 2 ^ 64) k.same_num,
      rw shards1
          (is_member-none (pos gid) c.shards (tgids gids) assigned (contains-tgids gid gids ∙ new)),
    )
  where
    returns-inj : (a b : ShardConfig) → returns a ≡ returns b → a ≡ b
    returns-inj a b e = cc e
