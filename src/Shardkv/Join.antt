-- ===== src/Shardkv/Join.antt =====
-- One join.
use mit.Base.{
  ℕ, ◌+◌, ◌%◌, ◌^◌, ◌≤◌, ◌<◌, String, true, false, List, [], ◌∷◌, nat_eq, string_eq, length,
  contains, count, Distinct, All, ◌≡◌, refl, sym, ap, ◌∙◌, ◌≢◌, arith, subst,
}
use mit.Base.Int.{pos, int_eq, beq_ℤ_iff}
use mit.Base.Maps.{Map, keys, lookup, has, has-contains}
use mit.Base.Exec.{returns}
use mit.ShardCfg
use mit.ShardCfg.{
  Tgid, ShardConfig, nshards, join_balance, leave_balance, is_member, is_member_of, check_config,
  shares_server,
}
use mit.ShardCfg.Rebalance.{rebalance-IsRebalanced}
use mit.ShardCfg.Check.{balanced_passes}
use mit.ShardCfg.Membership.Join.{CanJoin, join-HasJoined}
use mit.Shardkv.Loads.{count_pos-balanced, is_member-count}
use mit.Shardkv.Steps.{
  srv_names, All-lookup, Distinct-tgids, IsFit, contains-tgids, copy-IsCopy, entries, entries-apart,
  has-groups, length-tgids, tgids,
}

-- The shards' groups and the loads, in terms of the numbers.
module _ (c2 : ShardConfig) (gids : List ℕ)
    (same : (g : Tgid) → contains g (keys c2.groups) ≡ contains g (tgids gids)) where
  All-tgids :
      (shards : List Tgid)
      → All (λ g. contains g (keys c2.groups) ≡ true) shards
      → All (λ g. contains g (tgids gids) ≡ true) shards
  All-tgids [] a = tt
  All-tgids (g ∷ shards) a = (sym (same g) ∙ a.0, All-tgids shards a.1)

pub All-wider :
    (c1 : ShardConfig) (gids : List ℕ) (gid : ℕ)
    → ((g : Tgid) → contains g (keys c1.groups) ≡ contains g (tgids (gid ∷ gids)))
    → (shards : List Tgid) → All (λ g. contains g (tgids gids) ≡ true) shards
    → All (λ g. contains g (keys c1.groups) ≡ true) shards
unfolding contains
All-wider c1 gids gid same [] a = tt
All-wider c1 gids gid same (g ∷ shards) a =
    (same g ∙ ground (arith, a.0), All-wider c1 gids gid same shards a.1)

pub can-join :
    (c : ShardConfig) (gids : List ℕ) (gid : ℕ)
    → IsFit c gids
    → contains gid gids ≡ false
    → CanJoin ((pos gid, srv_names gid) ∷ []) (ShardCfg.copy c)
unfolding contains
can-join c gids gid fit new =
    let c0 = ShardCfg.copy c in
    let k = copy-IsCopy c gids fit in
    let absent : has (pos gid) c0.groups ≡ false =
      has-contains (pos gid) c0.groups
      ∙ has-groups c0.groups gids (pos gid) k.groups
      ∙ contains-tgids gid gids
      ∙ new in
    record {
      some_group = λ e. cc e;
      fresh = (absent, tt);
      apart = (
        All-lookup (λ e. shares_server e.1 (srv_names gid) ≡ false) c0.groups k.distinct
            (λ g srvs at. entries-apart gid gids g srvs new (sym (k.groups g) ∙ at)),
        tt,
      );
      pairwise = (tt, tt);
      once = (refl, tt);
    }

-- The new group has the number `gid`; there are at most as many groups as shards afterwards.
pub join-step :
    (c : ShardConfig) (gids : List ℕ) (gid : ℕ)
    → IsFit c gids
    → Distinct (gid ∷ gids)
    → length (gid ∷ gids) ≤ nshards
    → (c' : ShardConfig) × (join_balance ((pos gid, srv_names gid) ∷ []) (ShardCfg.copy c)
        ≡ returns (c', true))
      × IsFit c' (gid ∷ gids)
      × (c'.num ≡ (c.num + 1) % 2 ^ 64)
      × (is_member (pos gid) c' ≡ true)
unfolding join_balance is_member contains lookup
join-step c gids gid fit d few =
    let c0 = ShardCfg.copy c in
    let k = copy-IsCopy c gids fit in
    let servers : Map Tgid (List String) = (pos gid, srv_names gid) ∷ [] in
    let (c1, ran1, j) = join-HasJoined servers c0 (can-join c gids gid fit d.0) in
    let (c2, ran2, r) =
      rebalance-IsRebalanced c1 (ap length j.same_shards ∙ k.size) (j.distinct k.distinct) in
    let groups2 : (g : Tgid) → lookup g c2.groups ≡ lookup g (entries (gid ∷ gids)) =
      λ g. ap (lookup g) r.same_groups ∙ (j.groups_after g ∙ ground (arith, k.groups g)) in
    let same : (g : Tgid) → contains g (keys c2.groups) ≡ contains g (tgids (gid ∷ gids)) =
      λ g. has-groups c2.groups (gid ∷ gids) g groups2 in
    let member : contains (pos gid) (tgids (gid ∷ gids)) ≡ true =
      ground (arith, beq_ℤ_iff (pos gid) (pos gid)) in
    let some_group : c1.groups ≢ [] = λ e.
      absurd (cc (ap (contains (pos gid)) (ap keys (r.same_groups ∙ e)), same (pos gid), member)) in
    let assigned : All (λ g. contains g (keys c2.groups) ≡ true) c2.shards =
      rw r.same_groups (r.assigned some_group) in
    let size2 : length c2.shards ≡ nshards = r.same_length ∙ ap length j.same_shards ∙ k.size in
    let loaded : 0 < count (pos gid) c2.shards =
      count_pos-balanced c2.shards (tgids (gid ∷ gids)) (pos gid) (Distinct-tgids (gid ∷ gids) d)
        (All-tgids c2 (gid ∷ gids) same c2.shards assigned)
        (omega (arith, length-tgids (gid ∷ gids), size2, few)) member
        (λ x m.
          r.balanced x (pos gid) (ground (arith, same x, m, r.same_groups))
            (ground (arith, same (pos gid), member, r.same_groups))) in
    (
      c2,
      rw ran1 (rw ran2 refl),
      record {
        size = size2;
        distinct = subst (λ m. Distinct (keys m)) (sym r.same_groups) (j.distinct k.distinct);
        groups = groups2;
        passes = balanced_passes c1 c2 (ap length j.same_shards ∙ k.size) r;
      },
      r.same_num ∙ j.next_num ∙ ap (λ (n : ℕ). (n + 1) % 2 ^ 64) k.same_num,
      is_member-count (pos gid) c2.shards loaded,
    )
