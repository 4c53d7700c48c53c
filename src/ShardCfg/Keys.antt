-- ===== src/ShardCfg/Keys.antt =====
-- Which shard and which group serve a key.
use mit.Base.{
  ℕ, zero, suc, ◌<◌, ◌≡◌, refl, sym, ap, ◌∙◌, ◌≢◌, true, List, [], ◌∷◌, arith, subst, some,
  if◌then◌else◌, ◌↔◌, length, contains, Distinct, All, String, get_elem?, or_else,
}
use mit.Base.Int.{int_eq, beq_ℤ_iff}
use mit.Base.Maps.{Map, keys, has, lookup, has-contains, insert, lookup-insert}
use mit.Base.Exec.{returns}
use mit.ShardCfg.{
  Tgid, ShardConfig, nshards, key2shard, rebalance, gid_servers, is_member, is_member_of, copy,
  copy_groups,
}
use mit.ShardCfg.Rebalance.{IsRebalanced, rebalance-IsRebalanced}

pub key2shard-lt : (key : List ℕ) → key2shard key < nshards
unfolding key2shard
key2shard-lt key = omega arith

get_elem?-All :
    (P : Tgid → Type 0) (gs : List Tgid) (i : ℕ)
    → All P gs
    → i < length gs
    → (g : Tgid) × (get_elem? gs i ≡ some g) × P g
get_elem?-All P [] i a h = elim h [ ]
get_elem?-All P (g ∷ gs) zero a h = (g, refl, a.0)
get_elem?-All P (g ∷ gs) (suc i) a h = get_elem?-All P gs i a.1 (omega arith)

gid_servers-at :
    (c : ShardConfig) (i : ℕ) (g : Tgid)
    → get_elem? c.shards i ≡ some g
    → has g c.groups ≡ true
    → (servers : List String) × (gid_servers c i ≡ returns (g, servers, true))
      × (lookup g c.groups ≡ some servers)
unfolding gid_servers
gid_servers-at c i g e h =
    (or_else (lookup g c.groups) [], rw (e, gid_servers) (rw h refl), ground arith)

-- After Rebalance of a configuration with a group every key has a group that serves it.
pub rebalance-gid_servers :
    (c c' : ShardConfig) (key : List ℕ)
    → length c.shards ≡ nshards
    → Distinct (keys c.groups)
    → c.groups ≢ []
    → rebalance c ≡ returns c'
    → (g : Tgid) × (servers : List String) × (gid_servers c' (key2shard key)
        ≡ returns (g, servers, true))
      × (lookup g c.groups ≡ some servers)
rebalance-gid_servers c c' key n d f ran = serve (rebalance-IsRebalanced c n d)
  where
    serve :
        (c2 : ShardConfig) × (rebalance c ≡ returns c2) × IsRebalanced c c2
        → (g : Tgid) × (servers : List String) × (gid_servers c' (key2shard key)
            ≡ returns (g, servers, true))
          × (lookup g c.groups ≡ some servers)
    serve (c2, ran2, r) =
        let (g, at, m) =
          get_elem?-All (λ x. contains x (keys c.groups) ≡ true) c2.shards (key2shard key)
            (r.assigned f) (omega (arith, key2shard-lt key, r.same_length)) in
        let there : has g c2.groups ≡ true =
          has-contains g c2.groups ∙ (ap (λ l. contains g (keys l)) r.same_groups ∙ m) in
        let (servers, served, found) = gid_servers-at c2 (key2shard key) g at there in
        (
          g,
          servers,
          subst (λ x. gid_servers x (key2shard key) ≡ returns (g, servers, true)) (cc (ran, ran2))
              served,
          sym (ap (lookup g) r.same_groups) ∙ found,
        )

is_member_of-contains : (gid : Tgid) (gs : List Tgid) → is_member_of gid gs ≡ contains gid gs
unfolding is_member_of contains
is_member_of-contains gid [] = refl
is_member_of-contains gid (g ∷ gs) =
    ground (arith, is_member_of-contains gid gs, beq_ℤ_iff g gid, beq_ℤ_iff gid g)

-- IsMember answers for exactly the groups that hold a shard.
pub is_member_iff :
    (gid : Tgid) (c : ShardConfig) → (is_member gid c ≡ true) ↔ (contains gid c.shards ≡ true)
unfolding is_member
is_member_iff gid c =
    (λ h. sym (is_member_of-contains gid c.shards) ∙ h, λ h. is_member_of-contains gid c.shards ∙ h)

copy_groups-lookup :
    (m acc : Map Tgid (List String)) (g : Tgid)
    → Distinct (keys m)
    → lookup g (copy_groups m acc) ≡ (if has g m then lookup g m else lookup g acc)
unfolding copy_groups lookup
copy_groups-lookup [] acc g d = refl
copy_groups-lookup ((k, v) ∷ m) acc g d = ground (
  arith,
  copy_groups-lookup m (insert k v acc) g d.1,
  lookup-insert k g v acc,
  beq_ℤ_iff g k,
  has-contains g m,
  d.0,
)

-- A copy has the same number and assignment, and the same servers in every group.
pub copy_lem :
    (c : ShardConfig)
    → Distinct (keys c.groups)
    → ((copy c).num ≡ c.num)
      × ((copy c).shards ≡ c.shards)
      × ((g : Tgid) → lookup g (copy c).groups ≡ lookup g c.groups)
unfolding copy
copy_lem c d =
    (refl, refl, λ g. unfold lookup in ground (arith, copy_groups-lookup c.groups [] g d))
