-- ===== src/Shardkv/Steps.antt =====
-- A configuration with just some groups, and what a join or a leave starts from.
use mit.Base.{
  ℕ, suc, String, true, false, some, List, [], ◌∷◌, is_some, ◌==◌, nat_eq, string_eq, length,
  contains, Distinct, All, ◌≡◌, refl, sym, ap, ◌∙◌, ◌≢◌, inl, inr, arith, Bool-cases, nat_beq_iff,
}
use mit.Base.Int.{pos, int_eq, beq_ℤ_iff}
use mit.Base.Maps.{Map, keys, lookup, has-contains, Distinct-insert}
use mit.Base.Exec.{returns}
use mit.Groups.Names.{server_names-apart}
use mit.Groups.Servers.{server_names}
use mit.ShardCfg
use mit.ShardCfg.{
  Tgid, ShardConfig, nshards, join_balance, leave_balance, is_member, is_member_of, check_config,
  shares_server,
}
use mit.ShardCfg.Keys.{copy_lem}
use mit.Shardkv.{nsrv}

-- The names of the servers of a group.
unfoldable pub srv_names : ℕ → List String
srv_names gid = server_names (pos gid) 0 nsrv

-- The groups with their servers.
abbrev pub entries : List ℕ → Map Tgid (List String)
entries [] = []
entries (gid ∷ gids) = (pos gid, srv_names gid) ∷ entries gids

abbrev pub tgids : List ℕ → List Tgid
tgids [] = []
tgids (gid ∷ gids) = pos gid ∷ tgids gids

-- A configuration with just the groups `gids`.
pub record IsFit (c : ShardConfig) (gids : List ℕ) : Type 0 where
  pub size : length c.shards ≡ nshards
  pub distinct : Distinct (keys c.groups)
  pub groups : (g : Tgid) → lookup g c.groups ≡ lookup g (entries gids)
  pub passes : check_config c (keys c.groups) ≡ returns tt

pub contains-tgids : (gid : ℕ) (gids : List ℕ) → contains (pos gid) (tgids gids) ≡ contains gid gids
unfolding contains
contains-tgids gid [] = refl
contains-tgids gid (g ∷ gids) =
    ground (arith, contains-tgids gid gids, beq_ℤ_iff (pos gid) (pos g), nat_beq_iff gid g)

pub keys-entries : (gids : List ℕ) → keys (entries gids) ≡ tgids gids
keys-entries [] = refl
keys-entries (gid ∷ gids) = ap (◌∷◌ (pos gid)) (keys-entries gids)

pub Distinct-tgids : (gids : List ℕ) → Distinct gids → Distinct (tgids gids)
Distinct-tgids [] d = tt
Distinct-tgids (gid ∷ gids) d = (contains-tgids gid gids ∙ d.0, Distinct-tgids gids d.1)

pub length-tgids : (gids : List ℕ) → length (tgids gids) ≡ length gids
length-tgids [] = refl
length-tgids (gid ∷ gids) = ap suc (length-tgids gids)

-- A group is in the configuration exactly if it is one of `gids`.
pub has-groups :
    (groups : Map Tgid (List String)) (gids : List ℕ) (g : Tgid)
    → ((h : Tgid) → lookup h groups ≡ lookup h (entries gids))
    → contains g (keys groups) ≡ contains g (tgids gids)
has-groups groups gids g h =
    sym (has-contains g groups)
    ∙ ap is_some (h g)
    ∙ has-contains g (entries gids)
    ∙ ap (contains g) (keys-entries gids)

pub shares-apart :
    (xs ys : List String)
    → ((x : String) → contains x xs ≡ true → contains x ys ≡ false)
    → shares_server xs ys ≡ false
unfolding shares_server contains
shares-apart [] ys h = refl
shares-apart (x ∷ xs) ys h = ground (
  arith,
  h x (ground (arith, string_eq.beq_iff x x)),
  shares-apart xs ys (λ y m. h y (ground (arith, m))),
)

-- A value in the list of the entries has the servers of another group.
pub entries-apart :
    (gid : ℕ) (gids : List ℕ) (g : Tgid) (srvs : List String)
    → contains gid gids ≡ false
    → lookup g (entries gids) ≡ some srvs
    → shares_server srvs (srv_names gid) ≡ false
unfolding lookup contains srv_names
entries-apart gid [] g srvs out h = cc
entries-apart gid (k ∷ gids) g srvs out h = elim (Bool-cases (g == pos k)) [
  | inl e ↦
      let is : server_names (pos k) 0 nsrv ≡ srvs = ground (arith, e, h) in
      let ne : k ≢ gid = λ same. absurd (ground (arith, nat_beq_iff gid k, same)) in
      let ne_int : pos k ≢ pos gid = λ same. ne (cc same) in
      rw (← is) (
        shares-apart (server_names (pos k) 0 nsrv) (server_names (pos gid) 0 nsrv)
          (λ x m. server_names-apart (pos k) (pos gid) 0 nsrv 0 nsrv x ne_int m))
  | inr e ↦ entries-apart gid gids g srvs (ground arith) (ground (arith, e, h))
]

-- What holds of each pair that can be looked up holds of each entry.
pub All-lookup :
    (P : Tgid × List String → Type 0) (m : Map Tgid (List String))
    → Distinct (keys m)
    → ((k : Tgid) (v : List String) → lookup k m ≡ some v → P (k, v))
    → All P m
unfolding lookup
All-lookup P [] d h = tt
All-lookup P ((k, v) ∷ m) d h = (
  h k v (ground (arith, beq_ℤ_iff k k)),
  All-lookup P m d.1 (λ j w at. h j w (elim (Bool-cases (j == k)) [
    | inr e ↦ ground (arith, e, at)
    | inl e ↦ absurd (
        ground (
          arith,
          (beq_ℤ_iff j k).0 e,
          has-contains k m,
          d.0,
          at,
          ap (λ (x : Tgid). lookup x m) ((beq_ℤ_iff j k).0 e),
        ))
  ])),
)

pub Distinct-copy_groups :
    (m acc : Map Tgid (List String))
    → Distinct (keys acc)
    → Distinct (keys (ShardCfg.copy_groups m acc))
unfolding ShardCfg.copy_groups
Distinct-copy_groups [] acc d = d
Distinct-copy_groups ((k, srvs) ∷ m) acc d = Distinct-copy_groups m _ (Distinct-insert k srvs acc d)

-- A copy of such a configuration.
pub record IsCopy (c : ShardConfig) (gids : List ℕ) (d : ShardConfig) : Type 0 where
  pub size : length d.shards ≡ nshards
  pub distinct : Distinct (keys d.groups)
  pub groups : (g : Tgid) → lookup g d.groups ≡ lookup g (entries gids)
  pub same_num : d.num ≡ c.num
  pub same_shards : d.shards ≡ c.shards

pub copy-IsCopy : (c : ShardConfig) (gids : List ℕ) → IsFit c gids → IsCopy c gids (ShardCfg.copy c)
unfolding ShardCfg.copy
copy-IsCopy c gids fit =
    let (same_num, same_shards, same_groups) = copy_lem c fit.distinct in
    record {
      size = fit.size;
      distinct = Distinct-copy_groups c.groups [] tt;
      groups = λ g. same_groups g ∙ fit.groups g;
      same_num = refl;
      same_shards = refl;
    }
