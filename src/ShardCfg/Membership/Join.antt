-- ===== src/ShardCfg/Membership/Join.antt =====
-- Join and JoinBalance.
use mit.Base.{
  ◌+◌, ◌%◌, ◌^◌, ◌≡◌, refl, ap, ◌∙◌, ◌≢◌, Bool, true, false, List, [], ◌∷◌, arith, inl, inr,
  if◌then◌else◌, ◌==◌, ◌⊎◌, Bool-cases, length, contains, Distinct, All, String, string_eq,
}
use mit.Base.Int.{int_eq, beq_ℤ_iff}
use mit.Base.Maps.{Map, keys, has, has-contains, lookup, insert, lookup-insert, Distinct-insert}
use mit.Base.Exec.{returns, fatal}
use mit.ShardCfg.{
  Tgid, ShardConfig, nshards, bump_num, join_from, join, join_balance, check_config, overlaps,
  shares_server,
}
use mit.ShardCfg.Rebalance.{rebalance-IsRebalanced}
use mit.ShardCfg.Check.{balanced_passes}

abbrev Named : Type 0
Named = Tgid × List String

-- No server of the group stands in another list.
abbrev Apart : List String → Named → Type 0
Apart servers e = shares_server e.1 servers ≡ false

-- No server stands in two of the groups that join.
abbrev pub PairwiseApart : Map Tgid (List String) → Type 0
PairwiseApart [] = Unit
PairwiseApart (e ∷ m) = All (λ (d : Named). Apart d.1 e) m × PairwiseApart m

pub record CanJoin (servers : Map Tgid (List String)) (cfg : ShardConfig) : Type 0 where
  pub some_group : servers ≢ []
  pub fresh : All (λ (e : Named). has e.0 cfg.groups ≡ false) servers
  pub apart : All (λ (e : Named). All (Apart e.1) cfg.groups) servers
  pub pairwise : PairwiseApart servers
  pub once : Distinct (keys servers)

overlaps-Apart :
    (servers : List String) (m : Map Tgid (List String))
    → All (Apart servers) m
    → overlaps servers m ≡ false
unfolding overlaps
overlaps-Apart servers [] a = refl
overlaps-Apart servers (e ∷ m) a = rw a.0 (overlaps-Apart servers m a.1)

All-insert :
    (P : Named → Type 0) (k : Tgid) (v : List String) (m : Map Tgid (List String))
    → All P m
    → P (k, v)
    → All P (insert k v m)
unfolding insert
All-insert P k v [] a p = (p, tt)
All-insert P k v (e ∷ m) a p = elim (Bool-cases (k == e.0)) [
  | inl h ↦ rw h (p, a.1)
  | inr h ↦ rw h (a.0, All-insert P k v m a.1 p)
]

insert_all : Map Tgid (List String) → Map Tgid (List String) → Map Tgid (List String)
insert_all [] m = m
insert_all ((k, v) ∷ rest) m = insert_all rest (insert k v m)

lookup-insert_all :
    (servers m : Map Tgid (List String)) (g : Tgid)
    → Distinct (keys servers)
    → lookup g (insert_all servers m) ≡ (if has g servers then lookup g servers else lookup g m)
unfolding insert_all lookup
lookup-insert_all [] m g d = refl
lookup-insert_all ((k, v) ∷ rest) m g d = ground (
  arith,
  lookup-insert_all rest (insert k v m) g d.1,
  lookup-insert k g v m,
  beq_ℤ_iff g k,
  has-contains g rest,
  d.0,
)

Distinct-insert_all :
    (servers m : Map Tgid (List String))
    → Distinct (keys m)
    → Distinct (keys (insert_all servers m))
unfolding insert_all
Distinct-insert_all [] m d = d
Distinct-insert_all ((k, v) ∷ rest) m d =
    Distinct-insert_all rest (insert k v m) (Distinct-insert k v m d)

fresh-insert :
    (rest : Map Tgid (List String)) (k : Tgid) (v : List String) (m : Map Tgid (List String))
    → contains k (keys rest) ≡ false
    → All (λ (e : Named). has e.0 m ≡ false) rest
    → All (λ (e : Named). has e.0 (insert k v m) ≡ false) rest
unfolding contains
fresh-insert [] k v m h a = tt
fresh-insert (e ∷ rest) k v m h a = (
  ground (arith, lookup-insert k e.0 v m, beq_ℤ_iff e.0 k, beq_ℤ_iff k e.0, a.0),
  fresh-insert rest k v m (ground arith) a.1,
)

Apart-insert :
    (rest : Map Tgid (List String)) (k : Tgid) (v : List String) (m : Map Tgid (List String))
    → All (λ (d : Named). Apart d.1 (k, v)) rest
    → All (λ (e : Named). All (Apart e.1) m) rest
    → All (λ (e : Named). All (Apart e.1) (insert k v m)) rest
Apart-insert [] k v m p a = tt
Apart-insert (e ∷ rest) k v m p a =
    (All-insert (Apart e.1) k v m a.0 p.0, Apart-insert rest k v m p.1 a.1)

join_from-true :
    (servers : Map Tgid (List String)) (changed : Bool) (cfg : ShardConfig)
    → (servers ≡ [] → changed ≡ true)
    → All (λ (e : Named). has e.0 cfg.groups ≡ false) servers
    → All (λ (e : Named). All (Apart e.1) cfg.groups) servers
    → PairwiseApart servers
    → Distinct (keys servers)
    → join_from servers changed cfg
      ≡ returns (bump_num (record cfg { groups = insert_all servers cfg.groups }), true)
unfolding join_from insert_all
join_from-true [] changed cfg p f a w d = rw (p refl) refl
join_from-true ((k, v) ∷ rest) changed cfg p f a w d =
    rw (f.0, overlaps-Apart v cfg.groups a.0)
      (join_from-true rest true (record cfg { groups = insert k v cfg.groups }) (λ _. refl)
        (fresh-insert rest k v cfg.groups d.0 f.1) (Apart-insert rest k v cfg.groups w.0 a.1) w.1
        d.1)

pub record HasJoined (servers : Map Tgid (List String)) (cfg c' : ShardConfig) : Type 0 where
  pub next_num : c'.num ≡ (cfg.num + 1) % 2 ^ 64
  pub same_shards : c'.shards ≡ cfg.shards
  pub groups_after :
      (g : Tgid)
      → lookup g c'.groups ≡ (if has g servers then lookup g servers else lookup g cfg.groups)
  pub distinct : Distinct (keys cfg.groups) → Distinct (keys c'.groups)

-- Join of at least one new group, where no server is in two of the groups, returns true, in whatever
-- order the map is visited, adds exactly those groups, moves the number by one and leaves the shards.
pub join-HasJoined :
    (servers : Map Tgid (List String)) (cfg : ShardConfig)
    → CanJoin servers cfg
    → (c' : ShardConfig) × (join servers cfg ≡ returns (c', true)) × HasJoined servers cfg c'
unfolding join
join-HasJoined servers cfg j = (
  bump_num (record cfg { groups = insert_all servers cfg.groups }),
  join_from-true servers false cfg (λ e. absurd (j.some_group e)) j.fresh j.apart j.pairwise j.once,
  record {
    next_num = refl;
    same_shards = refl;
    groups_after = λ g. lookup-insert_all servers cfg.groups g j.once;
    distinct = Distinct-insert_all servers cfg.groups;
  },
)

join_from-rejoin :
    (servers : Map Tgid (List String)) (changed : Bool) (cfg : ShardConfig) (g : Tgid)
    → has g servers ≡ true
    → has g cfg.groups ≡ true
    → (join_from servers changed cfg ≡ fatal)
      ⊎ ((c' : ShardConfig) × (join_from servers changed cfg ≡ returns (c', false))
          × (c'.num ≡ cfg.num)
          × (c'.shards ≡ cfg.shards))
unfolding join_from lookup
join_from-rejoin [] changed cfg g h p = cc
join_from-rejoin ((k, v) ∷ rest) changed cfg g h p = elim (Bool-cases (has k cfg.groups)) [
  | inl old ↦ inr (cfg, rw old refl, refl, refl)
  | inr new ↦ elim (Bool-cases (overlaps v cfg.groups)) [
    | inl hit ↦ inl (rw (new, hit) refl)
    | inr clear ↦
        rw (new, clear)
          (join_from-rejoin rest true (record cfg { groups = insert k v cfg.groups }) g
            (ground (arith, beq_ℤ_iff g k)) (ground (arith, lookup-insert k g v cfg.groups)))
  ]
]

-- A Join that names a group which is there already never succeeds: it returns false and keeps the
-- number and the assignment, unless a shared server ends the process before.
pub join_rejoin :
    (servers : Map Tgid (List String)) (cfg : ShardConfig) (g : Tgid)
    → has g servers ≡ true
    → has g cfg.groups ≡ true
    → (join servers cfg ≡ fatal)
      ⊎ ((c' : ShardConfig) × (join servers cfg ≡ returns (c', false))
          × (c'.num ≡ cfg.num)
          × (c'.shards ≡ cfg.shards))
unfolding join
join_rejoin servers cfg g h p = join_from-rejoin servers false cfg g h p

-- JoinBalance of new groups, which share no server with each other or with a group that is there,
-- returns true for a configuration of twelve shards: exactly those groups are added, and the new
-- configuration passes CheckConfig against its own groups. At least one group joins.
pub join_balance-check_config :
    (servers : Map Tgid (List String)) (cfg : ShardConfig)
    → CanJoin servers cfg
    → length cfg.shards ≡ nshards
    → Distinct (keys cfg.groups)
    → (c' : ShardConfig) × (join_balance servers cfg ≡ returns (c', true))
      × ((g : Tgid)
          → lookup g c'.groups ≡ (if has g servers then lookup g servers else lookup g cfg.groups))
      × (check_config c' (keys c'.groups) ≡ returns tt)
unfolding join_balance
join_balance-check_config servers cfg j n d =
    let (c1, ran1, l) = join-HasJoined servers cfg j in
    let (c2, ran2, r) = rebalance-IsRebalanced c1 (ap length l.same_shards ∙ n) (l.distinct d) in
    (
      c2,
      rw ran1 (rw ran2 refl),
      (λ g. rw r.same_groups (l.groups_after g)),
      balanced_passes c1 c2 (ap length l.same_shards ∙ n) r,
    )
