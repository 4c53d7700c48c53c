-- ===== src/ShardCfg/Rebalance.antt =====
-- Rebalance as a whole.
use mit.Base.{
  suc, ◌+◌, ◌*◌, ◌≤◌, ◌≡◌, refl, sym, ap, ◌∙◌, ◌≢◌, true, false, List, [], ◌∷◌, arith, subst, map,
  length, contains, count, Distinct, All, ltb, String,
}
use mit.Base.Int.{pos, int_eq}
use mit.Base.Maps.{Map, keys}
use mit.Base.Exec.{returns}
use mit.ShardCfg.{Tgid, ShardConfig, nshards, assign, level, level_fuel, rebalance}
use mit.ShardCfg.Assign.{IsAssigned, assign-IsAssigned, assign_all}
use mit.ShardCfg.Level.{load-le, level_total, level-balanced, IsLeveled}

-- What Rebalance leaves alone, and what it establishes.
pub record IsRebalanced (c c' : ShardConfig) : Type 0 where
  pub same_num : c'.num ≡ c.num
  pub same_groups : c'.groups ≡ c.groups
  pub same_length : length c'.shards ≡ length c.shards
  pub unassigned : c.groups ≡ [] → c'.shards ≡ map (λ _. pos 0) c.shards
  pub assigned : c.groups ≢ [] → All (λ g. contains g (keys c.groups) ≡ true) c'.shards
  pub balanced :
      (g h : Tgid)
      → contains g (keys c.groups) ≡ true
      → contains h (keys c.groups) ≡ true
      → count g c'.shards ≤ count h c'.shards + 1

length-map : (gs : List Tgid) (z : Tgid) → length (map (λ _. z) gs) ≡ length gs
length-map [] z = refl
length-map (g ∷ gs) z = ap suc (length-map gs z)

IsRebalanced-of :
    (c c1 c' : ShardConfig) → c.groups ≢ [] → IsAssigned c c1 → IsLeveled c1 c' → IsRebalanced c c'
IsRebalanced-of c c1 c' f a l = record {
  same_num = l.same_num ∙ a.same_num;
  same_groups = l.same_groups ∙ a.same_groups;
  same_length = l.same_length ∙ a.same_length;
  unassigned = λ e. absurd (f e);
  assigned = λ _. rw a.same_groups at (l.assigned);
  balanced = rw a.same_groups at (l.balanced);
}

-- With a group, Rebalance is its two loops.
rebalance-loops :
    (c : ShardConfig) (k : Tgid) (srvs : List String) (m : Map Tgid (List String))
    → c.groups ≡ (k, srvs) ∷ m
    → rebalance c ≡ level level_fuel (assign c.shards 0 c)
unfolding rebalance
rebalance-loops c k srvs m e =
    let long : ltb (length c.groups) 1 ≡ false = rw e (ground arith) in rw long refl

rebalance_of :
    (c : ShardConfig) (gs : Map Tgid (List String))
    → c.groups ≡ gs
    → length c.shards ≡ nshards
    → Distinct (keys c.groups)
    → (c' : ShardConfig) × (rebalance c ≡ returns c') × IsRebalanced c c'
unfolding rebalance contains
rebalance_of c [] e n d = (
  record c { shards = map (λ _. pos 0) c.shards },
  rw e refl,
  record {
    same_num = refl;
    same_groups = refl;
    same_length = length-map c.shards (pos 0);
    unassigned = λ _. refl;
    assigned = λ f. absurd (f e);
    balanced = λ g h mg mh. cc (subst (λ l. contains g (keys l) ≡ true) e mg);
  },
)
rebalance_of c ((k, srvs) ∷ m) e n d =
    let mem : contains k (keys c.groups) ≡ true =
      rw e (ground (arith, (int_eq.beq_iff k k).1 refl)) in
    let c1 : ShardConfig = assign c.shards 0 c in
    let a : IsAssigned c c1 = assign-IsAssigned c.shards [] 0 c k mem (omega arith) refl refl tt in
    let d1 : Distinct (keys c1.groups) = rw a.same_groups d in
    let (c', ran, l) =
      level_total level_fuel c1 k (rw a.same_groups mem) d1 (rw a.same_groups a.assigned)
        (omega (arith, a.same_length))
        (let sq : length c1.shards * length c1.shards ≡ 144 = rw (a.same_length, n) refl in
          omega (arith, load-le c1.shards (keys c1.groups) d1, sq)) in
    (c', rebalance-loops c k srvs m e ∙ ran, IsRebalanced-of c c1 c' (λ f. cc (f, e)) a l)

-- Rebalance ends for every configuration of twelve shards; it changes the assignment only, and
-- leaves every shard in a group, with loads at most one apart; without groups all shards go to 0.
pub rebalance-IsRebalanced :
    (c : ShardConfig)
    → length c.shards ≡ nshards
    → Distinct (keys c.groups)
    → (c' : ShardConfig) × (rebalance c ≡ returns c') × IsRebalanced c c'
rebalance-IsRebalanced c n d = rebalance_of c c.groups refl n d

rebalance-step :
    (c : ShardConfig) (k : Tgid) (srvs : List String) (m : Map Tgid (List String))
    → c.groups ≡ (k, srvs) ∷ m
    → length c.shards ≡ nshards
    → All (λ g. contains g (keys c.groups) ≡ true) c.shards
    → ((g h : Tgid)
        → contains g (keys c.groups) ≡ true
        → contains h (keys c.groups) ≡ true
        → count g c.shards ≤ count h c.shards + 1)
    → rebalance c ≡ returns c
unfolding contains
rebalance-step c k srvs m e n a b =
    let mem : contains k (keys c.groups) ≡ true =
      rw e (ground (arith, (int_eq.beq_iff k k).1 refl)) in
    rebalance-loops c k srvs m e
    ∙ (rw (assign_all c.shards 0 c a) (level-balanced 144 c k mem (omega arith) b))

-- Where every shard is in a group and the loads are at most one apart, Rebalance changes nothing.
pub rebalance_settled :
    (c : ShardConfig)
    → length c.shards ≡ nshards
    → c.groups ≢ []
    → All (λ g. contains g (keys c.groups) ≡ true) c.shards
    → ((g h : Tgid)
        → contains g (keys c.groups) ≡ true
        → contains h (keys c.groups) ≡ true
        → count g c.shards ≤ count h c.shards + 1)
    → rebalance c ≡ returns c
rebalance_settled c n f a b = settled c.groups refl
  where
    settled : (gs : Map Tgid (List String)) → c.groups ≡ gs → rebalance c ≡ returns c
    settled [] e = absurd (f e)
    settled ((k, srvs) ∷ m) e = rebalance-step c k srvs m e n a b

map-zero : (gs : List Tgid) → map (λ _. pos 0) (map (λ _. pos 0) gs) ≡ map (λ _. pos 0) gs
map-zero [] = refl
map-zero (g ∷ gs) = ap (◌∷◌ (pos 0)) (map-zero gs)

rebalance_empty :
    (c : ShardConfig) (gs : List Tgid)
    → c.groups ≡ []
    → c.shards ≡ map (λ _. pos 0) gs
    → rebalance c ≡ returns c
unfolding rebalance
rebalance_empty c gs e z =
    let same : map (λ _. pos 0) c.shards ≡ c.shards = rw z (map-zero gs) in rw e (rw same refl)

-- A second Rebalance of a configuration of twelve shards changes nothing.
pub rebalance_idem :
    (c c' : ShardConfig)
    → length c.shards ≡ nshards
    → Distinct (keys c.groups)
    → rebalance c ≡ returns c'
    → rebalance c' ≡ returns c'
rebalance_idem c c' n d ran = again (rebalance-IsRebalanced c n d)
  where
    empty :
        (c2 : ShardConfig)
        → c2.groups ≡ []
        → c2.shards ≡ map (λ _. pos 0) c.shards
        → rebalance c2 ≡ returns c2
    empty c2 e z = rebalance_empty c2 c.shards e z

    from :
        (c2 : ShardConfig)
        → IsRebalanced c c2
        → (gs : Map Tgid (List String)) → c.groups ≡ gs
        → rebalance c2 ≡ returns c2
    from c2 r [] e = empty c2 (r.same_groups ∙ e) (r.unassigned e)
    from c2 r ((k, srvs) ∷ m) e =
        let some_group : c.groups ≢ [] = λ p. cc (p, e) in
        rebalance_settled c2 (r.same_length ∙ n) (λ p. some_group (sym r.same_groups ∙ p))
          (rw r.same_groups (r.assigned some_group)) (rw r.same_groups (r.balanced))

    again :
        (c2 : ShardConfig) × (rebalance c ≡ returns c2) × IsRebalanced c c2
        → rebalance c' ≡ returns c'
    again (c2, ran2, r) =
        let same : c2 ≡ c' = cc (ran, ran2) in
        subst (λ x. rebalance x ≡ returns x) same (from c2 r c.groups refl)
