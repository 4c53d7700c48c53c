-- ===== src/ShardCfg/Check.antt =====
-- CheckConfig, and Rebalance before it.
use mit.Base.{
  ℕ, suc, ◌+◌, ◌≤◌, ◌<◌, ◌≡◌, refl, sym, ap, ◌∙◌, ◌↔◌, true, List, [], ◌∷◌, arith, subst, inl, inr,
  if◌then◌else◌, ◌==◌, not, Bool-cases, length, contains, count, Distinct, All, ltb, String, nat_eq,
  fun_ext, ltb→lt,
}
use mit.Base.Int.{int_eq, beq_ℤ_iff}
use mit.Base.Maps.{Map, keys, has, has-contains}
use mit.Base.Exec.{returns, fatal, ◌>>◌}
use mit.ShardCfg.{Tgid, ShardConfig, nshards, rebalance, all_have, spread, check_config}
use mit.ShardCfg.Counts.{counts_at-tally, count-le-length}
use mit.ShardCfg.Rebalance.{IsRebalanced, rebalance-IsRebalanced}

-- What CheckConfig looks for, given the groups that are expected.
pub record IsSound (c : ShardConfig) (gs : List Tgid) : Type 0 where
  pub same_size : length c.groups ≡ length gs
  pub present : All (λ g. contains g (keys c.groups) ≡ true) gs
  pub assigned : 0 < length gs → All (λ g. contains g (keys c.groups) ≡ true) c.shards
  pub balanced :
      (g h : Tgid)
      → contains g (keys c.groups) ≡ true
      → contains h (keys c.groups) ≡ true
      → count g c.shards ≤ count h c.shards + 1

all_have_iff :
    (gs : List Tgid) (m : Map Tgid (List String))
    → (all_have gs m ≡ returns tt) ↔ All (λ g. contains g (keys m) ≡ true) gs
unfolding all_have
all_have_iff [] m = (λ _. tt, λ _. refl)
all_have_iff (g ∷ gs) m = elim (Bool-cases (has g m)) [
  | inl h ↦
      rw h
        (λ r. (sym (has-contains g m) ∙ h, (all_have_iff gs m).0 r), λ a. (all_have_iff gs m).1 a.1)
  | inr h ↦ rw h (λ r. cc r, λ a. cc (h, has-contains g m, a.0))
]

module _ (f : Tgid → ℕ) where
  -- The two bounds that the loop keeps hold all the counts it has met between them.
  pub spread_bounds :
      (gs : List Tgid) (max min : ℕ)
      → let r = spread f gs max min in
        (max ≤ r.0) × (r.1 ≤ min) × ((g : Tgid) → contains g gs ≡ true → (f g ≤ r.0) × (r.1 ≤ f g))
  unfolding spread contains
  spread_bounds [] max min = (omega arith, omega arith, λ g m. cc)
  spread_bounds (x ∷ gs) max min =
      let max1 : ℕ = if ltb max (f x) then f x else max in
      let min1 : ℕ = if ltb (f x) min then f x else min in
      let r = spread_bounds gs max1 min1 in
      (
        ground (arith, r.0),
        ground (arith, r.1),
        λ g m. (
          ground (arith, r.0, r.1, r.2 g, beq_ℤ_iff g x),
          ground (arith, r.0, r.1, r.2 g, beq_ℤ_iff g x),
        ),
      )

  -- Counts that are at most one apart leave the bounds at most one apart.
  pub spread_close :
      (gs : List Tgid) (max min : ℕ)
      → ((g h : Tgid) → contains g gs ≡ true → contains h gs ≡ true → f g ≤ f h + 1)
      → ((g : Tgid) → contains g gs ≡ true → (f g ≤ min + 1) × (max ≤ f g + 1))
      → max ≤ min + 1
      → (spread f gs max min).0 ≤ (spread f gs max min).1 + 1
  unfolding spread contains
  spread_close [] max min close near h = h
  spread_close (x ∷ gs) max min close near h =
      let here : contains x (x ∷ gs) ≡ true = ground (arith, beq_ℤ_iff x x) in
      let later : (g : Tgid) → contains g gs ≡ true → contains g (x ∷ gs) ≡ true =
        λ g m. ground arith in
      spread_close gs (if ltb max (f x) then f x else max) (if ltb (f x) min then f x else min)
        (λ g k mg mk. close g k (later g mg) (later k mk))
        (λ g m. (
          ground (arith, close g x (later g m) here, near g (later g m)),
          ground (arith, close x g here (later g m), near g (later g m)),
        ))
        (ground (arith, near x here))

-- The two bounds of CheckConfig, over the numbers of shards.
abbrev bounds : ShardConfig → ℕ × ℕ
bounds c = spread (λ g. count g c.shards) (keys c.groups) 0 257

check_config-bounds :
    (c : ShardConfig) (gs : List Tgid)
    → check_config c gs ≡ (do
      (if not (length c.groups == length gs) then fatal else returns tt)
      all_have gs c.groups
      (if ltb 0 (length gs) then all_have c.shards c.groups else returns tt)
      if ltb ((bounds c).1 + 1) (bounds c).0 then fatal else returns tt)
unfolding check_config
check_config-bounds c gs = rw (fun_ext (λ x. counts_at-tally c.shards x)) refl

check_config-IsSound :
    (c : ShardConfig) (gs : List Tgid) → check_config c gs ≡ returns tt → IsSound c gs
check_config-IsSound c gs h =
    let h1 = sym (check_config-bounds c gs) ∙ h in
    let b = spread_bounds (λ g. count g c.shards) (keys c.groups) 0 257 in
    let narrow : (bounds c).0 ≤ (bounds c).1 + 1 = ground arith in
    record {
      same_size = ground arith;
      present = (all_have_iff gs c.groups).0 (ground arith);
      assigned = λ p. (all_have_iff c.shards c.groups).0 (ground arith);
      balanced = λ g k mg mk. omega (arith, narrow, b.2 g mg, b.2 k mk);
    }

IsSound-check_config :
    (c : ShardConfig) (gs : List Tgid)
    → length c.shards < 257
    → IsSound c gs
    → check_config c gs ≡ returns tt
IsSound-check_config c gs n s =
    let close : (bounds c).0 ≤ (bounds c).1 + 1 =
      spread_close (λ g. count g c.shards) (keys c.groups) 0 257 s.balanced
        (λ g m. (omega (arith, count-le-length g c.shards), omega arith)) (omega arith) in
    let p = (all_have_iff gs c.groups).1 s.present in
    let a : ltb 0 (length gs) ≡ true → all_have c.shards c.groups ≡ returns tt =
      λ t. (all_have_iff c.shards c.groups).1 (s.assigned (ltb→lt 0 (length gs) t)) in
    check_config-bounds c gs ∙ ground (arith, s.same_size, p, a)

-- CheckConfig passes a configuration of fewer than 257 shards exactly if it has as many groups as
-- are expected and the expected ones among them, every shard is in one of them (where a group is
-- expected), and the loads of the groups are at most one apart.
pub check_config_iff :
    (c : ShardConfig) (gs : List Tgid)
    → length c.shards < 257
    → (check_config c gs ≡ returns tt) ↔ IsSound c gs
check_config_iff c gs n = (check_config-IsSound c gs, IsSound-check_config c gs n)

-- A rebalanced configuration passes CheckConfig against its own groups.
pub rebalance-check_config :
    (c c' : ShardConfig) (gs : List Tgid)
    → length c.shards ≡ nshards
    → Distinct (keys c.groups)
    → rebalance c ≡ returns c'
    → length c.groups ≡ length gs
    → All (λ g. contains g (keys c.groups) ≡ true) gs
    → check_config c' gs ≡ returns tt
rebalance-check_config c c' gs n d ran size present = passes (rebalance-IsRebalanced c n d)
  where
    passes :
        (c2 : ShardConfig) × (rebalance c ≡ returns c2) × IsRebalanced c c2
        → check_config c' gs ≡ returns tt
    passes (c2, ran2, r) =
        let same : c2 ≡ c' = cc (ran, ran2) in
        subst (λ x. check_config x gs ≡ returns tt) same
          (IsSound-check_config c2 gs (omega (arith, r.same_length)) (record {
            same_size = ap length r.same_groups ∙ size;
            present = rw r.same_groups present;
            assigned =
                λ p. rw r.same_groups (r.assigned (λ e. absurd (omega (arith, ap length e))));
            balanced = rw r.same_groups (r.balanced);
          }))

length-keys : (m : Map Tgid (List String)) → length m ≡ length (keys m)
length-keys [] = refl
length-keys ((k, v) ∷ m) = ap suc (length-keys m)

All-weaken :
    (k : Tgid) (gs ks : List Tgid)
    → All (λ g. contains g ks ≡ true) gs
    → All (λ g. contains g (k ∷ ks) ≡ true) gs
unfolding contains
All-weaken k [] ks a = tt
All-weaken k (g ∷ gs) ks a = (ground (arith, a.0), All-weaken k gs ks a.1)

All-contains : (ks : List Tgid) → All (λ g. contains g ks ≡ true) ks
unfolding contains
All-contains [] = tt
All-contains (k ∷ ks) = (ground (arith, beq_ℤ_iff k k), All-weaken k ks ks (All-contains ks))

-- The result of Rebalance against the list of its own groups.
pub balanced_passes :
    (c c' : ShardConfig)
    → length c.shards ≡ nshards
    → IsRebalanced c c'
    → check_config c' (keys c'.groups) ≡ returns tt
balanced_passes c c' n r =
    IsSound-check_config c' (keys c'.groups) (omega (arith, r.same_length)) (record {
      same_size = length-keys c'.groups;
      present = All-contains (keys c'.groups);
      assigned = λ p.
          rw r.same_groups
            (r.assigned (λ e. absurd (omega (arith, ap length (ap keys (r.same_groups ∙ e))))));
      balanced = rw r.same_groups (r.balanced);
    })
