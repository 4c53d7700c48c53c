-- ===== src/ShardCfg/Membership/Leave.antt =====
-- Leave and LeaveBalance.
use mit.Base.{
  ◌+◌, ◌%◌, ◌^◌, ◌≡◌, refl, ap, ◌∙◌, ◌≢◌, Bool, true, false, List, [], ◌∷◌, arith, inl, inr, none,
  if◌then◌else◌, ◌&&◌, not, Bool-cases, length, contains, Distinct, String,
}
use mit.Base.Int.{int_eq, beq_ℤ_iff}
use mit.Base.Maps.{Map, keys, has, lookup, erase, lookup-erase, Distinct-erase}
use mit.Base.Exec.{returns}
use mit.ShardCfg.{
  Tgid, ShardConfig, nshards, bump_num, leave_from, leave, leave_balance, check_config,
}
use mit.ShardCfg.Rebalance.{rebalance-IsRebalanced}
use mit.ShardCfg.Check.{balanced_passes}

-- Whether every group of the list is there, and is named once.
unfoldable pub can_leave : List Tgid → Map Tgid (List String) → Bool
can_leave [] m = true
can_leave (g ∷ gs) m = has g m && not (contains g gs) && can_leave gs m

erase_all : List Tgid → Map Tgid (List String) → Map Tgid (List String)
erase_all [] m = m
erase_all (g ∷ gs) m = erase_all gs (erase g m)

lookup-erase_all :
    (gs : List Tgid) (m : Map Tgid (List String)) (g : Tgid)
    → lookup g (erase_all gs m) ≡ (if contains g gs then none else lookup g m)
unfolding erase_all contains
lookup-erase_all [] m g = refl
lookup-erase_all (x ∷ gs) m g =
    ground (arith, lookup-erase_all gs (erase x m) g, lookup-erase x g m)

Distinct-erase_all :
    (gs : List Tgid) (m : Map Tgid (List String))
    → Distinct (keys m)
    → Distinct (keys (erase_all gs m))
unfolding erase_all
Distinct-erase_all [] m d = d
Distinct-erase_all (x ∷ gs) m d = Distinct-erase_all gs (erase x m) (Distinct-erase x m d)

can_leave-erase :
    (gs : List Tgid) (x : Tgid) (m : Map Tgid (List String))
    → contains x gs ≡ false
    → can_leave gs (erase x m) ≡ can_leave gs m
unfolding can_leave contains
can_leave-erase [] x m h = refl
can_leave-erase (g ∷ gs) x m h =
    ground (arith, can_leave-erase gs x m, lookup-erase x g m, beq_ℤ_iff x g, beq_ℤ_iff g x)

-- A group that has left cannot leave again.
cannot_leave-erase :
    (gs : List Tgid) (x : Tgid) (m : Map Tgid (List String))
    → contains x gs ≡ true
    → can_leave gs (erase x m) ≡ false
unfolding can_leave contains
cannot_leave-erase [] x m h = cc
cannot_leave-erase (g ∷ gs) x m h =
    ground (arith, cannot_leave-erase gs x m, lookup-erase x g m, beq_ℤ_iff x g, beq_ℤ_iff g x)

can_leave_mono :
    (gs : List Tgid) (x : Tgid) (m : Map Tgid (List String))
    → can_leave gs m ≡ false
    → can_leave gs (erase x m) ≡ false
can_leave_mono gs x m h = elim (Bool-cases (contains x gs)) [
  | inl c ↦ cannot_leave-erase gs x m c
  | inr c ↦ can_leave-erase gs x m c ∙ h
]

leave_from-true :
    (gs : List Tgid) (changed : Bool) (cfg : ShardConfig)
    → (gs ≡ [] → changed ≡ true)
    → can_leave gs cfg.groups ≡ true
    → leave_from gs changed cfg
      ≡ returns (bump_num (record cfg { groups = erase_all gs cfg.groups }), true)
unfolding leave_from can_leave erase_all
leave_from-true [] changed cfg p h = rw (p refl) refl
leave_from-true (g ∷ gs) changed cfg p h =
    let absent : contains g gs ≡ false = ground arith in
    let rest : can_leave gs (erase g cfg.groups) ≡ true =
      can_leave-erase gs g cfg.groups absent ∙ ground arith in
    let here : has g cfg.groups ≡ true = ground arith in
    rw here (leave_from-true gs true (record cfg { groups = erase g cfg.groups }) (λ _. refl) rest)

leave_from-false :
    (gs : List Tgid) (changed : Bool) (cfg : ShardConfig)
    → can_leave gs cfg.groups ≡ false
    → (c' : ShardConfig) × (leave_from gs changed cfg ≡ returns (c', false))
      × (c'.num ≡ cfg.num)
      × (c'.shards ≡ cfg.shards)
unfolding leave_from can_leave
leave_from-false [] changed cfg h = cc
leave_from-false (g ∷ gs) changed cfg h = elim (Bool-cases (has g cfg.groups)) [
  | inr gone ↦ (cfg, rw gone refl, refl, refl)
  | inl here ↦
      let rest : can_leave gs (erase g cfg.groups) ≡ false = elim (Bool-cases (contains g gs)) [
        | inl twice ↦ cannot_leave-erase gs g cfg.groups twice
        | inr once ↦ can_leave-erase gs g cfg.groups once ∙ ground arith
      ] in
      let (c', ran, n, s) =
        leave_from-false gs true (record cfg { groups = erase g cfg.groups }) rest in
      (c', rw here ran, n, s)
]

pub record HasLeft (gids : List Tgid) (cfg c' : ShardConfig) : Type 0 where
  pub next_num : c'.num ≡ (cfg.num + 1) % 2 ^ 64
  pub same_shards : c'.shards ≡ cfg.shards
  pub groups_after :
      (g : Tgid) → lookup g c'.groups ≡ (if contains g gids then none else lookup g cfg.groups)
  pub distinct : Distinct (keys cfg.groups) → Distinct (keys c'.groups)

-- Leave of at least one group, all of them there and each named once, returns true: exactly those
-- are gone, the number moves by one, and the shards stay as they are.
pub leave-HasLeft :
    (gids : List Tgid) (cfg : ShardConfig)
    → gids ≢ []
    → can_leave gids cfg.groups ≡ true
    → (c' : ShardConfig) × (leave gids cfg ≡ returns (c', true)) × HasLeft gids cfg c'
unfolding leave
leave-HasLeft gids cfg p h = (
  bump_num (record cfg { groups = erase_all gids cfg.groups }),
  leave_from-true gids false cfg (λ e. absurd (p e)) h,
  record {
    next_num = refl;
    same_shards = refl;
    groups_after = lookup-erase_all gids cfg.groups;
    distinct = Distinct-erase_all gids cfg.groups;
  },
)

-- Leave of any other list returns false and keeps the number and the assignment.
pub leave_refused :
    (gids : List Tgid) (cfg : ShardConfig)
    → can_leave gids cfg.groups ≡ false
    → (c' : ShardConfig) × (leave gids cfg ≡ returns (c', false))
      × (c'.num ≡ cfg.num)
      × (c'.shards ≡ cfg.shards)
unfolding leave
leave_refused gids cfg h = leave_from-false gids false cfg h

-- Leave of a group that is there and then one that is not returns false, but is not undone: the
-- first group is gone, and the shards stay with it.
pub leave_partial :
    (g h : Tgid) (cfg : ShardConfig)
    → has g cfg.groups ≡ true
    → has h cfg.groups ≡ false
    → (c' : ShardConfig) × (leave (g ∷ h ∷ []) cfg ≡ returns (c', false))
      × (lookup g c'.groups ≡ none)
      × (c'.shards ≡ cfg.shards)
unfolding leave leave_from
leave_partial g h cfg p q = (
  record cfg { groups = erase g cfg.groups },
  ground (arith, lookup-erase g h cfg.groups),
  ground (arith, lookup-erase g g cfg.groups, beq_ℤ_iff g g),
  refl,
)

-- LeaveBalance of at least one group, all of them there and each named once, returns true for a
-- configuration of twelve shards: exactly those groups are gone, and the new configuration passes
-- CheckConfig against its own groups.
pub leave_balance-check_config :
    (gids : List Tgid) (cfg : ShardConfig)
    → gids ≢ []
    → can_leave gids cfg.groups ≡ true
    → length cfg.shards ≡ nshards
    → Distinct (keys cfg.groups)
    → (c' : ShardConfig) × (leave_balance gids cfg ≡ returns (c', true))
      × ((g : Tgid) → lookup g c'.groups ≡ (if contains g gids then none else lookup g cfg.groups))
      × (check_config c' (keys c'.groups) ≡ returns tt)
unfolding leave_balance
leave_balance-check_config gids cfg p h n d =
    let (c1, ran1, l) = leave-HasLeft gids cfg p h in
    let (c2, ran2, r) = rebalance-IsRebalanced c1 (ap length l.same_shards ∙ n) (l.distinct d) in
    (
      c2,
      rw ran1 (rw ran2 refl),
      (λ g. rw r.same_groups (l.groups_after g)),
      balanced_passes c1 c2 (ap length l.same_shards ∙ n) r,
    )
